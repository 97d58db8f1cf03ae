-- ===== src/Dbmodel/Dependencies/Result.antt =====
-- DependencyLinksFromResultV2 from the rows of the tables to the links.
use jaeger_influxdb.Prelude.{
  Each, no_more, and_each, Each-append, ◌≡◌, sym, ap, ◌∙◌, List, [], ◌∷◌, ◌++◌, Option, none, some,
  Text, All,
}
use jaeger_influxdb.Prelude.Dict.{Dict}
use jaeger_influxdb.Prelude.Orders.{IsRange}
use jaeger_influxdb.Prelude.Outcome.{
  ok, >>=-eq-ok, ok_eq, Returns-eq, or_panic, or_panic-eq-ok, or_error, or_error-eq-ok, bad_span_id,
}
use jaeger_influxdb.Common.{span_id_key, service_name_key, references_key}
use jaeger_influxdb.Dbmodel.Model.{SpanId, SpanRef, Ids, IdLaws}
use jaeger_influxdb.Dbmodel.References.{references_from_string}
use jaeger_influxdb.Dbmodel.Flux.{Cell, Row, strings}
use jaeger_influxdb.Dbmodel.Flux.Rows.{TextAt, table_rows, no_fault}
use jaeger_influxdb.Dbmodel.Flux.Traces.{Table, last_column, ended}
use jaeger_influxdb.Dbmodel.Dependencies.{
  DependencyLink, Calls, no_calls, add_call, flux_references, flux_row, flux_rows, flux_tables,
  dependency_links_from_result_v2,
}
use jaeger_influxdb.Dbmodel.Dependencies.Parents.{IsCalls, flux_tables-IsCalls, ended_eq}
use jaeger_influxdb.Dbmodel.Dependencies.Gathered.{
  CallRow, gather, gather-append, Linked, dependency_links-Linked,
}

module _ (ids : Ids) {F : Type 0} where
  -- What a row says of a call: its span and its service, and its references, none where the table
  -- has no such column.
  pub record FluxCall (row : Row F) (c : CallRow) : Type 0 where
    pub id_text : Text
    pub id : TextAt span_id_key row id_text
    pub parsed : ids.span_id_from_string id_text ≡ some c.span
    pub service : TextAt service_name_key row c.service
    pub no_column : last_column references_key row ≡ none → c.references ≡ []
    pub references :
        (s : Text) → TextAt references_key row s → references_from_string ids s ≡ ok c.references

  no_references :
      (o : Option (Cell F)) (rs : List SpanRef) → flux_references ids o ≡ ok rs → o ≡ none → rs ≡ []
  unfolding flux_references
  no_references o rs e n = sym (ok_eq (rw n at e))

  some_references :
      (o : Option (Cell F)) (rs : List SpanRef)
      → flux_references ids o ≡ ok rs
      → (cell : Cell F) (s : Text) → o ≡ some cell
      → strings cell ≡ ok s
      → references_from_string ids s ≡ ok rs
  unfolding flux_references
  some_references o rs e cell s n h = rw (n, h) at e

  flux_row-FluxCall :
      (calls next : Calls) (row : Row F)
      → flux_row ids calls row ≡ ok next
      → (c : CallRow) × FluxCall row c × (add_call calls c.span c.service c.references ≡ next)
  unfolding flux_row
  flux_row-FluxCall calls next row e =
      let (id_cell, e1, r1) = >>=-eq-ok (or_panic (last_column span_id_key row)) _ e in
      let (id_text, e2, r2) = >>=-eq-ok (strings id_cell) _ r1 in
      let (id, e3, r3) = >>=-eq-ok (or_error bad_span_id (ids.span_id_from_string id_text)) _ r2 in
      let (service_cell, e4, r4) = >>=-eq-ok (or_panic (last_column service_name_key row)) _ r3 in
      let (service, e5, r5) = >>=-eq-ok (strings service_cell) _ r4 in
      let (rs, e6, r6) = >>=-eq-ok (flux_references ids (last_column references_key row)) _ r5 in
      (
        record { span = id; service = service; references = rs },
        record {
          id_text = id_text;
          id = (id_cell, or_panic-eq-ok _ id_cell e1, e2);
          parsed = or_error-eq-ok bad_span_id _ id e3;
          service = (service_cell, or_panic-eq-ok _ service_cell e4, e5);
          no_column = no_references _ rs e6;
          references = λ s h. some_references _ rs e6 h.0 s h.1 h.2;
        },
        ok_eq r6,
      )

  flux_rows-Each :
      (rows : List (Row F)) (calls next : Calls)
      → flux_rows ids calls rows ≡ ok next
      → (cs : List CallRow) × Each FluxCall rows cs × (gather cs calls ≡ next)
  unfolding flux_rows
  flux_rows-Each [] calls next e = ([], no_more, ok_eq e)
  flux_rows-Each (row ∷ rows) calls next e =
      let (read, p, q) = >>=-eq-ok (flux_row ids calls row) _ e in
      let (c, h, same) = flux_row-FluxCall calls read row p in
      let (cs, hs, rest) = flux_rows-Each rows read next q in
      (c ∷ cs, and_each h hs, ap (gather cs) same ∙ rest)

  flux_tables-Each :
      (tables : List (Table F)) (calls next : Calls)
      → flux_tables ids calls tables ≡ ok next
      → (cs : List CallRow) × Each FluxCall (table_rows tables) cs
        × (gather cs calls ≡ next)
        × All (λ table. table.fault ≡ none) tables
  unfolding flux_tables
  flux_tables-Each [] calls next e = ([], no_more, ok_eq e, tt)
  flux_tables-Each (table ∷ tables) calls next e =
      let (read, p, r) = >>=-eq-ok (flux_rows ids calls table.rows) _ e in
      let (done, q, r') = >>=-eq-ok (ended table.fault read) _ r in
      let (cs, h, same) = flux_rows-Each table.rows calls read p in
      let (ds, hs, rest, faults) = flux_tables-Each tables done next r' in
      (
        cs ++ ds,
        Each-append h hs,
        gather-append cs ds calls ∙ ap (gather ds) (same ∙ ended_eq table.fault q) ∙ rest,
        (no_fault _ _ table.fault q, faults),
      )

  -- The links of tables whose rows were all read.
  pub record LinksOf (tables : List (Table F)) (links : List DependencyLink) : Type 0 where
    pub calls : List CallRow
    pub faultless : All (λ table. table.fault ≡ none) tables
    pub read : Each FluxCall (table_rows tables) calls
    pub linked : Linked calls links

  -- Where DependencyLinksFromResultV2 returns links, the maps are ranged over in some order of
  -- their entries and the laws on the text of IDs hold: no table ended with an error and each row
  -- of each table has been read as a call, with the span ID, the service and the references of its
  -- columns. The links are, in some order, one for each span that a row gives a parent by a CHILD_OF
  -- reference, the last such reference of its rows, with the services that the last rows of the two
  -- spans give and a call count of 1, but for those whose two services are the same. No two calls
  -- are counted on one link.
  pub dependency_links_from_result_v2-perm :
      (laws : IdLaws ids)
      → {range : Dict SpanId SpanId → List (SpanId × SpanId)}
        {range_links : Dict Text DependencyLink → List (Text × DependencyLink)}
        (tables : List (Table F)) (links : List DependencyLink)
      → IsRange range
      → IsRange range_links
      → dependency_links_from_result_v2 ids range range_links tables ≡ ok links
      → LinksOf tables links
  unfolding dependency_links_from_result_v2
  dependency_links_from_result_v2-perm laws {range} {range_links} tables links hr hl e =
      let (calls, p, q) = >>=-eq-ok (flux_tables ids no_calls tables) _ e in
      let (cs, read, gathered, faultless) = flux_tables-Each tables no_calls calls p in
      record {
        calls = cs;
        faultless = faultless;
        read = read;
        linked =
            dependency_links-Linked ids laws cs calls links hr hl gathered
              (Returns-eq IsCalls _ calls
                (flux_tables-IsCalls ids laws tables no_calls
                  (record { distinct = tt; bounded = tt }))
                p)
              (ok_eq q);
      }
