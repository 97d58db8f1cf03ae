-- ===== src/Dbmodel/InfluxQl/Links/Complete.antt =====
-- DependencyLinksFromResultV1 from the rows to the links.
use mathlib.Core.Path.{subst}
use jaeger_influxdb.Prelude.{Each, ◌≡◌, none, List, [], ◌∷◌, Text, All}
use jaeger_influxdb.Prelude.Dict.{Dict}
use jaeger_influxdb.Prelude.Orders.{IsRange}
use jaeger_influxdb.Prelude.Outcome.{
  ok, >>=-eq-ok, ok_eq, Returns, bind-Returns, Returns-eq, or_error, or_error-eq-ok, bad_span_id,
}
use jaeger_influxdb.Common.{span_id_key, service_name_key, references_key}
use jaeger_influxdb.Dbmodel.Model.{SpanId, Ids, IdLaws}
use jaeger_influxdb.Dbmodel.References.{references_from_string}
use jaeger_influxdb.Dbmodel.References.Bounds.{references_from_string-bound}
use jaeger_influxdb.Dbmodel.Flux.Traces.{ended}
use jaeger_influxdb.Dbmodel.Dependencies.{DependencyLink, Calls, no_calls}
use jaeger_influxdb.Dbmodel.Dependencies.Parents.{IsCalls, RefIds, add_call-IsParents, ended_eq}
use jaeger_influxdb.Dbmodel.Dependencies.Gathered.{CallRow, Linked, dependency_links-Linked}
use jaeger_influxdb.Dbmodel.InfluxQl.{Value, Row, Result, as_string, column, value_at, optional_at}
use jaeger_influxdb.Dbmodel.InfluxQl.Links.{
  references_text, call_row, call_rows, call_series, call_results, dependency_links_from_result_v1,
}
use jaeger_influxdb.Dbmodel.InfluxQl.Links.Rows.{ValuesCall, result_values, call_results-Each}

module _ (ids : Ids) (laws : IdLaws ids) where
  call_row-IsCalls :
      (columns : List Text) (calls : Calls) (v : List Value)
      → IsCalls calls
      → Returns IsCalls (call_row ids columns calls v)
  unfolding call_row
  call_row-IsCalls columns calls v h =
      bind-Returns IsCalls (value_at v (column span_id_key columns)) _ λ id_value _.
        bind-Returns IsCalls (as_string id_value) _ λ id_text _.
          bind-Returns IsCalls (or_error bad_span_id (ids.span_id_from_string id_text)) _ λ id q.
            bind-Returns IsCalls (value_at v (column service_name_key columns)) _ λ service_value _.
              bind-Returns IsCalls (as_string service_value) _ λ service _.
                bind-Returns IsCalls (optional_at v (column references_key columns)) _
                  λ refs_value _. bind-Returns IsCalls (references_text ids refs_value) _ λ text _.
                    bind-Returns IsCalls (references_from_string ids text) _ λ rs w.
                      add_call-IsParents calls id service rs
                        (laws.span_id_bound id_text (or_error-eq-ok bad_span_id _ id q))
                        (Returns-eq RefIds _ rs (references_from_string-bound ids laws text) w) h

  call_rows-IsCalls :
      (columns : List Text) (vs : List (List Value)) (calls : Calls)
      → IsCalls calls
      → Returns IsCalls (call_rows ids columns calls vs)
  unfolding call_rows
  call_rows-IsCalls columns [] calls h = h
  call_rows-IsCalls columns (v ∷ vs) calls h =
      bind-Returns IsCalls (call_row ids columns calls v) _ λ next p.
        call_rows-IsCalls columns vs next
          (Returns-eq IsCalls _ next (call_row-IsCalls columns calls v h) p)

  call_series-IsCalls :
      (rows : List Row) (calls : Calls)
      → IsCalls calls
      → Returns IsCalls (call_series ids calls rows)
  unfolding call_series
  call_series-IsCalls [] calls h = h
  call_series-IsCalls (row ∷ rows) calls h =
      bind-Returns IsCalls (call_rows ids row.columns calls row.values) _ λ next p.
        call_series-IsCalls rows next
          (Returns-eq IsCalls _ next (call_rows-IsCalls row.columns row.values calls h) p)

  call_results-IsCalls :
      (rs : List Result) (calls : Calls)
      → IsCalls calls
      → Returns IsCalls (call_results ids calls rs)
  unfolding call_results
  call_results-IsCalls [] calls h = h
  call_results-IsCalls (r ∷ rs) calls h = bind-Returns IsCalls (ended r.fault calls) _ λ same p.
      bind-Returns IsCalls (call_series ids same r.series) _ λ next q.
        call_results-IsCalls rs next (
          Returns-eq IsCalls _ next
            (call_series-IsCalls r.series same (subst IsCalls (ended_eq r.fault p) h)) q)

  -- The links of results whose rows were all read.
  pub record LinksOfRows (results : List Result) (links : List DependencyLink) : Type 0 where
    pub calls : List CallRow
    pub faultless : All (λ r. r.fault ≡ none) results
    pub read : Each (ValuesCall ids) (result_values results) calls
    pub linked : Linked calls links

  -- Where DependencyLinksFromResultV1 returns links, the maps are ranged over in some order of
  -- their entries and the laws on the text of IDs hold: no result is an error and each list of
  -- values of each row has been read as a call, with the span ID, the service and the references of
  -- its columns. The links are, in some order, one for each span that is given a parent by a
  -- CHILD_OF reference, the last such reference of its values, with the services that the last values
  -- of the two spans give and a call count of 1, but for those whose two services are the same.
  pub dependency_links_from_result_v1-perm :
      {range : Dict SpanId SpanId → List (SpanId × SpanId)}
      {range_links : Dict Text DependencyLink → List (Text × DependencyLink)}
      (results : List Result) (links : List DependencyLink)
      → IsRange range
      → IsRange range_links
      → dependency_links_from_result_v1 ids range range_links results ≡ ok links
      → LinksOfRows results links
  unfolding dependency_links_from_result_v1
  dependency_links_from_result_v1-perm results links hr hl e =
      let (calls, p, q) = >>=-eq-ok (call_results ids no_calls results) _ e in
      let (cs, read, gathered, faultless) = call_results-Each ids results no_calls calls p in
      record {
        calls = cs;
        faultless = faultless;
        read = read;
        linked =
            dependency_links-Linked ids laws cs calls links hr hl gathered
              (Returns-eq IsCalls _ calls
                (call_results-IsCalls results no_calls (record { distinct = tt; bounded = tt })) p)
              (ok_eq q);
      }
