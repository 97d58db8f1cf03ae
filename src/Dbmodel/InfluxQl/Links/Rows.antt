-- ===== src/Dbmodel/InfluxQl/Links/Rows.antt =====
-- What DependencyLinksFromResultV1 reads of the rows.
use jaeger_influxdb.Prelude.{
  Each, no_more, and_each, Each-append, ℕ, ◌≡◌, refl, ap, ◌∙◌, List, [], ◌∷◌, ◌++◌, Option, none,
  some, Text, All, get_elem?,
}
use jaeger_influxdb.Prelude.Outcome.{
  ok, >>=-eq-ok, ok_eq, or_panic-eq-ok, or_error, or_error-eq-ok, bad_span_id,
}
use jaeger_influxdb.Common.{span_id_key, service_name_key, references_key}
use jaeger_influxdb.Dbmodel.Model.{Ids}
use jaeger_influxdb.Dbmodel.References.{references_from_string}
use jaeger_influxdb.Dbmodel.Flux.Traces.{ended}
use jaeger_influxdb.Dbmodel.Dependencies.{Calls, add_call}
use jaeger_influxdb.Dbmodel.Dependencies.Parents.{ended_eq}
use jaeger_influxdb.Dbmodel.Flux.Rows.{no_fault}
use jaeger_influxdb.Dbmodel.Dependencies.Gathered.{CallRow, gather, gather-append}
use jaeger_influxdb.Dbmodel.InfluxQl.{
  Value, nil_value, string_json, number_json, bool_json, other_json, Row, Result, At, as_string,
  column, value_at, optional_at,
}
use jaeger_influxdb.Dbmodel.InfluxQl.Links.{
  references_text, call_row, call_rows, call_series, call_results,
}

-- The lists of values of rows and results, in order, each with the columns of its row.
abbrev pub with_columns : List Text → List (List Value) → List (List Text × List Value)
with_columns columns [] = []
with_columns columns (v ∷ vs) = (columns, v) ∷ with_columns columns vs

abbrev pub series_values : List Row → List (List Text × List Value)
series_values [] = []
series_values (row ∷ rows) = with_columns row.columns row.values ++ series_values rows

abbrev pub result_values : List Result → List (List Text × List Value)
result_values [] = []
result_values (r ∷ rs) = series_values r.series ++ result_values rs

-- The text of the references: the empty one where there is no such column or its value is nil.
pub data ReferenceText (columns : List Text) (v : List Value) : Text → Type 0 where
  no_column : column references_key columns ≡ none → ReferenceText columns v []
  no_value : At columns v references_key nil_value → ReferenceText columns v []
  a_text : {s : Text} → At columns v references_key (string_json s) → ReferenceText columns v s

-- What a list of values says of a call: its span, its service and its references.
pub record ValuesCall (ids : Ids) (row : List Text × List Value) (c : CallRow) : Type 0 where
  pub id_text : Text
  pub id : At row.0 row.1 span_id_key (string_json id_text)
  pub parsed : ids.span_id_from_string id_text ≡ some c.span
  pub service : At row.0 row.1 service_name_key (string_json c.service)
  pub text : Text
  pub given : ReferenceText row.0 row.1 text
  pub references : references_from_string ids text ≡ ok c.references

value_at-At :
    (columns : List Text) (v : List Value) (k : Text) (value : Value)
    → value_at v (column k columns) ≡ ok value
    → At columns v k value
value_at-At columns v k value e = go (column k columns) refl e
  where
    go : (o : Option ℕ) → column k columns ≡ o → value_at v o ≡ ok value → At columns v k value
    go none c h = cc
    go (some i) c h = (i, c, or_panic-eq-ok (get_elem? v i) value h)

as_string-eq-ok : (value : Value) (s : Text) → as_string value ≡ ok s → value ≡ string_json s
as_string-eq-ok nil_value s e = cc
as_string-eq-ok (string_json t) s e = ap string_json (ok_eq e)
as_string-eq-ok (number_json t) s e = cc
as_string-eq-ok (bool_json b) s e = cc
as_string-eq-ok other_json s e = cc

string_at :
    (columns : List Text) (v : List Value) (k s : Text) (value : Value)
    → value_at v (column k columns) ≡ ok value
    → as_string value ≡ ok s
    → At columns v k (string_json s)
string_at columns v k s value e f =
    value_at-At columns v k (string_json s) (e ∙ ap ok (as_string-eq-ok value s f))

module _ (ids : Ids) where
  text_at :
      (columns : List Text) (v : List Value) (i : ℕ) (value : Value) (s : Text)
      → column references_key columns ≡ some i
      → get_elem? v i ≡ some value
      → references_text ids value ≡ ok s
      → ReferenceText columns v s
  unfolding references_text
  text_at columns v i nil_value s c g e = rw (← ok_eq e) (no_value (i, c, g))
  text_at columns v i (string_json t) s c g e = rw (← ok_eq e) (a_text (i, c, g))
  text_at columns v i (number_json t) s c g e = cc
  text_at columns v i (bool_json b) s c g e = cc
  text_at columns v i other_json s c g e = cc

  text_of :
      (columns : List Text) (v : List Value) (value : Value) (s : Text)
      → optional_at v (column references_key columns) ≡ ok value
      → references_text ids value ≡ ok s
      → ReferenceText columns v s
  unfolding references_text
  text_of columns v value s e f = go (column references_key columns) refl e
    where
      go :
          (o : Option ℕ)
          → column references_key columns ≡ o
          → optional_at v o ≡ ok value
          → ReferenceText columns v s
      go none c h = rw (← ok_eq (ap (references_text ids) (ok_eq h) ∙ f)) (no_column c)
      go (some i) c h = text_at columns v i value s c (or_panic-eq-ok (get_elem? v i) value h) f

  call_row-ValuesCall :
      (columns : List Text) (calls next : Calls) (v : List Value)
      → call_row ids columns calls v ≡ ok next
      → (c : CallRow) × ValuesCall ids (columns, v) c
        × (add_call calls c.span c.service c.references ≡ next)
  unfolding call_row
  call_row-ValuesCall columns calls next v e =
      let (id_value, e1, r1) = >>=-eq-ok (value_at v (column span_id_key columns)) _ e in
      let (id_text, e2, r2) = >>=-eq-ok (as_string id_value) _ r1 in
      let (id, e3, r3) = >>=-eq-ok (or_error bad_span_id (ids.span_id_from_string id_text)) _ r2 in
      let (service_value, e4, r4) = >>=-eq-ok (value_at v (column service_name_key columns)) _ r3 in
      let (service, e5, r5) = >>=-eq-ok (as_string service_value) _ r4 in
      let (reference_value, e6, r6) =
        >>=-eq-ok (optional_at v (column references_key columns)) _ r5 in
      let (text, e7, r7) = >>=-eq-ok (references_text ids reference_value) _ r6 in
      let (rs, e8, r8) = >>=-eq-ok (references_from_string ids text) _ r7 in
      (
        record { span = id; service = service; references = rs },
        record {
          id_text = id_text;
          id = string_at columns v span_id_key id_text id_value e1 e2;
          parsed = or_error-eq-ok bad_span_id _ id e3;
          service = string_at columns v service_name_key service service_value e4 e5;
          text = text;
          given = text_of columns v reference_value text e6 e7;
          references = e8;
        },
        ok_eq r8,
      )

  call_rows-Each :
      (columns : List Text) (vs : List (List Value)) (calls next : Calls)
      → call_rows ids columns calls vs ≡ ok next
      → (cs : List CallRow) × Each (ValuesCall ids) (with_columns columns vs) cs
        × (gather cs calls ≡ next)
  unfolding call_rows
  call_rows-Each columns [] calls next e = ([], no_more, ok_eq e)
  call_rows-Each columns (v ∷ vs) calls next e =
      let (read, p, q) = >>=-eq-ok (call_row ids columns calls v) _ e in
      let (c, h, same) = call_row-ValuesCall columns calls read v p in
      let (cs, hs, rest) = call_rows-Each columns vs read next q in
      (c ∷ cs, and_each h hs, ap (gather cs) same ∙ rest)

  call_series-Each :
      (rows : List Row) (calls next : Calls)
      → call_series ids calls rows ≡ ok next
      → (cs : List CallRow) × Each (ValuesCall ids) (series_values rows) cs
        × (gather cs calls ≡ next)
  unfolding call_series
  call_series-Each [] calls next e = ([], no_more, ok_eq e)
  call_series-Each (row ∷ rows) calls next e =
      let (read, p, q) = >>=-eq-ok (call_rows ids row.columns calls row.values) _ e in
      let (cs, h, same) = call_rows-Each row.columns row.values calls read p in
      let (ds, hs, rest) = call_series-Each rows read next q in
      (cs ++ ds, Each-append h hs, gather-append cs ds calls ∙ ap (gather ds) same ∙ rest)

  pub call_results-Each :
      (rs : List Result) (calls next : Calls)
      → call_results ids calls rs ≡ ok next
      → (cs : List CallRow) × Each (ValuesCall ids) (result_values rs) cs
        × (gather cs calls ≡ next)
        × All (λ r. r.fault ≡ none) rs
  unfolding call_results
  call_results-Each [] calls next e = ([], no_more, ok_eq e, tt)
  call_results-Each (r ∷ rs) calls next e =
      let (same, p, r1) = >>=-eq-ok (ended r.fault calls) _ e in
      let (read, q, r2) = >>=-eq-ok (call_series ids same r.series) _ r1 in
      let (cs, h, gathered) = call_series-Each r.series same read q in
      let (ds, hs, rest, faults) = call_results-Each rs read next r2 in
      (
        cs ++ ds,
        Each-append h hs,
        gather-append cs ds calls
            ∙ ap (λ k. gather ds (gather cs k)) (ended_eq r.fault p)
            ∙ ap (gather ds) gathered
            ∙ rest,
        (no_fault _ _ r.fault p, faults),
      )
