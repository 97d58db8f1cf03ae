-- ===== src/Dbmodel/InfluxQl.antt =====
-- What dbmodel/to_domain_v1.go reads of an InfluxQL response: rows of dynamic values under the
-- names of their columns.
pub mod Links
pub mod Traces
pub mod SpanLogs
pub mod Written
pub mod Columns
use jaeger_influxdb.Prelude.{
  ◌≡◌, ℕ, zero, suc, Bool, true, false, ◌||◌, List, [], ◌∷◌, Option, none, some, Text, get_elem?,
  if◌then◌else◌,
}
use jaeger_influxdb.Prelude.Dict.{Dict, lookup}
use jaeger_influxdb.Prelude.Eq.{Text_eq, text_eq}
use jaeger_influxdb.Prelude.Outcome.{
  Outcome, ok, err, panic, ◌>>=◌, or_panic, Error, bad_trace_id, no_trace_id,
}
use jaeger_influxdb.Common.{trace_id_key}
use jaeger_influxdb.Dbmodel.Model.{TraceId, no_trace, trace_eq, Ids}

-- The dynamic types of a value that is decoded from JSON; a number is kept as its text.
pub data Value : Type 0 where
  nil_value : Value
  string_json : Text → Value
  number_json : Text → Value
  bool_json : Bool → Value
  other_json : Value

-- `models.Row`
pub record Row : Type 0 where
  pub tags : Dict Text Text
  pub columns : List Text
  pub values : List (List Value)

-- `client.Result`, with the error that it may be instead.
pub record Result : Type 0 where
  pub series : List Row
  pub fault : Option Error

-- `v.(string)`
abbrev pub as_string : Value → Outcome Text
as_string (string_json s) = ok s
as_string _ = panic

-- `v.(json.Number)`
abbrev pub as_number : Value → Outcome Text
as_number (number_json s) = ok s
as_number _ = panic

-- The index of the last column with the name; `none` stands for -1.
pub column_from : ℕ → Text → List Text → Option ℕ
column_from i name [] = none
column_from i name (c ∷ cs) = elim (column_from (suc i) name cs) [
  | none ↦ (if text_eq c name then some i else none)
  | some j ↦ some j
]

unfoldable pub column : Text → List Text → Option ℕ
unfolding column_from
column name columns = column_from 0 name columns

-- `v[colI]`, which panics out of range and at -1.
abbrev pub value_at : List Value → Option ℕ → Outcome Value
value_at v none = panic
value_at v (some i) = or_panic (get_elem? v i)

-- The value that a row of values has in the last column of a name.
abbrev pub At : List Text → List Value → Text → Value → Type 0
At columns v k value = (i : ℕ) × (column k columns ≡ some i) × (get_elem? v i ≡ some value)

-- The value at a column that may be missing, where it is not nil.
abbrev pub optional_at : List Value → Option ℕ → Outcome Value
optional_at v none = ok nil_value
optional_at v (some i) = or_panic (get_elem? v i)

-- The trace ID of the row's tags with the errors that are noted about it.
parsed_trace : Option TraceId → TraceId × List Error
parsed_trace none = (no_trace, bad_trace_id ∷ no_trace_id ∷ [])
parsed_trace (some t) = (t, (if trace_eq t no_trace then no_trace_id ∷ [] else []))

unfoldable pub row_trace_id : Ids → Row → TraceId × List Error
unfolding parsed_trace
row_trace_id ids row = elim (lookup trace_id_key row.tags) [
  | none ↦ (no_trace, no_trace_id ∷ [])
  | some s ↦ parsed_trace (ids.trace_id_from_string s)
]

is_in : List Text → Text → Bool
is_in [] c = false
is_in (n ∷ ns) c = text_eq n c || is_in ns c

-- `jaegerTagKeysByColI`: the columns that have none of the names, by their indices.
unfoldable pub other_columns : List Text → ℕ → List Text → Dict ℕ Text
unfolding is_in
other_columns names i [] = []
other_columns names i (c ∷ cs) =
    let rest = other_columns names (suc i) cs in if is_in names c then rest else (i, c) ∷ rest
