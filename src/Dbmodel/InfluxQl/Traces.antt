-- ===== src/Dbmodel/InfluxQl/Traces.antt =====
-- TraceFromInfluxQLRow and TracesFromInfluxQLResponse of dbmodel/to_domain_v1.go.
pub mod Identity
pub mod Rows
use jaeger_influxdb.Prelude.{
  ℕ, Bool, List, [], ◌∷◌, ◌++◌, map, Option, none, some, Text, get_elem?, if◌then◌else◌,
}
use jaeger_influxdb.Prelude.Dict.{Dict}
use jaeger_influxdb.Prelude.Int.{ℤ, pos, wrap64}
use jaeger_influxdb.Prelude.Outcome.{
  Outcome, ok, err, panic, ◌>>=◌, ◌>>◌, or_error, or_panic, Error, bad_span_id, no_time, bad_time,
  no_span_id, no_service_name, no_operation_name, bad_number,
}
use jaeger_influxdb.Common.{
  time_v1_key, service_name_key, operation_name_key, span_id_key, duration_key, flags_key,
  process_tag_keys_key, references_key,
}
use jaeger_influxdb.Go.Decimal.{parse_int}
use jaeger_influxdb.Go.Strings.{split}
use jaeger_influxdb.Dbmodel.Model.{KeyValue, SpanRef, TraceId, Span, Time, Floats, Ids}
use jaeger_influxdb.Dbmodel.KeyValue.{strings_to_key_value}
use jaeger_influxdb.Dbmodel.References.{references_from_string}
use jaeger_influxdb.Dbmodel.SpanTime.{remove_span_id_from_time}
use jaeger_influxdb.Dbmodel.Flux.{u32, wrap}
use jaeger_influxdb.Dbmodel.Flux.Span.{contains}
use jaeger_influxdb.Dbmodel.Flux.Traces.{Trace}
use jaeger_influxdb.Dbmodel.InfluxQl.{
  Value, nil_value, string_json, number_json, Row, Result, as_string, column, value_at, optional_at,
  row_trace_id, other_columns,
}

-- The names that have a column index of their own.
abbrev pub span_columns : List Text
span_columns =
    time_v1_key ∷ service_name_key ∷ operation_name_key ∷ span_id_key ∷ duration_key ∷ flags_key
    ∷ process_tag_keys_key ∷ references_key ∷ []

-- `v[colI].(json.Number).Int64()` at a column that may be missing or nil.
unfoldable pub optional_int : Value → Outcome ℤ
optional_int nil_value = ok (pos 0)
optional_int (number_json s) = or_error bad_number (parse_int s)
optional_int _ = panic

unfoldable pub process_keys : Value → Outcome (List Text)
process_keys nil_value = ok []
process_keys (string_json s) = ok (split s b',')
process_keys _ = panic

-- What one round of the loop over the values adds: its spans and the errors that it notes. An
-- error that ends the round is noted too.
abbrev pub Round : Type 0 → Type 0
Round F = List (Span F) × List Error

abbrev pub note : {F : Type 0} → Outcome (Round F) → Outcome (Round F)
note (ok r) = ok r
note (err e) = ok ([], e ∷ [])
note panic = panic

abbrev pub behind : {F : Type 0} → List Error → Outcome (Round F) → Outcome (Round F)
behind errs (ok (spans, more)) = ok (spans, errs ++ more)
behind errs (err e) = err e
behind errs panic = panic

-- What the loop over the tags has gathered.
pub record RowTags (F : Type 0) : Type 0 where
  pub process : List (KeyValue F)
  pub tags : List (KeyValue F)
  pub errs : List Error

-- `range` is the order in which a row's map of columns is ranged over.
module _ {F : Type 0} (floats : Floats F) (ids : Ids) (parse_time : Text → Option Time)
    (range : List Value → Dict ℕ Text → List (ℕ × Text)) where
  -- The result is dereferenced, which panics at the nil of an empty value.
  add_tag : Bool → RowTags F → Outcome (Option (KeyValue F)) → Outcome (RowTags F)
  add_tag of_process g (ok none) = panic
  add_tag of_process g (ok (some kv)) = ok (
      if of_process
      then record g { process = g.process ++ kv ∷ [] }
      else record g { tags = g.tags ++ kv ∷ [] })
  add_tag of_process g (err e) = ok (record g { errs = g.errs ++ e ∷ [] })
  add_tag of_process g panic = panic

  unfoldable pub row_tag : List Text → RowTags F → Text → Value → Outcome (RowTags F)
  unfolding add_tag
  row_tag keys g key nil_value = ok g
  row_tag keys g key (string_json s) =
      add_tag (contains keys key) g (strings_to_key_value floats key s)
  row_tag keys g key _ = panic

  unfoldable pub row_tags :
      List Text → List Value → RowTags F → List (ℕ × Text) → Outcome (RowTags F)
  unfolding row_tag
  row_tags keys v g [] = ok g
  row_tags keys v g ((i, key) ∷ rest) = do
    value ← value_at v (some i)
    next ← row_tag keys g key value
    row_tags keys v next rest

  unfoldable pub row_references : TraceId → Value → Outcome (List SpanRef)
  row_references t nil_value = ok []
  row_references t (string_json s) = do
    rs ← references_from_string ids s
    ok (map (λ (r : SpanRef). record r { trace_id = t }) rs)
  row_references t _ = panic

  -- The round behind the loop over the tags: the flags, the duration and the operation name.
  unfoldable pub rest_of_span : List Text → List Value → Span F → Outcome (Round F)
  unfolding optional_int column
  rest_of_span columns v span = do
    flags_value ← optional_at v (column flags_key columns)
    flags ← optional_int flags_value
    duration_value ← optional_at v (column duration_key columns)
    duration ← optional_int duration_value
    i ← or_error no_operation_name (column operation_name_key columns)
    name_value ← value_at v (some i)
    name ← as_string name_value
    ok (record span { flags = u32 flags; duration = duration; operation_name = name } ∷ [], [])

  unfoldable pub span_round : List Text → TraceId → List Value → Outcome (Round F)
  unfolding row_tags row_references rest_of_span process_keys column
  span_round columns t v = note (do
    time_i ← or_error no_time (column time_v1_key columns)
    time_value ← value_at v (some time_i)
    time_text ← as_string time_value
    start ← or_error bad_time (parse_time time_text)
    id_i ← or_error no_span_id (column span_id_key columns)
    id_value ← value_at v (some id_i)
    id_text ← as_string id_value
    id ← or_error bad_span_id (ids.span_id_from_string id_text)
    reference_value ← optional_at v (column references_key columns)
    references ← row_references t reference_value
    service_i ← or_error no_service_name (column service_name_key columns)
    service_value ← value_at v (some service_i)
    service ← as_string service_value
    keys_value ← optional_at v (column process_tag_keys_key columns)
    keys ← process_keys keys_value
    g ←
        row_tags keys v (record { process = []; tags = []; errs = [] })
          (range v (other_columns span_columns 0 columns))
    behind g.errs (
        note (
          rest_of_span columns v (record {
            trace_id = t;
            span_id = id;
            operation_name = [];
            references = references;
            flags = 0;
            start_time = remove_span_id_from_time (wrap64 start);
            duration = pos 0;
            tags = g.tags;
            logs = [];
            process = record { service_name = service; tags = g.process };
          }))))

  unfoldable pub span_rounds : List Text → TraceId → List (List Value) → Outcome (Round F)
  unfolding span_round
  span_rounds columns t [] = ok ([], [])
  span_rounds columns t (v ∷ vs) = do
    (spans, errs) ← span_round columns t v
    (more, more_errs) ← span_rounds columns t vs
    ok (spans ++ more, errs ++ more_errs)

  unfoldable pub trace_from_influxql_row : Row → Outcome (Trace F)
  unfolding span_rounds
  trace_from_influxql_row row = do
    let (t, noted) = row_trace_id ids row
    wrap noted tt
    (spans, errs) ← span_rounds row.columns t row.values
    wrap errs (record { spans = spans })

  traces_from_series : List Row → Outcome (List (Trace F))
  unfolding trace_from_influxql_row
  traces_from_series [] = ok []
  traces_from_series (row ∷ rows) = do
    trace ← trace_from_influxql_row row
    traces ← traces_from_series rows
    ok (trace ∷ traces)

  -- The error that a result may hold is not looked at.
  unfoldable pub traces_from_influxql_response : List Result → Outcome (List (Trace F))
  unfolding traces_from_series
  traces_from_influxql_response [] = ok []
  traces_from_influxql_response (r ∷ rs) = do
    traces ← traces_from_series r.series
    more ← traces_from_influxql_response rs
    ok (traces ++ more)
