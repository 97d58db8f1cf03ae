-- ===== src/Dbmodel/InfluxQl/SpanLogs.antt =====
-- AppendSpanLogsFromInfluxQLResponse of dbmodel/to_domain_v1.go. The spans are shared by the traces
-- and by the map that finds them; the map holds their places in the traces.
pub mod Unchanged
use mathlib.Core.Option
use jaeger_influxdb.Prelude.{
  ℕ, zero, suc, ◌+◌, Bool, List, [], ◌∷◌, ◌++◌, Option, none, some, Text, get_elem?, set, nat_eq,
  if◌then◌else◌,
}
use jaeger_influxdb.Prelude.Dict.{Dict, lookup, insert}
use jaeger_influxdb.Prelude.Eq.{ℕ_eq}
use jaeger_influxdb.Prelude.Int.{pos}
use jaeger_influxdb.Prelude.Outcome.{
  Outcome, ok, err, panic, ◌>>=◌, or_error, Error, bad_time, bad_span_id, bad_prefix, bad_base64,
  unsupported_type,
}
use jaeger_influxdb.Common.{time_v1_key, span_id_key}
use jaeger_influxdb.Go.Base64
use jaeger_influxdb.Dbmodel.Model.{
  KeyValue, string_type, bool_type, float64_type, Log, SpanId, TraceId, TraceId_eq, Span, Time,
  Floats, Ids,
}
use jaeger_influxdb.Dbmodel.KeyValue.{blank}
use jaeger_influxdb.Dbmodel.LogText.{show_newlines}
use jaeger_influxdb.Dbmodel.Flux.{wrap}
use jaeger_influxdb.Dbmodel.Flux.Traces.{Trace}
use jaeger_influxdb.Dbmodel.InfluxQl.{
  Value, nil_value, string_json, number_json, bool_json, other_json, Row, Result, as_string, column,
  value_at, row_trace_id, other_columns,
}

-- The place of a span: its trace and its position there.
abbrev pub Places : Type 0
Places = Dict TraceId (Dict SpanId (ℕ × ℕ))

place_spans : {F : Type 0} → ℕ → ℕ → Places → List (Span F) → Outcome Places
place_spans i j m [] = ok m
place_spans i j m (s ∷ ss) = elim (lookup s.trace_id m) [
  | none ↦ panic
  | some spans ↦ place_spans i (suc j) (insert s.trace_id (insert s.span_id (i, j) spans) m) ss
]

-- The map of a trace without spans panics, since its first span is looked at.
place_trace : {F : Type 0} → ℕ → Places → List (Span F) → Outcome Places
unfolding place_spans
place_trace i m [] = panic
place_trace i m (s ∷ ss) = place_spans i 0 (insert s.trace_id [] m) (s ∷ ss)

unfoldable pub place_traces : {F : Type 0} → ℕ → Places → List (Trace F) → Outcome Places
unfolding place_trace
place_traces i m [] = ok m
place_traces i m (t ∷ ts) = do next ← place_trace i m t.spans; place_traces (suc i) next ts

-- `s.Logs = append(s.Logs, spanLog)`
add_log : {F : Type 0} → Log F → Span F → Span F
add_log log s = record s { logs = s.logs ++ log ∷ [] }

log_in_spans : {F : Type 0} → Log F → ℕ → List (Span F) → List (Span F)
unfolding add_log
log_in_spans log j spans = elim (get_elem? spans j) [
  | none ↦ spans
  | some s ↦ set spans j (add_log log s)
]

log_in_traces : {F : Type 0} → Log F → ℕ × ℕ → List (Trace F) → List (Trace F)
unfolding log_in_spans
log_in_traces log (i, j) traces = elim (get_elem? traces i) [
  | none ↦ traces
  | some t ↦ set traces i (record t { spans = log_in_spans log j t.spans })
]

-- The place of a span of a trace, where the map has one.
span_place : Places → TraceId → SpanId → Option (ℕ × ℕ)
span_place m t id = elim (lookup t m) [ none ↦ none | some spans ↦ lookup id spans ]

-- A log for which there is no span is dropped.
log_at : {F : Type 0} → Log F → Option (ℕ × ℕ) → List (Trace F) → List (Trace F)
unfolding log_in_traces
log_at log none traces = traces
log_at log (some p) traces = log_in_traces log p traces

-- `json_float` is `Number.Float64` without its error, and `range` the order in which a row's map of
-- columns is ranged over.
module _ {F : Type 0} (floats : Floats F) (ids : Ids) (parse_time : Text → Option Time)
    (json_float : Text → F) (range : List Value → Dict ℕ Text → List (ℕ × Text)) where
  -- The type of a binary value stays that of a string.
  binary_field : Text → Option Text → Outcome (List (KeyValue F))
  binary_field key none = err bad_base64
  binary_field key (some b) = ok (record (blank floats key string_type) { v_binary = b } ∷ [])

  string_field : Text → Text → Outcome (List (KeyValue F))
  unfolding binary_field
  string_field key [] = err bad_prefix
  string_field key (c ∷ s) =
      if nat_eq c b's'
      then ok (record (blank floats key string_type) { v_str = show_newlines s } ∷ [])
      else if nat_eq c b'B'
      then binary_field key (Base64.decode s)
      else err bad_prefix

  log_field : Text → Value → Outcome (List (KeyValue F))
  unfolding string_field
  log_field key nil_value = ok []
  log_field key (string_json s) = string_field key s
  log_field key (number_json s) =
      ok (record (blank floats key float64_type) { v_float64 = json_float s } ∷ [])
  log_field key (bool_json b) = ok (record (blank floats key bool_type) { v_bool = b } ∷ [])
  log_field key other_json = err unsupported_type

  -- An error is noted, and the field left out.
  noted : Outcome (List (KeyValue F)) → Outcome (List (KeyValue F) × List Error)
  noted (ok fields) = ok (fields, [])
  noted (err e) = ok ([], e ∷ [])
  noted panic = panic

  row_fields : List Value → List (ℕ × Text) → Outcome (List (KeyValue F) × List Error)
  unfolding log_field noted
  row_fields v [] = ok ([], [])
  row_fields v ((i, key) ∷ rest) = do
    value ← value_at v (some i)
    (field, errs) ← noted (log_field key value)
    (fields, more) ← row_fields v rest
    ok (field ++ fields, errs ++ more)

  -- The log of one row of values, the span it belongs to, and the errors about its fields.
  row_log : List Text → List Value → Outcome (SpanId × Log F × List Error)
  unfolding row_fields column
  row_log columns v = do
    time_value ← value_at v (column time_v1_key columns)
    time_text ← as_string time_value
    time ← or_error bad_time (parse_time time_text)
    id_value ← value_at v (column span_id_key columns)
    id_text ← as_string id_value
    id ← or_error bad_span_id (ids.span_id_from_string id_text)
    (fields, errs) ←
        row_fields v (range v (other_columns (time_v1_key ∷ span_id_key ∷ []) 0 columns))
    ok (id, record { timestamp = time; fields = fields }, errs)

  -- The end of one round, of which an error is noted.
  append_row :
      Places
      → TraceId
      → List (Trace F)
      → Outcome (SpanId × Log F × List Error)
      → Outcome (List (Trace F) × List Error)
  unfolding log_at span_place
  append_row m t traces (ok (id, log, errs)) = ok (log_at log (span_place m t id) traces, errs)
  append_row m t traces (err e) = ok (traces, e ∷ [])
  append_row m t traces panic = panic

  append_rows :
      Places
      → TraceId
      → List Text
      → List (Trace F)
      → List (List Value)
      → Outcome (List (Trace F) × List Error)
  unfolding append_row row_log
  append_rows m t columns traces [] = ok (traces, [])
  append_rows m t columns traces (v ∷ vs) = do
    (next, errs) ← append_row m t traces (row_log columns v)
    (out, more) ← append_rows m t columns next vs
    ok (out, errs ++ more)

  unfoldable pub append_span_logs_from_influxql_row :
      Places → List (Trace F) → Row → Outcome (List (Trace F))
  unfolding append_rows row_trace_id
  append_span_logs_from_influxql_row m traces row = do
    let (t, trace_errs) = row_trace_id ids row
    (out, errs) ← append_rows m t row.columns traces row.values
    wrap (trace_errs ++ errs) out

  append_series : Places → List (Trace F) → List Row → Outcome (List (Trace F))
  append_series m traces [] = ok traces
  append_series m traces (row ∷ rows) = do
    next ← append_span_logs_from_influxql_row m traces row
    append_series m next rows

  append_results : Places → List (Trace F) → List Result → Outcome (List (Trace F))
  unfolding append_series
  append_results m traces [] = ok traces
  append_results m traces (r ∷ rs) = do
    next ← append_series m traces r.series
    append_results m next rs

  -- After an error the spans may have some logs already; the callers drop the traces then.
  unfoldable pub append_span_logs_from_influxql_response :
      List Result → List (Trace F) → Outcome (List (Trace F))
  unfolding append_results place_traces
  append_span_logs_from_influxql_response results traces = do
    m ← place_traces 0 [] traces
    append_results m traces results
