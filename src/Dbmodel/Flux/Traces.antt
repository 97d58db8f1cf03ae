-- ===== src/Dbmodel/Flux/Traces.antt =====
-- getMeasurement, traceFromFluxTable, logsFromFluxTable, TracesFromFluxResult and
-- TraceIDsFromFluxResult of dbmodel/to_domain_v2.go: the tables of a result as traces.
pub mod Found
pub mod Attach
pub mod Complete
use mathlib.Core.Option
use jaeger_influxdb.Prelude.{List, [], ◌∷◌, ◌++◌, map, Option, none, some, Text, if◌then◌else◌}
use jaeger_influxdb.Prelude.Dict.{Dict, lookup, insert}
use jaeger_influxdb.Prelude.Eq.{ℕ_eq, Text_eq, text_eq}
use jaeger_influxdb.Prelude.Outcome.{
  Outcome, ok, err, panic, ◌>>=◌, ◌>>◌, guard, or_error, Error, no_measurement, unknown_measurement,
  no_column, bad_trace_id,
}
use jaeger_influxdb.Common.{measurement_key, trace_id_key}
use jaeger_influxdb.Dbmodel.Model.{Log, Span, SpanId, TraceId, TraceId_eq, Floats, Ids}
use jaeger_influxdb.Dbmodel.Flux.{Cell, string_cell, Row, strings}
use jaeger_influxdb.Dbmodel.Flux.Span.{contains, span_from_flux_col_reader}
use jaeger_influxdb.Dbmodel.Flux.Logs.{logs_from_rows}

-- `flux.Table`: its group key, the labels of its columns, its rows, and the error that reading it ends with, if any.
pub record Table (F : Type 0) : Type 0 where
  pub key : Dict Text (Cell F)
  pub labels : List Text
  pub rows : List (Row F)
  pub fault : Option Error

-- `model.Trace`
pub record Trace (F : Type 0) : Type 0 where
  pub spans : List (Span F)

-- `Value.Str`, which panics at a value of another type.
abbrev pub str : {F : Type 0} → Cell F → Outcome Text
str (string_cell s) = ok s
str _ = panic

abbrev pub LogsById : Type 0 → Type 0
LogsById F = Dict TraceId (Dict SpanId (List (Log F)))

-- The error that reading a table ends with comes behind its rows.
abbrev pub ended {ℓ} : {A : Type ℓ} → Option Error → A → Outcome A
ended none a = ok a
ended (some e) a = err e

-- The last column with the label, if there is one.
unfoldable pub last_column : {F : Type 0} → Text → Row F → Option (Cell F)
last_column label [] = none
last_column label (c ∷ cs) = elim (last_column label cs) [
  | none ↦ (if text_eq c.label label then some c.cell else none)
  | some cell ↦ some cell
]

module _ {F : Type 0} (floats : Floats F) (ids : Ids) where
  unfoldable pub get_measurement : Table F → Outcome Text
  get_measurement table = do v ← or_error no_measurement (lookup measurement_key table.key); str v

  spans_from_rows : List (Row F) → Outcome (List (Span F))
  spans_from_rows [] = ok []
  spans_from_rows (row ∷ rows) = do
    span ← span_from_flux_col_reader floats ids row
    spans ← spans_from_rows rows
    ok (span ∷ spans)

  unfoldable pub trace_from_flux_table : Table F → Outcome (Trace F)
  unfolding spans_from_rows
  trace_from_flux_table table = do
    spans ← spans_from_rows table.rows
    ended table.fault (record { spans = spans })

  unfoldable pub logs_from_flux_table : Table F → Outcome (Dict SpanId (List (Log F)))
  logs_from_flux_table table = do
    logs ← logs_from_rows floats ids [] table.rows
    ended table.fault logs

  pub log_table_trace_id : Table F → Outcome TraceId
  log_table_trace_id table = do
    v ← or_error no_column (lookup trace_id_key table.key)
    s ← str v
    or_error bad_trace_id (ids.trace_id_from_string s)

  -- The callback for one table, over the traces and the logs so far.
  pub table_step :
      Text → Text → List (Trace F) × LogsById F → Table F → Outcome (List (Trace F) × LogsById F)
  unfolding get_measurement trace_from_flux_table logs_from_flux_table log_table_trace_id
  table_step span_measurement log_measurement (traces, logs_by_id) table = do
    measurement ← get_measurement table
    (if text_eq measurement span_measurement
        then (do trace ← trace_from_flux_table table; ok (traces ++ trace ∷ [], logs_by_id))
        else if text_eq measurement log_measurement
        then (do
          trace_id ← log_table_trace_id table
          logs ← logs_from_flux_table table
          ok (traces, insert trace_id logs logs_by_id))
        else err unknown_measurement)

  -- The tables of all results of the iterator, one after the other.
  pub table_steps :
      Text
      → Text
      → List (Trace F) × LogsById F
      → List (Table F)
      → Outcome (List (Trace F) × LogsById F)
  unfolding table_step
  table_steps span_measurement log_measurement state [] = ok state
  table_steps span_measurement log_measurement state (table ∷ tables) = do
    state' ← table_step span_measurement log_measurement state table
    table_steps span_measurement log_measurement state' tables

  pub attach_logs : LogsById F → Span F → Span F
  attach_logs logs_by_id span = elim (lookup span.trace_id logs_by_id) [
    | none ↦ span
    | some logs ↦ record span { logs = Option.get_or (lookup span.span_id logs) [] }
  ]

  pub attach_all : LogsById F → List (Trace F) → List (Trace F)
  unfolding attach_logs
  attach_all logs_by_id =
      map (λ (t : Trace F). record t { spans = map (attach_logs logs_by_id) t.spans })

  unfoldable pub traces_from_flux_result : Text → Text → List (Table F) → Outcome (List (Trace F))
  unfolding table_steps attach_all
  traces_from_flux_result span_measurement log_measurement tables = do
    (traces, logs_by_id) ← table_steps span_measurement log_measurement ([], []) tables
    ok (attach_all logs_by_id traces)

  row_trace_id : Row F → Outcome TraceId
  unfolding last_column
  row_trace_id row = do
    cell ← or_error no_column (last_column trace_id_key row)
    s ← strings cell
    or_error bad_trace_id (ids.trace_id_from_string s)

  trace_ids_from_rows : List (Row F) → Outcome (List TraceId)
  unfolding row_trace_id
  trace_ids_from_rows [] = ok []
  trace_ids_from_rows (row ∷ rows) = do
    t ← row_trace_id row
    ts ← trace_ids_from_rows rows
    ok (t ∷ ts)

  unfoldable pub trace_ids_from_flux_result : List (Table F) → Outcome (List TraceId)
  unfolding trace_ids_from_rows
  trace_ids_from_flux_result [] = ok []
  trace_ids_from_flux_result (table ∷ tables) = do
    guard (contains table.labels trace_id_key) no_column
    found ← trace_ids_from_rows table.rows
    _ ← ended table.fault found
    rest ← trace_ids_from_flux_result tables
    ok (found ++ rest)
