-- ===== src/Reader/InfluxQl.antt =====
-- Reader of storev1/reader.go. What the client replies to a query is an argument. FindTraces runs
-- its two queries at once; `find_traces` makes them one after the other, and Concurrent.antt has
-- the steps in which they are made.
pub mod Concurrent
pub mod Found
use mathlib.Core.List.{concat}
use jaeger_influxdb.Prelude.{
  ℕ, suc, List, [], ◌∷◌, ◌++◌, map, Option, none, some, Text, codes, if◌then◌else◌,
}
use jaeger_influxdb.Prelude.Dict.{Dict}
use jaeger_influxdb.Prelude.Eq.{text_eq}
use jaeger_influxdb.Prelude.Int.{ℤ}
use jaeger_influxdb.Prelude.Outcome.{Outcome, ok, err, panic, ◌>>=◌, Error, trace_not_found}
use jaeger_influxdb.Common.{service_name_key, operation_name_key}
use jaeger_influxdb.Dbmodel.Model.{SpanId, TraceId, Time, Floats, Ids}
use jaeger_influxdb.Dbmodel.Flux.Traces.{Trace, ended}
use jaeger_influxdb.Dbmodel.Dependencies.{DependencyLink}
use jaeger_influxdb.Dbmodel.InfluxQl.{Value, Row, Result, as_string, value_at}
use jaeger_influxdb.Dbmodel.InfluxQl.Links.{
  dependency_links_from_result_v1, trace_ids_from_influxql_result,
}
use jaeger_influxdb.Dbmodel.InfluxQl.Traces.{traces_from_influxql_response}
use jaeger_influxdb.Dbmodel.InfluxQl.SpanLogs.{append_span_logs_from_influxql_response}
use jaeger_influxdb.Dbmodel.Queries.{
  TraceQueryParameters, influxql_trace_query_from_tqp, build_influxql_trace_id_query,
  build_influxql_trace_query,
}

pub record Reader : Type 0 where
  pub database : Text
  pub retention_policy : Text
  pub span_measurement : Text
  pub span_meta_measurement : Text
  pub log_measurement : Text
  pub default_lookback : ℤ

-- `client.Query`
pub record Query : Type 0 where
  pub command : Text
  pub database : Text
  pub retention_policy : Text

-- What `QueryContext` returns: an error, or a response, which may hold an error too.
pub data Reply : Type 0 where
  failed : Error → Reply
  response : Option Error → List Result → Reply

-- The end of `query`.
abbrev pub results_of : Reply → Outcome (List Result)
results_of (failed e) = err e
results_of (response (some e) results) = err e
results_of (response none results) = ok results

-- The index of the first column with the name; `none` stands for -1.
unfoldable pub first_column : ℕ → Text → List Text → Option ℕ
first_column i name [] = none
first_column i name (c ∷ cs) =
    let rest = first_column (suc i) name cs in if text_eq c name then some i else rest

-- `v[valueColI].(string)` of each list of values.
pub strings_at : Option ℕ → List (List Value) → Outcome (List Text)
strings_at i [] = ok []
strings_at i (v ∷ vs) = do
  value ← value_at v i
  s ← as_string value
  rest ← strings_at i vs
  ok (s ∷ rest)

pub row_strings : List Row → Outcome (List Text)
unfolding strings_at first_column
row_strings [] = ok []
row_strings (row ∷ rows) = do
  names ← strings_at (first_column 0 (codes "value") row.columns) row.values
  rest ← row_strings rows
  ok (names ++ rest)

-- The loop that GetServices and GetOperations have over the results.
unfoldable pub result_strings : List Result → Outcome (List Text)
unfolding row_strings
result_strings [] = ok []
result_strings (r ∷ rs) = do
  series ← ended r.fault r.series
  names ← row_strings series
  rest ← result_strings rs
  ok (names ++ rest)

-- A text and the parts behind it.
abbrev pub parts : List Text → Text
parts [] = []
parts (t ∷ ts) = t ++ parts ts

pub services_query : Reader → Text
services_query r = parts (
    codes "SHOW TAG VALUES FROM \""
    ∷ r.span_meta_measurement
    ∷ codes "\" WITH KEY = \""
    ∷ service_name_key
    ∷ codes "\""
    ∷ [])

pub operations_query : Reader → Text → Text
operations_query r service_name = parts (
    codes "SHOW TAG VALUES FROM \""
    ∷ r.span_meta_measurement
    ∷ codes "\" WITH KEY = \""
    ∷ operation_name_key
    ∷ codes "\" WHERE \""
    ∷ service_name_key
    ∷ codes "\" = '"
    ∷ service_name
    ∷ codes "'"
    ∷ [])

-- `lookback` is the text of the duration.
pub dependencies_query : Reader → Text → Text
dependencies_query r lookback = parts (
    codes "select \"span_id\", \"service_name\", \"references\", \"duration\" from "
    ∷ r.span_measurement
    ∷ codes " where time > now() - "
    ∷ lookback
    ∷ [])

-- More traces than one are a panic of the code's own.
pub single_trace : {F : Type 0} → List (Trace F) → Outcome (Trace F)
single_trace [] = err trace_not_found
single_trace (t ∷ []) = ok t
single_trace (t ∷ u ∷ ts) = panic

-- `traces[0]`, which panics where there is none.
abbrev pub first_trace : {F : Type 0} → List (Trace F) → Outcome (Trace F)
first_trace [] = panic
first_trace (t ∷ ts) = ok t

module _ (run : Query → Reply) where
  unfoldable pub query : Reader → Text → Outcome (List Result)
  query r command = results_of (
      run (record {
        command = command;
        database = r.database;
        retention_policy = r.retention_policy;
      }))

  unfoldable pub get_services : Reader → Outcome (List Text)
  unfolding query services_query result_strings
  get_services r = do results ← query r (services_query r); result_strings results

  -- An operation is its name and the kind of the span that was asked for.
  unfoldable pub get_operations : Reader → Text → Text → Outcome (List (Text × Text))
  unfolding query operations_query result_strings
  get_operations r service_name span_kind = do
    results ← query r (operations_query r service_name)
    names ← result_strings results
    ok (map (λ name. (name, span_kind)) names)

  -- The time of the end is not used.
  unfoldable pub get_dependencies :
      Ids
      → (Dict SpanId SpanId → List (SpanId × SpanId))
      → (Dict Text DependencyLink → List (Text × DependencyLink))
      → (ℤ → Text)
      → Reader
      → Time
      → ℤ
      → Outcome (List DependencyLink)
  unfolding query dependencies_query
  get_dependencies ids range_calls range_links duration_text r end lookback = do
    results ← query r (dependencies_query r (duration_text lookback))
    dependency_links_from_result_v1 ids range_calls range_links results

-- The query for the spans of traces and the query for their logs.
module _ (ids : Ids) (run : Query → Reply) where
  abbrev pub ask_traces : Reader → List TraceId → Outcome (List Result)
  ask_traces r trace_ids = query run r (build_influxql_trace_query ids r.span_measurement trace_ids)

  abbrev pub ask_logs : Reader → List TraceId → Outcome (List Result)
  ask_logs r trace_ids = query run r (build_influxql_trace_query ids r.log_measurement trace_ids)

  -- `range_tags` is the order in which the tags of the query parameters are ranged over.
  unfoldable pub find_trace_ids :
      (Dict Text Text → List (Text × Text)) → Reader → TraceQueryParameters → Outcome (List TraceId)
  unfolding query
  find_trace_ids range_tags r parameters = do
    results ← query run r (
        build_influxql_trace_id_query range_tags
          (influxql_trace_query_from_tqp range_tags r.span_measurement parameters))
    trace_ids_from_influxql_result ids results

-- `parse_time`, `json_float` and `range` are those of Dbmodel/InfluxQl/SpanLogs.antt.
module _ {F : Type 0} (floats : Floats F) (ids : Ids) (parse_time : Text → Option Time)
    (json_float : Text → F) (range : List Value → Dict ℕ Text → List (ℕ × Text))
    (run : Query → Reply) where
  -- An error of the query for the logs is returned before the traces are waited for.
  unfoldable pub traces_of : Reader → List TraceId → Outcome (List (Trace F))
  traces_of r trace_ids = do
    logs ← ask_logs ids run r trace_ids
    results ← ask_traces ids run r trace_ids
    traces ← traces_from_influxql_response floats ids parse_time range results
    append_span_logs_from_influxql_response floats ids parse_time json_float range logs traces

  pub if_any : Reader → List TraceId → Outcome (List (Trace F))
  unfolding traces_of
  if_any r [] = ok []
  if_any r (t ∷ ts) = traces_of r (t ∷ ts)

  unfoldable pub find_traces :
      (Dict Text Text → List (Text × Text))
      → Reader
      → TraceQueryParameters
      → Outcome (List (Trace F))
  unfolding if_any
  find_traces range_tags r parameters = do
    trace_ids ← find_trace_ids ids run range_tags r parameters
    if_any r trace_ids

  unfoldable pub get_trace : Reader → TraceId → Outcome (Trace F)
  unfolding single_trace
  get_trace r trace_id = do
    results ← ask_traces ids run r (trace_id ∷ [])
    traces ← traces_from_influxql_response floats ids parse_time range results
    found ← single_trace traces
    logs ← ask_logs ids run r (trace_id ∷ [])
    logged ←
        append_span_logs_from_influxql_response floats ids parse_time json_float range logs traces
    first_trace logged
