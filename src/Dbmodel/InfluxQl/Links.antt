-- ===== src/Dbmodel/InfluxQl/Links.antt =====
-- DependencyLinksFromResultV1 and TraceIDsFromInfluxQLResult of dbmodel/to_domain_v1.go.
pub mod Rows
pub mod Complete
use jaeger_influxdb.Prelude.{ℕ, List, [], ◌∷◌, ◌++◌, Option, none, some, Text}
use jaeger_influxdb.Prelude.Dict.{Dict}
use jaeger_influxdb.Prelude.Outcome.{
  Outcome, ok, err, panic, ◌>>=◌, or_error, bad_span_id, bad_trace_id,
}
use jaeger_influxdb.Common.{span_id_key, service_name_key, references_key, trace_id_key}
use jaeger_influxdb.Dbmodel.Model.{SpanId, SpanRef, TraceId, Ids}
use jaeger_influxdb.Dbmodel.References.{references_from_string}
use jaeger_influxdb.Dbmodel.Flux.Traces.{ended}
use jaeger_influxdb.Dbmodel.Dependencies.{
  Calls, no_calls, add_call, DependencyLink, dependency_links,
}
use jaeger_influxdb.Dbmodel.InfluxQl.{
  Value, nil_value, string_json, Row, Result, as_string, column, value_at, optional_at,
}

module _ (ids : Ids) where
  -- The text of the references, which is empty where there are none.
  references_text : Value → Outcome Text
  references_text nil_value = ok []
  references_text (string_json s) = ok s
  references_text _ = panic

  call_row : List Text → Calls → List Value → Outcome Calls
  unfolding references_text column
  call_row columns calls v = do
    id_value ← value_at v (column span_id_key columns)
    id_text ← as_string id_value
    id ← or_error bad_span_id (ids.span_id_from_string id_text)
    service_value ← value_at v (column service_name_key columns)
    service ← as_string service_value
    reference_value ← optional_at v (column references_key columns)
    text ← references_text reference_value
    references ← references_from_string ids text
    ok (add_call calls id service references)

  call_rows : List Text → Calls → List (List Value) → Outcome Calls
  unfolding call_row
  call_rows columns calls [] = ok calls
  call_rows columns calls (v ∷ vs) = do next ← call_row columns calls v; call_rows columns next vs

  call_series : Calls → List Row → Outcome Calls
  unfolding call_rows
  call_series calls [] = ok calls
  call_series calls (row ∷ rows) = do
    next ← call_rows row.columns calls row.values
    call_series next rows

  -- A result that is an error ends the loop before its series is read.
  pub call_results : Calls → List Result → Outcome Calls
  unfolding call_series
  call_results calls [] = ok calls
  call_results calls (r ∷ rs) = do
    same ← ended r.fault calls
    next ← call_series same r.series
    call_results next rs

  unfoldable pub dependency_links_from_result_v1 :
      (Dict SpanId SpanId → List (SpanId × SpanId))
      → (Dict Text DependencyLink → List (Text × DependencyLink))
      → List Result
      → Outcome (List DependencyLink)
  unfolding call_results
  dependency_links_from_result_v1 range range_links results = do
    calls ← call_results no_calls results
    ok (dependency_links ids range range_links calls)

  trace_id_rows : Option ℕ → List (List Value) → Outcome (List TraceId)
  trace_id_rows i [] = ok []
  trace_id_rows i (v ∷ vs) = do
    value ← value_at v i
    s ← as_string value
    t ← or_error bad_trace_id (ids.trace_id_from_string s)
    ts ← trace_id_rows i vs
    ok (t ∷ ts)

  trace_id_series : List Row → Outcome (List TraceId)
  unfolding trace_id_rows column
  trace_id_series [] = ok []
  trace_id_series (row ∷ rows) = do
    ts ← trace_id_rows (column trace_id_key row.columns) row.values
    more ← trace_id_series rows
    ok (ts ++ more)

  unfoldable pub trace_ids_from_influxql_result : List Result → Outcome (List TraceId)
  unfolding trace_id_series
  trace_ids_from_influxql_result [] = ok []
  trace_ids_from_influxql_result (r ∷ rs) = do
    series ← ended r.fault r.series
    ts ← trace_id_series series
    more ← trace_ids_from_influxql_result rs
    ok (ts ++ more)
