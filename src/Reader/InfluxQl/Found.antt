-- ===== src/Reader/InfluxQl/Found.antt =====
-- Where the traces come from that the reader of InfluxDB 1 returns.
use mathlib.Core.Path.{subst}
use jaeger_influxdb.Prelude.{
  ℕ, ◌≡◌, ◌≢◌, sym, ap, ◌∙◌, List, [], ◌∷◌, map, Option, none, some, Text, All,
}
use jaeger_influxdb.Prelude.Dict.{Dict}
use jaeger_influxdb.Prelude.Outcome.{ok, >>=-eq-ok, ok_eq}
use jaeger_influxdb.Dbmodel.Model.{TraceId, Time, Span, Floats, Ids}
use jaeger_influxdb.Dbmodel.Flux.Traces.{Trace}
use jaeger_influxdb.Dbmodel.InfluxQl.{Value, Result}
use jaeger_influxdb.Dbmodel.InfluxQl.Traces.{traces_from_influxql_response}
use jaeger_influxdb.Dbmodel.InfluxQl.Traces.Identity.{IsOf}
use jaeger_influxdb.Dbmodel.InfluxQl.Traces.Rows.{
  rows_of, IsOne, Read, traces_from_influxql_response-Read, Read-IsOne,
}
use jaeger_influxdb.Dbmodel.InfluxQl.SpanLogs.{append_span_logs_from_influxql_response}
use jaeger_influxdb.Dbmodel.InfluxQl.SpanLogs.Unchanged.{
  bare, bare_traces, bare-append_span_logs_from_influxql_response,
}
use jaeger_influxdb.Dbmodel.Queries.{TraceQueryParameters, build_influxql_trace_query}
use jaeger_influxdb.Reader.InfluxQl.{
  Reader, Query, Reply, failed, response, results_of, query, ask_traces, ask_logs, find_trace_ids,
  traces_of, if_any, find_traces, single_trace, first_trace, get_trace,
}

-- One trace stays one when the logs of its spans change.
module _ {F : Type 0} where
  IsOf-bare : (t : TraceId) (ss : List (Span F)) → All (IsOf t) ss → All (IsOf t) (map bare ss)
  IsOf-bare t [] h = tt
  IsOf-bare t (s ∷ ss) h =
      (record { own = h.0.own; referenced = h.0.referenced }, IsOf-bare t ss h.1)

  bare-IsOf : (t : TraceId) (ss : List (Span F)) → All (IsOf t) (map bare ss) → All (IsOf t) ss
  bare-IsOf t [] h = tt
  bare-IsOf t (s ∷ ss) h =
      (record { own = h.0.own; referenced = h.0.referenced }, bare-IsOf t ss h.1)

  abbrev IsOneOf : List (Span F) → Type 0
  IsOneOf ss = (t : TraceId) × All (IsOf t) ss

  IsOne-bare : (ts : List (Trace F)) → All IsOne ts → All IsOneOf (bare_traces ts)
  IsOne-bare [] h = tt
  IsOne-bare (tr ∷ ts) h = ((h.0.0, IsOf-bare h.0.0 tr.spans h.0.1), IsOne-bare ts h.1)

  bare-IsOne : (ts : List (Trace F)) → All IsOneOf (bare_traces ts) → All IsOne ts
  bare-IsOne [] h = tt
  bare-IsOne (tr ∷ ts) h = ((h.0.0, bare-IsOf h.0.0 tr.spans h.0.1), bare-IsOne ts h.1)

results-response :
    (reply : Reply) (rs : List Result) → results_of reply ≡ ok rs → reply ≡ response none rs
results-response (failed x) rs e = cc
results-response (response (some x) results) rs e = cc
results-response (response none results) rs e = ap (response none) (ok_eq e)

single_trace-eq-ok :
    {F : Type 0} (ts : List (Trace F)) (one : Trace F) → single_trace ts ≡ ok one → ts ≡ one ∷ []
unfolding single_trace
single_trace-eq-ok [] one e = cc
single_trace-eq-ok (t ∷ []) one e = ap (λ u. u ∷ []) (ok_eq e)
single_trace-eq-ok (t ∷ u ∷ ts) one e = cc

only_trace :
    {F : Type 0} (out : List (Trace F)) (trace : Trace F) (ss : List (Span F))
    → first_trace out ≡ ok trace
    → bare_traces out ≡ ss ∷ []
    → out ≡ trace ∷ []
only_trace [] trace ss e h = cc
only_trace (t ∷ []) trace ss e h = ap (λ u. u ∷ []) (ok_eq e)
only_trace (t ∷ u ∷ ts) trace ss e h = cc

module _ {F : Type 0} (floats : Floats F) (ids : Ids) (parse_time : Text → Option Time)
    (json_float : Text → F) (range : List Value → Dict ℕ Text → List (ℕ × Text))
    (run : Query → Reply) (r : Reader) where
  -- The query for all columns of a measurement of the reader, in the rows of the traces.
  abbrev pub rows_query : Text → List TraceId → Query
  rows_query measurement trace_ids = record {
    command = build_influxql_trace_query ids measurement trace_ids;
    database = r.database;
    retention_policy = r.retention_policy;
  }

  -- The responses that traces are read from, and the traces without the logs.
  pub record Source (trace_ids : List TraceId) (traces : List (Trace F)) : Type 0 where
    pub results : List Result
    pub logs : List Result
    pub without_logs : List (Trace F)
    pub answered : run (rows_query r.span_measurement trace_ids) ≡ response none results
    pub logs_answered : run (rows_query r.log_measurement trace_ids) ≡ response none logs
    pub read : Read floats ids parse_time range (rows_of results) without_logs
    pub appended :
        append_span_logs_from_influxql_response floats ids parse_time json_float range logs
          without_logs
        ≡ ok traces
    pub unchanged : bare_traces traces ≡ bare_traces without_logs
    pub each_one : All IsOne traces

  answers-Source :
      (trace_ids : List TraceId) (results logs : List Result) (without_logs traces : List (Trace F))
      → ask_traces ids run r trace_ids ≡ ok results
      → ask_logs ids run r trace_ids ≡ ok logs
      → traces_from_influxql_response floats ids parse_time range results ≡ ok without_logs
      → append_span_logs_from_influxql_response floats ids parse_time json_float range logs
          without_logs
        ≡ ok traces
      → Source trace_ids traces
  unfolding query
  answers-Source trace_ids results logs without_logs traces a l t e =
      let same =
        bare-append_span_logs_from_influxql_response floats ids parse_time json_float range logs
          without_logs traces e in
      let read =
        traces_from_influxql_response-Read floats ids parse_time range results without_logs t in
      record {
        results = results;
        logs = logs;
        without_logs = without_logs;
        answered = results-response _ results a;
        logs_answered = results-response _ logs l;
        read = read;
        appended = e;
        unchanged = same;
        each_one = bare-IsOne traces (
            subst (All IsOneOf) (sym same) (
              IsOne-bare without_logs
                (Read-IsOne floats ids parse_time range _ without_logs read)));
      }

  traces_of-Source :
      (trace_ids : List TraceId) (traces : List (Trace F))
      → traces_of floats ids parse_time json_float range run r trace_ids ≡ ok traces
      → Source trace_ids traces
  unfolding traces_of
  traces_of-Source trace_ids traces e =
      let (logs, l, e1) = >>=-eq-ok (ask_logs ids run r trace_ids) _ e in
      let (results, a, e2) = >>=-eq-ok (ask_traces ids run r trace_ids) _ e1 in
      let (without_logs, t, e3) =
        >>=-eq-ok (traces_from_influxql_response floats ids parse_time range results) _ e2 in
      answers-Source trace_ids results logs without_logs traces a l t e3

  if_any-Source :
      (trace_ids : List TraceId) (traces : List (Trace F))
      → if_any floats ids parse_time json_float range run r trace_ids ≡ ok traces
      → traces ≢ []
      → Source trace_ids traces
  unfolding if_any
  if_any-Source [] traces e h = absurd (h (sym (ok_eq e)))
  if_any-Source (t ∷ ts) traces e h = traces_of-Source (t ∷ ts) traces e

  -- Where FindTraces returns any traces: for the trace IDs that were found, the queries for spans
  -- and for logs were answered without an error; the traces are read from the rows of the spans, one
  -- from each row and in order; and nothing of them has changed since but the logs of their spans.
  -- Every span of a trace and every reference of its spans has one trace ID.
  pub find_traces_v1-Source :
      (range_tags : Dict Text Text → List (Text × Text)) (parameters : TraceQueryParameters)
      (traces : List (Trace F))
      → find_traces floats ids parse_time json_float range run range_tags r parameters ≡ ok traces
      → traces ≢ []
      → (trace_ids : List TraceId) × (find_trace_ids ids run range_tags r parameters ≡ ok trace_ids)
        × Source trace_ids traces
  unfolding find_traces
  find_traces_v1-Source range_tags parameters traces e h =
      let (trace_ids, f, e') = >>=-eq-ok (find_trace_ids ids run range_tags r parameters) _ e in
      (trace_ids, f, if_any-Source trace_ids traces e' h)

  -- Where GetTrace returns a trace, it is read from the only row of the answer for its ID, with
  -- nothing changed but the logs of its spans.
  pub get_trace_v1-Source :
      (trace_id : TraceId) (trace : Trace F)
      → get_trace floats ids parse_time json_float range run r trace_id ≡ ok trace
      → Source (trace_id ∷ []) (trace ∷ [])
  unfolding get_trace single_trace
  get_trace_v1-Source trace_id trace e =
      let (results, a, e1) = >>=-eq-ok (ask_traces ids run r (trace_id ∷ [])) _ e in
      let (without_logs, t, e2) =
        >>=-eq-ok (traces_from_influxql_response floats ids parse_time range results) _ e1 in
      let (one, o, e3) = >>=-eq-ok (single_trace without_logs) _ e2 in
      let (logs, l, e4) = >>=-eq-ok (ask_logs ids run r (trace_id ∷ [])) _ e3 in
      let (out, p, e5) =
        >>=-eq-ok
          (append_span_logs_from_influxql_response floats ids parse_time json_float range logs
            without_logs)
          _ e4 in
      let same =
        bare-append_span_logs_from_influxql_response floats ids parse_time json_float range logs
          without_logs out p in
      let only =
        only_trace out trace (map bare one.spans) e5
          (same ∙ ap bare_traces (single_trace-eq-ok without_logs one o)) in
      subst (Source (trace_id ∷ [])) only
        (answers-Source (trace_id ∷ []) results logs without_logs out a l t p)
