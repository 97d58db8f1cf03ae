-- ===== src/Dbmodel/InfluxQl/SpanLogs/Unchanged.antt =====
-- Appending logs changes nothing of the traces but the logs of their spans.
use jaeger_influxdb.Prelude.{
  ℕ, zero, suc, ◌≡◌, refl, sym, ap, ◌∙◌, List, [], ◌∷◌, ◌++◌, map, Option, none, some, Text,
  get_elem?, set,
}
use jaeger_influxdb.Prelude.Dict.{Dict}
use jaeger_influxdb.Prelude.Outcome.{Outcome, ok, err, panic, >>=-eq-ok, ok_eq, Error}
use jaeger_influxdb.Dbmodel.Model.{Log, SpanId, TraceId, Span, Time, Floats, Ids}
use jaeger_influxdb.Dbmodel.Flux.{wrap}
use jaeger_influxdb.Dbmodel.Flux.Traces.{Trace}
use jaeger_influxdb.Dbmodel.InfluxQl.{Value, Row, Result, row_trace_id}
use jaeger_influxdb.Dbmodel.InfluxQl.SpanLogs.{
  Places, place_traces, add_log, log_in_spans, log_in_traces, span_place, log_at, append_row,
  append_rows, row_log, append_span_logs_from_influxql_row, append_series, append_results,
  append_span_logs_from_influxql_response,
}

some_eq {ℓ} : {A : Type ℓ} {a b : A} → some a ≡ some b → a ≡ b
some_eq h = cc

map-set {ℓ κ} :
    {A : Type ℓ} {B : Type κ} (f : A → B) (xs : List A) (i : ℕ) (x y : A)
    → get_elem? xs i ≡ some x
    → f y ≡ f x
    → map f (set xs i y) ≡ map f xs
map-set f [] i x y g e = refl
map-set f (z ∷ xs) zero x y g e = ap (λ b. b ∷ map f xs) (e ∙ ap f (sym (some_eq g)))
map-set f (z ∷ xs) (suc i) x y g e = ap (◌∷◌ (f z)) (map-set f xs i x y g e)

wrap_ok {ℓ} : {A : Type ℓ} (errs : List Error) {a b : A} → wrap errs a ≡ ok b → a ≡ b
wrap_ok [] e = ok_eq e
wrap_ok (x ∷ errs) e = cc

module _ {F : Type 0} where
  -- Traces without the logs of their spans.
  abbrev pub bare : Span F → Span F
  bare s = record s { logs = [] }

  abbrev pub bare_traces : List (Trace F) → List (List (Span F))
  bare_traces = map (λ (t : Trace F). map bare t.spans)

  bare-log_in_spans :
      (log : Log F) (j : ℕ) (spans : List (Span F))
      → map bare (log_in_spans log j spans) ≡ map bare spans
  unfolding log_in_spans add_log
  bare-log_in_spans log j spans = go (get_elem? spans j) refl
    where
      go :
          (o : Option (Span F))
          → get_elem? spans j ≡ o
          → map bare (log_in_spans log j spans) ≡ map bare spans
      go none e = rw (e, log_in_spans) refl
      go (some s) e = rw (e, log_in_spans) (map-set bare spans j s (add_log log s) e refl)

  bare-log_in_traces :
      (log : Log F) (p : ℕ × ℕ) (traces : List (Trace F))
      → bare_traces (log_in_traces log p traces) ≡ bare_traces traces
  unfolding log_in_traces
  bare-log_in_traces log (i, j) traces = go (get_elem? traces i) refl
    where
      go :
          (o : Option (Trace F))
          → get_elem? traces i ≡ o
          → bare_traces (log_in_traces log (i, j) traces) ≡ bare_traces traces
      go none e = rw (e, log_in_traces) refl
      go (some t) e =
          rw (e, log_in_traces)
            (map-set (λ (t : Trace F). map bare t.spans) traces i t
              (record t { spans = log_in_spans log j t.spans }) e (bare-log_in_spans log j t.spans))

  bare-log_at :
      (log : Log F) (o : Option (ℕ × ℕ)) (traces : List (Trace F))
      → bare_traces (log_at log o traces) ≡ bare_traces traces
  unfolding log_at
  bare-log_at log none traces = refl
  bare-log_at log (some p) traces = bare-log_in_traces log p traces

  bare_ok :
      {a : List (Trace F)} {errs : List Error} {out : List (Trace F) × List Error}
      → ok (a, errs) ≡ ok out
      → bare_traces out.0 ≡ bare_traces a
  bare_ok e = ap (λ x. bare_traces x.0) (sym (ok_eq e))

module _ {F : Type 0} (floats : Floats F) (ids : Ids) (parse_time : Text → Option Time)
    (json_float : Text → F) (range : List Value → Dict ℕ Text → List (ℕ × Text)) where
  bare-append_row :
      (m : Places) (t : TraceId) (traces : List (Trace F))
      (o : Outcome (SpanId × Log F × List Error)) {out : List (Trace F) × List Error}
      → append_row floats ids parse_time json_float range m t traces o ≡ ok out
      → bare_traces out.0 ≡ bare_traces traces
  unfolding append_row
  bare-append_row m t traces (ok (id, log, errs)) e =
      ap (λ x. bare_traces x.0) (sym (ok_eq e)) ∙ bare-log_at log (span_place m t id) traces
  bare-append_row m t traces (err x) e = ap (λ x. bare_traces x.0) (sym (ok_eq e))
  bare-append_row m t traces panic e = cc

  bare-append_rows :
      (m : Places) (t : TraceId) (columns : List Text) (vs : List (List Value))
      (traces : List (Trace F)) {out : List (Trace F) × List Error}
      → append_rows floats ids parse_time json_float range m t columns traces vs ≡ ok out
      → bare_traces out.0 ≡ bare_traces traces
  unfolding append_rows
  bare-append_rows m t columns [] traces e = ap (λ x. bare_traces x.0) (sym (ok_eq e))
  bare-append_rows m t columns (v ∷ vs) traces e =
      let (next, p, e') =
        >>=-eq-ok
          (append_row floats ids parse_time json_float range m t traces
            (row_log floats ids parse_time json_float range columns v))
          _ e in
      let (rest, q, e'') =
        >>=-eq-ok (append_rows floats ids parse_time json_float range m t columns next.0 vs) _ e' in
      bare_ok e''
      ∙ bare-append_rows m t columns vs next.0 q
      ∙ bare-append_row m t traces (row_log floats ids parse_time json_float range columns v) p

  bare-append_span_logs_from_influxql_row :
      (m : Places) (traces : List (Trace F)) (row : Row) {out : List (Trace F)}
      → append_span_logs_from_influxql_row floats ids parse_time json_float range m traces row
        ≡ ok out
      → bare_traces out ≡ bare_traces traces
  unfolding append_span_logs_from_influxql_row
  bare-append_span_logs_from_influxql_row m traces row e =
      let (read, p, q) =
        >>=-eq-ok
          (append_rows floats ids parse_time json_float range m (row_trace_id ids row).0 row.columns
            traces row.values)
          _ e in
      ap bare_traces (sym (wrap_ok ((row_trace_id ids row).1 ++ read.1) q))
      ∙ bare-append_rows m (row_trace_id ids row).0 row.columns row.values traces p

  bare-append_series :
      (m : Places) (rows : List Row) (traces : List (Trace F)) {out : List (Trace F)}
      → append_series floats ids parse_time json_float range m traces rows ≡ ok out
      → bare_traces out ≡ bare_traces traces
  unfolding append_series
  bare-append_series m [] traces e = ap bare_traces (sym (ok_eq e))
  bare-append_series m (row ∷ rows) traces e =
      let (next, p, q) =
        >>=-eq-ok
          (append_span_logs_from_influxql_row floats ids parse_time json_float range m traces row) _
          e in
      bare-append_series m rows next q ∙ bare-append_span_logs_from_influxql_row m traces row p

  bare-append_results :
      (m : Places) (rs : List Result) (traces : List (Trace F)) {out : List (Trace F)}
      → append_results floats ids parse_time json_float range m traces rs ≡ ok out
      → bare_traces out ≡ bare_traces traces
  unfolding append_results
  bare-append_results m [] traces e = ap bare_traces (sym (ok_eq e))
  bare-append_results m (r ∷ rs) traces e =
      let (next, p, q) =
        >>=-eq-ok (append_series floats ids parse_time json_float range m traces r.series) _ e in
      bare-append_results m rs next q ∙ bare-append_series m r.series traces p

  -- Where AppendSpanLogsFromInfluxQLResponse returns no error, the traces have the same spans in
  -- the same order as before, and everything of a span but its logs is as it was.
  pub bare-append_span_logs_from_influxql_response :
      (results : List Result) (traces out : List (Trace F))
      → append_span_logs_from_influxql_response floats ids parse_time json_float range results
          traces
        ≡ ok out
      → bare_traces out ≡ bare_traces traces
  unfolding append_span_logs_from_influxql_response
  bare-append_span_logs_from_influxql_response results traces out e =
      let (m, _, q) = >>=-eq-ok (place_traces 0 [] traces) _ e in
      bare-append_results m results traces q
