-- ===== src/Dbmodel/Flux/Traces/Complete.antt =====
-- Which traces TracesFromFluxResult returns, and which logs their spans get.
use jaeger_influxdb.Prelude.{
  ◌≡◌, refl, sym, ap, ◌∙◌, List, [], ◌∷◌, ◌++◌, map, Option, none, some, Text, append-nil,
  append_assoc,
}
use jaeger_influxdb.Prelude.Dict.{Dict, lookup}
use jaeger_influxdb.Prelude.Eq.{Text_eq, ℕ_eq}
use jaeger_influxdb.Prelude.Outcome.{ok, >>=-eq-ok, ok_eq}
use jaeger_influxdb.Dbmodel.Model.{SpanId, TraceId, TraceId_eq, Log, Span, Floats, Ids}
use jaeger_influxdb.Dbmodel.Flux.{Row}
use jaeger_influxdb.Dbmodel.Flux.Traces.{
  Table, Trace, LogsById, table_step, table_steps, attach_logs, attach_all, traces_from_flux_result,
}
use jaeger_influxdb.Dbmodel.Flux.Traces.Attach.{
  span_traces, rows_for, later_rows, last_rows, logged, Kept, table_step-Step,
}

module _ {F : Type 0} (floats : Floats F) (ids : Ids)
    (span_measurement log_measurement : Text) where
  -- What the tables add to the traces and logs so far.
  record Steps (ts : List (Table F)) (traces traces' : List (Trace F)) (logs logs' : LogsById F)
      : Type 0 where
    grown : traces' ≡ traces ++ span_traces floats ids span_measurement log_measurement ts
    kept :
        (id : TraceId) (o : Option (List (Row F)))
        → Kept floats ids span_measurement log_measurement (lookup id logs) o
        → Kept floats ids span_measurement log_measurement
            (lookup id logs')
            (last_rows floats ids span_measurement log_measurement id ts o)

  table_steps-cons :
      (t : Table F) (ts : List (Table F)) (state : List (Trace F) × LogsById F)
      {out : List (Trace F) × LogsById F}
      → table_steps floats ids span_measurement log_measurement state (t ∷ ts) ≡ ok out
      → (next : List (Trace F) × LogsById F) × (table_step floats ids span_measurement
            log_measurement state t
          ≡ ok next)
        × (table_steps floats ids span_measurement log_measurement next ts ≡ ok out)
  unfolding table_steps
  table_steps-cons t ts state e = >>=-eq-ok _ _ e

  table_steps-nil :
      (state : List (Trace F) × LogsById F)
      → table_steps floats ids span_measurement log_measurement state [] ≡ ok state
  unfolding table_steps
  table_steps-nil state = refl

  table_steps-Steps :
      (ts : List (Table F)) (traces : List (Trace F)) (logs : LogsById F) (traces' : List (Trace F))
      (logs' : LogsById F)
      → table_steps floats ids span_measurement log_measurement (traces, logs) ts
        ≡ ok (traces', logs')
      → Steps ts traces traces' logs logs'
  table_steps-Steps [] traces logs traces' logs' e =
      let same = ok_eq (sym (table_steps-nil (traces, logs)) ∙ e) in
      record {
        grown = sym (ap (λ x. x.0) same) ∙ sym (append-nil traces);
        kept = λ id o k. rw (← ap (λ x. x.1) same) k;
      }
  table_steps-Steps (t ∷ ts) traces logs traces' logs' e =
      let (next, first, rest) = table_steps-cons t ts (traces, logs) e in
      let one =
        table_step-Step floats ids span_measurement log_measurement t traces logs next.0 next.1
          first in
      let more = table_steps-Steps ts next.0 next.1 traces' logs' rest in
      record {
        grown =
            more.grown
            ∙ ap (λ x. x ++ span_traces floats ids span_measurement log_measurement ts) one.grown
            ∙ append_assoc traces _ (span_traces floats ids span_measurement log_measurement ts);
        kept = λ id o k.
            more.kept id
              (later_rows floats ids span_measurement log_measurement
                (rows_for floats ids span_measurement log_measurement id t) o)
              (one.kept id o k);
      }

  attach_logs-logged :
      (logs : LogsById F) (span : Span F) (o : Option (List (Row F)))
      → Kept floats ids span_measurement log_measurement (lookup span.trace_id logs) o
      → attach_logs floats ids logs span ≡ logged floats ids span_measurement log_measurement o span
  unfolding attach_logs
  attach_logs-logged logs span o k = go (lookup span.trace_id logs) o refl k
    where
      go :
          (found : Option (Dict SpanId (List (Log F)))) (o : Option (List (Row F)))
          → lookup span.trace_id logs ≡ found
          → Kept floats ids span_measurement log_measurement found o
          → attach_logs floats ids logs span
            ≡ logged floats ids span_measurement log_measurement o span
      go none none e k = rw (e, attach_logs) refl
      go none (some rows) e k = absurd k
      go (some m) none e k = absurd k
      go (some m) (some rows) e k =
          rw (e, attach_logs) (ap (λ l. record span { logs = l }) (k span.span_id))

  map_same {ℓ κ} :
      {A : Type ℓ} {B : Type κ} (f g : A → B)
      → ((a : A) → f a ≡ g a)
      → (xs : List A) → map f xs ≡ map g xs
  map_same f g h [] = refl
  map_same f g h (x ∷ xs) = cc (h x, map_same f g h xs)

  -- Where TracesFromFluxResult returns traces, they are those of the span tables, in order, and
  -- each span has for its logs the rows of the last log table of its trace that are logs of its
  -- span ID, in order; where its trace has no log table the span is as it was read.
  pub traces_from_flux_result_lem :
      (ts : List (Table F)) (traces : List (Trace F))
      → traces_from_flux_result floats ids span_measurement log_measurement ts ≡ ok traces
      → traces
        ≡ map
            (λ (tr : Trace F). record tr {
              spans =
                  map
                    (λ (s : Span F).
                      logged floats ids span_measurement log_measurement
                        (last_rows floats ids span_measurement log_measurement s.trace_id ts none)
                        s)
                    tr.spans;
            })
            (span_traces floats ids span_measurement log_measurement ts)
  unfolding traces_from_flux_result attach_all lookup
  traces_from_flux_result_lem ts traces e =
      let ((read, logs), p, q) =
        >>=-eq-ok (table_steps floats ids span_measurement log_measurement ([], []) ts) _ e in
      let steps = table_steps-Steps ts [] [] read logs p in
      sym (ok_eq q)
      ∙ map_same _ _
          (λ tr.
            ap (λ (ss : List (Span F)). record tr { spans = ss })
              (map_same _ _
                (λ s.
                  attach_logs-logged logs s
                    (last_rows floats ids span_measurement log_measurement s.trace_id ts none)
                    (steps.kept s.trace_id none tt))
                tr.spans))
          read
      ∙ ap (map _) steps.grown
