-- ===== src/Dbmodel/Flux/Traces/Attach.antt =====
-- What one table adds to the traces and logs of TracesFromFluxResult.
use jaeger_influxdb.Prelude.{
  ◌≡◌, refl, sym, ap, ◌∙◌, Bool, true, false, List, [], ◌∷◌, ◌++◌, Option, none, some, Text,
  append-nil, if◌then◌else◌, Bool-cases, inl, inr,
}
use jaeger_influxdb.Prelude.Dict.{Dict, lookup, insert, lookup-insert}
use jaeger_influxdb.Prelude.Eq.{Text_eq, text_eq, ℕ_eq}
use jaeger_influxdb.Prelude.Outcome.{
  Outcome, ok, err, panic, ◌>>=◌, >>=-eq-ok, ok_eq, Error, unknown_measurement,
}
use jaeger_influxdb.Dbmodel.Model.{SpanId, TraceId, TraceId_eq, trace_eq, Log, Span, Floats, Ids}
use jaeger_influxdb.Dbmodel.Flux.{Row}
use jaeger_influxdb.Dbmodel.Flux.Logs.{logs_from_rows}
use jaeger_influxdb.Dbmodel.Flux.Logs.Grouping.{under, logs_of, under-logs_from_rows}
use jaeger_influxdb.Dbmodel.Flux.Traces.{
  Table, Trace, LogsById, ended, get_measurement, trace_from_flux_table, logs_from_flux_table,
  log_table_trace_id, table_step,
}

abbrev pub is_named : Text → Outcome Text → Bool
is_named name (ok m) = text_eq m name
is_named name (err e) = false
is_named name panic = false

module _ {F : Type 0} (floats : Floats F) (ids : Ids)
    (span_measurement log_measurement : Text) where
  abbrev pub trace_of : Outcome (Trace F) → List (Trace F)
  trace_of (ok t) = t ∷ []
  trace_of (err e) = []
  trace_of panic = []

  -- The traces of the span tables, in order.
  abbrev pub span_traces : List (Table F) → List (Trace F)
  span_traces [] = []
  span_traces (t ∷ ts) =
      (if is_named span_measurement (get_measurement floats ids t)
        then trace_of (trace_from_flux_table floats ids t)
        else [])
      ++ span_traces ts

  abbrev pub is_for : TraceId → Outcome TraceId → Bool
  is_for id (ok t) = trace_eq t id
  is_for id (err e) = false
  is_for id panic = false

  -- The rows of a table, if it is a log table of the trace.
  abbrev pub rows_for : TraceId → Table F → Option (List (Row F))
  rows_for id t =
      if is_named span_measurement (get_measurement floats ids t)
      then none
      else if is_for id (log_table_trace_id floats ids t)
      then some t.rows
      else none

  abbrev pub later_rows : Option (List (Row F)) → Option (List (Row F)) → Option (List (Row F))
  later_rows none earlier = earlier
  later_rows (some rows) earlier = some rows

  -- The rows of the last log table of a trace.
  abbrev pub last_rows : TraceId → List (Table F) → Option (List (Row F)) → Option (List (Row F))
  last_rows id [] earlier = earlier
  last_rows id (t ∷ ts) earlier = last_rows id ts (later_rows (rows_for id t) earlier)

  abbrev pub logged : Option (List (Row F)) → Span F → Span F
  logged none span = span
  logged (some rows) span = record span { logs = logs_of floats ids span.span_id rows }

  -- The logs that were kept for a trace are those of the rows.
  abbrev pub Kept : Option (Dict SpanId (List (Log F))) → Option (List (Row F)) → Type 0
  Kept none none = Unit
  Kept none (some rows) = ⊥
  Kept (some logs) none = ⊥
  Kept (some logs) (some rows) =
      (id : SpanId) → under floats ids logs id ≡ logs_of floats ids id rows

  pub record Step (t : Table F) (traces traces' : List (Trace F)) (logs logs' : LogsById F)
      : Type 0 where
    pub grown :
        traces'
        ≡ traces
          ++ (if is_named span_measurement (get_measurement floats ids t)
              then trace_of (trace_from_flux_table floats ids t)
              else [])
    pub kept :
        (id : TraceId) (o : Option (List (Row F)))
        → Kept (lookup id logs) o
        → Kept (lookup id logs') (later_rows (rows_for id t) o)

  ended_ok {ℓ} : {A : Type ℓ} (fault : Option Error) {a b : A} → ended fault a ≡ ok b → a ≡ b
  ended_ok none e = ok_eq e
  ended_ok (some x) e = cc

  logs_from_flux_table-Kept :
      (t : Table F) (logs : Dict SpanId (List (Log F)))
      → logs_from_flux_table floats ids t ≡ ok logs
      → Kept (some logs) (some t.rows)
  unfolding logs_from_flux_table lookup
  logs_from_flux_table-Kept t logs e id =
      let (read, p, q) = >>=-eq-ok (logs_from_rows floats ids [] t.rows) _ e in
      ap (λ m. under floats ids m id) (sym (ended_ok t.fault q))
      ∙ under-logs_from_rows floats ids t.rows [] p id

  Kept-insert :
      (logs : LogsById F) (t id : TraceId) (m : Dict SpanId (List (Log F))) (rows : List (Row F))
      (o : Option (List (Row F)))
      → Kept (some m) (some rows)
      → Kept (lookup id logs) o
      → Kept
          (lookup id (insert t m logs))
          (later_rows (if trace_eq t id then some rows else none) o)
  Kept-insert logs t id m rows o new old = elim (Bool-cases (trace_eq t id)) [
    | inl e ↦ rw (lookup-insert t id m logs, e) new
    | inr e ↦ rw (lookup-insert t id m logs, e) old
  ]

  -- The callback's three branches.
  table_step-span :
      (t : Table F) (m : Text) (traces : List (Trace F)) (logs : LogsById F)
      → get_measurement floats ids t ≡ ok m
      → text_eq m span_measurement ≡ true
      → table_step floats ids span_measurement log_measurement (traces, logs) t
        ≡ (trace_from_flux_table floats ids t >>= λ trace. ok (traces ++ trace ∷ [], logs))
  unfolding table_step
  table_step-span t m traces logs e s = rw (e, s) refl

  table_step-log :
      (t : Table F) (m : Text) (traces : List (Trace F)) (logs : LogsById F)
      → get_measurement floats ids t ≡ ok m
      → text_eq m span_measurement ≡ false
      → text_eq m log_measurement ≡ true
      → table_step floats ids span_measurement log_measurement (traces, logs) t ≡ (
          log_table_trace_id floats ids t >>= λ id.
          logs_from_flux_table floats ids t >>= λ read. ok (traces, insert id read logs))
  unfolding table_step
  table_step-log t m traces logs e s l = rw (e, s, l) refl

  table_step-other :
      (t : Table F) (m : Text) (traces : List (Trace F)) (logs : LogsById F)
      → get_measurement floats ids t ≡ ok m
      → text_eq m span_measurement ≡ false
      → text_eq m log_measurement ≡ false
      → table_step floats ids span_measurement log_measurement (traces, logs) t
        ≡ err unknown_measurement
  unfolding table_step
  table_step-other t m traces logs e s l = rw (e, s, l) refl

  table_step-measured :
      (t : Table F) (traces : List (Trace F)) (logs : LogsById F)
      {out : List (Trace F) × LogsById F}
      → table_step floats ids span_measurement log_measurement (traces, logs) t ≡ ok out
      → (m : Text) × (get_measurement floats ids t ≡ ok m)
  unfolding table_step
  table_step-measured t traces logs e =
      let (m, p, _) = >>=-eq-ok (get_measurement floats ids t) _ e in (m, p)

  pub table_step-Step :
      (t : Table F) (traces : List (Trace F)) (logs : LogsById F) (traces' : List (Trace F))
      (logs' : LogsById F)
      → table_step floats ids span_measurement log_measurement (traces, logs) t
        ≡ ok (traces', logs')
      → Step t traces traces' logs logs'
  table_step-Step t traces logs traces' logs' e =
      let (m, p) = table_step-measured t traces logs e in
      elim (Bool-cases (text_eq m span_measurement)) [
        | inl s ↦
            let e' = rw (table_step-span t m traces logs p s) at e in
            let (trace, read, same) = >>=-eq-ok (trace_from_flux_table floats ids t) _ e' in
            record {
              grown = rw (p, s, read) (sym (ap (λ x. x.0) (ok_eq same)));
              kept = λ id o k. rw (p, s, ← ap (λ x. x.1) (ok_eq same)) k;
            }
        | inr s ↦ elim (Bool-cases (text_eq m log_measurement)) [
          | inl l ↦
              let e' = rw (table_step-log t m traces logs p s l) at e in
              let (id', found, e'') = >>=-eq-ok (log_table_trace_id floats ids t) _ e' in
              let (read, got, same) = >>=-eq-ok (logs_from_flux_table floats ids t) _ e'' in
              record {
                grown = rw (p, s, append-nil) (sym (ap (λ x. x.0) (ok_eq same)));
                kept = λ id o k.
                    rw (p, s, found, ← ap (λ x. x.1) (ok_eq same))
                      (Kept-insert logs id' id read t.rows o (logs_from_flux_table-Kept t read got)
                        k);
              }
          | inr l ↦ absurd (err_ok (rw (table_step-other t m traces logs p s l) at e))
        ]
      ]
    where
      err_ok : {x : Error} {out : List (Trace F) × LogsById F} → err x ≡ ok out → ⊥
      err_ok e = cc
