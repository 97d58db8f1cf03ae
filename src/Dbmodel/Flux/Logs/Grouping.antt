-- ===== src/Dbmodel/Flux/Logs/Grouping.antt =====
-- The logs of a table, grouped by span.
use mathlib.Core.Option
use jaeger_influxdb.Prelude.{
  ◌≡◌, refl, List, [], ◌∷◌, ◌++◌, nat_eq, nat_eq_iff, if◌then◌else◌, append_assoc, append-nil,
  Bool-cases, inl, inr, ◌∙◌, sym, ap,
}
use jaeger_influxdb.Prelude.Dict.{Dict, lookup, lookup-insert}
use jaeger_influxdb.Prelude.Eq.{ℕ_eq}
use jaeger_influxdb.Prelude.Outcome.{Outcome, ok, err, panic, >>=-eq-ok, ok_eq}
use jaeger_influxdb.Dbmodel.Model.{Log, SpanId, TraceId, Floats, Ids}
use jaeger_influxdb.Dbmodel.Flux.{Row}
use jaeger_influxdb.Dbmodel.Flux.Logs.{
  span_log_from_flux_col_reader, append_log, keep_log, logs_from_rows,
}

module _ {F : Type 0} (floats : Floats F) (ids : Ids) where
  -- The logs of one span among the rows that are logs, in the order of the rows.
  abbrev pub log_of : SpanId → Outcome (Log F × TraceId × SpanId) → List (Log F)
  log_of id (ok (log, trace, span)) = if nat_eq span id then log ∷ [] else []
  log_of id (err e) = []
  log_of id panic = []

  abbrev pub logs_of : SpanId → List (Row F) → List (Log F)
  logs_of id [] = []
  logs_of id (row ∷ rows) =
      log_of id (span_log_from_flux_col_reader floats ids row) ++ logs_of id rows

  abbrev pub under : Dict SpanId (List (Log F)) → SpanId → List (Log F)
  under logs id = Option.get_or (lookup id logs) []

  logs_from_rows_nil :
      (logs : Dict SpanId (List (Log F))) → logs_from_rows floats ids logs [] ≡ ok logs
  unfolding logs_from_rows
  logs_from_rows_nil logs = refl

  logs_from_rows_cons :
      (row : Row F) (rows : List (Row F)) (logs : Dict SpanId (List (Log F)))
      {out : Dict SpanId (List (Log F))}
      → logs_from_rows floats ids logs (row ∷ rows) ≡ ok out
      → (logs' : Dict SpanId (List (Log F))) × (keep_log floats ids logs
            (span_log_from_flux_col_reader floats ids row)
          ≡ ok logs')
        × (logs_from_rows floats ids logs' rows ≡ ok out)
  unfolding logs_from_rows
  logs_from_rows_cons row rows logs h = >>=-eq-ok _ _ h

  under-append_log :
      (logs : Dict SpanId (List (Log F))) (span id : SpanId) (log : Log F)
      → under (append_log floats ids logs span log) id
        ≡ under logs id ++ (if nat_eq span id then log ∷ [] else [])
  unfolding append_log
  under-append_log logs span id log =
      let grown = under logs span ++ log ∷ [] in
      ap (λ o. Option.get_or o []) (lookup-insert span id grown logs)
      ∙ elim (Bool-cases (nat_eq span id)) [
        | inl e ↦ rw (e, (nat_eq_iff span id).0 e)
        | inr e ↦ rw (e, append-nil)
      ]

  under-keep_log :
      (logs : Dict SpanId (List (Log F))) (o : Outcome (Log F × TraceId × SpanId))
      {out : Dict SpanId (List (Log F))}
      → keep_log floats ids logs o ≡ ok out
      → (id : SpanId) → under out id ≡ under logs id ++ log_of id o
  unfolding keep_log
  under-keep_log logs (ok (log, trace, span)) h id =
      ap (λ m. under m id) (ok_eq (sym h)) ∙ under-append_log logs span id log
  under-keep_log logs (err e) h id = ap (λ m. under m id) (ok_eq (sym h)) ∙ sym (append-nil _)
  under-keep_log logs panic h id = cc

  -- Where reading the rows of a table does not panic, the logs under each span ID are those that
  -- were there before and behind them those of the rows with that span ID, in order; the rows that
  -- are no logs are skipped.
  pub under-logs_from_rows :
      (rows : List (Row F)) (logs : Dict SpanId (List (Log F))) {out : Dict SpanId (List (Log F))}
      → logs_from_rows floats ids logs rows ≡ ok out
      → (id : SpanId) → under out id ≡ under logs id ++ logs_of id rows
  under-logs_from_rows [] logs h id =
      ap (λ m. under m id) (ok_eq (sym h ∙ logs_from_rows_nil logs)) ∙ sym (append-nil _)
  under-logs_from_rows (row ∷ rows) logs h id =
      let (logs', kept, rest) = logs_from_rows_cons row rows logs h in
      under-logs_from_rows rows logs' rest id
      ∙ ap (λ l. l ++ logs_of id rows)
          (under-keep_log logs (span_log_from_flux_col_reader floats ids row) kept id)
      ∙ append_assoc (under logs id) _ _
