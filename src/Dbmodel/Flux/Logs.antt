-- ===== src/Dbmodel/Flux/Logs.antt =====
-- spanLogFromFluxColReader and logsFromFluxTable of dbmodel/to_domain_v2.go: the rows of a log
-- table as the logs of spans.
pub mod Grouping
use jaeger_influxdb.Prelude.{
  ℕ, ◌-◌, ◌%◌, ◌≡◌, Bool, true, false, ◌&&◌, List, [], ◌∷◌, ◌++◌, Option, none, some, Text, codes,
  nat_eq, if◌then◌else◌,
}
use mathlib.Core.Option
use jaeger_influxdb.Prelude.Dict.{Dict, lookup, insert}
use jaeger_influxdb.Prelude.Eq.{ℕ_eq, text_eq}
use jaeger_influxdb.Prelude.Int.{ℤ, pos, negsuc, wrap64}
use jaeger_influxdb.Prelude.Outcome.{
  Outcome, ok, err, panic, ◌>>=◌, Error, bad_trace_id, bad_span_id, bad_prefix, bad_base64,
  no_timestamp, no_trace_id, no_span_id,
}
use jaeger_influxdb.Go.Base64
use jaeger_influxdb.Common.{measurement_key, time_v2_key, trace_id_key, span_id_key}
use jaeger_influxdb.Dbmodel.Model.{
  KeyValue, string_type, bool_type, int64_type, float64_type, binary_type, Log, SpanId, TraceId,
  trace_eq, no_trace, zero_time, is_zero_time, Floats, Ids,
}
use jaeger_influxdb.Dbmodel.KeyValue.{blank}
use jaeger_influxdb.Dbmodel.LogText.{show_newlines}
use jaeger_influxdb.Dbmodel.Flux.{
  Cell, null_cell, bool_cell, int_cell, uint_cell, float_cell, string_cell, time_cell, other_cell,
  Column, Row, strings, times, is_null, wrap,
}

-- `time.Unix(0, t).Nanosecond()`: the part of a second.
abbrev pub nanosecond : ℤ → ℕ
nanosecond (pos n) = n % 1000000000
nanosecond (negsuc n) = 999999999 - n % 1000000000

-- What the loop over the columns has gathered.
pub record GatheredLog (F : Type 0) : Type 0 where
  pub log : Log F
  pub trace_id : TraceId
  pub span_id : SpanId
  pub errs : List Error

module _ {F : Type 0} (floats : Floats F) (ids : Ids) where
  abbrev pub no_log : GatheredLog F
  no_log = record {
    log = record { timestamp = zero_time; fields = [] };
    trace_id = no_trace;
    span_id = 0;
    errs = [];
  }

  add_field : GatheredLog F → KeyValue F → GatheredLog F
  add_field g kv = record g { log = record (g.log) { fields = g.log.fields ++ kv ∷ [] } }

  binary_field : GatheredLog F → Text → Option Text → GatheredLog F
  unfolding add_field
  binary_field g label none = record g { errs = g.errs ++ bad_base64 ∷ [] }
  binary_field g label (some b) =
      add_field g (record (blank floats label binary_type) { v_binary = b })

  -- A string value begins with the letter of its type.
  string_field : GatheredLog F → Text → Text → GatheredLog F
  unfolding binary_field add_field
  string_field g label [] = record g { errs = g.errs ++ bad_prefix ∷ [] }
  string_field g label (c ∷ s) =
      if nat_eq c b's'
      then add_field g (record (blank floats label string_type) { v_str = show_newlines s })
      else if nat_eq c b'B'
      then binary_field g label (Base64.decode s)
      else record g { errs = g.errs ++ bad_prefix ∷ [] }

  -- The `switch` on the type of a column that is a field of the log; the cell is not null.
  field_column : GatheredLog F → Text → Cell F → GatheredLog F
  unfolding string_field add_field
  field_column g label (bool_cell b) =
      add_field g (record (blank floats label bool_type) { v_bool = b })
  field_column g label (int_cell n) =
      add_field g (record (blank floats label int64_type) { v_int64 = n })
  field_column g label (uint_cell n) =
      add_field g (record (blank floats label int64_type) { v_int64 = wrap64 (pos n) })
  field_column g label (float_cell x) =
      add_field g (record (blank floats label float64_type) { v_float64 = x })
  field_column g label (string_cell s) = string_field g label s
  field_column g label (time_cell t) =
      add_field g (record (blank floats label int64_type) { v_int64 = pos (nanosecond t) })
  field_column g label other_cell = g
  field_column g label (null_cell t) = g

  log_trace_id : GatheredLog F → Option TraceId → GatheredLog F
  log_trace_id g none = record g { trace_id = no_trace; errs = g.errs ++ bad_trace_id ∷ [] }
  log_trace_id g (some t) = record g { trace_id = t }

  log_span_id : GatheredLog F → Option SpanId → GatheredLog F
  log_span_id g none = record g { span_id = 0; errs = g.errs ++ bad_span_id ∷ [] }
  log_span_id g (some n) = record g { span_id = n }

  log_column : GatheredLog F → Text → Cell F → Outcome (GatheredLog F)
  unfolding field_column log_trace_id log_span_id
  log_column g label cell =
      if text_eq label measurement_key
      then ok g
      else if text_eq label time_v2_key
      then (do t ← times cell; ok (record g { log = record (g.log) { timestamp = t } }))
      else if text_eq label trace_id_key
      then (do s ← strings cell; ok (log_trace_id g (ids.trace_id_from_string s)))
      else if text_eq label span_id_key
      then (do s ← strings cell; ok (log_span_id g (ids.span_id_from_string s)))
      else ok (field_column g label cell)

  log_columns : GatheredLog F → Row F → Outcome (GatheredLog F)
  unfolding log_column
  log_columns g [] = ok g
  log_columns g (c ∷ cs) = do
    skip ← is_null c.cell
    g' ← (if skip then ok g else log_column g c.label c.cell)
    log_columns g' cs

  -- The checks behind the loop.
  log_errors : GatheredLog F → List Error
  log_errors g =
      g.errs
      ++ ((if is_zero_time g.log.timestamp then no_timestamp ∷ [] else [])
          ++ ((if trace_eq g.trace_id no_trace then no_trace_id ∷ [] else [])
              ++ (if nat_eq g.span_id 0 then no_span_id ∷ [] else [])))

  unfoldable pub span_log_from_flux_col_reader : Row F → Outcome (Log F × TraceId × SpanId)
  unfolding log_columns log_errors
  span_log_from_flux_col_reader row = do
    g ← log_columns no_log row
    wrap (log_errors g) (g.log, g.trace_id, g.span_id)

  -- `logsBySpanID[spanID] = append(logsBySpanID[spanID], *spanLog)`
  append_log : Dict SpanId (List (Log F)) → SpanId → Log F → Dict SpanId (List (Log F))
  append_log logs id log = insert id (Option.get_or (lookup id logs) [] ++ log ∷ []) logs

  -- A row that is no log is skipped with a warning.
  keep_log :
      Dict SpanId (List (Log F))
      → Outcome (Log F × TraceId × SpanId)
      → Outcome (Dict SpanId (List (Log F)))
  unfolding append_log
  keep_log logs (ok (log, trace, id)) = ok (append_log logs id log)
  keep_log logs (err e) = ok logs
  keep_log logs panic = panic

  unfoldable pub logs_from_rows :
      Dict SpanId (List (Log F)) → List (Row F) → Outcome (Dict SpanId (List (Log F)))
  unfolding keep_log span_log_from_flux_col_reader
  logs_from_rows logs [] = ok logs
  logs_from_rows logs (row ∷ rows) = do
    logs' ← keep_log logs (span_log_from_flux_col_reader row)
    logs_from_rows logs' rows
