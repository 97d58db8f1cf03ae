-- ===== src/Reader/InfluxQl/Concurrent.antt =====
-- FindTraces of storev1/reader.go from where the trace IDs are found: the goroutine that reads the
-- traces, and the caller, which asks for the logs and then waits for the goroutine.
pub mod Undisturbed
use jaeger_influxdb.Prelude.{
  ℕ, suc, ◌≡◌, Bool, true, false, List, [], ◌∷◌, Option, none, some, Text,
}
use jaeger_influxdb.Prelude.Dict.{Dict}
use jaeger_influxdb.Prelude.Outcome.{Outcome, ok, err, panic, Error}
use jaeger_influxdb.Dbmodel.Model.{TraceId, Time, Floats, Ids}
use jaeger_influxdb.Dbmodel.Flux.Traces.{Trace}
use jaeger_influxdb.Dbmodel.InfluxQl.{Value, Result}
use jaeger_influxdb.Dbmodel.InfluxQl.Traces.{traces_from_influxql_response}
use jaeger_influxdb.Dbmodel.InfluxQl.SpanLogs.{append_span_logs_from_influxql_response}
use jaeger_influxdb.Reader.InfluxQl.{Reader, Query, Reply, ask_traces, ask_logs}

-- The goroutine: before its query, with the results in hand, and behind `Done`.
pub data Task : Type 0 where
  querying : Task
  reading : List Result → Task
  finished : Task

-- The caller: before its query, before `Wait` with the logs in hand, and behind its return.
pub data Caller (F : Type 0) : Type 0 where
  asking : Caller F
  waiting : List Result → Caller F
  returned : Outcome (List (Trace F)) → Caller F

-- The variables that the two share, and whether a panic of the goroutine has ended the program.
pub record Find (F : Type 0) : Type 0 where
  pub task : Task
  pub caller : Caller F
  pub traces : List (Trace F)
  pub traces_err : Option Error
  pub crashed : Bool

unfoldable pub new_find : {F : Type 0} → Find F
new_find = record {
  task = querying;
  caller = asking;
  traces = [];
  traces_err = none;
  crashed = false;
}

-- What the goroutine sets when the results are read.
unfoldable pub read_done : {F : Type 0} → Find F → Outcome (List (Trace F)) → Find F
read_done s (ok traces) = record s { task = finished; traces = traces }
read_done s (err e) = record s { task = finished; traces = []; traces_err = some e }
read_done s panic = record s { crashed = true }

-- What it sets when its query has returned.
unfoldable pub query_done : {F : Type 0} → Find F → Outcome (List Result) → Find F
query_done s (ok results) = record s { task = reading results }
query_done s (err e) = record s { task = finished; traces_err = some e }
query_done s panic = record s { crashed = true }

-- Where the caller stands when its query has returned.
unfoldable pub logs_done : {F : Type 0} → Outcome (List Result) → Caller F
logs_done (ok results) = waiting results
logs_done (err e) = returned (err e)
logs_done panic = returned panic

-- What the caller returns behind `Wait`.
pub wait_done {ℓ} : {A : Type ℓ} → (A → Outcome A) → A → Option Error → Outcome A
wait_done append traces (some e) = err e
wait_done append traces none = append traces

module _ {F : Type 0} (floats : Floats F) (ids : Ids) (parse_time : Text → Option Time)
    (json_float : Text → F) (range : List Value → Dict ℕ Text → List (ℕ × Text))
    (run : Query → Reply) (r : Reader) (trace_ids : List TraceId) where
  abbrev pub read : List Result → Outcome (List (Trace F))
  read = traces_from_influxql_response floats ids parse_time range

  abbrev pub append : List Result → List (Trace F) → Outcome (List (Trace F))
  append = append_span_logs_from_influxql_response floats ids parse_time json_float range

  -- One step of one of the two, while the program runs. Each step is one query, the reading of its
  -- results, or the end of the caller.
  pub data Step (s : Find F) : Find F → Type 0 where
    query_traces :
        s.crashed ≡ false
        → s.task ≡ querying
        → Step s (query_done s (ask_traces ids run r trace_ids))
    read_results :
        (results : List Result)
        → s.crashed ≡ false
        → s.task ≡ reading results
        → Step s (read_done s (read results))
    query_logs :
        s.crashed ≡ false
        → s.caller ≡ asking
        → Step s (record s { caller = logs_done (ask_logs ids run r trace_ids) })
    wait :
        (logs : List Result)
        → s.crashed ≡ false
        → s.caller ≡ waiting logs
        → s.task ≡ finished
        → Step s (record s { caller = returned (wait_done (append logs) s.traces s.traces_err) })

  -- The states that `n` steps lead to.
  pub data Reach : ℕ → Find F → Type 0 where
    start : Reach 0 new_find
    later : {n : ℕ} {s t : Find F} → Reach n s → Step s t → Reach (suc n) t
