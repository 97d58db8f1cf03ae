-- ===== src/Dbmodel/InfluxQl/Traces/Rows.antt =====
-- The traces of a response are those of its rows.
use jaeger_influxdb.Prelude.{ℕ, ◌≡◌, List, [], ◌∷◌, ◌++◌, Option, Text, All}
use mathlib.Core.Path.{subst}
use jaeger_influxdb.Prelude.Dict.{Dict}
use jaeger_influxdb.Prelude.Outcome.{ok, >>=-eq-ok, ok_eq}
use jaeger_influxdb.Dbmodel.Model.{TraceId, Time, Floats, Ids}
use jaeger_influxdb.Dbmodel.Flux.Traces.{Trace}
use jaeger_influxdb.Dbmodel.InfluxQl.{Value, Row, Result, row_trace_id}
use jaeger_influxdb.Dbmodel.InfluxQl.Traces.{
  trace_from_influxql_row, traces_from_series, traces_from_influxql_response,
}
use jaeger_influxdb.Dbmodel.InfluxQl.Traces.Identity.{IsOf, trace_from_influxql_row-IsOf}

-- The rows of all results, in order.
abbrev pub rows_of : List Result → List Row
rows_of [] = []
rows_of (r ∷ rs) = r.series ++ rows_of rs

-- All spans of the trace and all references of them have one trace ID.
abbrev pub IsOne : {F : Type 0} → Trace F → Type 0
IsOne tr = (t : TraceId) × All (IsOf t) tr.spans

module _ {F : Type 0} (floats : Floats F) (ids : Ids) (parse_time : Text → Option Time)
    (range : List Value → Dict ℕ Text → List (ℕ × Text)) where
  -- The traces are read from the rows, one from each and in order.
  abbrev pub Read : List Row → List (Trace F) → Type 0
  Read [] [] = Unit
  Read (row ∷ rows) (t ∷ ts) =
      (trace_from_influxql_row floats ids parse_time range row ≡ ok t) × Read rows ts
  Read _ _ = ⊥

  Read-append :
      (rows more : List Row) (ts us : List (Trace F))
      → Read rows ts
      → Read more us
      → Read (rows ++ more) (ts ++ us)
  Read-append [] more [] us h k = k
  Read-append [] more (t ∷ ts) us h k = absurd h
  Read-append (row ∷ rows) more [] us h k = absurd h
  Read-append (row ∷ rows) more (t ∷ ts) us h k = (h.0, Read-append rows more ts us h.1 k)

  traces_from_series-Read :
      (rows : List Row) (traces : List (Trace F))
      → traces_from_series floats ids parse_time range rows ≡ ok traces
      → Read rows traces
  unfolding traces_from_series
  traces_from_series-Read [] traces e = subst (Read []) (ok_eq e) tt
  traces_from_series-Read (row ∷ rows) traces e =
      let (t, p, e') = >>=-eq-ok (trace_from_influxql_row floats ids parse_time range row) _ e in
      let (ts, q, e'') = >>=-eq-ok (traces_from_series floats ids parse_time range rows) _ e' in
      subst (Read (row ∷ rows)) (ok_eq e'') (p, traces_from_series-Read rows ts q)

  -- Where TracesFromInfluxQLResponse returns traces, they are those of the rows of all results, one
  -- for each row and in order, whether or not a result is an error.
  pub traces_from_influxql_response-Read :
      (results : List Result) (traces : List (Trace F))
      → traces_from_influxql_response floats ids parse_time range results ≡ ok traces
      → Read (rows_of results) traces
  unfolding traces_from_influxql_response
  traces_from_influxql_response-Read [] traces e = subst (Read []) (ok_eq e) tt
  traces_from_influxql_response-Read (r ∷ rs) traces e =
      let (ts, p, e') = >>=-eq-ok (traces_from_series floats ids parse_time range r.series) _ e in
      let (us, q, e'') =
        >>=-eq-ok (traces_from_influxql_response floats ids parse_time range rs) _ e' in
      subst (Read (rows_of (r ∷ rs))) (ok_eq e'') (
        Read-append r.series (rows_of rs) ts us (traces_from_series-Read r.series ts p)
          (traces_from_influxql_response-Read rs us q))

  pub Read-IsOne : (rows : List Row) (ts : List (Trace F)) → Read rows ts → All IsOne ts
  Read-IsOne [] [] h = tt
  Read-IsOne [] (t ∷ ts) h = absurd h
  Read-IsOne (row ∷ rows) [] h = absurd h
  Read-IsOne (row ∷ rows) (t ∷ ts) h = (
    (
      (row_trace_id ids row).0,
      (trace_from_influxql_row-IsOf floats ids parse_time range row t h.0).1,
    ),
    Read-IsOne rows ts h.1,
  )
