-- ===== src/Dbmodel/Flux/Traces/Found.antt =====
-- Which trace IDs TraceIDsFromFluxResult of dbmodel/to_domain_v2.go returns.
use mathlib.Core.Path.{subst}
use jaeger_influxdb.Prelude.{
  Each, no_more, and_each, Each-append, ◌≡◌, List, [], ◌∷◌, ◌++◌, none, some, Text, All,
}
use jaeger_influxdb.Prelude.Outcome.{
  ok, >>=-eq-ok, ok_eq, guard, or_error, or_error-eq-ok, no_column, bad_trace_id,
}
use jaeger_influxdb.Common.{trace_id_key}
use jaeger_influxdb.Dbmodel.Model.{TraceId, Floats, Ids}
use jaeger_influxdb.Dbmodel.Flux.{Row, strings}
use jaeger_influxdb.Dbmodel.Flux.Rows.{TextAt, table_rows, no_fault}
use jaeger_influxdb.Dbmodel.Flux.Span.{contains}
use jaeger_influxdb.Dbmodel.Flux.Traces.{
  Table, last_column, ended, row_trace_id, trace_ids_from_rows, trace_ids_from_flux_result,
}

module _ {F : Type 0} (floats : Floats F) (ids : Ids) where
  -- A row holds the text of a trace ID in its column of trace IDs.
  abbrev pub HasId : Row F → TraceId → Type 0
  HasId row t = (s : Text) × TextAt trace_id_key row s × (ids.trace_id_from_string s ≡ some t)

  row_trace_id-HasId :
      (row : Row F) (t : TraceId) → row_trace_id floats ids row ≡ ok t → HasId row t
  unfolding row_trace_id
  row_trace_id-HasId row t e =
      let (cell, e1, r1) = >>=-eq-ok (or_error no_column (last_column trace_id_key row)) _ e in
      let (s, e2, r2) = >>=-eq-ok (strings cell) _ r1 in
      (s, (cell, or_error-eq-ok no_column _ cell e1, e2), or_error-eq-ok bad_trace_id _ t r2)

  trace_ids_from_rows-Each :
      (rows : List (Row F)) (ts : List TraceId)
      → trace_ids_from_rows floats ids rows ≡ ok ts
      → Each HasId rows ts
  unfolding trace_ids_from_rows
  trace_ids_from_rows-Each [] ts e = subst (Each HasId []) (ok_eq e) no_more
  trace_ids_from_rows-Each (row ∷ rows) ts e =
      let (t, e1, r1) = >>=-eq-ok (row_trace_id floats ids row) _ e in
      let (us, e2, r2) = >>=-eq-ok (trace_ids_from_rows floats ids rows) _ r1 in
      subst (Each HasId (row ∷ rows)) (ok_eq r2)
        (and_each (row_trace_id-HasId row t e1) (trace_ids_from_rows-Each rows us e2))

  -- Where TraceIDsFromFluxResult returns trace IDs, no table ended with an error, and the IDs are
  -- those of the rows of all tables, one for each row, in order.
  pub trace_ids_from_flux_result-Each :
      (ts : List (Table F)) (found : List TraceId)
      → trace_ids_from_flux_result floats ids ts ≡ ok found
      → Each HasId (table_rows ts) found × All (λ table. table.fault ≡ none) ts
  unfolding trace_ids_from_flux_result
  trace_ids_from_flux_result-Each [] found e = (subst (Each HasId []) (ok_eq e) no_more, tt)
  trace_ids_from_flux_result-Each (table ∷ ts) found e =
      let (u, e1, r1) = >>=-eq-ok (guard (contains table.labels trace_id_key) no_column) _ e in
      let (us, e2, r2) = >>=-eq-ok (trace_ids_from_rows floats ids table.rows) _ r1 in
      let (done, e3, r3) = >>=-eq-ok (ended table.fault us) _ r2 in
      let (vs, e4, r4) = >>=-eq-ok (trace_ids_from_flux_result floats ids ts) _ r3 in
      let (h, faults) = trace_ids_from_flux_result-Each ts vs e4 in
      (
        subst (Each HasId (table.rows ++ table_rows ts)) (ok_eq r4)
            (Each-append (trace_ids_from_rows-Each table.rows us e2) h),
        (no_fault _ _ table.fault e3, faults),
      )
