-- ===== src/Dbmodel/InfluxQl/Traces/Identity.antt =====
-- The trace that a row of an InfluxQL response gives is one trace.
use mathlib.Core.Path.{subst}
use jaeger_influxdb.Prelude.{ℕ, ◌≡◌, refl, List, [], ◌∷◌, map, Option, some, Text, All, All-append}
use jaeger_influxdb.Prelude.Dict.{Dict}
use jaeger_influxdb.Prelude.Int.{pos, wrap64}
use jaeger_influxdb.Prelude.Outcome.{
  Outcome, ok, err, panic, or_error, Error, Returns, bind-Returns, Returns-eq, no_time, bad_time,
  no_span_id, bad_span_id, no_service_name, no_operation_name, >>=-eq-ok, ok_eq,
}
use jaeger_influxdb.Common.{
  time_v1_key, service_name_key, operation_name_key, span_id_key, duration_key, flags_key,
  process_tag_keys_key, references_key,
}
use jaeger_influxdb.Dbmodel.Model.{SpanRef, TraceId, Span, Time, Floats, Ids}
use jaeger_influxdb.Dbmodel.References.{references_from_string}
use jaeger_influxdb.Dbmodel.SpanTime.{remove_span_id_from_time}
use jaeger_influxdb.Dbmodel.Flux.{wrap}
use jaeger_influxdb.Dbmodel.Flux.Traces.{Trace}
use jaeger_influxdb.Dbmodel.InfluxQl.{
  Value, nil_value, string_json, number_json, bool_json, other_json, Row, as_string, column,
  value_at, optional_at, row_trace_id, other_columns,
}
use jaeger_influxdb.Dbmodel.InfluxQl.Traces.{
  span_columns, optional_int, process_keys, Round, note, behind, row_tags, row_references,
  rest_of_span, span_round, span_rounds, trace_from_influxql_row,
}

-- A span of the trace: it and its references have the trace's ID.
pub record IsOf {F : Type 0} (t : TraceId) (s : Span F) : Type 0 where
  pub own : s.trace_id ≡ t
  pub referenced : All (λ r. r.trace_id ≡ t) s.references

wrap_none {ℓ} : {A : Type ℓ} (errs : List Error) (a : A) {b : A} → wrap errs a ≡ ok b → errs ≡ []
wrap_none [] a e = refl
wrap_none (x ∷ errs) a e = cc

wrap_ok {ℓ} : {A : Type ℓ} (errs : List Error) {a b : A} → wrap errs a ≡ ok b → a ≡ b
wrap_ok [] e = ok_eq e
wrap_ok (x ∷ errs) e = cc

module _ {F : Type 0} where
  abbrev Of : TraceId → Round F → Type 0
  Of t r = All (IsOf t) r.0

  note-Returns : (t : TraceId) (o : Outcome (Round F)) → Returns (Of t) o → Returns (Of t) (note o)
  note-Returns t (ok r) h = h
  note-Returns t (err e) h = tt
  note-Returns t panic h = tt

  behind-Returns :
      (t : TraceId) (errs : List Error) (o : Outcome (Round F))
      → Returns (Of t) o
      → Returns (Of t) (behind errs o)
  behind-Returns t errs (ok r) h = h
  behind-Returns t errs (err e) h = tt
  behind-Returns t errs panic h = tt

module _ {F : Type 0} (floats : Floats F) (ids : Ids) (parse_time : Text → Option Time)
    (range : List Value → Dict ℕ Text → List (ℕ × Text)) where
  rest_of_span-Of :
      (t : TraceId) (columns : List Text) (v : List Value) (span : Span F)
      → IsOf t span
      → Returns (Of t) (rest_of_span floats ids parse_time range columns v span)
  unfolding rest_of_span
  rest_of_span-Of t columns v span h =
      bind-Returns (Of t) (optional_at v (column flags_key columns)) _ λ flags_value _.
        bind-Returns (Of t) (optional_int flags_value) _ λ flags _.
          bind-Returns (Of t) (optional_at v (column duration_key columns)) _ λ duration_value _.
            bind-Returns (Of t) (optional_int duration_value) _ λ duration _.
              bind-Returns (Of t) (or_error no_operation_name (column operation_name_key columns)) _
                λ i _. bind-Returns (Of t) (value_at v (some i)) _ λ name_value _.
                  bind-Returns (Of t) (as_string name_value) _
                    λ name _. (record { own = h.own; referenced = h.referenced }, tt)

  Referenced : TraceId → List SpanRef → Type 0
  Referenced t = All (λ r. r.trace_id ≡ t)

  map-Referenced :
      (t : TraceId) (rs : List SpanRef)
      → Referenced t (map (λ (r : SpanRef). record r { trace_id = t }) rs)
  unfolding Referenced
  map-Referenced t [] = tt
  map-Referenced t (r ∷ rs) = (refl, map-Referenced t rs)

  row_references-Referenced :
      (t : TraceId) (v : Value)
      → Returns (Referenced t) (row_references floats ids parse_time range t v)
  unfolding row_references Referenced
  row_references-Referenced t nil_value = tt
  row_references-Referenced t (string_json s) =
      bind-Returns (Referenced t) (references_from_string ids s) _ λ rs _. map-Referenced t rs
  row_references-Referenced t (number_json s) = tt
  row_references-Referenced t (bool_json b) = tt
  row_references-Referenced t other_json = tt

  span_round-Of :
      (columns : List Text) (t : TraceId) (v : List Value)
      → Returns (Of t) (span_round floats ids parse_time range columns t v)
  unfolding span_round Referenced
  span_round-Of columns t v = note-Returns t _ (
      bind-Returns (Of t) (or_error no_time (column time_v1_key columns)) _ λ time_i _.
        bind-Returns (Of t) (value_at v (some time_i)) _ λ time_value _.
          bind-Returns (Of t) (as_string time_value) _ λ time_text _.
            bind-Returns (Of t) (or_error bad_time (parse_time time_text)) _ λ start _.
              bind-Returns (Of t) (or_error no_span_id (column span_id_key columns)) _ λ id_i _.
                bind-Returns (Of t) (value_at v (some id_i)) _ λ id_value _.
                  bind-Returns (Of t) (as_string id_value) _ λ id_text _.
                    bind-Returns (Of t) (or_error bad_span_id (ids.span_id_from_string id_text)) _
                      λ id _.
                        bind-Returns (Of t) (optional_at v (column references_key columns)) _
                          λ refs_value _.
                            bind-Returns (Of t)
                              (row_references floats ids parse_time range t refs_value) _
                              λ refs p.
                                bind-Returns (Of t)
                                  (or_error no_service_name (column service_name_key columns)) _
                                  λ service_i _.
                                    bind-Returns (Of t) (value_at v (some service_i)) _
                                      λ service_value _.
                                        bind-Returns (Of t) (as_string service_value) _ λ service _.
                                          bind-Returns (Of t)
                                            (optional_at v (column process_tag_keys_key columns)) _
                                            λ keys_value _.
                                              bind-Returns (Of t) (process_keys keys_value) _
                                                λ keys _.
                                                  bind-Returns (Of t)
                                                    (row_tags floats ids parse_time range keys v
                                                      (record {
                                                        process = [];
                                                        tags = [];
                                                        errs = [];
                                                      })
                                                      (range v
                                                        (other_columns span_columns 0 columns)))
                                                    _
                                                    λ g _. behind-Returns t g.errs _ (
                                                      note-Returns t _ (
                                                        rest_of_span-Of t columns v
                                                          (record {
                                                            trace_id = t;
                                                            span_id = id;
                                                            operation_name = [];
                                                            references = refs;
                                                            flags = 0;
                                                            start_time =
                                                            remove_span_id_from_time (wrap64 start);
                                                            duration = pos 0;
                                                            tags = g.tags;
                                                            logs = [];
                                                            process = record {
                                                            service_name = service;
                                                            tags = g.process;
                                                            };
                                                          })
                                                          (record {
                                                            own = refl;
                                                            referenced =
                                                            Returns-eq (Referenced t) _ refs
                                                            (row_references-Referenced t refs_value)
                                                            p;
                                                          }))))

  span_rounds-Of :
      (columns : List Text) (t : TraceId) (vs : List (List Value))
      → Returns (Of t) (span_rounds floats ids parse_time range columns t vs)
  unfolding span_rounds
  span_rounds-Of columns t [] = tt
  span_rounds-Of columns t (v ∷ vs) =
      bind-Returns (Of t) (span_round floats ids parse_time range columns t v) _ λ first p.
        bind-Returns (Of t) (span_rounds floats ids parse_time range columns t vs) _ λ rest q.
          All-append (IsOf t) first.0 rest.0
            (Returns-eq (Of t) _ first (span_round-Of columns t v) p)
            (Returns-eq (Of t) _ rest (span_rounds-Of columns t vs) q)

  pub trace_from_influxql_row-IsOf :
      (row : Row) (trace : Trace F)
      → trace_from_influxql_row floats ids parse_time range row ≡ ok trace
      → ((row_trace_id ids row).1 ≡ []) × All (IsOf (row_trace_id ids row).0) trace.spans
  unfolding trace_from_influxql_row
  trace_from_influxql_row-IsOf row trace e =
      let t = (row_trace_id ids row).0 in
      let (_, p, e') = >>=-eq-ok (wrap (row_trace_id ids row).1 tt) _ e in
      let (read, q, e'') =
        >>=-eq-ok (span_rounds floats ids parse_time range row.columns t row.values) _ e' in
      (
        wrap_none (row_trace_id ids row).1 tt p,
        subst (λ (tr : Trace F). All (IsOf t) tr.spans) (wrap_ok read.1 e'')
            (Returns-eq (Of t) _ read (span_rounds-Of row.columns t row.values) q),
      )
