-- ===== src/Dbmodel/InfluxQl/Written/Row.antt =====
-- The spans of a trace that were written are read back from its row.
use jaeger_influxdb.Prelude.{ℕ, ◌<◌, ◌≡◌, refl, false, List, [], ◌∷◌, Option, some, Text}
use jaeger_influxdb.Prelude.Orders.{IsRange}
use jaeger_influxdb.Prelude.Dict.{Dict, lookup}
use jaeger_influxdb.Prelude.Eq.{Text_eq}
use jaeger_influxdb.Prelude.Int.{two64}
use jaeger_influxdb.Prelude.Outcome.{ok}
use jaeger_influxdb.Common.{trace_id_key}
use jaeger_influxdb.Dbmodel.Model.{
  TraceId, no_trace, trace_eq, Span, Time, Floats, FloatLaws, Ids, IdLaws,
}
use jaeger_influxdb.Dbmodel.ToPoints.{Models, ModelLaws}
use jaeger_influxdb.Dbmodel.Flux.Traces.{Trace}
use jaeger_influxdb.Dbmodel.InfluxQl.{Value, Row, row_trace_id}
use jaeger_influxdb.Dbmodel.InfluxQl.Traces.{span_rounds, trace_from_influxql_row}
use jaeger_influxdb.Dbmodel.InfluxQl.Written.{IsWritable, Shows, ReadBack}
use jaeger_influxdb.Dbmodel.InfluxQl.Written.RoundTrip.{
  read_span, span_round_back, read_span-ReadBack,
}

-- A trace ID that the code takes for one.
pub record IsTrace (t : TraceId) : Type 0 where
  pub high : t.high < two64
  pub low : t.low < two64
  pub given : trace_eq t no_trace ≡ false

module _ {F Tags Point : Type 0} (floats : Floats F) (ids : Ids) (models : Models F Tags Point)
    (parse_time : Text → Option Time) (range : List Value → Dict ℕ Text → List (ℕ × Text)) where
  -- Each list of values shows the point of one span.
  pub data ShowsAll (columns : List Text) : List (List Value) → List (Span F) → Type 0 where
    nothing : ShowsAll columns [] []
    and_one :
        {v : List Value} {vs : List (List Value)} {span : Span F} {spans : List (Span F)}
        → IsWritable span
        → Shows floats ids models parse_time range columns v span
        → ShowsAll columns vs spans
        → ShowsAll columns (v ∷ vs) (span ∷ spans)

  -- Each span is read back, in order.
  pub data ReadAll (t : TraceId) : List (Span F) → List (Span F) → Type 0 where
    nothing_read : ReadAll t [] []
    and_read :
        {span out : Span F} {spans outs : List (Span F)}
        → ReadBack floats ids models parse_time range t span out
        → ReadAll t spans outs
        → ReadAll t (span ∷ spans) (out ∷ outs)

  module _ (ranges : (v : List Value) → IsRange (range v)) (float_laws : FloatLaws floats)
      (id_laws : IdLaws ids) (laws : ModelLaws models) where
    rounds_back :
        (t : TraceId) (columns : List Text) {vs : List (List Value)} {spans : List (Span F)}
        → ShowsAll columns vs spans
        → (outs : List (Span F)) × (span_rounds floats ids parse_time range columns t vs
            ≡ ok (outs, []))
          × ReadAll t spans outs
    unfolding span_rounds
    rounds_back t columns nothing = ([], refl, nothing_read)
    rounds_back t columns (and_one {v = v} {span = span} w s rest) =
        let (outs, e, r) = rounds_back t columns rest in
        (
          read_span floats ids models parse_time range ranges float_laws id_laws laws t columns v
                span w s
              ∷ outs,
          rw
              (
                span_round_back floats ids models parse_time range ranges float_laws id_laws laws t
                    columns v span w s,
                e,
              )
              refl,
          and_read
              (read_span-ReadBack floats ids models parse_time range ranges float_laws id_laws laws
                t columns v span w s)
              r,
        )

    row_trace_id_back :
        (row : Row) (t : TraceId)
        → IsTrace t
        → lookup trace_id_key row.tags ≡ some (ids.trace_id_string t)
        → row_trace_id ids row ≡ (t, [])
    unfolding row_trace_id
    row_trace_id_back row t h e =
        rw (e, row_trace_id, id_laws.trace_id t h.high h.low, h.given) refl

    -- Where text forms are read back, a tag set holds the last value that was set for a key, the map
    -- of the other columns is ranged over in some order, and each list of values of a row shows the
    -- point that WriteSpan makes for a span, under a column for each field and each tag that is not
    -- empty: TraceFromInfluxQLRow returns a trace with exactly these spans, in order. Each is as it
    -- was written but for its logs, the nanoseconds of its start below a microsecond, the trace IDs of
    -- its references, the references that are not written, and the order of its tags. The spans start
    -- in or after 1970 and have a service and an operation name; their tags and those of their process
    -- can be written and fit in their types, no two have one key and none has a key of the code's own,
    -- and the keys of the process have no comma.
    pub trace_from_influxql_row-ReadAll :
        (row : Row) (t : TraceId) (spans : List (Span F))
        → IsTrace t
        → lookup trace_id_key row.tags ≡ some (ids.trace_id_string t)
        → ShowsAll row.columns row.values spans
        → (trace : Trace F) × (trace_from_influxql_row floats ids parse_time range row ≡ ok trace)
          × ReadAll t spans trace.spans
    unfolding trace_from_influxql_row
    trace_from_influxql_row-ReadAll row t spans h e shown =
        let (outs, f, r) = rounds_back t row.columns shown in
        (record { spans = outs }, rw (row_trace_id_back row t h e, f) refl, r)
