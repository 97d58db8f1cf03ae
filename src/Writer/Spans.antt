-- ===== src/Writer/Spans.antt =====
-- Writer of storev1/writer.go and storev2/writer.go: WriteSpan, which sends the points of a span
-- to the loop and, where the cache says so, a point of the span's meta data. The two writers have
-- the same text but for the client that makes the points.
pub mod Account
use jaeger_influxdb.Prelude.{
  Bool, true, false, List, [], ◌∷◌, ◌++◌, map, Text, codes, if◌then◌else◌,
}
use jaeger_influxdb.Prelude.Dict.{insert}
use jaeger_influxdb.Prelude.Eq.{Text_eq}
use jaeger_influxdb.Prelude.Outcome.{Outcome, ok, err, panic, meta_point_error}
use jaeger_influxdb.Common.{service_name_key, operation_name_key, meta_cache_interval}
use jaeger_influxdb.Common.MetaCache.{WriterMetaCache, new_writer_meta_cache, should_write}
use jaeger_influxdb.Dbmodel.Model.{Span, Floats, Ids}
use jaeger_influxdb.Dbmodel.KeyValue.{bool_value}
use jaeger_influxdb.Dbmodel.ToPoints.{Models, Fields, span_to_points_v1, span_to_points_v2}

-- The names that `NewStore` gives to `NewWriter`.
pub record Measurements : Type 0 where
  pub span : Text
  pub span_meta : Text
  pub log : Text

-- `sent` holds the strings that were sent on `writeCh`, in order.
pub record SpanWriter : Type 0 where
  pub meta_cache : WriterMetaCache
  pub sent : List Text

-- `NewWriter`
unfoldable pub new_writer : SpanWriter
new_writer = record { meta_cache = new_writer_meta_cache meta_cache_interval; sent = [] }

module _ {F Tags Point : Type 0} (floats : Floats F) (ids : Ids)
    (models : Models F Tags Point) where
  open models use {no_tags, set_string, new_point, point_string}

  -- The point of the meta data.
  pub meta_point : Measurements → Span F → Outcome Point
  meta_point names span =
      let served = set_string no_tags service_name_key span.process.service_name in
      let tags = set_string served operation_name_key span.operation_name in
      new_point names.span_meta tags (insert (codes "v") (bool_value true) []) span.start_time

  send_meta : SpanWriter → Outcome Point → SpanWriter × Outcome (Unit {0})
  send_meta w (ok p) = (record w { sent = w.sent ++ point_string p ∷ [] }, ok tt)
  send_meta w (err e) = (w, err meta_point_error)
  send_meta w panic = (w, panic)

  -- What WriteSpan does with the points.
  send_points :
      Measurements → SpanWriter → Span F → Outcome (List Point) → SpanWriter × Outcome (Unit {0})
  unfolding send_meta
  send_points names w span (ok points) =
      let (cache, told) =
        should_write w.meta_cache span.process.service_name span.operation_name span.start_time in
      let w' : SpanWriter = record {
        meta_cache = cache;
        sent = w.sent ++ map point_string points;
      } in
      if told then send_meta w' (meta_point names span) else (w', ok tt)
  send_points names w span (err e) = (w, err e)
  send_points names w span panic = (w, panic)

  unfoldable pub write_span_v1 :
      Measurements → SpanWriter → Span F → SpanWriter × Outcome (Unit {0})
  unfolding send_points
  write_span_v1 names w span =
      send_points names w span (span_to_points_v1 floats ids models span names.span names.log)

  unfoldable pub write_span_v2 :
      Measurements → SpanWriter → Span F → SpanWriter × Outcome (Unit {0})
  unfolding send_points
  write_span_v2 names w span =
      send_points names w span (span_to_points_v2 floats ids models span names.span names.log)

-- The writer after one call for each span; an error of a call does not stop the next.
unfoldable pub write_all {ℓ} :
    {S : Type ℓ}
    → (SpanWriter → S → SpanWriter × Outcome (Unit {0}))
    → SpanWriter
    → List S
    → SpanWriter
write_all write w [] = w
write_all write w (span ∷ spans) = write_all write (write w span).0 spans
