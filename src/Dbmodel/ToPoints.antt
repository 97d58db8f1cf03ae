-- ===== src/Dbmodel/ToPoints.antt =====
-- SpanToPointsV1 and SpanToPointsV2 (dbmodel/from_domain_v1.go, dbmodel/from_domain_v2.go): the
-- InfluxDB points of a span. The loggers' calls are left out.
pub mod Tags
pub mod Fields
use jaeger_influxdb.Prelude.{
  ℕ, zero, suc, Bool, true, false, ◌||◌, List, [], ◌∷◌, ◌++◌, map, Option, none, some, Text, codes,
  ◌≡◌, if◌then◌else◌,
}
use jaeger_influxdb.Prelude.Dict.{Dict, lookup, insert}
use jaeger_influxdb.Prelude.Eq.{Text_eq, text_eq}
use jaeger_influxdb.Prelude.Outcome.{Outcome, ok, err, panic, ◌>>=◌}
use jaeger_influxdb.Go.Strings.{join}
use jaeger_influxdb.Common.{
  trace_id_key, service_name_key, operation_name_key, span_id_key, duration_key, flags_key,
  process_tag_keys_key, references_key,
}
use jaeger_influxdb.Dbmodel.Model.{KeyValue, Log, Span, Time, Floats, Ids}
use jaeger_influxdb.Dbmodel.KeyValue.{
  FieldValue, string_value, int_value, uint_value, key_value_as_strings,
  key_value_as_string_and_interface,
}
use jaeger_influxdb.Dbmodel.References.{references_field, nonempty_join}
use jaeger_influxdb.Dbmodel.SpanTime.{merge_time_and_span_id}

abbrev pub Fields : Type 0 → Type 0
Fields F = Dict Text (FieldValue F)

-- Package `models` of the InfluxDB client: tag sets, and points with their line protocol.
pub record Models (F Tags Point : Type 0) : Type 0 where
  pub no_tags : Tags
  pub set_string : Tags → Text → Text → Tags
  pub tag : Tags → Text → Option Text
  pub new_point : Text → Tags → Fields F → Time → Outcome Point
  pub point_string : Point → Text

-- A tag set holds the last value that was set for a key.
pub record ModelLaws {F Tags Point : Type 0} (models : Models F Tags Point) : Type 0 where
  pub tag-no_tags : (k : Text) → models.tag models.no_tags k ≡ none
  pub tag-set_string :
      (tags : Tags) (k v j : Text)
      → models.tag (models.set_string tags k v) j
        ≡ (if text_eq k j then some v else models.tag tags j)

module _ {F Tags Point : Type 0} (floats : Floats F) (ids : Ids)
    (models : Models F Tags Point) where
  open ids use {span_id_string, trace_id_string}
  open models use {no_tags, set_string, new_point}

  -- A tag that cannot be written is skipped.
  set_tag : Tags → Outcome (Text × Text) → Tags
  set_tag tags (ok (key, value)) = set_string tags key value
  set_tag tags (err e) = tags
  set_tag tags panic = tags

  set_tags : Tags → List (KeyValue F) → Tags
  unfolding set_tag
  set_tags tags [] = tags
  set_tags tags (kv ∷ kvs) = set_tags (set_tag tags (key_value_as_strings floats kv)) kvs

  own_tags : Span F → Tags
  own_tags span =
      let traced = set_string no_tags trace_id_key (trace_id_string span.trace_id) in
      let served = set_string traced service_name_key span.process.service_name in
      set_string served operation_name_key span.operation_name

  unfoldable pub span_tags : Span F → Tags
  unfolding set_tags own_tags
  span_tags span = set_tags (own_tags span) (span.tags ++ span.process.tags)

  -- A field that is set only where there is a value for it.
  insert_some : Text → Option Text → Fields F → Fields F
  insert_some k none fields = fields
  insert_some k (some s) fields = insert k (string_value s) fields

  unfoldable pub span_fields : Span F → Fields F
  unfolding insert_some
  span_fields span =
      let identified = insert span_id_key (string_value (span_id_string span.span_id)) [] in
      let timed = insert duration_key (int_value span.duration) identified in
      let flagged = insert flags_key (uint_value span.flags) timed in
      let keys = nonempty_join (map (λ kv. kv.key) span.process.tags) in
      insert_some references_key (references_field ids span.references)
        (insert_some process_tag_keys_key keys flagged)

  -- A field that cannot be written, or whose key is reserved, is skipped.
  set_field : Fields F → Outcome (Text × FieldValue F) → Fields F
  set_field fields (ok (key, value)) =
      if text_eq key trace_id_key || text_eq key span_id_key
      then fields
      else insert key value fields
  set_field fields (err e) = fields
  set_field fields panic = fields

  set_fields : Fields F → List (KeyValue F) → Fields F
  unfolding set_field
  set_fields fields [] = fields
  set_fields fields (kv ∷ kvs) =
      set_fields (set_field fields (key_value_as_string_and_interface floats kv)) kvs

  unfoldable pub log_fields : Span F → Log F → Fields F
  unfolding set_fields
  log_fields span log =
      set_fields (insert span_id_key (string_value (span_id_string span.span_id)) []) log.fields

  log_tags : Span F → Tags
  log_tags span = set_string no_tags trace_id_key (trace_id_string span.trace_id)

  -- A log whose point is refused is skipped.
  add_point : Outcome Point → List Point → List Point
  add_point (ok p) ps = p ∷ ps
  add_point (err e) ps = ps
  add_point panic ps = ps

  log_points : Text → Span F → List (Log F) → List Point
  unfolding add_point log_tags log_fields
  log_points measurement span [] = []
  log_points measurement span (log ∷ logs) =
      add_point (new_point measurement (log_tags span) (log_fields span log) log.timestamp)
        (log_points measurement span logs)

  unfoldable pub span_to_points_v1 : Span F → Text → Text → Outcome (List Point)
  unfolding log_points span_tags span_fields
  span_to_points_v1 span span_measurement log_measurement = do
    let start_time = merge_time_and_span_id span.start_time span.span_id
    span_point ← new_point span_measurement (span_tags span) (span_fields span) start_time
    ok (span_point ∷ log_points log_measurement span span.logs)

  -- The body is that of SpanToPointsV1, with the `models` of the other client.
  unfoldable pub span_to_points_v2 : Span F → Text → Text → Outcome (List Point)
  unfolding log_points span_tags span_fields
  span_to_points_v2 span span_measurement log_measurement = do
    let start_time = merge_time_and_span_id span.start_time span.span_id
    span_point ← new_point span_measurement (span_tags span) (span_fields span) start_time
    ok (span_point ∷ log_points log_measurement span span.logs)
