-- ===== src/Dbmodel/ToPoints/Tags.antt =====
-- The tags and fields of the points.
use jaeger_influxdb.Prelude.{
  ◌≡◌, refl, List, [], ◌∷◌, ◌++◌, Option, none, some, Text, if◌then◌else◌, arith, Bool-cases, inl,
  inr, ◌∙◌, ap, or_else, or_else_assoc,
}
use jaeger_influxdb.Prelude.Dict.{lookup, lookup-insert, lookup-insert_self}
use jaeger_influxdb.Prelude.Eq.{Text_eq, text_eq}
use jaeger_influxdb.Prelude.Outcome.{Outcome, ok, err, panic}
use jaeger_influxdb.Common.{trace_id_key, service_name_key, operation_name_key, span_id_key}
use jaeger_influxdb.Dbmodel.Model.{KeyValue, Log, Span, Floats, Ids}
use jaeger_influxdb.Dbmodel.KeyValue.{
  FieldValue, string_value, key_value_as_strings, key_value_as_string_and_interface,
}
use jaeger_influxdb.Dbmodel.ToPoints.{
  Models, ModelLaws, Fields, set_tag, set_tags, own_tags, span_tags, set_field, set_fields,
  log_fields,
}

-- What is written under a key by one tag; what the last of several tags writes.
abbrev pub value_under : Text → Outcome (Text × Text) → Option Text
value_under k (ok (key, value)) = if text_eq key k then some value else none
value_under k (err e) = none
value_under k panic = none

module _ {F Tags Point : Type 0} (floats : Floats F) (ids : Ids)
    (models : Models F Tags Point) where
  abbrev pub last_tag : Text → List (KeyValue F) → Option Text
  last_tag k [] = none
  last_tag k (kv ∷ kvs) = or_else (last_tag k kvs) (value_under k (key_value_as_strings floats kv))

  -- The tags that the span itself has.
  abbrev pub own_tag : Span F → Text → Option Text
  own_tag span k =
      if text_eq operation_name_key k
      then some span.operation_name
      else if text_eq service_name_key k
      then some span.process.service_name
      else if text_eq trace_id_key k
      then some (ids.trace_id_string span.trace_id)
      else none

  module _ (laws : ModelLaws models) where
    open models use {tag}

    tag-set_tag :
        (tags : Tags) (o : Outcome (Text × Text)) (k : Text)
        → tag (set_tag floats ids models tags o) k ≡ or_else (value_under k o) (tag tags k)
    unfolding set_tag
    tag-set_tag tags (ok (key, value)) k =
        laws.tag-set_string tags key value k
        ∙ elim (Bool-cases (text_eq key k)) [ inl e ↦ rw e | inr e ↦ rw e ]
    tag-set_tag tags (err e) k = refl
    tag-set_tag tags panic k = refl

    tag-set_tags :
        (kvs : List (KeyValue F)) (tags : Tags) (k : Text)
        → tag (set_tags floats ids models tags kvs) k ≡ or_else (last_tag k kvs) (tag tags k)
    unfolding set_tags
    tag-set_tags [] tags k = refl
    tag-set_tags (kv ∷ kvs) tags k =
        tag-set_tags kvs (set_tag floats ids models tags (key_value_as_strings floats kv)) k
        ∙ rw (tag-set_tag tags (key_value_as_strings floats kv) k)
            (or_else_assoc (last_tag k kvs) _ _)

    tag-own_tags :
        (span : Span F) (k : Text) → tag (own_tags floats ids models span) k ≡ own_tag span k
    unfolding own_tags
    tag-own_tags span k = rw (laws.tag-set_string _ operation_name_key span.operation_name k) (
        rw (laws.tag-set_string _ service_name_key span.process.service_name k) (
          rw (
            laws.tag-set_string _ trace_id_key (ids.trace_id_string span.trace_id) k,
            laws.tag-no_tags k,
          )))

    -- Where a tag set holds the last value that was set for a key: under each key the span's point
    -- has the value that the last tag of the span or its process with that key writes; under a key
    -- that no tag writes it has the operation name, the service name and the trace ID under their
    -- keys, and nothing under any other.
    pub tag-span_tags :
        (span : Span F) (k : Text)
        → tag (span_tags floats ids models span) k
          ≡ or_else (last_tag k (span.tags ++ span.process.tags)) (own_tag span k)
    unfolding span_tags
    tag-span_tags span k =
        tag-set_tags (span.tags ++ span.process.tags) (own_tags floats ids models span) k
        ∙ ap (or_else (last_tag k (span.tags ++ span.process.tags))) (tag-own_tags span k)

  -- The fields of a log's point, whatever the log holds: the field of the span ID is the span's.
  lookup-set_field :
      (fields : Fields F) (o : Outcome (Text × FieldValue F))
      → lookup span_id_key (set_field floats ids models fields o) ≡ lookup span_id_key fields
  unfolding set_field
  lookup-set_field fields (ok (key, value)) = elim (Bool-cases (text_eq key span_id_key)) [
    | inl e ↦ rw e (ground arith)
    | inr e ↦ rw e (ground (arith, lookup-insert key span_id_key value fields))
  ]
  lookup-set_field fields (err e) = refl
  lookup-set_field fields panic = refl

  lookup-set_fields :
      (kvs : List (KeyValue F)) (fields : Fields F)
      → lookup span_id_key (set_fields floats ids models fields kvs) ≡ lookup span_id_key fields
  unfolding set_fields
  lookup-set_fields [] fields = refl
  lookup-set_fields (kv ∷ kvs) fields =
      lookup-set_fields kvs _
      ∙ lookup-set_field fields (key_value_as_string_and_interface floats kv)

  -- Whatever fields a log has, the point that is written for it carries the ID of its span.
  pub lookup-log_fields :
      (span : Span F) (log : Log F)
      → lookup span_id_key (log_fields floats ids models span log)
        ≡ some (string_value (ids.span_id_string span.span_id))
  unfolding log_fields
  lookup-log_fields span log =
      lookup-set_fields log.fields _
      ∙ lookup-insert_self span_id_key (string_value (ids.span_id_string span.span_id)) []
