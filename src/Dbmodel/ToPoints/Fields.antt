-- ===== src/Dbmodel/ToPoints/Fields.antt =====
-- The fields of a span's point.
use jaeger_influxdb.Prelude.{ℕ, ◌≡◌, refl, [], map, Option, none, some, Text}
use jaeger_influxdb.Prelude.Dict.{lookup, insert}
use jaeger_influxdb.Prelude.Eq.{Text_eq, text_eq}
use jaeger_influxdb.Prelude.Int.{ℤ}
use jaeger_influxdb.Common.{
  span_id_key, duration_key, flags_key, process_tag_keys_key, references_key,
}
use jaeger_influxdb.Dbmodel.Model.{Span, Floats, Ids}
use jaeger_influxdb.Dbmodel.KeyValue.{FieldValue, string_value, int_value, uint_value}
use jaeger_influxdb.Dbmodel.References.{references_field, nonempty_join}
use jaeger_influxdb.Dbmodel.ToPoints.{Models, Fields, insert_some, span_fields}

-- The field of an optional text.
abbrev pub text_field : {F : Type 0} → Option Text → Option (FieldValue F)
text_field none = none
text_field (some s) = some (string_value s)

module _ {F Tags Point : Type 0} (floats : Floats F) (ids : Ids)
    (models : Models F Tags Point) where
  -- What stands under the keys of the code's own fields.
  pub record HasFields (fields : Fields F) (id : Text) (duration : ℤ) (flags : ℕ)
      (keys references : Option Text) : Type 0 where
    pub id_field : lookup span_id_key fields ≡ some (string_value id)
    pub duration_field : lookup duration_key fields ≡ some (int_value duration)
    pub flags_field : lookup flags_key fields ≡ some (uint_value flags)
    pub keys_field : lookup process_tag_keys_key fields ≡ text_field keys
    pub references_text : lookup references_key fields ≡ text_field references

  fields_with : Text → ℤ → ℕ → Option Text → Option Text → Fields F
  unfolding insert_some
  fields_with id duration flags keys references =
      let identified = insert span_id_key (string_value id) [] in
      let timed = insert duration_key (int_value duration) identified in
      let flagged = insert flags_key (uint_value flags) timed in
      insert_some floats ids models references_key references
        (insert_some floats ids models process_tag_keys_key keys flagged)

  fields_with-HasFields :
      (id : Text) (duration : ℤ) (flags : ℕ) (keys references : Option Text)
      → HasFields (fields_with id duration flags keys references) id duration flags keys references
  unfolding fields_with lookup insert text_eq
  fields_with-HasFields id duration flags none none = record {
    id_field = refl;
    duration_field = refl;
    flags_field = refl;
    keys_field = refl;
    references_text = refl;
  }
  fields_with-HasFields id duration flags none (some r) = record {
    id_field = refl;
    duration_field = refl;
    flags_field = refl;
    keys_field = refl;
    references_text = refl;
  }
  fields_with-HasFields id duration flags (some k) none = record {
    id_field = refl;
    duration_field = refl;
    flags_field = refl;
    keys_field = refl;
    references_text = refl;
  }
  fields_with-HasFields id duration flags (some k) (some r) = record {
    id_field = refl;
    duration_field = refl;
    flags_field = refl;
    keys_field = refl;
    references_text = refl;
  }

  -- A span's point has the fields of its ID, duration and flags, and where there are any those of
  -- the keys of its process and of its references.
  pub span_fields-HasFields :
      (span : Span F)
      → HasFields
          (span_fields floats ids models span)
          (ids.span_id_string span.span_id)
          span.duration
          span.flags
          (nonempty_join (map (λ kv. kv.key) span.process.tags))
          (references_field ids span.references)
  unfolding span_fields fields_with
  span_fields-HasFields span =
      fields_with-HasFields (ids.span_id_string span.span_id) span.duration span.flags
        (nonempty_join (map (λ kv. kv.key) span.process.tags))
        (references_field ids span.references)
