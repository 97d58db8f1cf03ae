-- ===== src/Dbmodel/KeyValue.antt =====
-- Tag values as strings and log field values: keyValueAsStrings and keyValueAsStringAndInterface
-- of dbmodel/common.go, stringsToKeyValue of dbmodel/to_domain_v2.go.
pub mod TagRoundTrip
use jaeger_influxdb.Prelude.{
  ℕ, ◌≡◌, refl, Bool, true, false, List, [], ◌∷◌, ◌++◌, Option, none, some, Text, codes,
  if◌then◌else◌,
}
use jaeger_influxdb.Prelude.Eq.{text_eq}
use jaeger_influxdb.Prelude.Int.{ℤ, pos}
use jaeger_influxdb.Prelude.Outcome.{
  Outcome, ok, err, panic, ◌>>=◌, or_error, bad_kv_value, bad_bool_value, bad_int_value,
  bad_float_value, bad_binary_value, bad_kv_type, unknown_value_type,
}
use jaeger_influxdb.Go.Strings.{split_two}
use jaeger_influxdb.Go.Decimal.{format_int, parse_int}
use jaeger_influxdb.Go.Base64
use jaeger_influxdb.Dbmodel.Model.{
  KeyValue, ValueType, string_type, bool_type, int64_type, float64_type, binary_type, other_type,
  Floats,
}
use jaeger_influxdb.Dbmodel.LogText.{hide_newlines}

-- The values of an InfluxDB field: the dynamic types that the code puts in an `interface{}`.
pub data FieldValue (F : Type 0) : Type 0 where
  string_value : Text → FieldValue F
  bool_value : Bool → FieldValue F
  int_value : ℤ → FieldValue F
  float_value : F → FieldValue F
  uint_value : ℕ → FieldValue F

module _ {F : Type 0} (floats : Floats F) where
  -- The type's letter and the text form of the value.
  prefixed_value : KeyValue F → ValueType → Outcome Text
  prefixed_value kv string_type = ok (b's' ∷ b':' ∷ kv.v_str)
  prefixed_value kv bool_type = ok (b'b' ∷ b':' ∷ (if kv.v_bool then b't' ∷ [] else b'f' ∷ []))
  prefixed_value kv int64_type = ok (b'i' ∷ b':' ∷ format_int kv.v_int64)
  prefixed_value kv float64_type = ok (b'f' ∷ b':' ∷ floats.format_float kv.v_float64)
  prefixed_value kv binary_type = ok (b'B' ∷ b':' ∷ Base64.encode kv.v_binary)
  prefixed_value kv (other_type n) = err unknown_value_type

  unfoldable pub key_value_as_strings : KeyValue F → Outcome (Text × Text)
  unfolding prefixed_value
  key_value_as_strings kv = do value ← prefixed_value kv kv.v_type; ok (kv.key, value)

  field_value : KeyValue F → ValueType → Outcome (FieldValue F)
  field_value kv string_type = ok (string_value (b's' ∷ hide_newlines kv.v_str))
  field_value kv bool_type = ok (bool_value kv.v_bool)
  field_value kv int64_type = ok (int_value kv.v_int64)
  field_value kv float64_type = ok (float_value kv.v_float64)
  field_value kv binary_type = ok (string_value (b'B' ∷ Base64.encode kv.v_binary))
  field_value kv (other_type n) = err unknown_value_type

  unfoldable pub key_value_as_string_and_interface : KeyValue F → Outcome (Text × FieldValue F)
  unfolding field_value
  key_value_as_string_and_interface kv = do value ← field_value kv kv.v_type; ok (kv.key, value)

  -- A key value whose fields are Go's zero values but for its key and type.
  abbrev pub blank : Text → ValueType → KeyValue F
  blank k t = record {
    key = k;
    v_type = t;
    v_str = [];
    v_bool = false;
    v_int64 = pos 0;
    v_float64 = floats.zero_float;
    v_binary = [];
  }

  bool_from : Text → Text → Outcome (KeyValue F)
  bool_from k value =
      if text_eq value (codes "t")
      then ok (record (blank k bool_type) { v_bool = true })
      else if text_eq value (codes "f")
      then ok (record (blank k bool_type) { v_bool = false })
      else err bad_bool_value

  int_from : Text → Text → Outcome (KeyValue F)
  int_from k value = do
    n ← or_error bad_int_value (parse_int value)
    ok (record (blank k int64_type) { v_int64 = n })

  float_from : Text → Text → Outcome (KeyValue F)
  float_from k value = do
    x ← or_error bad_float_value (floats.parse_float value)
    ok (record (blank k float64_type) { v_float64 = x })

  binary_from : Text → Text → Outcome (KeyValue F)
  binary_from k value = do
    b ← or_error bad_binary_value (Base64.decode value)
    ok (record (blank k binary_type) { v_binary = b })

  -- The `switch` on the text before the colon.
  typed_value : Text → Text → Text → Outcome (KeyValue F)
  unfolding bool_from int_from float_from binary_from
  typed_value k ttype value =
      if text_eq ttype (codes "s")
      then ok (record (blank k string_type) { v_str = value })
      else if text_eq ttype (codes "b")
      then bool_from k value
      else if text_eq ttype (codes "i")
      then int_from k value
      else if text_eq ttype (codes "f")
      then float_from k value
      else if text_eq ttype (codes "B")
      then binary_from k value
      else err bad_kv_type

  -- The pointer that is returned is nil for an empty value.
  unfoldable pub strings_to_key_value : Text → Text → Outcome (Option (KeyValue F))
  unfolding typed_value
  strings_to_key_value k [] = ok none
  strings_to_key_value k (c ∷ v) = do
    (ttype, value) ← or_error bad_kv_value (split_two (c ∷ v) b':')
    kv ← typed_value k ttype value
    ok (some kv)
