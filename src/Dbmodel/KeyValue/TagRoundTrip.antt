-- ===== src/Dbmodel/KeyValue/TagRoundTrip.antt =====
-- Tag values are read back from their strings.
use mathlib.Core.Path.{subst}
use jaeger_influxdb.Prelude.{
  ℕ, ◌≡◌, ◌≢◌, refl, ap, [], ◌∷◌, Option, some, Text, arith, All, Bool-cases, inl, inr, ◌∙◌,
}
use jaeger_influxdb.Prelude.Eq.{text_eq}
use jaeger_influxdb.Prelude.Int.{Int64}
use jaeger_influxdb.Prelude.Outcome.{
  Outcome, ok, err, panic, ◌>>=◌, >>=-eq-ok, ok_eq, unknown_value_type,
}
use jaeger_influxdb.Go.Strings.{split_two-append}
use jaeger_influxdb.Go.Decimal.{parse_int-format_int}
use jaeger_influxdb.Go.Base64
use jaeger_influxdb.Go.Base64.{Byte}
use jaeger_influxdb.Dbmodel.Model.{
  KeyValue, ValueType, string_type, bool_type, int64_type, float64_type, binary_type, other_type,
  Floats, FloatLaws,
}
use jaeger_influxdb.Dbmodel.KeyValue.{
  blank, key_value_as_strings, strings_to_key_value, typed_value, prefixed_value,
}

-- The values that Go's types allow.
pub record FitsTypes {F : Type 0} (kv : KeyValue F) : Type 0 where
  pub int : Int64 kv.v_int64
  pub bytes : All Byte kv.v_binary

module _ {F : Type 0} (floats : Floats F) where
  -- What a written key value is read back as: the value of its type under its key, the fields of
  -- the other types zero. A value of no known type is not written.
  abbrev pub read_back : KeyValue F → ValueType → Outcome (Option (KeyValue F))
  read_back kv string_type =
      ok (some (record (blank floats kv.key string_type) { v_str = kv.v_str }))
  read_back kv bool_type = ok (some (record (blank floats kv.key bool_type) { v_bool = kv.v_bool }))
  read_back kv int64_type =
      ok (some (record (blank floats kv.key int64_type) { v_int64 = kv.v_int64 }))
  read_back kv float64_type =
      ok (some (record (blank floats kv.key float64_type) { v_float64 = kv.v_float64 }))
  read_back kv binary_type =
      ok (some (record (blank floats kv.key binary_type) { v_binary = kv.v_binary }))
  read_back kv (other_type n) = err unknown_value_type

  -- A value with its type letter is cut at the colon.
  strings_to_key_value_step :
      (k value : Text) (c : ℕ)
      → c ≢ b':'
      → strings_to_key_value floats k (c ∷ b':' ∷ value)
        ≡ (typed_value floats k (c ∷ []) value >>= λ kv. ok (some kv))
  unfolding strings_to_key_value
  strings_to_key_value_step k value c h = rw (split_two-append b':' (c ∷ []) value (h, tt))

  prefixed_value_back :
      FloatLaws floats
      → (kv : KeyValue F) (t : ValueType) → FitsTypes kv
      → (prefixed_value floats kv t >>= strings_to_key_value floats kv.key) ≡ read_back kv t
  unfolding prefixed_value typed_value text_eq
  prefixed_value_back laws kv string_type fits =
      strings_to_key_value_step kv.key kv.v_str b's' (omega arith)
  prefixed_value_back laws kv bool_type fits =
      strings_to_key_value_step kv.key _ b'b' (omega arith)
      ∙ elim (Bool-cases kv.v_bool) [ inl e ↦ rw e | inr e ↦ rw e ]
  prefixed_value_back laws kv int64_type fits =
      strings_to_key_value_step kv.key _ b'i' (omega arith)
      ∙ rw (parse_int-format_int kv.v_int64 fits.int)
  prefixed_value_back laws kv float64_type fits =
      strings_to_key_value_step kv.key _ b'f' (omega arith) ∙ rw (laws.parse-format kv.v_float64)
  prefixed_value_back laws kv binary_type fits =
      strings_to_key_value_step kv.key _ b'B' (omega arith)
      ∙ rw (Base64.decode-encode kv.v_binary fits.bytes)
  prefixed_value_back laws kv (other_type n) fits = refl

  bind_pair :
      (k : Text) (m : Outcome Text)
      → (◌>>=◌ {B = Text × Text} m (λ v. ok (k, v)) >>= λ p. strings_to_key_value floats p.0 p.1)
        ≡ (m >>= strings_to_key_value floats k)
  bind_pair k (ok v) = refl
  bind_pair k (err e) = refl
  bind_pair k panic = refl

  -- For a key value whose integer is an `int64` and whose binary value is bytes, and where a
  -- `float64` is read back from its text: reading the two strings that it is written as gives back
  -- its key, its type and the value of that type, with the other values zero, for every type that
  -- can be written; the others are reported.
  pub strings_to_key_value-key_value_as_strings :
      FloatLaws floats
      → (kv : KeyValue F) → FitsTypes kv
      → (key_value_as_strings floats kv >>= λ p. strings_to_key_value floats p.0 p.1)
        ≡ read_back kv kv.v_type
  unfolding key_value_as_strings
  strings_to_key_value-key_value_as_strings laws kv fits =
      bind_pair kv.key _ ∙ prefixed_value_back laws kv kv.v_type fits

  -- What is written has a known type, and stands under its own key.
  pub has_type :
      (kv : KeyValue F) (n : ℕ) {p : Text × Text}
      → kv.v_type ≡ other_type n
      → key_value_as_strings floats kv ≡ ok p
      → ⊥
  unfolding key_value_as_strings prefixed_value
  has_type kv n h e =
      let (v, same, _) = >>=-eq-ok (prefixed_value floats kv kv.v_type) _ e in
      refused v (subst (λ t. prefixed_value floats kv t ≡ ok v) h same)
    where
      refused : (v : Text) → prefixed_value floats kv (other_type n) ≡ ok v → ⊥
      refused v same = cc

  pub key-key_value_as_strings :
      (kv : KeyValue F) {p : Text × Text} → key_value_as_strings floats kv ≡ ok p → kv.key ≡ p.0
  unfolding key_value_as_strings
  key-key_value_as_strings kv e =
      let (v, _, same) = >>=-eq-ok (prefixed_value floats kv kv.v_type) _ e in
      ap (λ (p : Text × Text). p.0) (ok_eq same)
