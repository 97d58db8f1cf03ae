-- ===== src/Dbmodel/InfluxQl/Written/Tags.antt =====
-- The tags of a written span in a row of values, and what the loop over the tags reads of them.
use mathlib.Core.List.{Permᴰ}
use mathlib.Core.List.Permᴰ
use jaeger_influxdb.Prelude.{
  ℕ, ◌≡◌, refl, sym, ap, ◌∙◌, Bool, true, false, not, List, [], ◌∷◌, ◌++◌, map, Option, some, Text,
  get_elem?, keep, All, append_assoc, append-nil, Bool-cases, inl, inr, if◌then◌else◌,
}
use jaeger_influxdb.Prelude.Dict.{Dict}
use jaeger_influxdb.Prelude.Outcome.{Outcome, ok, ◌>>=◌}
use jaeger_influxdb.Dbmodel.Model.{
  KeyValue, ValueType, string_type, bool_type, int64_type, float64_type, binary_type, other_type,
  Time, Floats, FloatLaws, Ids,
}
use jaeger_influxdb.Dbmodel.KeyValue.{blank, key_value_as_strings, strings_to_key_value}
use jaeger_influxdb.Dbmodel.KeyValue.TagRoundTrip.{
  FitsTypes, read_back, has_type, key-key_value_as_strings,
  strings_to_key_value-key_value_as_strings,
}
use jaeger_influxdb.Dbmodel.Flux.Span.{contains}
use jaeger_influxdb.Dbmodel.InfluxQl.{Value, nil_value, string_json}
use jaeger_influxdb.Dbmodel.InfluxQl.Traces.{RowTags, row_tag, row_tags}

-- Keeping elements, in any order of them.
module _ {ℓ} {A : Type ℓ} where
  keep_one : Bool → A → List A → List A
  keep_one true x xs = x ∷ xs
  keep_one false x xs = xs

  keep-cons : (p : A → Bool) (x : A) (xs : List A) → keep p (x ∷ xs) ≡ keep_one (p x) x (keep p xs)
  unfolding keep_one
  keep-cons p x xs = elim (Bool-cases (p x)) [
    | inl e ↦ rw (e, keep) refl
    | inr e ↦ rw (e, keep) refl
  ]

  keep_one-perm :
      (b : Bool) (x : A) {xs ys : List A} → Permᴰ xs ys → Permᴰ (keep_one b x xs) (keep_one b x ys)
  unfolding keep_one
  keep_one-perm true x h = Permᴰ.cons refl h
  keep_one-perm false x h = h

  keep_one_swap :
      (b c : Bool) (x y : A) (xs : List A)
      → Permᴰ (keep_one b x (keep_one c y xs)) (keep_one c y (keep_one b x xs))
  unfolding keep_one
  keep_one_swap true true x y xs = Permᴰ.swap refl refl
  keep_one_swap true false x y xs = Permᴰ.refl _
  keep_one_swap false c x y xs = Permᴰ.refl _

  pub keep-perm : (p : A → Bool) {xs ys : List A} → Permᴰ xs ys → Permᴰ (keep p xs) (keep p ys)
  keep-perm p Permᴰ.nil = Permᴰ.nil
  keep-perm p (Permᴰ.cons {a = a} {b = b} {l₁ = l₁} {l₂ = l₂} e h) =
      rw (keep-cons p a l₁, keep-cons p b l₂, e) (keep_one-perm (p b) b (keep-perm p h))
  keep-perm p (Permᴰ.swap {a = a} {b = b} {a' = a'} {b' = b'} {l = l} e f) =
      rw (keep-cons p a (b ∷ l), keep-cons p b l, keep-cons p a' (b' ∷ l), keep-cons p b' l, e, f)
        (keep_one_swap (p b') (p a') b' a' (keep p l))
  keep-perm p (Permᴰ.trans h k) = Permᴰ.trans (keep-perm p h) (keep-perm p k)

  pub keep_none : (p : A → Bool) (xs : List A) → All (λ x. p x ≡ false) xs → keep p xs ≡ []
  keep_none p [] h = refl
  keep_none p (x ∷ xs) h = rw (h.0, keep) (keep_none p xs h.1)

  pub keep_all : (p : A → Bool) (xs : List A) → All (λ x. p x ≡ true) xs → keep p xs ≡ xs
  keep_all p [] h = refl
  keep_all p (x ∷ xs) h = rw (h.0, keep) (ap (◌∷◌ x) (keep_all p xs h.1))

  pub keep_front :
      (p : A → Bool) (xs ys : List A)
      → All (λ x. p x ≡ true) xs
      → All (λ x. p x ≡ false) ys
      → keep p (xs ++ ys) ≡ xs
  keep_front p [] ys h k = keep_none p ys k
  keep_front p (x ∷ xs) ys h k = rw (h.0, keep) (ap (◌∷◌ x) (keep_front p xs ys h.1 k))

  pub keep_back :
      (p : A → Bool) (xs ys : List A)
      → All (λ x. p x ≡ false) xs
      → All (λ x. p x ≡ true) ys
      → keep p (xs ++ ys) ≡ ys
  keep_back p [] ys h k = keep_all p ys k
  keep_back p (x ∷ xs) ys h k = rw (h.0, keep) (keep_back p xs ys h.1 k)

module _ {F : Type 0} (floats : Floats F) where
  normal_at : KeyValue F → ValueType → KeyValue F
  normal_at kv string_type = record (blank floats kv.key string_type) { v_str = kv.v_str }
  normal_at kv bool_type = record (blank floats kv.key bool_type) { v_bool = kv.v_bool }
  normal_at kv int64_type = record (blank floats kv.key int64_type) { v_int64 = kv.v_int64 }
  normal_at kv float64_type = record (blank floats kv.key float64_type) { v_float64 = kv.v_float64 }
  normal_at kv binary_type = record (blank floats kv.key binary_type) { v_binary = kv.v_binary }
  normal_at kv (other_type n) = kv

  -- The tag with the value of its type, the others zero.
  unfoldable pub normal : KeyValue F → KeyValue F
  unfolding normal_at
  normal kv = normal_at kv kv.v_type

  read_back-normal :
      (kv : KeyValue F) {p : Text × Text}
      → key_value_as_strings floats kv ≡ ok p
      → read_back floats kv kv.v_type ≡ ok (some (normal kv))
  unfolding normal normal_at
  read_back-normal kv e = go kv.v_type refl
    where
      go : (t : ValueType) → kv.v_type ≡ t → read_back floats kv kv.v_type ≡ ok (some (normal kv))
      go string_type h = rw h refl
      go bool_type h = rw h refl
      go int64_type h = rw h refl
      go float64_type h = rw h refl
      go binary_type h = rw h refl
      go (other_type n) h = absurd (has_type floats kv n h e)

  tag_read :
      FloatLaws floats
      → (kv : KeyValue F) (k s : Text) → FitsTypes kv
      → key_value_as_strings floats kv ≡ ok (k, s)
      → strings_to_key_value floats k s ≡ ok (some (normal kv))
  tag_read laws kv k s fits e =
      ap (λ (m : Outcome (Text × Text)). m >>= λ p. strings_to_key_value floats p.0 p.1) (sym e)
      ∙ strings_to_key_value-key_value_as_strings floats laws kv fits
      ∙ read_back-normal kv e

  -- A row of values lists tags in an order of its columns: each tag under its key, as it is written;
  -- a column of another key holds nil.
  pub data Lists (v : List Value) : List (ℕ × Text) → List (KeyValue F) → Type 0 where
    done : Lists v [] []
    tag :
        {i : ℕ} {key s : Text} {kv : KeyValue F} {columns : List (ℕ × Text)}
        {kvs : List (KeyValue F)}
        → get_elem? v i ≡ some (string_json s)
        → key_value_as_strings floats kv ≡ ok (key, s)
        → FitsTypes kv
        → Lists v columns kvs
        → Lists v ((i, key) ∷ columns) (kv ∷ kvs)
    empty :
        {i : ℕ} {key : Text} {columns : List (ℕ × Text)} {kvs : List (KeyValue F)}
        → get_elem? v i ≡ some nil_value
        → Lists v columns kvs
        → Lists v ((i, key) ∷ columns) kvs

-- Whether a tag is one of the process.
abbrev pub in_keys : {F : Type 0} → List Text → KeyValue F → Bool
in_keys keys kv = contains keys kv.key

module _ {F : Type 0} (floats : Floats F) (ids : Ids) (parse_time : Text → Option Time)
    (range : List Value → Dict ℕ Text → List (ℕ × Text)) (laws : FloatLaws floats) where
  abbrev pub sorted_tags : List Text → RowTags F → List (KeyValue F) → RowTags F
  sorted_tags keys g kvs = record g {
    process = g.process ++ map (normal floats) (keep (in_keys keys) kvs);
    tags = g.tags ++ map (normal floats) (keep (λ kv. not (in_keys keys kv)) kvs);
  }

  add_one : Bool → RowTags F → KeyValue F → RowTags F
  add_one true g kv = record g { process = g.process ++ kv ∷ [] }
  add_one false g kv = record g { tags = g.tags ++ kv ∷ [] }

  sorted_one :
      (keys : List Text) (g : RowTags F) (kv : KeyValue F) (kvs : List (KeyValue F)) (b : Bool)
      → in_keys keys kv ≡ b
      → sorted_tags keys (add_one b g (normal floats kv)) kvs ≡ sorted_tags keys g (kv ∷ kvs)
  unfolding add_one
  sorted_one keys g kv kvs true e = rw (e, keep, append_assoc) refl
  sorted_one keys g kv kvs false e = rw (e, keep, append_assoc) refl

  if_add_one :
      (b : Bool) (g : RowTags F) (kv : KeyValue F)
      → (if b
          then record g { process = g.process ++ kv ∷ [] }
          else record g { tags = g.tags ++ kv ∷ [] })
        ≡ add_one b g kv
  unfolding add_one
  if_add_one true g kv = refl
  if_add_one false g kv = refl

  -- The loop over the tags gathers them all, those of the process apart.
  pub row_tags-Lists :
      (keys : List Text) (v : List Value) {columns : List (ℕ × Text)} {kvs : List (KeyValue F)}
      → Lists floats v columns kvs
      → (g : RowTags F)
      → row_tags floats ids parse_time range keys v g columns ≡ ok (sorted_tags keys g kvs)
  unfolding row_tags row_tag
  row_tags-Lists keys v done g = rw (append-nil, append-nil) refl
  row_tags-Lists keys v (empty e h) g = rw e (row_tags-Lists keys v h g)
  row_tags-Lists keys v (tag {kv = kv} {kvs = kvs} e w fits h) g =
      rw
        (
          e,
          tag_read floats laws kv _ _ fits w,
          ← key-key_value_as_strings floats kv w,
          if_add_one (in_keys keys kv) g (normal floats kv),
        )
        (row_tags-Lists keys v h (add_one (in_keys keys kv) g (normal floats kv))
          ∙ ap ok (sorted_one keys g kv kvs (in_keys keys kv) refl))
