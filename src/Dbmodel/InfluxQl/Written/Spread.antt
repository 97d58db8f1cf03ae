-- ===== src/Dbmodel/InfluxQl/Written/Spread.antt =====
-- The tags of a written span and the columns of a row that are not the code's own.
use mathlib.Core.List.{Permᴰ}
use mathlib.Core.List.Permᴰ
use mathlib.Core.Path.{subst}
use jaeger_influxdb.Prelude.{
  or_else-none, ℕ, ◌≡◌, ◌≢◌, refl, sym, ap, ◌∙◌, true, false, List, [], ◌∷◌, ◌++◌, map, Option,
  none, some, Text, get_elem?, All, Bool-cases, inl, inr, or_else, if◌then◌else◌,
}
use jaeger_influxdb.Prelude.Orders.{All-perm, Distinct}
use jaeger_influxdb.Prelude.Eq.{Text_eq, text_eq, text_eq_iff, text_ne, text_ne_swap}
use jaeger_influxdb.Prelude.Outcome.{ok}
use jaeger_influxdb.Go.Base64
use jaeger_influxdb.Go.Decimal.{format_int}
use jaeger_influxdb.Dbmodel.Model.{
  KeyValue, ValueType, string_type, bool_type, int64_type, float64_type, binary_type, other_type,
  Floats, Ids,
}
use jaeger_influxdb.Dbmodel.KeyValue.{key_value_as_strings}
use jaeger_influxdb.Dbmodel.KeyValue.TagRoundTrip.{FitsTypes}
use jaeger_influxdb.Dbmodel.ToPoints.{Models}
use jaeger_influxdb.Dbmodel.ToPoints.Tags.{value_under, last_tag}
use jaeger_influxdb.Dbmodel.Flux.Span.{contains}
use jaeger_influxdb.Dbmodel.InfluxQl.Columns.{named, names}
use jaeger_influxdb.Dbmodel.InfluxQl.{Value, nil_value, string_json}
use jaeger_influxdb.Dbmodel.InfluxQl.Written.Parts.{last_tag-none}
use jaeger_influxdb.Dbmodel.InfluxQl.Written.Tags.{Lists, done, tag, empty}

-- What a column shows of a tag that the point may have. An empty tag is not stored.
abbrev pub shown : Option Text → Value
shown none = nil_value
shown (some []) = nil_value
shown (some (c ∷ s)) = string_json (c ∷ s)

-- A type of values that can be written.
abbrev pub IsTyped : ValueType → Type 0
IsTyped string_type = Unit
IsTyped bool_type = Unit
IsTyped int64_type = Unit
IsTyped float64_type = Unit
IsTyped binary_type = Unit
IsTyped (other_type n) = ⊥

-- A tag that can be written, with a value that fits in its type.
pub record IsTag {F : Type 0} (kv : KeyValue F) : Type 0 where
  pub typed : IsTyped kv.v_type
  pub fits : FitsTypes kv

-- No two tags have one key.
abbrev pub UniqueKeys : {F : Type 0} → List (KeyValue F) → Type 0
UniqueKeys [] = Unit
UniqueKeys (kv ∷ kvs) = All (λ y. text_eq y.key kv.key ≡ false) kvs × UniqueKeys kvs

fresh_names :
    (k : Text) (cols : List (ℕ × Text))
    → All (λ f. f.0 ≢ k) (map named cols)
    → All (λ c. text_eq k c.1 ≡ false) cols
fresh_names k [] h = tt
fresh_names k (c ∷ cols) h = (text_ne_swap c.1 k (text_ne c.1 k h.0), fresh_names k cols h.1)

-- The tags behind some others have other keys than these.
pub unique-apart :
    {F : Type 0} (xs ys : List (KeyValue F))
    → UniqueKeys (xs ++ ys)
    → All (λ kv. contains (map (λ t. t.key) ys) kv.key ≡ false) xs
unique-apart [] ys u = tt
unique-apart {F = F} (x ∷ xs) ys u = (go xs ys u.0, unique-apart xs ys u.1)
  where
    lacking :
        (ys : List (KeyValue F))
        → All (λ y. text_eq y.key x.key ≡ false) ys
        → contains (map (λ t. t.key) ys) x.key ≡ false
    lacking [] h = refl
    lacking (y ∷ ys) h = rw h.0 (lacking ys h.1)

    go :
        (xs ys : List (KeyValue F))
        → All (λ y. text_eq y.key x.key ≡ false) (xs ++ ys)
        → contains (map (λ t. t.key) ys) x.key ≡ false
    go [] ys h = lacking ys h
    go (x ∷ xs) ys h = go xs ys h.1

module _ {F Tags Point : Type 0} (floats : Floats F) (ids : Ids)
    (models : Models F Tags Point) where
  as_written :
      (kv : KeyValue F)
      → IsTyped kv.v_type
      → (c : ℕ) × (s : Text) × (key_value_as_strings floats kv ≡ ok (kv.key, c ∷ s))
  unfolding key_value_as_strings
  as_written kv h = go kv.v_type refl h
    where
      go :
          (t : ValueType)
          → kv.v_type ≡ t
          → IsTyped t
          → (c : ℕ) × (s : Text) × (key_value_as_strings floats kv ≡ ok (kv.key, c ∷ s))
      go string_type e h = (b's', b':' ∷ kv.v_str, rw e refl)
      go bool_type e h = (b'b', b':' ∷ (if kv.v_bool then b't' ∷ [] else b'f' ∷ []), rw e refl)
      go int64_type e h = (b'i', b':' ∷ format_int kv.v_int64, rw e refl)
      go float64_type e h = (b'f', b':' ∷ floats.format_float kv.v_float64, rw e refl)
      go binary_type e h = (b'B', b':' ∷ Base64.encode kv.v_binary, rw e refl)
      go (other_type n) e h = absurd h

  under_other :
      (kv : KeyValue F) (j : Text)
      → IsTag kv
      → text_eq kv.key j ≡ false
      → value_under j (key_value_as_strings floats kv) ≡ none
  under_other kv j h ne = let (c, s, e) = as_written kv h.typed in rw (e, ne) refl

  own_under :
      (kv : KeyValue F) (k : Text) {key s : Text}
      → key_value_as_strings floats kv ≡ ok (key, s)
      → text_eq key k ≡ true
      → value_under k (key_value_as_strings floats kv) ≡ some s
  own_under kv k e same = rw (e, same) refl

  -- The tag of a key among the tags, if there is one, with the others.
  data Pick (k : Text) (kvs : List (KeyValue F)) : Type 0 where
    missing : All (λ y. text_eq y.key k ≡ false) kvs → Pick k kvs
    found :
        (kv : KeyValue F) (rest : List (KeyValue F))
        → text_eq kv.key k ≡ true
        → Permᴰ (kv ∷ rest) kvs
        → All (λ y. text_eq y.key k ≡ false) rest
        → UniqueKeys rest
        → ((j : Text)
            → text_eq k j ≡ false
            → last_tag floats ids models j rest ≡ last_tag floats ids models j kvs)
        → last_tag floats ids models k kvs ≡ value_under k (key_value_as_strings floats kv)
        → Pick k kvs

  pick : (k : Text) (kvs : List (KeyValue F)) → UniqueKeys kvs → All IsTag kvs → Pick k kvs
  pick k [] u h = missing tt
  pick k (x ∷ xs) u h = elim (Bool-cases (text_eq x.key k)) [
    | inl same ↦
        let key : x.key ≡ k = (text_eq_iff x.key k).0 same in
        let free = subst (λ i. All (λ y. text_eq y.key i ≡ false) xs) key u.0 in
        found x xs same (Permᴰ.refl _) free u.1
          (λ j ne. rw (under_other x j h.0 (rw key ne)) (sym (or_else-none _)))
          (rw (last_tag-none floats ids models k xs free) refl)
    | inr other ↦ elim (pick k xs u.1 h.1) [
      | missing free ↦ missing (other, free)
      | found kv rest same p free unique others own ↦
          found kv (x ∷ rest) same (Permᴰ.trans (Permᴰ.swap refl refl) (Permᴰ.cons refl p))
            (other, free)
            ((All-perm (λ y. text_eq y.key x.key ≡ false) (Permᴰ.symm p) u.0).1, unique)
            (λ j ne.
              ap (λ o. or_else o (value_under j (key_value_as_strings floats x))) (others j ne))
            (rw (under_other x k h.0 other) (or_else-none _ ∙ own))
    ]
  ]

  -- A column shows what the last tag of its name writes.
  abbrev ShowsTag : List Value → List (KeyValue F) → ℕ × Text → Type 0
  ShowsTag v kvs c = get_elem? v c.0 ≡ some (shown (last_tag floats ids models c.1 kvs))

  shows_rest :
      (v : List Value) (k : Text) (kvs rest : List (KeyValue F)) (cols : List (ℕ × Text))
      → ((j : Text)
          → text_eq k j ≡ false
          → last_tag floats ids models j rest ≡ last_tag floats ids models j kvs)
      → All (λ c. text_eq k c.1 ≡ false) cols
      → All (ShowsTag v kvs) cols
      → All (ShowsTag v rest) cols
  shows_rest v k kvs rest [] same ne h = tt
  shows_rest v k kvs rest (c ∷ cols) same ne h = (
    h.0 ∙ ap (λ o. some (shown o)) (sym (same c.1 ne.0)),
    shows_rest v k kvs rest cols same ne.1 h.1,
  )

  named_rest :
      (k : Text) (cols : List Text) (kvs : List (KeyValue F))
      → All (λ y. text_eq y.key k ≡ false) kvs
      → All (λ kv. contains (k ∷ cols) kv.key ≡ true) kvs
      → All (λ kv. contains cols kv.key ≡ true) kvs
  named_rest k cols [] free h = tt
  named_rest k cols (y ∷ kvs) free h =
      (rw (text_ne_swap y.key k free.0) at h.0, named_rest k cols kvs free.1 h.1)

  -- The tags stand, in some order, in the columns.
  pub spread :
      (v : List Value) (cols : List (ℕ × Text)) (kvs : List (KeyValue F))
      → Distinct (map named cols)
      → UniqueKeys kvs
      → All IsTag kvs
      → All (ShowsTag v kvs) cols
      → All (λ kv. contains (names cols) kv.key ≡ true) kvs
      → (order : List (KeyValue F)) × Permᴰ order kvs × Lists floats v cols order
  spread v [] [] d u h each every = ([], Permᴰ.nil, done)
  spread v [] (kv ∷ kvs) d u h each every = absurd (false_true every.0)
    where
      false_true : false ≡ true → ⊥
      false_true e = cc
  spread v ((i, k) ∷ cols) kvs d u h each every = elim (pick k kvs u h) [
    | missing free ↦
        let (order, p, l) =
          spread v cols kvs d.1 u h each.1 (named_rest k (names cols) kvs free every) in
        (
          order,
          p,
          empty (each.0 ∙ ap (λ o. some (shown o)) (last_tag-none floats ids models k kvs free)) l,
        )
    | found kv rest same p free unique others own ↦
        let back = Permᴰ.symm p in
        let tags = All-perm IsTag back h in
        let (order, q, l) =
          spread v cols rest d.1 unique tags.1
            (shows_rest v k kvs rest cols others (fresh_names k cols d.0) each.1)
            (named_rest k (names cols) rest free
              (All-perm (λ kv. contains (k ∷ names cols) kv.key ≡ true) back every).1) in
        let (c, s, w) = as_written kv tags.0.typed in
        (
          kv ∷ order,
          Permᴰ.trans (Permᴰ.cons refl q) p,
          tag (each.0 ∙ ap (λ o. some (shown o)) (own ∙ own_under kv k w same))
              (w ∙ ap (λ x. ok (x, c ∷ s)) ((text_eq_iff kv.key k).0 same)) tags.0.fits l,
        )
  ]

  -- What each tag writes is what its key has.
  abbrev Written : List (KeyValue F) → KeyValue F → Type 0
  Written kvs kv = (c : ℕ) × (s : Text) × (last_tag floats ids models kv.key kvs ≡ some (c ∷ s))

  Written-cons :
      (x : KeyValue F) (kvs ys : List (KeyValue F))
      → All (Written kvs) ys
      → All (Written (x ∷ kvs)) ys
  Written-cons x kvs [] h = tt
  Written-cons x kvs (y ∷ ys) h =
      let (c, s, e) = h.0 in ((c, s, rw e refl), Written-cons x kvs ys h.1)

  pub last_tags : (kvs : List (KeyValue F)) → UniqueKeys kvs → All IsTag kvs → All (Written kvs) kvs
  last_tags [] u h = tt
  last_tags (x ∷ xs) u h =
      let (c, s, e) = as_written x h.0.typed in
      (
        (
          c,
          s,
          rw (last_tag-none floats ids models x.key xs u.0)
              (own_under x x.key e ((text_eq_iff x.key x.key).1 refl)),
        ),
        Written-cons x xs xs (last_tags xs u.1 h.1),
      )
