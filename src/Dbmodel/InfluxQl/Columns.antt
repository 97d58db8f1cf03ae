-- ===== src/Dbmodel/InfluxQl/Columns.antt =====
-- The columns of a row by their names.
use mathlib.Core.List.{Permᴰ}
use jaeger_influxdb.Prelude.{
  ℕ, suc, ◌≡◌, refl, ap, ◌∙◌, Bool, true, false, ◌||◌, List, [], ◌∷◌, map, Option, none, some, Text,
  All, Bool-cases, inl, inr, if◌then◌else◌,
}
use jaeger_influxdb.Prelude.Eq.{Text_eq, text_eq, text_eq_iff, text_ne_swap}
use jaeger_influxdb.Dbmodel.Flux.Span.{contains}
use jaeger_influxdb.Dbmodel.InfluxQl.{column_from, column, is_in, other_columns}

-- A column by its name.
abbrev pub named : ℕ × Text → Text × ℕ
named c = (c.1, c.0)

abbrev pub names : List (ℕ × Text) → List Text
names cols = map (λ c. c.1) cols

clash : true ≡ false → ⊥
clash e = cc

is_in-none : (ns : List Text) (c : Text) → is_in ns c ≡ false → All (λ n. text_eq c n ≡ false) ns
unfolding is_in
is_in-none [] c h = tt
is_in-none (n ∷ ns) c h = elim (Bool-cases (text_eq n c)) [
  | inl e ↦ absurd (clash (rw e at h))
  | inr e ↦ (text_ne_swap n c e, is_in-none ns c (rw e at h))
]

none-is_in : (ns : List Text) (c : Text) → All (λ n. text_eq c n ≡ false) ns → is_in ns c ≡ false
unfolding is_in
none-is_in [] c h = refl
none-is_in (n ∷ ns) c h = rw (text_ne_swap c n h.0) (none-is_in ns c h.1)

-- The other columns have none of the names, and what all columns have.
pub other_columns-All :
    (P : Text → Type 0) (ns : List Text) (i : ℕ) (cs : List Text)
    → All P cs
    → All (λ c. P c.1 × All (λ n. text_eq c.1 n ≡ false) ns) (other_columns ns i cs)
unfolding other_columns
other_columns-All P ns i [] h = tt
other_columns-All P ns i (c ∷ cs) h =
    let rest = other_columns-All P ns (suc i) cs h.1 in
    elim (Bool-cases (is_in ns c)) [
      | inl e ↦ rw e rest
      | inr e ↦ rw e ((h.0, is_in-none ns c e), rest)
    ]

column_from-contains :
    (i : ℕ) (k : Text) (cs : List Text) (j : ℕ) → column_from i k cs ≡ some j → contains cs k ≡ true
unfolding column_from
column_from-contains i k [] j h = cc
column_from-contains i k (c ∷ cs) j h = elim (Bool-cases (text_eq c k)) [
  | inl e ↦ rw e refl
  | inr e ↦
      rw e
        (column_from-contains (suc i) k cs j (later (text_eq c k) (column_from (suc i) k cs) e h))
]
  where
    later :
        (b : Bool) (o : Option ℕ)
        → b ≡ false
        → (elim o [ none ↦ (if b then some i else none) | some m ↦ some m ]) ≡ some j
        → o ≡ some j
    later true o f e = absurd (clash f)
    later false none f e = e
    later false (some m) f e = e

-- A column that the row has, and that has none of the names, is one of the other columns.
contains-other_columns :
    (ns : List Text) (i : ℕ) (cs : List Text) (k : Text)
    → contains cs k ≡ true
    → All (λ n. text_eq k n ≡ false) ns
    → contains (names (other_columns ns i cs)) k ≡ true
unfolding other_columns
contains-other_columns ns i [] k h free = h
contains-other_columns ns i (c ∷ cs) k h free = elim (Bool-cases (text_eq c k)) [
  | inl e ↦
      let out : is_in ns c ≡ false = ap (is_in ns) ((text_eq_iff c k).0 e) ∙ none-is_in ns k free in
      rw (out, e) refl
  | inr e ↦
      let rest = contains-other_columns ns (suc i) cs k (rw e at h) free in
      elim (Bool-cases (is_in ns c)) [ inl out ↦ rw out rest | inr out ↦ rw (out, e) rest ]
]

pub column-other_columns :
    (ns cs : List Text) (k : Text) (j : ℕ)
    → column k cs ≡ some j
    → All (λ n. text_eq k n ≡ false) ns
    → contains (names (other_columns ns 0 cs)) k ≡ true
unfolding column
column-other_columns ns cs k j h free =
    contains-other_columns ns 0 cs k (column_from-contains 0 k cs j h) free

or_swap : (a b c : Bool) → (a || (b || c)) ≡ (b || (a || c))
or_swap true true c = refl
or_swap true false c = refl
or_swap false b c = refl

-- Whether a key stands in a list does not depend on its order.
pub contains-perm : {xs ys : List Text} (k : Text) → Permᴰ xs ys → contains xs k ≡ contains ys k
contains-perm k Permᴰ.nil = refl
contains-perm k (Permᴰ.cons e p) = rw (e, contains-perm k p) refl
contains-perm k (Permᴰ.swap {a = a} {b = b} {l = l} e f) =
    rw (← e, ← f) (or_swap (text_eq a k) (text_eq b k) (contains l k))
contains-perm k (Permᴰ.trans p q) = contains-perm k p ∙ contains-perm k q
