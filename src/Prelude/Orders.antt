-- ===== src/Prelude/Orders.antt =====
-- The order in which Go ranges over a map: some permutation of its entries.
use mathlib.Core.Path.{sym, ap, subst, ◌∙◌}
use mathlib.Core.Logic.{◌≢◌}
use mathlib.Core.List.{List, [], ◌∷◌, Permᴰ}
use jaeger_influxdb.Prelude.Lists.{All}

-- A function that reorders the entries of a map.
abbrev pub IsRange {ℓ} : {A : Type ℓ} → (List A → List A) → Type ℓ
IsRange {A} range = (m : List A) → Permᴰ (range m) m

module _ {ℓ κ} {A : Type ℓ} (P : A → Type κ) where
  pub All-perm : {xs ys : List A} → Permᴰ xs ys → All P xs → All P ys
  All-perm Permᴰ.nil h = h
  All-perm (Permᴰ.cons e p) (h, hs) = (subst P e h, All-perm p hs)
  All-perm (Permᴰ.swap e f) (h, (k, hs)) = (subst P f k, (subst P e h, hs))
  All-perm (Permᴰ.trans p q) h = All-perm q (All-perm p h)

-- No entry of the list has the key of `e`.
abbrev pub Fresh {ℓ κ} : {K : Type ℓ} {V : Type κ} → K × V → List (K × V) → Type ℓ
Fresh e = All (λ f. f.0 ≢ e.0)

-- No two entries have one key.
abbrev pub Distinct {ℓ κ} : {K : Type ℓ} {V : Type κ} → List (K × V) → Type (ℓ ⊔ κ)
Distinct [] = Unit
Distinct (e ∷ es) = Fresh e es × Distinct es

module _ {ℓ κ} {K : Type ℓ} {V : Type κ} where
  pub Distinct-perm : {xs ys : List (K × V)} → Permᴰ xs ys → Distinct xs → Distinct ys
  Distinct-perm Permᴰ.nil h = h
  Distinct-perm (Permᴰ.cons {b = b} {l₁ = l₁} e p) (h, hs) =
      (All-perm (λ f. f.0 ≢ b.0) p (subst (λ x. Fresh x l₁) e h), Distinct-perm p hs)
  Distinct-perm (Permᴰ.swap {a = a} {b = b} {a' = a'} {b' = b'} {l = l} e f) ((ba, ha), (hb, hs)) =
      (
        ((λ r. ba (ap (λ x. x.0) f ∙ sym r ∙ ap (λ x. x.0) (sym e))), subst (λ x. Fresh x l) f hb),
        (subst (λ x. Fresh x l) e ha, hs),
      )
  Distinct-perm (Permᴰ.trans p q) h = Distinct-perm q (Distinct-perm p h)
