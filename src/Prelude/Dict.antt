-- ===== src/Prelude/Dict.antt =====
-- A Go map as an association list: each key stands once, in the order of its first insertion.
-- Where the code ranges over a map, the model takes the order of the range as an argument.
use mathlib.Core.Path.{◌≡◌, refl, ◌∙◌}
use mathlib.Core.Bool.{true}
use mathlib.Core.List.{List, [], ◌∷◌}
use mathlib.Core.Option.{Option, none, some}
use native.Mathlib.Omega.{arith}
use jaeger_influxdb.Prelude.Tests.{if◌then◌else◌}
use jaeger_influxdb.Prelude.Eq.{Eq, ◌==◌}

abbrev pub Dict {ℓ κ} : Type ℓ → Type κ → Type (ℓ ⊔ κ)
Dict K V = List (K × V)

pub eq_refl {ℓ} : {K : Type ℓ} ⦃e : Eq K⦄ (key : K) → (key == key) ≡ true
eq_refl ⦃e⦄ key = (e.same_iff key key).1 refl

module _ {ℓ κ} {K : Type ℓ} {V : Type κ} ⦃e : Eq K⦄ where
  unfoldable pub lookup : K → Dict K V → Option V
  lookup key [] = none
  lookup key ((j, v) ∷ m) = if j == key then some v else lookup key m

  unfoldable pub insert : K → V → Dict K V → Dict K V
  insert key v [] = (key, v) ∷ []
  insert key v ((j, w) ∷ m) = if j == key then (j, v) ∷ m else (j, w) ∷ insert key v m

  pub lookup-insert :
      (key j : K) (v : V) (m : Dict K V)
      → lookup j (insert key v m) ≡ (if key == j then some v else lookup j m)
  unfolding lookup insert
  lookup-insert key j v [] = refl
  lookup-insert key j v ((i, w) ∷ m) =
      ground (arith, e.same_iff key j, e.same_iff i key, e.same_iff i j, lookup-insert key j v m)

  pub lookup-insert_self : (key : K) (v : V) (m : Dict K V) → lookup key (insert key v m) ≡ some v
  lookup-insert_self key v m = lookup-insert key key v m ∙ rw (eq_refl key)
