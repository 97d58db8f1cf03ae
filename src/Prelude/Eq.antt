-- ===== src/Prelude/Eq.antt =====
-- Decidable equality as an interface, for numbers, texts and pairs.
use Prim.Native.Nat.{ℕ}
use mathlib.Core.Path.{◌≡◌, sym, ◌∙◌}
use mathlib.Core.Logic.{◌↔◌, ◌≢◌, inl, inr}
use mathlib.Core.Bool.{Bool, true, false, ◌&&◌}
use mathlib.Core.List.{[], ◌∷◌}
use native.Mathlib.Omega.{arith}
use jaeger_influxdb.Prelude.Tests.{nat_eq, nat_eq_iff, Bool-cases}
use jaeger_influxdb.Prelude.Lists.{Text}

pub record Eq {ℓ} (A : Type ℓ) : Type ℓ where
  pub same : A → A → Bool
  pub same_iff : (a b : A) → (same a b ≡ true) ↔ (a ≡ b)

infix 50 ◌==◌
abbrev pub ◌==◌ {ℓ} : {A : Type ℓ} ⦃e : Eq A⦄ → A → A → Bool
◌==◌ ⦃e⦄ = e.same

instance abbrev pub ℕ_eq : Eq ℕ
ℕ_eq = record { same = nat_eq; same_iff = nat_eq_iff }

unfoldable pub text_eq : Text → Text → Bool
text_eq [] [] = true
text_eq (x ∷ a) (y ∷ b) = nat_eq x y && text_eq a b
text_eq _ _ = false

pub text_eq_iff : (a b : Text) → (text_eq a b ≡ true) ↔ (a ≡ b)
unfolding text_eq
text_eq_iff (x ∷ a) (y ∷ b) = ground (arith, text_eq_iff a b)
text_eq_iff _ _ = ground arith

instance abbrev pub Text_eq : Eq Text
Text_eq = record { same = text_eq; same_iff = text_eq_iff }

pub text_ne_swap : (a b : Text) → text_eq a b ≡ false → text_eq b a ≡ false
text_ne_swap a b h = elim (Bool-cases (text_eq b a)) [
  | inl e ↦ absurd (true_false (sym ((text_eq_iff a b).1 (sym ((text_eq_iff b a).0 e))) ∙ h))
  | inr e ↦ e
]
  where
    true_false : true ≡ false → ⊥
    true_false e = cc

pub text_ne : (a b : Text) → a ≢ b → text_eq a b ≡ false
text_ne a b h = elim (Bool-cases (text_eq a b)) [
  | inl e ↦ absurd (h ((text_eq_iff a b).0 e))
  | inr e ↦ e
]
