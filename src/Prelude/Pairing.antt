-- ===== src/Prelude/Pairing.antt =====
-- Lists that correspond one by one.
use mathlib.Core.List.{List, [], ◌∷◌, ◌++◌}

pub data Each {ℓ κ ρ} {A : Type ℓ} {B : Type κ} (R : A → B → Type ρ)
    : List A → List B → Type (ℓ ⊔ κ ⊔ ρ) where
  no_more : Each R [] []
  and_each :
      {a : A} {b : B} {xs : List A} {ys : List B} → R a b → Each R xs ys → Each R (a ∷ xs) (b ∷ ys)

pub Each-append {ℓ κ ρ} :
    {A : Type ℓ} {B : Type κ} {R : A → B → Type ρ} {xs us : List A} {ys vs : List B}
    → Each R xs ys
    → Each R us vs
    → Each R (xs ++ us) (ys ++ vs)
Each-append no_more k = k
Each-append (and_each r h) k = and_each r (Each-append h k)
