-- ===== src/Base/Any.antt =====
-- Whether some element of a list satisfies a test: appended elements, filtered lists, two tests.
use mathlib.Core.Path.{◌≡◌}
use mathlib.Core.Bool.{Bool, true, false, not, ◌||◌, ◌&&◌}
use mathlib.Core.List.{List, [], ◌∷◌, ◌++◌}
use mathlib.Core.Logic.{inl, inr}
use native.Mathlib.Omega.{arith}
use ops_mesh.Base.Compare.{Bool-cases}
use ops_mesh.Base.Lists.{any, filter}

pub any-snoc {ℓ} :
    {A : Type ℓ} (p : A → Bool) (xs : List A) (x : A) → any p (xs ++ x ∷ []) ≡ (any p xs || p x)
any-snoc p [] x = ground arith
any-snoc p (y ∷ xs) x = ground (arith, any-snoc p xs x)

pub any-both {ℓ} :
    {A : Type ℓ} (p q : A → Bool) (xs : List A)
    → any p xs ≡ true
    → any (λ x. p x && not (q x)) xs ≡ false
    → any (λ x. p x && q x) xs ≡ true
any-both p q [] h miss = absurd (ground arith)
any-both p q (x ∷ xs) h miss = elim (Bool-cases (p x)) [
  | inl e ↦ ground (arith, e)
  | inr e ↦ ground (arith, e, any-both p q xs (ground (arith, e, h)) (ground (arith, e, miss)))
]

pub any-filter {ℓ} :
    {A : Type ℓ} (p q : A → Bool) (xs : List A)
    → ((x : A) → p x ≡ true → q x ≡ true)
    → any p xs ≡ true
    → any p (filter q xs) ≡ true
any-filter p q [] imp h = h
any-filter p q (x ∷ xs) imp h = elim (Bool-cases (p x)) [
  | inl e ↦ ground (arith, e, imp x e)
  | inr e ↦ ground (arith, e, any-filter p q xs imp (ground (arith, e, h)))
]

pub any-left {ℓ} :
    {A : Type ℓ} (p q : A → Bool) (xs : List A) → any (λ x. p x && q x) xs ≡ true → any p xs ≡ true
any-left p q [] h = h
any-left p q (x ∷ xs) h = elim (Bool-cases (p x)) [
  | inl e ↦ ground (arith, e)
  | inr e ↦ ground (arith, e, any-left p q xs (ground (arith, e, h)))
]
