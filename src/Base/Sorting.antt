-- ===== src/Base/Sorting.antt =====
-- Lists ordered by a number, as `ORDER BY` gives them: rows with equal numbers keep their order.
use mathlib.Core.Path.{◌≡◌, refl}
use mathlib.Core.List.{List, [], ◌∷◌}
use Prim.Native.Nat.{ℕ, zero, suc, ◌+◌}
use native.Mathlib.Omega.{arith}
use ops_mesh.Base.Compare.{if◌then◌else◌, leb}
use ops_mesh.Base.Lists.{length, All, take}

module _ {ℓ} {A : Type ℓ} (f : A → ℕ) where
  abbrev pub insert_by : A → List A → List A
  insert_by x [] = x ∷ []
  insert_by x (y ∷ ys) =
      let rest = insert_by x ys in if leb (f x) (f y) then x ∷ y ∷ ys else y ∷ rest

  abbrev pub sort_by : List A → List A
  sort_by [] = []
  sort_by (x ∷ xs) = insert_by x (sort_by xs)

  abbrev pub insert_desc_by : A → List A → List A
  insert_desc_by x [] = x ∷ []
  insert_desc_by x (y ∷ ys) =
      let rest = insert_desc_by x ys in if leb (f y) (f x) then x ∷ y ∷ ys else y ∷ rest

  -- `ORDER BY f DESC`
  abbrev pub sort_desc_by : List A → List A
  sort_desc_by [] = []
  sort_desc_by (x ∷ xs) = insert_desc_by x (sort_desc_by xs)

  All-insert_by {κ} :
      (P : A → Type κ) (x : A) (ys : List A) → P x → All P ys → All P (insert_by x ys)
  All-insert_by P x [] h hs = (h, tt)
  All-insert_by P x (y ∷ ys) h (hy, hs) = ground (arith, All-insert_by P x ys h hs)

  pub All-sort_by {κ} : (P : A → Type κ) (xs : List A) → All P xs → All P (sort_by xs)
  All-sort_by P [] h = tt
  All-sort_by P (x ∷ xs) (h, hs) = All-insert_by P x (sort_by xs) h (All-sort_by P xs hs)

  length-insert_by : (x : A) (ys : List A) → length (insert_by x ys) ≡ 1 + length ys
  length-insert_by x [] = refl
  length-insert_by x (y ∷ ys) = ground (arith, length-insert_by x ys)

  pub length-sort_by : (xs : List A) → length (sort_by xs) ≡ length xs
  length-sort_by [] = refl
  length-sort_by (x ∷ xs) = ground (arith, length-insert_by x (sort_by xs), length-sort_by xs)

  length-insert_desc_by : (x : A) (ys : List A) → length (insert_desc_by x ys) ≡ 1 + length ys
  length-insert_desc_by x [] = refl
  length-insert_desc_by x (y ∷ ys) = ground (arith, length-insert_desc_by x ys)

  pub length-sort_desc_by : (xs : List A) → length (sort_desc_by xs) ≡ length xs
  length-sort_desc_by [] = refl
  length-sort_desc_by (x ∷ xs) =
      ground (arith, length-insert_desc_by x (sort_desc_by xs), length-sort_desc_by xs)

module _ {ℓ} {A : Type ℓ} where
  pub All-take {κ} : (P : A → Type κ) (n : ℕ) (xs : List A) → All P xs → All P (take n xs)
  All-take P zero xs h = tt
  All-take P (suc n) [] h = tt
  All-take P (suc n) (x ∷ xs) (h, hs) = (h, All-take P n xs hs)
