-- ===== src/Listing/Pages.antt =====
-- The pages of a list together.
use ops_mesh.Base.{
  ℕ, zero, suc, ◌+◌, ◌-◌, ◌*◌, ◌≤◌, ◌≡◌, refl, sym, ◌∙◌, ap, List, [], ◌∷◌, ◌++◌, length, take,
  drop, arith,
}
use ops_mesh.Listing.{page_at}

module _ {ℓ} {A : Type ℓ} where
  -- The pages 1 to n, one after the other.
  abbrev pub pages : (ℕ → List A) → ℕ → List A
  pages page zero = []
  pages page (suc n) = pages page n ++ page (suc n)

  take_of_nil : (n : ℕ) → take {A = A} n [] ≡ []
  take_of_nil zero = refl
  take_of_nil (suc n) = refl

  take-add : (m n : ℕ) (xs : List A) → take m xs ++ take n (drop m xs) ≡ take (m + n) xs
  take-add zero n xs = let e : n ≡ 0 + n = omega arith in ap (λ k. take k xs) e
  take-add (suc m) n [] = take_of_nil n ∙ sym (take_of_nil (suc m + n))
  take-add (suc m) n (x ∷ xs) =
      let e : suc (m + n) ≡ suc m + n = omega arith in
      ap (λ l. x ∷ l) (take-add m n xs) ∙ ap (λ k. take k (x ∷ xs)) e

  take_all : (n : ℕ) (xs : List A) → length xs ≤ n → take n xs ≡ xs
  take_all zero [] h = refl
  take_all zero (x ∷ xs) h = absurd (omega arith)
  take_all (suc n) [] h = refl
  take_all (suc n) (x ∷ xs) h = ap (λ l. x ∷ l) (take_all n xs (omega arith))

  pub pages-take :
      (limit n : ℕ) (xs : List A) → pages (λ p. page_at p limit xs) n ≡ take (n * limit) xs
  unfolding page_at
  pages-take limit zero xs = let e : 0 ≡ 0 * limit = omega arith in ap (λ k. take k xs) e
  pages-take limit (suc n) xs =
      let before : suc n - 1 ≡ n = omega arith in
      let after : n * limit + limit ≡ suc n * limit = grind arith in
      ap (λ l. l ++ take limit (drop ((suc n - 1) * limit) xs)) (pages-take limit n xs)
      ∙ ap (λ k. take (n * limit) xs ++ take limit (drop (k * limit) xs)) before
      ∙ take-add (n * limit) limit xs
      ∙ ap (λ k. take k xs) after

  -- Enough pages are the whole list.
  pub pages_all :
      (limit n : ℕ) (xs : List A) → length xs ≤ n * limit → pages (λ p. page_at p limit xs) n ≡ xs
  pages_all limit n xs h = pages-take limit n xs ∙ take_all (n * limit) xs h
