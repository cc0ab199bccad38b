-- ===== src/Shared/Arrays/Laws.antt =====
-- Chunking loses nothing, rotation takes turns, pages cover the rows.
use native.Mathlib.Nat.{mod-lt, div-mul-le_self, lt-div-mul-add}
use ops_mesh.Base.{
  ℕ, zero, suc, ◌+◌, ◌-◌, ◌*◌, ◌/◌, ◌%◌, ◌≤◌, ◌<◌, ◌≡◌, refl, ap, ◌∙◌, ◌↔◌, true, some, List, [],
  ◌∷◌, ◌++◌, String, length, get_elem?, take, drop, nat_eq, string_eq, arith, All, take-append-drop,
  get_elem?-of_lt, ◌⊎◌, inl, inr,
}
use ops_mesh.Shared.Arrays.{
  chunk_loop, chunk_array, day_ms, get_current_on_call_user, create_paginated_response, add_minutes,
  diff_minutes, is_older_than,
}

module _ {ℓ} {A : Type ℓ} where
  abbrev pub concat : List (List A) → List A
  concat [] = []
  concat (xs ∷ xss) = xs ++ concat xss

  length-drop-lt : (size : ℕ) (x : A) (xs : List A) → length (drop (suc size) (x ∷ xs)) ≤ length xs
  length-drop-lt zero x xs = omega arith
  length-drop-lt (suc size) x [] = omega arith
  length-drop-lt (suc size) x (y ∷ ys) = omega (arith, length-drop-lt size y ys)

  length-take-bounds :
      (size : ℕ) (x : A) (xs : List A)
      → (0 < length (take (suc size) (x ∷ xs))) × (length (take (suc size) (x ∷ xs)) ≤ suc size)
  length-take-bounds zero x xs = omega arith
  length-take-bounds (suc size) x [] = omega arith
  length-take-bounds (suc size) x (y ∷ ys) = omega (arith, length-take-bounds size y ys)

  abbrev pub IsChunk : ℕ → List A → Type 0
  IsChunk size c = (0 < length c) × (length c ≤ size)

  chunk_loop_lem :
      (fuel size : ℕ) (rest : List A)
      → length rest < fuel
      → (chunks : List (List A)) × (chunk_loop fuel (suc size) rest ≡ some chunks)
        × (concat chunks ≡ rest)
        × All (IsChunk (suc size)) chunks
  unfolding chunk_loop
  chunk_loop_lem zero size rest h = elim h [ ]
  chunk_loop_lem (suc fuel) size [] h = ([], refl, refl, tt)
  chunk_loop_lem (suc fuel) size (x ∷ xs) h =
      let (chunks, found, whole, sizes) =
        chunk_loop_lem fuel size (drop (suc size) (x ∷ xs))
          (omega (arith, length-drop-lt size x xs)) in
      (
        take (suc size) (x ∷ xs) ∷ chunks,
        rw found refl,
        ap (λ l. take (suc size) (x ∷ xs) ++ l) whole ∙ take-append-drop (suc size) (x ∷ xs),
        (length-take-bounds size x xs, sizes),
      )

  -- For every positive size chunking terminates, and its chunks, joined in order, are the array;
  -- every chunk holds at least one element and at most `size`.
  pub chunk_array_lem :
      (array : List A) (size : ℕ)
      → 0 < size
      → (chunks : List (List A)) × (chunk_array array size ≡ some chunks)
        × (concat chunks ≡ array)
        × All (IsChunk size) chunks
  unfolding chunk_array
  chunk_array_lem array zero h = elim h [ ]
  chunk_array_lem array (suc size) h = chunk_loop_lem (length array + 1) size array (omega arith)

-- From the schedule's start on, a rotation that is not empty always names one of its members, at the
-- position that advances by one each day and wraps at the end.
pub get_current_on_call_user_lem :
    (order : List String) (index start days late : ℕ)
    → 0 < length order
    → late < day_ms
    → (user : String) × (get_current_on_call_user order index start (start + days * day_ms + late)
        ≡ some user)
      × (get_elem? order ((index + days) % length order) ≡ some user)
unfolding get_current_on_call_user
get_current_on_call_user_lem order index start days late pos h =
    let i = (index + days) % length order in
    let (user, found) = get_elem?-of_lt order i (mod-lt (index + days) pos) in
    let passed : (start + days * day_ms + late - start) / day_ms ≡ days = omega arith in
    (user, rw passed (ground (arith, found)), found)

last_page_full :
    (q total limit : ℕ)
    → q * limit ≤ total + (limit - 1)
    → 0 < limit
    → 0 < total
    → (q - 1) * limit < total
last_page_full zero total limit h l t = omega arith
last_page_full (suc q) total limit h l t = let e : suc q - 1 ≡ q = omega arith in rw e (omega arith)

-- For a positive limit the pages hold all rows, and no page is empty: one page less would not hold
-- them.
pub create_paginated_response_lem {ℓ} :
    {A : Type ℓ} (rows : List A) (total page limit : ℕ)
    → 0 < limit
    → (n : ℕ) × ((create_paginated_response rows total page limit).total_pages ≡ some n)
      × (total ≤ n * limit)
      × ((total ≡ 0) ⊎ ((n - 1) * limit < total))
unfolding create_paginated_response
create_paginated_response_lem rows total page limit pos = (
  (total + (limit - 1)) / limit,
  ground arith,
  omega (arith, lt-div-mul-add {a = total + (limit - 1)} pos),
  last total,
)
  where
    last : (t : ℕ) → (t ≡ 0) ⊎ (((t + (limit - 1)) / limit - 1) * limit < t)
    last zero = inl refl
    last (suc t) = inr (
        last_page_full _ (suc t) limit (div-mul-le_self (suc t + (limit - 1)) limit) pos
          (omega arith))

-- Moving a date by some minutes and less than one more is read back as those minutes, and a date
-- counts as older than `minutes` exactly when more than that many whole minutes have passed.
pub diff_minutes-add_minutes :
    (date minutes extra limit : ℕ)
    → extra < 60000
    → (diff_minutes date (add_minutes date minutes + extra) ≡ minutes)
      × ((is_older_than date limit (add_minutes date minutes + extra) ≡ true) ↔ (limit < minutes))
unfolding diff_minutes add_minutes is_older_than
diff_minutes-add_minutes date minutes extra limit h =
    let passed : (date + minutes * 60000 + extra - date) / 60000 ≡ minutes = omega arith in
    (passed, ground (arith, passed))
