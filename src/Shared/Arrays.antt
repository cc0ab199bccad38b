-- ===== src/Shared/Arrays.antt =====
-- packages/shared/src/utils: chunkArray and getCurrentOnCallUser of index.ts, createPaginatedResponse
-- of api-response.ts, validateEnvironmentVariables of env.ts, the arithmetic of date.ts.
pub mod Laws
use ops_mesh.Base.{
  ℕ, zero, suc, ◌+◌, ◌-◌, ◌*◌, ◌/◌, ◌%◌, Bool, true, false, not, Option, none, some, List, [], ◌∷◌,
  String, length, get_elem?, take, drop, filter, leb, ltb, ◌==◌, nat_eq, string_eq, if◌then◌else◌,
  ◌||◌,
}

module _ {ℓ} {A : Type ℓ} where
  -- The loop `for (i = 0; i < array.length; i += size)` over what is left of the array; `none` means
  -- that the fuel ran out, as it does for a size of 0, where the source does not terminate.
  unfoldable pub chunk_loop : ℕ → ℕ → List A → Option (List (List A))
  chunk_loop zero size rest = none
  chunk_loop (suc fuel) size [] = some []
  chunk_loop (suc fuel) size (x ∷ xs) = elim (chunk_loop fuel size (drop size (x ∷ xs))) [
    | none ↦ none
    | some chunks ↦ some (take size (x ∷ xs) ∷ chunks)
  ]

  unfoldable pub chunk_array : List A → ℕ → Option (List (List A))
  unfolding chunk_loop
  chunk_array array size = chunk_loop (length array + 1) size array

abbrev pub day_ms : ℕ
day_ms = 1000 * 60 * 60 * 24

-- `rotationOrder[index]` is undefined, here `none`, where the remainder is negative.
unfoldable pub get_current_on_call_user : List String → ℕ → ℕ → ℕ → Option String
get_current_on_call_user rotation_order current_index start now =
    let len = length rotation_order in
    let late = (start - now + (day_ms - 1)) / day_ms in
    if len == 0
    then some ""
    else if leb start now
    then get_elem? rotation_order ((current_index + (now - start) / day_ms) % len)
    else if leb late current_index
    then get_elem? rotation_order ((current_index - late) % len)
    else if (late - current_index) % len == 0
    then get_elem? rotation_order 0
    else none

pub record PaginatedResponse {ℓ} (A : Type ℓ) : Type ℓ where
  pub rows : List A
  pub total : ℕ
  pub page : ℕ
  pub limit : ℕ
  pub total_pages : Option ℕ

-- `Math.ceil(total / limit)`; a limit of 0 gives Infinity or NaN, here `none`.
unfoldable pub create_paginated_response {ℓ} :
    {A : Type ℓ} → List A → ℕ → ℕ → ℕ → PaginatedResponse A
create_paginated_response rows total page limit = record {
  rows = rows;
  total = total;
  page = page;
  limit = limit;
  total_pages = if limit == 0 then none else some ((total + (limit - 1)) / limit);
}

-- `!source[key] || source[key] === ''`
unfoldable pub is_missing : (String → Option String) → String → Bool
is_missing source key = elim (source key) [ none ↦ true | some v ↦ v == "" ]

-- The missing names of which the thrown error tells; none where the function returns.
unfoldable pub validate_environment_variables :
    List String → (String → Option String) → Option (List String)
unfolding is_missing
validate_environment_variables required source =
    let missing = filter (is_missing source) required in
    if ltb 0 (length missing) then some missing else none

unfoldable pub add_minutes : ℕ → ℕ → ℕ
add_minutes date minutes = date + minutes * 60000

-- `Math.floor((end - start) / 60000)` for an end that is not before the start
unfoldable pub diff_minutes : ℕ → ℕ → ℕ
diff_minutes start end = (end - start) / 60000

unfoldable pub is_older_than : ℕ → ℕ → ℕ → Bool
unfolding diff_minutes
is_older_than date minutes now = ltb minutes (diff_minutes date now)
