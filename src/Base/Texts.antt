-- ===== src/Base/Texts.antt =====
-- The operations on texts that the program uses, by code points.
use Prim.Native.Char.{Char, code}
use Prim.Native.Nat.{ℕ, zero, suc}
use Prim.Native.String
use Prim.Native.String.{String}
use mathlib.Core.Path.{◌≡◌, ap}
use mathlib.Core.Bool.{Bool, ◌||◌}
use mathlib.Core.Option.{Option, none, some}
use mathlib.Core.List.{List, [], ◌∷◌}
use native.Mathlib.Omega.{arith}
use text.Mathlib.TextLemmas.{nil-append, cons-append}
use ops_mesh.Base.Compare.{if◌then◌else◌, nat_beq}

-- `s.slice(p.length)` where `s.startsWith(p)`, else none
unfoldable pub strip_prefix : String → String → Option String
strip_prefix String.[] s = some s
strip_prefix (String.◌∷◌ c p) String.[] = none
strip_prefix (String.◌∷◌ c p) (String.◌∷◌ d s) =
    if nat_beq (code c) (code d) then strip_prefix p s else none

-- `s.slice(0, n)`
unfoldable pub slice_to : ℕ → String → String
slice_to zero s = ""
slice_to (suc n) String.[] = ""
slice_to (suc n) (String.◌∷◌ c s) = String.◌∷◌ c (slice_to n s)

-- What stands before a code point and after it, if it occurs: `indexOf` with the two slices.
unfoldable pub split_at : ℕ → String → Option (String × String)
split_at c String.[] = none
split_at c (String.◌∷◌ d s) = elim (split_at c s) [
  | none ↦ if nat_beq (code d) c then some ("", s) else none
  | some (a, b) ↦ if nat_beq (code d) c then some ("", s) else some (String.◌∷◌ d a, b)
]

abbrev pub on_head : Char → List String → List String
on_head c [] = String.◌∷◌ c "" ∷ []
on_head c (s ∷ rest) = String.◌∷◌ c s ∷ rest

-- `s.split(c)` for one code point
unfoldable pub split : ℕ → String → List String
split c String.[] = "" ∷ []
split c (String.◌∷◌ d s) =
    let rest = split c s in if nat_beq (code d) c then "" ∷ rest else on_head d rest

-- The white space of ASCII.
abbrev pub is_space : Char → Bool
is_space c =
    nat_beq (code c) 32
    || nat_beq (code c) 9
    || nat_beq (code c) 10
    || nat_beq (code c) 11
    || nat_beq (code c) 12
    || nat_beq (code c) 13

unfoldable pub trim_start : String → String
trim_start String.[] = ""
trim_start (String.◌∷◌ c s) = if is_space c then trim_start s else String.◌∷◌ c s

unfoldable pub trim_end : String → String
trim_end String.[] = ""
trim_end (String.◌∷◌ c s) = elim (trim_end s) [
  | String.[] ↦ if is_space c then "" else String.◌∷◌ c ""
  | String.◌∷◌ d t ↦ String.◌∷◌ c (String.◌∷◌ d t)
]

-- `s.trim()`
abbrev pub trim : String → String
trim s = trim_end (trim_start s)

pub strip_prefix-append : (p s : String) → strip_prefix p (String.◌++◌ p s) ≡ some s
unfolding strip_prefix
strip_prefix-append String.[] s = ap some (nil-append s)
strip_prefix-append (String.◌∷◌ c p) s =
    rw (cons-append c p s) (ground (arith, strip_prefix-append p s))
