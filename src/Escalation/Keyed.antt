-- ===== src/Escalation/Keyed.antt =====
-- A list of rows that a query reads has the ids of its table: each at most once.
use ops_mesh.Base.{
  ℕ, zero, suc, ◌≡◌, refl, Bool, false, none, List, [], ◌∷◌, String, string_eq, find, filter, take,
  insert_by, sort_by, leb, arith, eq_iff, Bool-cases, inl, inr,
}
use ops_mesh.Db.{IncidentRow, has_id}
use ops_mesh.Incidents.Keys.{IsKeyed}

find-filter-none :
    (id : String) (p : IncidentRow → Bool) (rs : List IncidentRow)
    → find (has_id id) rs ≡ none
    → find (has_id id) (filter p rs) ≡ none
find-filter-none id p [] h = refl
find-filter-none id p (r ∷ rs) h = ground (arith, find-filter-none id p rs)

pub IsKeyed-filter :
    (p : IncidentRow → Bool) (rs : List IncidentRow) → IsKeyed rs → IsKeyed (filter p rs)
IsKeyed-filter p [] h = tt
IsKeyed-filter p (r ∷ rs) (new, h) = elim (Bool-cases (p r)) [
  | inl e ↦ rw e (find-filter-none r.id p rs new, IsKeyed-filter p rs h)
  | inr e ↦ rw e (IsKeyed-filter p rs h)
]

find-take-none :
    (id : String) (n : ℕ) (rs : List IncidentRow)
    → find (has_id id) rs ≡ none
    → find (has_id id) (take n rs) ≡ none
find-take-none id zero rs h = refl
find-take-none id (suc n) [] h = refl
find-take-none id (suc n) (r ∷ rs) h = ground (arith, find-take-none id n rs)

pub IsKeyed-take : (n : ℕ) (rs : List IncidentRow) → IsKeyed rs → IsKeyed (take n rs)
IsKeyed-take zero rs h = tt
IsKeyed-take (suc n) [] h = tt
IsKeyed-take (suc n) (r ∷ rs) (new, h) = (find-take-none r.id n rs new, IsKeyed-take n rs h)

module _ (f : IncidentRow → ℕ) where
  find-insert_none :
      (id : String) (x : IncidentRow) (rs : List IncidentRow)
      → has_id id x ≡ false
      → find (has_id id) rs ≡ none
      → find (has_id id) (insert_by f x rs) ≡ none
  find-insert_none id x [] e h = ground arith
  find-insert_none id x (r ∷ rs) e h = ground (arith, find-insert_none id x rs e)

  find-sort_none :
      (id : String) (rs : List IncidentRow)
      → find (has_id id) rs ≡ none
      → find (has_id id) (sort_by f rs) ≡ none
  find-sort_none id [] h = refl
  find-sort_none id (r ∷ rs) h = elim (Bool-cases (has_id id r)) [
    | inl e ↦ absurd (ground (arith, e, h))
    | inr e ↦ find-insert_none id r (sort_by f rs) e (find-sort_none id rs (ground (arith, e, h)))
  ]

  IsKeyed-insert :
      (x : IncidentRow) (rs : List IncidentRow)
      → find (has_id x.id) rs ≡ none
      → IsKeyed rs
      → IsKeyed (insert_by f x rs)
  IsKeyed-insert x [] new h = (refl, tt)
  IsKeyed-insert x (r ∷ rs) new (free, h) = elim (Bool-cases (leb (f x) (f r))) [
    | inl e ↦ rw e (new, (free, h))
    | inr e ↦ rw e (
      find-insert_none r.id x rs (ground (arith, eq_iff x.id r.id, eq_iff r.id x.id)) free,
      IsKeyed-insert x rs (ground arith) h,
    )
  ]

  pub IsKeyed-sort : (rs : List IncidentRow) → IsKeyed rs → IsKeyed (sort_by f rs)
  IsKeyed-sort [] h = tt
  IsKeyed-sort (r ∷ rs) (new, h) =
      IsKeyed-insert r (sort_by f rs) (find-sort_none r.id rs new) (IsKeyed-sort rs h)
