-- ===== src/Incidents/Keys.antt =====
-- The primary key of the incidents table: no two rows have one id.
use ops_mesh.Base.{
  ◌≡◌, refl, sym, ◌∙◌, ap, Bool, Option, none, some, List, [], ◌∷◌, String, ◌==◌, ◌&&◌, string_eq,
  if◌then◌else◌, find, update_where, All, arith, eq_iff, Bool-cases, inl, inr,
}
use ops_mesh.Db.{IncidentRow, has_id}

abbrev pub IsKeyed : List IncidentRow → Type 0
IsKeyed [] = Unit
IsKeyed (r ∷ rs) = (find (has_id r.id) rs ≡ none) × IsKeyed rs

-- A read by id with a further condition.
abbrev pub keep_if : (IncidentRow → Bool) → Option IncidentRow → Option IncidentRow
keep_if q none = none
keep_if q (some r) = if q r then some r else none

find-none-and :
    (id : String) (q : IncidentRow → Bool) (rs : List IncidentRow)
    → find (has_id id) rs ≡ none
    → find (λ r. has_id id r && q r) rs ≡ none
find-none-and id q [] h = refl
find-none-and id q (r ∷ rs) h = ground (arith, find-none-and id q rs)

pub find-and :
    (id : String) (q : IncidentRow → Bool) (rs : List IncidentRow)
    → IsKeyed rs
    → find (λ r. has_id id r && q r) rs ≡ keep_if q (find (has_id id) rs)
find-and id q [] h = refl
find-and id q (r ∷ rs) (new, h) =
    ground (arith, eq_iff r.id id, find-and id q rs h, find-none-and id q rs)

pub find-has_id :
    (id : String) (rs : List IncidentRow) (r : IncidentRow)
    → find (has_id id) rs ≡ some r
    → r.id ≡ id
find-has_id id [] r h = absurd (ground arith)
find-has_id id (x ∷ rs) r h = ground (arith, eq_iff x.id id, find-has_id id rs r)

update_absent :
    (id : String) (f : IncidentRow → IncidentRow) (rs : List IncidentRow)
    → find (has_id id) rs ≡ none
    → update_where (has_id id) f rs ≡ rs
update_absent id f [] h = refl
update_absent id f (r ∷ rs) h = ground (arith, update_absent id f rs)

-- Only the row with the id changes, so only it has to be looked at.
pub All-update_keyed {κ} :
    (P : IncidentRow → Type κ) (id : String) (f : IncidentRow → IncidentRow) (rs : List IncidentRow)
    → IsKeyed rs
    → All P rs
    → ((r : IncidentRow) → find (has_id id) rs ≡ some r → P r → P (f r))
    → All P (update_where (has_id id) f rs)
All-update_keyed P id f [] k h keep = tt
All-update_keyed P id f (r ∷ rs) (new, k) (h, hs) keep = elim (Bool-cases (r.id == id)) [
  | inl e ↦
      let same =
        update_absent id f rs (ap (λ i. find (has_id i) rs) (sym ((eq_iff r.id id).0 e)) ∙ new) in
      rw (e, same) (keep r (rw e) h, hs)
  | inr e ↦ rw e (h, All-update_keyed P id f rs k hs (λ x found. keep x (rw e found)))
]

find-update_other :
    (p : String) (id : String) (f : IncidentRow → IncidentRow)
    → ((r : IncidentRow) → (f r).id ≡ r.id)
    → (rs : List IncidentRow) → find (has_id p) rs ≡ none
    → find (has_id p) (update_where (has_id id) f rs) ≡ none
find-update_other p id f keep [] h = refl
find-update_other p id f keep (r ∷ rs) h = ground (arith, keep r, find-update_other p id f keep rs)

pub update_where-IsKeyed :
    (id : String) (f : IncidentRow → IncidentRow)
    → ((r : IncidentRow) → (f r).id ≡ r.id)
    → (rs : List IncidentRow) → IsKeyed rs
    → IsKeyed (update_where (has_id id) f rs)
update_where-IsKeyed id f keep [] h = tt
update_where-IsKeyed id f keep (r ∷ rs) (new, h) = (
  ground (
    arith,
    keep r,
    find-update_other r.id id f keep rs new,
    find-update_other (f r).id id f keep rs,
  ),
  update_where-IsKeyed id f keep rs h,
)
