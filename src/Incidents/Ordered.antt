-- ===== src/Incidents/Ordered.antt =====
-- The order and the content of the incident list of incidents.service.ts, listIncidents, apart from how
-- the query sorts its rows.
use ops_mesh.Base.{
  ℕ, ◌+◌, ◌≤◌, ◌≡◌, refl, sym, ◌∙◌, Bool, true, false, not, Option, none, some, List, [], ◌∷◌, ◌++◌,
  String, ◌==◌, string_eq, if◌then◌else◌, ◌&&◌, ◌||◌, ◌⊎◌, inl, inr, filter, leb, arith, All,
  All-append, Bool-cases, insert_desc_by, sort_desc_by,
}
use ops_mesh.Shared.StateMachine.{status_eq}
use ops_mesh.Shared.Severity.{severity_text}
use ops_mesh.Db.{Db, IncidentRow}
use ops_mesh.Incidents.Listed.{ListOptions, is_wanted, is_resolved, ordered}

-- How many elements satisfy a test.
abbrev pub count_where {ℓ} : {A : Type ℓ} → (A → Bool) → List A → ℕ
count_where p [] = 0
count_where p (x ∷ xs) = let rest = count_where p xs in if p x then 1 + rest else rest

-- An unresolved incident comes before a resolved one; else the newer comes first.
abbrev pub IsBefore : IncidentRow → IncidentRow → Type 0
IsBefore i k =
    ((is_resolved i ≡ false) × (is_resolved k ≡ true))
    ⊎ ((is_resolved i ≡ is_resolved k) × (k.created_at ≤ i.created_at))

abbrev pub IsInOrder : List IncidentRow → Type 0
IsInOrder [] = Unit
IsInOrder (i ∷ rows) = All (IsBefore i) rows × IsInOrder rows

abbrev given : Option String → String → Bool
given none value = true
given (some wanted) value = wanted == "" || value == wanted

-- Each filter that is given, and not empty, admits the rows with that value.
abbrev pub passes : ListOptions → IncidentRow → Bool
passes o i =
    (elim o.status [ none ↦ true | some s ↦ i.status == s ])
    && given o.severity (severity_text i.severity)
    && given o.service_id i.service_id
    && (elim i.assigned_engineer_id [
      | none ↦ (elim o.assignee_id [ none ↦ true | some a ↦ a == "" ])
      | some e ↦ given o.assignee_id e
    ])

module _ (p : IncidentRow → Bool) where
  count-append :
      (xs ys : List IncidentRow) → count_where p (xs ++ ys) ≡ count_where p xs + count_where p ys
  count-append [] ys = omega arith
  count-append (x ∷ xs) ys = ground (arith, count-append xs ys)

  count-insert :
      (x : IncidentRow) (ys : List IncidentRow)
      → count_where p (insert_desc_by (λ i. i.created_at) x ys) ≡ count_where p (x ∷ ys)
  count-insert x [] = refl
  count-insert x (y ∷ ys) = ground (arith, count-insert x ys)

  count-sort :
      (xs : List IncidentRow)
      → count_where p (sort_desc_by (λ i. i.created_at) xs) ≡ count_where p xs
  count-sort [] = refl
  count-sort (x ∷ xs) =
      ground (arith, count-insert x (sort_desc_by (λ i. i.created_at) xs), count-sort xs)

  count_parts :
      (rows : List IncidentRow)
      → count_where p (filter (λ i. not (is_resolved i)) rows)
          + count_where p (filter is_resolved rows)
        ≡ count_where p rows
  count_parts [] = refl
  count_parts (i ∷ rows) = ground (arith, count_parts rows)

  pub count-ordered : (rows : List IncidentRow) → count_where p (ordered rows) ≡ count_where p rows
  unfolding ordered
  count-ordered rows =
      let open_rows = filter (λ i. not (is_resolved i)) rows in
      let closed_rows = filter is_resolved rows in
      omega (
        arith,
        count-append (sort_desc_by (λ i. i.created_at) open_rows)
            (sort_desc_by (λ i. i.created_at) closed_rows),
        count-sort open_rows,
        count-sort closed_rows,
        count_parts rows,
      )

wanted_passes : (o : ListOptions) (i : IncidentRow) → is_wanted o i ≡ passes o i
wanted_passes o i = ground arith

pub count-wanted :
    (p : IncidentRow → Bool) (o : ListOptions) (rows : List IncidentRow)
    → count_where p (filter (is_wanted o) rows) ≡ count_where (λ i. passes o i && p i) rows
count-wanted p o [] = refl
count-wanted p o (i ∷ rows) = elim (Bool-cases (passes o i)) [
  | inl e ↦ rw (wanted_passes o i, e) (ground (arith, count-wanted p o rows))
  | inr e ↦ rw (wanted_passes o i, e) (count-wanted p o rows)
]

-- Newest first, in one of the two parts.
abbrev IsNewestFirst : Bool → List IncidentRow → Type 0
IsNewestFirst b [] = Unit
IsNewestFirst b (i ∷ rows) =
    (is_resolved i ≡ b) × All (λ k. k.created_at ≤ i.created_at) rows × IsNewestFirst b rows

All-insert :
    (P : IncidentRow → Type 0) (x : IncidentRow) (ys : List IncidentRow)
    → P x
    → All P ys
    → All P (insert_desc_by (λ i. i.created_at) x ys)
All-insert P x [] h hs = (h, tt)
All-insert P x (y ∷ ys) h (hy, hs) = ground (arith, All-insert P x ys h hs)

All-older :
    (a b : ℕ) (rows : List IncidentRow)
    → a ≤ b
    → All (λ k. k.created_at ≤ a) rows
    → All (λ k. k.created_at ≤ b) rows
All-older a b [] le h = tt
All-older a b (x ∷ xs) le (h, hs) = (omega (arith, h, le), All-older a b xs le hs)

insert_newest :
    (b : Bool) (x : IncidentRow) (ys : List IncidentRow)
    → is_resolved x ≡ b
    → IsNewestFirst b ys
    → IsNewestFirst b (insert_desc_by (λ i. i.created_at) x ys)
insert_newest b x [] e h = (e, tt, tt)
insert_newest b x (y ∷ ys) e (ey, older, h) = elim (Bool-cases (leb y.created_at x.created_at)) [
  | inl le ↦
      let below : y.created_at ≤ x.created_at = ground (arith, le) in
      rw le (e, (below, All-older y.created_at x.created_at ys below older), (ey, older, h))
  | inr gt ↦
      let above : x.created_at ≤ y.created_at = ground (arith, gt) in
      rw gt (
        ey,
        All-insert (λ k. k.created_at ≤ y.created_at) x ys above older,
        insert_newest b x ys e h,
      )
]

sort_newest :
    (b : Bool) (rows : List IncidentRow)
    → All (λ i. is_resolved i ≡ b) rows
    → IsNewestFirst b (sort_desc_by (λ i. i.created_at) rows)
sort_newest b [] h = tt
sort_newest b (x ∷ xs) (e, h) = insert_newest b x _ e (sort_newest b xs h)

part_precedes :
    (b : Bool) (i : IncidentRow) (rows : List IncidentRow)
    → is_resolved i ≡ b
    → All (λ k. k.created_at ≤ i.created_at) rows
    → IsNewestFirst b rows
    → All (IsBefore i) rows
part_precedes b i [] e older h = tt
part_precedes b i (k ∷ rows) e (le, older) (ek, _, h) =
    (inr (e ∙ sym ek, le), part_precedes b i rows e older h)

closed_precedes :
    (i : IncidentRow) (rows : List IncidentRow)
    → is_resolved i ≡ false
    → IsNewestFirst true rows
    → All (IsBefore i) rows
closed_precedes i [] e h = tt
closed_precedes i (k ∷ rows) e (ek, _, h) = (inl (e, ek), closed_precedes i rows e h)

part_listed : (b : Bool) (rows : List IncidentRow) → IsNewestFirst b rows → IsInOrder rows
part_listed b [] h = tt
part_listed b (i ∷ rows) (e, older, h) = (part_precedes b i rows e older h, part_listed b rows h)

parts_listed :
    (open_rows closed_rows : List IncidentRow)
    → IsNewestFirst false open_rows
    → IsNewestFirst true closed_rows
    → IsInOrder (open_rows ++ closed_rows)
parts_listed [] closed_rows h k = part_listed true closed_rows k
parts_listed (i ∷ rows) closed_rows (e, older, h) k = (
  All-append (IsBefore i) rows closed_rows (part_precedes false i rows e older h)
      (closed_precedes i closed_rows e k),
  parts_listed rows closed_rows h k,
)

open_part :
    (rows : List IncidentRow)
    → All (λ i. is_resolved i ≡ false) (filter (λ i. not (is_resolved i)) rows)
open_part [] = tt
open_part (i ∷ rows) = elim (Bool-cases (is_resolved i)) [
  | inl e ↦ rw e (open_part rows)
  | inr e ↦ rw e (e, open_part rows)
]

closed_part : (rows : List IncidentRow) → All (λ i. is_resolved i ≡ true) (filter is_resolved rows)
closed_part [] = tt
closed_part (i ∷ rows) = elim (Bool-cases (is_resolved i)) [
  | inl e ↦ rw e (e, closed_part rows)
  | inr e ↦ rw e (closed_part rows)
]

pub ordered-IsInOrder : (rows : List IncidentRow) → IsInOrder (ordered rows)
unfolding ordered
ordered-IsInOrder rows =
    parts_listed _ _ (sort_newest false (filter (λ i. not (is_resolved i)) rows) (open_part rows))
      (sort_newest true (filter is_resolved rows) (closed_part rows))
