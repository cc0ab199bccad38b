-- ===== src/Processor/Invariant.antt =====
-- What the processor keeps of the database: the constraints of its tables, and that the event count of
-- an incident is the number of its links.
use ops_mesh.Base.{
  ℕ, ◌≡◌, refl, ◌∙◌, ap, Bool, true, false, none, some, List, [], ◌∷◌, ◌++◌, String, ◌==◌,
  string_eq, find, any, update_where, All, arith, eq_iff, eq_refl, Bool-cases, inl, inr, All-append,
}
use ops_mesh.Db.{IncidentRow, LinkRow, has_id}
use ops_mesh.Incidents.Keys.{IsKeyed, update_where-IsKeyed}
use ops_mesh.Processor.{is_link, counted, has_key}
use ops_mesh.Processor.Tables.{
  IsDedupeUnique, IsLinkSet, links_of, IsDedupeUnique-update, IsDedupeUnique-append, IsKeyed-append,
  IsLinkSet-append, links_of-append,
}

-- The count of an incident is the number of its links.
abbrev pub IsCounted : List LinkRow → IncidentRow → Type 0
IsCounted links r = r.event_count ≡ links_of r.id links

-- A link refers to an incident.
abbrev pub IsAttached : List IncidentRow → LinkRow → Type 0
IsAttached rs l = any (has_id l.incident_id) rs ≡ true

pub record IsLinked (incidents : List IncidentRow) (links : List LinkRow) : Type 0 where
  pub keyed : IsKeyed incidents
  pub unique : IsDedupeUnique incidents
  pub link_set : IsLinkSet links
  pub attached : All (IsAttached incidents) links
  pub counts : All (IsCounted links) incidents

any-update :
    (i : String) (p : IncidentRow → Bool) (f : IncidentRow → IncidentRow)
    → ((r : IncidentRow) → (f r).id ≡ r.id)
    → (rs : List IncidentRow) → any (has_id i) (update_where p f rs) ≡ any (has_id i) rs
any-update i p f keep [] = refl
any-update i p f keep (r ∷ rs) = ground (arith, keep r, any-update i p f keep rs)

IsAttached-map :
    (rs rs' : List IncidentRow)
    → ((i : String) → any (has_id i) rs ≡ true → any (has_id i) rs' ≡ true)
    → (ls : List LinkRow) → All (IsAttached rs) ls
    → All (IsAttached rs') ls
IsAttached-map rs rs' f [] h = tt
IsAttached-map rs rs' f (l ∷ ls) (h, hs) = (f l.incident_id h, IsAttached-map rs rs' f ls hs)

any-append_id :
    (i : String) (rs : List IncidentRow) (x : IncidentRow)
    → any (has_id i) rs ≡ true
    → any (has_id i) (rs ++ x ∷ []) ≡ true
any-append_id i [] x h = absurd (ground arith)
any-append_id i (r ∷ rs) x h = ground (arith, any-append_id i rs x)

any-append_own : (rs : List IncidentRow) (x : IncidentRow) → any (has_id x.id) (rs ++ x ∷ []) ≡ true
any-append_own [] x = ground (arith, eq_refl x.id)
any-append_own (r ∷ rs) x = ground (arith, any-append_own rs x)

module _ (now : ℕ) (x : LinkRow) where
  -- A new link and the count of its incident.
  counts-link :
      (ls : List LinkRow) (rs : List IncidentRow)
      → All (IsCounted ls) rs
      → All (IsCounted (ls ++ x ∷ [])) (update_where (has_id x.incident_id) (counted now) rs)
  counts-link ls [] h = tt
  counts-link ls (r ∷ rs) (h, hs) = (
    ground (arith, links_of-append r.id ls x, eq_iff x.incident_id r.id, eq_iff r.id x.incident_id),
    counts-link ls rs hs,
  )

  pub IsLinked-link :
      (rs : List IncidentRow) (ls : List LinkRow)
      → IsLinked rs ls
      → any (has_id x.incident_id) rs ≡ true
      → any (λ m. is_link x.incident_id x.event_id m.incident_id m.event_id) ls ≡ false
      → IsLinked (update_where (has_id x.incident_id) (counted now) rs) (ls ++ x ∷ [])
  IsLinked-link rs ls s here new = record {
    keyed = update_where-IsKeyed x.incident_id (counted now) (λ r. refl) rs s.keyed;
    unique = IsDedupeUnique-update (has_id x.incident_id) (counted now) (λ r. refl) rs s.unique;
    link_set = IsLinkSet-append ls x new s.link_set;
    attached =
        All-append (IsAttached (update_where (has_id x.incident_id) (counted now) rs)) ls (x ∷ [])
          (IsAttached-map rs (update_where (has_id x.incident_id) (counted now) rs)
            (λ i h. any-update i (has_id x.incident_id) (counted now) (λ r. refl) rs ∙ h) ls
            s.attached)
          (any-update x.incident_id (has_id x.incident_id) (counted now) (λ r. refl) rs ∙ here, tt);
    counts = counts-link ls rs s.counts;
  }

-- An incident that no link refers to has no links.
unlinked :
    (rs : List IncidentRow) (ls : List LinkRow) (id : String)
    → any (has_id id) rs ≡ false
    → All (IsAttached rs) ls
    → links_of id ls ≡ 0
unlinked rs [] id new h = refl
unlinked rs (l ∷ ls) id new (h, hs) = elim (Bool-cases (l.incident_id == id)) [
  | inl e ↦ absurd (clash (ap (λ i. any (has_id i) rs) ((eq_iff l.incident_id id).0 e)))
  | inr e ↦ rw e (unlinked rs ls id new hs)
]
  where
    clash : any (has_id l.incident_id) rs ≡ any (has_id id) rs → ⊥
    clash e = ground (arith, e, h, new)

unlinked_pair :
    (id event : String) (ls : List LinkRow)
    → links_of id ls ≡ 0
    → any (λ m. is_link id event m.incident_id m.event_id) ls ≡ false
unlinked_pair id event [] h = refl
unlinked_pair id event (l ∷ ls) h = ground (arith, unlinked_pair id event ls)

counts-other :
    (ls : List LinkRow) (x : LinkRow) (rs : List IncidentRow)
    → any (has_id x.incident_id) rs ≡ false
    → All (IsCounted ls) rs
    → All (IsCounted (ls ++ x ∷ [])) rs
counts-other ls x [] new h = tt
counts-other ls x (r ∷ rs) new (h, hs) = (
  ground (arith, links_of-append r.id ls x, eq_iff x.incident_id r.id, eq_iff r.id x.incident_id),
  counts-other ls x rs (ground arith) hs,
)

pub IsLinked-create :
    (key : String) (x : IncidentRow) (event : String) (rs : List IncidentRow) (ls : List LinkRow)
    → IsLinked rs ls
    → x.dedupe_key ≡ some key
    → x.event_count ≡ 1
    → find (has_key key) rs ≡ none
    → any (has_id x.id) rs ≡ false
    → IsLinked (rs ++ x ∷ []) (ls ++ record { incident_id = x.id; event_id = event } ∷ [])
IsLinked-create key x event rs ls s named one free new =
    let l : LinkRow = record { incident_id = x.id; event_id = event } in
    let empty = unlinked rs ls x.id new s.attached in
    record {
      keyed = IsKeyed-append rs x new s.keyed;
      unique = IsDedupeUnique-append key rs x named free s.unique;
      link_set = IsLinkSet-append ls l (unlinked_pair x.id event ls empty) s.link_set;
      attached =
          All-append (IsAttached (rs ++ x ∷ [])) ls (l ∷ [])
            (IsAttached-map rs (rs ++ x ∷ []) (λ i. any-append_id i rs x) ls s.attached)
            (any-append_own rs x, tt);
      counts =
          All-append (IsCounted (ls ++ l ∷ [])) rs (x ∷ []) (counts-other ls l rs new s.counts)
            (ground (arith, links_of-append x.id ls l, empty, one, eq_refl x.id), tt);
    }
