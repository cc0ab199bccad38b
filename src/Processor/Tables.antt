-- ===== src/Processor/Tables.antt =====
-- The constraints of the tables incidents and incident_events that the processor relies on, under an
-- update of a row and under a new row.
use ops_mesh.Base.{
  ℕ, ◌+◌, ◌≡◌, refl, sym, ◌≢◌, Bool, false, Option, none, some, List, [], ◌∷◌, ◌++◌, String, ◌==◌,
  string_eq, if◌then◌else◌, find, any, filter, length, update_where, arith, eq_iff, subst, eq_refl,
}
use ops_mesh.Db.{IncidentRow, LinkRow, has_id}
use ops_mesh.Incidents.Keys.{IsKeyed}
use ops_mesh.Processor.{has_key, is_link}

-- dedupe_key is UNIQUE, where it is not NULL.
abbrev pub KeyFree : Option String → List IncidentRow → Type 0
KeyFree none rs = Unit
KeyFree (some k) rs = find (has_key k) rs ≡ none

abbrev pub IsDedupeUnique : List IncidentRow → Type 0
IsDedupeUnique [] = Unit
IsDedupeUnique (r ∷ rs) = KeyFree r.dedupe_key rs × IsDedupeUnique rs

-- UNIQUE (incident_id, event_id)
abbrev pub IsLinkSet : List LinkRow → Type 0
IsLinkSet [] = Unit
IsLinkSet (l ∷ ls) =
    (any (λ m. is_link l.incident_id l.event_id m.incident_id m.event_id) ls ≡ false) × IsLinkSet ls

abbrev pub links_of : String → List LinkRow → ℕ
links_of id ls = length (filter (λ l. l.incident_id == id) ls)

module _ (p : IncidentRow → Bool) (f : IncidentRow → IncidentRow)
    (keep : (r : IncidentRow) → (f r).dedupe_key ≡ r.dedupe_key) where
  find-has_key-update :
      (k : String) (rs : List IncidentRow)
      → find (has_key k) rs ≡ none
      → find (has_key k) (update_where p f rs) ≡ none
  find-has_key-update k [] h = refl
  find-has_key-update k (r ∷ rs) h = ground (arith, keep r, find-has_key-update k rs)

  KeyFree-update :
      (o : Option String) (rs : List IncidentRow) → KeyFree o rs → KeyFree o (update_where p f rs)
  KeyFree-update none rs h = tt
  KeyFree-update (some k) rs h = find-has_key-update k rs h

  pub IsDedupeUnique-update :
      (rs : List IncidentRow) → IsDedupeUnique rs → IsDedupeUnique (update_where p f rs)
  IsDedupeUnique-update [] h = tt
  IsDedupeUnique-update (r ∷ rs) (free, h) = (
    subst (λ o. KeyFree o (update_where p f rs)) (sym (same r))
        (KeyFree-update r.dedupe_key rs free),
    IsDedupeUnique-update rs h,
  )
    where
      same : (r : IncidentRow) → (if p r then f r else r).dedupe_key ≡ r.dedupe_key
      same r = ground (arith, keep r)

find-append_none :
    (q : IncidentRow → Bool) (rs : List IncidentRow) (x : IncidentRow)
    → find q rs ≡ none
    → q x ≡ false
    → find q (rs ++ x ∷ []) ≡ none
find-append_none q [] x h bad = rw bad refl
find-append_none q (r ∷ rs) x h bad = ground (arith, find-append_none q rs x)

KeyFree-append :
    (o : Option String) (k : String) (rs : List IncidentRow) (x : IncidentRow)
    → x.dedupe_key ≡ some k
    → o ≢ some k
    → KeyFree o rs
    → KeyFree o (rs ++ x ∷ [])
KeyFree-append none k rs x e ne h = tt
KeyFree-append (some o) k rs x e ne h =
    find-append_none (has_key o) rs x h (ground (arith, eq_iff k o, e, ne))

pub IsDedupeUnique-append :
    (k : String) (rs : List IncidentRow) (x : IncidentRow)
    → x.dedupe_key ≡ some k
    → find (has_key k) rs ≡ none
    → IsDedupeUnique rs
    → IsDedupeUnique (rs ++ x ∷ [])
IsDedupeUnique-append k [] x e new h = (subst (λ o. KeyFree o []) (sym e) refl, tt)
IsDedupeUnique-append k (r ∷ rs) x e new (free, h) = (
  KeyFree-append r.dedupe_key k rs x e (other_key r.dedupe_key refl) free,
  IsDedupeUnique-append k rs x e (rest new) h,
)
  where
    rest : find (has_key k) (r ∷ rs) ≡ none → find (has_key k) rs ≡ none
    rest n = ground arith

    other_key : (o : Option String) → o ≡ r.dedupe_key → o ≢ some k
    other_key o e' = ground (arith, eq_refl k, new)

pub IsKeyed-append :
    (rs : List IncidentRow) (x : IncidentRow)
    → any (has_id x.id) rs ≡ false
    → IsKeyed rs
    → IsKeyed (rs ++ x ∷ [])
IsKeyed-append [] x new h = (refl, tt)
IsKeyed-append (r ∷ rs) x new (free, h) = (
  find-append_none (has_id r.id) rs x free (ground (arith, eq_iff x.id r.id, eq_iff r.id x.id)),
  IsKeyed-append rs x (ground arith) h,
)

any-append_link :
    (q : LinkRow → Bool) (ls : List LinkRow) (x : LinkRow)
    → any q ls ≡ false
    → q x ≡ false
    → any q (ls ++ x ∷ []) ≡ false
any-append_link q [] x h bad = rw bad refl
any-append_link q (l ∷ ls) x h bad = ground (arith, any-append_link q ls x)

pub IsLinkSet-append :
    (ls : List LinkRow) (x : LinkRow)
    → any (λ m. is_link x.incident_id x.event_id m.incident_id m.event_id) ls ≡ false
    → IsLinkSet ls
    → IsLinkSet (ls ++ x ∷ [])
IsLinkSet-append [] x new h = (refl, tt)
IsLinkSet-append (l ∷ ls) x new (free, h) = (
  any-append_link (λ m. is_link l.incident_id l.event_id m.incident_id m.event_id) ls x free
      (ground (
        arith,
        eq_iff x.incident_id l.incident_id,
        eq_iff l.incident_id x.incident_id,
        eq_iff x.event_id l.event_id,
        eq_iff l.event_id x.event_id,
      )),
  IsLinkSet-append ls x (ground arith) h,
)

pub links_of-append :
    (id : String) (ls : List LinkRow) (x : LinkRow)
    → links_of id (ls ++ x ∷ [])
      ≡ (if x.incident_id == id then links_of id ls + 1 else links_of id ls)
links_of-append id [] x = ground arith
links_of-append id (l ∷ ls) x = ground (arith, links_of-append id ls x)
