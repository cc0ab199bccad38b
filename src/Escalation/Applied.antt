-- ===== src/Escalation/Applied.antt =====
-- From a policy that was created to the steps of the worker.
use ops_mesh.Base.{
  ℕ, ◌≡◌, refl, sym, ◌∙◌, ap, subst, All, Bool, true, false, some, List, [], ◌∷◌, ◌++◌, String,
  ◌==◌, string_eq, ◌||◌, any, filter, map, sort_by, arith, eq_refl, Bool-cases, inl, inr,
}
use mathlib.Core.List.{append-nil, append_assoc}
use ops_mesh.Db.{Db, IncidentRow, PolicyRow}
use ops_mesh.Errors.{Result, ok, err}
use ops_mesh.World.Transaction.{ending, transaction-result}
use ops_mesh.Escalation.{is_text, Runtime, policies_of, steps_of, steps_for_incident}
use ops_mesh.Escalation.Policies.{
  NewStep, NewPolicy, step_row, policy_row, references, is_bound_to, insert_policy, is_level,
  insert_steps, with_steps, committed, policy_tx, create_policy, newest, or_team_policy, owns,
  owner_is, resolve_policy_for_service, load_policy_steps,
}

filter-snoc {ℓ} :
    {A : Type ℓ} (p : A → Bool) (xs ys : List A) → filter p (xs ++ ys) ≡ filter p xs ++ filter p ys
filter-snoc p [] ys = refl
filter-snoc p (x ∷ xs) ys = elim (Bool-cases (p x)) [
  | inl e ↦ rw e (ap (λ l. x ∷ l) (filter-snoc p xs ys))
  | inr e ↦ rw e (filter-snoc p xs ys)
]

filter_none {ℓ} : {A : Type ℓ} (p : A → Bool) (xs : List A) → any p xs ≡ false → filter p xs ≡ []
filter_none p [] h = refl
filter_none p (x ∷ xs) h = ground (arith, filter_none p xs)

filter_steps :
    (id : String) (steps : List NewStep)
    → filter (λ s. s.policy_id == id) (map (step_row id) steps) ≡ map (step_row id) steps
filter_steps id [] = refl
filter_steps id (s ∷ steps) = ground (arith, eq_refl id, filter_steps id steps)

abbrev from_ok : Db → Result Db → Db
from_ok d (ok db) = db
from_ok d (err e) = d

inserted_steps :
    (db db1 : Db) (id : String) (steps : List NewStep)
    → insert_steps db id steps ≡ ok db1
    → (db1.steps ≡ db.steps ++ map (step_row id) steps)
      × (db1.policies ≡ db.policies)
      × (db1.services ≡ db.services)
unfolding insert_steps
inserted_steps db db1 id [] h =
    let same : db1 ≡ db = sym (ap (from_ok db) h) in
    (
      ap (λ d. d.steps) same ∙ sym (append-nil db.steps),
      ap (λ d. d.policies) same,
      ap (λ d. d.services) same,
    )
inserted_steps db db1 id (s ∷ steps) h = elim (Bool-cases (any (is_level id s.level) db.steps)) [
  | inl taken ↦ absurd (ground (arith, rw taken at h))
  | inr free ↦
      let (rows, policies, services) =
        inserted_steps (record db { steps = db.steps ++ step_row id s ∷ [] }) db1 id steps
          (rw free at h) in
      (
        rows ∙ append_assoc db.steps (step_row id s ∷ []) (map (step_row id) steps),
        policies,
        services,
      )
]

inserted_policy :
    (db db1 : Db) (p : NewPolicy) (id : String) (now : ℕ)
    → insert_policy db p id now ≡ ok db1
    → (any (λ q. q.id == id || is_bound_to p.service_id q) db.policies ≡ false)
      × (db1 ≡ record db { policies = db.policies ++ policy_row p id now ∷ [] })
inserted_policy db db1 p id now h =
    elim (Bool-cases (any (λ q. q.id == id || is_bound_to p.service_id q) db.policies)) [
      | inl taken ↦ absurd (ground (arith, rw taken at h))
      | inr free ↦ elim (Bool-cases (references db p)) [
        | inl there ↦ (free, sym (ap (from_ok db) (rw (free, there) at h)))
        | inr gone ↦ absurd (ground (arith, rw (free, gone) at h))
      ]
    ]

-- What a creation that succeeded went through.
created_policy :
    (db db1 : Db) (p : NewPolicy) (id : String) (now : ℕ)
    → create_policy db p id now ≡ (db1, ok id)
    → (any (λ q. q.id == id || is_bound_to p.service_id q) db.policies ≡ false)
      × (db1.policies ≡ db.policies ++ policy_row p id now ∷ [])
      × (db1.steps ≡ db.steps ++ map (step_row id) p.steps)
      × (db1.services ≡ db.services)
unfolding create_policy
created_policy db db1 p id now h =
    first (insert_policy db p id now) refl
      (sym (transaction-result (policy_tx p id now) db (policy_tx p id now db) refl) ∙ h)
  where
    second :
        (dbA : Db)
        → insert_policy db p id now ≡ ok dbA
        → (r : Result Db) → insert_steps dbA id p.steps ≡ r
        → ending db (committed id r) ≡ (db1, ok id)
        → (any (λ q. q.id == id || is_bound_to p.service_id q) db.policies ≡ false)
          × (db1.policies ≡ db.policies ++ policy_row p id now ∷ [])
          × (db1.steps ≡ db.steps ++ map (step_row id) p.steps)
          × (db1.services ≡ db.services)
    second dbA made (err e) run h = absurd (ground (arith, h))
    second dbA made (ok dbB) run h =
        let (free, same) = inserted_policy db dbA p id now made in
        let (steps, policies, services) = inserted_steps dbA dbB id p.steps run in
        let this : db1 ≡ dbB = sym (ap (λ r. r.0) h) in
        (
          free,
          ap (λ d. d.policies) this ∙ policies ∙ ap (λ d. d.policies) same,
          ap (λ d. d.steps) this ∙ steps ∙ ap (λ d. d.steps ++ map (step_row id) p.steps) same,
          ap (λ d. d.services) this ∙ services ∙ ap (λ d. d.services) same,
        )

    first :
        (r : Result Db)
        → insert_policy db p id now ≡ r
        → ending db (committed id (with_steps id p.steps r)) ≡ (db1, ok id)
        → (any (λ q. q.id == id || is_bound_to p.service_id q) db.policies ≡ false)
          × (db1.policies ≡ db.policies ++ policy_row p id now ∷ [])
          × (db1.steps ≡ db.steps ++ map (step_row id) p.steps)
          × (db1.services ≡ db.services)
    first (err e) made h = absurd (ground (arith, h))
    first (ok dbA) made h = second dbA made (insert_steps dbA id p.steps) refl h

any_weaker {ℓ} :
    {A : Type ℓ} (p q : A → Bool) (xs : List A)
    → any (λ x. p x || q x) xs ≡ false
    → any q xs ≡ false
any_weaker p q [] h = refl
any_weaker p q (x ∷ xs) h = ground (arith, any_weaker p q xs)

-- The policies of the service are the new one alone.
own_policies :
    (db db1 : Db) (p : NewPolicy) (id service_id : String) (now : ℕ)
    → p.service_id ≡ some service_id
    → any (λ q. q.id == id || is_bound_to p.service_id q) db.policies ≡ false
    → db1.policies ≡ db.policies ++ policy_row p id now ∷ []
    → filter (λ q. is_text service_id q.service_id) db1.policies ≡ policy_row p id now ∷ []
own_policies db db1 p id service_id now bound free rows =
    let mine : is_text service_id p.service_id ≡ true = rw bound (eq_refl service_id) in
    let others : any (λ q. is_text service_id q.service_id) db.policies ≡ false =
      any_weaker (λ q. q.id == id) (λ q. is_text service_id q.service_id) db.policies
        (ap (λ b. any (λ q. q.id == id || is_bound_to b q) db.policies) (sym bound) ∙ free) in
    ap (filter (λ q. is_text service_id q.service_id)) rows
    ∙ filter-snoc (λ q. is_text service_id q.service_id) db.policies (policy_row p id now ∷ [])
    ∙ ap (λ l. l ++ filter (λ q. is_text service_id q.service_id) (policy_row p id now ∷ []))
        (filter_none (λ q. is_text service_id q.service_id) db.policies others)
    ∙ rw mine refl

All-filter_one {ℓ} :
    {A : Type ℓ} (p : A → Bool) (a : A) (xs : List A)
    → filter p xs ≡ []
    → All (λ q. q ≡ a) (filter p (xs ++ a ∷ []))
All-filter_one p a xs none_of =
    subst (All (λ q. q ≡ a))
      (sym (filter-snoc p xs (a ∷ []) ∙ ap (λ l. l ++ filter p (a ∷ [])) none_of)) last
  where
    last : All (λ q. q ≡ a) (filter p (a ∷ []))
    last = elim (Bool-cases (p a)) [ inl e ↦ rw e (refl, tt) | inr e ↦ rw e tt ]

-- Where a service's team has no policy yet, a policy that is created for the service applies to it
-- at once: the API resolves the service to it, its steps are those of the request by level, and the
-- worker escalates the incidents of the service by exactly these steps, if a query with LIMIT 1 whose
-- rows are all the same gives that row.
pub create_policy-steps :
    (rt : Runtime) (db db1 : Db) (p : NewPolicy) (id : String) (now : ℕ) (incident : IncidentRow)
    → ((q : PolicyRow) (qs : List PolicyRow) → All (λ x. x ≡ q) qs → rt.choose (q ∷ qs) ≡ some q)
    → create_policy db p id now ≡ (db1, ok id)
    → p.service_id ≡ some incident.service_id
    → any (λ s. s.policy_id == id) db.steps ≡ false
    → any (owner_is db incident.service_id) db.policies ≡ false
    → (resolve_policy_for_service db1 incident.service_id ≡ some (policy_row p id now))
      × (load_policy_steps db1 id ≡ sort_by (λ s. s.level) (map (step_row id) p.steps))
      × (steps_for_incident rt db1 incident ≡ sort_by (λ s. s.level) (map (step_row id) p.steps))
unfolding resolve_policy_for_service load_policy_steps steps_for_incident policies_of
create_policy-steps rt db db1 p id now incident limit made bound fresh teamless =
    let (free, rows, steps, services) = created_policy db db1 p id now made in
    let own = own_policies db db1 p id incident.service_id now bound free rows in
    let of_team : PolicyRow → Bool = owner_is db1 incident.service_id in
    let others : filter of_team db.policies ≡ [] =
      filter_none of_team db.policies
        (ap (λ l. any (λ q. any (owns incident.service_id q) l) db.policies) services ∙ teamless) in
    let same : All (λ x. x ≡ policy_row p id now) (filter of_team db1.policies) =
      subst (λ l. All (λ x. x ≡ policy_row p id now) (filter of_team l)) (sym rows)
        (All-filter_one of_team (policy_row p id now) db.policies others) in
    let loaded : filter (λ s. s.policy_id == id) db1.steps ≡ map (step_row id) p.steps =
      ap (filter (λ s. s.policy_id == id)) steps
      ∙ filter-snoc (λ s. s.policy_id == id) db.steps (map (step_row id) p.steps)
      ∙ ap (λ l. l ++ filter (λ s. s.policy_id == id) (map (step_row id) p.steps))
          (filter_none (λ s. s.policy_id == id) db.steps fresh)
      ∙ filter_steps id p.steps in
    (
      ap (λ l. or_team_policy db1 incident.service_id (newest (λ q. q.updated_at) l)) own,
      ap (sort_by (λ s. s.level)) loaded,
      ap (λ l. steps_of db1 (rt.choose (l ++ filter of_team db1.policies))) own
          ∙ ap (steps_of db1) (limit (policy_row p id now) (filter of_team db1.policies) same)
          ∙ ap (sort_by (λ s. s.level)) loaded,
    )
