-- ===== src/Processor/OnDuty.antt =====
-- Whom event.processor.ts, activeEngineerForTeam, makes the engineer of a new incident.
use mathlib.Core.List.{Memᴰ}
use ops_mesh.Base.{
  ℕ, ◌≤◌, ◌≡◌, refl, ◌∙◌, Bool, true, false, none, some, List, [], ◌∷◌, ◌⊎◌, inl, inr, String, ◌==◌,
  string_eq, ◌&&◌, any, filter, find, leb, ltb, All, arith, Bool-cases, eq_iff,
}
use ops_mesh.Types.{admin, engineer, viewer}
use ops_mesh.Db.{Db, UserRow, ShiftRow, ServiceRow}
use ops_mesh.Processor.{has_service_id}
use ops_mesh.Processor.Create.{
  least_by, has_user_id, in_team, is_responder, active_engineer_for_team, on_call_engineer,
}

-- One element is least among those of a list that satisfy a test.
abbrev pub IsLeast {ℓ} : {A : Type ℓ} → (A → ℕ) → (A → Bool) → List A → A → Type ℓ
IsLeast f p xs a = Memᴰ a xs × (p a ≡ true) × All (λ x. (p x ≡ false) ⊎ (f a ≤ f x)) xs

module _ {ℓ} {A : Type ℓ} (f : A → ℕ) (p : A → Bool) where
  all_above :
      (a b : A) (xs : List A)
      → f a ≤ f b
      → All (λ x. (p x ≡ false) ⊎ (f b ≤ f x)) xs
      → All (λ x. (p x ≡ false) ⊎ (f a ≤ f x)) xs
  all_above a b [] le h = tt
  all_above a b (x ∷ xs) le (inl off, hs) = (inl off, all_above a b xs le hs)
  all_above a b (x ∷ xs) le (inr above, hs) =
      (inr (omega (arith, le, above)), all_above a b xs le hs)

  all_out : (a : A) (xs : List A) → any p xs ≡ false → All (λ x. (p x ≡ false) ⊎ (f a ≤ f x)) xs
  all_out a [] h = tt
  all_out a (x ∷ xs) h = (inl (ground (arith, h)), all_out a xs (ground (arith, h)))

  least_by-filter :
      (xs : List A)
      → ((least_by f (filter p xs) ≡ none) × (any p xs ≡ false))
        ⊎ ((a : A) × (least_by f (filter p xs) ≡ some a) × IsLeast f p xs a)
  least_by-filter [] = inl (refl, refl)
  least_by-filter (x ∷ xs) = elim (Bool-cases (p x)) [
    | inr e ↦ elim (least_by-filter xs) [
      | inl (h, out) ↦ inl (rw e h, rw e out)
      | inr (a, h, (m, pa, above)) ↦ inr (a, rw e h, (Memᴰ.tail m, pa, (inl e, above)))
    ]
    | inl e ↦ elim (least_by-filter xs) [
      | inl (h, out) ↦
          inr (x, rw (e, h) refl, (Memᴰ.head refl, e, (inr (omega arith), all_out x xs out)))
      | inr (a, h, (m, pa, above)) ↦ elim (Bool-cases (leb (f x) (f a))) [
        | inl le ↦
            let below : f x ≤ f a = ground (arith, le) in
            inr (
              x,
              rw (e, h, le) refl,
              (Memᴰ.head refl, e, (inr (omega arith), all_above x a xs below above)),
            )
        | inr gt ↦
            let over : f a ≤ f x = ground (arith, gt) in
            inr (a, rw (e, h, gt) refl, (Memᴰ.tail m, pa, (inr over, above)))
      ]
    ]
  ]

found_user :
    (id : String) (us : List UserRow)
    → any (has_user_id id) us ≡ true
    → (u : UserRow) × (find (has_user_id id) us ≡ some u) × Memᴰ u us × (u.id ≡ id)
found_user id [] h = absurd (ground (arith, h))
found_user id (u ∷ us) h = elim (Bool-cases (u.id == id)) [
  | inl e ↦ (u, rw e refl, Memᴰ.head refl, (eq_iff u.id id).0 e)
  | inr e ↦
      let (v, found, m, same) = found_user id us (ground (arith, e, h)) in
      (v, rw e found, Memᴰ.tail m, same)
]

-- A shift of one of the team's schedules that runs now, of a user who exists.
abbrev pub covers : Db → String → ℕ → ShiftRow → Bool
covers db team now s =
    (leb s.starts_at now && ltb now s.ends_at)
    && any (λ sc. sc.id == s.schedule_id && sc.team_id == team) db.schedules
    && any (λ u. u.id == s.user_id) db.users

-- An active member of the team who may respond.
abbrev pub can_respond : String → UserRow → Bool
can_respond team u =
    (elim u.team_id [ none ↦ false | some t ↦ t == team ])
    && (elim u.role [ admin ↦ true | engineer ↦ true | viewer ↦ false ])
    && u.is_active

can_respond-same :
    (team : String) (u : UserRow)
    → (in_team team u.team_id && is_responder u.role && u.is_active) ≡ can_respond team u
can_respond-same team u = ground arith

filter_same {ℓ} :
    {A : Type ℓ} (p q : A → Bool) (xs : List A) → ((x : A) → p x ≡ q x) → filter p xs ≡ filter q xs
filter_same p q [] same = refl
filter_same p q (x ∷ xs) same = ground (arith, same x, filter_same p q xs same)

-- The engineer on call for a service, which is of a team: the user of the shift that covers now and
-- ends first, if some shift of the team's schedules does; else the member of the team who may respond
-- and whose account is oldest, if there is one; else nobody.
pub on_call_engineer_lem :
    (db : Db) (id : String) (service : ServiceRow) (team : String) (now : ℕ)
    → find (has_service_id id) db.services ≡ some service
    → service.owner_team_id ≡ some team
    → (team == "") ≡ false
    → ((s : ShiftRow) × IsLeast (λ x. x.ends_at) (covers db team now) db.shifts s
        × ((u : UserRow) × Memᴰ u db.users
            × (u.id ≡ s.user_id)
            × (on_call_engineer db id now ≡ some u)))
      ⊎ ((any (covers db team now) db.shifts ≡ false)
          × ((u : UserRow) × IsLeast (λ x. x.created_at) (can_respond team) db.users u
              × (on_call_engineer db id now ≡ some u)))
      ⊎ ((any (covers db team now) db.shifts ≡ false)
          × (any (can_respond team) db.users ≡ false)
          × (on_call_engineer db id now ≡ none))
unfolding active_engineer_for_team on_call_engineer
on_call_engineer_lem db id service team now known owner named =
    elim (least_by-filter (λ x. x.ends_at) (covers db team now) db.shifts) [
      | inr (s, h, least) ↦
          let there : any (has_user_id s.user_id) db.users ≡ true = ground (arith, least.1) in
          let (u, found, m, same) = found_user s.user_id db.users there in
          inl (s, least, (u, m, same, e ∙ rw (active_engineer_for_team, h) found))
      | inl (h, out) ↦ elim (least_by-filter (λ x. x.created_at) (can_respond team) db.users) [
        | inr (u, h', least) ↦
            inr (inl (out, (u, least, e ∙ rw (active_engineer_for_team, h, members) h')))
        | inl (h', nobody) ↦
            inr (inr (out, nobody, e ∙ rw (active_engineer_for_team, h, members) h'))
      ]
    ]
  where
    e : on_call_engineer db id now ≡ active_engineer_for_team db team now
    e = rw (on_call_engineer, known, owner, named) refl

    members :
        filter (λ u. in_team team u.team_id && is_responder u.role && u.is_active) db.users
        ≡ filter (can_respond team) db.users
    members = filter_same _ _ db.users (can_respond-same team)
