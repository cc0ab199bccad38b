-- ===== src/Services/Update.antt =====
-- What updateService does with the placeholders that it builds.
use ops_mesh.Base.{
  ℕ, ◌+◌, ◌≤◌, ◌<◌, ◌≡◌, refl, ◌∙◌, ap, max, true, false, Option, none, some, List, [], ◌∷◌, ◌++◌,
  String, ◌==◌, nat_eq, string_eq, if◌then◌else◌, any, is_some, length, length-append, arith,
  Bool-cases, inl, inr,
}
use ops_mesh.Db.{Db, ServiceRow}
use ops_mesh.Errors.{Result, ok, err, other}
use ops_mesh.Auth.Keys.{require_service_exists}
use ops_mesh.Sql.{Value, Sets, highest, push, collect, bound, bind_error}
use ops_mesh.Services.{
  UpdateServiceInput, Column, columns_of, check_name, refused_or, executed, audited, apply_columns,
  update_service,
}

module _ {C : Type 0} where
  -- As many parameters as the highest placeholder says.
  abbrev pub IsNumbered : Sets C × List Value → Type 0
  IsNumbered acc = highest acc.0 ≡ length acc.1

  highest-snoc :
      (sets : Sets C) (c : C) (n : ℕ) → highest (sets ++ (c, n) ∷ []) ≡ max (highest sets) n
  highest-snoc [] c n = omega arith
  highest-snoc ((d, m) ∷ sets) c n = omega (arith, highest-snoc sets c n)

  push-IsNumbered :
      (acc : Sets C × List Value) (g : C × Option Value) → IsNumbered acc → IsNumbered (push acc g)
  push-IsNumbered (sets, params) (c, none) h = h
  push-IsNumbered (sets, params) (c, some v) h =
      omega (arith, highest-snoc sets c (length params + 1), length-append params (v ∷ []))

  collect-IsNumbered :
      (acc : Sets C × List Value) (columns : List (C × Option Value))
      → IsNumbered acc
      → IsNumbered (collect acc columns)
  unfolding collect
  collect-IsNumbered acc [] h = h
  collect-IsNumbered acc (g ∷ columns) h =
      collect-IsNumbered (push acc g) columns (push-IsNumbered acc g h)

  -- The assignments are as many as the parameters, and as the columns that are given.
  push_grows :
      (acc : Sets C × List Value) (g : C × Option Value)
      → length (push acc g).1 ≡ length acc.1 + (if is_some g.1 then 1 else 0)
  push_grows (sets, params) (c, none) = omega arith
  push_grows (sets, params) (c, some v) = omega (arith, length-append params (v ∷ []))

  collect_mono :
      (acc : Sets C × List Value) (columns : List (C × Option Value))
      → length acc.1 ≤ length (collect acc columns).1
  unfolding collect
  collect_mono acc [] = omega arith
  collect_mono acc (g ∷ columns) =
      ground (arith, push_grows acc g, collect_mono (push acc g) columns)

  collect_grows :
      (acc : Sets C × List Value) (columns : List (C × Option Value))
      → any (λ g. is_some g.1) columns ≡ true
      → length acc.1 < length (collect acc columns).1
  unfolding collect
  collect_grows acc [] h = absurd (ground (arith, h))
  collect_grows acc (g ∷ columns) h = elim (Bool-cases (is_some g.1)) [
    | inl e ↦ ground (arith, e, push_grows acc g, collect_mono (push acc g) columns)
    | inr e ↦ ground (arith, e, push_grows acc g, collect_grows (push acc g) columns (rw e at h))
  ]

bound_refused :
    {C : Type 0} (sets : Sets C) (v : Value) (params : List Value)
    → highest sets ≡ length params
    → 0 < length params
    → bound sets (v ∷ params) ≡ err (other bind_error)
unfolding bound
bound_refused sets v params h pos =
    let differs : (length (v ∷ params) == max 1 (highest sets)) ≡ false = ground (arith, h, pos) in
    rw differs refl

refused :
    (db : Db) (id actor_id : String) (acc : Sets Column × List Value)
    → IsNumbered acc
    → 0 < length acc.1
    → apply_columns db id actor_id acc ≡ (db, err (other bind_error))
refused db id actor_id ([], params) h pos = absurd (omega arith)
refused db id actor_id (first ∷ rest, params) h pos =
    ap (λ r. audited db id actor_id (executed db id (first ∷ rest) (Value.text id ∷ params) r))
      (bound_refused (first ∷ rest) (Value.text id) params h pos)

-- Whatever fields an update gives, at least one: where the service exists and the name is free, the
-- database refuses the statement, since the placeholders are numbered as if the id were not the first
-- parameter, and nothing changes. So no field of a service can be changed by it.
pub update_service_refused :
    (db : Db) (id actor_id : String) (input : UpdateServiceInput)
    → require_service_exists db id ≡ ok tt
    → check_name db input.name id ≡ ok tt
    → any (λ g. is_some g.1) (columns_of input) ≡ true
    → update_service db id input actor_id ≡ (db, err (other bind_error))
unfolding update_service
update_service_refused db id actor_id input known free given =
    ap (λ r. refused_or db r (refused_or db (check_name db input.name id) ending)) known
    ∙ ap (λ r. refused_or db r ending) free
    ∙ refused db id actor_id (collect ([], []) (columns_of input))
        (collect-IsNumbered ([], []) (columns_of input) refl)
        (collect_grows ([], []) (columns_of input) given)
  where
    ending : Db × Result (Option ServiceRow)
    ending = apply_columns db id actor_id (collect ([], []) (columns_of input))

collect_none :
    {C : Type 0} (acc : Sets C × List Value) (columns : List (C × Option Value))
    → any (λ g. is_some g.1) columns ≡ false
    → collect acc columns ≡ acc
unfolding collect
collect_none acc [] h = refl
collect_none acc ((c, none) ∷ columns) h = collect_none acc columns h
collect_none acc ((c, some v) ∷ columns) h = absurd (ground (arith, h))

-- An update never changes the database, whatever its input.
pub update_service-db :
    (db : Db) (id actor_id : String) (input : UpdateServiceInput)
    → (update_service db id input actor_id).0 ≡ db
unfolding update_service
update_service-db db id actor_id input =
    refused_or-db (require_service_exists db id) _
      (refused_or-db (check_name db input.name id) _ columns)
  where
    refused_or-db :
        (r : Result (Unit {0})) (rest : Db × Result (Option ServiceRow))
        → rest.0 ≡ db
        → (refused_or db r rest).0 ≡ db
    refused_or-db (err e) rest h = refl
    refused_or-db (ok _) rest h = h

    columns : (apply_columns db id actor_id (collect ([], []) (columns_of input))).0 ≡ db
    columns = elim (Bool-cases (any (λ g. is_some g.1) (columns_of input))) [
      | inl given ↦
          ap (λ p. p.0)
            (refused db id actor_id (collect ([], []) (columns_of input))
              (collect-IsNumbered ([], []) (columns_of input) refl)
              (collect_grows ([], []) (columns_of input) given))
      | inr empty ↦
          ap (λ acc. (apply_columns db id actor_id acc).0)
            (collect_none ([], []) (columns_of input) empty)
    ]
