-- ===== src/Escalation/Safety.antt =====
-- Which incidents a poll of the escalation worker changes, and how.
use mathlib.Core.Option
use ops_mesh.Base.{
  ℕ, ◌+◌, ◌≡◌, refl, sym, ◌∙◌, ap, subst, true, Option, none, some, List, [], ◌∷◌, String, ◌==◌,
  string_eq, if◌then◌else◌, find, any, update_where, All, All-filter_holds, All-take, All-sort_by,
  All-find, arith, eq_iff, Bool-cases, inl, inr, ◌⊎◌, eq_refl,
}
use ops_mesh.Types.{NotificationChannel}
use ops_mesh.Shared.StateMachine.{status_eq}
use ops_mesh.Db.{Db, IncidentRow, StepRow, has_id}
use ops_mesh.Errors.{ok, err, other}
use ops_mesh.World.{World, transaction}
use ops_mesh.World.Transaction.{transaction-result}
use ops_mesh.Incidents.Rows.{get_incident}
use ops_mesh.Incidents.Keys.{IsKeyed, find-has_id}
use ops_mesh.Incidents.Lifecycle.{get_incident-update_where}
use ops_mesh.Escalation.{
  Runtime, steps_for_incident, next_step, is_candidate, is_due, find_due_incidents,
}
use ops_mesh.Escalation.Step.{
  Target, resolve_target, target_id, next_engineer, raised, enqueue_steps, write_step, escalate_tx,
  announced, stepped, escalate_once, escalate_all, add_done, poll,
}
use ops_mesh.Escalation.Keyed.{IsKeyed-filter, IsKeyed-take, IsKeyed-sort}

lift_rows :
    (r : IncidentRow) (rs xs : List IncidentRow)
    → find (has_id r.id) rs ≡ none
    → All (λ d. find (has_id d.id) rs ≡ some d) xs
    → All (λ d. find (has_id d.id) (r ∷ rs) ≡ some d) xs
lift_rows r rs [] new h = tt
lift_rows r rs (x ∷ xs) new (h, hs) = (here, lift_rows r rs xs new hs)
  where
    here : find (has_id x.id) (r ∷ rs) ≡ some x
    here = elim (Bool-cases (r.id == x.id)) [
      | inl e ↦
          let g = sym new ∙ ap (λ i. find (has_id i) rs) ((eq_iff r.id x.id).0 e) ∙ h in
          absurd (ground (arith, g))
      | inr e ↦ rw e h
    ]

-- A stored row is the one that is found by its id.
own_rows : (rs : List IncidentRow) → IsKeyed rs → All (λ d. find (has_id d.id) rs ≡ some d) rs
own_rows [] k = tt
own_rows (r ∷ rs) (new, k) = (rw (eq_refl r.id) refl, lift_rows r rs rs new (own_rows rs k))

module _ (rt : Runtime) where
  enqueue_steps-incidents :
      (incident : IncidentRow) (step : StepRow) (to : String) (now : ℕ)
      (channels : List NotificationChannel) (ids : ℕ → String) (db : Db)
      → (enqueue_steps rt db incident step to ids now channels).incidents ≡ db.incidents
  enqueue_steps-incidents incident step to now [] ids db = refl
  enqueue_steps-incidents incident step to now (c ∷ channels) ids db =
      enqueue_steps-incidents incident step to now channels (λ n. ids (1 + n)) _

  pub write_step-incidents :
      (db : Db) (incident : IncidentRow) (step : StepRow) (target : Option Target)
      (ids : ℕ → String) (now : ℕ)
      → (write_step rt db incident step target ids now).incidents
        ≡ update_where
            (has_id incident.id)
            (raised (next_engineer (target_id target) incident.assigned_engineer_id) now)
            db.incidents
  unfolding write_step
  write_step-incidents db incident step target ids now =
      enqueue_steps-incidents incident step _ now step.notify_channels ids _

  -- One incident, raised or left as it is.
  abbrev pub IsRaised : ℕ → IncidentRow → IncidentRow → Type 0
  IsRaised now r r' = (engineer : Option String) × (r' ≡ raised engineer now r)

  -- An escalation of one row changes the stored row of its id at most, and raises that at most once.
  pub escalate_once-row :
      (w : World) (incident : IncidentRow) (ids : ℕ → String) (now : ℕ) (q : String)
      → (get_incident (escalate_once rt w incident ids now).0.db q ≡ get_incident w.db q)
        ⊎ ((q ≡ incident.id)
            × ((engineer : Option String) × (get_incident
                    (escalate_once rt w incident ids now).0.db
                    q
                  ≡ Option.map (raised engineer now) (get_incident w.db q))))
  unfolding escalate_once
  escalate_once-row w incident ids now q =
      go (next_step (steps_for_incident rt w.db incident) incident)
    where
      raise :
          (step : StepRow) (target : Option Target)
          → get_incident (write_step rt w.db incident step target ids now) q ≡ (
              if q == incident.id
              then Option.map
                  (raised (next_engineer (target_id target) incident.assigned_engineer_id) now)
                  (get_incident w.db q)
              else get_incident w.db q)
      raise step target =
          get_incident-update_where w.db (write_step rt w.db incident step target ids now)
            incident.id
            (raised (next_engineer (target_id target) incident.assigned_engineer_id) now) q
            (write_step-incidents w.db incident step target ids now) (λ r. unfold raised in refl)

      fire :
          (step : StepRow) (target : Option Target)
          → (let d =
                announced rt w incident
                  (transaction (escalate_tx rt incident step target ids now) w.db) in
              (get_incident d.0.db q ≡ get_incident w.db q)
              ⊎ ((q ≡ incident.id)
                  × ((engineer : Option String) × (get_incident d.0.db q
                        ≡ Option.map (raised engineer now) (get_incident w.db q)))))
      fire step target = elim (Bool-cases (any (has_id incident.id) w.db.incidents)) [
        | inr e ↦
            let t =
              transaction-result (escalate_tx rt incident step target ids now) w.db
                (err (other "foreign key violation")) (unfold escalate_tx in rw e refl) in
            inl (ap (λ d. get_incident (announced rt w incident d).0.db q) t)
        | inl e ↦
            let t =
              transaction-result (escalate_tx rt incident step target ids now) w.db
                (ok (write_step rt w.db incident step target ids now, tt))
                (unfold escalate_tx in rw e refl) in
            let s = ap (λ d. get_incident (announced rt w incident d).0.db q) t in
            elim (Bool-cases (q == incident.id)) [
              | inl same ↦ inr (
                (eq_iff q incident.id).0 same,
                (
                  next_engineer (target_id target) incident.assigned_engineer_id,
                  s ∙ raise step target ∙ rw same refl,
                ),
              )
              | inr differs ↦ inl (s ∙ raise step target ∙ rw differs refl)
            ]
      ]

      go :
          (o : Option StepRow)
          → (let d = stepped rt w incident ids now o in
              (get_incident d.0.db q ≡ get_incident w.db q)
              ⊎ ((q ≡ incident.id)
                  × ((engineer : Option String) × (get_incident d.0.db q
                        ≡ Option.map (raised engineer now) (get_incident w.db q)))))
      go none = inl refl
      go (some step) = fire step (resolve_target w.db step.target_type step.target_id now)

  -- A run over rows with different ids raises each at most once, and nothing else.
  escalate_all-row :
      (due : List IncidentRow) (w : World) (ids : ℕ → ℕ → String) (now n : ℕ) (q : String)
      → IsKeyed due
      → (get_incident (escalate_all rt w due ids now n).0.db q ≡ get_incident w.db q)
        ⊎ ((d : IncidentRow) × (find (has_id q) due ≡ some d)
            × ((engineer : Option String) × (get_incident (escalate_all rt w due ids now n).0.db q
                  ≡ Option.map (raised engineer now) (get_incident w.db q))))
  unfolding escalate_all
  escalate_all-row [] w ids now n q k = inl refl
  escalate_all-row (d ∷ due) w ids now n q (new, k) = elim (escalate_once-row w d (ids 0) now q) [
    | inl e ↦ elim (escalate_all-row due w' rest now m q k) [
      | inl e' ↦ inl (e' ∙ e)
      | inr (x, f, (engineer, e')) ↦
          inr (x, other x f, (engineer, e' ∙ ap (Option.map (raised engineer now)) e))
    ]
    | inr (same, (engineer, e)) ↦ elim (escalate_all-row due w' rest now m q k) [
      | inl e' ↦ inr (d, rw ((eq_iff d.id q).1 (sym same)) refl, (engineer, e' ∙ e))
      | inr (x, f, _) ↦ absurd (clash x same f)
    ]
  ]
    where
      w' : World
      w' = (escalate_once rt w d (ids 0) now).0

      m : ℕ
      m = add_done rt n (escalate_once rt w d (ids 0) now).1

      rest : ℕ → ℕ → String
      rest k = ids (1 + k)

      clash : (x : IncidentRow) → q ≡ d.id → find (has_id q) due ≡ some x → ⊥
      clash x same f =
          let g = sym new ∙ ap (λ i. find (has_id i) due) (sym same) ∙ f in ground (arith, g)

      other : (x : IncidentRow) → find (has_id q) due ≡ some x → find (has_id q) (d ∷ due) ≡ some x
      other x f = elim (Bool-cases (d.id == q)) [
        | inl e ↦ absurd (clash x (sym ((eq_iff d.id q).0 e)) f)
        | inr e ↦ rw e f
      ]

  -- Read by one poll, a due incident is a candidate whose delay is over, and its row is the stored one.
  due_rows :
      (db : Db) (now : ℕ)
      → IsKeyed db.incidents
      → All
          (λ d.
            ((get_incident db d.id ≡ some d) × (is_candidate d ≡ true))
            × (is_due rt db now d ≡ true))
          (find_due_incidents rt db now)
  unfolding find_due_incidents get_incident
  due_rows db now k = All-filter_holds _ (is_due rt db now) _ (
      All-take _ 50 _ (
        All-sort_by (λ r. r.created_at) _ _
          (All-filter_holds _ is_candidate db.incidents (own_rows db.incidents k))))

  -- The candidates whose delay is over are raised, the others are as they were.
  pub poll-raised :
      (w : World) (ids : ℕ → ℕ → String) (now : ℕ) (q : String) (r : IncidentRow)
      → IsKeyed w.db.incidents
      → get_incident w.db q ≡ some r
      → (r' : IncidentRow) × (get_incident (poll rt w ids now).0.db q ≡ some r')
        × ((r' ≡ r)
            ⊎ ((is_candidate r ≡ true)
                × (is_due rt w.db now r ≡ true)
                × ((engineer : Option String) × (r' ≡ raised engineer now r))))
  unfolding poll
  poll-raised w ids now q r k h =
      let due = find_due_incidents rt w.db now in
      elim (escalate_all-row due w ids now 0 q (due_keyed w now k)) [
        | inl e ↦ (r, e ∙ h, inl refl)
        | inr (d, f, (engineer, e)) ↦
            let here = same_row d (find-has_id q due d f) (due_row due d (due_rows w.db now k) f) in
            (
              raised engineer now r,
              e ∙ ap (Option.map (raised engineer now)) h,
              inr (here.0, here.1, (engineer, refl)),
            )
      ]
    where
      due_keyed :
          (w : World) (now : ℕ) → IsKeyed w.db.incidents → IsKeyed (find_due_incidents rt w.db now)
      due_keyed w now k =
          unfold find_due_incidents in
          IsKeyed-filter (is_due rt w.db now) _ (
            IsKeyed-take 50 _
              (IsKeyed-sort (λ r. r.created_at) _ (IsKeyed-filter is_candidate w.db.incidents k)))

      due_row :
          (due : List IncidentRow) (d : IncidentRow)
          → All
              (λ d.
                ((get_incident w.db d.id ≡ some d) × (is_candidate d ≡ true))
                × (is_due rt w.db now d ≡ true))
              due
          → find (has_id q) due ≡ some d
          → ((get_incident w.db d.id ≡ some d) × (is_candidate d ≡ true))
            × (is_due rt w.db now d ≡ true)
      due_row due d all f = All-find _ (has_id q) due d all f

      option_both : Option IncidentRow → Type 0
      option_both none = Unit
      option_both (some r) = (is_candidate r ≡ true) × (is_due rt w.db now r ≡ true)

      same_row :
          (d : IncidentRow)
          → d.id ≡ q
          → ((get_incident w.db d.id ≡ some d) × (is_candidate d ≡ true))
            × (is_due rt w.db now d ≡ true)
          → (is_candidate r ≡ true) × (is_due rt w.db now r ≡ true)
      same_row d e ((got, c), u) =
          let g = sym got ∙ ap (get_incident w.db) e ∙ h in subst (λ o. option_both o) g (c, u)
