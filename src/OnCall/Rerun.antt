-- ===== src/OnCall/Rerun.antt =====
-- What a second run of materializeShifts in a week does.
use ops_mesh.Base.{
  any-snoc, any-both, any-filter, any-left, ℕ, ◌+◌, ◌*◌, ◌/◌, ◌<◌, ◌≤◌, ◌≡◌, refl, ◌∙◌, ap, Bool,
  true, false, not, Option, none, some, List, [], ◌∷◌, String, string_eq, ◌&&◌, ◌||◌, any, All,
  filter, is_some, arith, Bool-cases, inl, inr, eq_refl, ◌⊎◌,
}
use ops_mesh.Db.{Db, ScheduleRow, ShiftRow}
use ops_mesh.Errors.{Thrown, other, ok, err}
use ops_mesh.Processor.Create.{has_user_id}
use ops_mesh.OnCall.{
  day_ms, week_start, week_index, active_user, has_shift_id, shift_key, shift_of, inserted,
  with_shift, violates, fails, materialize_one, materialize_all, is_kept, materialize_shifts,
}
use ops_mesh.OnCall.Weeks.{week_start_lem}

module _ (iso : ℕ → String) (now later db_now db_later : ℕ) where
  abbrev has_key : ScheduleRow → ShiftRow → Bool
  has_key s r = has_shift_id (shift_key iso s (week_start now)) r

  -- What stands under the key of a schedule for this week does not expire before the second run's deletion.
  abbrev pub IsWeekly : List ShiftRow → Type 0
  IsWeekly shifts =
      (s : ScheduleRow) → any (λ r. has_key s r && not (is_kept iso db_later r)) shifts ≡ false

  -- A schedule that has a user this week has a shift that is there, and will be.
  abbrev IsCovered : List ShiftRow → ScheduleRow → Type 0
  IsCovered shifts s =
      (not (is_some (active_user s.rotation_order (week_index now)))
        || any (λ r. has_key s r && is_kept iso db_later r) shifts)
      ≡ true

  inserted-keeps :
      (p : ShiftRow → Bool) (q : List ShiftRow × ℕ) (row : ShiftRow) (b : Bool)
      → any p q.0 ≡ true
      → any p (inserted iso q row b).0 ≡ true
  inserted-keeps p q row true h = h
  inserted-keeps p (shifts, n) row false h = any-snoc p shifts row ∙ ground (arith, h)

  inserted-avoids :
      (p : ShiftRow → Bool) (q : List ShiftRow × ℕ) (row : ShiftRow) (b : Bool)
      → p row ≡ false
      → any p q.0 ≡ false
      → any p (inserted iso q row b).0 ≡ false
  inserted-avoids p q row true new h = h
  inserted-avoids p (shifts, n) row false new h = any-snoc p shifts row ∙ ground (arith, h, new)

  materialize_one-keeps :
      (p : ShiftRow → Bool) (q : List ShiftRow × ℕ) (s : ScheduleRow)
      → any p q.0 ≡ true
      → any p (materialize_one iso q s now).0 ≡ true
  unfolding materialize_one
  materialize_one-keeps p q s h = go (active_user s.rotation_order (week_index now))
    where
      go : (o : Option String) → any p (with_shift iso q s now o).0 ≡ true
      go none = h
      go (some u) = inserted-keeps p q (shift_of iso s u now) (any (has_key s) q.0) h

  materialize_one-IsWeekly :
      (q : List ShiftRow × ℕ) (s : ScheduleRow)
      → db_later ≤ week_start now + 37 * day_ms
      → IsWeekly q.0
      → IsWeekly (materialize_one iso q s now).0
  unfolding materialize_one
  materialize_one-IsWeekly q s soon weekly s' = go (active_user s.rotation_order (week_index now))
    where
      go :
          (o : Option String)
          → any (λ r. has_key s' r && not (is_kept iso db_later r)) (with_shift iso q s now o).0
            ≡ false
      go none = weekly s'
      go (some u) =
          inserted-avoids (λ r. has_key s' r && not (is_kept iso db_later r)) q
            (shift_of iso s u now) (any (has_key s) q.0) (ground arith) (weekly s')

  inserted-covers :
      (q : List ShiftRow × ℕ) (s : ScheduleRow) (u : String) (b : Bool)
      → any (has_key s) q.0 ≡ b
      → db_later ≤ week_start now + 37 * day_ms
      → IsWeekly q.0
      → any (λ r. has_key s r && is_kept iso db_later r) (inserted iso q (shift_of iso s u now) b).0
        ≡ true
  inserted-covers q s u true h soon weekly =
      any-both (has_key s) (is_kept iso db_later) q.0 h (weekly s)
  inserted-covers (shifts, n) s u false h soon weekly =
      any-snoc (λ r. has_key s r && is_kept iso db_later r) shifts (shift_of iso s u now)
      ∙ ground (arith, eq_refl (shift_key iso s (week_start now)))

  materialize_one-IsCovered :
      (q : List ShiftRow × ℕ) (s : ScheduleRow)
      → db_later ≤ week_start now + 37 * day_ms
      → IsWeekly q.0
      → IsCovered (materialize_one iso q s now).0 s
  unfolding materialize_one
  materialize_one-IsCovered q s soon weekly = go (active_user s.rotation_order (week_index now))
    where
      go :
          (o : Option String)
          → (not (is_some o)
              || any (λ r. has_key s r && is_kept iso db_later r) (with_shift iso q s now o).0)
            ≡ true
      go none = refl
      go (some u) = inserted-covers q s u (any (has_key s) q.0) refl soon weekly

  IsCovered-keeps :
      (q : List ShiftRow × ℕ) (s t : ScheduleRow)
      → IsCovered q.0 t
      → IsCovered (materialize_one iso q s now).0 t
  IsCovered-keeps q s t h =
      elim (Bool-cases (is_some (active_user t.rotation_order (week_index now)))) [
        | inl e ↦
            let kept =
              materialize_one-keeps (λ r. has_key t r && is_kept iso db_later r) q s
                (ground (arith, e, h)) in
            ground (arith, e, kept)
        | inr e ↦ ground (arith, e)
      ]

  materialize_all-keeps :
      (schedules : List ScheduleRow) (q : List ShiftRow × ℕ) (t : ScheduleRow)
      → IsCovered q.0 t
      → IsCovered (materialize_all iso q schedules now).0 t
  unfolding materialize_all
  materialize_all-keeps [] q t h = h
  materialize_all-keeps (s ∷ schedules) q t h =
      materialize_all-keeps schedules (materialize_one iso q s now) t (IsCovered-keeps q s t h)

  materialize_all-IsCovered :
      (schedules : List ScheduleRow) (q : List ShiftRow × ℕ)
      → db_later ≤ week_start now + 37 * day_ms
      → IsWeekly q.0
      → All (IsCovered (materialize_all iso q schedules now).0) schedules
  unfolding materialize_all
  materialize_all-IsCovered [] q soon weekly = tt
  materialize_all-IsCovered (s ∷ schedules) q soon weekly =
      let next = materialize_one iso q s now in
      (
        materialize_all-keeps schedules next s (materialize_one-IsCovered q s soon weekly),
        materialize_all-IsCovered schedules next soon (materialize_one-IsWeekly q s soon weekly),
      )

  -- The deletion of old shifts keeps what covers a schedule.
  IsCovered-filter :
      (shifts : List ShiftRow) (s : ScheduleRow)
      → db_now ≤ db_later
      → IsCovered shifts s
      → IsCovered (filter (is_kept iso db_now) shifts) s
  IsCovered-filter shifts s le h =
      elim (Bool-cases (is_some (active_user s.rotation_order (week_index now)))) [
        | inl e ↦
            let kept =
              any-filter (λ r. has_key s r && is_kept iso db_later r) (is_kept iso db_now) shifts
                (λ r there. ground arith) (ground (arith, e, h)) in
            ground (arith, e, kept)
        | inr e ↦ ground (arith, e)
      ]

  materialize_one-covered :
      (q : List ShiftRow × ℕ) (s : ScheduleRow)
      → week_start later ≡ week_start now
      → IsCovered q.0 s
      → materialize_one iso q s later ≡ q
  unfolding materialize_one week_index
  materialize_one-covered q s same h =
      ap (λ w. with_shift iso q s later (active_user s.rotation_order (w / (7 * day_ms)))) same
      ∙ go (active_user s.rotation_order (week_index now)) h
    where
      go :
          (o : Option String)
          → (not (is_some o) || any (λ r. has_key s r && is_kept iso db_later r) q.0) ≡ true
          → with_shift iso q s later o ≡ q
      go none h = refl
      go (some u) h = ap (inserted iso q (shift_of iso s u later)) (
          ap (λ w. any (has_shift_id (shift_key iso s w)) q.0) same
          ∙ any-left (has_key s) (is_kept iso db_later) q.0 h)

  materialize_all-covered :
      (schedules : List ScheduleRow) (q : List ShiftRow × ℕ)
      → week_start later ≡ week_start now
      → All (IsCovered q.0) schedules
      → materialize_all iso q schedules later ≡ q
  unfolding materialize_all
  materialize_all-covered [] q same h = refl
  materialize_all-covered (s ∷ schedules) q same (h, rest) =
      ap (λ p. materialize_all iso p schedules later) (materialize_one-covered q s same h)
      ∙ materialize_all-covered schedules q same rest

  materialize_one-same :
      (q : List ShiftRow × ℕ) (s : ScheduleRow)
      → week_start later ≡ week_start now
      → materialize_one iso q s later ≡ materialize_one iso q s now
  unfolding materialize_one week_index
  materialize_one-same q s same =
      ap (λ w. with_shift iso q s later (active_user s.rotation_order (w / (7 * day_ms)))) same
      ∙ go (active_user s.rotation_order (week_index now))
    where
      go : (o : Option String) → with_shift iso q s later o ≡ with_shift iso q s now o
      go none = refl
      go (some u) =
          ap
            (λ w.
              inserted iso q
                (record {
                  id = shift_key iso s w;
                  schedule_id = s.id;
                  user_id = u;
                  starts_at = w;
                  ends_at = w + 7 * day_ms;
                })
                (any (has_shift_id (shift_key iso s w)) q.0))
            same

  violates-same :
      (db : Db) (q : List ShiftRow × ℕ) (s : ScheduleRow)
      → week_start later ≡ week_start now
      → violates iso db q s later (active_user s.rotation_order (week_index later))
        ≡ violates iso db q s now (active_user s.rotation_order (week_index now))
  unfolding week_index
  violates-same db q s same =
      ap (λ w. violates iso db q s later (active_user s.rotation_order (w / (7 * day_ms)))) same
      ∙ go (active_user s.rotation_order (week_index now))
    where
      go : (o : Option String) → violates iso db q s later o ≡ violates iso db q s now o
      go none = refl
      go (some u) =
          ap
            (λ w.
              not (any (has_shift_id (shift_key iso s w)) q.0)
              && not (any (has_user_id u) db.users))
            same

  -- What fails once in a week fails again.
  fails-same :
      (db : Db) (schedules : List ScheduleRow) (q : List ShiftRow × ℕ)
      → week_start later ≡ week_start now
      → fails iso db q schedules later ≡ fails iso db q schedules now
  unfolding fails
  fails-same db [] q same = refl
  fails-same db (s ∷ schedules) q same =
      ap (λ b. b || fails iso db (materialize_one iso q s later) schedules later)
        (violates-same db q s same)
      ∙ ap (λ b. violates iso db q s now (active_user s.rotation_order (week_index now)) || b)
          (ap (λ p. fails iso db p schedules later) (materialize_one-same q s same)
            ∙ fails-same db schedules (materialize_one iso q s now) same)

  violates-covered :
      (db : Db) (q : List ShiftRow × ℕ) (s : ScheduleRow)
      → IsCovered q.0 s
      → violates iso db q s now (active_user s.rotation_order (week_index now)) ≡ false
  violates-covered db q s h = go (active_user s.rotation_order (week_index now)) h
    where
      go :
          (o : Option String)
          → (not (is_some o) || any (λ r. has_key s r && is_kept iso db_later r) q.0) ≡ true
          → violates iso db q s now o ≡ false
      go none h = refl
      go (some u) h =
          let there : any (has_key s) q.0 ≡ true =
            any-left (has_key s) (is_kept iso db_later) q.0 h in
          rw there refl

  -- Nothing is inserted where every schedule is covered, so nothing fails.
  fails-covered :
      (db : Db) (schedules : List ScheduleRow) (q : List ShiftRow × ℕ)
      → week_start later ≡ week_start now
      → All (IsCovered q.0) schedules
      → fails iso db q schedules later ≡ false
  unfolding fails
  fails-covered db [] q same h = refl
  fails-covered db (s ∷ schedules) q same (h, rest) =
      ap (λ b. b || fails iso db (materialize_one iso q s later) schedules later)
        (violates-same db q s same ∙ violates-covered db q s h)
      ∙ ap (λ p. fails iso db p schedules later) (materialize_one-covered q s same h)
      ∙ fails-covered db schedules q same rest

  schedules_kept :
      (shifts : List ShiftRow) (schedules : List ScheduleRow)
      → db_now ≤ db_later
      → All (IsCovered shifts) schedules
      → All (IsCovered (filter (is_kept iso db_now) shifts)) schedules
  schedules_kept shifts [] le h = tt
  schedules_kept shifts (s ∷ schedules) le (h, rest) =
      (IsCovered-filter shifts s le h, schedules_kept shifts schedules le rest)

  again_covered :
      (db : Db)
      → week_start later ≡ week_start now
      → db_now ≤ db_later
      → db_later ≤ week_start now + 37 * day_ms
      → IsWeekly db.shifts
      → (let shifts =
            filter (is_kept iso db_now) (materialize_all iso (db.shifts, 0) db.schedules now).0 in
          materialize_shifts iso (record db { shifts = shifts }) later db_later
          ≡ (record db { shifts = filter (is_kept iso db_later) shifts }, ok 0))
  unfolding materialize_shifts
  again_covered db same le soon weekly =
      let made = (materialize_all iso (db.shifts, 0) db.schedules now).0 in
      let shifts : List ShiftRow = filter (is_kept iso db_now) made in
      let covered =
        schedules_kept made db.schedules le
          (materialize_all-IsCovered db.schedules (db.shifts, 0) soon weekly) in
      let fine =
        fails-covered (record db { shifts = shifts }) db.schedules (shifts, 0) same covered in
      let kept = materialize_all-covered db.schedules (shifts, 0) same covered in
      rw fine (ap (λ p. (record db { shifts = filter (is_kept iso db_later) p.0 }, ok p.1)) kept)

  -- Run again in the same week, the worker adds no shift, and only deletes those that have expired by
  -- the database's clock, if what stands under this week's key of a schedule does not expire before the
  -- second run; unless the first run fails: then it changes nothing, and the second one fails as well.
  pub materialize_shifts_again :
      (db : Db)
      → 4 * day_ms ≤ now
      → now ≤ later
      → later < week_start now + 7 * day_ms
      → db_now ≤ db_later
      → db_later ≤ week_start now + 37 * day_ms
      → IsWeekly db.shifts
      → (let first = materialize_shifts iso db now db_now in
          let second = materialize_shifts iso first.0 later db_later in
          ((n : ℕ) × (first.1 ≡ ok n)
            × (second
                ≡ (record first.0 { shifts = filter (is_kept iso db_later) first.0.shifts }, ok 0)))
          ⊎ ((e : Thrown) × (first ≡ (db, err e)) × (second ≡ (db, err e))))
  unfolding materialize_shifts
  materialize_shifts_again db early le soon db_le db_soon weekly =
      elim (Bool-cases (fails iso db (db.shifts, 0) db.schedules now)) [
        | inl e ↦
            let e' : fails iso db (db.shifts, 0) db.schedules later ≡ true =
              fails-same db db.schedules (db.shifts, 0) same ∙ e in
            inr (other "foreign key violation", rw e refl, rw (e, e') refl)
        | inr e ↦ inl (
          (materialize_all iso (db.shifts, 0) db.schedules now).1,
          rw e refl,
          rw e (unfold materialize_shifts in again_covered db same db_le db_soon weekly),
        )
      ]
    where
      same : week_start later ≡ week_start now
      same =
          let above : week_start now ≤ later = unfold week_start in omega arith in
          let (_, _, same, _) = week_start_lem now later early above soon in same
