-- ===== src/OnCall.antt =====
-- apps/worker/src/modules/oncall/on-call.worker.ts: weekStart, weekIndex and materializeShifts. Times
-- are from the first Monday of 1970 on, so that the start of a week is a natural number.
pub mod Disagree
pub mod Rerun
pub mod Routes
pub mod Weeks
use ops_mesh.Base.{
  ℕ, ◌+◌, ◌-◌, ◌*◌, Bool, true, false, not, Option, none, some, List, [], ◌∷◌, ◌++◌, String, ◌==◌,
  string_eq, ◌/◌, ◌%◌, zero, suc, if◌then◌else◌, ◌||◌, ◌&&◌, any, filter, length, leb, ltb,
}
use ops_mesh.Db.{Db, ScheduleRow, ShiftRow}
use ops_mesh.Errors.{other, Result, ok, err}
use ops_mesh.Processor.Create.{has_user_id}
use ops_mesh.World.{text}

abbrev pub day_ms : ℕ
day_ms = 86400000

-- `getUTCDay`: the days since Sunday; the day 0 was a Thursday.
abbrev pub utc_day : ℕ → ℕ
utc_day now = (now / day_ms + 4) % 7

unfoldable pub week_start : ℕ → ℕ
week_start now = let day = (utc_day now + 6) % 7 in (now / day_ms - day) * day_ms

unfoldable pub week_index : ℕ → ℕ
week_index now = week_start now / (7 * day_ms)

abbrev pub nth_user : List String → ℕ → Option String
nth_user [] n = none
nth_user (u ∷ users) zero = some u
nth_user (u ∷ users) (suc n) = nth_user users n

-- `order[wi % order.length]`, unless the order is empty or the user's id is.
unfoldable pub active_user : List String → ℕ → Option String
active_user [] wi = none
active_user (u ∷ users) wi = elim (nth_user (u ∷ users) (wi % length (u ∷ users))) [
  | none ↦ none
  | some id ↦ if id == "" then none else some id
]

abbrev pub has_shift_id : String → ShiftRow → Bool
has_shift_id id s = s.id == id

-- How `toISOString` writes a time is the language's own.
module _ (iso : ℕ → String) where
  abbrev pub shift_key : ScheduleRow → ℕ → String
  shift_key s start = text (s.id ∷ ":" ∷ iso start ∷ [])

  abbrev pub shift_of : ScheduleRow → String → ℕ → ShiftRow
  shift_of s user_id now = record {
    id = shift_key s (week_start now);
    schedule_id = s.id;
    user_id = user_id;
    starts_at = week_start now;
    ends_at = week_start now + 7 * day_ms;
  }

  -- The insertion of a shift, if its key is not there, and the count. Where the insertion fails, the whole
  -- run does, by `fails` below.
  abbrev pub inserted : List ShiftRow × ℕ → ShiftRow → (existing : Bool) → List ShiftRow × ℕ
  inserted p row true = p
  inserted (shifts, n) row false = (shifts ++ row ∷ [], n + 1)

  abbrev pub with_shift : List ShiftRow × ℕ → ScheduleRow → ℕ → Option String → List ShiftRow × ℕ
  with_shift p s now none = p
  with_shift p s now (some user_id) =
      inserted p (shift_of s user_id now) (any (has_shift_id (shift_key s (week_start now))) p.0)

  unfoldable pub materialize_one : List ShiftRow × ℕ → ScheduleRow → ℕ → List ShiftRow × ℕ
  materialize_one p s now = with_shift p s now (active_user s.rotation_order (week_index now))

  unfoldable pub materialize_all : List ShiftRow × ℕ → List ScheduleRow → ℕ → List ShiftRow × ℕ
  materialize_all p [] now = p
  materialize_all p (s ∷ schedules) now = materialize_all (materialize_one p s now) schedules now

  -- The insertion of a shift whose user is gone violates its reference.
  abbrev pub violates : Db → List ShiftRow × ℕ → ScheduleRow → ℕ → Option String → Bool
  violates db p s now none = false
  violates db p s now (some user_id) =
      not (any (has_shift_id (shift_key s (week_start now))) p.0)
      && not (any (has_user_id user_id) db.users)

  unfoldable pub fails : Db → List ShiftRow × ℕ → List ScheduleRow → ℕ → Bool
  fails db p [] now = false
  fails db p (s ∷ schedules) now =
      let rest = fails db (materialize_one p s now) schedules now in
      violates db p s now (active_user s.rotation_order (week_index now)) || rest

  -- Shifts that ended more than thirty days ago, by the database's `now()`, are deleted.
  abbrev pub is_kept : ℕ → ShiftRow → Bool
  is_kept db_now s = not (ltb (s.ends_at + 30 * day_ms) db_now)

  -- One run: the insertions and the deletion are one transaction, which a failure rolls back.
  unfoldable pub materialize_shifts : Db → (now db_now : ℕ) → Db × Result ℕ
  materialize_shifts db now db_now =
      if fails db (db.shifts, 0) db.schedules now
      then (db, err (other "foreign key violation"))
      else let (shifts, n) = materialize_all (db.shifts, 0) db.schedules now in
        (record db { shifts = filter (is_kept db_now) shifts }, ok n)
