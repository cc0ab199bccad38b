-- ===== src/OnCall/Routes.antt =====
-- apps/api/src/modules/oncall/oncall.routes.ts: the engineer on call by the API, and the schedules. The
-- local time of a time zone (tzOffsetMinutes, over Intl) is an argument, in milliseconds from 1970 on.
use Prim.Native.Char.{Char, code}
use ops_mesh.Base.{
  ℕ, ◌+◌, ◌-◌, ◌*◌, ◌/◌, ◌%◌, Bool, true, false, not, Option, none, some, List, [], ◌∷◌, ◌++◌,
  String, ◌==◌, string_eq, if◌then◌else◌, ◌&&◌, ◌||◌, any, find, filter, map, length, leb, ltb,
  split,
}
use ops_mesh.Db.{Db, ScheduleRow, UserRow}
use ops_mesh.Errors.{app, other, Result, ok, err, validation_error, not_found_error}
use ops_mesh.OnCall.{day_ms, nth_user}

-- `Number` of a text of digits; none for NaN.
abbrev pub digit : Char → Option ℕ
digit c = if leb b'0' (code c) && leb (code c) b'9' then some (code c - b'0') else none

abbrev pub add_digit : Option ℕ → Option ℕ → Option ℕ
add_digit none d = none
add_digit (some n) none = none
add_digit (some n) (some d) = some (n * 10 + d)

unfoldable pub digits_from : Option ℕ → String → Option ℕ
digits_from acc String.[] = acc
digits_from acc (String.◌∷◌ c s) = digits_from (add_digit acc (digit c)) s

-- `h * 60 + m`; none where a part is missing or NaN.
abbrev pub minutes_of : List String → Option ℕ
minutes_of [] = none
minutes_of (h ∷ []) = none
minutes_of (h ∷ m ∷ rest) = elim (digits_from (some 0) h) [
  | none ↦ none
  | some hours ↦ elim (digits_from (some 0) m) [
    | none ↦ none
    | some minutes ↦ some (hours * 60 + minutes)
  ]
]

unfoldable pub hour_to_minutes : String → Option ℕ
unfolding digits_from
hour_to_minutes hhmm = minutes_of (split b':' hhmm)

-- Every comparison with NaN fails.
unfoldable pub is_inside : ℕ → Option ℕ → Option ℕ → Bool
is_inside local none end_ = false
is_inside local (some start) none = leb start local && false
is_inside local (some start) (some end_) =
    if leb start end_ then leb start local && ltb local end_ else leb start local || ltb local end_

abbrev pub api_week_index : ℕ → ℕ
api_week_index local = local / day_ms / 7

-- `rotationOrder[weekIndex % rotationOrder.length]`
abbrev pub rotated : List String → ℕ → Option String
rotated order wi = nth_user order (wi % length order)

module _ (local_of : (timezone : String) → ℕ → ℕ) where
  unfoldable pub compute_active_engineer :
      List String → (timezone start_time end_time : String) → ℕ → Option String
  compute_active_engineer [] timezone start_time end_time now = none
  compute_active_engineer (u ∷ order) timezone start_time end_time now =
      let local = local_of timezone now in
      if is_inside (local / 60000 % 1440) (hour_to_minutes start_time) (hour_to_minutes end_time)
      then rotated (u ∷ order) (api_week_index local)
      else none

  -- What POST and GET /current answer.
  pub record OnCallReply : Type 0 where
    pub schedule_id : String
    pub schedule_name : String
    pub active : Option UserRow
    pub rotation : List String
    pub as_of : ℕ

  abbrev pub is_given : Option String → Bool
  is_given none = false
  is_given (some s) = not (s == "")

  abbrev pub is_wanted : Option String → Option String → ScheduleRow → Bool
  is_wanted none none s = true
  is_wanted none (some team) s = s.team_id == team
  is_wanted (some id) none s = s.id == id
  is_wanted (some id) (some team) s = s.id == id && s.team_id == team

  -- The join: a row for each user in the rotation of a schedule.
  abbrev pub paired_with : ScheduleRow → List UserRow → List (ScheduleRow × UserRow)
  paired_with s users =
      map (λ u. (s, u)) (filter (λ u. any (λ id. id == u.id) s.rotation_order) users)

  abbrev pub joined : List ScheduleRow → List UserRow → List (ScheduleRow × UserRow)
  joined [] users = []
  joined (s ∷ schedules) users = paired_with s users ++ joined schedules users

  abbrev pub user_of : Option String → List (ScheduleRow × UserRow) → Option UserRow
  user_of none rows = none
  user_of (some id) rows = elim (find (λ r. r.1.id == id) rows) [
    | none ↦ none
    | some (s, u) ↦ some u
  ]

  abbrev pub reply_of_rows : List (ScheduleRow × UserRow) → ℕ → Result OnCallReply
  reply_of_rows [] now = err (app (not_found_error "No matching schedule"))
  reply_of_rows ((s, u) ∷ rows) now = ok (record {
    schedule_id = s.id;
    schedule_name = s.name;
    active =
        user_of (compute_active_engineer s.rotation_order s.timezone s.start_time s.end_time now)
          ((s, u) ∷ rows);
    rotation = s.rotation_order;
    as_of = now;
  })

  -- GET /current
  unfoldable pub get_current : Db → (schedule_id team_id : Option String) → ℕ → Result OnCallReply
  get_current db schedule_id team_id now =
      reply_of_rows (joined (filter (is_wanted schedule_id team_id) db.schedules) db.users) now

  -- POST /current, which wants one of the two; an empty text counts as missing.
  unfoldable pub post_current : Db → (schedule_id team_id : Option String) → ℕ → Result OnCallReply
  unfolding get_current
  post_current db schedule_id team_id now =
      if is_given schedule_id || is_given team_id
      then get_current db schedule_id team_id now
      else err
          (app (record (validation_error "Provide scheduleId or teamId") { status_code = 400 }))

-- POST /schedules, with the reference and the key of the table.
unfoldable pub create_schedule : Db → ScheduleRow → Db × Result ScheduleRow
create_schedule db s =
    if any (λ t. t.id == s.id) db.schedules
    then (db, err (other "unique violation"))
    else if any (λ t. t.id == s.team_id) db.teams
    then (record db { schedules = db.schedules ++ s ∷ [] }, ok s)
    else (db, err (other "foreign key violation"))

-- DELETE /schedules/:id, which deletes the shifts of the schedule as well.
unfoldable pub delete_schedule : Db → String → Db × Result (Unit {0})
delete_schedule db id =
    if any (λ s. s.id == id) db.schedules
    then (
      record db {
        schedules = filter (λ s. not (s.id == id)) db.schedules;
        shifts = filter (λ s. not (s.schedule_id == id)) db.shifts;
      },
      ok tt,
    )
    else (db, err (app (not_found_error "Schedule not found")))
