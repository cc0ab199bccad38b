-- ===== src/OnCall/Disagree.antt =====
-- The API and the worker on who is on call.
use ops_mesh.Base.{
  ℕ, ◌+◌, ◌-◌, ◌*◌, ◌/◌, ◌%◌, ◌<◌, ◌≤◌, ◌≡◌, ap, true, some, List, [], ◌∷◌, String, if◌then◌else◌,
  length, leb, ltb, arith,
}
use ops_mesh.OnCall.{day_ms, utc_day, week_start, week_index, nth_user}
use ops_mesh.OnCall.Routes.{
  hour_to_minutes, is_inside, api_week_index, rotated, compute_active_engineer,
}

-- A time of the day lies in a shift exactly when the minutes since the shift began are fewer than the
-- shift has; both are counted round the clock, so that a shift may go past midnight.
pub is_inside_iff :
    (local start end_ : ℕ)
    → local < 1440
    → start < 1440
    → end_ < 1440
    → is_inside local (some start) (some end_)
      ≡ ltb ((local + 1440 - start) % 1440) ((end_ + 1440 - start) % 1440)
unfolding is_inside
is_inside_iff local start end_ l s e = ground arith

-- From Thursday to Sunday the API is one week ahead of the worker.
abbrev pub ahead : ℕ → ℕ
ahead now = if leb 3 ((utc_day now + 6) % 7) then 1 else 0

weeks_apart : (now : ℕ) → 4 * day_ms ≤ now → api_week_index now ≡ week_index now + ahead now
unfolding week_index week_start
weeks_apart now le = ground arith

-- In a time zone whose local time is that of the worker, within the hours of the schedule, the API takes
-- the engineer at the worker's index from Monday to Wednesday, and the one after it from Thursday to
-- Sunday.
pub compute_active_engineer-ahead :
    (local_of : String → ℕ → ℕ) (order : List String) (timezone start_time end_time : String)
    (now : ℕ)
    → local_of timezone now ≡ now
    → 0 < length order
    → is_inside (now / 60000 % 1440) (hour_to_minutes start_time) (hour_to_minutes end_time) ≡ true
    → 4 * day_ms ≤ now
    → compute_active_engineer local_of order timezone start_time end_time now
      ≡ nth_user order ((week_index now + ahead now) % length order)
unfolding compute_active_engineer
compute_active_engineer-ahead local_of [] timezone start_time end_time now same pos inside le =
    absurd (omega arith)
compute_active_engineer-ahead local_of (u ∷ order) timezone start_time end_time now same pos inside
      le =
    rw (same, inside) (ap (rotated (u ∷ order)) (weeks_apart now le))
