-- ===== src/OnCall/Weeks.antt =====
-- The weeks of the shifts.
use ops_mesh.Base.{ℕ, ◌+◌, ◌*◌, ◌<◌, ◌≤◌, ◌≡◌, arith}
use ops_mesh.OnCall.{day_ms, week_start, week_index}

-- A time lies in its week of seven days; each time of that week has the same start; and a week later,
-- the index of the rotation is one more.
pub week_start_lem :
    (now t : ℕ)
    → 4 * day_ms ≤ now
    → week_start now ≤ t
    → t < week_start now + 7 * day_ms
    → (week_start now ≤ now)
      × (now < week_start now + 7 * day_ms)
      × (week_start t ≡ week_start now)
      × (week_index (t + 7 * day_ms) ≡ week_index now + 1)
unfolding week_start week_index
week_start_lem now t le above below = (omega arith, omega arith, omega arith, omega arith)
