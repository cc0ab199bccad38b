-- ===== src/Tests/Shifts.antt =====
-- Runs of the on-call worker.
use ops_mesh.Base.{none, split, ◌%◌, ℕ, ◌+◌, ◌≡◌, refl, [], ◌∷◌, String, filter, arith, ◌⊎◌}
use ops_mesh.Db.{Db}
use ops_mesh.Errors.{Thrown, Result, ok, err}
use ops_mesh.OnCall.{
  nth_user, week_start, week_index, is_kept, active_user, materialize_one, materialize_all, fails,
  materialize_shifts,
}
use ops_mesh.OnCall.Rerun.{materialize_shifts_again}
use ops_mesh.OnCall.Routes.{hour_to_minutes, is_inside, compute_active_engineer}
use ops_mesh.OnCall.Disagree.{ahead, compute_active_engineer-ahead}
use ops_mesh.Tests.Data.{database}

abbrev iso : ℕ → String
iso n = "1970-01-05"

abbrev scheduled : Db
scheduled = record database {
  schedules =
      record {
        id = "primary";
        team_id = "core";
        name = "primary";
        timezone = "UTC";
        rotation_order = "anna" ∷ "ben" ∷ [];
        start_time = "09:00";
        end_time = "17:00";
        escalation_target_id = none;
      }
      ∷ [];
}

-- The run adds the shift of the first week.
one_shift : (materialize_shifts iso scheduled 450000000 450000000).1 ≡ ok 1
unfolding materialize_shifts fails materialize_all materialize_one active_user week_index week_start
one_shift = refl

abbrev run_once : Db × Result ℕ
run_once = materialize_shifts iso scheduled 450000000 450000000

materialize_shifts_again_example :
    (let second = materialize_shifts iso run_once.0 900000000 900000000 in
      ((n : ℕ) × (run_once.1 ≡ ok n)
        × (second ≡ (
          record run_once.0 { shifts = filter (is_kept iso 900000000) run_once.0.shifts },
          ok 0,
        )))
      ⊎ ((e : Thrown) × (run_once ≡ (scheduled, err e)) × (second ≡ (scheduled, err e))))
materialize_shifts_again_example =
    materialize_shifts_again iso 450000000 900000000 450000000 900000000 scheduled (omega arith)
      (omega arith) (unfold week_start in omega arith) (omega arith)
      (unfold week_start in omega arith) (λ s. refl)

-- A Friday at ten, in UTC.
abbrev local : String → ℕ → ℕ
local timezone now = now

compute_active_engineer-ahead_example :
    compute_active_engineer local ("anna" ∷ "ben" ∷ []) "UTC" "09:00" "17:00" 727200000
    ≡ nth_user ("anna" ∷ "ben" ∷ []) ((week_index 727200000 + ahead 727200000) % 2)
compute_active_engineer-ahead_example =
    compute_active_engineer-ahead local ("anna" ∷ "ben" ∷ []) "UTC" "09:00" "17:00" 727200000 refl
      (omega arith) (unfold is_inside hour_to_minutes split in refl) (omega arith)
