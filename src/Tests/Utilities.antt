-- ===== src/Tests/Utilities.antt =====
-- Runs of the shared utilities.
use ops_mesh.Base.{
  ℕ, ◌*◌, ◌≤◌, ◌<◌, ◌≡◌, ◌↔◌, ◌⊎◌, true, false, List, [], ◌∷◌, String, length, arith, zero, suc,
}
use ops_mesh.Types.{IncidentStatus, acknowledged, resolved}
use ops_mesh.Shared.StateMachine.{IncidentStateMachine, is_valid_transition, is_terminal, status_eq}
use ops_mesh.Shared.StateMachine.Graph.{is_terminal_iff}
use ops_mesh.Shared.Retry.{Draw, calculate_backoff, Attempt, returned, threw, retry_with_backoff}
use ops_mesh.Shared.Retry.Laws.{
  calculate_backoff_bounds, retry_with_backoff_lem, settle, IsRetryable, IsDecisive,
}

is_terminal_iff_example :
    (is_terminal resolved ≡ true) ↔ ((t : IncidentStatus) → is_valid_transition resolved t ≡ false)
is_terminal_iff_example = is_terminal_iff resolved

abbrev acknowledged_machine : IncidentStateMachine
acknowledged_machine = record { current_status = acknowledged }

abbrev half : Draw
half = record { num = 1; slack = 0 }

-- The seventh delay would be 64 seconds.
calculate_backoff_bounds_example :
    (60000 ≤ calculate_backoff half 7 1000 60000)
    × (20 * calculate_backoff half 7 1000 60000 ≤ 13 * 120000)
    × (10 * calculate_backoff half 7 1000 60000 ≤ 13 * 60000)
    × ((128000 < 120000) ⊎ (180000 < 20) ⊎ (60000 < calculate_backoff half 7 1000 60000))
calculate_backoff_bounds_example = calculate_backoff_bounds half 7 1000 60000

-- A call that fails twice, and then returns.
abbrev flaky : ℕ → Attempt String String
flaky zero = returned "never called"
flaky (suc zero) = threw (record { error = "e1"; retryable = true })
flaky (suc (suc zero)) = threw (record { error = "e2"; retryable = true })
flaky (suc (suc (suc n))) = returned "done"

retry_with_backoff_lem_example :
    (k : ℕ) × (k < 5)
    × ((retry_with_backoff flaky 5).calls ≡ suc k)
    × (length (retry_with_backoff flaky 5).slept ≡ k)
    × ((retry_with_backoff flaky 5).outcome ≡ settle (flaky (suc k)))
    × ((j : ℕ) → j < k → IsRetryable (flaky (suc j)))
    × ((suc k ≡ 5) ⊎ IsDecisive (flaky (suc k)))
retry_with_backoff_lem_example = retry_with_backoff_lem flaky 5 (omega arith)

abbrev one : List String
one = "a" ∷ []

abbrev TotalIsZero : Type 0
TotalIsZero = ◌≡◌ {A = ℕ} 21 0
