-- ===== src/Shared/Severity/Monotone.antt =====
-- The severity grows with every input.
use ops_mesh.Base.{ℕ, ◌≤◌, Bool, true, false, Option, none, some, arith, if◌then◌else◌}
use ops_mesh.Types.{
  ServiceCriticality, Environment, EventSeverity, IncidentSeverity, development, staging,
  production, sev1, sev2, sev3, sev4,
}
use ops_mesh.Shared.Severity.{
  SeverityCalculationInput, criticality_bump, event_severity_weights, environment_penalty,
  frequency_bump, users_bump, raw_score, clamp_score, severity_of_score, calculate_severity,
}

-- How urgent a severity is: SEV-1 is 3, SEV-4 is 0.
abbrev pub urgency : IncidentSeverity → ℕ
urgency sev1 = 3
urgency sev2 = 2
urgency sev3 = 1
urgency sev4 = 0

abbrev pub criticality_rank : ServiceCriticality → ℕ
criticality_rank ServiceCriticality.low = 0
criticality_rank ServiceCriticality.medium = 1
criticality_rank ServiceCriticality.high = 2
criticality_rank ServiceCriticality.critical = 3

abbrev pub event_rank : EventSeverity → ℕ
event_rank EventSeverity.low = 0
event_rank EventSeverity.medium = 1
event_rank EventSeverity.high = 2
event_rank EventSeverity.critical = 3

abbrev pub environment_rank : Environment → ℕ
environment_rank development = 0
environment_rank staging = 1
environment_rank production = 2

-- The number of affected users that the code acts on; a missing number counts as none.
abbrev pub users : Option ℕ → ℕ
users none = 0
users (some n) = n

abbrev pub flag : Bool → ℕ
flag true = 1
flag false = 0

-- One input is at most as grave as another, in every field.
pub record IsMilder (i j : SeverityCalculationInput) : Type 0 where
  pub criticality : criticality_rank i.service_criticality ≤ criticality_rank j.service_criticality
  pub event : event_rank i.event_severity ≤ event_rank j.event_severity
  pub environment : environment_rank i.environment ≤ environment_rank j.environment
  pub frequency : i.error_frequency ≤ j.error_frequency
  pub affected : users i.affected_users ≤ users j.affected_users
  pub repeated : flag i.is_repeated_failure ≤ flag j.is_repeated_failure

criticality_bump_mono :
    (a b : ServiceCriticality)
    → criticality_rank a ≤ criticality_rank b
    → criticality_bump a ≤ criticality_bump b
unfolding criticality_bump
criticality_bump_mono a b h = ground arith

event_severity_weights_mono :
    (a b : EventSeverity)
    → event_rank a ≤ event_rank b
    → event_severity_weights a ≤ event_severity_weights b
unfolding event_severity_weights
event_severity_weights_mono a b h = ground arith

environment_penalty_mono :
    (a b : Environment)
    → environment_rank a ≤ environment_rank b
    → environment_penalty a ≤ environment_penalty b
unfolding environment_penalty
environment_penalty_mono a b h = ground arith

frequency_bump_mono : (a b : ℕ) → a ≤ b → frequency_bump a ≤ frequency_bump b
unfolding frequency_bump
frequency_bump_mono a b h = ground arith

users_bump_mono : (a b : Option ℕ) → users a ≤ users b → users_bump a ≤ users_bump b
unfolding users_bump
users_bump_mono a b h = ground arith

severity_of_score_mono :
    (a b : ℕ) → a ≤ b → urgency (severity_of_score a) ≤ urgency (severity_of_score b)
unfolding severity_of_score
severity_of_score_mono a b h = ground arith

clamp_score_mono : (a b : ℕ) → a ≤ b → clamp_score a ≤ clamp_score b
unfolding clamp_score
clamp_score_mono a b h = omega arith

repeat_bump_mono :
    (a b : Bool) → flag a ≤ flag b → (if a then 2 else 0) ≤ (let n : ℕ = if b then 2 else 0 in n)
repeat_bump_mono a b h = ground arith

raw_score_mono : (i j : SeverityCalculationInput) → IsMilder i j → raw_score i ≤ raw_score j
unfolding raw_score
raw_score_mono i j h = omega (
  arith,
  event_severity_weights_mono i.event_severity j.event_severity h.event,
  criticality_bump_mono i.service_criticality j.service_criticality h.criticality,
  environment_penalty_mono i.environment j.environment h.environment,
  frequency_bump_mono i.error_frequency j.error_frequency h.frequency,
  users_bump_mono i.affected_users j.affected_users h.affected,
  repeat_bump_mono i.is_repeated_failure j.is_repeated_failure h.repeated,
)

-- A graver input never lowers the severity: if no field of one input is milder than in another
-- (criticality, event severity, environment, frequency, affected users, repeated failure), its
-- severity is at least as urgent.
pub calculate_severity_mono :
    (i j : SeverityCalculationInput)
    → IsMilder i j
    → urgency (calculate_severity i) ≤ urgency (calculate_severity j)
calculate_severity_mono i j h =
    unfold calculate_severity in
    severity_of_score_mono (clamp_score (raw_score i)) (clamp_score (raw_score j))
      (clamp_score_mono (raw_score i) (raw_score j) (raw_score_mono i j h))
