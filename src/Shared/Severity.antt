-- ===== src/Shared/Severity.antt =====
-- packages/shared/src/utils/severity.ts. Scores are multiples of a quarter: a score is held as four
-- times its value plus 8, so the penalties of the tables never go below 0 (the smallest sum,
-- 1 - 0.5 - 1.5 = -1, is 4 here).
pub mod Monotone
use ops_mesh.Base.{
  ℕ, ◌+◌, Bool, true, false, Option, none, some, min, max, ltb, leb, if◌then◌else◌, String,
}
use ops_mesh.Types.{
  ServiceCriticality, Environment, EventSeverity, IncidentSeverity, IncidentPriority, development,
  staging, production, sev1, sev2, sev3, sev4, p1, p2, p3, p4,
}

pub record SeverityCalculationInput : Type 0 where
  pub service_criticality : ServiceCriticality
  pub event_severity : EventSeverity
  pub environment : Environment
  pub error_frequency : ℕ
  pub affected_users : Option ℕ
  pub is_repeated_failure : Bool

-- four times the bump, plus 2
unfoldable pub criticality_bump : ServiceCriticality → ℕ
criticality_bump ServiceCriticality.low = 0
criticality_bump ServiceCriticality.medium = 2
criticality_bump ServiceCriticality.high = 4
criticality_bump ServiceCriticality.critical = 6

-- four times the weight
unfoldable pub event_severity_weights : EventSeverity → ℕ
event_severity_weights EventSeverity.low = 4
event_severity_weights EventSeverity.medium = 8
event_severity_weights EventSeverity.high = 12
event_severity_weights EventSeverity.critical = 16

-- four times the penalty, plus 6
unfoldable pub environment_penalty : Environment → ℕ
environment_penalty development = 0
environment_penalty staging = 4
environment_penalty production = 6

unfoldable pub frequency_bump : ℕ → ℕ
frequency_bump f =
    if ltb 100 f
    then 3
    else if ltb 50 f
    then 2
    else if ltb 10 f
    then 1
    else if ltb 5 f
    then 1
    else 0

unfoldable pub users_bump : Option ℕ → ℕ
users_bump none = 0
users_bump (some n) = if ltb 1000 n then 2 else if ltb 100 n then 1 else 0

-- The score before it is clamped, times 4, plus 8.
unfoldable pub raw_score : SeverityCalculationInput → ℕ
unfolding criticality_bump event_severity_weights environment_penalty frequency_bump users_bump
raw_score i =
    event_severity_weights i.event_severity
    + criticality_bump i.service_criticality
    + environment_penalty i.environment
    + frequency_bump i.error_frequency
    + users_bump i.affected_users
    + (if i.is_repeated_failure then 2 else 0)

-- `Math.min(4, Math.max(1, score))` in the same scale
unfoldable pub clamp_score : ℕ → ℕ
clamp_score score = min 24 (max 12 score)

unfoldable pub severity_of_score : ℕ → IncidentSeverity
severity_of_score score =
    if leb 23 score
    then sev1
    else if leb 19 score
    then sev2
    else if leb 14 score
    then sev3
    else sev4

unfoldable pub calculate_severity : SeverityCalculationInput → IncidentSeverity
unfolding raw_score clamp_score severity_of_score
calculate_severity i = severity_of_score (clamp_score (raw_score i))

unfoldable pub severity_to_priority : IncidentSeverity → IncidentPriority
severity_to_priority sev1 = p1
severity_to_priority sev2 = p2
severity_to_priority sev3 = p3
severity_to_priority sev4 = p4

unfoldable pub get_severity_description : IncidentSeverity → String
get_severity_description sev1 = "Critical impact - immediate response required"
get_severity_description sev2 = "Major impact - urgent response required"
get_severity_description sev3 = "Minor impact - response required within hours"
get_severity_description sev4 = "Low impact - response required within days"

-- The text of an enumeration value, as messages show it.
abbrev pub severity_text : IncidentSeverity → String
severity_text sev1 = "SEV-1"
severity_text sev2 = "SEV-2"
severity_text sev3 = "SEV-3"
severity_text sev4 = "SEV-4"
