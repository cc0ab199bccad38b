-- ===== src/Db.antt =====
-- The PostgreSQL tables that the API and the workers share (packages/database/src/migrations), each
-- as the list of its rows. The random ids of rows that no query reads by id (timeline, audit,
-- assignments, links, executions, health results) are left out.
use ops_mesh.Base.{ℕ, Bool, Option, List, [], String, ◌==◌, string_eq}
use ops_mesh.Types.{
  ServiceStatus, ServiceCriticality, Environment, EventSeverity, IncidentSeverity, IncidentStatus,
  IncidentPriority, UserRole, NotificationChannel, NotificationStatus, ApiKeyPurpose,
}

-- apps/api/src/modules/incidents/incidents.service.ts, IncidentRow
pub record IncidentRow : Type 0 where
  pub id : String
  pub title : String
  pub description : Option String
  pub service_id : String
  pub severity : IncidentSeverity
  pub status : IncidentStatus
  pub priority : IncidentPriority
  pub assigned_engineer_id : Option String
  pub acknowledged_at : Option ℕ
  pub resolved_at : Option ℕ
  pub escalation_level : ℕ
  pub event_count : ℕ
  pub dedupe_key : Option String
  pub created_at : ℕ
  pub updated_at : ℕ

pub data TargetType : Type 0 where
  user team schedule : TargetType

-- The `metadata` objects that the code writes.
pub data Metadata : Type 0 where
  no_metadata : Metadata
  status_change : (from to : IncidentStatus) → Metadata
  severity_change : (from to : IncidentSeverity) → Metadata
  assignment : (user_id : String) (reason : Option String) → Metadata
  resolution : (summary : Option String) → Metadata
  event_source : (event_type : String) → Metadata
  creation : IncidentSeverity → (service_id : String) → Metadata
  escalation : (level : ℕ) → TargetType → (target_id : Option String) → Metadata
  service_name : (name : String) → Metadata

pub data TimelineType : Type 0 where
  created status_changed escalated assigned comment : TimelineType

pub record TimelineRow : Type 0 where
  pub incident_id : String
  pub type : TimelineType
  pub actor_id : Option String
  pub actor_name : Option String
  pub message : String
  pub metadata : Metadata

pub data AuditAction : Type 0 where
  incident_status_changed incident_resolved incident_severity_changed incident_assigned :
      AuditAction
  incident_reopened incident_created incident_escalated : AuditAction
  service_created service_updated service_disabled : AuditAction

pub data AuditTarget : Type 0 where
  incident service : AuditTarget

pub record AuditRow : Type 0 where
  pub actor_id : Option String
  pub actor_email : Option String
  pub action : AuditAction
  pub target_type : AuditTarget
  pub target_id : String
  pub metadata : Metadata

pub record AssignmentRow : Type 0 where
  pub incident_id : String
  pub user_id : String
  pub assigned_by : Option String
  pub reason : String

pub record UserRow : Type 0 where
  pub id : String
  pub email : String
  pub name : String
  pub password_hash : String
  pub role : UserRole
  pub team_id : Option String
  pub is_active : Bool
  pub last_login_at : Option ℕ
  pub created_at : ℕ

pub record ServiceRow : Type 0 where
  pub id : String
  pub name : String
  pub description : Option String
  pub environment : Environment
  pub owner_team_id : Option String
  pub health_check_url : Option String
  pub health_check_method : String
  pub health_check_timeout : ℕ
  pub health_check_interval : ℕ
  pub expected_status : ℕ
  pub criticality : ServiceCriticality
  pub sla_minutes : Option ℕ
  pub status : ServiceStatus
  pub deleted : Bool

pub record EventRow : Type 0 where
  pub id : String
  pub service_id : String
  pub event_type : String
  pub severity : EventSeverity
  pub message : String
  pub environment : Environment
  pub timestamp : ℕ
  pub request_id : Option String
  pub fingerprint : String
  pub metadata : Option String

-- incident_events, UNIQUE (incident_id, event_id)
pub record LinkRow : Type 0 where
  pub incident_id : String
  pub event_id : String

pub record NotificationRow : Type 0 where
  pub id : String
  pub incident_id : String
  pub channel : NotificationChannel
  pub recipient : String
  pub subject : Option String
  pub body : String
  pub status : NotificationStatus
  pub attempts : ℕ
  pub max_attempts : ℕ
  pub error : Option String
  pub created_at : ℕ
  pub sent_at : Option ℕ
  pub last_attempt_at : Option ℕ

pub record PolicyRow : Type 0 where
  pub id : String
  pub name : String
  pub description : Option String
  pub service_id : Option String
  pub team_id : Option String
  pub updated_at : ℕ

pub record StepRow : Type 0 where
  pub policy_id : String
  pub level : ℕ
  pub delay_minutes : ℕ
  pub target_type : TargetType
  pub target_id : String
  pub notify_channels : List NotificationChannel

pub record ExecutionRow : Type 0 where
  pub incident_id : String
  pub policy_id : Option String
  pub step_level : ℕ
  pub target_type : TargetType
  pub target_id : String
  pub target_name : String

pub record TeamRow : Type 0 where
  pub id : String
  pub name : String
  pub description : Option String

pub record ScheduleRow : Type 0 where
  pub id : String
  pub team_id : String
  pub name : String
  pub timezone : String
  pub rotation_order : List String
  pub start_time : String
  pub end_time : String
  pub escalation_target_id : Option String

pub record ShiftRow : Type 0 where
  pub id : String
  pub schedule_id : String
  pub user_id : String
  pub starts_at : ℕ
  pub ends_at : ℕ

-- `key_prefix` is unique.
pub record ApiKeyRow : Type 0 where
  pub id : String
  pub name : String
  pub key_prefix : String
  pub key_hash : String
  pub subject : String
  pub purpose : ApiKeyPurpose
  pub created_by : String
  pub created_at : ℕ
  pub revoked_at : Option ℕ

pub record HealthResultRow : Type 0 where
  pub service_id : String
  pub pass : Bool
  pub latency_ms : ℕ
  pub status_code : Option ℕ
  pub error : Option String

pub record Db : Type 0 where
  pub incidents : List IncidentRow
  pub links : List LinkRow
  pub events : List EventRow
  pub timeline : List TimelineRow
  pub audit : List AuditRow
  pub assignments : List AssignmentRow
  pub users : List UserRow
  pub teams : List TeamRow
  pub services : List ServiceRow
  pub notifications : List NotificationRow
  pub policies : List PolicyRow
  pub steps : List StepRow
  pub executions : List ExecutionRow
  pub schedules : List ScheduleRow
  pub shifts : List ShiftRow
  pub health_results : List HealthResultRow
  pub api_keys : List ApiKeyRow

abbrev pub empty_db : Db
empty_db = record {
  incidents = [];
  links = [];
  events = [];
  timeline = [];
  audit = [];
  assignments = [];
  users = [];
  teams = [];
  services = [];
  notifications = [];
  policies = [];
  steps = [];
  executions = [];
  schedules = [];
  shifts = [];
  health_results = [];
  api_keys = [];
}

-- `WHERE id = $1`
abbrev pub has_id : String → IncidentRow → Bool
has_id id r = r.id == id
