-- ===== src/Tests/Data.antt =====
-- The data of the tests: a service with its team, two engineers, and incidents in several states.
use ops_mesh.Escalation.{Runtime}
use ops_mesh.Base.{ℕ, refl, true, false, none, some, List, [], ◌∷◌, String, arith, inr}
use ops_mesh.Types.{
  open_, resolved, sev1, sev2, p1, p2, UserRole, ServiceCriticality, ServiceStatus, EventSeverity,
  production, email, webhook,
}
use ops_mesh.Redis.{new_redis}
use ops_mesh.Db.{Db, IncidentRow, UserRow, ServiceRow, EventRow, StepRow, TargetType, empty_db}
use ops_mesh.World.{World, Json}
use ops_mesh.Incidents.Routes.{Auth, Call, Request}
use ops_mesh.Incidents.Consistent.{IsSound, IsConsistent}
use ops_mesh.Shared.Severity.{severity_to_priority}
use ops_mesh.Processor.{IngestedEventMessage}
use ops_mesh.Processor.Process.{Context}
use ops_mesh.Processor.Invariant.{IsLinked}

abbrev pub json : Json
json = record { write = λ i. i; read = λ t. some t; read-write = λ i. refl }

abbrev pub runtime : Runtime
runtime = record { show = λ n. "n"; choose = λ ps. elim ps [ [] ↦ none | q ∷ qs ↦ some q ] }

abbrev pub show : ℕ → String
show n = "n"

abbrev pub anna : UserRow
anna = record {
  id = "anna";
  email = "anna@ops.test";
  name = "Anna";
  password_hash = "#pw";
  role = UserRole.engineer;
  team_id = some "core";
  is_active = true;
  last_login_at = none;
  created_at = 1;
}

abbrev pub checkout : ServiceRow
checkout = record {
  id = "checkout";
  name = "checkout";
  description = none;
  environment = production;
  owner_team_id = some "core";
  health_check_url = some "http://checkout/health";
  health_check_method = "GET";
  health_check_timeout = 5000;
  health_check_interval = 60000;
  expected_status = 200;
  criticality = ServiceCriticality.critical;
  sla_minutes = none;
  status = ServiceStatus.healthy;
  deleted = false;
}

-- An open incident of the fingerprint "f1", created at time 0.
abbrev pub first : IncidentRow
first = record {
  id = "inc1";
  title = "checkout: timeout";
  description = none;
  service_id = "checkout";
  severity = sev1;
  status = open_;
  priority = p1;
  assigned_engineer_id = some "anna";
  acknowledged_at = none;
  resolved_at = none;
  escalation_level = 0;
  event_count = 1;
  dedupe_key = some "f1";
  created_at = 0;
  updated_at = 0;
}

-- A resolved one of the fingerprint "f2", which was acknowledged before.
abbrev pub second : IncidentRow
second = record {
  id = "inc2";
  title = "checkout: errors";
  description = none;
  service_id = "checkout";
  severity = sev2;
  status = resolved;
  priority = p2;
  assigned_engineer_id = some "anna";
  acknowledged_at = some 5;
  resolved_at = some 9;
  escalation_level = 0;
  event_count = 0;
  dedupe_key = some "f2";
  created_at = 0;
  updated_at = 9;
}

abbrev pub stored_event : EventRow
stored_event = record {
  id = "evt1";
  service_id = "checkout";
  event_type = "timeout";
  severity = EventSeverity.critical;
  message = "timeout";
  environment = production;
  timestamp = 0;
  request_id = none;
  fingerprint = "f1";
  metadata = none;
}

abbrev pub page : StepRow
page = record {
  policy_id = "pol1";
  level = 1;
  delay_minutes = 5;
  target_type = TargetType.user;
  target_id = "anna";
  notify_channels = email ∷ webhook ∷ [];
}

abbrev pub database : Db
database = record empty_db {
  incidents = first ∷ second ∷ [];
  links = record { incident_id = "inc1"; event_id = "evt1" } ∷ [];
  events = stored_event ∷ [];
  users = anna ∷ [];
  services = checkout ∷ [];
  teams = record { id = "core"; name = "core"; description = none } ∷ [];
  policies =
      record {
        id = "pol1";
        name = "checkout";
        description = none;
        service_id = some "checkout";
        team_id = none;
        updated_at = 0;
      }
      ∷ [];
  steps = page ∷ [];
}

-- With an empty Redis.
abbrev pub world : World
world = record { db = database; cache = some new_redis; broadcasts = [] }

abbrev pub auth : Auth
auth = record { sub = "anna"; email = "anna@ops.test" }

abbrev pub calls : List Call
calls =
    record { auth = auth; id = "inc1"; request = Request.acknowledge none; now = 20 }
    ∷ record { auth = auth; id = "inc2"; request = Request.reopen; now = 21 }
    ∷ []

pub first-IsConsistent : IsConsistent first
unfolding severity_to_priority
first-IsConsistent = record { priority = refl; resolution = refl; acknowledgement = ground arith }

pub second-IsConsistent : IsConsistent second
unfolding severity_to_priority
second-IsConsistent = record { priority = refl; resolution = refl; acknowledgement = inr refl }

pub database-IsSound : IsSound database
database-IsSound = record {
  keyed = (refl, (refl, tt));
  consistent = (first-IsConsistent, (second-IsConsistent, tt));
}

pub database-IsLinked : IsLinked database.incidents database.links
database-IsLinked = record {
  keyed = (refl, (refl, tt));
  unique = (refl, (refl, tt));
  link_set = (refl, tt);
  attached = (refl, tt);
  counts = (refl, (refl, tt));
}

abbrev pub context : Context
context = record {
  now = 1000;
  member = "1000-0.5";
  incident_id = "inc3";
  notification_ids = λ n. "ntf";
  api_url = "";
}

abbrev pub message_of : String → String → IngestedEventMessage
message_of event_id fingerprint = record {
  event_id = event_id;
  service_id = "checkout";
  service_name = "checkout";
  event_type = "timeout";
  severity = EventSeverity.critical;
  message = "timeout";
  environment = production;
  timestamp = 0;
  request_id = none;
  fingerprint = fingerprint;
  metadata = none;
}
