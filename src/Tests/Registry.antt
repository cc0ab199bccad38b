-- ===== src/Tests/Registry.antt =====
-- Runs of the registry of services, of its health checks and of the escalation policies.
use ops_mesh.Base.{◌≡◌, refl, none, some, List, [], ◌∷◌, String, sort_by, map}
use ops_mesh.Types.{email}
use ops_mesh.Db.{Db, TargetType}
use ops_mesh.Errors.{Result, ok, err, other}
use ops_mesh.World.{transaction}
use ops_mesh.Auth.Keys.{require_service_exists}
use ops_mesh.Sql.{bind_error}
use ops_mesh.Services.{UpdateServiceInput, check_name, update_service, disable_service}
use ops_mesh.Services.Update.{update_service_refused}
use ops_mesh.Services.Maintenance.{
  ServiceStep, update, disable, Monitor, read_due, finish, IsOutOfService, in_db, service_steps,
  disabled_for_good,
}
use ops_mesh.Health.{HealthCheckWorker, answered}
use ops_mesh.Escalation.{steps_for_incident}
use ops_mesh.Escalation.Policies.{
  NewPolicy, step_row, policy_row, create_policy, insert_steps, resolve_policy_for_service,
  load_policy_steps,
}
use ops_mesh.Escalation.Applied.{create_policy-steps}
use ops_mesh.Tests.Data.{database, world, first, show, runtime}

abbrev no_change : UpdateServiceInput
no_change = record {
  name = none;
  description = none;
  owner_team_id = none;
  health_check_url = none;
  health_check_method = none;
  health_check_timeout = none;
  health_check_interval = none;
  expected_status = none;
  criticality = none;
  sla_minutes = none;
  environment = none;
  status = none;
}

abbrev slower : UpdateServiceInput
slower = record no_change { health_check_timeout = some 8000 }

known : require_service_exists database "checkout" ≡ ok tt
unfolding require_service_exists
known = refl

free_name : check_name database slower.name "checkout" ≡ ok tt
free_name = refl

update_service_refused_example :
    update_service database "checkout" slower "anna" ≡ (database, err (other bind_error))
update_service_refused_example =
    update_service_refused database "checkout" "anna" slower known free_name refl

abbrev health : HealthCheckWorker
health = record { world = world; consecutive_failures = []; published = [] }

abbrev disabled : Db × Result (Unit {0})
disabled = disable_service database "checkout" "anna"

-- A check of another service is under way.
abbrev monitor : Monitor
monitor = record {
  worker = health;
  in_flight =
      record {
        id = "billing";
        name = "billing";
        health_check_url = "http://billing/health";
        health_check_method = "GET";
        health_check_timeout = 5000;
        expected_status = 200;
      }
      ∷ [];
}

abbrev service_run : List ServiceStep
service_run =
    read_due
    ∷ update "checkout" slower "anna"
    ∷ disable "checkout" "anna"
    ∷ finish 0 5 (answered 200)
    ∷ []

disabled_for_good_example :
    IsOutOfService "checkout"
      (service_steps show (in_db show monitor disabled.0) service_run).worker.world.db.services
disabled_for_good_example =
    disabled_for_good show "checkout" "anna" monitor service_run disabled.0
      (unfold disable_service in refl) (refl, tt)

abbrev new_policy : NewPolicy
new_policy = record {
  name = "checkout";
  description = none;
  service_id = some "checkout";
  team_id = none;
  steps =
      record {
        level = 2;
        delay_minutes = 10;
        target_type = TargetType.team;
        target_id = "core";
        notify_channels = email ∷ [];
      }
      ∷ record {
        level = 1;
        delay_minutes = 5;
        target_type = TargetType.user;
        target_id = "anna";
        notify_channels = email ∷ [];
      }
      ∷ [];
}

abbrev unescalated : Db
unescalated = record database { policies = []; steps = [] }

abbrev with_policy : Db × Result String
with_policy = create_policy unescalated new_policy "pol7" 5

policy_is_made : create_policy unescalated new_policy "pol7" 5 ≡ (with_policy.0, ok "pol7")
unfolding create_policy transaction insert_steps
policy_is_made = refl

create_policy-steps_example :
    (resolve_policy_for_service with_policy.0 "checkout" ≡ some (policy_row new_policy "pol7" 5))
    × (load_policy_steps with_policy.0 "pol7"
        ≡ sort_by (λ s. s.level) (map (step_row "pol7") new_policy.steps))
    × (steps_for_incident runtime with_policy.0 first
        ≡ sort_by (λ s. s.level) (map (step_row "pol7") new_policy.steps))
create_policy-steps_example =
    create_policy-steps runtime unescalated with_policy.0 new_policy "pol7" 5 first (λ q qs h. refl)
      policy_is_made refl refl refl
