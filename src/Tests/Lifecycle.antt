-- ===== src/Tests/Lifecycle.antt =====
-- Runs of the incident service.
use ops_mesh.Base.{◌≡◌, refl, true, false, Option, none, some, ◌⊎◌, string_eq}
use ops_mesh.Types.{acknowledged, resolved}
use ops_mesh.Shared.StateMachine.{is_valid_transition, incident_transitions}
use ops_mesh.Db.{IncidentRow}
use ops_mesh.Errors.{app, Result, ok, err, not_found_error, conflict_error}
use ops_mesh.World.{World}
use ops_mesh.Incidents.Rows.{get_incident}
use ops_mesh.Incidents.Status.{UpdateStatusParams, update_incident_status, transition_error}
use ops_mesh.Incidents.Routes.{Request, handle, handle_all, status_params}
use ops_mesh.Incidents.Consistent.{IsSound}
use ops_mesh.Incidents.Preserve.{handle_all-IsSound}
use ops_mesh.Incidents.Moved.{IsMoved}
use ops_mesh.Incidents.Lifecycle.{update_incident_status_lem}
use ops_mesh.Incidents.Evolution.{IsEvolution, handle-IsEvolution}
use ops_mesh.Tests.Data.{json, world, database, database-IsSound, calls, auth, second}

abbrev params : UpdateStatusParams
params = status_params auth acknowledged none none

abbrev outcome : World × Result (Option IncidentRow)
outcome = update_incident_status json world "inc1" params 20

update_incident_status_lem_example :
    ((outcome ≡ (world, err (app (not_found_error "Incident not found or already resolved"))))
      × ((get_incident database "inc1" ≡ none)
          ⊎ ((row : IncidentRow) × (get_incident database "inc1" ≡ some row)
              × (row.status ≡ resolved))))
    ⊎ ((row : IncidentRow) × (get_incident database "inc1" ≡ some row)
        × (is_valid_transition row.status acknowledged ≡ false)
        × (outcome ≡ (
          world,
          err (
              app (
                conflict_error
                  (transition_error row.status acknowledged (incident_transitions row.status)))),
        )))
    ⊎ ((row : IncidentRow) × (get_incident database "inc1" ≡ some row)
        × (is_valid_transition row.status acknowledged ≡ true)
        × ((row' : IncidentRow) × IsMoved acknowledged 20 row row'
            × (get_incident outcome.0.db "inc1" ≡ some row'))
        × (outcome.1 ≡ ok (some row)))
update_incident_status_lem_example =
    update_incident_status_lem json world "inc1" params 20 "inc1" database-IsSound

handle_all-IsSound_example : IsSound (handle_all json world calls).db
handle_all-IsSound_example = handle_all-IsSound json world calls database-IsSound

handle-IsEvolution_example :
    (r' : IncidentRow) × (get_incident (handle json world auth "inc2" Request.reopen 20).0.db "inc2"
      ≡ some r')
    × IsEvolution second r'
handle-IsEvolution_example =
    handle-IsEvolution json world auth "inc2" Request.reopen 20 "inc2" second database-IsSound
      (unfold get_incident in refl)
