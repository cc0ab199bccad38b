-- ===== src/Incidents/Routes.antt =====
-- apps/api/src/modules/incidents/incidents.routes.ts: the routes that change an incident, behind
-- `requireAuth`. Of the request schemas the one that restricts the requested status is modelled;
-- those that bound the lengths of texts are not.
use ops_mesh.Base.{ℕ, Bool, Option, none, some, List, [], ◌∷◌, String, ◌==◌, ◌||◌, if◌then◌else◌}
use ops_mesh.Types.{
  IncidentStatus, IncidentSeverity, acknowledged, investigating, mitigated, resolved,
}
use ops_mesh.Shared.StateMachine.{status_eq}
use ops_mesh.Db.{IncidentRow}
use ops_mesh.Errors.{zod, Result, ok, err}
use ops_mesh.World.{World, Json}
use ops_mesh.Incidents.Status.{UpdateStatusParams, update_incident_status}
use ops_mesh.Incidents.Edit.{change_severity, assign_engineer, add_comment, reopen_incident}

-- `req.auth`: the token's subject and email
pub record Auth : Type 0 where
  pub sub : String
  pub email : String

pub data Request : Type 0 where
  acknowledge : (note : Option String) → Request
  patch_status : IncidentStatus → (note summary : Option String) → Request
  severity : IncidentSeverity → Request
  assign : (user_id : String) → (reason : Option String) → Request
  comment : (message : String) → Request
  reopen : Request

pub data Reply : Type 0 where
  row : Option IncidentRow → Reply
  added : Reply

-- updateIncidentStatusSchema
unfoldable pub is_settable : IncidentStatus → Bool
is_settable s = s == acknowledged || s == investigating || s == mitigated || s == resolved

abbrev pub answer : World × Result (Option IncidentRow) → World × Result Reply
answer (w, ok r) = (w, ok (row r))
answer (w, err e) = (w, err e)

abbrev pub answer_added : World × Result (Unit {0}) → World × Result Reply
answer_added (w, ok _) = (w, ok added)
answer_added (w, err e) = (w, err e)

abbrev pub status_params :
    Auth → IncidentStatus → Option String → Option String → UpdateStatusParams
status_params auth status note summary = record {
  status = status;
  actor_id = auth.sub;
  actor_name = auth.email;
  actor_email = none;
  note = note;
  resolution_summary = summary;
}

-- A request with its incident, its author and its time.
pub record Call : Type 0 where
  pub auth : Auth
  pub id : String
  pub request : Request
  pub now : ℕ

module _ (j : Json) where
  unfoldable pub handle : World → Auth → String → Request → ℕ → World × Result Reply
  unfolding is_settable
  handle w auth id (acknowledge note) now =
      answer (update_incident_status j w id (status_params auth acknowledged note none) now)
  handle w auth id (patch_status status note summary) now =
      if is_settable status
      then answer (update_incident_status j w id (status_params auth status note summary) now)
      else (w, err (zod (("status", "Invalid enum value") ∷ [])))
  handle w auth id (severity s) now = answer (change_severity w id s auth.sub auth.email none now)
  handle w auth id (assign user_id reason) now =
      answer (assign_engineer w id user_id auth.sub auth.email reason now)
  handle w auth id (comment message) now =
      answer_added (add_comment w id message auth.sub auth.email)
  handle w auth id reopen now =
      answer (reopen_incident w id auth.sub auth.email (some auth.email) now)

  unfoldable pub handle_all : World → List Call → World
  handle_all w [] = w
  handle_all w (c ∷ calls) = handle_all (handle w c.auth c.id c.request c.now).0 calls
