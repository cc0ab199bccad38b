-- ===== src/Notify.antt =====
-- Notifications: packages/shared/src/utils/notifications.ts (rendering), and the queue of
-- apps/worker/src/modules/notification/notification.worker.ts.
pub mod Retry
pub mod Service
pub mod Settled
pub mod Worker
use ops_mesh.Base.{
  ℕ, ◌+◌, ◌≡◌, refl, Bool, true, false, Option, none, some, List, [], ◌∷◌, ◌++◌, String, ◌==◌,
  string_eq, if◌then◌else◌, or_else,
}
use ops_mesh.Types.{NotificationChannel, pending}
use ops_mesh.Db.{Db, NotificationRow}
use ops_mesh.World.{text}

pub data Action : Type 0 where
  created acknowledged escalated resolved assigned : Action

abbrev action_text : Action → String
action_text created = "CREATED"
action_text acknowledged = "ACKNOWLEDGED"
action_text escalated = "ESCALATED"
action_text resolved = "RESOLVED"
action_text assigned = "ASSIGNED"

pub record RenderNotificationOptions : Type 0 where
  pub incident_title : String
  pub incident_id : String
  pub severity : String
  pub service_name : String
  pub action : Option Action
  pub target_name : Option String

abbrev subject_of : Action → RenderNotificationOptions → String
subject_of created o = text ("[OpsMesh " ∷ o.severity ∷ "] " ∷ o.incident_title ∷ [])
subject_of escalated o = text ("[ESCALATED] " ∷ o.incident_title ∷ [])
subject_of a o = text ("[OpsMesh] " ∷ o.incident_title ∷ " - " ∷ action_text a ∷ [])

abbrev target_text : Option String → String
target_text none = ""
target_text (some name) = if name == "" then "" else text (" (" ∷ name ∷ ")" ∷ [])

-- `api_url` is `process.env.API_URL ?? ''`. The channel plays no part.
unfoldable pub render_notification : String → RenderNotificationOptions → String × String
render_notification api_url o =
    let action_text = action_text (or_else o.action created) in
    (
      subject_of (or_else o.action created) o,
      text (
          "Incident: "
          ∷ o.incident_id
          ∷ "\n"
          ∷ "Service: "
          ∷ o.service_name
          ∷ "\n"
          ∷ "Severity: "
          ∷ o.severity
          ∷ "\n"
          ∷ "Action: "
          ∷ action_text
          ∷ target_text o.target_name
          ∷ "\n"
          ∷ "Link: "
          ∷ api_url
          ∷ "/incidents/"
          ∷ o.incident_id
          ∷ []),
    )

-- A new row of the queue, with the defaults of the table.
abbrev pub queued :
    String → String → NotificationChannel → String → String → String → ℕ → NotificationRow
queued id incident_id channel recipient subject body now = record {
  id = id;
  incident_id = incident_id;
  channel = channel;
  recipient = recipient;
  subject = some subject;
  body = body;
  status = pending;
  attempts = 0;
  max_attempts = 3;
  error = none;
  created_at = now;
  sent_at = none;
  last_attempt_at = none;
}

-- One row for each channel; `ids n` is the n-th generated id.
unfoldable pub enqueue_incident_notification :
    String
    → (ℕ → String)
    → ℕ
    → Db
    → RenderNotificationOptions
    → String
    → List NotificationChannel
    → Db
enqueue_incident_notification api_url ids now db o recipient [] = db
enqueue_incident_notification api_url ids now db o recipient (channel ∷ channels) =
    let (subject, body) = render_notification api_url o in
    enqueue_incident_notification api_url (λ n. ids (1 + n)) now
      (record db {
        notifications =
            db.notifications
            ++ queued (ids 0) o.incident_id channel recipient subject body now ∷ [];
      })
      o recipient channels
