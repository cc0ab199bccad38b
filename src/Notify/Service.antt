-- ===== src/Notify/Service.antt =====
-- apps/api/src/modules/notifications/notifications.service.ts: what the API does to the queue. Its
-- listDueNotifications and its marks are those of the worker.
use ops_mesh.Base.{
  ℕ, Bool, true, false, Option, none, some, List, [], ◌∷◌, ◌++◌, String, ◌==◌, string_eq,
  if◌then◌else◌, any, filter, take, length, sort_desc_by, update_where,
}
use ops_mesh.Types.{NotificationChannel, NotificationStatus, pending, sent, failed, retrying}
use ops_mesh.Db.{Db, NotificationRow, has_id}
use ops_mesh.Errors.{Result, ok, err, other}
use ops_mesh.Notify.Worker.{has_note_id}

-- packages/shared/src/providers/index.ts, NotificationPayload
pub record NotificationPayload : Type 0 where
  pub channel : NotificationChannel
  pub recipient : String
  pub subject : Option String
  pub body : String
  pub incident_id : String

abbrev pub new_note : NotificationPayload → String → ℕ → NotificationRow
new_note p id now = record {
  id = id;
  incident_id = p.incident_id;
  channel = p.channel;
  recipient = p.recipient;
  subject = p.subject;
  body = p.body;
  status = pending;
  attempts = 0;
  max_attempts = 3;
  error = none;
  created_at = now;
  sent_at = none;
  last_attempt_at = none;
}

unfoldable pub enqueue_notification :
    Db → NotificationPayload → (id : String) → ℕ → Db × Result String
enqueue_notification db p id now =
    if any (has_note_id id) db.notifications
    then (db, err (other "unique violation"))
    else if any (has_id p.incident_id) db.incidents
    then (record db { notifications = db.notifications ++ new_note p id now ∷ [] }, ok id)
    else (db, err (other "foreign key violation"))

abbrev pub pending_again : NotificationRow → NotificationRow
pending_again n = record n { status = pending; error = none }

-- POST /notifications/:id/retry
unfoldable pub retry_notification : Db → String → Db
retry_notification db id = record db {
  notifications = update_where (has_note_id id) pending_again db.notifications;
}

abbrev pub of_incident : Option String → List NotificationRow → List NotificationRow
of_incident none rows = rows
of_incident (some id) rows = if id == "" then rows else filter (λ n. n.incident_id == id) rows

unfoldable pub list_notifications : Db → Option String → ℕ → List NotificationRow
list_notifications db incident_id limit =
    take limit (sort_desc_by (λ n. n.created_at) (of_incident incident_id db.notifications))

abbrev pub has_failed : NotificationStatus → Bool
has_failed pending = false
has_failed sent = false
has_failed failed = true
has_failed retrying = false

unfoldable pub count_failed_notifications : Db → ℕ
count_failed_notifications db = length (filter (λ n. has_failed n.status) db.notifications)
