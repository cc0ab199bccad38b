-- ===== src/Tests/Delivery.antt =====
-- Runs of the queue of notifications.
use ops_mesh.Base.{◌≡◌, refl, Option, none, some, List, [], ◌∷◌, String, find}
use mathlib.Core.Option
use ops_mesh.Types.{email, slack, pending, sent, failed}
use ops_mesh.Db.{NotificationRow}
use ops_mesh.World.{World}
use ops_mesh.Notify.Worker.{is_due, has_note_id, poll}
use ops_mesh.Notify.Settled.{poll-IsSettled}
use ops_mesh.Notify.Retry.{QueueStep, retry, cycle, queue_steps, history, retry_in_vain}
use ops_mesh.Tests.Data.{world, database}

abbrev done_note : NotificationRow
done_note = record {
  id = "n1";
  incident_id = "inc1";
  channel = email;
  recipient = "anna@ops.test";
  subject = none;
  body = "";
  status = sent;
  attempts = 1;
  max_attempts = 3;
  error = none;
  created_at = 1;
  sent_at = some 2;
  last_attempt_at = some 2;
}

abbrev waiting_note : NotificationRow
waiting_note = record done_note {
  id = "n2";
  channel = slack;
  status = pending;
  attempts = 0;
  sent_at = none;
  last_attempt_at = none;
}

abbrev queue : World
queue = record world { db = record database { notifications = done_note ∷ waiting_note ∷ [] } }

abbrev transport : NotificationRow → Option String
transport n = some "unreachable"

poll-IsSettled_example :
    find (has_note_id "n1") (poll transport queue [] 100000).world.db.notifications ≡ some done_note
poll-IsSettled_example = poll-IsSettled transport queue [] 100000 "n1" (unfold is_due in refl)

-- A notification that has failed three times.
abbrev failed_note : NotificationRow
failed_note = record waiting_note { id = "n3"; status = failed; attempts = 3 }

abbrev failed_queue : World
failed_queue = record world { db = record database { notifications = failed_note ∷ [] } }

abbrev two_retries : List QueueStep
two_retries = retry "n3" ∷ cycle [] 200000 ∷ retry "n3" ∷ cycle [] 300000 ∷ []

retry_in_vain_example :
    Option.map history
      (find (has_note_id "n3") (queue_steps transport failed_queue two_retries).db.notifications)
    ≡ some (history failed_note)
retry_in_vain_example = retry_in_vain transport "n3" failed_queue two_retries refl
