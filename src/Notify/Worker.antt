-- ===== src/Notify/Worker.antt =====
-- notification.worker.ts: listDueNotifications, the marks, and one cycle of the queue. The transport
-- behind `dispatch` is a parameter: the error of an attempt at a notification, or none.
use ops_mesh.Base.{
  ℕ, ◌+◌, ◌-◌, Bool, true, false, Option, none, some, List, [], ◌∷◌, String, ◌==◌, string_eq,
  if◌then◌else◌, ◌&&◌, or_else, ltb, leb, filter, take, update_where, Map, lookup, insert, sort_by,
}
use ops_mesh.Types.{
  NotificationChannel, NotificationStatus, pending, sent, failed, retrying, email, webhook, slack,
}
use ops_mesh.Db.{Db, NotificationRow}
use ops_mesh.World.{World, notification_dispatched, emit, text}

abbrev pub is_waiting : NotificationStatus → Bool
is_waiting pending = true
is_waiting sent = false
is_waiting failed = false
is_waiting retrying = true

unfoldable pub is_due : NotificationRow → Bool
is_due n = is_waiting n.status && ltb n.attempts n.max_attempts

unfoldable pub list_due_notifications : Db → ℕ → List NotificationRow
unfolding is_due
list_due_notifications db limit =
    take limit (sort_by (λ n. n.created_at) (filter is_due db.notifications))

abbrev pub has_note_id : String → NotificationRow → Bool
has_note_id id n = n.id == id

abbrev update_note : String → (NotificationRow → NotificationRow) → Db → Db
update_note id f db = record db { notifications = update_where (has_note_id id) f db.notifications }

abbrev pub sent_row : ℕ → NotificationRow → NotificationRow
sent_row now n = record n {
  status = sent;
  sent_at = some now;
  last_attempt_at = some now;
  error = none;
  attempts = n.attempts + 1;
}

abbrev pub unsent_row : NotificationStatus → String → ℕ → NotificationRow → NotificationRow
unsent_row status error now n = record n {
  status = status;
  error = some error;
  last_attempt_at = some now;
  attempts = n.attempts + 1;
}

unfoldable pub mark_sent : Db → String → ℕ → Db
mark_sent db id now = update_note id (sent_row now) db

unfoldable pub mark_failed : Db → String → String → ℕ → Db
mark_failed db id error now = update_note id (unsent_row failed error now) db

unfoldable pub mark_retrying : Db → String → String → ℕ → Db
mark_retrying db id error now = update_note id (unsent_row retrying error now) db

abbrev channel_text : NotificationChannel → String
channel_text email = "EMAIL"
channel_text webhook = "WEBHOOK"
channel_text slack = "SLACK"

unfoldable pub throttle_key : NotificationRow → String
throttle_key n = text (n.incident_id ∷ ":" ∷ channel_text n.channel ∷ [])

-- The process's clock starts after its first second, so that a missing entry, 0, throttles nothing.
unfoldable pub is_throttled : Map ℕ → NotificationRow → ℕ → Bool
unfolding throttle_key
is_throttled throttle n now = ltb (now - or_else (lookup (throttle_key n) throttle) 0) 1000

pub record Cycle : Type 0 where
  pub world : World
  pub throttle : Map ℕ
  pub sent : ℕ
  pub failed : ℕ
  pub throttled : ℕ

-- What an attempt's outcome does to the row and to the counts.
unfoldable pub settle : Cycle → NotificationRow → ℕ → Option String → Cycle
unfolding mark_sent mark_failed mark_retrying
settle c n now none = record c {
  world =
      emit (record c.world { db = mark_sent c.world.db n.id now }) (notification_dispatched n.id);
  sent = c.sent + 1;
}
settle c n now (some error) = record c {
  world = record c.world {
    db =
        if leb n.max_attempts (n.attempts + 1)
        then mark_failed c.world.db n.id error now
        else mark_retrying c.world.db n.id error now;
  };
  failed = c.failed + 1;
}

module _ (transport : NotificationRow → Option String) where
  -- `dispatch`: an email or a webhook is only logged; Slack's fails as the transport does.
  unfoldable pub dispatch : NotificationRow → Option String
  dispatch n = elim n.channel [ slack ↦ transport n | _ ↦ none ]

  unfoldable pub attempt : Cycle → NotificationRow → ℕ → Cycle
  unfolding is_throttled throttle_key dispatch settle
  attempt c n now =
      if is_throttled c.throttle n now
      then record c { throttled = c.throttled + 1 }
      else settle (record c { throttle = insert (throttle_key n) now c.throttle }) n now
          (dispatch n)

  unfoldable pub attempts_of : Cycle → List NotificationRow → ℕ → Cycle
  attempts_of c [] now = c
  attempts_of c (n ∷ due) now = attempts_of (attempt c n now) due now

  unfoldable pub poll : World → Map ℕ → ℕ → Cycle
  unfolding list_due_notifications
  poll w throttle now =
      attempts_of (record { world = w; throttle = throttle; sent = 0; failed = 0; throttled = 0 })
        (list_due_notifications w.db 25) now
