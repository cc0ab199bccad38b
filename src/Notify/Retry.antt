-- ===== src/Notify/Retry.antt =====
-- What a retry of a notification can lead to.
use ops_mesh.Base.{
  ℕ, ◌≡◌, refl, ◌∙◌, ap, Bool, false, Option, List, [], ◌∷◌, String, ◌==◌, string_eq, ◌&&◌, any,
  find, update_where, Map, ltb, arith, eq_iff, Bool-cases, inl, inr,
}
use mathlib.Core.Option
use ops_mesh.Db.{NotificationRow}
use ops_mesh.World.{World}
use ops_mesh.Notify.Worker.{is_due, has_note_id, poll}
use ops_mesh.Notify.Service.{pending_again, retry_notification}
use ops_mesh.Notify.Settled.{IsSettled, IsBlind, poll-blind, poll-IsSettled}

-- The rows of that id have used up their attempts, as those that the worker gave up have.
abbrev pub is_spendable : String → NotificationRow → Bool
is_spendable id n = has_note_id id n && ltb n.attempts n.max_attempts

abbrev pub IsExhausted : String → List NotificationRow → Type 0
IsExhausted id rows = any (is_spendable id) rows ≡ false

exhausted-IsSettled :
    (id : String) (rows : List NotificationRow) → IsExhausted id rows → IsSettled id rows
unfolding is_due
exhausted-IsSettled id [] h = refl
exhausted-IsSettled id (n ∷ rows) h = ground (arith, exhausted-IsSettled id rows)

retried_rows :
    (id other : String) (rows : List NotificationRow)
    → any (is_spendable id) (update_where (has_note_id other) pending_again rows)
      ≡ any (is_spendable id) rows
retried_rows id other [] = refl
retried_rows id other (n ∷ rows) = ground (arith, retried_rows id other rows)

spendable-IsBlind : (id : String) → IsBlind id (any (is_spendable id))
spendable-IsBlind id nid f keep ne [] = refl
spendable-IsBlind id nid f keep ne (n ∷ rows) = elim (Bool-cases (n.id == nid)) [
  | inl e ↦
      let this : (n.id == id) ≡ false = ap (λ i. i == id) ((eq_iff n.id nid).0 e) ∙ ne in
      let that : ((f n).id == id) ≡ false = ap (λ i. i == id) (keep n) ∙ this in
      rw (e, this, that) (spendable-IsBlind id nid f keep ne rows)
  | inr e ↦ rw e (ground (arith, spendable-IsBlind id nid f keep ne rows))
]

-- How often it was attempted, and when it was sent.
abbrev pub history : NotificationRow → ℕ × Option ℕ
history n = (n.attempts, n.sent_at)

retried_history :
    (id other : String) (rows : List NotificationRow)
    → Option.map history
        (find (has_note_id id) (update_where (has_note_id other) pending_again rows))
      ≡ Option.map history (find (has_note_id id) rows)
retried_history id other [] = refl
retried_history id other (n ∷ rows) = ground (arith, retried_history id other rows)

-- Retries through the API, and cycles of the worker.
pub data QueueStep : Type 0 where
  retry : (id : String) → QueueStep
  cycle : (throttle : Map ℕ) → (now : ℕ) → QueueStep

module _ (transport : NotificationRow → Option String) where
  unfoldable pub queue_step : World → QueueStep → World
  queue_step w (retry id) = record w { db = retry_notification w.db id }
  queue_step w (cycle throttle now) = (poll transport w throttle now).world

  unfoldable pub queue_steps : World → List QueueStep → World
  unfolding queue_step
  queue_steps w [] = w
  queue_steps w (s ∷ steps) = queue_steps (queue_step w s) steps

  queue_step-keeps :
      (id : String) (w : World) (s : QueueStep)
      → IsExhausted id w.db.notifications
      → IsExhausted id (queue_step w s).db.notifications
        × (Option.map history (find (has_note_id id) (queue_step w s).db.notifications)
            ≡ Option.map history (find (has_note_id id) w.db.notifications))
  unfolding queue_step retry_notification
  queue_step-keeps id w (retry other) h =
      (retried_rows id other w.db.notifications ∙ h, retried_history id other w.db.notifications)
  queue_step-keeps id w (cycle throttle now) h =
      let settled = exhausted-IsSettled id w.db.notifications h in
      (
        poll-blind transport id (any (is_spendable id)) (spendable-IsBlind id) w throttle now
              settled
            ∙ h,
        ap (Option.map history) (poll-IsSettled transport w throttle now id settled),
      )

  -- A notification that has used up its attempts is never attempted again: after any sequence of
  -- retries through the API and of cycles of the worker, its number of attempts and its time of sending
  -- are as before, however the transport answers.
  pub retry_in_vain :
      (id : String) (w : World) (steps : List QueueStep)
      → IsExhausted id w.db.notifications
      → Option.map history (find (has_note_id id) (queue_steps w steps).db.notifications)
        ≡ Option.map history (find (has_note_id id) w.db.notifications)
  unfolding queue_steps
  retry_in_vain id w [] h = refl
  retry_in_vain id w (s ∷ steps) h =
      let (spent, same) = queue_step-keeps id w s h in
      retry_in_vain id (queue_step w s) steps spent ∙ same
