-- ===== src/Notify/Settled.antt =====
-- What the queue of notifications leaves alone.
use ops_mesh.Base.{
  ℕ, ◌+◌, ◌≡◌, refl, ◌∙◌, ap, true, false, Option, none, some, List, [], ◌∷◌, String, ◌==◌,
  string_eq, ◌&&◌, any, find, filter, update_where, All, All-filter_holds, All-take, All-sort_by,
  Map, insert, leb, arith, eq_iff, Bool-cases, inl, inr,
}
use ops_mesh.Types.{failed, retrying}
use ops_mesh.Db.{Db, NotificationRow}
use ops_mesh.World.{World}
use ops_mesh.Notify.Worker.{
  is_due, list_due_notifications, has_note_id, sent_row, unsent_row, mark_sent, mark_failed,
  mark_retrying, Cycle, settle, throttle_key, is_throttled, dispatch, attempt, attempts_of, poll,
}

pub find-update_where_other :
    (nid id : String) (f : NotificationRow → NotificationRow)
    → ((n : NotificationRow) → (f n).id ≡ n.id)
    → (nid == id) ≡ false
    → (rows : List NotificationRow)
    → find (has_note_id id) (update_where (has_note_id nid) f rows) ≡ find (has_note_id id) rows
find-update_where_other nid id f keep ne [] = refl
find-update_where_other nid id f keep ne (x ∷ rows) = elim (Bool-cases (x.id == nid)) [
  | inl e ↦
      let this : (x.id == id) ≡ false = ap (λ i. i == id) ((eq_iff x.id nid).0 e) ∙ ne in
      let that : ((f x).id == id) ≡ false = ap (λ i. i == id) (keep x) ∙ this in
      rw (e, this, that) (find-update_where_other nid id f keep ne rows)
  | inr e ↦ rw e (ground (arith, find-update_where_other nid id f keep ne rows))
]

-- What sees nothing of an update of other rows than those of an id.
abbrev pub IsBlind {ℓ} : {B : Type ℓ} → String → (List NotificationRow → B) → Type ℓ
IsBlind id view =
    (nid : String) (f : NotificationRow → NotificationRow)
    → ((n : NotificationRow) → (f n).id ≡ n.id)
    → (nid == id) ≡ false
    → (rows : List NotificationRow) → view (update_where (has_note_id nid) f rows) ≡ view rows

-- No row of that id is due.
abbrev pub IsSettled : String → List NotificationRow → Type 0
IsSettled id rows = any (λ n. has_note_id id n && is_due n) rows ≡ false

IsSettled-rows :
    (id : String) (rows : List NotificationRow)
    → IsSettled id rows
    → All (λ n. (has_note_id id n && is_due n) ≡ false) rows
IsSettled-rows id [] h = tt
IsSettled-rows id (n ∷ rows) h = elim (Bool-cases (has_note_id id n && is_due n)) [
  | inl e ↦ absurd (ground (arith, e, h))
  | inr e ↦ (e, IsSettled-rows id rows (ground (arith, e, h)))
]

All-others :
    (id : String) (rows : List NotificationRow)
    → All (λ n. ((has_note_id id n && is_due n) ≡ false) × (is_due n ≡ true)) rows
    → All (λ n. has_note_id id n ≡ false) rows
All-others id [] h = tt
All-others id (n ∷ rows) ((a, b), h) = (ground (arith, a, b), All-others id rows h)

list_due_notifications-other :
    (db : Db) (limit : ℕ) (id : String)
    → IsSettled id db.notifications
    → All (λ n. has_note_id id n ≡ false) (list_due_notifications db limit)
unfolding list_due_notifications
list_due_notifications-other db limit id h =
    All-take (λ n. has_note_id id n ≡ false) limit _
      (All-sort_by (λ n. n.created_at) (λ n. has_note_id id n ≡ false)
        (filter is_due db.notifications)
        (All-others id (filter is_due db.notifications) (
          All-filter_holds (λ n. (has_note_id id n && is_due n) ≡ false) is_due db.notifications
            (IsSettled-rows id db.notifications h))))

module _ {ℓ} {B : Type ℓ} (transport : NotificationRow → Option String) (id : String)
    (view : List NotificationRow → B) (blind : IsBlind id view) where
  settle-other :
      (c : Cycle) (n : NotificationRow) (now : ℕ) (error : Option String)
      → (n.id == id) ≡ false
      → view (settle c n now error).world.db.notifications ≡ view c.world.db.notifications
  unfolding settle mark_sent mark_failed mark_retrying
  settle-other c n now none ne = blind n.id (sent_row now) (λ m. refl) ne c.world.db.notifications
  settle-other c n now (some error) ne = elim (Bool-cases (leb n.max_attempts (n.attempts + 1))) [
    | inl e ↦
        rw e (blind n.id (unsent_row failed error now) (λ m. refl) ne c.world.db.notifications)
    | inr e ↦
        rw e (blind n.id (unsent_row retrying error now) (λ m. refl) ne c.world.db.notifications)
  ]

  attempt-other :
      (c : Cycle) (n : NotificationRow) (now : ℕ)
      → (n.id == id) ≡ false
      → view (attempt transport c n now).world.db.notifications ≡ view c.world.db.notifications
  unfolding attempt
  attempt-other c n now ne = elim (Bool-cases (is_throttled c.throttle n now)) [
    | inl e ↦ rw e refl
    | inr e ↦ rw e (
        settle-other (record c { throttle = insert (throttle_key n) now c.throttle }) n now
          (dispatch transport n) ne)
  ]

  attempts_of-other :
      (due : List NotificationRow) (c : Cycle) (now : ℕ)
      → All (λ n. has_note_id id n ≡ false) due
      → view (attempts_of transport c due now).world.db.notifications
        ≡ view c.world.db.notifications
  unfolding attempts_of
  attempts_of-other [] c now h = refl
  attempts_of-other (n ∷ due) c now (ne, h) =
      attempts_of-other due (attempt transport c n now) now h ∙ attempt-other c n now ne

  pub poll-blind :
      (w : World) (throttle : Map ℕ) (now : ℕ)
      → IsSettled id w.db.notifications
      → view (poll transport w throttle now).world.db.notifications ≡ view w.db.notifications
  unfolding poll
  poll-blind w throttle now h =
      attempts_of-other (list_due_notifications w.db 25)
        (record { world = w; throttle = throttle; sent = 0; failed = 0; throttled = 0 }) now
        (list_due_notifications-other w.db 25 id h)

-- A notification that is not due, since it was sent, or has failed for good, or has used up its
-- attempts, is left exactly as it is by a cycle of the queue, whatever else is due and however the
-- transport answers: it is not sent again, and gets no further attempt.
pub poll-IsSettled :
    (transport : NotificationRow → Option String) (w : World) (throttle : Map ℕ) (now : ℕ)
    (id : String)
    → IsSettled id w.db.notifications
    → find (has_note_id id) (poll transport w throttle now).world.db.notifications
      ≡ find (has_note_id id) w.db.notifications
poll-IsSettled transport w throttle now id h =
    poll-blind transport id (find (has_note_id id))
      (λ nid f keep ne rows. find-update_where_other nid id f keep ne rows) w throttle now h
