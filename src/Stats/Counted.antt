-- ===== src/Stats/Counted.antt =====
-- What the counters of a queue count, over any interleaving of the jobs of its workers.
use ops_mesh.Base.{
  ℕ, ◌+◌, ◌-◌, ◌≡◌, ap, Bool, true, false, ◌&&◌, ◌||◌, some, List, [], ◌∷◌, String, ◌==◌, string_eq,
  if◌then◌else◌, leb, Map, lookup, arith, eq_iff,
}
use ops_mesh.Stats.{
  update_key, upsert_key, Stats, QueueRow, one_more, one_less, one_completed, one_published,
  empty_queue, record_job_start, record_job_done, record_job_failed, record_published,
  record_queue_completed, counter, queue_stat,
}

-- A write of a counter, with its worker, its queue and its time.
pub data Step : Type 0 where
  start done failed_ : (id queue : String) (now : ℕ) → Step
  published_ completed_ : (queue : String) (now : ℕ) → Step

abbrev pub write : Step → Stats → Stats
write (start id queue now) s = record_job_start id queue now s
write (done id queue now) s = record_job_done id queue now s
write (failed_ id queue now) s = record_job_failed id queue now s
write (published_ queue now) s = record_published queue now s
write (completed_ queue now) s = record_queue_completed queue now s

unfoldable pub write_all : List Step → Stats → Stats
write_all [] s = s
write_all (t ∷ steps) s = write_all steps (write t s)

abbrev pub is_start : String → Step → Bool
is_start q (start id queue now) = queue == q
is_start q _ = false

abbrev pub is_done : String → Step → Bool
is_done q (done id queue now) = queue == q
is_done q _ = false

abbrev pub is_failed : String → Step → Bool
is_failed q (failed_ id queue now) = queue == q
is_failed q _ = false

abbrev pub is_published : String → Step → Bool
is_published q (published_ queue now) = queue == q
is_published q _ = false

abbrev pub is_completed : String → Step → Bool
is_completed q (completed_ queue now) = queue == q
is_completed q _ = false

unfoldable pub count : (Step → Bool) → List Step → ℕ
count p [] = 0
count p (t ∷ steps) = if p t then 1 + count p steps else count p steps

-- With n jobs of the queue in flight, no job of it ends before it has started.
unfoldable pub is_bracketed : String → ℕ → List Step → Bool
is_bracketed q n [] = true
is_bracketed q n (t ∷ steps) =
    let here = is_bracketed q n steps in
    let more = is_bracketed q (n + 1) steps in
    let less = is_bracketed q (n - 1) steps in
    if is_start q t then more else (if is_done q t || is_failed q t then leb 1 n && less else here)

-- The row of the queue after one write.
abbrev row_after : String → Step → QueueRow → QueueRow
row_after q (start id queue now) r = if queue == q then one_more r else r
row_after q (done id queue now) r = if queue == q then one_completed now (one_less r) else r
row_after q (failed_ id queue now) r =
    if queue == q then record (one_less r) { failed = r.failed + 1 } else r
row_after q (published_ queue now) r = if queue == q then one_published r else r
row_after q (completed_ queue now) r = if queue == q then one_completed now r else r

lookup-update_key :
    (f : QueueRow → QueueRow) (k q : String) (r : QueueRow) (m : Map QueueRow)
    → lookup q m ≡ some r
    → lookup q (update_key f k m) ≡ some (if k == q then f r else r)
unfolding lookup
lookup-update_key f k q r [] h = ground arith
lookup-update_key f k q r ((i, w) ∷ m) h =
    ground (arith, lookup-update_key f k q r m, eq_iff k q, eq_iff i q, eq_iff i k)

lookup-upsert_key :
    (v : QueueRow) (f : QueueRow → QueueRow) (k q : String) (r : QueueRow) (m : Map QueueRow)
    → lookup q m ≡ some r
    → lookup q (upsert_key v f k m) ≡ some (if k == q then f r else r)
unfolding lookup
lookup-upsert_key v f k q r [] h = ground arith
lookup-upsert_key v f k q r ((i, w) ∷ m) h =
    ground (arith, lookup-upsert_key v f k q r m, eq_iff k q, eq_iff i q, eq_iff i k)

lookup-write :
    (q : String) (t : Step) (s : Stats) (r : QueueRow)
    → lookup q s.queues ≡ some r
    → lookup q (write t s).queues ≡ some (row_after q t r)
unfolding record_job_start record_job_done record_job_failed record_published record_queue_completed
lookup-write q (start id queue now) s r h =
    lookup-upsert_key (one_more (empty_queue now)) one_more queue q r s.queues h
lookup-write q (done id queue now) s r h =
    lookup-update_key (λ x. one_completed now (one_less x)) queue q r s.queues h
lookup-write q (failed_ id queue now) s r h =
    lookup-update_key (λ x. record (one_less x) { failed = x.failed + 1 }) queue q r s.queues h
lookup-write q (published_ queue now) s r h =
    lookup-upsert_key (one_published (empty_queue now)) one_published queue q r s.queues h
lookup-write q (completed_ queue now) s r h =
    lookup-update_key (one_completed now) queue q r s.queues h

-- The counters of a row, with what a run adds to them.
pub record Adds (q : String) (steps : List Step) (before after : QueueRow) : Type 0 where
  pub published : after.published ≡ before.published + count (is_published q) steps
  pub in_flight :
      after.processing + count (is_done q) steps + count (is_failed q) steps
      ≡ before.processing + count (is_start q) steps
  pub completed :
      after.completed ≡ before.completed + count (is_done q) steps + count (is_completed q) steps
  pub failed : after.failed ≡ before.failed + count (is_failed q) steps

tally_cons :
    (q : String) (t : Step) (steps : List Step) (r after : QueueRow)
    → is_bracketed q r.processing (t ∷ steps) ≡ true
    → Adds q steps (row_after q t r) after
    → Adds q (t ∷ steps) r after
unfolding count is_bracketed
tally_cons q t steps r after h tl = record {
  published = ground (arith, tl.published);
  in_flight = ground (arith, tl.in_flight);
  completed = ground (arith, tl.completed);
  failed = ground (arith, tl.failed);
}

bracketed_after :
    (q : String) (t : Step) (steps : List Step) (r : QueueRow)
    → is_bracketed q r.processing (t ∷ steps) ≡ true
    → is_bracketed q (row_after q t r).processing steps ≡ true
unfolding is_bracketed
bracketed_after q t steps r h = ground arith

tally :
    (q : String) (steps : List Step) (s : Stats) (r : QueueRow)
    → lookup q s.queues ≡ some r
    → is_bracketed q r.processing steps ≡ true
    → (after : QueueRow) × (lookup q (write_all steps s).queues ≡ some after) × Adds q steps r after
unfolding write_all count
tally q [] s r h b = (
  r,
  h,
  record {
    published = omega arith;
    in_flight = omega arith;
    completed = omega arith;
    failed = omega arith;
  },
)
tally q (t ∷ steps) s r h b =
    let (after, found, counted) =
      tally q steps (write t s) (row_after q t r) (lookup-write q t s r h)
        (bracketed_after q t steps r b) in
    (after, found, tally_cons q t steps r after b counted)

-- From a queue's empty row, over any interleaving of writes of any workers and queues in which no
-- job of this queue ends before it has started, the list of queues shows: as completed the jobs
-- that were done and the deliveries that the API completed, as failed the failed jobs, as in
-- process the jobs started that have not ended, and as waiting the published messages less the
-- started jobs and the API's deliveries, or 0 where these are more.
pub queue_stat-write_all :
    (q : String) (now : ℕ) (steps : List Step) (s : Stats)
    → lookup q s.queues ≡ some (empty_queue now)
    → is_bracketed q 0 steps ≡ true
    → ((queue_stat (write_all steps s) q).completed
        ≡ count (is_done q) steps + count (is_completed q) steps)
      × ((queue_stat (write_all steps s) q).failed ≡ count (is_failed q) steps)
      × ((queue_stat (write_all steps s) q).processing
            + count (is_done q) steps
            + count (is_failed q) steps
          ≡ count (is_start q) steps)
      × ((queue_stat (write_all steps s) q).waiting
          ≡ count (is_published q) steps
            - (count (is_start q) steps + count (is_completed q) steps))
unfolding queue_stat
queue_stat-write_all q now steps s h b =
    let (after, found, t) = tally q steps s (empty_queue now) h b in
    let c : counter (λ r. r.completed) (lookup q (write_all steps s).queues) ≡ after.completed =
      ap (counter (λ r. r.completed)) found in
    let f : counter (λ r. r.failed) (lookup q (write_all steps s).queues) ≡ after.failed =
      ap (counter (λ r. r.failed)) found in
    let p : counter (λ r. r.processing) (lookup q (write_all steps s).queues) ≡ after.processing =
      ap (counter (λ r. r.processing)) found in
    let m : counter (λ r. r.published) (lookup q (write_all steps s).queues) ≡ after.published =
      ap (counter (λ r. r.published)) found in
    (
      omega (arith, c, t.completed),
      omega (arith, f, t.failed),
      omega (arith, p, t.in_flight),
      omega (arith, c, f, p, m, t.completed, t.failed, t.in_flight, t.published),
    )
