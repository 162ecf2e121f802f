-- ===== src/Executor/Run/Worker.antt =====
-- nea/src/executor.rs: the loops of a worker, for any number of rounds.
use nea.Base.{ℕ, zero, suc, ◌≡◌, refl, Option, none, some, List, ok, panic, Result}
use nea.Index.{BucketIndex}
use nea.Queue.{set_slot, done_with_bucket, NextStep, done, go_again}
use nea.Queue.Slot.{QueueSlot}
use nea.Queue.Bounds.{leave-Queued}
use nea.Executor.{
  Inner, Outcome, returns, fails, and_then, Action, Poll, DoneWithBucket, for_now, forever,
  out_of_memory_done, panic_done, Verdict, continues, leaves, set_queue,
}
use nea.Executor.Run.{
  run_job, run_bucket, leave_bucket, after_run, after_verdict, after_next, after_bucket,
  serve_bucket,
}
use nea.Executor.Run.Actions.{Steady, AllOwn}
use nea.Executor.Run.Idle.{
  Settled, SettledBy, Settles, Steady-queue, Settled-queue, run_job-Settles,
}

-- What comes behind a step that settles its bucket.
and_then-Settles :
    {F C A B : Type 0} {n size b : ℕ} (o : Outcome (Inner F C) A)
    (k : Inner F C → A → Outcome (Inner F C) B)
    → Settles n size b o
    → ((a : A) → Steady n size b o.state → Settled size o.state b → Settles n size b (k o.state a))
    → Settles n size b (and_then o k)
and_then-Settles {F} {C} {A} {B} {n} {size} {b} o k (st, settled) rest = go o.result settled
  where
    go :
        (r : Result A)
        → SettledBy size o.state b r
        → Settles n size b (elim r as (λ _. Outcome (Inner F C) B) [
          | ok a ↦ k o.state a
          | panic p ↦ fails o.state p
        ])
    go (ok a) settled = rest a st settled
    go (panic p) settled = (st, tt)

module _ {F C : Type 0} {n size : ℕ} (b : BucketIndex) where
  pub leave_bucket-Settles :
      (s : Inner F C)
      → Steady n size b.index s
      → Settled size s b.index
      → Settles n size b.index (leave_bucket s b)
  unfolding leave_bucket
  leave_bucket-Settles s st settled = go (done_with_bucket (s.queue.slot b.index)) refl
    where
      go :
          (r : Result (NextStep × QueueSlot))
          → done_with_bucket (s.queue.slot b.index) ≡ r
          → Settles n size b.index (elim r as (λ _. Outcome (Inner F C) NextStep) [
            | ok (next, slot) ↦ returns (set_queue s (set_slot s.queue b.index slot)) next
            | panic p ↦ fails s p
          ])
      go (ok (next, slot)) e =
          let q = set_slot s.queue b.index slot in
          (Steady-queue q st (leave-Queued s.queue b.index st.queued e), Settled-queue q settled)
      go (panic p) e = (st, tt)

  after_run-Settles :
      (s : Inner F C) (why : DoneWithBucket)
      → Steady n size b.index s
      → Settled size s b.index
      → Settles n size b.index (after_run s b why)
  unfolding after_run
  after_run-Settles s for_now st settled = leave_bucket-Settles s st settled
  after_run-Settles s forever st settled = leave_bucket-Settles s st settled
  after_run-Settles s out_of_memory_done st settled = (st, settled)
  after_run-Settles s panic_done st settled = (st, settled)

  after_verdict-Settles :
      (again : Inner F C → Outcome (Inner F C) (Option DoneWithBucket)) (s : Inner F C)
      (v : Verdict)
      → Steady n size b.index s
      → Settled size s b.index
      → Settles n size b.index (again s)
      → Settles n size b.index (after_verdict again s v)
  after_verdict-Settles again s continues st settled rest = rest
  after_verdict-Settles again s (leaves why) st settled rest = (st, settled)

  after_next-Settles :
      (again : Inner F C → Outcome (Inner F C) (Option NextStep)) (s : Inner F C) (next : NextStep)
      → Steady n size b.index s
      → Settled size s b.index
      → Settles n size b.index (again s)
      → Settles n size b.index (after_next again s next)
  after_next-Settles again s done st settled rest = (st, settled)
  after_next-Settles again s go_again st settled rest = rest

  after_bucket-Settles :
      (again : Inner F C → Outcome (Inner F C) (Option NextStep)) (s : Inner F C)
      (why : Option DoneWithBucket)
      → Steady n size b.index s
      → Settled size s b.index
      → ((s' : Inner F C)
          → Steady n size b.index s'
          → Settled size s' b.index
          → Settles n size b.index (again s'))
      → Settles n size b.index (after_bucket again b s why)
  after_bucket-Settles again s none st settled rest = (st, settled)
  after_bucket-Settles again s (some why) st settled rest =
      let s' = (after_run s b why).state in
      and_then-Settles (after_run s b why) (after_next again) (after_run-Settles s why st settled)
        (λ next st' settled'. after_next-Settles again s' next st' settled' (rest s' st' settled'))

module _ {F C : Type 0} (poll_future : F → List (Action C) × Poll F)
    (poll_connection : C → List (Action C) × Poll C) {n size : ℕ} (b : BucketIndex)
    (own_future : (fut : F) → AllOwn b.index (poll_future fut).0)
    (own_connection : (conn : C) → AllOwn b.index (poll_connection conn).0) where
  run_bucket-Settles :
      (fuel : ℕ) (s : Inner F C)
      → Steady n size b.index s
      → Settled size s b.index
      → Settles n size b.index (run_bucket poll_future poll_connection fuel s b)
  unfolding run_bucket
  run_bucket-Settles zero s st settled = (st, settled)
  run_bucket-Settles (suc fuel) s st settled =
      let s' = (run_job poll_future poll_connection s b).state in
      and_then-Settles (run_job poll_future poll_connection s b)
        (after_verdict (λ x. run_bucket poll_future poll_connection fuel x b))
        (run_job-Settles poll_future poll_connection b own_future own_connection s st settled)
        (λ v st' settled'.
          after_verdict-Settles b (λ x. run_bucket poll_future poll_connection fuel x b) s' v st'
            settled' (run_bucket-Settles fuel s' st' settled'))

  -- A worker in the inner loop of `run_worker`, for any number of rounds and jobs, on a bucket that
  -- has a right count above 0, or a count of 0, no future, no connection and all of its memory,
  -- among `n` buckets whose indices fit, whose memory is set up, with fewer than 254 connections
  -- each, with right counts, and with a queue whose words are in range and hold offsets of a bucket
  -- alone, when a poll reserves connections and allocates in its own bucket alone, at alignments
  -- that are powers of two up to the page size: behind it the counts of the other buckets, the
  -- memory and the queue are as described, and unless the worker has panicked its bucket is again
  -- in one of the two states. Of its own bucket nothing is said if the worker has panicked.
  pub serve_bucket-Settles :
      (rounds fuel : ℕ) (s : Inner F C)
      → Steady n size b.index s
      → Settled size s b.index
      → Settles n size b.index (serve_bucket poll_future poll_connection rounds fuel s b)
  unfolding serve_bucket
  serve_bucket-Settles zero fuel s st settled = (st, settled)
  serve_bucket-Settles (suc rounds) fuel s st settled =
      let again = λ (x : Inner F C). serve_bucket poll_future poll_connection rounds fuel x b in
      and_then-Settles (run_bucket poll_future poll_connection fuel s b) (after_bucket again b)
        (run_bucket-Settles fuel s st settled)
        (λ why st' settled'.
          after_bucket-Settles b again (run_bucket poll_future poll_connection fuel s b).state why
            st' settled' (serve_bucket-Settles rounds fuel))
