-- ===== src/Executor/Run.antt =====
-- nea/src/executor.rs: the loops of a worker over the jobs of a bucket, and the clean-up.
pub mod Cleanup
pub mod Balance
pub mod Actions
mod Polls
pub mod Release
pub mod Jobs
pub mod Rounds
pub mod Idle
pub mod Worker
pub mod Calm
pub mod Ends
pub mod Stale
pub mod Apart
pub mod Panics
mod Tests
use nea.Base.{
  ℕ, zero, suc, ◌+◌, ◌-◌, ◌*◌, ◌%◌, ◌^◌, ◌==◌, Bool, true, false, Option, none, some, if◌then◌else◌,
  List, [], ◌∷◌, update, u32, Result, ok, panic, Panic, explicit_panic, memory_exhausted,
  assertion_failed, divide_by_zero, out_of_bounds, arithmetic_overflow, todo_reached,
  unreachable_reached, unwrap_failed,
}
use nea.Index.{
  per_bucket, Range, http_connections_of, BucketIndex, ConnectionIndex, QueueIndex, IoIndex,
  input_stream, http_connection, from_index,
}
use nea.Queue.{done_with_bucket, NextStep, done, go_again, set_slot}
use nea.Queue.Slot.{dequeue}
use nea.Allocator.{clear_bucket}
use nea.Executor.{
  Slot, empty, reserved, occupied, CleanupReason, out_of_memory, panicked, Inner, Outcome, returns,
  fails, and_then, Action, Poll, pending, ready, panics, oom, DoneWithBucket, for_now, forever,
  out_of_memory_done, panic_done, Verdict, continues, leaves, set_queue, act_all,
}

module _ {C : Type 0} where
  -- The slots of `left` connections from `i` on are emptied.
  pub clear_connections : (ℕ → Slot C) → ℕ → ℕ → ℕ → Slot C
  clear_connections slots zero i = slots
  clear_connections slots (suc left) i = clear_connections (update slots i empty) left (i + 1)

module _ {F C : Type 0} where
  -- The error response is written to the stream of the bucket, which is closed behind it.
  pub cleanup_bucket : Inner F C → BucketIndex → CleanupReason → Outcome (Inner F C) (Unit {0})
  cleanup_bucket s b reason =
      let raw_fd = s.tcp_streams b.index in
      let range = http_connections_of s.io_resources b in
      let s' = record s {
        responses = (raw_fd, reason) ∷ s.responses;
        closed = raw_fd ∷ s.closed;
        connections = clear_connections s.connections (range.end - range.start) range.start;
        futures = update s.futures b.index none;
      } in
      elim (clear_bucket s.allocator b.index) [
        | ok a ↦ returns (record s' { allocator = a; refcounts = update s.refcounts b.index 0 }) tt
        | panic p ↦ fails s' p
      ]

  -- A job has finished: the last one of a bucket frees its memory. The count is a u8.
  pub finish_job : Inner F C → ℕ → Outcome (Inner F C) Verdict
  finish_job s b =
      let rc = s.refcounts b in
      if rc == 1
      then (elim (clear_bucket s.allocator b) [
        | ok a ↦
            returns (record s { allocator = a; refcounts = update s.refcounts b 0 })
              (leaves forever)
        | panic p ↦ fails s p
      ])
      else returns (record s { refcounts = update s.refcounts b ((rc + 255) % 2 ^ 8) }) continues

  unfoldable pub give_up :
      Inner F C → BucketIndex → CleanupReason → DoneWithBucket → Outcome (Inner F C) Verdict
  give_up s b reason why = and_then (cleanup_bucket s b reason) λ s' _. returns s' (leaves why)

  -- What a worker does behind a poll of the main future of a bucket.
  pub after_input_stream : Inner F C → BucketIndex → Poll F → Outcome (Inner F C) Verdict
  after_input_stream s b (pending fut) =
      returns (record s { futures = update s.futures b.index (some fut) }) continues
  after_input_stream s b ready =
      finish_job
        (record s {
          futures = update s.futures b.index none;
          closed = s.tcp_streams b.index ∷ s.closed;
        })
        b.index
  after_input_stream s b panics = give_up s b panicked panic_done
  after_input_stream s b oom = give_up s b out_of_memory out_of_memory_done

  -- The same behind a poll of a connection; a panic is not caught, and ends the worker.
  pub after_http_connection :
      Inner F C → BucketIndex → ConnectionIndex → Poll C → Outcome (Inner F C) Verdict
  after_http_connection s b c (pending conn) =
      returns (record s { connections = update s.connections c.index (occupied conn) }) continues
  after_http_connection s b c ready =
      finish_job (record s { connections = update s.connections c.index empty }) b.index
  after_http_connection s b c panics = fails s explicit_panic
  after_http_connection s b c oom = give_up s b out_of_memory out_of_memory_done

  -- Behind a `run_bucket` that has not cleaned up: whether the worker is done with the bucket.
  pub leave_bucket : Inner F C → BucketIndex → Outcome (Inner F C) NextStep
  leave_bucket s b = elim (done_with_bucket (s.queue.slot b.index)) [
    | ok (next, slot) ↦ returns (set_queue s (set_slot s.queue b.index slot)) next
    | panic p ↦ fails s p
  ]

  pub after_run : Inner F C → BucketIndex → DoneWithBucket → Outcome (Inner F C) NextStep
  after_run s b for_now = leave_bucket s b
  after_run s b forever = leave_bucket s b
  after_run s b out_of_memory_done = returns s go_again
  after_run s b panic_done = returns s go_again

module _ {F C : Type 0} where
  -- Where a round of `run_bucket` leads, with the rest of the loop.
  abbrev pub after_verdict :
      (Inner F C → Outcome (Inner F C) (Option DoneWithBucket))
      → Inner F C
      → Verdict
      → Outcome (Inner F C) (Option DoneWithBucket)
  after_verdict again s continues = again s
  after_verdict again s (leaves why) = returns s (some why)

  -- Where the inner loop of `run_worker` goes on, with the rest of the loop.
  abbrev pub after_next :
      (Inner F C → Outcome (Inner F C) (Option NextStep))
      → Inner F C
      → NextStep
      → Outcome (Inner F C) (Option NextStep)
  after_next again s done = returns s (some done)
  after_next again s go_again = again s

  abbrev pub after_bucket :
      (Inner F C → Outcome (Inner F C) (Option NextStep))
      → BucketIndex
      → Inner F C
      → Option DoneWithBucket
      → Outcome (Inner F C) (Option NextStep)
  after_bucket again b s none = returns s none
  after_bucket again b s (some why) = and_then (after_run s b why) (after_next again)

-- A call that jumps back to the worker has run out of memory; any other has panicked.
pub stopped : {A : Type 0} → Panic → Poll A
stopped memory_exhausted = oom
stopped assertion_failed = panics
stopped divide_by_zero = panics
stopped out_of_bounds = panics
stopped arithmetic_overflow = panics
stopped todo_reached = panics
stopped unreachable_reached = panics
stopped unwrap_failed = panics
stopped explicit_panic = panics

-- How a poll ends whose calls may not all return.
abbrev pub poll_result : {S A : Type 0} → Outcome S (Unit {0}) → Poll A → Poll A
poll_result o r = elim o.result [ ok _ ↦ r | panic p ↦ stopped p ]

module _ {F C : Type 0} (poll_future : F → List (Action C) × Poll F)
    (poll_connection : C → List (Action C) × Poll C) where
  -- The input stream of a bucket with no future is a panic of `poll_input_stream`.
  pub input_stream_job : Inner F C → BucketIndex → Outcome (Inner F C) Verdict
  input_stream_job s b = elim (s.futures b.index) [
    | none ↦ after_input_stream s b panics
    | some fut ↦
        let (actions, r) = poll_future fut in
        let o = act_all s actions in after_input_stream o.state b (poll_result o r)
  ]

  pub http_connection_job : Inner F C → BucketIndex → ConnectionIndex → Outcome (Inner F C) Verdict
  http_connection_job s b c = elim (s.connections c.index) [
    | empty ↦ returns s continues
    | reserved ↦ fails s explicit_panic
    | occupied conn ↦
        let (actions, r) = poll_connection conn in
        let o = act_all s actions in after_http_connection o.state b c (poll_result o r)
  ]

  pub dispatch : Inner F C → BucketIndex → Result IoIndex → Outcome (Inner F C) Verdict
  dispatch s b (ok (input_stream bucket)) = input_stream_job s bucket
  dispatch s b (ok (http_connection c)) = http_connection_job s b c
  dispatch s b (panic p) = fails s p

  pub run_offset : Inner F C → BucketIndex → Option ℕ → Outcome (Inner F C) Verdict
  run_offset s b none = returns s (leaves for_now)
  run_offset s b (some offset) = dispatch s b (
      from_index s.io_resources (record {
        identifier = 0;
        index = u32 (u32 (b.index * u32 (per_bucket s.io_resources)) + u32 offset);
      }))

  -- One round of the loop in `run_bucket`.
  pub run_job : Inner F C → BucketIndex → Outcome (Inner F C) Verdict
  run_job s b =
      let (job, slot) = dequeue (s.queue.slot b.index) in
      run_offset (set_queue s (set_slot s.queue b.index slot)) b job

  -- `run_bucket`, with `none` where the fuel does not reach.
  pub run_bucket : ℕ → Inner F C → BucketIndex → Outcome (Inner F C) (Option DoneWithBucket)
  run_bucket zero s b = returns s none
  run_bucket (suc fuel) s b = and_then (run_job s b) (after_verdict (λ s'. run_bucket fuel s' b))

  -- The inner loop of `run_worker`, for one bucket that it has taken from the queue; `rounds` bounds
  -- the calls of `run_bucket`, and `fuel` the jobs of each. `none` where these do not reach.
  pub serve_bucket : ℕ → ℕ → Inner F C → BucketIndex → Outcome (Inner F C) (Option NextStep)
  serve_bucket zero fuel s b = returns s none
  serve_bucket (suc rounds) fuel s b =
      and_then (run_bucket fuel s b) (after_bucket (λ s'. serve_bucket rounds fuel s' b) b)
