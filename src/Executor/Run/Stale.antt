-- ===== src/Executor/Run/Stale.antt =====
-- nea/src/executor.rs: a wake of the main future of a bucket that nobody has.
use nea.Base.{ℕ, zero, suc, ◌≡◌, refl, ap, ◌∙◌, arith, true, Option, none, some, List, ◌∷◌}
use nea.Index.{BucketIndex}
use nea.Index.Kinds.{from_index_stream}
use nea.Queue.{set_slot}
use nea.Queue.Slot.{QueueSlot, dequeue}
use nea.Queue.Jobs.{has_job, Dequeued, dequeue-Dequeued}
use nea.Queue.Bounds.{dequeue-Queued}
use nea.Executor.{Inner, returns, Action, Poll, leaves, panic_done, panicked, set_queue}
use nea.Executor.Run.{run_job, run_offset, dispatch, give_up}
use nea.Executor.Run.Balance.{no_future_of}
use nea.Executor.Run.Cleanup.{cleanup_bucket-IsFree}
use nea.Executor.Run.Actions.{Steady}
use nea.Executor.Run.Release.{Freed}
use nea.Executor.Run.Rounds.{place}
use nea.Executor.Run.Idle.{Steady-queue, idle_stream}

-- The main future is the first job.
first_job :
    (s s' : QueueSlot) (job : Option ℕ) → Dequeued s job s' → has_job s 0 ≡ true → job ≡ some 0
first_job s s' none (empty, _) has = absurd (ground (arith, empty 0))
first_job s s' (some zero) d has = refl
first_job s s' (some (suc k)) (_, least, _, _, _) has =
    absurd (ground (arith, least 0 (omega arith)))

module _ {F C : Type 0} (poll_future : F → List (Action C) × Poll F)
    (poll_connection : C → List (Action C) × Poll C) {n size : ℕ} (b : BucketIndex) where
  give_up_lem :
      (s : Inner F C) (x : BucketIndex)
      → Steady n size x.index s
      → (s' : Inner F C) × (give_up s x panicked panic_done ≡ returns s' (leaves panic_done))
        × (s'.responses ≡ (s.tcp_streams x.index, panicked) ∷ s.responses)
        × (s'.closed ≡ s.tcp_streams x.index ∷ s.closed)
  unfolding give_up
  give_up_lem s x st =
      let (s', e, _, _, _, response, closed) =
        cleanup_bucket-IsFree s x panicked n size st.arenas st.exists in
      (s', rw e refl, response, closed)

  -- A poll of the main future, whose index is that of the bucket.
  stream_offset :
      (s : Inner F C)
      → Steady n size b.index s
      → s.futures b.index ≡ none
      → run_offset poll_future poll_connection s b (some 0)
        ≡ give_up s (record { identifier = 0; index = b.index }) panicked panic_done
  unfolding run_offset dispatch
  stream_offset s st no_future = rw (place b s 0 st (omega (arith, st.resources.has_stream))) (
      rw (from_index_stream st.resources 0 b.index st.exists) (
        idle_stream poll_future poll_connection s (record { identifier = 0; index = b.index })
          no_future))

  -- A round on a bucket with the job of its main future, but without that future.
  pub stale_run :
      (s : Inner F C)
      → Steady n size b.index s
      → s.futures b.index ≡ none
      → has_job (s.queue.slot b.index) 0 ≡ true
      → run_job poll_future poll_connection s b
        ≡ give_up
            (set_queue s (set_slot s.queue b.index (dequeue (s.queue.slot b.index)).1))
            (record { identifier = 0; index = b.index })
            panicked
            panic_done
  unfolding run_job
  stale_run s st no_future has =
      let (job, slot) = dequeue (s.queue.slot b.index) in
      let first =
        first_job (s.queue.slot b.index) slot job
          (dequeue-Dequeued (s.queue.slot b.index) (st.queued.words b.index)) has in
      let q = set_slot s.queue b.index slot in
      let st' = Steady-queue q st (dequeue-Queued s.queue b.index st.queued) in
      ap (run_offset poll_future poll_connection (set_queue s q) b) first
      ∙ stream_offset (set_queue s q) st' no_future

  -- When the job of the main future is in the word of a bucket with a count of 0, no job and all of
  -- its memory, on a server as for a round of `run_bucket`, then the next round leaves the bucket
  -- as after a panic: it has sent an error response to the descriptor that the last request left,
  -- and has closed that again.
  pub stale_wake :
      (s : Inner F C)
      → Steady n size b.index s
      → Freed size s b.index
      → has_job (s.queue.slot b.index) 0 ≡ true
      → (s' : Inner F C) × (run_job poll_future poll_connection s b
          ≡ returns s' (leaves panic_done))
        × (s'.responses ≡ (s.tcp_streams b.index, panicked) ∷ s.responses)
        × (s'.closed ≡ s.tcp_streams b.index ∷ s.closed)
  stale_wake s st free has =
      let q = set_slot s.queue b.index (dequeue (s.queue.slot b.index)).1 in
      let st' = Steady-queue q st (dequeue-Queued s.queue b.index st.queued) in
      let (s', e, response, closed) =
        give_up_lem (set_queue s q) (record { identifier = 0; index = b.index }) st' in
      (
        s',
        stale_run s st (no_future_of (s.futures b.index) (omega (arith, free.no_job))) has ∙ e,
        response,
        closed,
      )
