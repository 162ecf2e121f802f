-- ===== src/Executor/Run/Rounds.antt =====
-- nea/src/executor.rs: one round of the loop in `run_bucket`.
use nea.Base.{
  todo_reached, ℕ, ◌+◌, ◌*◌, ◌<◌, ◌≡◌, inl, inr, refl, arith, Option, none, some, List, ok, u32,
}
use nea.Index.{per_bucket, BucketIndex}
use nea.Index.Buckets.{width, width-lt, per_bucket-eq}
use nea.Index.Division.{parts_lt}
use nea.Index.Kinds.{from_index_cases}
use nea.Queue.{set_slot}
use nea.Queue.Slot.{dequeue, QueueSlot}
use nea.Queue.Jobs.{dequeue-Dequeued, Dequeued}
use nea.Queue.Bounds.{dequeue-Queued}
use nea.Executor.{leaves, for_now, Outcome, returns, Verdict, fails, Inner, Action, Poll, set_queue}
use nea.Executor.Run.{input_stream_job, http_connection_job, run_job, run_offset, dispatch}
use nea.Executor.Run.Actions.{Steady, Held, AllOwn, Kept-queue}
use nea.Executor.Run.Release.{Served}
use nea.Executor.Run.Jobs.{input_stream_job-Served, http_connection_job-Served}

module _ {F C : Type 0} {n size : ℕ} (b : BucketIndex) where
  -- The queue index of an offset, with no wrap.
  pub place :
      (s : Inner F C) (k : ℕ)
      → Steady n size b.index s
      → k < width s.io_resources
      → u32 (u32 (b.index * u32 (per_bucket s.io_resources)) + u32 k)
        ≡ b.index * width s.io_resources + k
  place s k st k_lt =
      let e : u32 (per_bucket s.io_resources) ≡ width s.io_resources = omega (
        arith,
        per_bucket-eq st.resources (omega (arith, st.exists)),
        width-lt st.resources (omega (arith, st.exists)),
      ) in
      rw e (
        omega (
          arith,
          st.resources.indices_fit,
          parts_lt b.index n (width s.io_resources) k st.exists k_lt,
        ))

module _ {F C : Type 0} (poll_future : F → List (Action C) × Poll F)
    (poll_connection : C → List (Action C) × Poll C) {n size : ℕ} (b : BucketIndex)
    (own_future : (fut : F) → AllOwn b.index (poll_future fut).0)
    (own_connection : (conn : C) → AllOwn b.index (poll_connection conn).0) where
  -- What holds of all that an offset can lead to.
  pub run_offset_cases :
      (P : Outcome (Inner F C) Verdict → Type 0) (s : Inner F C) (job : Option ℕ)
      → Steady n size b.index s
      → ((k : ℕ) → job ≡ some k → k < width s.io_resources)
      → P (returns s (leaves for_now))
      → P (
          input_stream_job poll_future poll_connection s
            (record { identifier = 0; index = b.index }))
      → P (fails s todo_reached)
      → ((c : ℕ)
          → c < s.io_resources.http_connections
          → P (
              http_connection_job poll_future poll_connection s b
                (record { identifier = 0; index = b.index * s.io_resources.http_connections + c })))
      → P (run_offset poll_future poll_connection s b job)
  unfolding run_offset
  run_offset_cases P s none st inside later stream todo conn = later
  run_offset_cases P s (some k) st inside later stream todo conn =
      rw (place b s k st (inside k refl))
        (elim (from_index_cases st.resources 0 b.index k st.exists (inside k refl)) [
          | inl e ↦ unfold dispatch in rw e stream
          | inr (inl e) ↦ unfold dispatch in rw e todo
          | inr (inr (c, c_lt, e)) ↦ unfold dispatch in rw e (conn c c_lt)
        ])

  run_offset-Served :
      (s : Inner F C) (job : Option ℕ)
      → Steady n size b.index s
      → Held s b.index
      → ((k : ℕ) → job ≡ some k → k < width s.io_resources)
      → Served n size b.index (run_offset poll_future poll_connection s b job)
  run_offset-Served s job st h inside =
      run_offset_cases (Served n size b.index) s job st inside (st, h)
        (input_stream_job-Served poll_future poll_connection s
          (record { identifier = 0; index = b.index }) st h own_future)
        (st, tt)
        (λ c c_lt.
          http_connection_job-Served poll_future poll_connection s b st h
            (record { identifier = 0; index = b.index * s.io_resources.http_connections + c }) c
            own_connection refl c_lt)

  pub taken-lt :
      (s : Inner F C) (job : Option ℕ) (slot : QueueSlot) (k : ℕ)
      → Steady n size b.index s
      → job ≡ some k
      → Dequeued (s.queue.slot b.index) job slot
      → k < width s.io_resources
  taken-lt s none slot k st e d = absurd (ground arith)
  taken-lt s (some j) slot k st e d =
      let same : j ≡ k = ground arith in st.queued.inside b.index k (rw (← same) d.0)

  -- One round of `run_bucket` on a bucket with a right count above 0, among `n` buckets whose
  -- indices fit, whose memory is set up, with fewer than 254 connections each, with right counts,
  -- and with a queue whose words are in range and hold offsets of a bucket alone, when a poll
  -- reserves connections and allocates in its own bucket alone, at alignments that are powers of
  -- two up to the page size: whatever else the poll does, the counts of the other buckets stay
  -- right and the queue as described; and unless the worker panics, its bucket has a right count
  -- above 0 when the worker goes on or leaves for now, and otherwise a count of 0, no job and all
  -- of its memory.
  pub run_job-Served :
      (s : Inner F C)
      → Steady n size b.index s
      → Held s b.index
      → Served n size b.index (run_job poll_future poll_connection s b)
  unfolding run_job
  run_job-Served s st h =
      let (job, slot) = dequeue (s.queue.slot b.index) in
      let kept =
        Kept-queue st h (set_slot s.queue b.index slot) (ok tt)
          (dequeue-Queued s.queue b.index st.queued) in
      run_offset-Served (set_queue s (set_slot s.queue b.index slot)) job kept.steady
        (kept.still_held tt refl)
        (λ k e.
          taken-lt s job slot k st e
            (dequeue-Dequeued (s.queue.slot b.index) (st.queued.words b.index)))
