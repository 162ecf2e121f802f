-- ===== src/Executor/Run/Apart/Jobs.antt =====
-- nea/src/executor.rs: what a round of a worker leaves alone of the other buckets.
use nea.Base.{
  ℕ, ◌+◌, ◌-◌, ◌*◌, ◌==◌, ◌%◌, ◌^◌, true, false, ◌≡◌, ◌≢◌, refl, arith, Bool, Option, none, some,
  List, ◌∷◌, update, ok, panic, Result, explicit_panic, if◌then◌else◌,
}
use nea.Index.{http_connections_of, BucketIndex, ConnectionIndex}
use nea.Queue.{NextStep, done_with_bucket, set_slot}
use nea.Queue.Slot.{QueueSlot, dequeue}
use nea.Queue.Jobs.{dequeue-Dequeued}
use nea.Queue.Bounds.{dequeue-Queued}
use nea.Allocator.{ServerAlloc, clear_bucket}
use nea.Allocator.Arenas.{clear_bucket-others}
use nea.Executor.{
  Slot, empty, reserved, occupied, CleanupReason, Inner, Outcome, returns, fails, Action, Poll,
  pending, ready, panics, oom, DoneWithBucket, Verdict, continues, leaves, forever, set_queue,
  act_all, out_of_memory, panicked, out_of_memory_done, panic_done,
}
use nea.Executor.Run.{
  cleanup_bucket, finish_job, give_up, after_input_stream, after_http_connection, poll_result,
  input_stream_job, http_connection_job, run_job, clear_connections, leave_bucket,
}
use nea.Executor.Run.Actions.{Steady, AllOwn}
use nea.Executor.Run.Rounds.{run_offset_cases, taken-lt}
use nea.Executor.Run.Idle.{Steady-queue}
use nea.Executor.Run.Apart.{
  Apart, Apart-refl, Apart-then, Apart-rest, and_then-Apart, counting, act_all-Apart,
}

module _ {F C : Type 0} (s : Inner F C) where
  counting_with :
      {b : ℕ} (n : ℕ) (a : ServerAlloc)
      → ((x : ℕ) → x ≢ b → a.bucket x ≡ s.allocator.bucket x)
      → Apart b s (record s { allocator = a; refcounts = update s.refcounts b n })
  counting_with n a memory = record {
    counts = λ x ne. ground arith;
    same_futures = λ x ne. refl;
    same_streams = λ x ne. refl;
    memory = memory;
  }

  -- A new main future of bucket `b`, or none.
  replacing :
      {b : ℕ} (fut : Option F) (closed : List ℕ)
      → Apart b s (record s { futures = update s.futures b fut; closed = closed })
  replacing fut closed = record {
    counts = λ x ne. refl;
    same_futures = λ x ne. ground arith;
    same_streams = λ x ne. refl;
    memory = λ x ne. refl;
  }

  finish_job-Apart : (b : ℕ) → Apart b s (finish_job s b).state
  unfolding finish_job
  finish_job-Apart b =
      go (s.refcounts b == 1) (clear_bucket s.allocator b)
        (λ a e. clear_bucket-others s.allocator b e)
    where
      go :
          (last : Bool) (r : Result ServerAlloc)
          → ((a : ServerAlloc) → r ≡ ok a → (x : ℕ) → x ≢ b → a.bucket x ≡ s.allocator.bucket x)
          → Apart b s
              (if last
                then (elim r as (λ _. Outcome (Inner F C) Verdict) [
                  | ok a ↦
                      returns
                        (record s { allocator = a; refcounts = update s.refcounts b 0 })
                        (leaves forever)
                  | panic p ↦ fails s p
                ])
                else returns
                    (record s { refcounts = update s.refcounts b ((s.refcounts b + 255) % 2 ^ 8) })
                    continues).state
      go true (ok a) others = counting_with 0 a (others a refl)
      go true (panic p) others = Apart-refl s
      go false r others = counting s ((s.refcounts b + 255) % 2 ^ 8)

  cleanup_bucket-Apart :
      (b : BucketIndex) (reason : CleanupReason) → Apart b.index s (cleanup_bucket s b reason).state
  unfolding cleanup_bucket
  cleanup_bucket-Apart b reason =
      go (clear_bucket s.allocator b.index) (λ a e. clear_bucket-others s.allocator b.index e)
    where
      s' : Inner F C
      s' =
          let raw_fd = s.tcp_streams b.index in
          let range = http_connections_of s.io_resources b in
          record s {
            responses = (raw_fd, reason) ∷ s.responses;
            closed = raw_fd ∷ s.closed;
            connections = clear_connections s.connections (range.end - range.start) range.start;
            futures = update s.futures b.index none;
          }

      go :
          (r : Result ServerAlloc)
          → ((a : ServerAlloc)
              → r ≡ ok a
              → (x : ℕ) → x ≢ b.index
              → a.bucket x ≡ s.allocator.bucket x)
          → Apart b.index s
              (elim r as (λ _. Outcome (Inner F C) (Unit {0})) [
                | ok a ↦
                    returns
                      (record s' { allocator = a; refcounts = update s.refcounts b.index 0 })
                      tt
                | panic p ↦ fails s' p
              ]).state
      go (ok a) others = record {
        counts = λ x ne. ground arith;
        same_futures = λ x ne. ground arith;
        same_streams = λ x ne. refl;
        memory = others a refl;
      }
      go (panic p) others = record {
        counts = λ x ne. refl;
        same_futures = λ x ne. ground arith;
        same_streams = λ x ne. refl;
        memory = λ x ne. refl;
      }

module _ {F C : Type 0} (s : Inner F C) (b : BucketIndex) where
  give_up-Apart :
      (reason : CleanupReason) (why : DoneWithBucket)
      → Apart b.index s (give_up s b reason why).state
  unfolding give_up
  give_up-Apart reason why =
      and_then-Apart (cleanup_bucket s b reason) (λ s' _. returns s' (leaves why))
        (cleanup_bucket-Apart s b reason) (λ _. Apart-refl (cleanup_bucket s b reason).state)

  after_input_stream-Apart : (r : Poll F) → Apart b.index s (after_input_stream s b r).state
  unfolding after_input_stream
  after_input_stream-Apart (pending fut) = replacing s (some fut) s.closed
  after_input_stream-Apart ready =
      let closed = s.tcp_streams b.index ∷ s.closed in
      Apart-then (replacing s none closed) (
        finish_job-Apart (record s { futures = update s.futures b.index none; closed = closed })
          b.index)
  after_input_stream-Apart panics = give_up-Apart panicked panic_done
  after_input_stream-Apart oom = give_up-Apart out_of_memory out_of_memory_done

  after_http_connection-Apart :
      (c : ConnectionIndex) (r : Poll C) → Apart b.index s (after_http_connection s b c r).state
  unfolding after_http_connection
  after_http_connection-Apart c (pending conn) =
      Apart-rest s (after_http_connection s b c (pending conn)).state refl refl refl refl
  after_http_connection-Apart c ready =
      let s' = record s { connections = update s.connections c.index empty } in
      Apart-then (Apart-rest s s' refl refl refl refl) (finish_job-Apart s' b.index)
  after_http_connection-Apart c panics = Apart-refl s
  after_http_connection-Apart c oom = give_up-Apart out_of_memory out_of_memory_done

module _ {F C : Type 0} (poll_future : F → List (Action C) × Poll F)
    (poll_connection : C → List (Action C) × Poll C) (b : BucketIndex)
    (own_future : (fut : F) → AllOwn b.index (poll_future fut).0)
    (own_connection : (conn : C) → AllOwn b.index (poll_connection conn).0) where
  input_stream_job-Apart :
      (s : Inner F C) → Apart b.index s (input_stream_job poll_future poll_connection s b).state
  unfolding input_stream_job
  input_stream_job-Apart s = go (s.futures b.index)
    where
      go :
          (f : Option F)
          → Apart b.index s
              (elim f as (λ _. Outcome (Inner F C) Verdict) [
                | none ↦ after_input_stream s b panics
                | some fut ↦
                    let o = act_all s (poll_future fut).0 in
                    after_input_stream o.state b (poll_result o (poll_future fut).1)
              ]).state
      go none = after_input_stream-Apart s b panics
      go (some fut) =
          let o = act_all s (poll_future fut).0 in
          Apart-then (act_all-Apart s (poll_future fut).0 (own_future fut))
            (after_input_stream-Apart o.state b (poll_result o (poll_future fut).1))

  http_connection_job-Apart :
      (s : Inner F C) (c : ConnectionIndex)
      → Apart b.index s (http_connection_job poll_future poll_connection s b c).state
  unfolding http_connection_job
  http_connection_job-Apart s c = go (s.connections c.index)
    where
      go :
          (slot : Slot C)
          → Apart b.index s
              (elim slot as (λ _. Outcome (Inner F C) Verdict) [
                | empty ↦ returns s continues
                | reserved ↦ fails s explicit_panic
                | occupied conn ↦
                    let o = act_all s (poll_connection conn).0 in
                    after_http_connection o.state b c (poll_result o (poll_connection conn).1)
              ]).state
      go empty = Apart-refl s
      go reserved = Apart-refl s
      go (occupied conn) =
          let o = act_all s (poll_connection conn).0 in
          Apart-then (act_all-Apart s (poll_connection conn).0 (own_connection conn))
            (after_http_connection-Apart o.state b c (poll_result o (poll_connection conn).1))

module _ {F C : Type 0} (poll_future : F → List (Action C) × Poll F)
    (poll_connection : C → List (Action C) × Poll C) {n size : ℕ} (b : BucketIndex)
    (own_future : (fut : F) → AllOwn b.index (poll_future fut).0)
    (own_connection : (conn : C) → AllOwn b.index (poll_connection conn).0) where
  -- A round of a worker on one of `n` buckets, on a server as for a round of `run_bucket`, when a
  -- poll reserves connections and allocates in its own bucket alone, at alignments that are powers
  -- of two up to the page size, changes no count, no main future, no stream and no memory of
  -- another bucket, however it ends. Of the connections and the queue slots of other buckets, which
  -- a poll may populate and wake, it says nothing.
  pub run_job-Apart :
      (s : Inner F C)
      → Steady n size b.index s
      → Apart b.index s (run_job poll_future poll_connection s b).state
  unfolding run_job
  run_job-Apart s st =
      let (job, slot) = dequeue (s.queue.slot b.index) in
      let q = set_slot s.queue b.index slot in
      let s' = set_queue s q in
      Apart-then (Apart-rest s s' refl refl refl refl) (
        run_offset_cases poll_future poll_connection b own_future own_connection
          (λ o. Apart b.index s' o.state) s' job
          (Steady-queue q st (dequeue-Queued s.queue b.index st.queued))
          (λ k e.
            taken-lt poll_future poll_connection b own_future own_connection s job slot k st e
              (dequeue-Dequeued (s.queue.slot b.index) (st.queued.words b.index)))
          (Apart-refl s')
          (input_stream_job-Apart poll_future poll_connection
            (record { identifier = 0; index = b.index }) own_future own_connection s')
          (Apart-refl s')
          (λ c c_lt.
            http_connection_job-Apart poll_future poll_connection b own_future own_connection s'
              (record { identifier = 0; index = b.index * s.io_resources.http_connections + c })))

pub leave_bucket-Apart :
    {F C : Type 0} (s : Inner F C) (b : BucketIndex) → Apart b.index s (leave_bucket s b).state
unfolding leave_bucket
leave_bucket-Apart {F} {C} s b = go (done_with_bucket (s.queue.slot b.index))
  where
    go :
        (r : Result (NextStep × QueueSlot))
        → Apart b.index s
            (elim r as (λ _. Outcome (Inner F C) NextStep) [
              | ok (next, slot) ↦ returns (set_queue s (set_slot s.queue b.index slot)) next
              | panic p ↦ fails s p
            ]).state
    go (ok (next, slot)) =
        Apart-rest s (set_queue s (set_slot s.queue b.index slot)) refl refl refl refl
    go (panic p) = Apart-refl s
