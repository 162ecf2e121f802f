-- ===== src/Executor/Run/Ends.antt =====
-- nea/src/executor.rs: how long a worker stays in a bucket that nobody wakes meanwhile.
use nea.Base.{
  ℕ, zero, suc, ◌+◌, ◌*◌, explicit_panic, ◌<◌, ◌≡◌, ◌≢◌, refl, sym, ap, subst, ◌∙◌, arith, Bool,
  true, false, Option, none, some, List, ok, panic, Result, sum_below, sum_below-update,
  sum_below_ext, update,
}
use nea.Index.{BucketIndex, ConnectionIndex}
use nea.Queue.{set_slot}
use nea.Queue.Slot.{QueueSlot, dequeue}
use nea.Queue.Jobs.{has_job, dequeue-Dequeued, Dequeued}
use nea.Index.Buckets.{width}
use nea.Executor.Run.Calm.{AllCalm, calm_own, act_all-queue}
use nea.Executor.Run.Actions.{Steady, AllOwn}
use nea.Executor.Run.Idle.{Settled, SettledBy, Steady-queue, run_job-Settles}
use nea.Executor.Run.Rounds.{run_offset_cases, taken-lt}
use nea.Queue.Bounds.{dequeue-Queued}
use nea.Executor.{
  Slot, empty, reserved, occupied, Inner, Outcome, returns, fails, and_then, Action, act_all, Poll,
  pending, ready, panics, oom, DoneWithBucket, CleanupReason, Verdict, continues, leaves, set_queue,
}
use nea.Executor.Run.{
  cleanup_bucket, finish_job, give_up, after_input_stream, after_http_connection, input_stream_job,
  http_connection_job, run_job, run_offset, run_bucket, after_verdict, poll_result,
}

-- The entry that was written.
update_same : {A : Type 0} (f : ℕ → A) (i : ℕ) (a : A) → update f i a i ≡ a
update_same f i a = ground arith

-- The jobs of a slot, counted.
abbrev one : Bool → ℕ
one true = 1
one false = 0

abbrev pub job_count : QueueSlot → ℕ
job_count s = sum_below one 64 (λ k. has_job s k)

module _ {F C : Type 0} (s : Inner F C) (b : BucketIndex) where
  give_up-queue :
      (reason : CleanupReason) (why : DoneWithBucket)
      → (give_up s b reason why).state.queue ≡ s.queue
  unfolding give_up cleanup_bucket
  give_up-queue reason why = ground arith

  after_input_stream-queue : (r : Poll F) → (after_input_stream s b r).state.queue ≡ s.queue
  unfolding after_input_stream finish_job
  after_input_stream-queue (pending fut) = refl
  after_input_stream-queue ready = ground arith
  after_input_stream-queue panics = give_up-queue _ _
  after_input_stream-queue oom = give_up-queue _ _

  after_http_connection-queue :
      (c : ConnectionIndex) (r : Poll C) → (after_http_connection s b c r).state.queue ≡ s.queue
  unfolding after_http_connection finish_job
  after_http_connection-queue c (pending fut) = refl
  after_http_connection-queue c ready = ground arith
  after_http_connection-queue c panics = refl
  after_http_connection-queue c oom = give_up-queue _ _

job_count-Dequeued :
    (s s' : QueueSlot) (k : ℕ) → Dequeued s (some k) s' → job_count s' + 1 ≡ job_count s
job_count-Dequeued s s' k (held, _, lt, _, left) =
    let rest : sum_below one 64 (λ i. has_job s' i)
        ≡ sum_below one 64 (update (λ i. has_job s i) k false) =
      sum_below_ext one 64 (λ i. has_job s' i) (update (λ i. has_job s i) k false)
        (λ i i_lt. ground (arith, left i)) in
    omega (arith, rest, sum_below-update one 64 (λ i. has_job s i) k false lt, ap one held)

-- A loop that goes on behind a round ends if its rest does.
ends_after :
    {F C : Type 0} (o : Outcome (Inner F C) Verdict)
    (again : Inner F C → Outcome (Inner F C) (Option DoneWithBucket))
    → (o.result ≡ ok continues → (again o.state).result ≢ ok none)
    → (and_then o (after_verdict again)).result ≢ ok none
ends_after {F} {C} o again rest = go o.result rest
  where
    go :
        (r : Result Verdict)
        → (r ≡ ok continues → (again o.state).result ≢ ok none)
        → (elim r as (λ _. Outcome (Inner F C) (Option DoneWithBucket)) [
          | ok v ↦ after_verdict again o.state v
          | panic p ↦ fails o.state p
        ]).result
          ≢ ok none
    go (ok continues) rest = rest refl
    go (ok (leaves why)) rest = λ e. absurd (ground arith)
    go (panic p) rest = λ e. absurd (ground arith)

module _ {F C : Type 0} (poll_future : F → List (Action C) × Poll F)
    (poll_connection : C → List (Action C) × Poll C) (b : BucketIndex)
    (calm_future : (fut : F) → AllCalm b.index (poll_future fut).0)
    (calm_connection : (conn : C) → AllCalm b.index (poll_connection conn).0) where
  input_stream_job-queue :
      (s : Inner F C) (x : BucketIndex)
      → (input_stream_job poll_future poll_connection s x).state.queue ≡ s.queue
  unfolding input_stream_job
  input_stream_job-queue s x = go (s.futures x.index)
    where
      go :
          (f : Option F)
          → (elim f as (λ _. Outcome (Inner F C) Verdict) [
            | none ↦ after_input_stream s x panics
            | some fut ↦
                let o = act_all s (poll_future fut).0 in
                after_input_stream o.state x (poll_result o (poll_future fut).1)
          ]).state.queue
            ≡ s.queue
      go none = after_input_stream-queue s x panics
      go (some fut) =
          let o = act_all s (poll_future fut).0 in
          after_input_stream-queue o.state x (poll_result o (poll_future fut).1)
          ∙ act_all-queue b.index s (poll_future fut).0 (calm_future fut)

  http_connection_job-queue :
      (s : Inner F C) (x : BucketIndex) (c : ConnectionIndex)
      → (http_connection_job poll_future poll_connection s x c).state.queue ≡ s.queue
  unfolding http_connection_job
  http_connection_job-queue s x c = go (s.connections c.index)
    where
      go :
          (slot : Slot C)
          → (elim slot as (λ _. Outcome (Inner F C) Verdict) [
            | empty ↦ returns s continues
            | reserved ↦ fails s explicit_panic
            | occupied conn ↦
                let o = act_all s (poll_connection conn).0 in
                after_http_connection o.state x c (poll_result o (poll_connection conn).1)
          ]).state.queue
            ≡ s.queue
      go empty = refl
      go reserved = refl
      go (occupied conn) =
          let o = act_all s (poll_connection conn).0 in
          after_http_connection-queue o.state x c (poll_result o (poll_connection conn).1)
          ∙ act_all-queue b.index s (poll_connection conn).0 (calm_connection conn)

  own_future : (fut : F) → AllOwn b.index (poll_future fut).0
  own_future fut = calm_own b.index (poll_future fut).0 (calm_future fut)

  own_connection : (conn : C) → AllOwn b.index (poll_connection conn).0
  own_connection conn = calm_own b.index (poll_connection conn).0 (calm_connection conn)

  -- A round that goes on has taken a job.
  fewer_jobs :
      (s : Inner F C) (job : Option ℕ) (slot : QueueSlot) (old : QueueSlot)
      → Dequeued old job slot
      → (run_offset poll_future poll_connection s b job).result ≡ ok continues
      → job_count slot < job_count old
  unfolding run_offset
  fewer_jobs s none slot old d goes_on = absurd (ground arith)
  fewer_jobs s (some k) slot old d goes_on = omega (arith, job_count-Dequeued old slot k d)

  module _ {n size : ℕ} where
    run_offset-queue :
        (s : Inner F C) (job : Option ℕ)
        → Steady n size b.index s
        → ((k : ℕ) → job ≡ some k → k < width s.io_resources)
        → (run_offset poll_future poll_connection s b job).state.queue ≡ s.queue
    run_offset-queue s job st inside =
        run_offset_cases poll_future poll_connection b own_future own_connection
          (λ o. o.state.queue ≡ s.queue) s job st inside refl
          (input_stream_job-queue s (record { identifier = 0; index = b.index })) refl
          (λ c lt.
            http_connection_job-queue s b
              (record { identifier = 0; index = b.index * s.io_resources.http_connections + c }))

    run_job-queue :
        (s : Inner F C)
        → Steady n size b.index s
        → (run_job poll_future poll_connection s b).state.queue
          ≡ set_slot s.queue b.index (dequeue (s.queue.slot b.index)).1
    unfolding run_job
    run_job-queue s st =
        let (job, slot) = dequeue (s.queue.slot b.index) in
        let q = set_slot s.queue b.index slot in
        run_offset-queue (set_queue s q) job
          (Steady-queue q st (dequeue-Queued s.queue b.index st.queued))
          (λ k e.
            taken-lt poll_future poll_connection b own_future own_connection s job slot k st e
              (dequeue-Dequeued (s.queue.slot b.index) (st.queued.words b.index)))

    run_job-job_count :
        (s : Inner F C)
        → Steady n size b.index s
        → (run_job poll_future poll_connection s b).result ≡ ok continues
        → job_count ((run_job poll_future poll_connection s b).state.queue.slot b.index)
          < job_count (s.queue.slot b.index)
    unfolding run_job
    run_job-job_count s st goes_on =
        let (job, slot) = dequeue (s.queue.slot b.index) in
        let fewer : job_count slot < job_count (s.queue.slot b.index) =
          fewer_jobs (set_queue s (set_slot s.queue b.index slot)) job slot (s.queue.slot b.index)
            (dequeue-Dequeued (s.queue.slot b.index) (st.queued.words b.index)) goes_on in
        subst (λ x. job_count x < job_count (s.queue.slot b.index))
          (sym
            (ap (λ q. q.slot b.index) (run_job-queue s st) ∙ update_same s.queue.slot b.index slot))
          fewer

    -- When the polls of a bucket wake no job and populate no connection, but may reserve
    -- connections of the bucket and allocate in its arena, at alignments that are powers of two up
    -- to the page size, and return, panic or run out of memory, on a server as for a round of
    -- `run_bucket`, whose bucket has a right count above 0, or a count of 0, no future, no
    -- connection and all of its memory, and which no other thread wakes: `run_bucket` ends within
    -- one round more than its bucket has jobs.
    pub run_bucket-ends :
        (fuel : ℕ) (s : Inner F C)
        → Steady n size b.index s
        → Settled size s b.index
        → job_count (s.queue.slot b.index) < fuel
        → (run_bucket poll_future poll_connection fuel s b).result ≢ ok none
    unfolding run_bucket
    run_bucket-ends zero s st settled few = absurd (omega arith)
    run_bucket-ends (suc fuel) s st settled few =
        let o = run_job poll_future poll_connection s b in
        let (st', settled') =
          run_job-Settles poll_future poll_connection b own_future own_connection s st settled in
        ends_after o (λ x. run_bucket poll_future poll_connection fuel x b)
          (λ goes_on.
            run_bucket-ends fuel o.state st'
              (subst (SettledBy size o.state b.index) goes_on settled')
              (omega (arith, run_job-job_count s st goes_on)))
