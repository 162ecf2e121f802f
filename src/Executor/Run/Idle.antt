-- ===== src/Executor/Run/Idle.antt =====
-- nea/src/executor.rs: a job that is woken in a bucket that nobody has.
use nea.Base.{
  ℕ, ◌+◌, ◌*◌, ◌<◌, ◌≡◌, ◌⊎◌, inl, inr, refl, sym, subst, arith, none, List, ok, panic, Result,
  sum_below-part,
}
use nea.Index.{BucketIndex, ConnectionIndex}
use nea.Queue.{set_slot}
use nea.Queue.Slot.{dequeue}
use nea.Queue.Jobs.{dequeue-Dequeued}
use nea.Queue.Bounds.{dequeue-Queued, Queued}
use nea.Queue.{ComplexQueue}
use nea.Executor.{
  empty, Inner, Action, Poll, Outcome, returns, Verdict, continues, leaves, for_now, forever,
  out_of_memory_done, panic_done, set_queue, panicked,
}
use nea.Executor.Run.{run_job, input_stream_job, http_connection_job, after_input_stream, give_up}
use nea.Executor.Run.Balance.{live, no_future_of, empty_of}
use nea.Executor.Run.Actions.{Steady, Held, AllOwn}
use nea.Executor.Run.Release.{Freed, Served, LeftBy, give_up-Served}
use nea.Executor.Run.Rounds.{run_offset_cases, taken-lt, run_job-Served}

-- A worker's bucket has a right count above 0, or nobody has it and all of its memory is there.
abbrev pub Settled : {F C : Type 0} → ℕ → Inner F C → ℕ → Type 0
Settled size s b = Held s b ⊎ Freed size s b

abbrev pub SettledBy : {F C A : Type 0} → ℕ → Inner F C → ℕ → Result A → Type 0
SettledBy size s b (ok a) = Settled size s b
SettledBy size s b (panic p) = Unit

-- The counts of the other buckets are right, and bucket `b` is settled unless the worker panicked.
abbrev pub Settles : {F C A : Type 0} → ℕ → ℕ → ℕ → Outcome (Inner F C) A → Type 0
Settles n size b o = Steady n size b o.state × SettledBy size o.state b o.result

Settles-Served :
    {F C : Type 0} {n size b : ℕ} (o : Outcome (Inner F C) Verdict)
    → Served n size b o
    → Settles n size b o
Settles-Served {F} {C} {n} {size} {b} o (st, left) = (st, go o.result left)
  where
    go : (r : Result Verdict) → LeftBy size o.state b r → SettledBy size o.state b r
    go (ok continues) h = inl h
    go (ok (leaves for_now)) h = inl h
    go (ok (leaves forever)) h = inr h
    go (ok (leaves out_of_memory_done)) h = inr h
    go (ok (leaves panic_done)) h = inr h
    go (panic p) h = tt

-- A change of the queue alone.
pub Steady-queue :
    {F C : Type 0} {n size b : ℕ} {s : Inner F C} (q : ComplexQueue)
    → Steady n size b s
    → Queued s.io_resources q
    → Steady n size b (set_queue s q)
Steady-queue q st fits = record {
  exists = st.exists;
  buckets = st.buckets;
  resources = st.resources;
  few = st.few;
  arenas = st.arenas;
  queued = fits;
  others = st.others;
}

pub Settled-queue :
    {F C : Type 0} {size b : ℕ} {s : Inner F C} (q : ComplexQueue)
    → Settled size s b
    → Settled size (set_queue s q) b
Settled-queue q (inl h) = inl (record { own = h.own; some_job = h.some_job })
Settled-queue q (inr h) =
    inr (record { unclaimed = h.unclaimed; no_job = h.no_job; memory = h.memory })

-- A worker that polls the main future of a bucket without one finds a panic, and cleans up.
pub idle_stream :
    {F C : Type 0} (poll_future : F → List (Action C) × Poll F)
    (poll_connection : C → List (Action C) × Poll C) (s : Inner F C) (b : BucketIndex)
    → s.futures b.index ≡ none
    → input_stream_job poll_future poll_connection s b ≡ give_up s b panicked panic_done
unfolding input_stream_job after_input_stream
idle_stream poll_future poll_connection s b e = ground arith

idle_connection :
    {F C : Type 0} (poll_future : F → List (Action C) × Poll F)
    (poll_connection : C → List (Action C) × Poll C) (s : Inner F C) (b : BucketIndex)
    (c : ConnectionIndex)
    → s.connections c.index ≡ empty
    → http_connection_job poll_future poll_connection s b c ≡ returns s continues
unfolding http_connection_job
idle_connection poll_future poll_connection s b c e = ground arith

pub no_connection :
    {F C : Type 0} {size : ℕ} (b : BucketIndex) (s : Inner F C) (c : ℕ)
    → Freed size s b.index
    → c < s.io_resources.http_connections
    → s.connections (b.index * s.io_resources.http_connections + c) ≡ empty
no_connection b s c free lt =
    empty_of (s.connections (b.index * s.io_resources.http_connections + c)) (
      omega (
        arith,
        free.no_job,
        sum_below-part live s.io_resources.http_connections
            (λ i. s.connections (b.index * s.io_resources.http_connections + i)) c lt,
      ))

module _ {F C : Type 0} (poll_future : F → List (Action C) × Poll F)
    (poll_connection : C → List (Action C) × Poll C) {n size : ℕ} (b : BucketIndex)
    (own_future : (fut : F) → AllOwn b.index (poll_future fut).0)
    (own_connection : (conn : C) → AllOwn b.index (poll_connection conn).0) where
  stream-Settles :
      (s : Inner F C)
      → Steady n size b.index s
      → Freed size s b.index
      → Settles n size b.index (
          input_stream_job poll_future poll_connection s
            (record { identifier = 0; index = b.index }))
  stream-Settles s st free =
      let bucket : BucketIndex = record { identifier = 0; index = b.index } in
      subst (Settles n size b.index)
        (sym (
          idle_stream poll_future poll_connection s bucket
            (no_future_of (s.futures b.index) (omega (arith, free.no_job)))))
        (Settles-Served (give_up s bucket panicked panic_done)
          (give_up-Served s bucket st panicked panic_done (inr refl)))

  -- One round, whoever has the bucket.
  pub run_job-Settles :
      (s : Inner F C)
      → Steady n size b.index s
      → Settled size s b.index
      → Settles n size b.index (run_job poll_future poll_connection s b)
  unfolding run_job
  run_job-Settles s st (inl held) =
      Settles-Served (run_job poll_future poll_connection s b)
        (run_job-Served poll_future poll_connection b own_future own_connection s st held)
  run_job-Settles s st (inr free) =
      let (job, slot) = dequeue (s.queue.slot b.index) in
      let q = set_slot s.queue b.index slot in
      let s' = set_queue s q in
      let st' = Steady-queue q st (dequeue-Queued s.queue b.index st.queued) in
      let free' : Freed size s' b.index = record {
        unclaimed = free.unclaimed;
        no_job = free.no_job;
        memory = free.memory;
      } in
      run_offset_cases poll_future poll_connection b own_future own_connection
        (Settles n size b.index) s' job st'
        (λ k e.
          taken-lt poll_future poll_connection b own_future own_connection s job slot k st e
            (dequeue-Dequeued (s.queue.slot b.index) (st.queued.words b.index)))
        (st', inr free') (stream-Settles s' st' free') (st', tt)
        (λ c c_lt.
          subst (Settles n size b.index)
            (sym (
              idle_connection poll_future poll_connection s' b
                (record { identifier = 0; index = b.index * s.io_resources.http_connections + c })
                (no_connection b s' c free' c_lt)))
            (st', inr free'))
