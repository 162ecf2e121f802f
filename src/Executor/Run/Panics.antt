-- ===== src/Executor/Run/Panics.antt =====
-- nea/src/executor.rs: which panics end a worker.
use nea.Base.{
  ℕ, ◌+◌, ◌*◌, ◌==◌, ◌<◌, ◌≡◌, ◌⊎◌, inl, inr, refl, sym, ap, subst, ◌∙◌, arith, Bool-cases, Option,
  none, some, List, ◌∷◌, update, ok, panic, Panic, todo_reached, explicit_panic,
}
use nea.Index.{BucketIndex, ConnectionIndex}
use nea.Queue.{set_slot}
use nea.Queue.Slot.{dequeue}
use nea.Queue.Jobs.{dequeue-Dequeued}
use nea.Queue.Bounds.{dequeue-Queued}
use nea.Allocator.Arenas.{IsReady, clear_bucket-IsReady}
use nea.Executor.{
  Slot, empty, reserved, occupied, CleanupReason, Inner, Outcome, returns, fails, Action, Poll,
  pending, ready, panics, oom, DoneWithBucket, Verdict, continues, leaves, set_queue, act_all,
  out_of_memory, panicked, out_of_memory_done, panic_done,
}
use nea.Executor.Run.{
  finish_job, give_up, after_input_stream, after_http_connection, poll_result, input_stream_job,
  http_connection_job, run_job,
}
use nea.Executor.Run.Cleanup.{cleanup_bucket-IsFree}
use nea.Executor.Run.Balance.{no_future_of}
use nea.Executor.Run.Actions.{Steady, AllOwn}
use nea.Executor.Run.Polls.{act_all-Kept}
use nea.Executor.Run.Rounds.{run_offset_cases, taken-lt}
use nea.Executor.Run.Idle.{Settled, Settled-queue, Steady-queue, idle_stream, no_connection}

-- A function that has returned.
abbrev Returned : {S A : Type 0} → Outcome S A → Type 0
Returned {A = A} o = (a : A) × (o.result ≡ ok a)

module _ {F C : Type 0} {n size : ℕ} (s : Inner F C) where
  give_up-Returned :
      (b : BucketIndex) (reason : CleanupReason) (why : DoneWithBucket)
      → Steady n size b.index s
      → Returned (give_up s b reason why)
  unfolding give_up
  give_up-Returned b reason why st =
      let (s', e, _, _, _, _, _) = cleanup_bucket-IsFree s b reason n size st.arenas st.exists in
      rw e (leaves why, refl)

  finish_job-Returned : (b : ℕ) → IsReady n size s.allocator → b < n → Returned (finish_job s b)
  unfolding finish_job
  finish_job-Returned b arenas lt = elim (Bool-cases (s.refcounts b == 1)) [
    | inl last ↦
        let (a, cleared, _, _, _) = clear_bucket-IsReady s.allocator b n size arenas lt in
        rw (last, cleared) (_, refl)
    | inr more ↦ rw more (continues, refl)
  ]

after_input_stream-Returned :
    {F C : Type 0} {n size : ℕ} (s : Inner F C) (b : BucketIndex) (r : Poll F)
    → Steady n size b.index s
    → Returned (after_input_stream s b r)
unfolding after_input_stream
after_input_stream-Returned s b (pending fut) st = (continues, refl)
after_input_stream-Returned s b ready st =
    finish_job-Returned
      (record s {
        futures = update s.futures b.index none;
        closed = s.tcp_streams b.index ∷ s.closed;
      })
      b.index st.arenas st.exists
after_input_stream-Returned s b panics st = give_up-Returned s b panicked panic_done st
after_input_stream-Returned s b oom st = give_up-Returned s b out_of_memory out_of_memory_done st

-- A connection ends a worker only by a poll that panics.
after_http_connection-Returned :
    {F C : Type 0} {n size : ℕ} (s : Inner F C) (b : BucketIndex) (c : ConnectionIndex) (r : Poll C)
    → Steady n size b.index s
    → Returned (after_http_connection s b c r) ⊎ (r ≡ panics)
unfolding after_http_connection
after_http_connection-Returned s b c (pending conn) st = inl (continues, refl)
after_http_connection-Returned s b c ready st = inl (
    finish_job-Returned (record s { connections = update s.connections c.index empty }) b.index
      st.arenas st.exists)
after_http_connection-Returned s b c panics st = inr refl
after_http_connection-Returned s b c oom st =
    inl (give_up-Returned s b out_of_memory out_of_memory_done st)

-- What ends a worker at a connection: a slot that is reserved, or a poll that panics.
abbrev pub EndsWorker :
    {F C : Type 0} → (C → List (Action C) × Poll C) → Inner F C → Slot C → Type 0
EndsWorker poll_connection s empty = ⊥
EndsWorker poll_connection s reserved = Unit
EndsWorker poll_connection s (occupied conn) =
    poll_result (act_all s (poll_connection conn).0) (poll_connection conn).1 ≡ panics

-- Why a round on bucket `b` has not returned: a wake of a stream other than the first, or one of
-- its connections.
abbrev pub Dies : {F C : Type 0} → (C → List (Action C) × Poll C) → ℕ → Inner F C → Panic → Type 0
Dies poll_connection b s p =
    (p ≡ todo_reached)
    ⊎ ((k : ℕ) × (k < s.io_resources.http_connections)
        × EndsWorker poll_connection s (s.connections (b * s.io_resources.http_connections + k)))

-- A function that has returned has not panicked.
not_both : {S A : Type 0} (o : Outcome S A) (p : Panic) → Returned o → o.result ≡ panic p → ⊥
not_both o p (a, e) e' = absurd (cc)

same_panic : {S A : Type 0} (s : S) (q p : Panic) → (fails {A = A} s q).result ≡ panic p → p ≡ q
same_panic s q p e = cc

module _ {F C : Type 0} (poll_future : F → List (Action C) × Poll F)
    (poll_connection : C → List (Action C) × Poll C) {n size : ℕ} (b : BucketIndex)
    (own_future : (fut : F) → AllOwn b.index (poll_future fut).0)
    (own_connection : (conn : C) → AllOwn b.index (poll_connection conn).0) where
  input_stream_job-Returned :
      (s : Inner F C)
      → Steady n size b.index s
      → Settled size s b.index
      → Returned (input_stream_job poll_future poll_connection s b)
  unfolding input_stream_job
  input_stream_job-Returned s st (inr free) =
      subst Returned
        (sym (
          idle_stream poll_future poll_connection s b
            (no_future_of (s.futures b.index) (omega (arith, free.no_job)))))
        (give_up-Returned s b panicked panic_done st)
  input_stream_job-Returned s st (inl held) = go (s.futures b.index)
    where
      go :
          (f : Option F)
          → Returned (elim f as (λ _. Outcome (Inner F C) Verdict) [
            | none ↦ after_input_stream s b panics
            | some fut ↦
                let o = act_all s (poll_future fut).0 in
                after_input_stream o.state b (poll_result o (poll_future fut).1)
          ])
      go none = after_input_stream-Returned s b panics st
      go (some fut) =
          let o = act_all s (poll_future fut).0 in
          after_input_stream-Returned o.state b (poll_result o (poll_future fut).1)
            (act_all-Kept s (poll_future fut).0 (own_future fut) st held).steady

  http_connection_job-Returned :
      (s : Inner F C) (c : ConnectionIndex) (k : ℕ)
      → c.index ≡ b.index * s.io_resources.http_connections + k
      → k < s.io_resources.http_connections
      → Steady n size b.index s
      → Settled size s b.index
      → Returned (http_connection_job poll_future poll_connection s b c)
        ⊎ EndsWorker poll_connection s (s.connections c.index)
  unfolding http_connection_job
  http_connection_job-Returned s c k place lt st settled = go (s.connections c.index) refl settled
    where
      go :
          (slot : Slot C)
          → s.connections c.index ≡ slot
          → Settled size s b.index
          → Returned (elim slot as (λ _. Outcome (Inner F C) Verdict) [
            | empty ↦ returns s continues
            | reserved ↦ fails s explicit_panic
            | occupied conn ↦
                let o = act_all s (poll_connection conn).0 in
                after_http_connection o.state b c (poll_result o (poll_connection conn).1)
          ])
            ⊎ EndsWorker poll_connection s slot
      go empty was settled = inl (continues, refl)
      go reserved was settled = inr tt
      go (occupied conn) was (inl held) =
          let o = act_all s (poll_connection conn).0 in
          after_http_connection-Returned o.state b c (poll_result o (poll_connection conn).1)
            (act_all-Kept s (poll_connection conn).0 (own_connection conn) st held).steady
      go (occupied conn) was (inr free) =
          let gone = sym was ∙ ap s.connections place ∙ no_connection b s k free lt in absurd (cc)

module _ {F C : Type 0} (poll_future : F → List (Action C) × Poll F)
    (poll_connection : C → List (Action C) × Poll C) {n size : ℕ} (b : BucketIndex)
    (own_future : (fut : F) → AllOwn b.index (poll_future fut).0)
    (own_connection : (conn : C) → AllOwn b.index (poll_connection conn).0) where
  -- When no lock is held by another thread or poisoned, a round of a worker on a bucket that has a
  -- right count above 0, or a count of 0, no future, no connection and all of its memory, on a
  -- server as for a round of `run_bucket`, when a poll reserves connections and allocates in its
  -- own bucket alone, at alignments that are powers of two up to the page size, panics only at the
  -- `todo!` of a second stream, or at a connection of its own bucket whose slot is reserved or
  -- whose poll panics.
  pub run_job-Dies :
      (s : Inner F C) (p : Panic)
      → Steady n size b.index s
      → Settled size s b.index
      → (run_job poll_future poll_connection s b).result ≡ panic p
      → Dies poll_connection b.index
          (set_queue s (set_slot s.queue b.index (dequeue (s.queue.slot b.index)).1))
          p
  unfolding run_job
  run_job-Dies s p st settled =
      let (job, slot) = dequeue (s.queue.slot b.index) in
      let q = set_slot s.queue b.index slot in
      let s' = set_queue s q in
      let st' = Steady-queue q st (dequeue-Queued s.queue b.index st.queued) in
      let settled' = Settled-queue q settled in
      run_offset_cases poll_future poll_connection b own_future own_connection
        (λ o. o.result ≡ panic p → Dies poll_connection b.index s' p) s' job st'
        (λ k e.
          taken-lt poll_future poll_connection b own_future own_connection s job slot k st e
            (dequeue-Dequeued (s.queue.slot b.index) (st.queued.words b.index)))
        (λ e. absurd (cc))
        (λ e. absurd (
          not_both
            (input_stream_job poll_future poll_connection s'
              (record { identifier = 0; index = b.index }))
            p
            (input_stream_job-Returned poll_future poll_connection
              (record { identifier = 0; index = b.index }) own_future own_connection s' st'
              settled')
            e))
        (λ e. inl (same_panic s' todo_reached p e))
        (λ k k_lt e.
          let c : ConnectionIndex = record {
            identifier = 0;
            index = b.index * s.io_resources.http_connections + k;
          } in
          elim (http_connection_job-Returned poll_future poll_connection b own_future own_connection
            s' c k refl k_lt st' settled') [
              | inl returned ↦
                  absurd
                    (not_both (http_connection_job poll_future poll_connection s' b c) p returned e)
              | inr ends ↦ inr (k, k_lt, ends)
            ])
