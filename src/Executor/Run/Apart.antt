-- ===== src/Executor/Run/Apart.antt =====
-- nea/src/executor.rs: what a worker on one bucket leaves alone of the others.
pub mod Jobs
use nea.Base.{
  ℕ, ◌+◌, ◌-◌, ◌*◌, ◌==◌, ◌%◌, ◌^◌, ltb, true, false, out_of_bounds, ◌≡◌, ◌≢◌, refl, ap, ◌∙◌, arith,
  Bool-cases, inl, inr, Bool, Option, none, some, List, [], ◌∷◌, update, ok, panic, Panic, Result,
  explicit_panic, memory_exhausted, assertion_failed, if◌then◌else◌,
}
use nea.Index.{http_connections_of, BucketIndex, ConnectionIndex, QueueIndex, from_connection_index}
use nea.Queue.{ComplexQueue, initial_enqueue, NextStep, done_with_bucket, set_slot}
use nea.Queue.Slot.{QueueSlot, dequeue}
use nea.Queue.Jobs.{dequeue-Dequeued}
use nea.Queue.Bounds.{dequeue-Queued}
use nea.Allocator.{ServerAlloc, Layout, try_allocate_in_bucket, clear_bucket}
use nea.Allocator.Arenas.{clear_bucket-others}
use nea.Executor.{
  Slot, empty, reserved, occupied, CleanupReason, Inner, Outcome, returns, fails, and_then, Action,
  reserve, populate, wakes, allocates, allocate_in, Poll, pending, ready, panics, oom,
  DoneWithBucket, Verdict, continues, leaves, forever, set_queue, enqueue, find_empty, reserve_at,
  handshake_reserve, handshake_populate, act, act_all, out_of_memory, panicked, out_of_memory_done,
  panic_done,
}
use nea.Executor.Run.{
  cleanup_bucket, finish_job, give_up, after_input_stream, after_http_connection, poll_result,
  input_stream_job, http_connection_job, run_job, stopped, clear_connections,
}
use nea.Executor.Run.Actions.{Steady, IsOwn, AllOwn}
use nea.Executor.Run.Rounds.{run_offset_cases, taken-lt}
use nea.Executor.Run.Idle.{Steady-queue}

-- No count, future, stream and memory of a bucket but `b` has changed.
pub record Apart {F C : Type 0} (b : ℕ) (s s' : Inner F C) : Type 0 where
  pub counts : (x : ℕ) → x ≢ b → s'.refcounts x ≡ s.refcounts x
  pub same_futures : (x : ℕ) → x ≢ b → s'.futures x ≡ s.futures x
  pub same_streams : (x : ℕ) → x ≢ b → s'.tcp_streams x ≡ s.tcp_streams x
  pub memory : (x : ℕ) → x ≢ b → s'.allocator.bucket x ≡ s.allocator.bucket x

pub Apart-refl : {F C : Type 0} {b : ℕ} (s : Inner F C) → Apart b s s
Apart-refl s = record {
  counts = λ x ne. refl;
  same_futures = λ x ne. refl;
  same_streams = λ x ne. refl;
  memory = λ x ne. refl;
}

pub Apart-then :
    {F C : Type 0} {b : ℕ} {s t u : Inner F C} → Apart b s t → Apart b t u → Apart b s u
Apart-then p q = record {
  counts = λ x ne. q.counts x ne ∙ p.counts x ne;
  same_futures = λ x ne. q.same_futures x ne ∙ p.same_futures x ne;
  same_streams = λ x ne. q.same_streams x ne ∙ p.same_streams x ne;
  memory = λ x ne. q.memory x ne ∙ p.memory x ne;
}

pub and_then-Apart :
    {F C A B : Type 0} {b : ℕ} {s : Inner F C} (o : Outcome (Inner F C) A)
    (k : Inner F C → A → Outcome (Inner F C) B)
    → Apart b s o.state
    → ((a : A) → Apart b o.state (k o.state a).state)
    → Apart b s (and_then o k).state
and_then-Apart {F} {C} {A} {B} {b} {s} o k apart rest = go o.result
  where
    go :
        (r : Result A)
        → Apart b s
            (elim r as (λ _. Outcome (Inner F C) B) [
              | ok a ↦ k o.state a
              | panic p ↦ fails o.state p
            ]).state
    go (ok a) = Apart-then apart (rest a)
    go (panic p) = apart

other_arenas :
    {b : ℕ} (a : ServerAlloc) (l : Layout) (arena : ℕ)
    → arena ≡ b
    → (x : ℕ) → x ≢ b
    → (try_allocate_in_bucket a l arena).1.bucket x ≡ a.bucket x
unfolding try_allocate_in_bucket
other_arenas a l arena own x ne = ground arith

module _ {F C : Type 0} (s : Inner F C) where
  -- A change of the queue, the connections and what was sent and closed.
  pub Apart-rest :
      {b : ℕ} (s' : Inner F C)
      → s'.refcounts ≡ s.refcounts
      → s'.futures ≡ s.futures
      → s'.tcp_streams ≡ s.tcp_streams
      → s'.allocator ≡ s.allocator
      → Apart b s s'
  Apart-rest s' counts futures streams memory = record {
    counts = λ x ne. ap (λ f. f x) counts;
    same_futures = λ x ne. ap (λ f. f x) futures;
    same_streams = λ x ne. ap (λ f. f x) streams;
    memory = λ x ne. ap (λ (a : ServerAlloc). a.bucket x) memory;
  }

  Apart-memory :
      {b : ℕ} (a : ServerAlloc)
      → ((x : ℕ) → x ≢ b → a.bucket x ≡ s.allocator.bucket x)
      → Apart b s (record s { allocator = a })
  Apart-memory a memory = record {
    counts = λ x ne. refl;
    same_futures = λ x ne. refl;
    same_streams = λ x ne. refl;
    memory = memory;
  }

  pub enqueue-Apart : {b : ℕ} (i : QueueIndex) → Apart b s (enqueue s i).state
  unfolding enqueue
  enqueue-Apart {b} i = go (initial_enqueue s.queue i)
    where
      go :
          (r : Result (ComplexQueue × Bool))
          → Apart b s
              (elim r as (λ _. Outcome (Inner F C) (Unit {0})) [
                | ok (q, _) ↦ returns (set_queue s q) tt
                | panic p ↦ fails s p
              ]).state
      go (ok (q, _)) = Apart-rest (set_queue s q) refl refl refl refl
      go (panic p) = Apart-refl s

module _ {F C : Type 0} (s : Inner F C) where
  reserve_at-Apart : {b : ℕ} (found : Option ℕ) → Apart b s (reserve_at s found).state
  unfolding reserve_at
  reserve_at-Apart none = Apart-refl s
  reserve_at-Apart (some i) = Apart-rest s (reserve_at s (some i)).state refl refl refl refl

  handshake_populate-Apart :
      {b : ℕ} (c : ConnectionIndex) (conn : C) → Apart b s (handshake_populate s c conn).state
  unfolding handshake_populate
  handshake_populate-Apart {b} c conn =
      go (s.connections c.index) (from_connection_index s.io_resources c)
    where
      s' : Inner F C
      s' = record s { connections = update s.connections c.index (occupied conn) }

      populated :
          (r : Result QueueIndex)
          → Apart b s
              (elim r as (λ _. Outcome (Inner F C) (Unit {0})) [
                | ok q ↦ enqueue s' q
                | panic p ↦ fails s' p
              ]).state
      populated (ok q) = Apart-then (Apart-rest s s' refl refl refl refl) (enqueue-Apart s' q)
      populated (panic p) = Apart-rest s s' refl refl refl refl

      go :
          (slot : Slot C) (r : Result QueueIndex)
          → Apart b s
              (elim slot as (λ _. Outcome (Inner F C) (Unit {0})) [
                | reserved ↦ elim r as (λ _. Outcome (Inner F C) (Unit {0})) [
                  | ok q ↦ enqueue s' q
                  | panic p ↦ fails s' p
                ]
                | empty ↦ fails s assertion_failed
                | occupied _ ↦ fails s assertion_failed
              ]).state
      go reserved r = populated r
      go empty r = Apart-refl s
      go (occupied _) r = Apart-refl s

  allocate_in-Apart :
      {b : ℕ} (arena : ℕ) (l : Layout) → arena ≡ b → Apart b s (allocate_in s arena l).state
  unfolding allocate_in
  allocate_in-Apart {b} arena l own =
      let (block, a) = try_allocate_in_bucket s.allocator l arena in
      go block a (other_arenas s.allocator l arena own)
    where
      go :
          (block : Option ℕ) (a : ServerAlloc)
          → ((x : ℕ) → x ≢ b → a.bucket x ≡ s.allocator.bucket x)
          → Apart b s
              (elim block as (λ _. Outcome (Inner F C) (Unit {0})) [
                | some p ↦ returns (record s { allocator = a }) tt
                | none ↦ fails (record s { allocator = a }) memory_exhausted
              ]).state
      go (some p) a memory = Apart-memory s a memory
      go none a memory = Apart-memory s a memory

module _ {F C : Type 0} (s : Inner F C) where
  reserving :
      {b : ℕ} (s' : Inner F C) (there : Bool) (found : Option ℕ)
      → Apart b s s'
      → Apart b s (if there then reserve_at s' found else fails s out_of_bounds).state
  reserving s' true found apart = Apart-then apart (reserve_at-Apart s' found)
  reserving s' false found apart = Apart-refl s

  pub counting : {b : ℕ} (n : ℕ) → Apart b s (record s { refcounts = update s.refcounts b n })
  counting n = record {
    counts = λ x ne. ground arith;
    same_futures = λ x ne. refl;
    same_streams = λ x ne. refl;
    memory = λ x ne. refl;
  }

  handshake_reserve-Apart :
      {b : ℕ} (x : BucketIndex) → x.index ≡ b → Apart b s (handshake_reserve s x).state
  unfolding handshake_reserve
  handshake_reserve-Apart {b} x own =
      let range = http_connections_of s.io_resources x in
      let raised = record s {
        refcounts = update s.refcounts x.index ((s.refcounts x.index + 1) % 2 ^ 8);
      } in
      elim (Bool-cases (s.refcounts x.index == 0)) [
        | inl none_left ↦ rw none_left (
            reserving s (ltb x.index s.bucket_count)
              (find_empty s (range.end - range.start) range.start) (Apart-refl s))
        | inr some_left ↦ rw some_left (
            reserving raised (ltb x.index s.bucket_count)
              (find_empty raised (range.end - range.start) range.start)
              (rw own (counting ((s.refcounts b + 1) % 2 ^ 8))))
      ]

module _ {F C : Type 0} (s : Inner F C) where
  act-Apart : {b : ℕ} (a : Action C) → IsOwn b a → Apart b s (act s a).state
  unfolding act
  act-Apart (reserve x) own =
      and_then-Apart (handshake_reserve s x) (λ s' _. returns s' tt)
        (handshake_reserve-Apart s x own) (λ c. Apart-refl (handshake_reserve s x).state)
  act-Apart (populate c conn) own = handshake_populate-Apart s c conn
  act-Apart (wakes i) own = enqueue-Apart s i
  act-Apart (allocates arena l) own = allocate_in-Apart s arena l own.0

pub act_all-Apart :
    {F C : Type 0} {b : ℕ} (s : Inner F C) (actions : List (Action C))
    → AllOwn b actions
    → Apart b s (act_all s actions).state
unfolding act_all
act_all-Apart s [] own = Apart-refl s
act_all-Apart s (a ∷ rest) own =
    and_then-Apart (act s a) (λ s' _. act_all s' rest) (act-Apart s a own.0)
      (λ _. act_all-Apart (act s a).state rest own.1)
