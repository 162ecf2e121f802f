-- ===== src/Executor.antt =====
-- nea/src/executor.rs: the buckets of the server, each with a request's future, its connections and
-- its share of the memory; claiming a bucket, polling its jobs, and cleaning up behind a failure.
-- The futures and the connections are the application's and hyper's: a poll is a parameter that
-- says what it called on the way and how it ended. A panic keeps the state that it met.
pub mod Claim
pub mod Start
pub mod Run
pub mod Init
pub mod Whole
pub mod Errors
mod Tests
use nea.Base.{
  ℕ, zero, suc, ◌+◌, ◌-◌, ◌*◌, ◌%◌, ◌^◌, ◌==◌, ltb, Bool, true, false, not, ◌&&◌, Option, none,
  some, if◌then◌else◌, List, [], ◌∷◌, update, u32, u64, Result, ok, panic, Panic, ◌>>=◌,
  out_of_bounds, assertion_failed, todo_reached, memory_exhausted,
}
use nea.Index.{
  IoResources, per_bucket, Range, http_connections_of, BucketIndex, ConnectionIndex, QueueIndex,
  IoIndex, input_stream, http_connection, from_index, from_bucket_index, from_connection_index,
}
use nea.Queue.{ComplexQueue, with_capacity, initial_enqueue, wake, set_slot}
use nea.Queue.Slot.{dequeue}
use nea.Allocator.{ServerAlloc, Layout, try_allocate_in_bucket}

pub data Slot (C : Type 0) : Type 0 where
  empty reserved : Slot C
  occupied : C → Slot C

pub data CleanupReason : Type 0 where
  out_of_memory panicked : CleanupReason

-- `Inner` with what its functions change outside of it: the static allocator, the counter of
-- `handshake`, the file descriptors that were closed, and the error responses that were sent to
-- one. The last of a list stands first.
pub record Inner (F C : Type 0) : Type 0 where
  pub io_resources : IoResources
  pub bucket_count : ℕ
  pub refcounts : ℕ → ℕ
  pub futures : ℕ → Option F
  pub tcp_streams : ℕ → ℕ
  pub connections : ℕ → Slot C
  pub queue : ComplexQueue
  pub allocator : ServerAlloc
  pub next_identifier : ℕ
  pub closed : List ℕ
  pub responses : List (ℕ × CleanupReason)

-- The outcome of a function that changes the state and may panic in between.
pub record Outcome (S A : Type 0) : Type 0 where
  pub state : S
  pub result : Result A

abbrev pub returns : {S A : Type 0} → S → A → Outcome S A
returns s a = record { state = s; result = ok a }

abbrev pub fails : {S A : Type 0} → S → Panic → Outcome S A
fails s p = record { state = s; result = panic p }

-- The rest of a function, unless what came before panicked.
abbrev pub and_then : {S A B : Type 0} → Outcome S A → (S → A → Outcome S B) → Outcome S B
and_then o k = elim o.result [ ok a ↦ k o.state a | panic p ↦ fails o.state p ]

-- What the application calls while it is polled: the two halves of `handshake`, before and behind
-- its `await`, a waker, and the allocator in the arena of the thread.
pub data Action (C : Type 0) : Type 0 where
  reserve : BucketIndex → Action C
  populate : ConnectionIndex → C → Action C
  wakes : QueueIndex → Action C
  allocates : ℕ → Layout → Action C

-- How a poll ends: not finished, with the value to poll next; finished; by a panic; out of memory,
-- which jumps back to the worker.
pub data Poll (A : Type 0) : Type 0 where
  pending : A → Poll A
  ready : Poll A
  panics : Poll A
  oom : Poll A

pub data DoneWithBucket : Type 0 where
  for_now forever out_of_memory_done panic_done : DoneWithBucket

-- What one round of the loop in `run_bucket` leads to.
pub data Verdict : Type 0 where
  continues : Verdict
  leaves : DoneWithBucket → Verdict

abbrev pub is_none : {A : Type 0} → Option A → Bool
is_none none = true
is_none (some _) = false

module _ {F C : Type 0} where
  abbrev pub set_queue : Inner F C → ComplexQueue → Inner F C
  set_queue s q = record s { queue = q }

  -- `queue.initial_enqueue`, as a change of the whole state.
  pub enqueue : Inner F C → QueueIndex → Outcome (Inner F C) (Unit {0})
  enqueue s i = elim (initial_enqueue s.queue i) [
    | ok (q, _) ↦ returns (set_queue s q) tt
    | panic p ↦ fails s p
  ]

  -- `try_claim` from bucket `i` on, with `left` buckets to go; `locked` says which of the mutexes
  -- another thread holds.
  try_claim_from : (ℕ → Bool) → Inner F C → ℕ → ℕ → Option BucketIndex × Inner F C
  try_claim_from locked s zero i = (none, s)
  try_claim_from locked s (suc left) i =
      let rest = try_claim_from locked s left (i + 1) in
      if not (locked i) && s.refcounts i == 0
      then (
        some (record { identifier = 0; index = u32 i }),
        record s { refcounts = update s.refcounts i 1 },
      )
      else rest

  pub try_claim : (ℕ → Bool) → Inner F C → Option BucketIndex × Inner F C
  try_claim locked s = try_claim_from locked s s.bucket_count 0

  -- `set`: the future and the descriptor are stored before the assertion.
  pub set : Inner F C → ℕ → BucketIndex → F → Outcome (Inner F C) (Unit {0})
  set s fd b fut =
      let old = s.futures b.index in
      let s' = record s {
        futures = update s.futures b.index (some fut);
        tcp_streams = update s.tcp_streams b.index fd;
      } in
      if not (ltb b.index s.bucket_count)
      then fails s out_of_bounds
      else if is_none old
      then returns s' tt
      else fails s' assertion_failed

  pub execute : Inner F C → ℕ → BucketIndex → F → Outcome (Inner F C) (Unit {0})
  execute s fd b fut =
      and_then (set s fd b fut) λ s' _. enqueue s' (from_bucket_index s'.io_resources b)

  -- The first empty slot among `left` connections from `i` on.
  pub find_empty : Inner F C → ℕ → ℕ → Option ℕ
  find_empty s zero i = none
  find_empty s (suc left) i = elim (s.connections i) [
    | empty ↦ some i
    | reserved ↦ find_empty s left (i + 1)
    | occupied c ↦ find_empty s left (i + 1)
  ]

  pub reserve_at : Inner F C → Option ℕ → Outcome (Inner F C) ConnectionIndex
  reserve_at s none = fails s todo_reached
  reserve_at s (some i) =
      returns
        (record s {
          connections = update s.connections i reserved;
          next_identifier = u32 (s.next_identifier + 1);
        })
        (record { identifier = s.next_identifier; index = u32 i })

  -- `handshake` up to its `await`. The count of a bucket is a u8.
  pub handshake_reserve : Inner F C → BucketIndex → Outcome (Inner F C) ConnectionIndex
  handshake_reserve s b =
      let range = http_connections_of s.io_resources b in
      let rc = s.refcounts b.index in
      let s' =
        if rc == 0
        then s
        else record s { refcounts = update s.refcounts b.index ((rc + 1) % 2 ^ 8) } in
      if ltb b.index s.bucket_count
      then reserve_at s' (find_empty s' (range.end - range.start) range.start)
      else fails s out_of_bounds

  -- `handshake` behind its `await`, with the connection that hyper made.
  pub handshake_populate : Inner F C → ConnectionIndex → C → Outcome (Inner F C) (Unit {0})
  handshake_populate s c conn = elim (s.connections c.index) [
    | reserved ↦
        let s' = record s { connections = update s.connections c.index (occupied conn) } in
        elim (from_connection_index s.io_resources c) [ ok q ↦ enqueue s' q | panic p ↦ fails s' p ]
    | empty ↦ fails s assertion_failed
    | occupied _ ↦ fails s assertion_failed
  ]

  -- `alloc` in the arena of a bucket; without room it does not return but jumps to the worker.
  pub allocate_in : Inner F C → ℕ → Layout → Outcome (Inner F C) (Unit {0})
  allocate_in s arena l =
      let (block, a) = try_allocate_in_bucket s.allocator l arena in
      elim block [
        | some p ↦ returns (record s { allocator = a }) tt
        | none ↦ fails (record s { allocator = a }) memory_exhausted
      ]

  pub act : Inner F C → Action C → Outcome (Inner F C) (Unit {0})
  act s (reserve b) = and_then (handshake_reserve s b) λ s' _. returns s' tt
  act s (populate c conn) = handshake_populate s c conn
  act s (wakes i) = enqueue s i
  act s (allocates arena l) = allocate_in s arena l

  -- The calls of one poll, up to the first that panics.
  pub act_all : Inner F C → List (Action C) → Outcome (Inner F C) (Unit {0})
  act_all s [] = returns s tt
  act_all s (a ∷ rest) = and_then (act s a) λ s' _. act_all s' rest
