-- ===== src/Queue/Threads.antt =====
-- nea/src/queue.rs and the worker loop of nea/src/executor.rs: wakers and workers over one queue,
-- interleaved in any order. A turn of a thread is one atomic operation or one section under the
-- mutex of the count. What the code does between two of them is the thread's own.
pub mod Invariant
mod Moves
mod Turns
pub mod Safety
pub mod Wakeups
pub mod Rest
pub mod Alone
mod Tests
use nea.Base.{
  ℕ, zero, suc, ◌+◌, ◌-◌, ◌%◌, ◌==◌, ltb, Bool, true, false, not, ◌&&◌, Option, none, some,
  if◌then◌else◌, update, Result, ok, panic, Panic, List, [], ◌∷◌, out_of_bounds, assertion_failed,
  unreachable_reached,
}
use nea.Index.{IoResources, per_bucket, BucketIndex, QueueIndex, to_bucket_index}
use nea.Queue.{
  ComplexQueue, with_capacity, increment_active, decrement_active, wait_active, set_slot, set_count,
}
use nea.Queue.Slot.{
  try_process, mark_enqueued, add_job, next_job, remove_job, leave_again, leave_clear,
}

-- The rounds of the loop in `done_with_bucket`.
pub data Round : Type 0 where
  first second : Round

-- Where a thread stands: the bucket, and the other variables that are live there.
pub data Pc : Type 0 where
  idle : Pc
  increment : (b : ℕ) → Pc  -- `helper`, behind the update of the jobs
  mark : (b : ℕ) → Pc  -- `helper`, behind the increment
  revert : (b : ℕ) → Pc  -- `helper`, before the decrement
  waiting : Pc  -- the loop of `blocking_dequeue`
  scan : (i : ℕ) → Pc  -- the loop of `try_dequeue`, at slot i
  claimed : (b : ℕ) → Pc  -- `try_dequeue`, before the decrement
  run : (b : ℕ) → Pc  -- the loop of `run_bucket`
  take : (b job : ℕ) → Pc  -- `dequeue`, between its two operations
  poll : (b job : ℕ) → Pc  -- `run_bucket`, while the job is polled
  leave : (b : ℕ) (r : Round) → Pc  -- `done_with_bucket`, before the first exchange
  clear : (b : ℕ) (r : Round) → Pc  -- `done_with_bucket`, before the second exchange
  panicked : Panic → Pc

-- What the environment chooses: that an idle thread wakes a queue index or becomes a worker, and
-- how the poll of a job ends. `again` goes on with the bucket, as `run_bucket` does after a pending
-- or a finished job and `run_worker` after a panic or out of memory; `forever` is the return of
-- `DoneWithBucket::Forever`.
pub data Choice : Type 0 where
  wakes : QueueIndex → Choice
  works again forever : Choice

-- `initial_enqueue` and `helper` up to the update of the jobs.
start_wake : ComplexQueue → QueueIndex → Result BucketIndex → ComplexQueue × Pc
start_wake q i (panic p) = (q, panicked p)
start_wake q i (ok bucket) =
    let b = bucket.index in
    let (is_new, slot) = add_job (i.index % per_bucket q.io_resources) (q.slot b) in
    if not (ltb b q.capacity)
    then (q, panicked out_of_bounds)
    else (set_slot q b slot, if is_new then increment b else idle)

counted : ComplexQueue → Pc → Result ℕ → ComplexQueue × Pc
counted q next (ok n) = (set_count q n, next)
counted q next (panic p) = (q, panicked p)

take_or_leave : ℕ → Option ℕ → Pc
take_or_leave b none = leave b first
take_or_leave b (some job) = take b job

next_round : ℕ → Round → Pc
next_round b first = leave b second
next_round b second = panicked unreachable_reached

awake : Option ℕ → Pc
awake none = waiting
awake (some n) = scan 0

start : ComplexQueue → Choice → ComplexQueue × Pc
start q (wakes i) = start_wake q i (to_bucket_index q.io_resources i)
start q works = (q, waiting)
start q c = (q, idle)

after_poll : ℕ → ℕ → Choice → Pc
after_poll b job again = run b
after_poll b job forever = leave b first
after_poll b job c = poll b job

-- One turn of a thread.
pub turn : ComplexQueue → Pc → Choice → ComplexQueue × Pc
unfolding start_wake counted take_or_leave next_round awake start after_poll increment_active
    decrement_active wait_active
turn q idle c = start q c
turn q (increment b) c = counted q (mark b) (increment_active q.jobs_in_queue)
turn q (mark b) c =
    let (old, slot) = mark_enqueued (q.slot b) in
    (set_slot q b slot, if not old.is_enqueued && not old.is_in_progress then idle else revert b)
turn q (revert b) c = counted q idle (decrement_active q.jobs_in_queue)
turn q waiting c = (q, awake (wait_active q.jobs_in_queue))
turn q (scan i) c =
    let claim = try_process (q.slot i) in
    if not (ltb i q.capacity)
    then (q, waiting)
    else if claim.success
    then (set_slot q i claim.slot, claimed i)
    else (q, scan (i + 1))
turn q (claimed b) c = counted q (run b) (decrement_active q.jobs_in_queue)
turn q (run b) c = (q, take_or_leave b (next_job (q.slot b)))
turn q (take b job) c = (set_slot q b (remove_job job (q.slot b)), poll b job)
turn q (poll b job) c = (q, after_poll b job c)
turn q (leave b r) c =
    let again = leave_again (q.slot b) in
    if again.success
    then (set_slot q b again.slot, run b)
    else (q, if again.found == 2 then clear b r else panicked assertion_failed)
turn q (clear b r) c =
    let done = leave_clear (q.slot b) in
    if done.success then (set_slot q b done.slot, waiting) else (q, next_round b r)
turn q (panicked p) c = (q, panicked p)

pub record System : Type 0 where
  pub queue : ComplexQueue
  pub pc : ℕ → Pc

abbrev pub init : ℕ → IoResources → System
init n r = record { queue = with_capacity n r; pc = λ _. idle }

-- Thread `t` of `threads` has a turn; there is no other thread.
pub step : ℕ → System → ℕ × Choice → System
step threads s (t, c) =
    let (q, p) = turn s.queue (s.pc t) c in
    if ltb t threads then record { queue = q; pc = update s.pc t p } else s

-- A schedule is a list of turns, the first first.
pub run_schedule : ℕ → System → List (ℕ × Choice) → System
run_schedule threads s [] = s
run_schedule threads s (x ∷ xs) = run_schedule threads (step threads s x) xs
