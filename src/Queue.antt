-- ===== src/Queue.antt =====
-- nea/src/queue.rs: the queue of buckets with work, one atomic operation or lock section at a time.
-- `Mutex<u32>` and the atomics hold their value; an atomic operation is one step of the model, so
-- that the memory orderings do not matter: each word is changed by read-modify-write steps alone.
pub mod Slot
pub mod Jobs
pub mod Flags
pub mod Threads
pub mod Calls
pub mod Bounds
mod Tests
use nea.Base.{
  ℕ, zero, suc, ◌+◌, ◌-◌, ◌*◌, ◌/◌, ◌%◌, ◌^◌, ◌==◌, ltb, Bool, true, false, not, ◌&&◌, Option, none,
  some, if◌then◌else◌, bit_and, bit_or, u64, u32, update, Result, ok, panic, ◌>>=◌, ◌>>◌, ensure,
  arithmetic_overflow, out_of_bounds, assertion_failed, unreachable_reached,
}
use nea.Index.{IoResources, per_bucket, BucketIndex, QueueIndex, to_bucket_index}
use Slot.{QueueSlot, empty, try_process, mark_enqueued, add_job, leave_again, leave_clear}

-- The slots are `queue`, of the given length; the count is the number under the mutex of `Refcount`.
pub record ComplexQueue : Type 0 where
  pub capacity : ℕ
  pub slot : ℕ → QueueSlot
  pub jobs_in_queue : ℕ
  pub io_resources : IoResources

unfoldable pub with_capacity : ℕ → IoResources → ComplexQueue
with_capacity number_of_buckets io_resources = record {
  capacity = number_of_buckets;
  slot = λ _. empty;
  jobs_in_queue = 0;
  io_resources = io_resources;
}

-- The critical sections of `Refcount`. `checked_add` and `checked_sub` panic at the ends of u32.
unfoldable pub increment_active : ℕ → Result ℕ
increment_active n = if ltb (n + 1) (2 ^ 32) then ok (n + 1) else panic arithmetic_overflow

pub decrement_active : ℕ → Result ℕ
decrement_active n = if n == 0 then panic arithmetic_overflow else ok (n - 1)

-- `wait_active` returns the number, or `none` while the thread sleeps on the condition variable.
pub wait_active : ℕ → Option ℕ
wait_active n = if n == 0 then none else some n

abbrev pub set_slot : ComplexQueue → ℕ → QueueSlot → ComplexQueue
set_slot q b s = record q { slot = update q.slot b s }

abbrev pub set_count : ComplexQueue → ℕ → ComplexQueue
set_count q n = record q { jobs_in_queue = n }

-- The end of `helper`, from the update of the flags on; the flag says whether a worker is notified.
unfoldable pub helper_mark : ComplexQueue → ℕ → Result (ComplexQueue × Bool)
helper_mark q b =
    let (old, slot) = mark_enqueued (q.slot b) in
    let q' = set_slot q b slot in
    if not old.is_enqueued && not old.is_in_progress
    then ok (q', true)
    else (decrement_active q'.jobs_in_queue >>= λ n. ok (set_count q' n, false))

unfoldable pub helper : ComplexQueue → ℕ → ℕ → Result (ComplexQueue × Bool)
helper q b offset =
    let (is_new, slot) = add_job offset (q.slot b) in
    let q' = set_slot q b slot in
    if not is_new
    then ok (q', false)
    else (increment_active q'.jobs_in_queue >>= λ n. helper_mark (set_count q' n) b)

-- `queue.get(bucket_index)` of a bucket that does not exist panics.
unfoldable pub initial_enqueue : ComplexQueue → QueueIndex → Result (ComplexQueue × Bool)
initial_enqueue q i = do
  bucket ← to_bucket_index q.io_resources i
  ensure (ltb bucket.index q.capacity) out_of_bounds
  helper q bucket.index (i.index % per_bucket q.io_resources)

unfoldable pub wake : ComplexQueue → QueueIndex → Result (ComplexQueue × Bool)
wake = initial_enqueue

pub data NextStep : Type 0 where
  done go_again : NextStep

-- `done_with_bucket` with the rounds left of its loop, with nobody else at the slot.
done_rounds : ℕ → QueueSlot → Result (NextStep × QueueSlot)
done_rounds zero s = panic unreachable_reached
done_rounds (suc n) s =
    let again = leave_again s in
    let clear = leave_clear s in
    let rest = done_rounds n s in
    if again.success
    then ok (go_again, again.slot)
    else if not (again.found == 2)
    then panic assertion_failed
    else if clear.success
    then ok (done, clear.slot)
    else rest

pub done_with_bucket : QueueSlot → Result (NextStep × QueueSlot)
done_with_bucket = done_rounds 2

-- `try_dequeue` from slot `i` on, with `left` slots to go.
try_dequeue_from : ComplexQueue → ℕ → ℕ → Result (Option BucketIndex × ComplexQueue)
try_dequeue_from q zero i = ok (none, q)
try_dequeue_from q (suc left) i =
    let claim = try_process (q.slot i) in
    let rest = try_dequeue_from q left (i + 1) in
    if claim.success
    then (decrement_active q.jobs_in_queue >>= λ n.
        ok (some (record { index = u32 i; identifier = 0 }), set_count (set_slot q i claim.slot) n))
    else rest

pub try_dequeue : ComplexQueue → Result (Option BucketIndex × ComplexQueue)
try_dequeue q = try_dequeue_from q q.capacity 0
