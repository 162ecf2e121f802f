-- ===== src/Queue/Slot.antt =====
-- nea/src/queue.rs: one slot of the queue, the flags and the jobs of a bucket.
use nea.Base.{
  ℕ, ◌-◌, ◌%◌, ◌^◌, ◌==◌, Bool, not, Option, none, some, if◌then◌else◌, bit_and, bit_or,
  trailing_zeros,
}

abbrev pub enqueued_bit : ℕ
enqueued_bit = 1

abbrev pub in_progress_bit : ℕ
in_progress_bit = 2

pub record QueueSlotState : Type 0 where
  pub is_enqueued : Bool
  pub is_in_progress : Bool

-- `flags` is an `AtomicU8`, `jobs` an `AtomicU64` with one bit for each offset in the bucket.
pub record QueueSlot : Type 0 where
  pub flags : ℕ
  pub jobs : ℕ

abbrev pub empty : QueueSlot
empty = record { flags = 0; jobs = 0 }

-- What a `compare_exchange` of the flags returns: whether it was done, and the value that it found.
pub record Exchange : Type 0 where
  pub success : Bool
  pub found : ℕ
  pub slot : QueueSlot

abbrev pub compare_exchange : ℕ → ℕ → QueueSlot → Exchange
compare_exchange current new s = record {
  success = s.flags == current;
  found = s.flags;
  slot = if s.flags == current then record s { flags = new } else s;
}

unfoldable pub try_process : QueueSlot → Exchange
try_process = compare_exchange enqueued_bit in_progress_bit

unfoldable pub mark_enqueued : QueueSlot → QueueSlotState × QueueSlot
mark_enqueued s = (
  record {
    is_enqueued = not (bit_and s.flags enqueued_bit == 0);
    is_in_progress = not (bit_and s.flags in_progress_bit == 0);
  },
  record s { flags = bit_or s.flags enqueued_bit },
)

-- The mask `1 << offset` of type u64: the release profile takes the shift modulo 64.
abbrev pub mask : ℕ → ℕ
mask offset = 2 ^ (offset % 64)

-- `jobs.fetch_or(mask)` at the start of `helper`, and whether the job is new.
unfoldable pub add_job : ℕ → QueueSlot → Bool × QueueSlot
add_job offset s =
    (bit_and s.jobs (mask offset) == 0, record s { jobs = bit_or s.jobs (mask offset) })

-- The load of `dequeue`: the offset of the lowest job, if there is one.
unfoldable pub next_job : QueueSlot → Option ℕ
next_job s = if s.jobs == 0 then none else some (trailing_zeros 64 s.jobs)

-- The `jobs.fetch_and(!mask)` of `dequeue`.
unfoldable pub remove_job : ℕ → QueueSlot → QueueSlot
remove_job index s = record s { jobs = bit_and s.jobs (2 ^ 64 - 1 - mask index) }

abbrev pub take_job : QueueSlot → Option ℕ → Option ℕ × QueueSlot
take_job s none = (none, s)
take_job s (some index) = (some index, remove_job index s)

-- `dequeue`, its two steps together.
unfoldable pub dequeue : QueueSlot → Option ℕ × QueueSlot
dequeue s = take_job s (next_job s)

-- The two exchanges of `done_with_bucket`.
unfoldable pub leave_again : QueueSlot → Exchange
leave_again = compare_exchange (bit_or enqueued_bit in_progress_bit) in_progress_bit

unfoldable pub leave_clear : QueueSlot → Exchange
leave_clear = compare_exchange in_progress_bit 0
