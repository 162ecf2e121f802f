-- ===== src/Queue/Flags.antt =====
-- nea/src/queue.rs: what the operations on the flags of a slot do, as cases on the flag word.
use nea.Base.{ℕ, ◌+◌, ◌*◌, ◌/◌, ◌%◌, ◌<◌, ◌==◌, ◌≡◌, arith, bit_and, bit_or-one, bit_and-mask}
use nea.Queue.Slot.{QueueSlot, mark_enqueued}

low_flag : (f : ℕ) → bit_and f 1 ≡ f % 2
low_flag f = ground (arith, bit_and-mask f 0)

high_flag : (f : ℕ) → f < 4 → bit_and f 2 ≡ f / 2 * 2
high_flag f h = ground (arith, bit_and-mask f 1)

-- `mark_enqueued` sets the low flag, keeps the other and the jobs, and returns both as they were.
pub mark_enqueued_lem :
    (s : QueueSlot)
    → s.flags < 4
    → mark_enqueued s ≡ (
      record { is_enqueued = s.flags % 2 == 1; is_in_progress = s.flags / 2 == 1 },
      record { flags = s.flags / 2 * 2 + 1; jobs = s.jobs },
    )
unfolding mark_enqueued
mark_enqueued_lem s h = ground (arith, low_flag s.flags, high_flag s.flags h, bit_or-one s.flags)
