-- ===== src/Queue/Threads/Alone.antt =====
-- nea/src/queue.rs: a thread that is not interrupted, and the whole functions.
use nea.Base.{ℕ, zero, suc, ◌≡◌, arith, Bool, ok}
use nea.Index.{QueueIndex}
use nea.Queue.{
  ComplexQueue, initial_enqueue, helper, helper_mark, increment_active, decrement_active,
}
use nea.Queue.Threads.{Pc, idle, wakes, again, turn}

-- `k` turns of one thread, with no other in between.
pub turns : ℕ → ComplexQueue × Pc → ComplexQueue × Pc
turns zero s = s
turns (suc k) (q, p) = turns k (turn q p again)

-- If `initial_enqueue` returns, then a thread that starts the same wake, and has the next three
-- turns with no other thread in between, is idle again and leaves the queue as the function does.
pub turns-wake :
    (q : ComplexQueue) (i : QueueIndex) {q' : ComplexQueue} {notified : Bool}
    → initial_enqueue q i ≡ ok (q', notified)
    → turns 3 (turn q idle (wakes i)) ≡ (q', idle)
unfolding turns turn initial_enqueue helper helper_mark increment_active decrement_active
turns-wake q i e = ground arith
