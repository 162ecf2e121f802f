-- ===== src/Queue/Threads/Tests.antt =====
-- Two threads on a queue of two buckets: one wakes the main future of the first bucket, the other
-- works.
use nea.Base.{
  ℕ, ◌+◌, ◌<◌, ◌≡◌, ◌≢◌, refl, arith, List, [], ◌∷◌, none, assertion_failed, ok, true, sum_below,
  trailing_zeros, zero, suc,
}
use nea.Index.{IoResources, Fits, QueueIndex, to_bucket_index, per_bucket}
use nea.Queue.{
  ComplexQueue, with_capacity, increment_active, decrement_active, wait_active, initial_enqueue,
  helper, helper_mark, set_slot, set_count,
}
use nea.Queue.Slot.{QueueSlot, try_process, mark_enqueued, add_job, next_job, remove_job}
use nea.Queue.Threads.{
  idle, poll, panicked, Choice, wakes, works, forever, System, init, step, run_schedule, turn,
  start, start_wake, awake, counted, take_or_leave,
}
use nea.Queue.Threads.Invariant.{ready, pending}
use nea.Queue.Threads.Safety.{one_worker_per_bucket, never_panics, count_is_exact, AllValid}
use nea.Queue.Threads.Rest.{no_lost_wakeup, rests, NeverForever}

abbrev two_jobs : IoResources
two_jobs = record { tcp_streams = 1; http_connections = 1 }

abbrev first_bucket : QueueIndex
first_bucket = record { identifier = 7; index = 0 }

fits : Fits two_jobs 2
fits = record { has_stream = omega arith; indices_fit = omega arith; few_buckets = omega arith }

-- Thread 0 wakes the main future of bucket 0.
abbrev waking : List (ℕ × Choice)
waking = (0, wakes first_bucket) ∷ (0, works) ∷ (0, works) ∷ []

-- Then thread 1 becomes a worker, and claims the bucket.
abbrev working : List (ℕ × Choice)
working =
    (0, wakes first_bucket)
    ∷ (0, works)
    ∷ (0, works)
    ∷ (1, works)
    ∷ (1, works)
    ∷ (1, works)
    ∷ (1, works)
    ∷ (1, works)
    ∷ (1, works)
    ∷ []

abbrev woken_system : System
woken_system = run_schedule 2 (init 2 two_jobs) waking

abbrev working_system : System
working_system = run_schedule 2 (init 2 two_jobs) working

working_at : working_system.pc 1 ≡ poll 0 0
unfolding run_schedule step turn start start_wake awake counted take_or_leave with_capacity
    increment_active decrement_active wait_active try_process mark_enqueued add_job next_job
    remove_job to_bucket_index per_bucket trailing_zeros
working_at = refl

-- Behind the wake the bucket is enqueued with its job, it is counted, and thread 0 is idle again.
woken_at :
    (woken_system.queue.slot 0 ≡ record { flags = 1; jobs = 1 })
    × (woken_system.queue.jobs_in_queue ≡ 1)
    × (woken_system.pc 0 ≡ idle)
    × (woken_system.pc 1 ≡ idle)
unfolding run_schedule step turn start start_wake awake counted take_or_leave with_capacity
    increment_active decrement_active wait_active try_process mark_enqueued add_job next_job
    remove_job to_bucket_index per_bucket trailing_zeros
woken_at = (refl, refl, refl, refl)

valid_waking : AllValid two_jobs 2 waking
valid_waking = (omega arith, (tt, (tt, tt)))

valid_working : AllValid two_jobs 2 working
valid_working = (omega arith, (tt, (tt, (tt, (tt, (tt, (tt, (tt, (tt, tt)))))))))

works_on : works ≢ forever
works_on e = absurd (ground arith)

never_waking : NeverForever waking
never_waking = ((λ e. absurd (ground arith)), (works_on, (works_on, tt)))

one_worker_per_bucket_example : ◌≡◌ {A = ℕ} 1 1
one_worker_per_bucket_example =
    one_worker_per_bucket 2 fits (omega arith) working 0 1 1 valid_working (omega arith)
      (omega arith) (rw working_at refl) (rw working_at refl)

never_panics_example : working_system.pc 1 ≢ panicked assertion_failed
never_panics_example =
    never_panics 2 fits (omega arith) working 1 assertion_failed valid_working (omega arith)

count_is_exact_example :
    working_system.queue.jobs_in_queue
    ≡ sum_below ready 2 working_system.queue.slot + sum_below pending 2 working_system.pc
count_is_exact_example = count_is_exact 2 fits (omega arith) working valid_working

quiet : (t : ℕ) → t < 2 → rests (woken_system.pc t) ≡ true
quiet zero lt = rw (woken_at.2) refl
quiet (suc zero) lt = rw (woken_at.3) refl
quiet (suc (suc t)) lt = absurd (omega arith)

no_lost_wakeup_example :
    ((woken_system.queue.slot 0).flags ≡ 1) × (wait_active woken_system.queue.jobs_in_queue ≢ none)
no_lost_wakeup_example =
    no_lost_wakeup 2 fits (omega arith) waking 0 valid_waking never_waking quiet (omega arith)
      (rw (woken_at.0) (omega arith))

abbrev fresh : ComplexQueue
fresh = with_capacity 2 two_jobs

abbrev one_job : QueueSlot
one_job = record { flags = 1; jobs = 1 }

abbrev woken_queue : ComplexQueue
woken_queue = set_slot (set_count (set_slot fresh 0 (record { flags = 0; jobs = 1 })) 1) 0 one_job

wake_at : initial_enqueue fresh first_bucket ≡ ok (woken_queue, true)
unfolding initial_enqueue helper helper_mark with_capacity increment_active decrement_active
    mark_enqueued add_job to_bucket_index per_bucket
wake_at = refl
