-- ===== src/Queue/Tests.antt =====
-- The calls of the queue on small queues.
use nea.Base.{Bool, ◌≡◌, refl, arith, false, some, ok, trailing_zeros, ◌==◌, if◌then◌else◌}
use nea.Index.{IoResources}
use nea.Queue.{ComplexQueue, set_slot, helper, done_with_bucket, done}
use nea.Queue.Slot.{QueueSlot, dequeue, next_job, remove_job}
use nea.Queue.Calls.{helper-Woken, Woken, forgotten_job}

abbrev three_jobs : IoResources
three_jobs = record { tcp_streams = 1; http_connections = 2 }

-- Bucket 1 is enqueued with its jobs 1 and 2, bucket 0 is in progress with job 2 left.
abbrev some_work : ComplexQueue
some_work = record {
  capacity = 2;
  slot = λ b. if b == 1 then record { flags = 1; jobs = 6 } else record { flags = 2; jobs = 4 };
  jobs_in_queue = 1;
  io_resources = three_jobs;
}

forgotten_job_example :
    (s : QueueSlot) × (q' : ComplexQueue) × (done_with_bucket (some_work.slot 0) ≡ ok (done, s))
    × (helper (set_slot some_work 0 s) 0 2 ≡ ok (q', false))
    × ((q'.slot 0).flags ≡ 0)
    × (q'.jobs_in_queue ≡ some_work.jobs_in_queue)
forgotten_job_example = forgotten_job some_work 0 2 refl (omega arith) (omega arith) refl

-- The lowest of the two jobs is taken.
dequeue_first : dequeue (some_work.slot 1) ≡ (some 1, record { flags = 1; jobs = 4 })
unfolding dequeue next_job remove_job trailing_zeros
dequeue_first = refl

helper-Woken_example :
    (q' : ComplexQueue) × (notified : Bool) × (helper some_work 1 0 ≡ ok (q', notified))
    × Woken some_work 1 0 q' notified
helper-Woken_example =
    helper-Woken some_work 1 0 (omega arith) (omega arith) (omega arith) (omega arith)
