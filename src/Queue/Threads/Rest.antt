-- ===== src/Queue/Threads/Rest.antt =====
-- nea/src/queue.rs: the jobs in the queue when all threads are between two calls.
use nea.Base.{
  ℕ, ◌+◌, ◌^◌, ◌<◌, ◌≡◌, ◌≢◌, refl, arith, List, [], ◌∷◌, Bool, Bool-cases, true, false, inl, inr,
  ltb, none, sum_below, sum_below-zero,
}
use nea.Index.{IoResources, Fits}
use nea.Queue.{wait_active, with_capacity}
use nea.Queue.Threads.{Pc, idle, waiting, Choice, forever, System, init, step, run_schedule}
use nea.Queue.Threads.Invariant.{IsValid, holds}
use nea.Queue.Threads.Safety.{AllValid, InvOf, step-Inv, init-Inv, reachable-Inv, never_sleeps}
use nea.Queue.Threads.Wakeups.{Remembered, attends, turn-Remembered}

-- No worker returns `DoneWithBucket::Forever` in a schedule.
abbrev pub NeverForever : List (ℕ × Choice) → Type 0
NeverForever [] = Unit
NeverForever ((t, c) ∷ xs) = (c ≢ forever) × NeverForever xs

-- A thread between two calls: it wakes nobody and has no bucket.
abbrev pub rests : Pc → Bool
rests idle = true
rests waiting = true
rests _ = false

attends_at_rest : (x : ℕ) (p : Pc) → rests p ≡ true → attends x p ≡ 0
attends_at_rest x p h = ground arith

holds_at_rest : (x : ℕ) (p : Pc) → rests p ≡ true → holds x p ≡ 0
holds_at_rest x p h = ground arith

module _ (threads : ℕ) {n : ℕ} {r : IoResources} (f : Fits r n)
    (few : n + threads + 1 < 2 ^ 32) where
  step-Remembered :
      (s : System) (t : ℕ) (c : Choice)
      → IsValid r n c
      → c ≢ forever
      → InvOf threads n r s
      → Remembered threads s.queue s.pc
      → let s' = step threads s (t, c) in Remembered threads s'.queue s'.pc
  unfolding step
  step-Remembered s t c h ne inv old = elim (Bool-cases (ltb t threads)) [
    | inl there ↦ rw there (turn-Remembered inv old t (ground arith) f (s.pc t) c h ne refl)
    | inr no_thread ↦ rw no_thread old
  ]

  run-Remembered :
      (s : System) (xs : List (ℕ × Choice))
      → AllValid r n xs
      → NeverForever xs
      → InvOf threads n r s
      → Remembered threads s.queue s.pc
      → let s' = run_schedule threads s xs in Remembered threads s'.queue s'.pc
  unfolding run_schedule
  run-Remembered s [] h ne inv old = old
  run-Remembered s ((t, c) ∷ xs) h ne inv old =
      run-Remembered (step threads s (t, c)) xs h.1 ne.1 (step-Inv threads f few s t c h.0 inv)
        (step-Remembered s t c h.0 ne.0 inv old)

  init-Remembered : Remembered threads (init n r).queue (init n r).pc
  unfolding with_capacity
  init-Remembered x jobs = absurd (omega arith)

  -- If no worker has left a bucket with `Forever`, and all threads are at rest, then each bucket
  -- with a job is enqueued and not in progress, and a worker that looks at the count does not sleep:
  -- no wake-up is lost, by any turns in any order from an empty queue, with wakes of existing
  -- buckets alone. The indices of the `n` buckets fit, and there are fewer than 2^32 buckets and
  -- threads together.
  pub no_lost_wakeup :
      (xs : List (ℕ × Choice)) (b : ℕ)
      → AllValid r n xs
      → NeverForever xs
      → ((t : ℕ) → t < threads → rests ((run_schedule threads (init n r) xs).pc t) ≡ true)
      → b < n
      → 0 < ((run_schedule threads (init n r) xs).queue.slot b).jobs
      → (((run_schedule threads (init n r) xs).queue.slot b).flags ≡ 1)
        × (wait_active (run_schedule threads (init n r) xs).queue.jobs_in_queue ≢ none)
  no_lost_wakeup xs b h ne quiet b_lt jobs =
      (enqueued, never_sleeps threads f few xs b h b_lt enqueued)
    where
      s : System
      s = run_schedule threads (init n r) xs

      inv : InvOf threads n r s
      inv = reachable-Inv threads f few xs h

      nobody_attends : sum_below (attends b) threads s.pc ≡ 0
      nobody_attends =
          sum_below-zero (attends b) threads s.pc (λ t lt. attends_at_rest b (s.pc t) (quiet t lt))

      nobody_holds : sum_below (holds b) threads s.pc ≡ 0
      nobody_holds =
          sum_below-zero (holds b) threads s.pc (λ t lt. holds_at_rest b (s.pc t) (quiet t lt))

      remembered : Remembered threads s.queue s.pc
      remembered = run-Remembered (init n r) xs h ne (init-Inv threads f few) init-Remembered

      enqueued : (s.queue.slot b).flags ≡ 1
      enqueued =
          omega
            (arith, remembered b jobs, nobody_attends, nobody_holds, inv.held b, inv.two_flags b)
