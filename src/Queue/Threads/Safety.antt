-- ===== src/Queue/Threads/Safety.antt =====
-- nea/src/queue.rs: the states that wakers and workers can reach.
use nea.Base.{
  ℕ, ◌+◌, ◌^◌, ◌<◌, ◌==◌, ◌≡◌, ◌≢◌, ltb, refl, arith, List, [], ◌∷◌, Bool-cases, inl, inr, Panic,
  sum_below-zero, sum_below, none, sum_below-part, sum_below_pair, subst,
}
use nea.Index.{IoResources, Fits}
use nea.Queue.{with_capacity, wait_active}
use nea.Queue.Threads.{System, init, step, run_schedule, Choice, panicked}
use nea.Queue.Threads.Invariant.{Inv, IsValid, ready, pending, holds, Local}
use nea.Queue.Threads.Turns.{turn-Inv}

-- The choices of a schedule are valid.
abbrev pub AllValid : IoResources → ℕ → List (ℕ × Choice) → Type 0
AllValid r n [] = Unit
AllValid r n ((t, c) ∷ xs) = IsValid r n c × AllValid r n xs

abbrev pub InvOf : ℕ → ℕ → IoResources → System → Type 0
InvOf threads n r s = Inv threads n r s.queue s.pc

module _ (threads : ℕ) {n : ℕ} {r : IoResources} (f : Fits r n)
    (few : n + threads + 1 < 2 ^ 32) where
  pub init-Inv : InvOf threads n r (init n r)
  unfolding with_capacity
  init-Inv = record {
    buckets = refl;
    resources = refl;
    few = few;
    two_flags = λ b. omega arith;
    counted = omega (
      arith,
      sum_below-zero ready n (with_capacity n r).slot (λ i lt. refl),
      sum_below-zero pending threads (init n r).pc (λ i lt. refl),
    );
    held = λ b. omega (arith, sum_below-zero (holds b) threads (init n r).pc (λ i lt. refl));
    known = λ t lt. tt;
  }

  pub step-Inv :
      (s : System) (t : ℕ) (c : Choice)
      → IsValid r n c
      → InvOf threads n r s
      → InvOf threads n r (step threads s (t, c))
  unfolding step
  step-Inv s t c h inv = elim (Bool-cases (ltb t threads)) [
    | inl there ↦ rw there (turn-Inv inv t (ground arith) f (s.pc t) c h refl)
    | inr no_thread ↦ rw no_thread inv
  ]

  pub run-Inv :
      (s : System) (xs : List (ℕ × Choice))
      → AllValid r n xs
      → InvOf threads n r s
      → InvOf threads n r (run_schedule threads s xs)
  unfolding run_schedule
  run-Inv s [] h inv = inv
  run-Inv s ((t, c) ∷ xs) h inv = run-Inv (step threads s (t, c)) xs h.1 (step-Inv s t c h.0 inv)

  pub reachable-Inv :
      (xs : List (ℕ × Choice))
      → AllValid r n xs
      → InvOf threads n r (run_schedule threads (init n r) xs)
  reachable-Inv xs h = run-Inv (init n r) xs h init-Inv

  -- For `n` buckets whose indices fit and fewer than 2^32 buckets and threads together: in every
  -- state that the threads reach by any turns in any order, from an empty queue and with wakes of
  -- existing buckets alone, two workers never have the same bucket in progress.
  pub one_worker_per_bucket :
      (xs : List (ℕ × Choice)) (b i j : ℕ)
      → AllValid r n xs
      → i < threads
      → j < threads
      → holds b ((run_schedule threads (init n r) xs).pc i) ≡ 1
      → holds b ((run_schedule threads (init n r) xs).pc j) ≡ 1
      → i ≡ j
  one_worker_per_bucket xs b i j h i_lt j_lt hi hj = elim (Bool-cases (i == j)) [
    | inl e ↦ ground arith
    | inr e ↦ absurd (
        ground (
          arith,
          inv.held b,
          inv.two_flags b,
          sum_below_pair (holds b) threads s.pc i j i_lt j_lt (ground arith),
        ))
  ]
    where
      s : System
      s = run_schedule threads (init n r) xs

      inv : InvOf threads n r s
      inv = reachable-Inv xs h

  -- In every state that the threads reach by any turns in any order, from an empty queue and with
  -- wakes of existing buckets alone, no thread has panicked in the queue: the count of buckets
  -- neither overflows nor goes below zero, the assertion of `done_with_bucket` holds, and its loop
  -- ends within its two rounds. The indices of the `n` buckets fit, and there are fewer than 2^32
  -- buckets and threads together.
  pub never_panics :
      (xs : List (ℕ × Choice)) (t : ℕ) (p : Panic)
      → AllValid r n xs
      → t < threads
      → (run_schedule threads (init n r) xs).pc t ≢ panicked p
  never_panics xs t p h lt e =
      subst (Local s.queue.capacity s.queue.slot) e ((reachable-Inv xs h).known t lt)
    where
      s : System
      s = run_schedule threads (init n r) xs

  -- In every state that the threads reach by any turns in any order, from an empty queue and with
  -- wakes of existing buckets alone, the count of the queue is the number of slots that a worker may
  -- claim and one for each thread between its change of the flags and its change of the count. The
  -- indices of the `n` buckets fit, and there are fewer than 2^32 buckets and threads together.
  pub count_is_exact :
      (xs : List (ℕ × Choice))
      → AllValid r n xs
      → (run_schedule threads (init n r) xs).queue.jobs_in_queue
        ≡ sum_below ready n (run_schedule threads (init n r) xs).queue.slot
          + sum_below pending threads (run_schedule threads (init n r) xs).pc
  count_is_exact xs h =
      subst
        (λ m.
          s.queue.jobs_in_queue ≡ sum_below ready m s.queue.slot + sum_below pending threads s.pc)
        inv.buckets inv.counted
    where
      s : System
      s = run_schedule threads (init n r) xs

      inv : InvOf threads n r s
      inv = reachable-Inv xs h

  -- In every state that the threads reach by any turns in any order, from an empty queue and with
  -- wakes of existing buckets alone, a worker that looks at the count while some bucket is enqueued
  -- and not in progress does not sleep. The indices of the `n` buckets fit, and there are fewer than
  -- 2^32 buckets and threads together.
  pub never_sleeps :
      (xs : List (ℕ × Choice)) (b : ℕ)
      → AllValid r n xs
      → b < n
      → ((run_schedule threads (init n r) xs).queue.slot b).flags ≡ 1
      → wait_active (run_schedule threads (init n r) xs).queue.jobs_in_queue ≢ none
  unfolding wait_active
  never_sleeps xs b h b_lt enqueued =
      ground (arith, count_is_exact xs h, sum_below-part ready n s.queue.slot b)
    where
      s : System
      s = run_schedule threads (init n r) xs
