-- ===== src/Queue/Jobs.antt =====
-- nea/src/queue.rs: the jobs of a slot as a set of offsets.
use nea.Base.{
  ℕ, ◌%◌, ◌^◌, ◌<◌, ◌==◌, ◌≡◌, ◌≢◌, refl, sym, subst, arith, Bool, true, false, not, ◌&&◌, ◌||◌,
  Option, none, some, bit, bit-bit_or, bit-bit_and, bit_and-mask, bit_or-lt, zero-bit,
  trailing_zeros, trailing_zeros_lem, trailing_zeros-least,
}
use native.Mathlib.Nat.{one-le-pow}
use nea.Queue.Slot.{QueueSlot, take_job, add_job, next_job, remove_job, dequeue}

-- The job at an offset is in the slot.
abbrev pub has_job : QueueSlot → ℕ → Bool
has_job s k = bit s.jobs k

-- For a word of 64 bits and an offset below 64, `add_job` puts in the job at its offset and no
-- other, leaves the flags alone, stays in 64 bits, and says whether the job was new.
pub add_job_lem :
    (s : QueueSlot) (k : ℕ)
    → s.jobs < 2 ^ 64
    → k < 64
    → let (is_new, s') = add_job k s in
      (is_new ≡ not (has_job s k))
      × (s'.flags ≡ s.flags)
      × (s'.jobs < 2 ^ 64)
      × ((i : ℕ) → has_job s' i ≡ (i == k || has_job s i))
unfolding add_job
add_job_lem s k h lt =
    let e : k % 64 ≡ k = omega arith in
    rw e (
      ground (arith, bit_and-mask s.jobs k, one-le-pow k 2),
      refl,
      bit_or-lt 64 s.jobs k h lt,
      bit-bit_or s.jobs k,
    )

-- What `dequeue` returns of a slot: `none` only if the slot has no job, which then stays as it
-- was, and otherwise the lowest job of the slot, which alone is taken out.
abbrev pub Dequeued : QueueSlot → Option ℕ → QueueSlot → Type 0
Dequeued s none s' = ((i : ℕ) → has_job s i ≡ false) × (s' ≡ s)
Dequeued s (some k) s' =
    (has_job s k ≡ true)
    × ((i : ℕ) → i < k → has_job s i ≡ false)
    × (k < 64)
    × (s'.flags ≡ s.flags)
    × ((i : ℕ) → has_job s' i ≡ (not (i == k) && has_job s i))

next_job-none : (s : QueueSlot) → next_job s ≡ none → s.jobs ≡ 0
unfolding next_job
next_job-none s e = ground arith

next_job-some :
    (s : QueueSlot) (k : ℕ) → next_job s ≡ some k → (s.jobs ≢ 0) × (k ≡ trailing_zeros 64 s.jobs)
unfolding next_job
next_job-some s k e = ground arith

take_job-Dequeued :
    (s : QueueSlot) (job : Option ℕ)
    → s.jobs < 2 ^ 64
    → next_job s ≡ job
    → Dequeued s (take_job s job).0 (take_job s job).1
unfolding remove_job
take_job-Dequeued s none h e =
    (λ i. subst (λ (n : ℕ). bit n i ≡ false) (sym (next_job-none s e)) (zero-bit i), refl)
take_job-Dequeued s (some k) h e =
    let (ne, lowest) = next_job-some s k e in
    let (lt, held) = trailing_zeros_lem 64 s.jobs h ne in
    let k_lt : k < 64 = omega (arith, lowest) in
    let wrap : k % 64 ≡ k = omega arith in
    (
      rw lowest held,
      λ i below. trailing_zeros-least 64 s.jobs i (omega (arith, lowest)),
      k_lt,
      refl,
      λ i. rw wrap (bit-bit_and 64 s.jobs k i h k_lt),
    )

-- For a word of 64 bits, `dequeue` returns `none` and the same slot only if no job is in it, and
-- otherwise the lowest job, which alone is taken out, with the flags as they were.
pub dequeue-Dequeued :
    (s : QueueSlot) → s.jobs < 2 ^ 64 → let (job, s') = dequeue s in Dequeued s job s'
unfolding dequeue
dequeue-Dequeued s h = take_job-Dequeued s (next_job s) h refl
