-- ===== src/Queue/Threads/Moves.antt =====
-- The invariant, when a thread moves on and when it writes a slot; what a thread knows.
use nea.Base.{
  ℕ, ◌+◌, ◌*◌, ◌/◌, ◌≤◌, ◌<◌, ◌==◌, ◌≡◌, ap, subst, arith, ◌⊎◌, inl, inr, false, update,
  sum_below-update, sum_below-le, sum_below-part, sum_below_pair, Bool-cases,
}
use nea.Index.{IoResources}
use nea.Queue.{ComplexQueue, set_slot, set_count}
use nea.Queue.Slot.{QueueSlot}
use nea.Queue.Threads.{Pc, idle}
use nea.Queue.Threads.Invariant.{ready, pending, same, holds, Local, Local-update, Inv}

pending-le : (p : Pc) → pending p ≤ 1
pending-le idle = omega arith
pending-le _ = omega arith

module _ {threads n : ℕ} {r : IoResources} {q : ComplexQueue} {pc : ℕ → Pc}
    (inv : Inv threads n r q pc) (t : ℕ) (lt : t < threads) where
  open inv use {buckets, resources, few, two_flags, counted, held, known}

  -- A thread that touches no slot moves on, with the count changed as its share of it changes.
  pub move_on :
      (p p' : Pc) (k : ℕ)
      → pc t ≡ p
      → k + pending p ≡ q.jobs_in_queue + pending p'
      → ((x : ℕ) → holds x p' ≡ holds x p)
      → Local q.capacity q.slot p'
      → Inv threads n r (set_count q k) (update pc t p')
  move_on p p' k here share same_holds own = record {
    buckets = buckets;
    resources = resources;
    few = few;
    two_flags = two_flags;
    counted = ground (arith, sum_below-update pending threads pc t p' lt, ap pending here);
    held = λ b. ground (
      arith,
      sum_below-update (holds b) threads pc t p' lt,
      ap (holds b) here,
      same_holds b,
      held b,
    );
    known = λ j j_lt. elim (Bool-cases (t == j)) [
      | inl mine ↦ rw mine own
      | inr other ↦ rw other (known j j_lt)
    ];
  }

  -- A thread that writes a slot, with the count left alone.
  pub write_slot :
      (p p' : Pc) (b : ℕ) (s : QueueSlot)
      → pc t ≡ p
      → b < q.capacity
      → s.flags < 4
      → ready s + pending p' ≡ ready (q.slot b) + pending p
      → ((x : ℕ)
          → holds x p' + same b x * ((q.slot b).flags / 2) ≡ holds x p + same b x * (s.flags / 2))
      → ((q.slot b).flags ≡ 3 → (s.flags ≡ 3) ⊎ (holds b p ≡ 1))
      → Local q.capacity (update q.slot b s) p'
      → Inv threads n r (set_slot q b s) (update pc t p')
  write_slot p p' b s here b_lt small share moves keeps own = record {
    buckets = buckets;
    resources = resources;
    few = few;
    two_flags = λ x. ground (arith, two_flags x);
    counted = ground (
      arith,
      sum_below-update pending threads pc t p' lt,
      ap pending here,
      sum_below-update ready q.capacity q.slot b s b_lt,
    );
    held = λ x.
        ground (
          arith,
          sum_below-update (holds x) threads pc t p' lt,
          ap (holds x) here,
          moves x,
          held x,
        );
    known = λ j j_lt. elim (Bool-cases (t == j)) [
      | inl mine ↦ rw mine own
      | inr other ↦
          rw other (Local-update q.capacity q.slot b s (pc j) (stays j j_lt other) (known j j_lt))
    ];
  }
    where
      stays :
          (j : ℕ)
          → j < threads
          → (t == j) ≡ false
          → holds b (pc j) ≡ 1
          → (q.slot b).flags ≡ 3
          → s.flags ≡ 3
      stays j j_lt other h set = ground (
        arith,
        keeps set,
        ap (holds b) here,
        held b,
        sum_below_pair (holds b) threads pc t j lt j_lt (ground arith),
      )

  -- The count is at most the number of slots and threads, so that it does not overflow.
  pub count-le : q.jobs_in_queue ≤ n + threads
  count-le = omega (
    arith,
    counted,
    sum_below-le ready (λ s. ground arith) q.capacity q.slot,
    sum_below-le pending pending-le threads pc,
  )

  -- What thread `t` knows, where it stands at `p`.
  pub own_facts : (p : Pc) → pc t ≡ p → Local q.capacity q.slot p
  own_facts p here = subst (Local q.capacity q.slot) here (known t lt)

  -- A thread with a share in the count finds it above 0.
  pub count-pos : (p : Pc) → pc t ≡ p → pending p ≡ 1 → (q.jobs_in_queue == 0) ≡ false
  count-pos p here one =
      ground (arith, counted, sum_below-part pending threads pc t lt, ap pending here)

  -- The bucket of a worker is in progress.
  pub in_progress : (p : Pc) (b : ℕ) → pc t ≡ p → holds b p ≡ 1 → 2 ≤ (q.slot b).flags
  in_progress p b here one =
      ground (arith, held b, sum_below-part (holds b) threads pc t lt, ap (holds b) here)

  -- A thread that changes nothing but its place.
  pub go_to :
      (p p' : Pc)
      → pc t ≡ p
      → pending p ≡ pending p'
      → ((x : ℕ) → holds x p' ≡ holds x p)
      → Local q.capacity q.slot p'
      → Inv threads n r q (update pc t p')
  go_to p p' here share same_holds own =
      move_on p p' q.jobs_in_queue here (omega arith) same_holds own
