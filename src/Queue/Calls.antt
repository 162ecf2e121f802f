-- ===== src/Queue/Calls.antt =====
-- nea/src/queue.rs: the functions of the queue when nobody else is at the slot.
use nea.Base.{
  ℕ, zero, suc, ◌+◌, ◌-◌, ◌*◌, ◌/◌, ◌%◌, ◌^◌, ◌≤◌, ◌<◌, ◌==◌, ◌≡◌, ◌≢◌, refl, arith, Bool,
  Bool-cases, true, false, inl, inr, ltb, none, some, ok, Option, not, ◌&&◌, ◌||◌, if◌then◌else◌,
  subst,
}
use native.Mathlib.Decide.{ℕ_discrete}
use nea.Index.{BucketIndex, QueueIndex, to_bucket_index, per_bucket}
use nea.Queue.{
  initial_enqueue, ComplexQueue, helper, helper_mark, done_with_bucket, done_rounds, done,
  increment_active, decrement_active, try_dequeue, try_dequeue_from, set_slot, set_count,
}
use nea.Queue.Slot.{QueueSlot, add_job, leave_again, leave_clear, try_process}
use nea.Queue.Jobs.{has_job, add_job_lem}
use nea.Queue.Flags.{mark_enqueued_lem}

-- The flags after a wake with a new job, and the share of the slot in the count.
abbrev pub enqueued_flags : ℕ → ℕ
enqueued_flags f = f / 2 * 2 + 1

-- A wake of one job of one bucket, when the count is below its end: the job is in the slot behind
-- it and no other job changes. If the job was there already, flags and count stay. If it is new,
-- the bucket is enqueued, and exactly if it was neither enqueued nor in progress before, the count
-- grows by one and a worker is notified.
pub record Woken (q : ComplexQueue) (b k : ℕ) (q' : ComplexQueue) (notified : Bool) : Type 0 where
  pub jobs : (i : ℕ) → has_job (q'.slot b) i ≡ (i == k || has_job (q.slot b) i)
  pub others : (x : ℕ) → x ≢ b → q'.slot x ≡ q.slot x
  pub flags :
      (q'.slot b).flags
      ≡ (if has_job (q.slot b) k then (q.slot b).flags else enqueued_flags (q.slot b).flags)
  pub notifies : notified ≡ (not (has_job (q.slot b) k) && (q.slot b).flags == 0)
  pub count : q'.jobs_in_queue ≡ (if notified then q.jobs_in_queue + 1 else q.jobs_in_queue)

-- What `helper` leaves behind, with the decisions of the record above.
woken : ComplexQueue → ℕ → ℕ → ComplexQueue × Bool
woken q b k =
    let s = q.slot b in
    let added = (add_job k s).1 in
    let q1 = set_slot q b added in
    let q2 = set_slot q1 b (record { flags = enqueued_flags added.flags; jobs = added.jobs }) in
    if has_job s k
    then (q1, false)
    else if s.flags == 0
    then (set_count q2 (q.jobs_in_queue + 1), true)
    else (q2, false)

helper-woken :
    (q : ComplexQueue) (b k : ℕ)
    → (q.slot b).flags < 4
    → (q.slot b).jobs < 2 ^ 64
    → k < 64
    → q.jobs_in_queue + 1 < 2 ^ 32
    → helper q b k ≡ ok (woken q b k)
unfolding helper helper_mark woken increment_active decrement_active
helper-woken q b k small word k_lt room =
    let (new, same_flags, _, _) = add_job_lem (q.slot b) k word k_lt in
    elim (Bool-cases (has_job (q.slot b) k)) [
      | inl old ↦ rw (new, old)
      | inr fresh ↦
          let below : ltb (q.jobs_in_queue + 1) (2 ^ 32) ≡ true = ground arith in
          let at_b : (b == b) ≡ true = ground arith in
          let marked = mark_enqueued_lem (add_job k (q.slot b)).1 (omega (arith, same_flags)) in
          rw (new, fresh, below, at_b, marked) (ground (arith, same_flags))
    ]

woken-Woken :
    (q : ComplexQueue) (b k : ℕ)
    → (q.slot b).flags < 4
    → (q.slot b).jobs < 2 ^ 64
    → k < 64
    → Woken q b k (woken q b k).0 (woken q b k).1
unfolding woken
woken-Woken q b k small word k_lt =
    let (new, same_flags, _, bits) = add_job_lem (q.slot b) k word k_lt in
    record {
      jobs = λ i. ground (arith, bits i);
      others = λ x ne. ground arith;
      flags = ground arith;
      notifies = ground arith;
      count = ground arith;
    }

-- A wake of a job with an offset below 64, in a slot whose flags and jobs are words of 2 and 64
-- bits, and with a count below the end of u32, returns. Behind it the job is in the slot and no
-- other job and no other slot has changed; if the job was there already, flags and count stay and
-- no worker is notified; if it is new, the bucket is enqueued, and exactly if it was neither
-- enqueued nor in progress the count grows by one and a worker is notified.
pub helper-Woken :
    (q : ComplexQueue) (b k : ℕ)
    → (q.slot b).flags < 4
    → (q.slot b).jobs < 2 ^ 64
    → k < 64
    → q.jobs_in_queue + 1 < 2 ^ 32
    → (q' : ComplexQueue) × (notified : Bool) × (helper q b k ≡ ok (q', notified))
      × Woken q b k q' notified
helper-Woken q b k small word k_lt room = (
  (woken q b k).0,
  (woken q b k).1,
  helper-woken q b k small word k_lt room,
  woken-Woken q b k small word k_lt,
)

-- The same of `initial_enqueue`, for a queue index of an existing bucket.
pub enqueue-Woken :
    (q : ComplexQueue) (i : QueueIndex) (b : BucketIndex) (k : ℕ)
    → to_bucket_index q.io_resources i ≡ ok b
    → b.index < q.capacity
    → i.index % per_bucket q.io_resources ≡ k
    → (q.slot b.index).flags < 4
    → (q.slot b.index).jobs < 2 ^ 64
    → k < 64
    → q.jobs_in_queue + 1 < 2 ^ 32
    → (q' : ComplexQueue) × (notified : Bool) × (initial_enqueue q i ≡ ok (q', notified))
      × Woken q b.index k q' notified
unfolding initial_enqueue
enqueue-Woken q i b k bucket lt offset small word k_lt room =
    let (q', notified, eq, spec) = helper-Woken q b.index k small word k_lt room in
    let there : ltb b.index q.capacity ≡ true = ground arith in
    (q', notified, rw (bucket, there, offset) eq, spec)

-- `try_dequeue` returns `none` only if no slot may be claimed, and changes nothing then. Otherwise
-- it claims the first slot that is enqueued and not in progress, and takes it off the count.
abbrev pub Dequeues : ComplexQueue → ℕ → Option BucketIndex → ComplexQueue → Type 0
Dequeues q i none q' = (q' ≡ q) × ((x : ℕ) → i ≤ x → x < q.capacity → (q.slot x).flags ≢ 1)
Dequeues q i (some found) q' =
    (found.index < q.capacity)
    × ((q.slot found.index).flags ≡ 1)
    × ((x : ℕ) → i ≤ x → x < found.index → (q.slot x).flags ≢ 1)
    × (q'
        ≡ set_count (set_slot q found.index (record (q.slot found.index) { flags = 2 }))
            (q.jobs_in_queue - 1))

Dequeues-earlier :
    (q : ComplexQueue) (i : ℕ) (found : Option BucketIndex) (q' : ComplexQueue)
    → (q.slot i).flags ≢ 1
    → Dequeues q (i + 1) found q'
    → Dequeues q i found q'
Dequeues-earlier q i none q' ne (same, rest) = (
  same,
  λ x above below. elim (ℕ_discrete i x) [
    | yes e ↦ subst (λ y. (q.slot y).flags ≢ 1) e ne
    | no e ↦ rest x (omega arith) below
  ],
)
Dequeues-earlier q i (some found) q' ne (lt, enq, rest, eq) = (
  lt,
  enq,
  (λ x above below. elim (ℕ_discrete i x) [
    | yes e ↦ subst (λ y. (q.slot y).flags ≢ 1) e ne
    | no e ↦ rest x (omega arith) below
  ]),
  eq,
)

try_dequeue_from-Dequeues :
    (q : ComplexQueue) (left i : ℕ)
    → i + left ≡ q.capacity
    → q.capacity < 2 ^ 32
    → 0 < q.jobs_in_queue
    → (found : Option BucketIndex) × (q' : ComplexQueue) × (try_dequeue_from q left i
        ≡ ok (found, q'))
      × Dequeues q i found q'
unfolding try_dequeue_from try_process decrement_active
try_dequeue_from-Dequeues q zero i e small pos =
    (none, q, refl, (refl, λ x above below. absurd (omega arith)))
try_dequeue_from-Dequeues q (suc left) i e small pos = elim (Bool-cases ((q.slot i).flags == 1)) [
  | inl claim ↦
      let nonzero : (q.jobs_in_queue == 0) ≡ false = ground arith in
      let index : i % 2 ^ 32 ≡ i = omega arith in
      rw (claim, nonzero)
        (
          some (record { index = i; identifier = 0 }),
          _,
          rw index refl,
          (omega arith, ground arith, (λ x above below. absurd (omega arith)), refl),
        )
  | inr other ↦
      let (found, q', eq, spec) =
        try_dequeue_from-Dequeues q left (i + 1) (omega arith) small pos in
      rw other (found, q', eq, Dequeues-earlier q i found q' (ground arith) spec)
]

-- With a count above 0 and fewer than 2^32 slots, `try_dequeue` returns: `none` and the same queue
-- only if no slot is enqueued and not in progress, and otherwise the first such slot, which is then
-- in progress alone, with the count less by one and no other change.
pub try_dequeue-Dequeues :
    (q : ComplexQueue)
    → q.capacity < 2 ^ 32
    → 0 < q.jobs_in_queue
    → (found : Option BucketIndex) × (q' : ComplexQueue) × (try_dequeue q ≡ ok (found, q'))
      × Dequeues q 0 found q'
unfolding try_dequeue
try_dequeue-Dequeues q small pos = try_dequeue_from-Dequeues q q.capacity 0 (omega arith) small pos

-- If a worker leaves a bucket in progress that is not enqueued, while one of its jobs below 64 is
-- in the slot, then `done_with_bucket` returns `done`, and a later wake of that job notifies no
-- worker, leaves the flags at 0, so that no worker finds the bucket, and leaves the count.
pub forgotten_job :
    (q : ComplexQueue) (b k : ℕ)
    → (q.slot b).flags ≡ 2
    → (q.slot b).jobs < 2 ^ 64
    → k < 64
    → has_job (q.slot b) k ≡ true
    → (s : QueueSlot) × (q' : ComplexQueue) × (done_with_bucket (q.slot b) ≡ ok (done, s))
      × (helper (set_slot q b s) b k ≡ ok (q', false))
      × ((q'.slot b).flags ≡ 0)
      × (q'.jobs_in_queue ≡ q.jobs_in_queue)
unfolding done_with_bucket done_rounds leave_again leave_clear helper
forgotten_job q b k busy word k_lt left =
    let s : QueueSlot = record (q.slot b) { flags = 0 } in
    let (new, same_flags, _, _) = add_job_lem s k word k_lt in
    let at_b : (b == b) ≡ true = ground arith in
    (
      s,
      set_slot (set_slot q b s) b (add_job k s).1,
      ground arith,
      rw (at_b, new, left),
      ground (arith, same_flags),
      refl,
    )
