-- ===== src/Queue/Bounds.antt =====
-- nea/src/queue.rs: the jobs in the slots are offsets of their bucket.
use nea.Base.{
  zero, suc, ◌+◌, bit-lt, ℕ, ◌%◌, ◌^◌, ◌==◌, ◌<◌, ◌≡◌, ◌≢◌, refl, sym, ap, subst, ◌∙◌, arith, Bool,
  true, ◌||◌, Option, none, some, ok, panic, Result, if◌then◌else◌, ltb, inl, inr, Bool-cases,
  bit_or-lt, bit_and-le, bit-bit_or, bit, ◌-◌, ◌>>=◌, ◌>>◌, ensure, out_of_bounds,
}
use native.Mathlib.Nat.{mod-lt}
use nea.Index.{BucketIndex, IoResources, Fits, QueueIndex, per_bucket, to_bucket_index}
use nea.Index.Buckets.{width, per_bucket-eq}
use nea.Queue.{
  ComplexQueue, set_slot, initial_enqueue, helper, helper_mark, done_with_bucket, done_rounds,
  NextStep, with_capacity, try_dequeue, try_dequeue_from, decrement_active,
}
use nea.Queue.Slot.{
  try_process, QueueSlot, add_job, mark_enqueued, dequeue, next_job, take_job, remove_job,
  leave_again, leave_clear,
}
use nea.Queue.Jobs.{has_job, dequeue-Dequeued, Dequeued}

-- The words of the slots are in range, and the jobs in them are offsets of a bucket.
pub record Queued (r : IoResources) (q : ComplexQueue) : Type 0 where
  pub same_resources : q.io_resources ≡ r
  pub words : (b : ℕ) → (q.slot b).jobs < 2 ^ 64
  pub inside : (b k : ℕ) → has_job (q.slot b) k ≡ true → k < width r

-- The jobs of all slots behind `helper`.
helper_jobs :
    (q : ComplexQueue) (b k : ℕ) {q' : ComplexQueue} {notified : Bool}
    → helper q b k ≡ ok (q', notified)
    → (q'.io_resources ≡ q.io_resources)
      × ((x : ℕ)
          → (q'.slot x).jobs ≡ (if b == x then (add_job k (q.slot b)).1.jobs else (q.slot x).jobs))
unfolding helper helper_mark mark_enqueued
helper_jobs q b k e = (ground arith, λ x. ground arith)

add_job_bits :
    (k : ℕ) (s : QueueSlot)
    → s.jobs < 2 ^ 64
    → ((add_job k s).1.jobs < 2 ^ 64)
      × ((i : ℕ) → has_job (add_job k s).1 i ≡ (i == k % 64 || has_job s i))
unfolding add_job
add_job_bits k s word =
    (bit_or-lt 64 s.jobs (k % 64) word (omega arith), bit-bit_or s.jobs (k % 64))

module _ {r : IoResources} {n : ℕ} (f : Fits r n) (pos : 0 < n) where
  helper-Queued :
      (q : ComplexQueue) (b k : ℕ) {q' : ComplexQueue} {notified : Bool}
      → Queued r q
      → k < width r
      → helper q b k ≡ ok (q', notified)
      → Queued r q'
  helper-Queued q b k {q'} queued lt e = record {
    same_resources = (helper_jobs q b k e).0 ∙ queued.same_resources;
    words = λ x.
        let jobs = (helper_jobs q b k e).1 x in
        ground (arith, jobs, queued.words x, (add_job_bits k (q.slot b) (queued.words b)).0);
    inside = λ x i has. elim (Bool-cases (b == x)) [
      | inl here ↦
          let same : (q'.slot x).jobs ≡ (add_job k (q.slot b)).1.jobs =
            (helper_jobs q b k e).1 x ∙ rw here refl in
          let has' : has_job (add_job k (q.slot b)).1 i ≡ true =
            ap (λ (m : ℕ). bit m i) (sym same) ∙ has in
          ground (arith, (add_job_bits k (q.slot b) (queued.words b)).1 i, has', queued.inside b i)
      | inr away ↦
          let same : (q'.slot x).jobs ≡ (q.slot x).jobs =
            (helper_jobs q b k e).1 x ∙ rw away refl in
          queued.inside x i (ap (λ (m : ℕ). bit m i) (sym same) ∙ has)
    ];
  }

  pub enqueue-Queued :
      (q : ComplexQueue) (i : QueueIndex) {q' : ComplexQueue} {notified : Bool}
      → Queued r q
      → initial_enqueue q i ≡ ok (q', notified)
      → Queued r q'
  unfolding initial_enqueue
  enqueue-Queued q i {q'} {notified} queued e = go (to_bucket_index q.io_resources i) e
    where
      offset_lt : i.index % per_bucket q.io_resources < width r
      offset_lt =
          let wide : per_bucket q.io_resources ≡ width r =
            ap per_bucket queued.same_resources ∙ per_bucket-eq f pos in
          rw wide (mod-lt i.index {m = width r} (omega (arith, f.has_stream)))

      go :
          (bucket : Result BucketIndex)
          → (bucket >>= λ b.
              ensure (ltb b.index q.capacity) out_of_bounds
              >> helper q b.index (i.index % per_bucket q.io_resources))
            ≡ ok (q', notified)
          → Queued r q'
      go (panic p) e = absurd (ground arith)
      go (ok b) e = elim (Bool-cases (ltb b.index q.capacity)) [
        | inl there ↦
            helper-Queued q b.index (i.index % per_bucket q.io_resources) queued offset_lt
              (rw there at e)
        | inr outside ↦ absurd (ground arith)
      ]

take_job-lt : (s : QueueSlot) (job : Option ℕ) → s.jobs < 2 ^ 64 → (take_job s job).1.jobs < 2 ^ 64
unfolding remove_job
take_job-lt s none word = word
take_job-lt s (some k) word = omega (arith, bit_and-le s.jobs (2 ^ 64 - 1 - 2 ^ (k % 64)))

dequeue-lt : (s : QueueSlot) → s.jobs < 2 ^ 64 → (dequeue s).1.jobs < 2 ^ 64
unfolding dequeue
dequeue-lt s = take_job-lt s (next_job s)

Dequeued-subset :
    (s s' : QueueSlot) (job : Option ℕ) (k : ℕ)
    → Dequeued s job s'
    → has_job s' k ≡ true
    → has_job s k ≡ true
Dequeued-subset s s' none k (_, same) has = subst (λ x. has_job x k ≡ true) same has
Dequeued-subset s s' (some j) k (_, _, _, _, left) has = ground (arith, left k)

dequeue-subset :
    (s : QueueSlot) (k : ℕ) → s.jobs < 2 ^ 64 → has_job (dequeue s).1 k ≡ true → has_job s k ≡ true
dequeue-subset s k word has =
    Dequeued-subset s (dequeue s).1 (dequeue s).0 k (dequeue-Dequeued s word) has

pub dequeue-Queued :
    {r : IoResources} (q : ComplexQueue) (b : ℕ)
    → Queued r q
    → Queued r (set_slot q b (dequeue (q.slot b)).1)
dequeue-Queued {r} q b queued = record {
  same_resources = queued.same_resources;
  words = λ x. elim (Bool-cases (b == x)) [
    | inl here ↦ rw here (dequeue-lt (q.slot b) (queued.words b))
    | inr away ↦ rw away (queued.words x)
  ];
  inside = λ x k has. elim (Bool-cases (b == x)) [
    | inl here ↦ queued.inside b k (dequeue-subset (q.slot b) k (queued.words b) (rw here at has))
    | inr away ↦ queued.inside x k (rw away at has)
  ];
}

leave_jobs :
    (s : QueueSlot) {next : NextStep} {s' : QueueSlot}
    → done_with_bucket s ≡ ok (next, s')
    → s'.jobs ≡ s.jobs
unfolding done_with_bucket done_rounds leave_again leave_clear
leave_jobs s e = ground arith

-- A change of one slot that keeps its jobs.
pub leave-Queued :
    {r : IoResources} (q : ComplexQueue) (b : ℕ) {next : NextStep} {s : QueueSlot}
    → Queued r q
    → done_with_bucket (q.slot b) ≡ ok (next, s)
    → Queued r (set_slot q b s)
leave-Queued q b {next} {s} queued e = record {
  same_resources = queued.same_resources;
  words = λ x. ground (arith, leave_jobs (q.slot b) e, queued.words b, queued.words x);
  inside = λ x k has. elim (Bool-cases (b == x)) [
    | inl here ↦
        queued.inside b k (ap (λ (m : ℕ). bit m k) (sym (leave_jobs (q.slot b) e)) ∙ rw here at has)
    | inr away ↦ queued.inside x k (rw away at has)
  ];
}

helper-capacity :
    (q : ComplexQueue) (b k : ℕ) {q' : ComplexQueue} {notified : Bool}
    → helper q b k ≡ ok (q', notified)
    → q'.capacity ≡ q.capacity
unfolding helper helper_mark
helper-capacity q b k e = ground arith

pub enqueue-capacity :
    (q : ComplexQueue) (i : QueueIndex) {q' : ComplexQueue} {notified : Bool}
    → initial_enqueue q i ≡ ok (q', notified)
    → q'.capacity ≡ q.capacity
unfolding initial_enqueue
enqueue-capacity q i {q'} {notified} = go (to_bucket_index q.io_resources i)
  where
    go :
        (bucket : Result BucketIndex)
        → (bucket >>= λ b.
            ensure (ltb b.index q.capacity) out_of_bounds
            >> helper q b.index (i.index % per_bucket q.io_resources))
          ≡ ok (q', notified)
        → q'.capacity ≡ q.capacity
    go (panic p) e = absurd (ground arith)
    go (ok b) e = elim (Bool-cases (ltb b.index q.capacity)) [
      | inl there ↦ helper-capacity q b.index (i.index % per_bucket q.io_resources) (rw there at e)
      | inr outside ↦ absurd (ground arith)
    ]

helper-others :
    (q : ComplexQueue) (b k : ℕ) {q' : ComplexQueue} {notified : Bool}
    → helper q b k ≡ ok (q', notified)
    → (x : ℕ) → x ≢ b
    → q'.slot x ≡ q.slot x
unfolding helper helper_mark
helper-others q b k e x ne = ground arith

-- A wake changes the slot of its bucket alone.
pub enqueue-others :
    (q : ComplexQueue) (i : QueueIndex) (b : BucketIndex) {q' : ComplexQueue} {notified : Bool}
    → initial_enqueue q i ≡ ok (q', notified)
    → to_bucket_index q.io_resources i ≡ ok b
    → (x : ℕ) → x ≢ b.index
    → q'.slot x ≡ q.slot x
unfolding initial_enqueue
enqueue-others q i b e bucket = elim (Bool-cases (ltb b.index q.capacity)) [
  | inl there ↦
      helper-others q b.index (i.index % per_bucket q.io_resources) (rw (bucket, there) at e)
  | inr outside ↦ let e' = rw (bucket, outside) at e in absurd (ground arith)
]

pub with_capacity-Queued : (n : ℕ) (r : IoResources) → Queued r (with_capacity n r)
unfolding with_capacity
with_capacity-Queued n r = record {
  same_resources = refl;
  words = λ b. omega arith;
  inside = λ b k has. absurd (omega (arith, bit-lt 0 0 k (omega arith) has));
}

-- A change that keeps the jobs of all slots.
Queued-jobs :
    {r : IoResources} {q q' : ComplexQueue}
    → q'.io_resources ≡ q.io_resources
    → ((b : ℕ) → (q'.slot b).jobs ≡ (q.slot b).jobs)
    → Queued r q
    → Queued r q'
Queued-jobs resources jobs queued = record {
  same_resources = resources ∙ queued.same_resources;
  words = λ b. ground (arith, jobs b, queued.words b);
  inside = λ b k has. queued.inside b k (ap (λ (m : ℕ). bit m k) (sym (jobs b)) ∙ has);
}

-- What `try_dequeue` leaves of the queue.
abbrev SameJobs : ComplexQueue → ComplexQueue → Type 0
SameJobs q q' = (q'.io_resources ≡ q.io_resources) × ((b : ℕ) → (q'.slot b).jobs ≡ (q.slot b).jobs)

try_dequeue_from-jobs :
    (q : ComplexQueue) (left i : ℕ) {found : Option BucketIndex} {q' : ComplexQueue}
    → try_dequeue_from q left i ≡ ok (found, q')
    → SameJobs q q'
unfolding try_dequeue_from try_process decrement_active
try_dequeue_from-jobs q zero i e = (ground arith, λ b. ground arith)
try_dequeue_from-jobs q (suc left) i {found} {q'} e = elim (Bool-cases ((q.slot i).flags == 1)) [
  | inl claim ↦ let taken = rw claim at e in (ground arith, λ b. ground arith)
  | inr other ↦ try_dequeue_from-jobs q left (i + 1) (rw other at e)
]

pub try_dequeue-Queued :
    {r : IoResources} (q : ComplexQueue) {found : Option BucketIndex} {q' : ComplexQueue}
    → try_dequeue q ≡ ok (found, q')
    → Queued r q
    → Queued r q'
unfolding try_dequeue
try_dequeue-Queued q e queued =
    let (resources, jobs) = try_dequeue_from-jobs q q.capacity 0 e in
    Queued-jobs resources jobs queued
