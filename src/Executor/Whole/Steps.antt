-- ===== src/Executor/Whole/Steps.antt =====
-- nea/src/executor.rs: every step of the server keeps its buckets as they should be.
use native.Mathlib.Decide.{ℕ_discrete}
use nea.Base.{ℕ, ◌<◌, ◌≡◌, inl, inr, refl, sym, ap, subst, ◌∙◌, arith, Bool, ok, panic, Result}
use nea.Index.{QueueIndex}
use nea.Queue.{ComplexQueue, initial_enqueue}
use nea.Queue.Bounds.{Queued, enqueue-Queued}
use nea.Allocator.{Bucket}
use nea.Executor.{Inner, Outcome, returns, fails, enqueue, set_queue}
use nea.Executor.Run.Balance.{jobs_of}
use nea.Executor.Run.Actions.{Steady}
use nea.Executor.Run.Idle.{Settled, Settled-queue}
use nea.Executor.Run.Apart.{Apart}
use nea.Executor.Whole.{Whole}

pub Settled-count :
    {F C : Type 0} {size b : ℕ} {s : Inner F C} → Settled size s b → s.refcounts b ≡ jobs_of s b
Settled-count (inl h) = h.own
Settled-count (inr f) = f.unclaimed ∙ sym f.no_job

-- A bucket with the same count, jobs and memory.
Settled-same :
    {F C : Type 0} {size b : ℕ} {s s' : Inner F C}
    → s'.refcounts b ≡ s.refcounts b
    → jobs_of s' b ≡ jobs_of s b
    → s'.allocator.bucket b ≡ s.allocator.bucket b
    → Settled size s b
    → Settled size s' b
Settled-same count jobs memory (inl h) = inl (record {
  own = omega (arith, count, jobs, h.own);
  some_job = omega (arith, count, h.some_job);
})
Settled-same count jobs memory (inr f) = inr (record {
  unclaimed = count ∙ f.unclaimed;
  no_job = jobs ∙ f.no_job;
  memory = ap (λ (x : Bucket). x.remaining) memory ∙ f.memory;
})

module _ {F C : Type 0} {n size : ℕ} {s : Inner F C} (w : Whole n size s) where
  pub Whole-Steady : (b : ℕ) → b < n → Steady n size b s
  Whole-Steady b lt = record {
    exists = lt;
    buckets = w.buckets;
    resources = w.resources;
    few = w.few;
    arenas = w.arenas;
    queued = w.queued;
    others = λ x x_lt ne. Settled-count (w.each x x_lt);
  }

  pub Steady-Whole :
      {b : ℕ} {s' : Inner F C}
      → Steady n size b s'
      → Settled size s' b
      → Apart b s s'
      → Whole n size s'
  Steady-Whole {b} {s'} st settled apart = record {
    some_bucket = w.some_bucket;
    buckets = st.buckets;
    resources = st.resources;
    few = st.few;
    arenas = st.arenas;
    queued = st.queued;
    each = λ x lt. elim (ℕ_discrete x b) [
      | yes e ↦ subst (Settled size s') (sym e) settled
      | no ne ↦
          Settled-same (apart.counts x ne)
            (omega (arith, st.others x lt ne, apart.counts x ne, Settled-count (w.each x lt)))
            (apart.memory x ne) (w.each x lt)
    ];
  }

  pub Whole-queue : (q : ComplexQueue) → Queued s.io_resources q → Whole n size (set_queue s q)
  Whole-queue q queued = record {
    some_bucket = w.some_bucket;
    buckets = w.buckets;
    resources = w.resources;
    few = w.few;
    arenas = w.arenas;
    queued = queued;
    each = λ x lt. Settled-queue q (w.each x lt);
  }

-- A call of `enqueue` that returns has changed the queue alone.
pub enqueue-returns :
    {F C : Type 0} (s : Inner F C) (i : QueueIndex) {s' : Inner F C}
    → enqueue s i ≡ returns s' tt
    → (q : ComplexQueue) × (notified : Bool) × (initial_enqueue s.queue i ≡ ok (q, notified))
      × (s' ≡ set_queue s q)
unfolding enqueue
enqueue-returns {F} {C} s i {s'} = go (initial_enqueue s.queue i)
  where
    go :
        (r : Result (ComplexQueue × Bool))
        → (elim r as (λ _. Outcome (Inner F C) (Unit {0})) [
          | ok (q, _) ↦ returns (set_queue s q) tt
          | panic p ↦ fails s p
        ])
          ≡ returns s' tt
        → (q : ComplexQueue) × (notified : Bool) × (r ≡ ok (q, notified)) × (s' ≡ set_queue s q)
    go (ok (q, notified)) e =
        (q, notified, refl, sym (ap (λ (o : Outcome (Inner F C) (Unit {0})). o.state) e))
    go (panic p) e = absurd (ground arith)

pub enqueue-Whole :
    {F C : Type 0} {n size : ℕ} {s s' : Inner F C} (i : QueueIndex)
    → Whole n size s
    → enqueue s i ≡ returns s' tt
    → Whole n size s'
enqueue-Whole {n} {size} {s} i w e =
    let (q, notified, eq, same) = enqueue-returns s i e in
    subst (Whole n size) (sym same)
      (Whole-queue w q (enqueue-Queued w.resources w.some_bucket s.queue i w.queued eq))
