-- ===== src/Executor/Whole/Accepts.antt =====
-- nea/src/executor.rs and nea/src/lib.rs: a new request on the server as a whole.
use nea.Base.{
  ℕ, ◌<◌, ◌≡◌, ◌≢◌, inl, inr, refl, sym, ap, subst, ◌∙◌, arith, Bool, Option, none, some, update,
  ok, ltb, true,
}
use nea.Index.{BucketIndex, from_bucket_index, to_bucket_index}
use nea.Index.Buckets.{to_bucket_index-from_bucket_index}
use nea.Queue.{ComplexQueue, initial_enqueue}
use nea.Queue.Bounds.{Queued, enqueue-Queued, enqueue-others}
use nea.Executor.{Inner, Outcome, returns, set, execute, is_none, try_claim}
use nea.Executor.Claim.{Claims, IsTaken, try_claim-Claims}
use nea.Executor.Start.{claim_and_execute}
use nea.Executor.Run.Balance.{no_future_of}
use nea.Executor.Run.Actions.{Steady, Held}
use nea.Executor.Run.Release.{Freed}
use nea.Executor.Run.Idle.{Settled}
use nea.Executor.Run.Apart.{Apart}
use nea.Executor.Whole.{Whole}
use nea.Executor.Whole.Steps.{Whole-Steady, Steady-Whole, enqueue-returns}

-- Bucket `b` with a new future, its stream and a count of 1.
abbrev pub given : {F C : Type 0} → Inner F C → ℕ → BucketIndex → F → ComplexQueue → Inner F C
given s fd b fut q = record s {
  refcounts = update s.refcounts b.index 1;
  futures = update s.futures b.index (some fut);
  tcp_streams = update s.tcp_streams b.index fd;
  queue = q;
}

-- What a new request that nothing panics at leads to: no bucket can be claimed, and nothing
-- changes; or a bucket with a count of 0 has the future and the stream.
abbrev pub Accepted :
    {F C : Type 0} → ℕ → (ℕ → Bool) → Inner F C → ℕ → F → Option BucketIndex → Inner F C → Type 0
Accepted n locked s fd fut none s' = (s' ≡ s) × ((x : ℕ) → x < n → IsTaken locked s x)
Accepted n locked s fd fut (some b) s' =
    (b.index < n)
    × (s.refcounts b.index ≡ 0)
    × ((q : ComplexQueue) × Queued s.io_resources q
        × ((x : ℕ) → x ≢ b.index → q.slot x ≡ s.queue.slot x)
        × (s' ≡ given s fd b fut q))

pub free_of :
    {F C : Type 0} {size b : ℕ} {s : Inner F C}
    → s.refcounts b ≡ 0
    → Settled size s b
    → Freed size s b
free_of e (inl h) = absurd (omega (arith, e, h.some_job))
free_of e (inr f) = f

pub execute-returns :
    {F C : Type 0} (s : Inner F C) (fd : ℕ) (b : BucketIndex) (fut : F) {s' : Inner F C}
    → b.index < s.bucket_count
    → s.futures b.index ≡ none
    → execute s fd b fut ≡ returns s' tt
    → (q : ComplexQueue) × (notified : Bool) × (initial_enqueue s.queue
          (from_bucket_index s.io_resources b)
        ≡ ok (q, notified))
      × (s' ≡ record s {
        futures = update s.futures b.index (some fut);
        tcp_streams = update s.tcp_streams b.index fd;
        queue = q;
      })
unfolding execute set
execute-returns s fd b fut lt free e =
    let there : ltb b.index s.bucket_count ≡ true = ground arith in
    let unused : is_none (s.futures b.index) ≡ true = ap is_none free in
    enqueue-returns
      (record s {
        futures = update s.futures b.index (some fut);
        tcp_streams = update s.tcp_streams b.index fd;
      })
      (from_bucket_index s.io_resources b) (rw (there, unused) at e)

module _ {F C : Type 0} {n size : ℕ} (locked : ℕ → Bool) (s : Inner F C) (fd : ℕ) (fut : F)
    (w : Whole n size s) where
  accept_at :
      (first found : Option BucketIndex) (s1 s' : Inner F C)
      → Claims locked s 0 first s1
      → ◌≡◌ {A = Option BucketIndex × Outcome (Inner F C) (Unit {0})}
          (
            first,
            elim first as (λ _. Outcome (Inner F C) (Unit {0})) [
              | none ↦ returns s1 tt
              | some b ↦ execute s1 fd b fut
            ],
          )
          (found, returns s' tt)
      → Accepted n locked s fd fut found s'
  accept_at none found s1 s' (same, taken) e =
      subst (λ f. Accepted n locked s fd fut f s')
        (ap (λ (p : Option BucketIndex × Outcome (Inner F C) (Unit {0})). p.0) e)
        (
          sym (ap (λ (p : Option BucketIndex × Outcome (Inner F C) (Unit {0})). p.1.state) e)
              ∙ same,
          λ x lt. taken x (omega arith) (omega (arith, w.buckets)),
        )
  accept_at (some b) found s1 s' (lt, unclaimed, _, _, claimed) e =
      subst (λ f. Accepted n locked s fd fut f s')
        (ap (λ (p : Option BucketIndex × Outcome (Inner F C) (Unit {0})). p.0) e)
        (let b_lt : b.index < n = omega (arith, lt, w.buckets) in
          let free = free_of unclaimed (w.each b.index b_lt) in
          let (q, notified, eq, same) =
            execute-returns (record s { refcounts = update s.refcounts b.index 1 }) fd b fut lt
              (no_future_of (s.futures b.index) (omega (arith, free.no_job)))
              (subst (λ x. execute x fd b fut ≡ returns s' tt) claimed
                (ap (λ (p : Option BucketIndex × Outcome (Inner F C) (Unit {0})). p.1) e)) in
          (
            b_lt,
            unclaimed,
            (
              q,
              enqueue-Queued w.resources w.some_bucket s.queue (from_bucket_index s.io_resources b)
                  w.queued eq,
              enqueue-others s.queue (from_bucket_index s.io_resources b) b eq (
                  ap (λ r. to_bucket_index r (from_bucket_index s.io_resources b))
                    w.queued.same_resources
                  ∙ to_bucket_index-from_bucket_index w.resources b b_lt),
              same,
            ),
          ))

  pub claim_and_execute-Accepted :
      (found : Option BucketIndex) (s' : Inner F C)
      → claim_and_execute locked s fd fut ≡ (found, returns s' tt)
      → Accepted n locked s fd fut found s'
  unfolding claim_and_execute
  claim_and_execute-Accepted found s' e =
      let (first, s1) = try_claim locked s in
      accept_at first found s1 s'
        (try_claim-Claims locked s (omega (arith, w.buckets, w.resources.few_buckets))) e

  pub given-Apart : (b : BucketIndex) (q : ComplexQueue) → Apart b.index s (given s fd b fut q)
  given-Apart b q = record {
    counts = λ x ne. ground arith;
    same_futures = λ x ne. ground arith;
    same_streams = λ x ne. ground arith;
    memory = λ x ne. refl;
  }

  given-Steady :
      (b : BucketIndex) (q : ComplexQueue)
      → b.index < n
      → Queued s.io_resources q
      → Steady n size b.index (given s fd b fut q)
  given-Steady b q lt queued =
      let st = Whole-Steady w b.index lt in
      record {
        exists = lt;
        buckets = w.buckets;
        resources = w.resources;
        few = w.few;
        arenas = w.arenas;
        queued = queued;
        others = λ x x_lt ne. ground (arith, st.others x x_lt ne);
      }

  given-Held :
      (b : BucketIndex) (q : ComplexQueue)
      → Freed size s b.index
      → Held (given s fd b fut q) b.index
  given-Held b q free = record { own = ground (arith, free.no_job); some_job = ground arith }

  pub Accepted-Whole :
      (found : Option BucketIndex) (s' : Inner F C)
      → Accepted n locked s fd fut found s'
      → Whole n size s'
  Accepted-Whole none s' (same, _) = subst (Whole n size) (sym same) w
  Accepted-Whole (some b) s' (lt, unclaimed, (q, queued, _, same)) =
      let free = free_of unclaimed (w.each b.index lt) in
      subst (Whole n size) (sym same)
        (Steady-Whole w (given-Steady b q lt queued) (inl (given-Held b q free)) (given-Apart b q))
