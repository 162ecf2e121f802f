-- ===== src/Executor/Whole/Race.antt =====
-- nea/src/executor.rs: a worker that polls a bucket between `try_claim` and `execute`.
use nea.Base.{
  ℕ, ◌^◌, ◌<◌, ◌≡◌, ◌≢◌, inl, inr, refl, sym, ap, subst, ◌∙◌, arith, Bool, Option, none, some,
  update, panic, ltb, true, false, List, assertion_failed,
}
use nea.Index.{BucketIndex}
use nea.Queue.{set_slot}
use nea.Queue.Slot.{dequeue}
use nea.Queue.Jobs.{has_job}
use nea.Executor.{
  Inner, Outcome, returns, set, execute, is_none, try_claim, Action, Poll, leaves, panic_done,
  panicked, set_queue,
}
use nea.Executor.Claim.{Claims, IsTaken, try_claim-Claims}
use nea.Executor.Start.{claim_and_execute}
use nea.Executor.Run.{run_job, give_up}
use nea.Executor.Run.Balance.{no_future_of}
use nea.Executor.Run.Actions.{Steady}
use nea.Executor.Run.Cleanup.{cleanup_bucket-IsFree, IsFree, OnlyBucket}
use nea.Executor.Run.Stale.{stale_run}
use nea.Executor.Run.Idle.{Steady-queue}
use nea.Queue.Bounds.{dequeue-Queued}
use nea.Executor.Whole.{Whole}
use nea.Executor.Whole.Steps.{Whole-Steady}
use nea.Executor.Whole.Accepts.{free_of, execute-returns}

-- A bucket whose future is there already.
module _ {F C : Type 0} (s : Inner F C) (fd : ℕ) (b : BucketIndex) (fut : F) where
  execute_twice :
      (old : F)
      → b.index < s.bucket_count
      → s.futures b.index ≡ some old
      → (execute s fd b fut).result ≡ panic assertion_failed
  unfolding execute set
  execute_twice old lt was =
      let there : ltb b.index s.bucket_count ≡ true = ground arith in
      let used : is_none (s.futures b.index) ≡ false = ap is_none was in rw (there, used) refl

give_up_cleaned :
    {F C : Type 0} (s : Inner F C) (b : BucketIndex) {n size : ℕ}
    → Steady n size b.index s
    → (s' : Inner F C) × (give_up s b panicked panic_done ≡ returns s' (leaves panic_done))
      × IsFree size s' b
      × OnlyBucket s s' b
unfolding give_up
give_up_cleaned s b {n} {size} st =
    let (s', e, free, only, _, _, _) =
      cleanup_bucket-IsFree s b panicked n size st.arenas st.exists in
    (s', rw e refl, free, only)

-- The first bucket that is not taken is the same if no count before it has changed.
Claims-again :
    {F C : Type 0} (locked : ℕ → Bool) (s s3 : Inner F C) (b : ℕ) (found : Option BucketIndex)
    (s4 : Inner F C)
    → b < s3.bucket_count
    → s3.refcounts b ≡ 0
    → locked b ≡ false
    → ((x : ℕ) → x < b → IsTaken locked s x)
    → ((x : ℕ) → x ≢ b → s3.refcounts x ≡ s.refcounts x)
    → Claims locked s3 0 found s4
    → (b' : BucketIndex) × (found ≡ some b')
      × (b'.index ≡ b)
      × (s4.futures ≡ s3.futures)
      × (s4.bucket_count ≡ s3.bucket_count)
Claims-again locked s s3 b none s4 lt free open_ before same (_, taken) =
    elim (taken b (omega arith) lt) [
      | inl counted ↦ absurd (counted free)
      | inr busy ↦ absurd (ground arith)
    ]
Claims-again locked s s3 b (some b') s4 lt free open_ before same
      (_, free', open', before', claimed) =
    (
      b',
      refl,
      which,
      ap (λ (x : Inner _ _). x.futures) claimed,
      ap (λ (x : Inner _ _). x.bucket_count) claimed,
    )
  where
    not_below : ¬ (b'.index < b)
    not_below l = elim (before b'.index l) [
      | inl counted ↦ counted (sym (same b'.index (λ e. omega (arith, l, e))) ∙ free')
      | inr busy ↦ absurd (ground arith)
    ]

    not_above : ¬ (b < b'.index)
    not_above l = elim (before' b (omega arith) l) [
      | inl counted ↦ counted free
      | inr busy ↦ absurd (ground arith)
    ]

    which : b'.index ≡ b
    which = omega (arith, not_below, not_above)

-- A new request while the first free bucket has a future.
crash :
    {F C : Type 0} (locked : ℕ → Bool) (s s3 : Inner F C) (b fd : ℕ) (fut old : F)
    → s3.bucket_count < 2 ^ 32
    → b < s3.bucket_count
    → s3.refcounts b ≡ 0
    → s3.futures b ≡ some old
    → locked b ≡ false
    → ((x : ℕ) → x < b → IsTaken locked s x)
    → ((x : ℕ) → x ≢ b → s3.refcounts x ≡ s.refcounts x)
    → (claim_and_execute locked s3 fd fut).1.result ≡ panic assertion_failed
unfolding claim_and_execute
crash {F} {C} locked s s3 b fd fut old small lt free there open_ before same =
    let (found, s4) = try_claim locked s3 in
    let (b', eq, index, futures, buckets) =
      Claims-again locked s s3 b found s4 lt free open_ before same
        (try_claim-Claims locked s3 small) in
    subst
      (λ x.
        (elim x as (λ _. Outcome (Inner F C) (Unit {0})) [
          | none ↦ returns s4 tt
          | some b ↦ execute s4 fd b fut
        ]).result
        ≡ panic assertion_failed)
      (sym eq)
      (execute_twice s4 fd b' fut old (omega (arith, index, buckets, lt))
        (ap (λ f. f b'.index) futures ∙ ap s3.futures index ∙ there))

module _ {F C : Type 0} (poll_future : F → List (Action C) × Poll F)
    (poll_connection : C → List (Action C) × Poll C) {n size : ℕ} (s : Inner F C)
    (w : Whole n size s) where
  claimed_Steady :
      (b : ℕ) → b < n → Steady n size b (record s { refcounts = update s.refcounts b 1 })
  claimed_Steady b lt =
      let st = Whole-Steady w b lt in
      record {
        exists = lt;
        buckets = w.buckets;
        resources = w.resources;
        few = w.few;
        arenas = w.arenas;
        queued = w.queued;
        others = λ x x_lt ne. ground (arith, st.others x x_lt ne);
      }

  -- On a server whose buckets are as they should be: when `try_claim` has given a bucket, and the
  -- job of its main future is in the queue before the future is stored, the next round of a worker
  -- on it cleans the bucket up as after a panic; if the request is then started in it, and that
  -- returns, the next request finds the same bucket, while the same buckets are locked, and fails
  -- the assertion of `set`.
  pub claim_race :
      (locked : ℕ → Bool) (fd fd' : ℕ) (fut fut' : F) (b : BucketIndex) (s1 : Inner F C)
      → try_claim locked s ≡ (some b, s1)
      → has_job (s.queue.slot b.index) 0 ≡ true
      → (s2 : Inner F C) × (run_job poll_future poll_connection s1 b
          ≡ returns s2 (leaves panic_done))
        × ((s3 : Inner F C)
            → execute s2 fd b fut ≡ returns s3 tt
            → (claim_and_execute locked s3 fd' fut').1.result ≡ panic assertion_failed)
  claim_race locked fd fd' fut fut' b s1 claim has =
      let (lt, unclaimed, open_, before, claimed) =
        subst (λ (p : Option BucketIndex × Inner F C). Claims locked s 0 p.0 p.1) claim
          (try_claim-Claims locked s (omega (arith, w.buckets, w.resources.few_buckets))) in
      let b_lt : b.index < n = omega (arith, lt, w.buckets) in
      let no_future =
        no_future_of (s.futures b.index)
          (omega (arith, (free_of unclaimed (w.each b.index b_lt)).no_job)) in
      let c1 = record s { refcounts = update s.refcounts b.index 1 } in
      let st = claimed_Steady b.index b_lt in
      let q = set_slot s.queue b.index (dequeue (s.queue.slot b.index)).1 in
      let (s2, gave_up, free, only) =
        give_up_cleaned (set_queue c1 q) (record { identifier = 0; index = b.index })
          (Steady-queue q st (dequeue-Queued s.queue b.index w.queued)) in
      (
        s2,
        ap (λ x. run_job poll_future poll_connection x b) claimed
            ∙ stale_run poll_future poll_connection b c1 st no_future has
            ∙ gave_up,
        λ s3 executed.
            let there : b.index < s2.bucket_count = omega (arith, lt, only.buckets_kept) in
            let (_, _, _, same) = execute-returns s2 fd b fut there free.no_future executed in
            crash locked s s3 b.index fd' fut' fut
              (omega (
                arith,
                ap (λ (x : Inner F C). x.bucket_count) same,
                only.buckets_kept,
                w.buckets,
                w.resources.few_buckets,
              ))
              (omega (arith, ap (λ (x : Inner F C). x.bucket_count) same, there))
              (ap (λ (x : Inner F C). x.refcounts b.index) same ∙ free.unclaimed)
              (ap (λ (x : Inner F C). x.futures b.index) same ∙ ground arith) open_
              (λ x x_lt. before x (omega arith) x_lt)
              (λ x ne.
                ap (λ (y : Inner F C). y.refcounts x) same ∙ only.counts x ne ∙ ground arith),
      )
