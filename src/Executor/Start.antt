-- ===== src/Executor/Start.antt =====
-- nea/src/executor.rs: how a request starts, in a bucket that nobody has.
pub mod Streams
use nea.Base.{
  ℕ, ◌+◌, ◌*◌, ◌%◌, ◌^◌, ◌<◌, ◌≡◌, ◌⊎◌, inl, inr, refl, sym, ap, subst, ◌∙◌, arith, ltb, Bool, true,
  Option, none, some, update, ok, panic, not, ◌&&◌, ◌==◌, if◌then◌else◌, ◌∷◌, unwrap_failed, false,
}
use nea.Index.{
  IoResources, Fits, per_bucket, BucketIndex, QueueIndex, from_bucket_index, to_bucket_index,
}
use nea.Index.Buckets.{
  width, per_bucket-eq, from_bucket_index_parts, to_bucket_index-from_bucket_index,
}
use nea.Index.Division.{mod_of_parts}
use nea.Queue.{ComplexQueue}
use nea.Queue.Jobs.{has_job}
use nea.Queue.Calls.{Woken, enqueue-Woken, enqueued_flags}
use nea.Executor.{
  Inner, set, execute, enqueue, set_queue, is_none, Outcome, returns, fails, try_claim,
}
use nea.Executor.Claim.{Claims, IsTaken, try_claim-Claims}
use nea.Executor.Run.Balance.{Balanced, no_future_of, alive}

-- The queue has the buckets and the resources of the server, and its words are in range.
pub record IsQueue (n : ℕ) (r : IoResources) (q : ComplexQueue) : Type 0 where
  pub same_size : q.capacity ≡ n
  pub same_resources : q.io_resources ≡ r
  pub flags_fit : (b : ℕ) → (q.slot b).flags < 4
  pub jobs_fit : (b : ℕ) → (q.slot b).jobs < 2 ^ 64
  pub count_fits : q.jobs_in_queue + 1 < 2 ^ 32

module _ {F C : Type 0} {n : ℕ} (s : Inner F C) (fd : ℕ) (b : BucketIndex) (fut : F) where
  -- `execute` in an existing bucket without a future, on a server whose indices fit and whose queue
  -- has words in range, stores the future and the descriptor, and wakes job 0 of the bucket.
  pub execute-Started :
      s.bucket_count ≡ n
      → Fits s.io_resources n
      → IsQueue n s.io_resources s.queue
      → b.index < n
      → s.futures b.index ≡ none
      → (q : ComplexQueue) × (notified : Bool) × (execute s fd b fut
          ≡ returns
              (record s {
                futures = update s.futures b.index (some fut);
                tcp_streams = update s.tcp_streams b.index fd;
                queue = q;
              })
              tt)
        × Woken s.queue b.index 0 q notified
  unfolding execute set enqueue
  execute-Started size f queue lt free =
      let r = s.io_resources in
      let i = from_bucket_index r b in
      let index : i ≡ record { identifier = b.identifier; index = b.index * width r + 0 } =
        from_bucket_index_parts f b.identifier b.index lt in
      let bucket : to_bucket_index s.queue.io_resources i ≡ ok b =
        ap (λ x. to_bucket_index x i) queue.same_resources
        ∙ to_bucket_index-from_bucket_index f b lt in
      let offset : i.index % per_bucket s.queue.io_resources ≡ 0 =
        ap (λ x. i.index % per_bucket x) queue.same_resources
        ∙ ap (λ (w : ℕ). i.index % w) (per_bucket-eq f (omega arith))
        ∙ ap (λ (x : QueueIndex). x.index % width r) index
        ∙ mod_of_parts b.index (width r) 0 (omega (arith, f.has_stream)) in
      let (q, notified, eq, woken) =
        enqueue-Woken s.queue i b 0 bucket (omega (arith, queue.same_size)) offset
          (queue.flags_fit b.index) (queue.jobs_fit b.index) (omega arith) queue.count_fits in
      let there : ltb b.index s.bucket_count ≡ true = ground arith in
      let unused : is_none (s.futures b.index) ≡ true = ap is_none free in
      (
        q,
        notified,
        rw (there, unused)
            (ap
              (λ x. elim x as (λ _. Outcome (Inner F C) (Unit {0})) [
                | ok (q', _) ↦ returns (set_queue stored q') tt
                | panic p ↦ fails stored p
              ])
              eq),
        woken,
      )
    where
      stored : Inner F C
      stored = record s {
        futures = update s.futures b.index (some fut);
        tcp_streams = update s.tcp_streams b.index fd;
      }

-- A server of `n` buckets: the counts are the numbers of jobs, and the indices fit.
pub record IsServer {F C : Type 0} (n : ℕ) (s : Inner F C) : Type 0 where
  pub buckets : s.bucket_count ≡ n
  pub indices : Fits s.io_resources n
  pub queue_fits : IsQueue n s.io_resources s.queue
  pub balanced : Balanced n s

-- What a new request leads to: no bucket is free, and nothing changes; or a free bucket `b` has its
-- future and its stream, a count of 1, and job 0 in its word, and the counts stay right. If the job
-- is new, the bucket is enqueued, and if its flags were 0 it is counted.
abbrev pub Started :
    {F C : Type 0}
    → ℕ
    → ℕ
    → F
    → Inner F C
    → Option BucketIndex
    → Outcome (Inner F C) (Unit {0})
    → Type 0
Started n fd fut s none o = o ≡ returns s tt
Started n fd fut s (some b) o =
    (s.refcounts b.index ≡ 0)
    × (o.result ≡ ok tt)
    × (o.state.futures b.index ≡ some fut)
    × (o.state.tcp_streams b.index ≡ fd)
    × (o.state.refcounts b.index ≡ 1)
    × (has_job (o.state.queue.slot b.index) 0 ≡ true)
    × ((o.state.queue.slot b.index).flags ≡ (
        let slot = s.queue.slot b.index in
        if has_job slot 0 then slot.flags else enqueued_flags slot.flags))
    × (o.state.queue.jobs_in_queue ≡ (
        let slot = s.queue.slot b.index in
        let q = s.queue in
        if not (has_job slot 0) && slot.flags == 0 then q.jobs_in_queue + 1 else q.jobs_in_queue))
    × Balanced n o.state

module _ {F C : Type 0} where
  -- What the loop of `run_request_handler` does with a stream: `try_claim`, and then `execute` in the
  -- bucket that it found. Without one the stream is shut down.
  unfoldable pub claim_and_execute :
      (ℕ → Bool) → Inner F C → ℕ → F → Option BucketIndex × Outcome (Inner F C) (Unit {0})
  claim_and_execute locked s fd fut =
      let (found, s') = try_claim locked s in
      (found, elim found [ none ↦ returns s' tt | some b ↦ execute s' fd b fut ])

  pub start_at :
      {n : ℕ} (locked : ℕ → Bool) (s : Inner F C) (fd : ℕ) (fut : F) (found : Option BucketIndex)
      (s' : Inner F C)
      → IsServer n s
      → Claims locked s 0 found s'
      → Started n fd fut s found (elim found as (λ _. Outcome (Inner F C) (Unit {0})) [
        | none ↦ returns s' tt
        | some b ↦ execute s' fd b fut
      ])
  start_at locked s fd fut none s' server (same, _) = ap (λ x. returns x tt) same
  start_at {n} locked s fd fut (some b) s' server (lt, unclaimed, _, _, claimed) =
      subst (λ x. Started n fd fut s (some b) (execute x fd b fut)) (sym claimed) started
    where
      s1 : Inner F C
      s1 = record s { refcounts = update s.refcounts b.index 1 }

      b_lt : b.index < n
      b_lt = omega (arith, lt, server.buckets)

      free : s.futures b.index ≡ none
      free =
          no_future_of (s.futures b.index) (omega (arith, unclaimed, server.balanced b.index b_lt))

      started : Started n fd fut s (some b) (execute s1 fd b fut)
      started =
          let (q, notified, eq, woken) =
            execute-Started {n = n} s1 fd b fut server.buckets server.indices server.queue_fits b_lt
              free in
          rw eq (
            unclaimed,
            refl,
            ground arith,
            ground arith,
            ground arith,
            ground (arith, woken.jobs 0),
            woken.flags,
            woken.count
                ∙ ap (λ x. if x then s.queue.jobs_in_queue + 1 else s.queue.jobs_in_queue)
                    woken.notifies,
            λ x x_lt. ground (
              arith,
              server.balanced x x_lt,
              server.balanced b.index b_lt,
              unclaimed,
              ap alive free,
            ),
          )
