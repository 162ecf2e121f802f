-- ===== src/Executor/Run/Release.antt =====
-- nea/src/executor.rs: the end of a job, and what a worker leaves of its bucket.
use nea.Base.{
  ℕ, ◌+◌, ◌-◌, ◌*◌, ◌^◌, ◌<◌, ◌≡◌, ◌≢◌, refl, sym, ap, subst, ◌∙◌, arith, Bool-cases, inl, inr,
  true, false, ok, panic, Result, sum_below-zero, sum_below_ext, ◌⊎◌,
}
use nea.Index.{IoResources, Fits, BucketIndex, contains, http_connections_of}
use nea.Index.Connections.{http_connections_of-eq}
use nea.Queue.Bounds.{Queued}
use nea.Allocator.Arenas.{IsReady}
use nea.Executor.{
  CleanupReason, Inner, Outcome, returns, DoneWithBucket, for_now, forever, out_of_memory_done,
  panic_done, Verdict, continues, leaves,
}
use nea.Executor.Run.{cleanup_bucket, finish_job, give_up}
use nea.Executor.Run.Cleanup.{cleanup_bucket-IsFree}
use nea.Executor.Run.Balance.{
  live, alive, live_connections, jobs_of, Owes, finish_job-Finished, places_differ,
}
use nea.Executor.Run.Actions.{Steady, Held}

-- Nobody has bucket `b`: its count is 0, it has no job, and all of its memory is there.
pub record Freed {F C : Type 0} (size : ℕ) (s : Inner F C) (b : ℕ) : Type 0 where
  pub unclaimed : s.refcounts b ≡ 0
  pub no_job : jobs_of s b ≡ 0
  pub memory : (s.allocator.bucket b).remaining ≡ size

-- Whether a worker that goes on, or leaves for now, has a bucket with a right count, and one that
-- leaves for another reason has freed the bucket.
abbrev pub Left : {F C : Type 0} → ℕ → Inner F C → ℕ → Verdict → Type 0
Left size s b continues = Held s b
Left size s b (leaves for_now) = Held s b
Left size s b (leaves forever) = Freed size s b
Left size s b (leaves out_of_memory_done) = Freed size s b
Left size s b (leaves panic_done) = Freed size s b

abbrev pub LeftBy : {F C : Type 0} → ℕ → Inner F C → ℕ → Result Verdict → Type 0
LeftBy size s b (ok v) = Left size s b v
LeftBy size s b (panic p) = Unit

-- The counts of the other buckets are right in any case, that of `b` unless the worker panicked.
abbrev pub Served : {F C : Type 0} → ℕ → ℕ → ℕ → Outcome (Inner F C) Verdict → Type 0
Served n size b o = Steady n size b o.state × LeftBy size o.state b o.result

-- A change of the state that keeps the resources and the number of buckets.
Steady-change :
    {F C : Type 0} {n size b : ℕ} {s s' : Inner F C}
    → Steady n size b s
    → s'.bucket_count ≡ s.bucket_count
    → s'.io_resources ≡ s.io_resources
    → s'.queue ≡ s.queue
    → IsReady n size s'.allocator
    → ((x : ℕ) → x < n → x ≢ b → s'.refcounts x ≡ jobs_of s' x)
    → Steady n size b s'
Steady-change {n = n} {s' = s'} st buckets resources queue arenas others = record {
  exists = st.exists;
  buckets = buckets ∙ st.buckets;
  resources = subst (λ r. Fits r n) (sym resources) st.resources;
  few = subst (λ (r : IoResources). r.http_connections < 254) (sym resources) st.few;
  arenas = arenas;
  queued = subst (λ r. Queued r s'.queue) (sym resources) (subst (Queued _) (sym queue) st.queued);
  others = others;
}

inside_of :
    (http b i : ℕ)
    → i < http
    → contains (record { start = b * http; end = b * http + http }) (b * http + i) ≡ true
inside_of http b i lt = ground arith

outside_of :
    (http b x i : ℕ)
    → i < http
    → x ≢ b
    → contains (record { start = b * http; end = b * http + http }) (x * http + i) ≡ false
outside_of http b x i lt ne =
    elim (Bool-cases
      (contains (record { start = b * http; end = b * http + http }) (x * http + i))) [
        | inr away ↦ away
        | inl near ↦
            let o = x * http + i - b * http in
            let differ = places_differ http x b i o ne lt (ground arith) in
            absurd (differ (ground arith))
      ]

module _ {F C : Type 0} {n size : ℕ} (s : Inner F C) (b : BucketIndex)
    (st : Steady n size b.index s) where
  cleaned :
      (reason : CleanupReason)
      → (s' : Inner F C) × (cleanup_bucket s b reason ≡ returns s' tt)
        × Steady n size b.index s'
        × Freed size s' b.index
  cleaned reason =
      let (s', eq, free, only, arenas, _, _) =
        cleanup_bucket-IsFree s b reason n size st.arenas st.exists in
      let http = s.io_resources.http_connections in
      let range = http_connections_of-eq st.resources b st.exists in
      let gone : live_connections http s'.connections b.index ≡ 0 =
        sum_below-zero live http (λ i. s'.connections (b.index * http + i))
          (λ i lt. ap live (
            free.no_connection (b.index * http + i) (
              subst (λ rs. contains (http_connections_of rs b) (b.index * http + i) ≡ true)
                (sym only.resources_kept)
                (subst (λ g. contains g (b.index * http + i) ≡ true) (sym range)
                  (inside_of http b.index i lt))))) in
      let stay : (x : ℕ)
          → x ≢ b.index
          → live_connections http s'.connections x ≡ live_connections http s.connections x =
        λ x ne.
          sum_below_ext live http (λ i. s'.connections (x * http + i))
            (λ i. s.connections (x * http + i))
            (λ i lt. ap live (
              only.connections_kept (x * http + i) (
                subst (λ g. contains g (x * http + i) ≡ false) (sym range)
                  (outside_of http b.index x i lt ne)))) in
      let same : (x : ℕ)
          → live_connections s'.io_resources.http_connections s'.connections x
            ≡ live_connections http s'.connections x =
        λ x.
          ap (λ (rs : IoResources). live_connections rs.http_connections s'.connections x)
            only.resources_kept in
      (
        s',
        eq,
        Steady-change st only.buckets_kept only.resources_kept only.queue_kept arenas (λ x lt ne.
            omega (
              arith,
              only.counts x ne,
              st.others x lt ne,
              same x,
              stay x ne,
              ap alive (only.futures_kept x ne),
            )),
        record {
          unclaimed = free.unclaimed;
          no_job = omega (arith, same b.index, gone, ap alive free.no_future);
          memory = free.memory;
        },
      )

  pub give_up-Served :
      (reason : CleanupReason) (why : DoneWithBucket)
      → (why ≡ out_of_memory_done) ⊎ (why ≡ panic_done)
      → Served n size b.index (give_up s b reason why)
  unfolding give_up
  give_up-Served reason why which =
      let (s', eq, steady, freed) = cleaned reason in
      rw eq (steady, elim which [ inl e ↦ rw e freed | inr e ↦ rw e freed ])

module _ {F C : Type 0} {n size b : ℕ} (s : Inner F C) (st : Steady n size b s) where
  Left-of_Finished :
      (s' : Inner F C) (v : Verdict)
      → ((v ≡ leaves forever)
          → (s'.refcounts b ≡ 0) × (jobs_of s' b ≡ 0) × ((s'.allocator.bucket b).remaining ≡ size))
      → ((v ≢ leaves forever) → (v ≡ continues) × (0 < jobs_of s' b))
      → s'.refcounts b ≡ jobs_of s' b
      → Left size s' b v
  Left-of_Finished s' continues last more own = record {
    own = own;
    some_job = omega (arith, own, (more (λ e. ground arith)).1);
  }
  Left-of_Finished s' (leaves forever) last more own =
      let (unclaimed, no_job, memory) = last refl in
      record { unclaimed = unclaimed; no_job = no_job; memory = memory }
  Left-of_Finished s' (leaves for_now) last more own = absurd (ground arith)
  Left-of_Finished s' (leaves out_of_memory_done) last more own = absurd (ground arith)
  Left-of_Finished s' (leaves panic_done) last more own = absurd (ground arith)

  -- The end of a job, behind a change `s'` that took it away.
  pub finish_job-Served :
      (s' : Inner F C)
      → s'.bucket_count ≡ s.bucket_count
      → s'.io_resources ≡ s.io_resources
      → s'.queue ≡ s.queue
      → IsReady n size s'.allocator
      → Owes n s' b
      → s'.refcounts b < 2 ^ 8
      → Served n size b (finish_job s' b)
  finish_job-Served s' buckets resources queue arenas owes small =
      let (s'', v, eq, fin) = finish_job-Finished s' b st.exists arenas owes small in
      rw eq (
        Steady-change st (fin.same_buckets ∙ buckets) (fin.same_resources ∙ resources)
            (fin.same_queue ∙ queue) fin.still_ready (λ x lt ne. fin.balanced x lt),
        Left-of_Finished s'' v fin.last
            (λ ne. let (go_on, pos, _) = fin.not_last ne in (go_on, pos))
            (fin.balanced b st.exists),
      )
