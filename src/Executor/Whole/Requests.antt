-- ===== src/Executor/Whole/Requests.antt =====
-- nea/src/executor.rs: the server in every state that its steps lead to.
use nea.Base.{
  ℕ, ◌*◌, ◌<◌, ◌≡◌, ◌≢◌, ◌⊎◌, refl, inl, inr, sym, subst, ◌∙◌, arith, true, Bool, Option, none,
  some, Result, ok,
}
use nea.Index.{BucketIndex}
use nea.Queue.Bounds.{try_dequeue-Queued}
use nea.Allocator.{ServerAlloc}
use nea.Config.{Config}
use nea.Executor.{Inner, Outcome, returns}
use nea.Executor.Start.{claim_and_execute}
use nea.Executor.Init.{start_server}
use nea.Executor.Run.{run_job, leave_bucket}
use nea.Executor.Run.Balance.{jobs_of}
use nea.Executor.Run.Release.{Freed}
use nea.Executor.Run.Idle.{Settles, run_job-Settles}
use nea.Executor.Run.Worker.{leave_bucket-Settles}
use nea.Executor.Run.Apart.{Apart}
use nea.Executor.Run.Apart.Jobs.{run_job-Apart, leave_bucket-Apart}
use nea.Executor.Whole.{
  Whole, IsDeployment, Step, accepts, wakes, takes, serves, leaves_it, Reach, here, later,
}
use nea.Executor.Whole.Initial.{start_server-Whole}
use nea.Executor.Whole.Steps.{Whole-Steady, Steady-Whole, Whole-queue, enqueue-Whole, Settled-count}
use nea.Executor.Whole.Accepts.{claim_and_execute-Accepted, Accepted-Whole, given-Apart, free_of}

module _ {F C : Type 0} {n size : ℕ} {s : Inner F C} (w : Whole n size s) where
  -- A call of a worker on one bucket that has returned.
  worked :
      {A : Type 0} {b : ℕ} {s' : Inner F C} {a : A} (o : Outcome (Inner F C) A)
      → Settles n size b o
      → Apart b s o.state
      → o ≡ returns s' a
      → Whole n size s'
  worked {A} {b} o settles apart e =
      let (st, settled) = subst (Settles n size b) e settles in
      Steady-Whole w st settled (subst (λ (x : Outcome (Inner F C) A). Apart b s x.state) e apart)

  Step-Whole : {s' : Inner F C} → Step n s s' → Whole n size s'
  Step-Whole {s'} (accepts locked fd fut found e) =
      Accepted-Whole locked s fd fut w found s'
        (claim_and_execute-Accepted locked s fd fut w found s' e)
  Step-Whole (wakes i e) = enqueue-Whole i w e
  Step-Whole (takes found q e same) =
      subst (Whole n size) (sym same) (Whole-queue w q (try_dequeue-Queued s.queue e w.queued))
  Step-Whole (serves poll_future poll_connection b v lt own_future own_connection e) =
      let st = Whole-Steady w b.index lt in
      worked (run_job poll_future poll_connection s b)
        (run_job-Settles poll_future poll_connection b own_future own_connection s st
          (w.each b.index lt))
        (run_job-Apart poll_future poll_connection b own_future own_connection s st) e
  Step-Whole (leaves_it b next lt e) =
      worked (leave_bucket s b)
        (leave_bucket-Settles b s (Whole-Steady w b.index lt) (w.each b.index lt))
        (leave_bucket-Apart s b) e

-- The steps keep what `Whole` says.
pub Reach-Whole :
    {F C : Type 0} {n size : ℕ} {s t : Inner F C} → Whole n size s → Reach n s t → Whole n size t
Reach-Whole w here = w
Reach-Whole w (later r st) = Step-Whole (Reach-Whole w r) st

-- There is one server that `start_server` returns.
started_once :
    {F C : Type 0} (s0 s : Inner F C)
    → ◌≡◌ {A = Option (Result (Inner F C))} (some (ok s0)) (some (ok s))
    → s0 ≡ s
started_once s0 s e = cc

abbrev bucket_size : ℕ
bucket_size = 4096 * 128

module _ {F C : Type 0} (a : ServerAlloc) (config : Config) (ptr : ℕ) (s t : Inner F C)
    (deployed : IsDeployment config ptr) (started : start_server a config (some ptr) ≡ some (ok s))
    (reached : Reach config.bucket_count s t) where
  -- For a configuration with a bucket, whose indices fit and with fewer than 254 connections a
  -- bucket, and memory at a page address with room for the buckets: in every state that the started
  -- server reaches by calls that return without a panic, where polls reserve connections and
  -- allocate in their own bucket alone, at alignments that are powers of two up to the page size,
  -- and where no step of another thread falls between `try_claim` and `execute` of a request, each
  -- bucket has a count above 0 that is the number of its jobs, or a count of 0, no future, no
  -- connection and all of its memory; the memory and the queue are as they should be. Nothing is
  -- said of states behind a panic that ends a worker.
  pub reached-Whole : Whole config.bucket_count bucket_size t
  reached-Whole =
      let (s0, e, w, _) = start_server-Whole a config ptr deployed in
      Reach-Whole
        (subst (Whole config.bucket_count bucket_size) (started_once s0 s (sym e ∙ started)) w)
        reached

  -- In every state as for `reached-Whole`, if a new request gets a bucket and nothing panics, the
  -- bucket exists, had a count of 0, no future, no connection and all of its memory, and has then
  -- the future and the stream of the request, a count of 1, this one job and all of its memory; no
  -- connection changes, and no count, future, stream, memory or queue slot of another bucket. The
  -- job word of the bucket may hold jobs from before.
  pub accepted_alone :
      (locked : ℕ → Bool) (fd : ℕ) (fut : F) (b : BucketIndex) (t' : Inner F C)
      → claim_and_execute locked t fd fut ≡ (some b, returns t' tt)
      → (b.index < config.bucket_count)
        × Freed bucket_size t b.index
        × Apart b.index t t'
        × (t'.connections ≡ t.connections)
        × ((x : ℕ) → x ≢ b.index → t'.queue.slot x ≡ t.queue.slot x)
        × (t'.futures b.index ≡ some fut)
        × (t'.tcp_streams b.index ≡ fd)
        × (t'.refcounts b.index ≡ 1)
        × (jobs_of t' b.index ≡ 1)
        × ((t'.allocator.bucket b.index).remaining ≡ bucket_size)
  accepted_alone locked fd fut b t' e =
      let w = reached-Whole in
      let (lt, unclaimed, (q, _, others, same)) =
        claim_and_execute-Accepted locked t fd fut w (some b) t' e in
      let free = free_of unclaimed (w.each b.index lt) in
      rw same (
        lt,
        free,
        given-Apart locked t fd fut w b q,
        refl,
        others,
        ground arith,
        ground arith,
        ground arith,
        ground (arith, free.no_job),
        free.memory,
      )

  -- In every state as for `reached-Whole`, if a new request gets no bucket and nothing panics,
  -- nothing changes, and each bucket has a count above 0 that is the number of its jobs, or is
  -- locked by another thread.
  pub refused_when_full :
      (locked : ℕ → Bool) (fd : ℕ) (fut : F) (t' : Inner F C)
      → claim_and_execute locked t fd fut ≡ (none, returns t' tt)
      → (t' ≡ t)
        × ((b : ℕ)
            → b < config.bucket_count
            → ((0 < t.refcounts b) × (t.refcounts b ≡ jobs_of t b)) ⊎ (locked b ≡ true))
  refused_when_full locked fd fut t' e =
      let w = reached-Whole in
      let (same, taken) = claim_and_execute-Accepted locked t fd fut w none t' e in
      (
        same,
        λ b lt. elim (taken b lt) [
          | inl counted ↦ inl (omega arith, Settled-count (w.each b lt))
          | inr busy ↦ inr busy
        ],
      )
