-- ===== src/Executor/Run/Cleanup.antt =====
-- nea/src/executor.rs: a bucket behind `cleanup_bucket`.
use nea.Base.{
  ℕ, zero, suc, ◌+◌, ◌-◌, ◌<◌, ◌≡◌, ◌≢◌, refl, ◌∙◌, arith, true, false, none, if◌then◌else◌, ◌∷◌,
  update, leb, ltb, ◌&&◌,
}
use nea.Index.{http_connections_of, BucketIndex, contains}
use nea.Allocator.Arenas.{IsReady, clear_bucket-IsReady}
use nea.Executor.{Slot, empty, CleanupReason, Inner, returns}
use nea.Executor.Run.{clear_connections, cleanup_bucket}

clear_connections_lem :
    {C : Type 0} (slots : ℕ → Slot C) (left i x : ℕ)
    → clear_connections slots left i x ≡ (if leb i x && ltb x (i + left) then empty else slots x)
unfolding clear_connections
clear_connections_lem slots zero i x = ground arith
clear_connections_lem slots (suc left) i x =
    clear_connections_lem (update slots i empty) left (i + 1) x ∙ ground arith

-- Bucket `b` of `s` is free: nobody has claimed it, it has no future and no connection, and all of
-- its memory is there.
pub record IsFree {F C : Type 0} (size : ℕ) (s : Inner F C) (b : BucketIndex) : Type 0 where
  pub unclaimed : s.refcounts b.index ≡ 0
  pub no_future : s.futures b.index ≡ none
  pub no_connection :
      (c : ℕ) → contains (http_connections_of s.io_resources b) c ≡ true → s.connections c ≡ empty
  pub memory : (s.allocator.bucket b.index).remaining ≡ size

-- `s'` differs from `s` in what belongs to bucket `b` alone.
pub record OnlyBucket {F C : Type 0} (s s' : Inner F C) (b : BucketIndex) : Type 0 where
  pub counts : (x : ℕ) → x ≢ b.index → s'.refcounts x ≡ s.refcounts x
  pub futures_kept : (x : ℕ) → x ≢ b.index → s'.futures x ≡ s.futures x
  pub connections_kept :
      (c : ℕ)
      → contains (http_connections_of s.io_resources b) c ≡ false
      → s'.connections c ≡ s.connections c
  pub memory_kept : (x : ℕ) → x ≢ b.index → s'.allocator.bucket x ≡ s.allocator.bucket x
  pub queue_kept : s'.queue ≡ s.queue
  pub resources_kept : s'.io_resources ≡ s.io_resources
  pub buckets_kept : s'.bucket_count ≡ s.bucket_count

module _ {F C : Type 0} (s : Inner F C) (b : BucketIndex) (reason : CleanupReason) (n size : ℕ)
    (ready : IsReady n size s.allocator) (lt : b.index < n) where
  -- For one of `n` buckets whose memory is set up, `cleanup_bucket` returns; the bucket then has a
  -- count of 0, no future, no connection and all of its memory; no other bucket and no part of the
  -- queue has changed; one error response with the reason was sent to the stream of the bucket,
  -- which was then closed.
  pub cleanup_bucket-IsFree :
      (s' : Inner F C) × (cleanup_bucket s b reason ≡ returns s' tt)
      × IsFree size s' b
      × OnlyBucket s s' b
      × IsReady n size s'.allocator
      × (s'.responses ≡ (s.tcp_streams b.index, reason) ∷ s.responses)
      × (s'.closed ≡ s.tcp_streams b.index ∷ s.closed)
  unfolding cleanup_bucket
  cleanup_bucket-IsFree =
      let (a, cleared, all_back, ready', others) =
        clear_bucket-IsReady s.allocator b.index n size ready lt in
      let range = http_connections_of s.io_resources b in
      rw (cleared, cleanup_bucket)
        (
          _,
          refl,
          record {
            unclaimed = ground arith;
            no_future = ground arith;
            no_connection = λ c inside.
                clear_connections_lem s.connections (range.end - range.start) range.start c
                ∙ ground arith;
            memory = all_back;
          },
          record {
            counts = λ x ne. ground arith;
            futures_kept = λ x ne. ground arith;
            connections_kept = λ c outside.
                clear_connections_lem s.connections (range.end - range.start) range.start c
                ∙ ground arith;
            memory_kept = others;
            queue_kept = refl;
            resources_kept = refl;
            buckets_kept = refl;
          },
          ready',
          refl,
          refl,
        )
