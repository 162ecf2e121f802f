-- ===== src/Index/Buckets.antt =====
-- nea/src/index.rs: from a bucket to its queue index and back.
use nea.Base.{ℕ, ◌+◌, ◌*◌, ◌/◌, ◌%◌, ◌^◌, ◌<◌, ◌≡◌, arith, subst, u32, ok}
use native.Mathlib.Nat.{mod-lt}
use nea.Index.Division.{div_of_parts, parts_lt, mul-le-left, div-lt, parts_eq}
use nea.Index.{
  IoResources, per_bucket, BucketIndex, QueueIndex, to_bucket_index, from_bucket_index, Fits,
}

-- The size of a bucket, with no wrap.
abbrev pub width : IoResources → ℕ
width r = r.tcp_streams + r.http_connections

module _ {r : IoResources} {n : ℕ} (f : Fits r n) where
  open f use {has_stream, indices_fit, few_buckets}

  pub width-lt : 0 < n → width r < 2 ^ 32
  width-lt h = omega (arith, mul-le-left 1 n (width r) h)

  pub per_bucket-eq : 0 < n → per_bucket r ≡ width r
  unfolding per_bucket
  per_bucket-eq h = omega (arith, width-lt h)

  -- Each offset in a bucket leads to the bucket.
  pub to_bucket_index_parts :
      (i b o : ℕ)
      → b < n
      → o < width r
      → to_bucket_index r (record { identifier = i; index = b * width r + o })
        ≡ ok (record { identifier = i; index = b })
  unfolding to_bucket_index
  to_bucket_index_parts i b o h k =
      let e : u32 (per_bucket r) ≡ width r =
        omega (arith, per_bucket-eq (omega arith), width-lt (omega arith)) in
      rw e (ground (arith, div_of_parts b (width r) o k))

  pub from_bucket_index_parts :
      (i b : ℕ)
      → b < n
      → from_bucket_index r (record { identifier = i; index = b })
        ≡ record { identifier = i; index = b * width r + 0 }
  unfolding from_bucket_index
  from_bucket_index_parts i b h =
      let e : u32 (per_bucket r) ≡ width r =
        omega (arith, per_bucket-eq (omega arith), width-lt (omega arith)) in
      rw e (ground (arith, parts_lt b n (width r) 0 h (omega arith)))

  -- For `n` buckets whose indices fit, the queue index of each of them leads back to it.
  pub to_bucket_index-from_bucket_index :
      (b : BucketIndex) → b.index < n → to_bucket_index r (from_bucket_index r b) ≡ ok b
  to_bucket_index-from_bucket_index b h =
      rw (from_bucket_index_parts b.identifier b.index h)
        (to_bucket_index_parts b.identifier b.index 0 h (omega arith))

  -- Every queue index of the `n` buckets leads to its bucket.
  pub to_bucket_index-eq :
      (q : QueueIndex)
      → q.index < n * width r
      → to_bucket_index r q ≡ ok (record { identifier = q.identifier; index = q.index / width r })
  to_bucket_index-eq q h =
      subst
        (λ x.
          to_bucket_index r (record { identifier = q.identifier; index = x })
          ≡ ok (record { identifier = q.identifier; index = q.index / width r }))
        (parts_eq q.index (width r))
        (to_bucket_index_parts q.identifier (q.index / width r) (q.index % width r)
          (div-lt q.index n (width r) h (omega arith)) (mod-lt q.index {m = width r} (omega arith)))
