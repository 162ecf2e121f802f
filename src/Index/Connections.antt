-- ===== src/Index/Connections.antt =====
-- nea/src/index.rs: from an HTTP connection to its queue index and back, and the range of the
-- connections of one bucket.
use nea.Base.{
  ℕ, ◌+◌, ◌-◌, ◌*◌, ◌/◌, ◌%◌, ◌^◌, ◌≤◌, ◌<◌, ◌≡◌, ap, subst, arith, u32, ok, true, ◌∙◌, ◌↔◌,
}
use native.Mathlib.Nat.{mod-lt}
use nea.Index.Division.{div_of_parts, mod_of_parts, parts_lt, div-lt, parts_eq}
use nea.Index.Buckets.{width, width-lt, per_bucket-eq, to_bucket_index_parts}
use nea.Index.{
  IoResources, per_bucket, BucketIndex, ConnectionIndex, QueueIndex, contains, http_connections_of,
  to_bucket_index, to_connection_index, from_connection_index, Fits,
}

module _ {r : IoResources} {n : ℕ} (f : Fits r n) where
  open f use {has_stream, indices_fit, few_buckets}

  connections_lt : n * r.http_connections < 2 ^ 32
  connections_lt = grind arith

  -- The connection at offset `c` of bucket `b` has the queue index that its place says.
  pub from_connection_index_parts :
      (i b c : ℕ)
      → b < n
      → c < r.http_connections
      → from_connection_index r (record { identifier = i; index = b * r.http_connections + c })
        ≡ ok (record { identifier = i; index = b * width r + (r.tcp_streams + c) })
  unfolding from_connection_index
  from_connection_index_parts i b c h k =
      let e : u32 (per_bucket r) ≡ width r =
        omega (arith, per_bucket-eq f (omega arith), width-lt f (omega arith)) in
      let http : u32 r.http_connections ≡ r.http_connections =
        omega (arith, width-lt f (omega arith)) in
      let small : b * width r + (r.tcp_streams + c) < n * width r =
        parts_lt b n (width r) (r.tcp_streams + c) h (omega arith) in
      rw (e, http)
        (ground (
          arith,
          small,
          div_of_parts b r.http_connections c k,
          mod_of_parts b r.http_connections c k,
        ))

  pub to_connection_index_parts :
      (i b c : ℕ)
      → b < n
      → c < r.http_connections
      → to_connection_index r (record { identifier = i; index = b * width r + (r.tcp_streams + c) })
        ≡ ok (record { identifier = i; index = b * r.http_connections + c })
  unfolding to_connection_index
  to_connection_index_parts i b c h k =
      let e : u32 (per_bucket r) ≡ width r =
        omega (arith, per_bucket-eq f (omega arith), width-lt f (omega arith)) in
      let http : u32 r.http_connections ≡ r.http_connections =
        omega (arith, width-lt f (omega arith)) in
      let small : b * r.http_connections + c < n * r.http_connections =
        parts_lt b n r.http_connections c h k in
      rw (e, http)
        (ground (
          arith,
          small,
          connections_lt,
          width-lt f,
          div_of_parts b (width r) (r.tcp_streams + c),
          mod_of_parts b (width r) (r.tcp_streams + c),
        ))

  -- For `n` buckets whose indices fit, each of their connections has a queue index, which leads
  -- back to the connection, and to the bucket that owns it.
  pub connection_round_trip :
      (c : ConnectionIndex)
      → c.index < n * r.http_connections
      → (q : QueueIndex) × (from_connection_index r c ≡ ok q)
        × (to_connection_index r q ≡ ok c)
        × (to_bucket_index r q
            ≡ ok (record { identifier = c.identifier; index = c.index / r.http_connections }))
  connection_round_trip c h = (
    record { identifier = c.identifier; index = b * width r + (r.tcp_streams + o) },
    subst
        (λ x.
          from_connection_index r x
          ≡ ok (record { identifier = c.identifier; index = b * width r + (r.tcp_streams + o) }))
        split (from_connection_index_parts c.identifier b o in_range o_lt),
    to_connection_index_parts c.identifier b o in_range o_lt ∙ ap ok split,
    to_bucket_index_parts f c.identifier b (r.tcp_streams + o) in_range (omega (arith, o_lt)),
  )
    where
      b : ℕ
      b = c.index / r.http_connections

      o : ℕ
      o = c.index % r.http_connections

      positive : 0 < r.http_connections
      positive = grind arith

      o_lt : o < r.http_connections
      o_lt = omega (arith, positive)

      in_range : b < n
      in_range = div-lt c.index n r.http_connections h positive

      split : record { identifier = c.identifier; index = b * r.http_connections + o } ≡ c
      split = ground (arith, parts_eq c.index r.http_connections)

  -- For `n` buckets whose indices fit, the range of one of them holds exactly those of the
  -- connections that it owns.
  pub http_connections_of-owner :
      (b : BucketIndex) (c : ConnectionIndex)
      → b.index < n
      → c.index < n * r.http_connections
      → (contains (http_connections_of r b) c.index ≡ true)
        ↔ (c.index / r.http_connections ≡ b.index)
  unfolding http_connections_of
  http_connections_of-owner b c h k = (
    λ inside.
        rw (whole (ground (arith, last)))
          (div_of_parts b.index p (c.index - b.index * p) (ground (arith, last))),
    λ e.
        let near : b.index * p + c.index % p ≡ c.index =
          subst (λ (d : ℕ). d * p + c.index % p ≡ c.index) e (parts_eq c.index p) in
        ground (arith, last, near, mod-lt c.index positive),
  )
    where
      p : ℕ
      p = r.http_connections

      positive : 0 < p
      positive = grind arith

      last : b.index * p + p < 2 ^ 32
      last = grind (arith, connections_lt)

      whole : b.index * p ≤ c.index → c.index ≡ b.index * p + (c.index - b.index * p)
      whole le = omega arith

  -- The range of a bucket, with no wrap.
  pub http_connections_of-eq :
      (b : BucketIndex)
      → b.index < n
      → http_connections_of r b ≡ record {
        start = b.index * r.http_connections;
        end = b.index * r.http_connections + r.http_connections;
      }
  unfolding http_connections_of
  http_connections_of-eq b h =
      let last : b.index * r.http_connections + r.http_connections ≤ n * r.http_connections =
        grind arith in
      ground (arith, last, connections_lt)
