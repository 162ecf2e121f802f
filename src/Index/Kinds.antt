-- ===== src/Index/Kinds.antt =====
-- nea/src/index.rs: which resource a queue index stands for.
use nea.Base.{
  ◌∙◌, ◌-◌, ℕ, ◌+◌, ◌*◌, ◌/◌, ◌%◌, ◌≤◌, ◌<◌, ◌≡◌, ◌⊎◌, inl, inr, refl, subst, arith, false, ok,
  panic, todo_reached, ◌==◌, Bool-cases, zero, suc, ltb,
}
use native.Mathlib.Nat.{mod-lt}
use native.Mathlib.Decide.{dec_lt}
use nea.Index.Division.{mod_of_parts, div-lt, parts_eq}
use nea.Index.Buckets.{
  width, width-lt, per_bucket-eq, to_bucket_index_parts, from_bucket_index_parts,
}
use nea.Index.Connections.{from_connection_index_parts, to_connection_index_parts}
use nea.Index.{
  IoResources, QueueIndex, IoIndex, input_stream, http_connection, from_bucket_index,
  from_connection_index, from_index, from_offset, Fits,
}

-- The resource's own queue index is `q`.
abbrev pub HasQueueIndex : IoResources → QueueIndex → IoIndex → Type 0
HasQueueIndex r q (input_stream b) = from_bucket_index r b ≡ q
HasQueueIndex r q (http_connection c) = from_connection_index r c ≡ ok q

-- What `from_index` does at offset `o`: it panics at a TCP stream but the first, and otherwise
-- names the resource whose queue index it is.
abbrev pub Names : IoResources → QueueIndex → ℕ → Type 0
Names r q o =
    ((1 ≤ o) × (o < r.tcp_streams) × (from_index r q ≡ panic todo_reached))
    ⊎ ((k : IoIndex) × (from_index r q ≡ ok k) × HasQueueIndex r q k)

module _ {r : IoResources} {n : ℕ} (f : Fits r n) where
  open f use {has_stream, indices_fit, few_buckets}

  -- The queue index of offset `o` of bucket `b`.
  abbrev pub at : ℕ → ℕ → ℕ → QueueIndex
  at i b o = record { identifier = i; index = b * width r + o }

  from_index_parts :
      (i b o : ℕ) → b < n → o < width r → from_index r (at i b o) ≡ from_offset r (at i b o) o
  unfolding from_index
  from_index_parts i b o h k =
      let nonzero : (width r == 0) ≡ false = ground arith in
      rw (per_bucket-eq f (omega arith), nonzero, mod_of_parts b (width r) o k)

  -- The connection at offset `c` behind the streams of bucket `b`.
  from_offset_connection :
      (i b c : ℕ)
      → b < n
      → c < r.http_connections
      → from_offset r (at i b (r.tcp_streams + c)) (r.tcp_streams + c)
        ≡ ok (http_connection (record { identifier = i; index = b * r.http_connections + c }))
  unfolding from_offset
  from_offset_connection i b c h k =
      ground (arith, to_connection_index_parts f i b c h k, width-lt f (omega arith))

  Names-connection :
      (i b c : ℕ)
      → b < n
      → c < r.http_connections
      → Names r (at i b (r.tcp_streams + c)) (r.tcp_streams + c)
  Names-connection i b c h k = inr (
    http_connection (record { identifier = i; index = b * r.http_connections + c }),
    from_index_parts i b (r.tcp_streams + c) h (omega arith) ∙ from_offset_connection i b c h k,
    from_connection_index_parts f i b c h k,
  )

  from_offset_stream :
      (i b o : ℕ) → 1 ≤ o → o < r.tcp_streams → from_offset r (at i b o) o ≡ panic todo_reached
  unfolding from_offset
  from_offset_stream i b o h k = ground arith

  pub from_index_stream :
      (i b : ℕ)
      → b < n
      → from_index r (at i b 0) ≡ ok (input_stream (record { identifier = i; index = b }))
  from_index_stream i b h =
      from_index_parts i b 0 h (omega (arith, has_stream))
      ∙ unfold from_offset in rw (to_bucket_index_parts f i b 0 h (omega (arith, has_stream))) refl

  -- What an offset of bucket `b` stands for: its input stream, a further TCP stream, which is not
  -- supported, or one of its connections.
  pub from_index_cases :
      (i b o : ℕ)
      → b < n
      → o < width r
      → (from_index r (at i b o) ≡ ok (input_stream (record { identifier = i; index = b })))
        ⊎ (from_index r (at i b o) ≡ panic todo_reached)
        ⊎ ((c : ℕ) × (c < r.http_connections)
            × (from_index r (at i b o)
                ≡ ok (
                    http_connection
                      (record { identifier = i; index = b * r.http_connections + c }))))
  from_index_cases i b zero h k = inl (from_index_stream i b h)
  from_index_cases i b (suc o) h k = elim (Bool-cases (ltb (suc o) r.tcp_streams)) [
    | inl stream ↦ inr (
        inl (
          from_index_parts i b (suc o) h k
          ∙ from_offset_stream i b (suc o) (omega arith) (ground arith)))
    | inr behind ↦
        let c = suc o - r.tcp_streams in
        let place : r.tcp_streams + c ≡ suc o = ground arith in
        inr (
          inr (
            c,
            ground arith,
            from_index_parts i b (suc o) h k
                ∙ subst
                    (λ (x : ℕ).
                      from_offset r (at i b x) x
                      ≡ ok (
                          http_connection
                            (record { identifier = i; index = b * r.http_connections + c })))
                    place (from_offset_connection i b c h (ground arith)),
          ))
  ]

  Names-parts : (i b o : ℕ) → b < n → o < width r → Names r (at i b o) o
  Names-parts i b zero h k = inr (
    input_stream (record { identifier = i; index = b }),
    from_index_stream i b h,
    from_bucket_index_parts f i b h,
  )
  Names-parts i b (suc o) h k = elim (dec_lt (suc o) r.tcp_streams) [
    | yes stream ↦ inl (
      omega arith,
      stream,
      from_index_parts i b (suc o) h k ∙ from_offset_stream i b (suc o) (omega arith) stream,
    )
    | no conn ↦
        let e : r.tcp_streams + (suc o - r.tcp_streams) ≡ suc o = omega arith in
        subst (λ x. Names r (at i b x) x) e
          (Names-connection i b (suc o - r.tcp_streams) h (omega arith))
  ]

  -- For a queue index of one of `n` buckets whose indices fit: at the offset of a TCP stream other
  -- than the first `from_index` panics with `todo!`, or it names a resource whose own queue index
  -- this is.
  pub from_index-Names : (q : QueueIndex) → q.index < n * width r → Names r q (q.index % width r)
  from_index-Names q h =
      subst (λ x. Names r (record { identifier = q.identifier; index = x }) (q.index % width r))
        (parts_eq q.index (width r))
        (Names-parts q.identifier (q.index / width r) (q.index % width r)
          (div-lt q.index n (width r) h (omega arith)) (mod-lt q.index {m = width r} (omega arith)))
