-- ===== src/Index.antt =====
-- nea/src/index.rs: the resources of a bucket, the three kinds of index, and their conversions.
-- An index of the queue numbers all resources: bucket by bucket, in each the TCP streams first.
-- `usize` has 64 bits and the byte order is little-endian, as on the one supported platform.
pub mod Division
pub mod Words
pub mod Buckets
pub mod Connections
pub mod Kinds
pub mod Debug
mod Tests
use nea.Base.{
  ℕ, ◌+◌, ◌*◌, ◌/◌, ◌%◌, ◌^◌, ◌≤◌, ◌<◌, ◌==◌, Bool, ◌&&◌, ltb, leb, if◌then◌else◌, u32, u64, sub32,
  Result, ok, panic, ◌>>=◌, ◌>>◌, ensure, checked_div, checked_rem, assertion_failed, todo_reached,
  unreachable_reached,
}

-- Both fields are `usize`.
pub record IoResources : Type 0 where
  pub tcp_streams : ℕ
  pub http_connections : ℕ

unfoldable pub per_bucket : IoResources → ℕ
per_bucket r = u64 (r.tcp_streams + r.http_connections)

abbrev pub default_resources : IoResources
default_resources = record { tcp_streams = 1; http_connections = 0 }

-- A `Range<usize>`: from `start`, below `end`.
pub record Range : Type 0 where
  pub start : ℕ
  pub end : ℕ

abbrev pub contains : Range → ℕ → Bool
contains r n = leb r.start n && ltb n r.end

-- Both fields of an index are `u32`.
pub record BucketIndex : Type 0 where
  pub identifier : ℕ
  pub index : ℕ

pub record ConnectionIndex : Type 0 where
  pub identifier : ℕ
  pub index : ℕ

pub record QueueIndex : Type 0 where
  pub identifier : ℕ
  pub index : ℕ

pub http_connections_of : IoResources → BucketIndex → Range
http_connections_of r b =
    let start = u64 (b.index * r.http_connections) in
    record { start = start; end = u64 (start + r.http_connections) }

unfoldable pub to_bucket_index : IoResources → QueueIndex → Result BucketIndex
to_bucket_index r q = do
  index ← checked_div q.index (u32 (per_bucket r))
  ensure (ltb index 1000) assertion_failed
  ok (record { identifier = q.identifier; index = index })

unfoldable pub to_connection_index : IoResources → QueueIndex → Result ConnectionIndex
to_connection_index r q = do
  bucket_index ← checked_div q.index (u32 (per_bucket r))
  offset ← checked_rem q.index (u32 (per_bucket r))
  let connection = sub32 offset (u32 r.tcp_streams)
  ok (record {
    identifier = q.identifier;
    index = u32 (u32 (bucket_index * u32 r.http_connections) + connection);
  })

unfoldable pub from_bucket_index : IoResources → BucketIndex → QueueIndex
from_bucket_index r b = record {
  identifier = b.identifier;
  index = u32 (b.index * u32 (per_bucket r));
}

pub from_connection_index : IoResources → ConnectionIndex → Result QueueIndex
from_connection_index r c = do
  bucket_index ← checked_div c.index (u32 r.http_connections)
  connection ← checked_rem c.index (u32 r.http_connections)
  let base = u32 (bucket_index * u32 (per_bucket r))
  ok (record {
    identifier = c.identifier;
    index = u32 (u32 (base + u32 r.tcp_streams) + connection);
  })

-- The bytes of a `u32` and of a `usize`, lowest first.
pub record Bytes4 : Type 0 where
  pub b0 : ℕ
  pub b1 : ℕ
  pub b2 : ℕ
  pub b3 : ℕ

abbrev pub to_ne_bytes : ℕ → Bytes4
to_ne_bytes n = record {
  b0 = n % 256;
  b1 = n / 256 % 256;
  b2 = n / 65536 % 256;
  b3 = n / 16777216 % 256;
}

abbrev pub from_ne_bytes : Bytes4 → ℕ
from_ne_bytes b = b.b0 + b.b1 * 256 + b.b2 * 65536 + b.b3 * 16777216

-- The eight bytes of the word are those of `index` and then those of `identifier`.
unfoldable pub to_usize : QueueIndex → ℕ
to_usize q =
    let a = to_ne_bytes q.index in
    let b = to_ne_bytes q.identifier in from_ne_bytes a + from_ne_bytes b * 2 ^ 32

unfoldable pub from_usize : ℕ → QueueIndex
from_usize word =
    let low = to_ne_bytes (word % 2 ^ 32) in
    let high = to_ne_bytes (word / 2 ^ 32) in
    record { identifier = from_ne_bytes high; index = from_ne_bytes low }

pub data IoIndex : Type 0 where
  input_stream : BucketIndex → IoIndex
  http_connection : ConnectionIndex → IoIndex

-- The arms of the `match` in `IoIndex::from_index`, in their order.
unfoldable pub from_offset : IoResources → QueueIndex → ℕ → Result IoIndex
from_offset r q n =
    let tcp_stream_range : Range = record { start = 1; end = r.tcp_streams } in
    let http_connection_range : Range = record {
      start = tcp_stream_range.end;
      end = u64 (tcp_stream_range.end + r.http_connections);
    } in
    if n == 0
    then (to_bucket_index r q >>= λ b. ok (input_stream b))
    else if contains tcp_stream_range n
    then panic todo_reached
    else if contains http_connection_range n
    then (to_connection_index r q >>= λ c. ok (http_connection c))
    else panic unreachable_reached

unfoldable pub from_index : IoResources → QueueIndex → Result IoIndex
from_index r q = checked_rem q.index (per_bucket r) >>= from_offset r q

-- `n` buckets with these resources have indices that do not wrap, and pass the bound of
-- `to_bucket_index`.
pub record Fits (r : IoResources) (n : ℕ) : Type 0 where
  pub has_stream : 0 < r.tcp_streams
  pub indices_fit : n * (r.tcp_streams + r.http_connections) < 2 ^ 32
  pub few_buckets : n ≤ 1000
