-- ===== src/Index/Tests.antt =====
-- Indices of ten buckets with two connections each.
use nea.Base.{◌/◌, ◌↔◌, true, ◌%◌, ◌≡◌, refl, arith, ok}
use nea.Index.Connections.{connection_round_trip, http_connections_of-owner}
use nea.Index.{
  contains, QueueIndex, http_connections_of, IoResources, Fits, ConnectionIndex, to_bucket_index,
  to_connection_index, from_bucket_index, from_connection_index, per_bucket,
}
use nea.Index.Kinds.{from_index-Names, Names}

abbrev one_and_two : IoResources
one_and_two = record { tcp_streams = 1; http_connections = 2 }

one_and_two-Fits : Fits one_and_two 10
one_and_two-Fits = record {
  has_stream = omega arith;
  indices_fit = omega arith;
  few_buckets = omega arith;
}

abbrev second_connection : ConnectionIndex
second_connection = record { identifier = 9; index = 5 }

-- Connection 5 is the last of bucket 2, at queue index 8.
connection_to_queue :
    from_connection_index one_and_two second_connection ≡ ok (record { identifier = 9; index = 8 })
unfolding from_connection_index per_bucket
connection_to_queue = refl

queue_to_connection :
    to_connection_index one_and_two (record { identifier = 9; index = 8 }) ≡ ok second_connection
unfolding to_connection_index per_bucket
queue_to_connection = refl

queue_to_bucket :
    to_bucket_index one_and_two (record { identifier = 9; index = 8 })
    ≡ ok (record { identifier = 9; index = 2 })
unfolding to_bucket_index per_bucket
queue_to_bucket = refl

bucket_to_queue :
    from_bucket_index one_and_two (record { identifier = 9; index = 2 })
    ≡ record { identifier = 9; index = 6 }
unfolding from_bucket_index per_bucket
bucket_to_queue = refl

from_index-Names_example : Names one_and_two (record { identifier = 9; index = 8 }) (8 % 3)
from_index-Names_example =
    from_index-Names one_and_two-Fits (record { identifier = 9; index = 8 }) (omega arith)

connection_round_trip_example :
    (q : QueueIndex) × (from_connection_index one_and_two second_connection ≡ ok q)
    × (to_connection_index one_and_two q ≡ ok second_connection)
    × (to_bucket_index one_and_two q ≡ ok (record { identifier = 9; index = 5 / 2 }))
connection_round_trip_example =
    connection_round_trip one_and_two-Fits second_connection (omega arith)

http_connections_of-owner_example :
    (contains (http_connections_of one_and_two (record { identifier = 0; index = 2 })) 5 ≡ true)
    ↔ (5 / 2 ≡ 2)
http_connections_of-owner_example =
    http_connections_of-owner one_and_two-Fits (record { identifier = 0; index = 2 })
      second_connection (omega arith) (omega arith)
