-- ===== src/Index/Debug.antt =====
-- nea/src/index.rs: how the indices are printed for the log.
use nea.Base.{ℕ, ◌++◌}
use nea.Text.{Text, codes, decimal}
use nea.Index.{BucketIndex, ConnectionIndex, QueueIndex}

-- `{ index: {} }` behind the name of the type.
abbrev with_index : Text → ℕ → Text
with_index name index = name ++ (codes " { index: " ++ (decimal index ++ codes " }"))

abbrev debug_connection_index : ConnectionIndex → Text
debug_connection_index i = with_index (codes "ConnectionIndex") i.index

abbrev debug_bucket_index : BucketIndex → Text
debug_bucket_index i = with_index (codes "BucketIndex") i.index

abbrev debug_queue_index : QueueIndex → Text
debug_queue_index i = with_index (codes "QueueIndex") i.index
