-- ===== src/Index/Words.antt =====
-- nea/src/index.rs: a queue index as one machine word, the token of mio and the data of a waker.
use nea.Base.{ℕ, ◌^◌, ◌<◌, ◌≡◌, arith}
use nea.Index.{QueueIndex, to_usize, from_usize}

-- A queue index whose fields are below 2^32 is had back from its word, which is below 2^64.
pub from_usize-to_usize :
    (q : QueueIndex)
    → q.identifier < 2 ^ 32
    → q.index < 2 ^ 32
    → (from_usize (to_usize q) ≡ q) × (to_usize q < 2 ^ 64)
unfolding from_usize to_usize
from_usize-to_usize q h k = (ground arith, omega arith)

-- Every word below 2^64 is the word of the queue index that is read from it.
pub to_usize-from_usize : (w : ℕ) → w < 2 ^ 64 → to_usize (from_usize w) ≡ w
unfolding from_usize to_usize
to_usize-from_usize w h = omega arith
