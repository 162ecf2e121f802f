-- ===== src/Queue/Threads/Invariant.antt =====
-- What holds between two turns of the threads of `nea.Queue.Threads`.
use nea.Base.{ℕ, ◌+◌, ◌*◌, ◌/◌, ◌^◌, ◌<◌, ◌==◌, ◌≡◌, if◌then◌else◌, sum_below, update, arith}
use nea.Index.{IoResources}
use nea.Index.Buckets.{width}
use nea.Queue.{ComplexQueue}
use nea.Queue.Slot.{QueueSlot}
use nea.Queue.Threads.{
  first, second, Pc, idle, increment, mark, revert, waiting, scan, claimed, run, take, poll, leave,
  clear, panicked, Choice, wakes, works,
}

-- A slot that a worker may claim.
abbrev pub ready : QueueSlot → ℕ
ready s = if s.flags == 1 then 1 else 0

-- A thread that has incremented the count for no slot yet, or has yet to decrement it.
abbrev pub pending : Pc → ℕ
pending idle = 0
pending (mark b) = 1
pending (revert b) = 1
pending (claimed b) = 1
pending _ = 0

abbrev pub same : ℕ → ℕ → ℕ
same a b = if a == b then 1 else 0

-- A worker that has bucket `x` in progress.
abbrev pub holds : ℕ → Pc → ℕ
holds x idle = 0
holds x (claimed b) = same b x
holds x (run b) = same b x
holds x (take b job) = same b x
holds x (poll b job) = same b x
holds x (leave b r) = same b x
holds x (clear b r) = same b x
holds x _ = 0

-- What a thread knows: its bucket exists; in the second round the bucket is enqueued again; it has
-- not panicked.
abbrev pub Local : ℕ → (ℕ → QueueSlot) → Pc → Type 0
Local n slot idle = Unit
Local n slot (increment b) = b < n
Local n slot (mark b) = b < n
Local n slot (revert b) = b < n
Local n slot waiting = Unit
Local n slot (scan i) = Unit
Local n slot (claimed b) = b < n
Local n slot (run b) = b < n
Local n slot (take b job) = b < n
Local n slot (poll b job) = b < n
Local n slot (leave b first) = b < n
Local n slot (leave b second) = (b < n) × ((slot b).flags ≡ 3)
Local n slot (clear b first) = b < n
Local n slot (clear b second) = ⊥
Local n slot (panicked p) = ⊥

-- A choice that wakes no index but of an existing bucket.
abbrev pub IsValid : IoResources → ℕ → Choice → Type 0
IsValid r n (wakes i) = i.index < n * width r
IsValid r n works = Unit
IsValid r n _ = Unit

pub record Inv (threads n : ℕ) (r : IoResources) (q : ComplexQueue) (pc : ℕ → Pc) : Type 0 where
  pub buckets : q.capacity ≡ n
  pub resources : q.io_resources ≡ r
  pub few : n + threads + 1 < 2 ^ 32
  pub two_flags : (b : ℕ) → (q.slot b).flags < 4
  pub counted : q.jobs_in_queue ≡ sum_below ready q.capacity q.slot + sum_below pending threads pc
  pub held : (b : ℕ) → sum_below (holds b) threads pc ≡ (q.slot b).flags / 2
  pub known : (t : ℕ) → t < threads → Local q.capacity q.slot (pc t)

-- A write of slot `b` keeps what another thread knows, if a holder of `b` sees the flags stay.
pub Local-update :
    (n : ℕ) (slot : ℕ → QueueSlot) (b : ℕ) (s : QueueSlot) (p : Pc)
    → (holds b p ≡ 1 → (slot b).flags ≡ 3 → s.flags ≡ 3)
    → Local n slot p
    → Local n (update slot b s) p
Local-update n slot b s (leave x second) stay (lt, set) = ground arith
Local-update n slot b s (leave x first) stay own = own
Local-update n slot b s (clear x first) stay own = own
Local-update n slot b s (clear x second) stay own = own
Local-update n slot b s idle stay own = own
Local-update n slot b s _ stay own = own
