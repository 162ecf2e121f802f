-- ===== src/Executor/Whole.antt =====
-- nea/src/executor.rs: the server as a whole. Its steps are those of the thread that accepts
-- requests, of its workers, and of whoever wakes a job, in any order; each is a call that has
-- returned, so a run goes on up to the first panic that nothing catches.
pub mod Initial
pub mod Steps
pub mod Accepts
pub mod Race
mod Tests
pub mod Requests
use nea.Config.{Config}
use nea.Base.{ℕ, ◌+◌, ◌*◌, ◌%◌, ◌^◌, ◌<◌, ◌≡◌, Bool, Option, List, ok, Result}
use nea.Index.{Fits, BucketIndex, QueueIndex}
use nea.Queue.{ComplexQueue, NextStep, try_dequeue}
use nea.Queue.Bounds.{Queued}
use nea.Allocator.Arenas.{IsReady}
use nea.Executor.{Inner, Outcome, returns, Action, Poll, Verdict, enqueue, set_queue}
use nea.Executor.Start.{claim_and_execute}
use nea.Executor.Run.{run_job, leave_bucket}
use nea.Executor.Run.Actions.{AllOwn}
use nea.Executor.Run.Idle.{Settled}

-- A server of `n` buckets of `size` bytes: each has a right count above 0, or nobody has it and all
-- of its memory is there.
pub record Whole {F C : Type 0} (n size : ℕ) (s : Inner F C) : Type 0 where
  pub some_bucket : 0 < n
  pub buckets : s.bucket_count ≡ n
  pub resources : Fits s.io_resources n
  pub few : s.io_resources.http_connections < 254
  pub arenas : IsReady n size s.allocator
  pub queued : Queued s.io_resources s.queue
  pub each : (b : ℕ) → b < n → Settled size s b

-- A configuration and an address of the memory that a server can run with.
pub record IsDeployment (config : Config) (ptr : ℕ) : Type 0 where
  pub some_bucket : 0 < config.bucket_count
  pub resources : Fits config.io_resources config.bucket_count
  pub few : config.io_resources.http_connections < 254
  pub page : ptr % 4096 ≡ 0
  pub mapped : 0 < ptr
  pub room : ptr + config.bucket_count * (4096 * 128) < 2 ^ 64

-- A poll of bucket `b` that reserves connections and allocates in that bucket alone.
abbrev pub OwnPolls : {A C : Type 0} → ℕ → (A → List (Action C) × Poll A) → Type 0
OwnPolls {A} b poll = (x : A) → AllOwn b (poll x).0

pub data Step {F C : Type 0} (n : ℕ) (s s' : Inner F C) : Type 0 where
  -- a turn of the loop in `run_request_handler`, whatever mutexes are locked
  accepts :
      (locked : ℕ → Bool) (fd : ℕ) (fut : F) (found : Option BucketIndex)
      → claim_and_execute locked s fd fut ≡ (found, returns s' tt)
      → Step n s s'
  -- a waker, or the reactor
  wakes : (i : QueueIndex) → enqueue s i ≡ returns s' tt → Step n s s'
  -- a worker takes a bucket from the queue
  takes :
      (found : Option BucketIndex) (q : ComplexQueue)
      → try_dequeue s.queue ≡ ok (found, q)
      → s' ≡ set_queue s q
      → Step n s s'
  -- a worker goes through one round of `run_bucket`
  serves :
      (poll_future : F → List (Action C) × Poll F) (poll_connection : C → List (Action C) × Poll C)
      (b : BucketIndex) (v : Verdict)
      → b.index < n
      → OwnPolls b.index poll_future
      → OwnPolls b.index poll_connection
      → run_job poll_future poll_connection s b ≡ returns s' v
      → Step n s s'
  -- a worker is done with a bucket
  leaves_it :
      (b : BucketIndex) (next : NextStep)
      → b.index < n
      → leave_bucket s b ≡ returns s' next
      → Step n s s'

pub data Reach {F C : Type 0} (n : ℕ) (s : Inner F C) : Inner F C → Type 0 where
  here : Reach n s s
  later : {t u : Inner F C} → Reach n s t → Step n t u → Reach n s u
