-- ===== src/Executor/Tests.antt =====
-- A server of two buckets with two connections each, while bucket 1 has its main future and one
-- connection; a future is a number of polls that are left, a connection likewise.
use nea.Base.{
  Bool-cases, inl, inr, ℕ, zero, suc, ◌+◌, ◌*◌, ◌<◌, ◌≡◌, ◌≢◌, refl, sym, arith, ok, none, some,
  List, [], ◌∷◌, ◌==◌, if◌then◌else◌, bit-lt, sum_below,
}
use nea.Index.{IoResources, BucketIndex}
use nea.Queue.Bounds.{Queued}
use nea.Allocator.{ServerAlloc, Layout}
use nea.Allocator.Arenas.{IsReady}
use nea.Executor.{
  empty, leaves, panic_done, occupied, panicked, Inner, returns, Action, reserve, allocates, Poll,
  pending, ready,
}
use nea.Executor.Run.{cleanup_bucket, run_job, run_bucket, serve_bucket}
use nea.Executor.Run.Cleanup.{cleanup_bucket-IsFree, IsFree, OnlyBucket}
use nea.Executor.Run.Balance.{jobs_of}
use nea.Executor.Run.Actions.{Steady, Held, AllOwn}
use nea.Executor.Run.Release.{Freed}
use nea.Executor.Run.Idle.{Settles}
use nea.Executor.Run.Worker.{serve_bucket-Settles}
use nea.Executor.Run.Stale.{stale_wake}
use nea.Executor.Run.Ends.{job_count, run_bucket-ends}
use nea.Executor.Run.Calm.{AllCalm}

abbrev resources : IoResources
resources = record { tcp_streams = 1; http_connections = 2 }

abbrev bucket_1 : BucketIndex
bucket_1 = record { identifier = 0; index = 1 }

abbrev arenas : ServerAlloc
arenas = record {
  initial_arena = 4096;
  initial_arena_remaining = 524288;
  bucket_count = 2;
  bucket = λ i. record { start = 40960 + i * 8192; size = 8192; remaining = 8000 };
}

abbrev server : Inner ℕ ℕ
server = record {
  io_resources = resources;
  bucket_count = 2;
  refcounts = λ b. if b == 1 then 2 else 0;
  futures = λ b. if b == 1 then some 3 else none;
  tcp_streams = λ b. 11;
  connections = λ c. if c == 2 then occupied 5 else empty;
  queue = record {
    capacity = 2;
    slot = λ b. if b == 1 then record { flags = 2; jobs = 1 } else record { flags = 0; jobs = 0 };
    jobs_in_queue = 0;
    io_resources = resources;
  };
  allocator = arenas;
  next_identifier = 1;
  closed = [];
  responses = [];
}

arenas-IsReady : IsReady 2 8192 arenas
arenas-IsReady = record {
  count = refl;
  sizes = λ i lt. refl;
  arenas = λ i lt. record {
    aligned = omega arith;
    mapped = omega arith;
    in_space = omega arith;
    fits = omega arith;
  };
  apart = λ i j lt j_lt. omega arith;
}

-- A future reserves a connection while it has polls left, and ends behind the last one.
abbrev poll_future : ℕ → List (Action ℕ) × Poll ℕ
poll_future zero = ([], ready)
poll_future (suc k) = (reserve bucket_1 ∷ [], pending k)

abbrev poll_connection : ℕ → List (Action ℕ) × Poll ℕ
poll_connection zero = ([], ready)
poll_connection (suc k) = ([], pending k)

own_future : (k : ℕ) → AllOwn 1 (poll_future k).0
own_future zero = tt
own_future (suc k) = (refl, tt)

own_connection : (k : ℕ) → AllOwn 1 (poll_connection k).0
own_connection zero = tt
own_connection (suc k) = tt

jobs_of_bucket : (x : ℕ) → x < 2 → server.refcounts x ≡ jobs_of server x
unfolding sum_below
jobs_of_bucket zero lt = refl
jobs_of_bucket (suc zero) lt = refl
jobs_of_bucket (suc (suc x)) lt = absurd (omega arith)

server-Queued : Queued resources server.queue
server-Queued = record {
  same_resources = refl;
  words = λ b. ground arith;
  inside = λ b k has. elim (Bool-cases (b == 1)) [
    | inl here ↦ omega (arith, bit-lt 1 1 k (omega arith) (rw here at has))
    | inr away ↦ omega (arith, bit-lt 0 0 k (omega arith) (rw away at has))
  ];
}

server-Steady : Steady 2 8192 1 server
server-Steady = record {
  exists = omega arith;
  buckets = refl;
  resources = record {
    has_stream = omega arith;
    indices_fit = omega arith;
    few_buckets = omega arith;
  };
  few = omega arith;
  arenas = arenas-IsReady;
  queued = server-Queued;
  others = λ x lt ne. jobs_of_bucket x lt;
}

server-Held : Held server 1
server-Held = record { own = jobs_of_bucket 1 (omega arith); some_job = omega arith }

cleanup_bucket-IsFree_example :
    (s' : Inner ℕ ℕ) × (cleanup_bucket server bucket_1 panicked ≡ returns s' tt)
    × IsFree 8192 s' bucket_1
    × OnlyBucket server s' bucket_1
    × IsReady 2 8192 s'.allocator
    × (s'.responses ≡ (11, panicked) ∷ [])
    × (s'.closed ≡ 11 ∷ [])
cleanup_bucket-IsFree_example =
    cleanup_bucket-IsFree server bucket_1 panicked 2 8192 arenas-IsReady (omega arith)

serve_bucket-Settles_example :
    Settles 2 8192 1 (serve_bucket poll_future poll_connection 3 5 server bucket_1)
serve_bucket-Settles_example =
    serve_bucket-Settles poll_future poll_connection bucket_1 own_future own_connection 3 5 server
      server-Steady (inl server-Held)

abbrev small_layout : Layout
small_layout = record { size = 8; align = 8 }

-- Futures and connections that allocate in the arena of bucket 1 until they are done.
abbrev quiet : ℕ → List (Action ℕ) × Poll ℕ
quiet zero = ([], ready)
quiet (suc k) = (allocates 1 small_layout ∷ [], pending k)

quiet_lem : (k : ℕ) → AllCalm 1 (quiet k).0
quiet_lem zero = tt
quiet_lem (suc k) = ((refl, (3, (omega arith, refl))), tt)

one_job : job_count (server.queue.slot 1) < 2
unfolding sum_below
one_job = omega arith

run_bucket-ends_example : (run_bucket quiet quiet 2 server bucket_1).result ≢ ok none
run_bucket-ends_example =
    run_bucket-ends quiet quiet bucket_1 quiet_lem quiet_lem 2 server server-Steady
      (inl server-Held) one_job

-- Nobody has bucket 1, but its main future is woken.
abbrev idle_server : Inner ℕ ℕ
idle_server = record server {
  refcounts = λ b. 0;
  futures = λ b. none;
  connections = λ c. empty;
  allocator = record arenas {
    bucket = λ i. record { start = 40960 + i * 8192; size = 8192; remaining = 8192 };
  };
}

idle_jobs : (x : ℕ) → jobs_of idle_server x ≡ 0
unfolding sum_below
idle_jobs x = refl

idle_server-Steady : Steady 2 8192 1 idle_server
idle_server-Steady = record {
  exists = omega arith;
  buckets = refl;
  resources = server-Steady.resources;
  few = omega arith;
  arenas = record {
    count = refl;
    sizes = λ i lt. refl;
    arenas = λ i lt. record {
      aligned = omega arith;
      mapped = omega arith;
      in_space = omega arith;
      fits = omega arith;
    };
    apart = λ i j lt j_lt. omega arith;
  };
  queued = server-Queued;
  others = λ x lt ne. sym (idle_jobs x);
}

idle_server-Freed : Freed 8192 idle_server 1
idle_server-Freed = record { unclaimed = refl; no_job = idle_jobs 1; memory = refl }

stale_wake_example :
    (s' : Inner ℕ ℕ) × (run_job poll_future poll_connection idle_server bucket_1
      ≡ returns s' (leaves panic_done))
    × (s'.responses ≡ (11, panicked) ∷ [])
    × (s'.closed ≡ 11 ∷ [])
stale_wake_example =
    stale_wake poll_future poll_connection bucket_1 idle_server idle_server-Steady idle_server-Freed
      refl
