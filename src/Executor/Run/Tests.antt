-- ===== src/Executor/Run/Tests.antt =====
-- A server of two buckets with two connections each; bucket 1 has its main future and a connection
-- whose poll panics.
use nea.Base.{
  Bool-cases, inl, inr, ℕ, zero, suc, ◌+◌, ◌*◌, ◌<◌, ◌≡◌, refl, arith, none, some, List, [], ◌==◌,
  if◌then◌else◌, bit-lt, sum_below,
}
use nea.Index.{IoResources, BucketIndex}
use nea.Queue.Bounds.{Queued}
use nea.Executor.{empty, occupied, Inner, Action, Poll, pending, panics}
use nea.Executor.Run.Balance.{jobs_of}
use nea.Executor.Run.Actions.{Steady, Held}

abbrev resources : IoResources
resources = record { tcp_streams = 1; http_connections = 2 }

abbrev bucket_1 : BucketIndex
bucket_1 = record { identifier = 0; index = 1 }

abbrev server : Inner ℕ ℕ
server = record {
  io_resources = resources;
  bucket_count = 2;
  refcounts = λ b. if b == 1 then 2 else 0;
  futures = λ b. if b == 1 then some 3 else none;
  tcp_streams = λ b. 11;
  connections = λ c. if c == 2 then occupied 5 else empty;
  queue = record {
    capacity = 2;
    slot = λ b. if b == 1 then record { flags = 2; jobs = 2 } else record { flags = 0; jobs = 0 };
    jobs_in_queue = 0;
    io_resources = resources;
  };
  allocator = record {
    initial_arena = 4096;
    initial_arena_remaining = 524288;
    bucket_count = 2;
    bucket = λ i. record { start = 40960 + i * 8192; size = 8192; remaining = 8000 };
  };
  next_identifier = 1;
  closed = [];
  responses = [];
}

abbrev poll_future : ℕ → List (Action ℕ) × Poll ℕ
poll_future k = ([], pending k)

abbrev poll_connection : ℕ → List (Action ℕ) × Poll ℕ
poll_connection k = ([], panics)

right_counts : (x : ℕ) → x < 2 → server.refcounts x ≡ jobs_of server x
unfolding sum_below
right_counts zero lt = refl
right_counts (suc zero) lt = refl
right_counts (suc (suc x)) lt = absurd (omega arith)

server-Queued : Queued resources server.queue
server-Queued = record {
  same_resources = refl;
  words = λ b. ground arith;
  inside = λ b k has. elim (Bool-cases (b == 1)) [
    | inl here ↦ omega (arith, bit-lt 2 2 k (omega arith) (rw here at has))
    | inr away ↦ omega (arith, bit-lt 0 0 k (omega arith) (rw away at has))
  ];
}

server-Steady : Steady 2 8192 1 server
server-Steady = record {
  exists = omega arith;
  buckets = refl;
  resources = record {
    has_stream = omega arith;
    indices_fit = omega arith;
    few_buckets = omega arith;
  };
  few = omega arith;
  arenas = record {
    count = refl;
    sizes = λ i lt. refl;
    arenas = λ i lt. record {
      aligned = omega arith;
      mapped = omega arith;
      in_space = omega arith;
      fits = omega arith;
    };
    apart = λ i j lt j_lt. omega arith;
  };
  queued = server-Queued;
  others = λ x lt ne. right_counts x lt;
}

server-Held : Held server 1
server-Held = record { own = right_counts 1 (omega arith); some_job = omega arith }
