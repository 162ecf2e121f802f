-- ===== src/Executor/Whole/Tests.antt =====
-- A server of two buckets with two connections each, from its start on.
use nea.Base.{
  ℕ, zero, suc, ◌+◌, ◌*◌, ◌<◌, ◌≡◌, ◌≢◌, ◌⊎◌, refl, arith, ok, panic, assertion_failed, none, some,
  List, [], ◌∷◌, Bool, true, false,
}
use nea.Queue.{with_capacity, increment_active, helper_mark, helper, initial_enqueue}
use nea.Queue.Slot.{mark_enqueued, add_job}
use nea.Text.{codes}
use nea.Index.{BucketIndex, per_bucket, to_bucket_index, from_bucket_index}
use nea.Allocator.{ServerAlloc, initialize_buckets, initialize_at}
use nea.Config.{Config}
use nea.Executor.{
  Inner, returns, Action, Poll, pending, ready, allocates, leaves, panic_done, try_claim,
  try_claim_from, execute, set, enqueue,
}
use nea.Executor.Start.{claim_and_execute}
use nea.Executor.Init.{start_server, get_or_init, initial_inner}
use nea.Queue.Jobs.{has_job}
use nea.Executor.Run.{run_job}
use nea.Executor.Run.Balance.{jobs_of}
use nea.Executor.Run.Release.{Freed}
use nea.Executor.Run.Actions.{AllOwn}
use nea.Executor.Run.Apart.{Apart}
use nea.Executor.Run.Apart.Jobs.{run_job-Apart}
use nea.Executor.Whole.{IsDeployment, Whole, Reach, here, later, accepts, wakes}
use nea.Executor.Whole.Steps.{Whole-Steady}
use nea.Executor.Whole.Requests.{reached-Whole, accepted_alone, refused_when_full}
use nea.Executor.Whole.Race.{claim_race}

abbrev config : Config
config = record {
  host = codes "localhost";
  port = 8000;
  bucket_count = 2;
  io_resources = record { tcp_streams = 1; http_connections = 2 };
}

abbrev allocator : ServerAlloc
allocator = record {
  initial_arena = 4096;
  initial_arena_remaining = 4096;
  bucket_count = 0;
  bucket = λ _. record { start = 0; size = 0; remaining = 0 };
}

config-IsDeployment : IsDeployment config 8192
config-IsDeployment = record {
  some_bucket = omega arith;
  resources = record {
    has_stream = omega arith;
    indices_fit = omega arith;
    few_buckets = omega arith;
  };
  few = omega arith;
  page = omega arith;
  mapped = omega arith;
  room = omega arith;
}

abbrev server : Inner ℕ ℕ
server =
    initial_inner
      (record allocator {
        bucket_count = 2;
        bucket = λ i. record { start = 8192 + i * 524288; size = 524288; remaining = 524288 };
      })
      2 config.io_resources

server_started : start_server allocator config (some 8192) ≡ some (ok server)
unfolding start_server get_or_init initialize_buckets initialize_at
server_started = refl

abbrev unlocked : ℕ → Bool
unlocked _ = false

abbrev bucket_0 : BucketIndex
bucket_0 = record { identifier = 0; index = 0 }

abbrev bucket_1 : BucketIndex
bucket_1 = record { identifier = 0; index = 1 }

-- The server behind its first request, behind its second, and behind a wake of its first bucket.
abbrev busy : Inner ℕ ℕ
busy = (claim_and_execute unlocked server 7 3).1.state

abbrev full : Inner ℕ ℕ
full = (claim_and_execute unlocked busy 8 4).1.state

abbrev woken : Inner ℕ ℕ
woken = (enqueue server (record { identifier = 0; index = 0 })).state

first_request : claim_and_execute unlocked server 7 3 ≡ (some bucket_0, returns busy tt)
unfolding claim_and_execute try_claim try_claim_from execute set enqueue initial_inner
    initial_enqueue helper helper_mark mark_enqueued add_job increment_active to_bucket_index
    from_bucket_index per_bucket with_capacity
first_request = refl

second_request : claim_and_execute unlocked busy 8 4 ≡ (some bucket_1, returns full tt)
unfolding claim_and_execute try_claim try_claim_from execute set enqueue initial_inner
    initial_enqueue helper helper_mark mark_enqueued add_job increment_active to_bucket_index
    from_bucket_index per_bucket with_capacity
second_request = refl

third_request : claim_and_execute unlocked full 9 5 ≡ (none, returns full tt)
unfolding claim_and_execute try_claim try_claim_from execute set enqueue initial_inner
    initial_enqueue helper helper_mark mark_enqueued add_job increment_active to_bucket_index
    from_bucket_index per_bucket with_capacity
third_request = refl

wake_returns : enqueue server (record { identifier = 0; index = 0 }) ≡ returns woken tt
unfolding enqueue initial_inner initial_enqueue helper helper_mark mark_enqueued add_job
    increment_active to_bucket_index per_bucket with_capacity
wake_returns = refl

Reach-busy : Reach 2 server busy
Reach-busy = later here (accepts unlocked 7 3 (some bucket_0) first_request)

Reach-full : Reach 2 server full
Reach-full = later Reach-busy (accepts unlocked 8 4 (some bucket_1) second_request)

reached-Whole_example : Whole 2 524288 full
reached-Whole_example =
    reached-Whole allocator config 8192 server full config-IsDeployment server_started Reach-full

accepted_alone_example :
    (1 < 2)
    × Freed 524288 busy 1
    × Apart 1 busy full
    × (full.connections ≡ busy.connections)
    × ((x : ℕ) → x ≢ 1 → full.queue.slot x ≡ busy.queue.slot x)
    × (full.futures 1 ≡ some 4)
    × (full.tcp_streams 1 ≡ 8)
    × (full.refcounts 1 ≡ 1)
    × (jobs_of full 1 ≡ 1)
    × ((full.allocator.bucket 1).remaining ≡ 524288)
accepted_alone_example =
    accepted_alone allocator config 8192 server busy config-IsDeployment server_started Reach-busy
      unlocked 8 4 bucket_1 full second_request

refused_when_full_example :
    (full ≡ full)
    × ((b : ℕ)
        → b < 2
        → ((0 < full.refcounts b) × (full.refcounts b ≡ jobs_of full b)) ⊎ (unlocked b ≡ true))
refused_when_full_example =
    refused_when_full allocator config 8192 server full config-IsDeployment server_started
      Reach-full unlocked 9 5 full third_request

-- A future that allocates while it has polls left, and connections that do nothing.
abbrev poll_future : ℕ → List (Action ℕ) × Poll ℕ
poll_future zero = ([], ready)
poll_future (suc k) = (allocates 0 (record { size = 100; align = 8 }) ∷ [], pending k)

abbrev poll_connection : ℕ → List (Action ℕ) × Poll ℕ
poll_connection k = ([], pending k)

own_future : (k : ℕ) → AllOwn 0 (poll_future k).0
own_future zero = tt
own_future (suc k) = ((refl, (3, (omega arith, refl))), tt)

run_job-Apart_example : Apart 0 full (run_job poll_future poll_connection full bucket_0).state
run_job-Apart_example =
    run_job-Apart poll_future poll_connection bucket_0 own_future (λ k. tt) full
      (Whole-Steady reached-Whole_example 0 (omega arith))

woken_job : has_job (woken.queue.slot 0) 0 ≡ true
unfolding enqueue initial_inner initial_enqueue helper helper_mark mark_enqueued add_job
    increment_active to_bucket_index per_bucket with_capacity
woken_job = refl

claim_returns : try_claim unlocked woken ≡ (some bucket_0, (try_claim unlocked woken).1)
unfolding try_claim try_claim_from enqueue initial_inner initial_enqueue helper helper_mark
    mark_enqueued add_job increment_active to_bucket_index per_bucket with_capacity
claim_returns = refl

claim_race_example :
    (s2 : Inner ℕ ℕ) × (run_job poll_future poll_connection (try_claim unlocked woken).1 bucket_0
      ≡ returns s2 (leaves panic_done))
    × ((s3 : Inner ℕ ℕ)
        → execute s2 7 bucket_0 3 ≡ returns s3 tt
        → (claim_and_execute unlocked s3 8 4).1.result ≡ panic assertion_failed)
claim_race_example =
    claim_race poll_future poll_connection woken
      (reached-Whole allocator config 8192 server woken config-IsDeployment server_started
        (later here (wakes (record { identifier = 0; index = 0 }) wake_returns)))
      unlocked 7 8 3 4 bucket_0 (try_claim unlocked woken).1 claim_returns woken_job
