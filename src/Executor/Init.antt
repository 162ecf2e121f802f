-- ===== src/Executor/Init.antt =====
-- nea/src/executor.rs and nea/src/lib.rs: the state that a server starts with. What `mmap` returns
-- is a parameter, the address or none.
use nea.Base.{
  ℕ, ◌*◌, ◌==◌, ◌&&◌, Bool, Option, none, some, [], Result, ok, ◌>>◌, ensure, assertion_failed,
}
use nea.Index.{IoResources}
use nea.Queue.{with_capacity}
use nea.Allocator.{ServerAlloc, initialize_buckets}
use nea.Config.{Config}
use nea.Executor.{empty, Inner}

-- The derived `==` of `IoResources`.
abbrev pub equal_resources : IoResources → IoResources → Bool
equal_resources x y = x.tcp_streams == y.tcp_streams && x.http_connections == y.http_connections

module _ {F C : Type 0} where
  -- The `Inner` of the first call of `get_or_init`.
  unfoldable pub initial_inner : ServerAlloc → ℕ → IoResources → Inner F C
  initial_inner a bucket_count io_resources = record {
    io_resources = io_resources;
    bucket_count = bucket_count;
    refcounts = λ _. 0;
    futures = λ _. none;
    tcp_streams = λ _. 0;
    connections = λ _. empty;
    queue = with_capacity bucket_count io_resources;
    allocator = a;
    next_identifier = 0;
    closed = [];
    responses = [];
  }

  -- `get_or_init`, with what the static `INNER` holds.
  unfoldable pub get_or_init :
      Option (Inner F C) → ServerAlloc → ℕ → IoResources → Result (Inner F C)
  get_or_init none a bucket_count io_resources = ok (initial_inner a bucket_count io_resources)
  get_or_init (some s) a bucket_count io_resources =
      ensure (equal_resources io_resources s.io_resources) assertion_failed >> ok s

  abbrev pub first_call : Config → Option ServerAlloc → Option (Result (Inner F C))
  first_call config none = none
  first_call config (some a) = some (get_or_init none a config.bucket_count config.io_resources)

  -- `run_request_handler` up to its executor, with the configuration that it has loaded; `none` if
  -- the memory of the buckets is not mapped.
  unfoldable pub start_server : ServerAlloc → Config → Option ℕ → Option (Result (Inner F C))
  start_server a config mapped =
      first_call config (initialize_buckets a config.bucket_count (4096 * 128) mapped)
