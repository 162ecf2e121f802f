-- ===== src/Executor/Whole/Initial.antt =====
-- nea/src/lib.rs: the server as it starts.
use nea.Base.{ℕ, ◌*◌, ◌<◌, ◌≡◌, refl, ap, arith, inr, some, ok, sum_below-zero}
use nea.Index.{Fits, IoResources}
use nea.Queue.Bounds.{with_capacity-Queued}
use nea.Allocator.{ServerAlloc}
use nea.Allocator.Arenas.{IsReady, initialize_buckets-IsReady}
use nea.Config.{Config}
use nea.Executor.{empty, Inner}
use nea.Executor.Init.{initial_inner, get_or_init, start_server, first_call}
use nea.Executor.Run.Balance.{live}
use nea.Executor.Run.Release.{Freed}
use nea.Executor.Whole.{Whole, IsDeployment}

module _ {F C : Type 0} where
  initial_inner-Freed :
      (a : ServerAlloc) (n size : ℕ) (r : IoResources)
      → ((i : ℕ) → (a.bucket i).remaining ≡ size)
      → (b : ℕ) → Freed size (initial_inner {F = F} {C = C} a n r) b
  unfolding initial_inner
  initial_inner-Freed a n size r all_there b = record {
    unclaimed = refl;
    no_job =
        omega (arith, sum_below-zero (live {C = C}) r.http_connections (λ i. empty) (λ i lt. refl));
    memory = all_there b;
  }

  initial_inner-Whole :
      (a : ServerAlloc) (n size : ℕ) (r : IoResources)
      → 0 < n
      → Fits r n
      → r.http_connections < 254
      → IsReady n size a
      → ((i : ℕ) → (a.bucket i).remaining ≡ size)
      → Whole n size (initial_inner {F = F} {C = C} a n r)
  unfolding initial_inner
  initial_inner-Whole a n size r pos fits few ready all_there = record {
    some_bucket = pos;
    buckets = refl;
    resources = fits;
    few = few;
    arenas = ready;
    queued = with_capacity-Queued n r;
    each = λ b lt. inr (initial_inner-Freed a n size r all_there b);
  }

  pub start_server-Whole :
      (a : ServerAlloc) (config : Config) (ptr : ℕ)
      → IsDeployment config ptr
      → (s : Inner F C) × (start_server a config (some ptr) ≡ some (ok s))
        × Whole config.bucket_count (4096 * 128) s
        × ((b : ℕ) → Freed (4096 * 128) s b)
  unfolding start_server get_or_init
  start_server-Whole a config ptr dep =
      let n = config.bucket_count in
      let (a', eq, ready, all_there) =
        initialize_buckets-IsReady a n 128 ptr dep.page dep.mapped (omega (arith, dep.room)) in
      let s = initial_inner a' n config.io_resources in
      (
        s,
        ap (first_call config) eq,
        initial_inner-Whole a' n (128 * 4096) config.io_resources dep.some_bucket dep.resources
            dep.few ready all_there,
        initial_inner-Freed a' n (128 * 4096) config.io_resources all_there,
      )
