-- ===== src/Executor/Run/Balance.antt =====
-- nea/src/executor.rs: the count of a bucket, and its jobs that are alive.
use nea.Base.{
  ℕ, ◌+◌, ◌*◌, ◌/◌, ◌^◌, ◌==◌, ◌<◌, ◌≡◌, ◌≢◌, inl, inr, refl, sym, ap, ◌∙◌, arith, Bool-cases,
  Option, none, some, if◌then◌else◌, update, sum_below, sum_below-update, sum_below_ext,
}
use nea.Index.Division.{div_of_parts}
use nea.Allocator.Arenas.{IsReady, clear_bucket-IsReady}
use nea.Executor.{
  Slot, empty, reserved, occupied, Inner, returns, Verdict, continues, leaves, forever,
}
use nea.Executor.Run.{finish_job}

-- A slot that is not empty holds a job, or a place for one.
abbrev pub live : {C : Type 0} → Slot C → ℕ
live empty = 0
live reserved = 1
live (occupied c) = 1

abbrev pub alive : {F : Type 0} → Option F → ℕ
alive none = 0
alive (some fut) = 1

-- The connections of bucket `b` that are live, `http` places a bucket.
abbrev pub live_connections : {C : Type 0} → ℕ → (ℕ → Slot C) → ℕ → ℕ
live_connections http slots b = sum_below live http (λ i. slots (b * http + i))

abbrev pub jobs_of : {F C : Type 0} → Inner F C → ℕ → ℕ
jobs_of s b = alive (s.futures b) + live_connections s.io_resources.http_connections s.connections b

-- The count of each of the `n` buckets is the number of its jobs.
abbrev pub Balanced : {F C : Type 0} → ℕ → Inner F C → Type 0
Balanced n s = (b : ℕ) → b < n → s.refcounts b ≡ jobs_of s b

-- A write of a slot of bucket `b` changes the number of its live connections by the slot's.
pub live-update_own :
    {C : Type 0} (http : ℕ) (slots : ℕ → Slot C) (b o : ℕ) (v : Slot C)
    → o < http
    → live_connections http (update slots (b * http + o) v) b + live (slots (b * http + o))
      ≡ live_connections http slots b + live v
live-update_own http slots b o v lt = omega (
  arith,
  sum_below_ext live http (λ i. update slots (b * http + o) v (b * http + i))
      (update (λ i. slots (b * http + i)) o v) (λ i i_lt. ground arith),
  sum_below-update live http (λ i. slots (b * http + i)) o v lt,
)

pub places_differ : (http b x o i : ℕ) → b ≢ x → o < http → i < http → b * http + o ≢ x * http + i
places_differ http b x o i ne o_lt i_lt e =
    ne (sym (div_of_parts b http o o_lt) ∙ ap (λ (k : ℕ). k / http) e ∙ div_of_parts x http i i_lt)

-- It leaves the other buckets alone.
pub live-update_other :
    {C : Type 0} (http : ℕ) (slots : ℕ → Slot C) (b x o : ℕ) (v : Slot C)
    → b ≢ x
    → o < http
    → live_connections http (update slots (b * http + o) v) x ≡ live_connections http slots x
live-update_other http slots b x o v ne lt =
    sum_below_ext live http (λ i. update slots (b * http + o) v (x * http + i))
      (λ i. slots (x * http + i))
      (λ i i_lt. let differ = places_differ http b x o i ne lt i_lt in ground arith)

-- A bucket with no job has no future and no connection.
pub no_future_of : {F : Type 0} (f : Option F) → alive f ≡ 0 → f ≡ none
no_future_of none h = refl
no_future_of (some x) h = absurd (omega arith)

pub empty_of : {C : Type 0} (slot : Slot C) → live slot ≡ 0 → slot ≡ empty
empty_of empty h = refl
empty_of reserved h = absurd (omega arith)
empty_of (occupied c) h = absurd (omega arith)

-- One job of bucket `b` has just gone, and is still counted.
abbrev pub Owes : {F C : Type 0} → ℕ → Inner F C → ℕ → Type 0
Owes n s b = (x : ℕ) → x < n → s.refcounts x ≡ jobs_of s x + (if x == b then 1 else 0)

module _ {F C : Type 0} {n size : ℕ} (s : Inner F C) (b : ℕ) (lt : b < n)
    (ready : IsReady n size s.allocator) (owes : Owes n s b) where
  -- What `finish_job` leads to: the worker leaves the bucket exactly if that was its last job, and
  -- then the bucket has no job, a count of 0, and all of its memory.
  pub record Finished (s' : Inner F C) (v : Verdict) : Type 0 where
    pub balanced : Balanced n s'
    pub still_ready : IsReady n size s'.allocator
    pub same_resources : s'.io_resources ≡ s.io_resources
    pub same_buckets : s'.bucket_count ≡ s.bucket_count
    pub same_queue : s'.queue ≡ s.queue
    pub last :
        (v ≡ leaves forever)
        → (s'.refcounts b ≡ 0) × (jobs_of s' b ≡ 0) × ((s'.allocator.bucket b).remaining ≡ size)
    pub not_last :
        (v ≢ leaves forever) → (v ≡ continues) × (0 < jobs_of s' b) × (s'.allocator ≡ s.allocator)

  pub finish_job-Finished :
      s.refcounts b < 2 ^ 8
      → (s' : Inner F C) × (v : Verdict) × (finish_job s b ≡ returns s' v) × Finished s' v
  unfolding finish_job
  finish_job-Finished small = elim (Bool-cases (s.refcounts b == 1)) [
    | inl last ↦
        let (a, cleared, all_back, ready', others) =
          clear_bucket-IsReady s.allocator b n size ready lt in
        rw (last, cleared, finish_job)
          (
            _,
            _,
            refl,
            record {
              balanced = λ x x_lt. ground (arith, owes x x_lt, owes b lt);
              still_ready = ready';
              same_resources = refl;
              same_buckets = refl;
              same_queue = refl;
              last = λ e. (ground arith, ground (arith, owes b lt), all_back);
              not_last = λ ne. absurd (ne refl);
            },
          )
    | inr more ↦
        rw (more, finish_job)
          (
            _,
            _,
            refl,
            record {
              balanced = λ x x_lt. ground (arith, owes x x_lt, owes b lt);
              still_ready = ready;
              same_resources = refl;
              same_buckets = refl;
              same_queue = refl;
              last = λ e. absurd (ground arith);
              not_last = λ ne. (refl, ground (arith, owes b lt), refl);
            },
          )
  ]
