-- ===== src/Executor/Run/Actions.antt =====
-- nea/src/executor.rs: what a poll calls, and the counts of the buckets.
use nea.Base.{
  ℕ, zero, suc, ◌+◌, ◌-◌, ◌*◌, ◌%◌, ◌^◌, ◌==◌, ◌≤◌, ◌<◌, ◌≡◌, ◌≢◌, inl, inr, refl, sym, ap, subst,
  arith, Bool-cases, Bool, true, false, Option, none, some, List, [], ◌∷◌, update, ok, panic,
  Result, ltb, sum_below_ext, sum_below-le,
}
use nea.Index.{Fits, BucketIndex, QueueIndex}
use nea.Index.Connections.{http_connections_of-eq}
use nea.Queue.Bounds.{Queued, enqueue-Queued}
use nea.Queue.{ComplexQueue, initial_enqueue}
use nea.Allocator.Arenas.{IsReady, try_allocate_in_bucket-Allocates}
use nea.Allocator.Bump.{IsPower}
use nea.Allocator.{ServerAlloc, Layout, try_allocate_in_bucket}
use nea.Base.{memory_exhausted}
use nea.Executor.{
  Slot, empty, reserved, occupied, Inner, Outcome, returns, fails, Action, reserve, populate, wakes,
  allocates, allocate_in, set_queue, enqueue, find_empty, reserve_at, handshake_reserve,
}
use nea.Executor.Run.Balance.{
  live, alive, live_connections, jobs_of, live-update_own, live-update_other,
}

-- All but bucket `b` have a count that is the number of their jobs.
pub record Steady {F C : Type 0} (n size b : ℕ) (s : Inner F C) : Type 0 where
  pub exists : b < n
  pub buckets : s.bucket_count ≡ n
  pub resources : Fits s.io_resources n
  pub few : s.io_resources.http_connections < 254
  pub arenas : IsReady n size s.allocator
  pub queued : Queued s.io_resources s.queue
  pub others : (x : ℕ) → x < n → x ≢ b → s.refcounts x ≡ jobs_of s x

-- Bucket `b` has a job, and a count that is the number of its jobs.
pub record Held {F C : Type 0} (s : Inner F C) (b : ℕ) : Type 0 where
  pub own : s.refcounts b ≡ jobs_of s b
  pub some_job : 0 < s.refcounts b

-- A poll reserves connections of its own bucket alone, and allocates in its own arena alone, at
-- alignments that are powers of two up to the page size.
abbrev pub IsOwn : {C : Type 0} → ℕ → Action C → Type 0
IsOwn b (reserve x) = x.index ≡ b
IsOwn b (populate c conn) = Unit
IsOwn b (wakes i) = Unit
IsOwn b (allocates arena l) = (arena ≡ b) × ((k : ℕ) × IsPower l k)

abbrev pub AllOwn : {C : Type 0} → ℕ → List (Action C) → Type 0
AllOwn b [] = Unit
AllOwn b (a ∷ rest) = IsOwn b a × AllOwn b rest

-- What a call leaves of the state: futures and connections that are there stay; if it returns, the
-- count of `b` is right behind it, and if it panics, those of the other buckets are.
pub record Kept {F C : Type 0} {A : Type 0} (n size b : ℕ) (s : Inner F C)
    (o : Outcome (Inner F C) A) : Type 0 where
  pub steady : Steady n size b o.state
  pub same_futures : (x : ℕ) → o.state.futures x ≡ s.futures x
  pub same_resources : o.state.io_resources ≡ s.io_resources
  pub same_streams : (x : ℕ) → o.state.tcp_streams x ≡ s.tcp_streams x
  pub same_occupied :
      (c : ℕ) (conn : C) → s.connections c ≡ occupied conn → o.state.connections c ≡ occupied conn
  pub still_held : (a : A) → o.result ≡ ok a → Held o.state b

live-le-one : {C : Type 0} (slot : Slot C) → live slot ≤ 1
live-le-one empty = omega arith
live-le-one reserved = omega arith
live-le-one (occupied c) = omega arith

alive-le-one : {F : Type 0} (f : Option F) → alive f ≤ 1
alive-le-one none = omega arith
alive-le-one (some f) = omega arith

-- A write of a slot that is as live as before changes no count.
pub live-update_same :
    {C : Type 0} (http : ℕ) (slots : ℕ → Slot C) (c x : ℕ) (v : Slot C)
    → live v ≡ live (slots c)
    → live_connections http (update slots c v) x ≡ live_connections http slots x
live-update_same http slots c x v e =
    sum_below_ext live http (λ i. update slots c v (x * http + i)) (λ i. slots (x * http + i))
      (λ i lt. elim (Bool-cases (c == x * http + i)) [
        | inl here ↦ rw here (let same : c ≡ x * http + i = ground arith in rw (← same) e)
        | inr away ↦ rw away
      ])

find_empty_lem :
    {F C : Type 0} (s : Inner F C) (left i j : ℕ)
    → find_empty s left i ≡ some j
    → (i ≤ j) × (j < i + left) × (s.connections j ≡ empty)
unfolding find_empty
find_empty_lem s zero i j e = absurd (ground arith)
find_empty_lem s (suc left) i j e = ground (arith, find_empty_lem s left (i + 1) j)

module _ {F C : Type 0} {n size b : ℕ} {s : Inner F C} (st : Steady n size b s) (h : Held s b) where
  pub Kept-queue :
      {A : Type 0} (q : ComplexQueue) (r : Result A)
      → Queued s.io_resources q
      → Kept n size b s (record { state = set_queue s q; result = r })
  Kept-queue q r fits = record {
    steady = record {
      exists = st.exists;
      buckets = st.buckets;
      resources = st.resources;
      few = st.few;
      arenas = st.arenas;
      queued = fits;
      others = st.others;
    };
    same_futures = λ x. refl;
    same_resources = refl;
    same_streams = λ x. refl;
    same_occupied = λ c conn e. e;
    still_held = λ a e. record { own = h.own; some_job = h.some_job };
  }

  pub enqueue-Kept : (i : QueueIndex) → Kept n size b s (enqueue s i)
  unfolding enqueue
  enqueue-Kept i = go (initial_enqueue s.queue i) refl
    where
      go :
          (r : Result (ComplexQueue × Bool))
          → initial_enqueue s.queue i ≡ r
          → Kept n size b s
              (elim r [ ok (q, _) ↦ returns (set_queue s q) tt | panic p ↦ fails s p ])
      go (ok (q, _)) e =
          Kept-queue q (ok tt)
            (enqueue-Queued st.resources (omega (arith, st.exists)) s.queue i st.queued e)
      go (panic p) e = Kept-queue s.queue (panic p) st.queued

  -- A change of the memory alone.
  arenas-Kept :
      {A : Type 0} (a : ServerAlloc) (r : Result A)
      → IsReady n size a
      → Kept n size b s (record { state = record s { allocator = a }; result = r })
  arenas-Kept a r arenas = record {
    steady = record {
      exists = st.exists;
      buckets = st.buckets;
      resources = st.resources;
      few = st.few;
      arenas = arenas;
      queued = st.queued;
      others = st.others;
    };
    same_futures = λ x. refl;
    same_resources = refl;
    same_streams = λ x. refl;
    same_occupied = λ c conn e. e;
    still_held = λ a e. record { own = h.own; some_job = h.some_job };
  }

  pub allocate_in-Kept :
      (arena : ℕ) (l : Layout) (k : ℕ)
      → arena ≡ b
      → IsPower l k
      → Kept n size b s (allocate_in s arena l)
  unfolding allocate_in
  allocate_in-Kept arena l k own power =
      let (block, a) = try_allocate_in_bucket s.allocator l arena in
      let (_, arenas, _) =
        try_allocate_in_bucket-Allocates s.allocator l k arena n size power st.arenas
          (omega (arith, st.exists)) in
      go block a arenas
    where
      go :
          (block : Option ℕ) (a : ServerAlloc)
          → IsReady n size a
          → Kept {A = Unit {0}} n size b s (elim block [
            | some p ↦ returns (record s { allocator = a }) tt
            | none ↦ fails (record s { allocator = a }) memory_exhausted
          ])
      go (some p) a arenas = arenas-Kept a (ok tt) arenas
      go none a arenas = arenas-Kept a (panic memory_exhausted) arenas

  -- The count of the bucket is far below the end of a u8.
  pub count-lt : s.refcounts b < 255
  count-lt = omega (
    arith,
    h.own,
    st.few,
    alive-le-one (s.futures b),
    sum_below-le live live-le-one s.io_resources.http_connections
        (λ i. s.connections (b * s.io_resources.http_connections + i)),
  )

  counted_more : Inner F C
  counted_more = record s { refcounts = update s.refcounts b ((s.refcounts b + 1) % 2 ^ 8) }

  reserve_at-Kept :
      (place : Option ℕ)
      → ((j : ℕ)
          → place ≡ some j
          → (b * s.io_resources.http_connections ≤ j)
            × (j < b * s.io_resources.http_connections + s.io_resources.http_connections)
            × (s.connections j ≡ empty))
      → Kept n size b s (reserve_at counted_more place)
  unfolding reserve_at counted_more
  reserve_at-Kept none inside = record {
    steady = record {
      exists = st.exists;
      buckets = st.buckets;
      resources = st.resources;
      few = st.few;
      arenas = st.arenas;
      queued = st.queued;
      others = λ x lt ne. ground (arith, st.others x lt ne);
    };
    same_futures = λ x. refl;
    same_resources = refl;
    same_streams = λ x. refl;
    same_occupied = λ c conn e. e;
    still_held = λ a e. cc;
  }
  reserve_at-Kept (some j) inside = record {
    steady = record {
      exists = st.exists;
      buckets = st.buckets;
      resources = st.resources;
      few = st.few;
      arenas = st.arenas;
      queued = st.queued;
      others = λ x lt ne. ground (arith, st.others x lt ne, sum_other x (λ e. ne (sym e)));
    };
    same_futures = λ x. refl;
    same_resources = refl;
    same_streams = λ x. refl;
    same_occupied =
        λ c conn e. let was = (inside j refl).2 in ground (arith, ap live was, ap live e);
    still_held = λ a e. record {
      own = ground (arith, h.own, sum_own, count-lt, ap live (inside j refl).2);
      some_job = ground (arith, count-lt);
    };
  }
    where
      http : ℕ
      http = s.io_resources.http_connections

      split : b * http + (j - b * http) ≡ j
      split = omega (arith, inside j refl)

      offset_lt : j - b * http < http
      offset_lt = omega (arith, inside j refl)

      sum_other :
          (x : ℕ)
          → b ≢ x
          → live_connections http (update s.connections j reserved) x
            ≡ live_connections http s.connections x
      sum_other x ne =
          subst
            (λ k.
              live_connections http (update s.connections k reserved) x
              ≡ live_connections http s.connections x)
            split (live-update_other http s.connections b x (j - b * http) reserved ne offset_lt)

      sum_own :
          live_connections http (update s.connections j reserved) b + live (s.connections j)
          ≡ live_connections http s.connections b + 1
      sum_own =
          subst
            (λ k.
              live_connections http (update s.connections k reserved) b + live (s.connections k)
              ≡ live_connections http s.connections b + 1)
            split (live-update_own http s.connections b (j - b * http) reserved offset_lt)

  pub handshake_reserve-Kept :
      (x : BucketIndex) → x.index ≡ b → Kept n size b s (handshake_reserve s x)
  unfolding handshake_reserve counted_more
  handshake_reserve-Kept x e =
      let there : ltb x.index s.bucket_count ≡ true = ground (arith, st.exists, st.buckets) in
      let nonzero : (s.refcounts x.index == 0) ≡ false =
        ground (arith, h.some_job, ap s.refcounts e) in
      let range = http_connections_of-eq st.resources x (omega (arith, st.exists)) in
      let width : b * s.io_resources.http_connections
            + s.io_resources.http_connections
            - b * s.io_resources.http_connections
          ≡ s.io_resources.http_connections =
        omega arith in
      rw (there, nonzero, range, e, width)
        (reserve_at-Kept
          (find_empty counted_more s.io_resources.http_connections
            (b * s.io_resources.http_connections))
          (λ j found.
            find_empty_lem counted_more s.io_resources.http_connections
              (b * s.io_resources.http_connections) j found))
