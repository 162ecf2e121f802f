-- ===== src/Wakers/Turns.antt =====
-- nea/src/executor.rs, nea/src/queue.rs and nea/src/reactor.rs: what an event does to the queue.
use mathlib.Core.List.Memᴰ
use mathlib.Core.List.Memᴰ.{Memᴰ}
use nea.Base.{
  ℕ, ◌+◌, ◌*◌, ◌/◌, ◌%◌, ◌^◌, ◌≤◌, ◌<◌, ◌==◌, ◌≡◌, ◌⊎◌, ◌||◌, inl, inr, refl, ap, sym, subst, ◌∙◌,
  arith, Bool, true, false, Bool-cases, Option, none, some, List, [], ◌∷◌, length, Result, ok,
  ◌>>=◌, if◌then◌else◌,
}
use native.Mathlib.Nat.{mod-lt}
use nea.Index.{QueueIndex, BucketIndex, IoResources, Fits, from_usize, per_bucket}
use nea.Index.Buckets.{width, per_bucket-eq, to_bucket_index-eq}
use nea.Index.Division.{div-lt}
use nea.Index.Words.{from_usize-to_usize}
use nea.Queue.{ComplexQueue, wake, initial_enqueue}
use nea.Queue.Slot.{QueueSlot}
use nea.Queue.Jobs.{has_job}
use nea.Queue.Bounds.{Queued, enqueue-Queued, enqueue-capacity}
use nea.Queue.Calls.{Woken, enqueue-Woken, enqueued_flags}
use nea.Reactor.{Shared, Direction, Source, Event}
use nea.Reactor.Events.{AllInside, any_hits, poll-Delivered, DeliveredAt}
use nea.Reactor.Waits.{AllWakers, Waits, poll-AllWaited, AllWaited}
use nea.Wakers.{waker_for, wake_raw, wake_all, reactor_turn}

-- The queue of `n` buckets that are not in the middle of a change.
pub record IsQueue (r : IoResources) (n : ℕ) (q : ComplexQueue) : Type 0 where
  pub queued : Queued r q
  pub same_size : q.capacity ≡ n
  pub flags_fit : (b : ℕ) → (q.slot b).flags < 4

-- The word of a queue index of the `n` buckets.
pub record IsWaker (r : IoResources) (n w : ℕ) : Type 0 where
  pub index : QueueIndex
  pub word : w ≡ waker_for index
  pub identifier_fits : index.identifier < 2 ^ 32
  pub inside : index.index < n * width r

-- The job of the task that a waker wakes.
abbrev pub job_of : IoResources → ComplexQueue → ℕ → Bool
job_of r q w = let i = from_usize w in has_job (q.slot (i.index / width r)) (i.index % width r)

-- A bucket that a worker finds, or goes back to: its slot is marked as enqueued.
abbrev pub IsEnqueued : ComplexQueue → ℕ → Type 0
IsEnqueued q b = (q.slot b).flags % 2 ≡ 1

-- No job is lost, no bucket leaves the queue, and the bucket of each job that is new in its word is
-- enqueued.
pub record Keeps (q q' : ComplexQueue) : Type 0 where
  pub jobs : (b k : ℕ) → has_job (q.slot b) k ≡ true → has_job (q'.slot b) k ≡ true
  pub stays : (b : ℕ) → IsEnqueued q b → IsEnqueued q' b
  pub fresh :
      (b k : ℕ) → has_job (q'.slot b) k ≡ true → (has_job (q.slot b) k ≡ true) ⊎ IsEnqueued q' b

positive : (n p i : ℕ) → i < n * p → 0 < n
positive n p i h = grind arith

Woken-flags :
    (q q' : ComplexQueue) (b k : ℕ) (notified : Bool)
    → Woken q b k q' notified
    → ((x : ℕ) → (q.slot x).flags < 4)
    → (x : ℕ) → (q'.slot x).flags < 4
Woken-flags q q' b k notified woken fit x = elim (Bool-cases (x == b)) [
  | inl here ↦ let same : x ≡ b = ground arith in ground (arith, woken.flags, fit b, same)
  | inr away ↦
      subst (λ (s : QueueSlot). s.flags < 4) (sym (woken.others x (λ e. absurd (ground arith))))
        (fit x)
]

-- The flags behind a wake are odd if they were, and if the job is new.
flags_odd :
    (had : Bool) (f f' : ℕ) → f' ≡ (if had then f else enqueued_flags f) → f % 2 ≡ 1 → f' % 2 ≡ 1
flags_odd true f f' e odd = omega arith
flags_odd false f f' e odd = omega arith

new_odd :
    (same had_i had_k : Bool) (f f' : ℕ)
    → (same ≡ true → had_i ≡ had_k)
    → (same || had_i) ≡ true
    → f' ≡ (if had_k then f else enqueued_flags f)
    → (had_i ≡ true) ⊎ (f' % 2 ≡ 1)
new_odd same true had_k f f' agree has e = inl refl
new_odd true false true f f' agree has e = inl (agree refl)
new_odd true false false f f' agree has e = inr (omega arith)
new_odd false false had_k f f' agree has e = absurd (ground arith)

Woken-Keeps :
    (q q' : ComplexQueue) (b k : ℕ) (notified : Bool) → Woken q b k q' notified → Keeps q q'
Woken-Keeps q q' b k notified woken = record {
  jobs = λ x i has. elim (Bool-cases (x == b)) [
    | inl here ↦
        let same : x ≡ b = ground arith in
        subst (λ z. has_job (q'.slot z) i ≡ true) (sym same)
          (ground (arith, woken.jobs i, subst (λ z. has_job (q.slot z) i ≡ true) same has))
    | inr away ↦
        subst (λ s. has_job s i ≡ true) (sym (woken.others x (λ e. absurd (ground arith)))) has
  ];
  stays = λ x odd. elim (Bool-cases (x == b)) [
    | inl here ↦
        let same : x ≡ b = ground arith in
        subst (λ z. IsEnqueued q' z) (sym same)
          (flags_odd (has_job (q.slot b) k) (q.slot b).flags (q'.slot b).flags woken.flags
            (subst (λ z. IsEnqueued q z) same odd))
    | inr away ↦
        subst (λ (s : QueueSlot). s.flags % 2 ≡ 1)
          (sym (woken.others x (λ e. absurd (ground arith)))) odd
  ];
  fresh = λ x i has. elim (Bool-cases (x == b)) [
    | inl here ↦
        let same : x ≡ b = ground arith in
        subst (λ z. (has_job (q.slot z) i ≡ true) ⊎ IsEnqueued q' z) (sym same)
          (new_odd (i == k) (has_job (q.slot b) i) (has_job (q.slot b) k) (q.slot b).flags
            (q'.slot b).flags (λ e. let j : i ≡ k = ground arith in ap (has_job (q.slot b)) j)
            (sym (woken.jobs i) ∙ subst (λ z. has_job (q'.slot z) i ≡ true) same has) woken.flags)
    | inr away ↦
        inl (subst (λ s. has_job s i ≡ true) (woken.others x (λ e. absurd (ground arith))) has)
  ];
}

module _ {r : IoResources} {n : ℕ} (f : Fits r n) (narrow : width r ≤ 64) where
  wake_raw_lem :
      (q : ComplexQueue) (w : ℕ)
      → IsQueue r n q
      → IsWaker r n w
      → q.jobs_in_queue + 1 < 2 ^ 32
      → (q' : ComplexQueue) × (notified : Bool) × (wake_raw q w ≡ ok (q', notified))
        × IsQueue r n q'
        × Keeps q q'
        × (job_of r q' w ≡ true)
        × (q'.jobs_in_queue ≡ q.jobs_in_queue + (if notified then 1 else 0))
  unfolding wake_raw waker_for wake
  wake_raw_lem q w ready h room =
      let i = h.index in
      let pos : 0 < n = positive n (width r) i.index h.inside in
      let k_lt : i.index % width r < width r =
        mod-lt i.index {m = width r} (omega (arith, f.has_stream)) in
      let wide : per_bucket q.io_resources ≡ width r =
        ap per_bucket ready.queued.same_resources ∙ per_bucket-eq f pos in
      let b_lt : i.index / width r < n =
        div-lt i.index n (width r) h.inside (omega (arith, f.has_stream)) in
      let back : from_usize w ≡ i =
        ap from_usize h.word
        ∙ (from_usize-to_usize i h.identifier_fits (omega (arith, h.inside, f.indices_fit))).0 in
      let bucket : BucketIndex = record { identifier = i.identifier; index = i.index / width r } in
      let (q', notified, e, woken) =
        enqueue-Woken q i bucket (i.index % width r)
          (rw (ready.queued.same_resources) (to_bucket_index-eq f i h.inside))
          (omega (arith, ready.same_size)) (rw wide refl) (ready.flags_fit bucket.index)
          (ready.queued.words bucket.index) (omega arith) room in
      (
        q',
        notified,
        ap (initial_enqueue q) back ∙ e,
        record {
          queued = enqueue-Queued f pos q i ready.queued e;
          same_size = enqueue-capacity q i e ∙ ready.same_size;
          flags_fit =
              Woken-flags q q' bucket.index (i.index % width r) notified woken ready.flags_fit;
        },
        Woken-Keeps q q' bucket.index (i.index % width r) notified woken,
        subst (λ (j : QueueIndex). has_job (q'.slot (j.index / width r)) (j.index % width r) ≡ true)
            (sym back) (ground (arith, woken.jobs (i.index % width r))),
        ground (arith, woken.count),
      )

  Keeps-then : {q1 q2 q3 : ComplexQueue} → Keeps q1 q2 → Keeps q2 q3 → Keeps q1 q3
  Keeps-then a b = record {
    jobs = λ x k has. b.jobs x k (a.jobs x k has);
    stays = λ x odd. b.stays x (a.stays x odd);
    fresh = λ x k has. elim (b.fresh x k has) [
      | inr odd ↦ inr odd
      | inl before ↦ elim (a.fresh x k before) [ inl old ↦ inl old | inr odd ↦ inr (b.stays x odd) ]
    ];
  }

  Keeps-refl : (q : ComplexQueue) → Keeps q q
  Keeps-refl q = record { jobs = λ b k has. has; stays = λ b odd. odd; fresh = λ b k has. inl has }

  at_most_one : (notified : Bool) → (if notified then 1 else 0) ≤ 1
  at_most_one notified = ground arith

  wake_all_lem :
      (q : ComplexQueue) (ws : List ℕ)
      → IsQueue r n q
      → AllWakers (IsWaker r n) ws
      → q.jobs_in_queue + length ws < 2 ^ 32
      → (q' : ComplexQueue) × (notified : ℕ) × (wake_all q ws ≡ ok (q', notified))
        × IsQueue r n q'
        × Keeps q q'
        × (q'.jobs_in_queue ≡ q.jobs_in_queue + notified)
        × ((w : ℕ) → Memᴰ w ws → job_of r q' w ≡ true)
  unfolding wake_all length
  wake_all_lem q [] ready all room =
      (q, 0, refl, ready, Keeps-refl q, omega arith, λ w mem. absurd (Memᴰ.not-nil mem))
  wake_all_lem q (w ∷ ws) ready (h, all) room =
      let (q1, one, e1, ready1, keeps1, job1, count1) = wake_raw_lem q w ready h (omega arith) in
      let (q2, more, e2, ready2, keeps2, count2, jobs2) =
        wake_all_lem q1 ws ready1 all (omega (arith, room, count1, at_most_one one)) in
      (
        q2,
        (if one then 1 else 0) + more,
        ap
              (λ (x : Result (ComplexQueue × Bool)).
                x >>= λ p. wake_all p.0 ws >>= λ z. ok (z.0, (if p.1 then 1 else 0) + z.1))
              e1
            ∙ ap
                (λ (x : Result (ComplexQueue × ℕ)).
                  x >>= λ z. ok (z.0, (if one then 1 else 0) + z.1))
                e2,
        ready2,
        Keeps-then keeps1 keeps2,
        omega (arith, count1, count2),
        λ v mem. elim (Memᴰ.cases_cons mem) [
          | inl here ↦
              subst (λ x. job_of r q2 x ≡ true) (sym here)
                (keeps2.jobs ((from_usize w).index / width r) ((from_usize w).index % width r) job1)
          | inr later ↦ jobs2 v later
        ],
      )

  delivered :
      (src : Source ℕ) (d : Direction) (w : ℕ) (hits : Direction → Bool)
      (old now : Option (Source ℕ)) (wakers : List ℕ)
      → old ≡ some src
      → src.interest d ≡ some w
      → hits d ≡ true
      → DeliveredAt hits old now wakers
      → Memᴰ w wakers
  delivered src d w hits none now wakers e waits hit at = absurd (ground arith)
  delivered src d w hits (some old) now wakers e waits hit (src', e', at) =
      let same : old ≡ src = ground arith in
      (at d).wakes w (ap (λ (o : Source ℕ). o.interest d) same ∙ waits) hit

  -- Buckets whose indices fit, with at most 64 places each; a queue with words in range, which
  -- holds offsets of a bucket alone; sources where only wakers of places of these buckets wait;
  -- events with tokens of the table, and a count that stays below the end of u32 if each of them
  -- wakes two tasks. Then a turn of the reactor, with the wakes that it makes, returns; the queue
  -- is as described; no job is taken out of a word and no bucket out of the queue; each bucket with
  -- a job that was not in its word before is enqueued; the count grows by one for each worker that
  -- is notified; and if a source has a waiter in a direction and some event is for both, the job of
  -- the waiting task is in the word of its bucket. If it was there already, the turn need not
  -- enqueue the bucket.
  pub reactor_turn_lem :
      (s : Shared ℕ) (q : ComplexQueue) (events : List Event)
      → AllInside s.capacity events
      → ((i : ℕ) → Waits (IsWaker r n) (s.source i))
      → IsQueue r n q
      → q.jobs_in_queue + 2 * length events < 2 ^ 32
      → (s' : Shared ℕ) × (q' : ComplexQueue) × (notified : ℕ) × (reactor_turn s q events
          ≡ ok (s', q', notified))
        × IsQueue r n q'
        × Keeps q q'
        × (q'.jobs_in_queue ≡ q.jobs_in_queue + notified)
        × ((i : ℕ) (src : Source ℕ) (d : Direction) (w : ℕ)
            → s.source i ≡ some src
            → src.interest d ≡ some w
            → any_hits i d events ≡ true
            → job_of r q' w ≡ true)
  unfolding reactor_turn
  reactor_turn_lem s q events inside waits ready room =
      let (s', wakers, e, _, at) = poll-Delivered s events inside in
      let (all, few) =
        subst (AllWaited (IsWaker r n) (length events)) e
          (poll-AllWaited (IsWaker r n) s events waits) in
      let (q', notified, e', ready', keeps, count, woken) =
        wake_all_lem q wakers ready all (omega arith) in
      (
        s',
        q',
        notified,
        ap
              (λ (x : Result (Shared ℕ × List ℕ)).
                x >>= λ p. wake_all q p.1 >>= λ z. ok (p.0, z.0, z.1))
              e
            ∙ ap (λ (x : Result (ComplexQueue × ℕ)). x >>= λ z. ok (s', z.0, z.1)) e',
        ready',
        keeps,
        count,
        λ i src d w here waiting hit. woken w (
            delivered src d w (λ x. any_hits i x events) (s.source i) (s'.source i) wakers here
              waiting hit (at i)),
      )
