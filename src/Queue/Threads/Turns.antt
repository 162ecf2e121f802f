-- ===== src/Queue/Threads/Turns.antt =====
-- The invariant, turn by turn.
use nea.Base.{
  ℕ, ◌+◌, ◌-◌, ◌*◌, ◌/◌, ◌%◌, ◌^◌, ◌<◌, ◌==◌, ltb, ◌≡◌, refl, arith, inl, inr, Bool, true, false,
  not, ◌&&◌, if◌then◌else◌, update, bit_and, bit_or, ok, Bool-cases, Option-cases,
}
use nea.Index.{IoResources, Fits, QueueIndex, per_bucket, to_bucket_index}
use nea.Index.Buckets.{width, to_bucket_index-eq}
use nea.Index.Division.{div-lt}
use nea.Queue.{ComplexQueue}
use nea.Queue.Slot.{
  mask, QueueSlot, next_job, remove_job, try_process, add_job, leave_again, leave_clear,
}
use nea.Queue.Flags.{mark_enqueued_lem}
use nea.Queue.Threads.{
  Round, first, second, Pc, idle, increment, mark, revert, waiting, scan, claimed, run, take, poll,
  leave, clear, panicked, turn, Choice, wakes, works, again, forever,
}
use nea.Queue.Threads.Invariant.{Local, IsValid, Inv}
use nea.Queue.Threads.Moves.{
  move_on, write_slot, count-le, own_facts, count-pos, in_progress, go_to,
}

Local-if :
    (x : Bool) (n b : ℕ) (slot : ℕ → QueueSlot)
    → b < n
    → Local n slot (if x then idle else revert b)
Local-if true n b slot h = tt
Local-if false n b slot h = h

module _ {threads n : ℕ} {r : IoResources} {q : ComplexQueue} {pc : ℕ → Pc}
    (inv : Inv threads n r q pc) (t : ℕ) (lt : t < threads) where
  open inv use {buckets, resources, few, two_flags, counted, held, known}

  abbrev After : Pc → Choice → Type 0
  After p c = Inv threads n r (turn q p c).0 (update pc t (turn q p c).1)

  After-increment : (b : ℕ) (c : Choice) → pc t ≡ increment b → After (increment b) c
  unfolding turn
  After-increment b c here =
      let room : ltb (q.jobs_in_queue + 1) (2 ^ 32) ≡ true = ground (arith, count-le inv t lt) in
      rw room (
        move_on inv t lt (increment b) (mark b) (q.jobs_in_queue + 1) here (omega arith) (λ x. refl)
          (own_facts inv t lt (increment b) here))

  After-revert : (b : ℕ) (c : Choice) → pc t ≡ revert b → After (revert b) c
  unfolding turn
  After-revert b c here =
      let pos : (q.jobs_in_queue == 0) ≡ false = count-pos inv t lt (revert b) here refl in
      rw pos
        (move_on inv t lt (revert b) idle (q.jobs_in_queue - 1) here (ground arith) (λ x. refl) tt)

  After-claimed : (b : ℕ) (c : Choice) → pc t ≡ claimed b → After (claimed b) c
  unfolding turn
  After-claimed b c here =
      let pos : (q.jobs_in_queue == 0) ≡ false = count-pos inv t lt (claimed b) here refl in
      rw pos (
        move_on inv t lt (claimed b) (run b) (q.jobs_in_queue - 1) here (ground arith) (λ x. refl)
          (own_facts inv t lt (claimed b) here))

  After-waiting : (c : Choice) → pc t ≡ waiting → After waiting c
  unfolding turn
  After-waiting c here = elim (Bool-cases (q.jobs_in_queue == 0)) [
    | inl e ↦ rw e (go_to inv t lt waiting waiting here refl (λ x. refl) tt)
    | inr e ↦ rw e (go_to inv t lt waiting (scan 0) here refl (λ x. refl) tt)
  ]

  After-run : (b : ℕ) (c : Choice) → pc t ≡ run b → After (run b) c
  unfolding turn
  After-run b c here = elim (Option-cases (next_job (q.slot b))) [
    | inl e ↦ rw e (
        go_to inv t lt (run b) (leave b first) here refl (λ x. refl)
          (own_facts inv t lt (run b) here))
    | inr (job, e) ↦ rw e (
        go_to inv t lt (run b) (take b job) here refl (λ x. refl) (own_facts inv t lt (run b) here))
  ]

  After-polled : (b job : ℕ) (c : Choice) → pc t ≡ poll b job → After (poll b job) c
  unfolding turn
  After-polled b job again here =
      go_to inv t lt (poll b job) (run b) here refl (λ x. refl)
        (own_facts inv t lt (poll b job) here)
  After-polled b job forever here =
      go_to inv t lt (poll b job) (leave b first) here refl (λ x. refl)
        (own_facts inv t lt (poll b job) here)
  After-polled b job works here =
      go_to inv t lt (poll b job) (poll b job) here refl (λ x. refl)
        (own_facts inv t lt (poll b job) here)
  After-polled b job (wakes i) here =
      go_to inv t lt (poll b job) (poll b job) here refl (λ x. refl)
        (own_facts inv t lt (poll b job) here)

  After-take : (b job : ℕ) (c : Choice) → pc t ≡ take b job → After (take b job) c
  unfolding turn remove_job
  After-take b job c here =
      write_slot inv t lt (take b job) (poll b job) b (remove_job job (q.slot b)) here
        (own_facts inv t lt (take b job) here) (two_flags b) refl (λ x. refl) (λ e. inl e)
        (own_facts inv t lt (take b job) here)

  After-mark : (b : ℕ) (c : Choice) → pc t ≡ mark b → After (mark b) c
  unfolding turn
  After-mark b c here =
      let small : (q.slot b).flags < 4 = two_flags b in
      let next =
        if not ((q.slot b).flags % 2 == 1) && not ((q.slot b).flags / 2 == 1)
        then idle
        else revert b in
      rw (mark_enqueued_lem (q.slot b) small) (
        write_slot inv t lt (mark b) next b
          (record { flags = (q.slot b).flags / 2 * 2 + 1; jobs = (q.slot b).jobs }) here
          (own_facts inv t lt (mark b) here) (omega arith) (ground arith) (λ x. ground arith)
          (λ e. inl (omega arith))
          (Local-if (not ((q.slot b).flags % 2 == 1) && not ((q.slot b).flags / 2 == 1)) q.capacity
            b
            (update q.slot b
              (record { flags = (q.slot b).flags / 2 * 2 + 1; jobs = (q.slot b).jobs }))
            (own_facts inv t lt (mark b) here)))

  After-scan : (i : ℕ) (c : Choice) → pc t ≡ scan i → After (scan i) c
  unfolding turn try_process
  After-scan i c here = elim (Bool-cases (ltb i q.capacity)) [
    | inr end ↦ rw end (go_to inv t lt (scan i) waiting here refl (λ x. refl) tt)
    | inl more ↦ elim (Bool-cases ((q.slot i).flags == 1)) [
      | inr other ↦
          rw (more, other) (go_to inv t lt (scan i) (scan (i + 1)) here refl (λ x. refl) tt)
      | inl won ↦
          rw (more, won)
            (write_slot inv t lt (scan i) (claimed i) i (record (q.slot i) { flags = 2 }) here
              (ground arith) (omega arith) (ground arith) (λ x. ground arith) (λ e. ground arith)
              (ground arith))
    ]
  ]

  After-leave : (b : ℕ) (d : Round) (c : Choice) → pc t ≡ leave b d → After (leave b d) c
  unfolding turn leave_again
  After-leave b d c here = elim (Bool-cases ((q.slot b).flags == 3)) [
    | inl won ↦ rw won (
        write_slot inv t lt (leave b d) (run b) b (record (q.slot b) { flags = 2 }) here
          (exists d here) (omega arith) (ground arith) (λ x. ground arith) (λ e. inr (ground arith))
          (exists d here))
    | inr lost ↦
        let only : ((q.slot b).flags == 2) ≡ true =
          ground (arith, in_progress inv t lt (leave b d) b here, two_flags b) in
        rw (lost, only) (give_up d here lost)
  ]
    where
      exists : (d : Round) → pc t ≡ leave b d → b < q.capacity
      exists first e = own_facts inv t lt (leave b first) e
      exists second e = (own_facts inv t lt (leave b second) e).0

      give_up :
          (d : Round)
          → pc t ≡ leave b d
          → ((q.slot b).flags == 3) ≡ false
          → Inv threads n r q (update pc t (clear b d))
      give_up first e lost =
          go_to inv t lt (leave b first) (clear b first) e refl (λ x. refl) (exists first e)
      give_up second e lost = absurd (ground (arith, own_facts inv t lt (leave b second) e))

  After-clear : (b : ℕ) (d : Round) (c : Choice) → pc t ≡ clear b d → After (clear b d) c
  unfolding turn leave_clear
  After-clear b first c here = elim (Bool-cases ((q.slot b).flags == 2)) [
    | inl won ↦ rw won (
        write_slot inv t lt (clear b first) waiting b (record (q.slot b) { flags = 0 }) here
          (own_facts inv t lt (clear b first) here) (omega arith) (ground arith) (λ x. ground arith)
          (λ e. ground arith) tt)
    | inr lost ↦ rw lost (
        go_to inv t lt (clear b first) (leave b second) here refl (λ x. refl)
          (
            own_facts inv t lt (clear b first) here,
            ground (arith, in_progress inv t lt (clear b first) b here, two_flags b),
          ))
  ]
  After-clear b second c here = absurd (own_facts inv t lt (clear b second) here)

  -- A wake of an index of an existing bucket.
  After-wake :
      Fits r n → (i : QueueIndex) → i.index < n * width r → pc t ≡ idle → After idle (wakes i)
  unfolding turn add_job
  After-wake f i h here =
      let b = i.index / width r in
      let b_lt : b < n = div-lt i.index n (width r) h (ground (arith, f)) in
      let exists : ltb b q.capacity ≡ true = ground arith in
      let e : to_bucket_index q.io_resources i
          ≡ ok (record { identifier = i.identifier; index = b }) =
        rw resources (to_bucket_index-eq f i h) in
      let m = mask (i.index % per_bucket q.io_resources) in
      let s : QueueSlot = record { flags = (q.slot b).flags; jobs = bit_or (q.slot b).jobs m } in
      rw (e, exists)
        (elim (Bool-cases (bit_and (q.slot b).jobs m == 0)) [
          | inl new ↦ rw new (
              write_slot inv t lt idle (increment b) b s here (ground arith) (two_flags b) refl
                (λ x. refl) (λ e. inl e) (ground arith))
          | inr old ↦ rw old (
              write_slot inv t lt idle idle b s here (ground arith) (two_flags b) refl (λ x. refl)
                (λ e. inl e) tt)
        ])

  After-works : pc t ≡ idle → After idle works
  unfolding turn
  After-works here = go_to inv t lt idle waiting here refl (λ x. refl) tt

  After-again : pc t ≡ idle → After idle again
  unfolding turn
  After-again here = go_to inv t lt idle idle here refl (λ x. refl) tt

  After-forever : pc t ≡ idle → After idle forever
  unfolding turn
  After-forever here = go_to inv t lt idle idle here refl (λ x. refl) tt

  -- Every turn of a thread keeps the invariant, if it wakes no index but of an existing bucket.
  pub turn-Inv : Fits r n → (p : Pc) (c : Choice) → IsValid r n c → pc t ≡ p → After p c
  turn-Inv f idle (wakes i) h here = After-wake f i h here
  turn-Inv f idle works h here = After-works here
  turn-Inv f idle again h here = After-again here
  turn-Inv f idle forever h here = After-forever here
  turn-Inv f (increment b) c h here = After-increment b c here
  turn-Inv f (mark b) c h here = After-mark b c here
  turn-Inv f (revert b) c h here = After-revert b c here
  turn-Inv f waiting c h here = After-waiting c here
  turn-Inv f (scan i) c h here = After-scan i c here
  turn-Inv f (claimed b) c h here = After-claimed b c here
  turn-Inv f (run b) c h here = After-run b c here
  turn-Inv f (take b job) c h here = After-take b job c here
  turn-Inv f (poll b job) c h here = After-polled b job c here
  turn-Inv f (leave b d) c h here = After-leave b d c here
  turn-Inv f (clear b d) c h here = After-clear b d c here
  turn-Inv f (panicked p) c h here = absurd (own_facts inv t lt (panicked p) here)
