-- ===== src/Queue/Threads/Wakeups.antt =====
-- nea/src/queue.rs: who attends to the buckets that have jobs, turn by turn.
use nea.Base.{
  ℕ, ◌+◌, ◌-◌, ◌*◌, ◌/◌, ◌%◌, ◌^◌, ◌<◌, ◌==◌, ◌≡◌, ◌≢◌, ltb, refl, ap, arith, true, false, not,
  ◌&&◌, sum_below, sum_below-update, update, bit_and, bit_and-le, if◌then◌else◌, ok,
}
use nea.Index.{IoResources, Fits, QueueIndex, to_bucket_index, per_bucket}
use nea.Index.Buckets.{width, to_bucket_index-eq}
use nea.Queue.{ComplexQueue}
use nea.Queue.Slot.{mask, next_job, remove_job, try_process, add_job, leave_again, leave_clear}
use nea.Queue.Flags.{mark_enqueued_lem}
use nea.Queue.Threads.{
  Round, Pc, idle, increment, mark, revert, waiting, scan, claimed, run, take, poll, leave, clear,
  panicked, turn, Choice, wakes, works, again, forever,
}
use nea.Queue.Threads.Invariant.{Inv, IsValid, same}
use nea.Index.Division.{div-lt}
use nea.Queue.Threads.Moves.{count-le, count-pos, own_facts}

-- A thread that will yet put bucket `x` into the queue, or look at its jobs once more.
abbrev pub attends : ℕ → Pc → ℕ
attends x idle = 0
attends x (increment b) = same b x
attends x (mark b) = same b x
attends x (claimed b) = same b x
attends x (run b) = same b x
attends x (take b job) = same b x
attends x (poll b job) = same b x
attends x _ = 0

-- A bucket with jobs is enqueued, or a thread attends to it.
abbrev pub Remembered : ℕ → ComplexQueue → (ℕ → Pc) → Type 0
Remembered threads q pc =
    (x : ℕ) → 0 < (q.slot x).jobs → 0 < (q.slot x).flags % 2 + sum_below (attends x) threads pc

module _ {threads n : ℕ} {r : IoResources} {q : ComplexQueue} {pc : ℕ → Pc}
    (inv : Inv threads n r q pc) (old : Remembered threads q pc) (t : ℕ) (lt : t < threads) where
  open inv use {two_flags}

  abbrev Then : Pc → Choice → Type 0
  Then p c = Remembered threads (turn q p c).0 (update pc t (turn q p c).1)

  -- The sum after thread `t` has gone from `p` to `p'`.
  attended :
      (p p' : Pc) (x : ℕ)
      → pc t ≡ p
      → sum_below (attends x) threads (update pc t p') + attends x p
        ≡ sum_below (attends x) threads pc + attends x p'
  attended p p' x here =
      ground (arith, sum_below-update (attends x) threads pc t p' lt, ap (attends x) here)

  Then-increment : (b : ℕ) (c : Choice) → pc t ≡ increment b → Then (increment b) c
  unfolding turn
  Then-increment b c here =
      let room : ltb (q.jobs_in_queue + 1) (2 ^ 32) ≡ true =
        ground (arith, count-le inv t lt, inv.few) in
      rw room (λ x jobs. ground (arith, old x, attended (increment b) (mark b) x here))

  Then-mark : (b : ℕ) (c : Choice) → pc t ≡ mark b → Then (mark b) c
  unfolding turn
  Then-mark b c here = rw (mark_enqueued_lem (q.slot b) (two_flags b)) (λ x jobs. ground (
    arith,
    old x,
    attended (mark b)
        (if not ((q.slot b).flags % 2 == 1) && not ((q.slot b).flags / 2 == 1)
          then idle
          else revert b)
        x here,
  ))

  Then-revert : (b : ℕ) (c : Choice) → pc t ≡ revert b → Then (revert b) c
  unfolding turn
  Then-revert b c here x jobs =
      ground (arith, old x, attended (revert b) (turn q (revert b) c).1 x here)

  Then-waiting : (c : Choice) → pc t ≡ waiting → Then (waiting) c
  unfolding turn
  Then-waiting c here x jobs =
      ground (arith, old x, attended (waiting) (turn q (waiting) c).1 x here)

  Then-scan : (i : ℕ) (c : Choice) → pc t ≡ scan i → Then (scan i) c
  unfolding turn try_process
  Then-scan i c here x jobs = ground (arith, old x, attended (scan i) (turn q (scan i) c).1 x here)

  Then-claimed : (b : ℕ) (c : Choice) → pc t ≡ claimed b → Then (claimed b) c
  unfolding turn
  Then-claimed b c here =
      let pos : (q.jobs_in_queue == 0) ≡ false = count-pos inv t lt (claimed b) here refl in
      rw pos (λ x jobs. ground (arith, old x, attended (claimed b) (run b) x here))

  Then-run : (b : ℕ) (c : Choice) → pc t ≡ run b → Then (run b) c
  unfolding turn next_job
  Then-run b c here x jobs = ground (arith, old x, attended (run b) (turn q (run b) c).1 x here)

  Then-take : (b : ℕ) (job : ℕ) (c : Choice) → pc t ≡ take b job → Then (take b job) c
  unfolding turn remove_job
  Then-take b job c here x jobs = ground (
    arith,
    old x,
    attended (take b job) (turn q (take b job) c).1 x here,
    bit_and-le (q.slot b).jobs (2 ^ 64 - 1 - mask job),
  )

  Then-leave : (b : ℕ) (d : Round) (c : Choice) → pc t ≡ leave b d → Then (leave b d) c
  unfolding turn leave_again
  Then-leave b d c here x jobs =
      ground (arith, old x, attended (leave b d) (turn q (leave b d) c).1 x here)

  Then-clear : (b : ℕ) (d : Round) (c : Choice) → pc t ≡ clear b d → Then (clear b d) c
  unfolding turn leave_clear
  Then-clear b d c here x jobs =
      ground (arith, old x, attended (clear b d) (turn q (clear b d) c).1 x here)

  Then-polled : (b job : ℕ) (c : Choice) → c ≢ forever → pc t ≡ poll b job → Then (poll b job) c
  unfolding turn
  Then-polled b job again ne here x jobs =
      ground (arith, old x, attended (poll b job) (run b) x here)
  Then-polled b job forever ne here x jobs = absurd (ne refl)
  Then-polled b job works ne here x jobs =
      ground (arith, old x, attended (poll b job) (poll b job) x here)
  Then-polled b job (wakes i) ne here x jobs =
      ground (arith, old x, attended (poll b job) (poll b job) x here)

  Then-wake :
      Fits r n → (i : QueueIndex) → i.index < n * width r → pc t ≡ idle → Then idle (wakes i)
  unfolding turn add_job
  Then-wake f i h here =
      let b = i.index / width r in
      let b_lt : b < n = div-lt i.index n (width r) h (ground (arith, f)) in
      let exists : ltb b q.capacity ≡ true = ground (arith, inv.buckets) in
      let e : to_bucket_index q.io_resources i
          ≡ ok (record { identifier = i.identifier; index = b }) =
        rw inv.resources (to_bucket_index-eq f i h) in
      let m = mask (i.index % per_bucket q.io_resources) in
      rw (e, exists)
        (λ x jobs. ground (
          arith,
          old x,
          old b,
          bit_and-le (q.slot b).jobs m,
          attended idle (if bit_and (q.slot b).jobs m == 0 then increment b else idle) x here,
        ))

  Then-idle : (c : Choice) → (p : Pc) → pc t ≡ idle → (turn q idle c ≡ (q, p)) → Then idle c
  Then-idle c p here e = rw e (λ x jobs. ground (arith, old x, attended idle p x here))

  pub turn-Remembered :
      Fits r n → (p : Pc) (c : Choice) → IsValid r n c → c ≢ forever → pc t ≡ p → Then p c
  unfolding turn
  turn-Remembered f idle (wakes i) h ne here = Then-wake f i h here
  turn-Remembered f idle works h ne here = Then-idle works waiting here refl
  turn-Remembered f idle again h ne here = Then-idle again idle here refl
  turn-Remembered f idle forever h ne here = Then-idle forever idle here refl
  turn-Remembered f (increment b) c h ne here = Then-increment b c here
  turn-Remembered f (mark b) c h ne here = Then-mark b c here
  turn-Remembered f (revert b) c h ne here = Then-revert b c here
  turn-Remembered f waiting c h ne here = Then-waiting c here
  turn-Remembered f (scan i) c h ne here = Then-scan i c here
  turn-Remembered f (claimed b) c h ne here = Then-claimed b c here
  turn-Remembered f (run b) c h ne here = Then-run b c here
  turn-Remembered f (take b job) c h ne here = Then-take b job c here
  turn-Remembered f (poll b job) c h ne here = Then-polled b job c ne here
  turn-Remembered f (leave b d) c h ne here = Then-leave b d c here
  turn-Remembered f (clear b d) c h ne here = Then-clear b d c here
  turn-Remembered f (panicked p) c h ne here = absurd (own_facts inv t lt (panicked p) here)
