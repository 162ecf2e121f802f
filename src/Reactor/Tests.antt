-- ===== src/Reactor/Tests.antt =====
-- A table of four sources, of which the third is registered; a waker is the number of its task.
use mathlib.Core.List.Memᴰ.{Memᴰ}
use nea.Base.{
  ◌≢◌, ℕ, zero, suc, ◌==◌, ◌≡◌, ◌⊎◌, refl, arith, true, false, none, some, List, [], ◌∷◌, ok,
  if◌then◌else◌,
}
use nea.Reactor.Polls.{Polled, poll_io-Polled}
use nea.Index.{QueueIndex, from_usize}
use nea.Reactor.{
  Poll, read, put, Source, fresh, Shared, set_source, IoResult, would_block, value, pending, ready,
  Event, keep, poll_ready, round_on, io_round, poll_io, poll,
}
use nea.Reactor.Events.{any_hits, AllInside}
use nea.Reactor.Between.{Ends, interleaved, interleaved-Ends}
use nea.Reactor.Readiness.{no_lost_readiness}

abbrev table : Shared ℕ
table = record { capacity = 4; source = λ i. if i == 2 then some fresh else none; registry = [] }

abbrev third : QueueIndex
third = record { identifier = 0; index = 2 }

abbrev blocked : ℕ → IoResult ℕ
blocked k = would_block

-- Ten bytes, and then no more.
abbrev ten_bytes : ℕ → IoResult ℕ
ten_bytes zero = value 10
ten_bytes (suc k) = would_block

abbrev asked : Source ℕ
asked = record fresh { interest = put (λ _. none) read (some 5) }

abbrev readable : List Event
readable = record { token = 2; is_readable = true; is_writable = false } ∷ []

first_poll : poll_io 2 ◌==◌ table 2 read 5 blocked ≡ (set_source table 2 (some asked), some pending)
unfolding poll_io io_round round_on poll_ready keep
first_poll = refl

readable-AllInside : AllInside 4 readable
unfolding from_usize
readable-AllInside = (omega arith, tt)

hit : any_hits 2 read readable ≡ true
unfolding from_usize
hit = refl

no_lost_readiness_example :
    (s2 : Shared ℕ) × (wakers : List ℕ) × (waker : ℕ) × (s3 : Shared ℕ) × (poll
        (set_source table 2 (some asked))
        readable
      ≡ ok (s2, wakers))
    × ((waker ≡ 5) ⊎ ((waker == 5) ≡ true))
    × Memᴰ waker wakers
    × (poll_io 2 ◌==◌ s2 2 read 5 ten_bytes ≡ (s3, some (ready 10)))
no_lost_readiness_example =
    no_lost_readiness ◌==◌ table (set_source table 2 (some asked)) 2 read 5 5 blocked ten_bytes
      asked readable 10 first_poll refl readable-AllInside hit refl

-- A source that is ready, but whose socket has nothing, and one event between two rounds.
abbrev hot_table : Shared ℕ
hot_table = record table {
  source =
      λ i. if i == 2 then some (record fresh { triggered = put (λ _. false) read true }) else none;
}

interleaved-Ends_example :
    Ends ◌==◌ 2 read 5
      (hot_table.source 2)
      (readable ∷ [])
      blocked
      (interleaved ◌==◌ 2 read 5 (readable ∷ []) hot_table blocked)
interleaved-Ends_example =
    interleaved-Ends ◌==◌ 2 read 5 (readable ∷ []) hot_table blocked (readable-AllInside, tt)

poll_io-Polled_example :
    (s' : Shared ℕ) × (p : Poll ℕ) × (poll_io 2 ◌==◌ table 2 read 5 ten_bytes ≡ (s', some p))
    × Polled ◌==◌ (table.source 2) read 5 (ten_bytes 0) p (s'.source 2)
    × ((x : ℕ) → x ≢ 2 → s'.source x ≡ table.source x)
poll_io-Polled_example = poll_io-Polled ◌==◌ table 2 read 5 ten_bytes
