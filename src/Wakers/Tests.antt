-- ===== src/Wakers/Tests.antt =====
-- Two buckets of three places; the task of the second connection of bucket 1 waits for its stream.
use nea.Base.{
  ℕ, ◌+◌, ◌*◌, ◌^◌, ◌<◌, ◌==◌, ◌≡◌, refl, arith, inl, inr, Bool-cases, true, false, none, some,
  List, [], ◌∷◌, ok, bit-lt, length, if◌then◌else◌,
}
use nea.Index.{IoResources, Fits, QueueIndex, to_usize, from_usize}
use nea.Queue.{ComplexQueue}
use nea.Reactor.{Direction, read, write, put, fresh, Source, Shared, Event}
use nea.Reactor.Events.{AllInside, any_hits}
use nea.Reactor.Waits.{Waits}
use nea.Wakers.{waker_for, reactor_turn}
use nea.Wakers.Turns.{IsQueue, IsWaker, Keeps, job_of, reactor_turn_lem}

abbrev resources : IoResources
resources = record { tcp_streams = 1; http_connections = 2 }

resources-Fits : Fits resources 2
resources-Fits = record {
  has_stream = omega arith;
  indices_fit = omega arith;
  few_buckets = omega arith;
}

abbrev queue : ComplexQueue
queue = record {
  capacity = 2;
  slot = λ b. record { flags = 0; jobs = 0 };
  jobs_in_queue = 0;
  io_resources = resources;
}

queue-IsQueue : IsQueue resources 2 queue
queue-IsQueue = record {
  queued = record {
    same_resources = refl;
    words = λ b. omega arith;
    inside = λ b k has. omega (arith, bit-lt 0 0 k (omega arith) has);
  };
  same_size = refl;
  flags_fit = λ b. omega arith;
}

abbrev place : QueueIndex
place = record { identifier = 9; index = 5 }

-- The word of `place`.
abbrev waker : ℕ
waker = 9 * 2 ^ 32 + 5

waker-IsWaker : IsWaker resources 2 waker
unfolding to_usize waker_for
waker-IsWaker = record {
  index = place;
  word = refl;
  identifier_fits = omega arith;
  inside = omega arith;
}

abbrev source : Source ℕ
source = record fresh { interest = put (λ _. none) read (some waker) }

abbrev sources : Shared ℕ
sources = record { capacity = 6; source = λ i. if i == 5 then some source else none; registry = [] }

source-Waits : Waits (IsWaker resources 2) (some source)
source-Waits read = waker-IsWaker
source-Waits write = tt

sources-Waits : (i : ℕ) → Waits (IsWaker resources 2) (sources.source i)
sources-Waits i = elim (Bool-cases (i == 5)) [
  | inl here ↦ rw here source-Waits
  | inr away ↦ rw away tt
]

abbrev events : List Event
events = record { token = waker; is_readable = true; is_writable = false } ∷ []

events-AllInside : AllInside 6 events
unfolding from_usize
events-AllInside = (omega arith, tt)

few_events : 0 + 2 * length events < 2 ^ 32
unfolding length
few_events = omega arith

reactor_turn_lem_example :
    (s' : Shared ℕ) × (q' : ComplexQueue) × (notified : ℕ) × (reactor_turn sources queue events
      ≡ ok (s', q', notified))
    × IsQueue resources 2 q'
    × Keeps queue q'
    × (q'.jobs_in_queue ≡ queue.jobs_in_queue + notified)
    × ((i : ℕ) (src : Source ℕ) (d : Direction) (w : ℕ)
        → sources.source i ≡ some src
        → src.interest d ≡ some w
        → any_hits i d events ≡ true
        → job_of resources q' w ≡ true)
reactor_turn_lem_example =
    reactor_turn_lem resources-Fits (omega arith) sources queue events events-AllInside
      sources-Waits queue-IsQueue few_events
