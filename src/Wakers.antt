-- ===== src/Wakers.antt =====
-- nea/src/executor.rs and nea/src/reactor.rs: the wakers of the executor, which the reactor keeps and
-- wakes. A waker is the word of its queue index; two are equal if they wake the same task.
pub mod Turns
mod Tests
use nea.Base.{ℕ, ◌+◌, ◌==◌, Bool, if◌then◌else◌, List, [], ◌∷◌, Result, ok, ◌>>=◌}
use nea.Index.{QueueIndex, to_usize, from_usize}
use nea.Queue.{ComplexQueue, wake}
use nea.Reactor.{Shared, Event, poll}

pub waker_for : QueueIndex → ℕ
waker_for i = to_usize i

pub wake_raw : ComplexQueue → ℕ → Result (ComplexQueue × Bool)
wake_raw q word = wake q (from_usize word)

-- All wakers of a list are woken in its order; the number says how many workers are notified.
pub wake_all : ComplexQueue → List ℕ → Result (ComplexQueue × ℕ)
wake_all q [] = ok (q, 0)
wake_all q (w ∷ wakers) = do
  (q', notified) ← wake_raw q w
  (q'', more) ← wake_all q' wakers
  ok (q'', (if notified then 1 else 0) + more)

-- One turn of the reactor on the events that mio returned.
pub reactor_turn : Shared ℕ → ComplexQueue → List Event → Result (Shared ℕ × ComplexQueue × ℕ)
reactor_turn s q events = do
  (s', wakers) ← poll s events
  (q', notified) ← wake_all q wakers
  ok (s', q', notified)

-- What a call of `poll` of mio returns: events, an interruption, or an error.
pub data MioPoll : Type 0 where
  events : List Event → MioPoll
  interrupted poll_error : MioPoll

abbrev pub polled : Shared ℕ → ComplexQueue → MioPoll → Result (Shared ℕ × ComplexQueue × ℕ)
polled s q (events es) = reactor_turn s q es
polled s q interrupted = ok (s, q, 0)
polled s q poll_error = ok (s, q, 0)

-- The loop of `run`, over what mio returns: an error ends the turn and not the loop.
unfoldable reactor_run :
    Shared ℕ → ComplexQueue → List MioPoll → Result (Shared ℕ × ComplexQueue × ℕ)
reactor_run s q [] = ok (s, q, 0)
reactor_run s q (answer ∷ answers) = do
  (s', q', notified) ← polled s q answer
  (s'', q'', more) ← reactor_run s' q' answers
  ok (s'', q'', notified + more)
