-- ===== src/Reactor.antt =====
-- nea/src/reactor.rs: the table of sources, one for each queue index, that says which of them are
-- ready and who waits for them. A worker polls a source, and the reactor thread hands on the events
-- of mio; both hold the lock of the source meanwhile, so that a round of a poll is one step, and so
-- is an event. A waker is of any type, with the test `will_wake` of the standard library.
pub mod Polls
pub mod Events
pub mod Waits
pub mod Between
pub mod Readiness
pub mod Streams
mod Tests
use nea.Base.{
  ℕ, zero, suc, ◌+◌, ◌*◌, u64, ltb, Bool, true, false, ◌||◌, Option, none, some, if◌then◌else◌,
  List, [], ◌∷◌, ◌++◌, update, Result, ok, panic, ◌>>=◌, out_of_bounds, assertion_failed,
}
use nea.Index.{IoResources, per_bucket, QueueIndex, to_usize, from_usize}

pub data Direction : Type 0 where
  read write : Direction

-- An array with one entry for each direction.
abbrev pub put : {A : Type 0} → (Direction → A) → Direction → A → Direction → A
put f read a read = a
put f read a write = f write
put f write a read = f read
put f write a write = a

pub record Source (W : Type 0) : Type 0 where
  pub interest : Direction → Option W
  pub triggered : Direction → Bool

abbrev pub fresh : {W : Type 0} → Source W
fresh = record { interest = λ _. none; triggered = λ _. false }

-- What was asked of the registry of mio, the last first, by token.
pub data RegistryCall : Type 0 where
  registers deregisters : (token : ℕ) → RegistryCall

pub record Shared (W : Type 0) : Type 0 where
  pub capacity : ℕ
  pub source : ℕ → Option (Source W)
  pub registry : List RegistryCall

-- What a read or a write of the socket returns: `WouldBlock`, or anything else.
pub data IoResult (A : Type 0) : Type 0 where
  would_block : IoResult A
  value : A → IoResult A

pub data Poll (A : Type 0) : Type 0 where
  pending : Poll A
  ready : A → Poll A

-- An event of mio.
pub record Event : Type 0 where
  pub token : ℕ
  pub is_readable : Bool
  pub is_writable : Bool

abbrev pub slot_of : ℕ → ℕ
slot_of token = (from_usize token).index

module _ {W : Type 0} where
  abbrev pub set_source : Shared W → ℕ → Option (Source W) → Shared W
  set_source s i src = record s { source = update s.source i src }

  -- The table that `get_or_init` makes.
  pub init : ℕ → IoResources → Shared W
  init bucket_count r = record {
    capacity = u64 (bucket_count * per_bucket r);
    source = λ _. none;
    registry = [];
  }

  -- `register`, with the token of the stream that it returns; its assertion is for debug builds.
  pub register : Shared W → QueueIndex → Result (Shared W × ℕ)
  register s q =
      let token = to_usize q in
      if ltb q.index s.capacity
      then ok (
        record (set_source s q.index (some fresh)) { registry = registers token ∷ s.registry },
        token,
      )
      else panic out_of_bounds

  -- The drop of the stream of a token.
  pub deregister : Shared W → ℕ → Result (Shared W)
  deregister s token =
      let i = slot_of token in
      if ltb i s.capacity
      then (elim (s.source i) [
        | none ↦ panic assertion_failed
        | some src ↦ ok (record (set_source s i none) { registry = deregisters token ∷ s.registry })
      ])
      else panic out_of_bounds

  -- The waiting waker stays if it wakes the same task.
  pub keep : (W → W → Bool) → Option W → W → W
  keep will_wake none w = w
  keep will_wake (some old) w = if will_wake old w then old else w

  -- Whether the source is ready; if not, the waker waits.
  pub poll_ready : (W → W → Bool) → Source W → Direction → W → Bool × Source W
  poll_ready will_wake src d w =
      let src' = record src {
        interest = put src.interest d (some (keep will_wake (src.interest d) w));
      } in
      if src.triggered d
      then (true, src)
      else if src'.triggered d
      then (true, src')
      else (false, src')

  pub clear_trigger : Source W → Direction → Source W
  clear_trigger src d = record src { triggered = put src.triggered d false }

  -- The rest of a round of `poll_io` on a source that is ready, with what the call of `f` returned;
  -- `none` goes round again.
  pub io_call :
      {A : Type 0} → Shared W → ℕ → Source W → Direction → IoResult A → Shared W × Option (Poll A)
  io_call s i src d would_block = (set_source s i (some (clear_trigger src d)), none)
  io_call s i src d (value a) = (set_source s i (some src), some (ready a))

  -- One round of the loop in `poll_io`, on the source of the stream if there is one.
  pub round_on :
      {A : Type 0}
      → (W → W → Bool)
      → Shared W
      → ℕ
      → Direction
      → W
      → IoResult A
      → Option (Source W)
      → Shared W × Option (Poll A)
  round_on will_wake s i d w result none = (s, some pending)
  round_on will_wake s i d w result (some src) =
      let (is_ready, src') = poll_ready will_wake src d w in
      if is_ready then io_call s i src' d result else (set_source s i (some src'), some pending)

  pub io_round :
      {A : Type 0}
      → (W → W → Bool)
      → Shared W
      → ℕ
      → Direction
      → W
      → IoResult A
      → Shared W × Option (Poll A)
  io_round will_wake s i d w result = round_on will_wake s i d w result (s.source i)

  -- `poll_io` with the rounds left; `f` says what its calls return, and `none` is that the rounds
  -- did not reach.
  pub poll_io :
      {A : Type 0}
      → ℕ
      → (W → W → Bool)
      → Shared W
      → ℕ
      → Direction
      → W
      → (ℕ → IoResult A)
      → Shared W × Option (Poll A)
  poll_io zero will_wake s i d w f = (s, none)
  poll_io (suc rounds) will_wake s i d w f =
      let (s', p) = io_round will_wake s i d w (f 0) in
      let rest = poll_io rounds will_wake s' i d w (λ k. f (k + 1)) in
      elim p [ none ↦ rest | some r ↦ (s', some r) ]

  -- `poll_io` of the stream of a token.
  pub poll_stream :
      {A : Type 0}
      → ℕ
      → (W → W → Bool)
      → Shared W
      → ℕ
      → Direction
      → W
      → (ℕ → IoResult A)
      → Result (Shared W × Option (Poll A))
  poll_stream rounds will_wake s token d w f =
      let i = slot_of token in
      if ltb i s.capacity then ok (poll_io rounds will_wake s i d w f) else panic out_of_bounds

  abbrev pub waiting : Option W → List W
  waiting none = []
  waiting (some w) = w ∷ []

  -- One direction of an event: the waiting waker is taken, and the source is ready.
  pub trigger : Bool → Direction → Source W → Source W × List W
  trigger false d src = (src, [])
  trigger true d src = (
    record { interest = put src.interest d none; triggered = put src.triggered d true },
    waiting (src.interest d),
  )

  pub on_source : Event → Option (Source W) → Option (Source W) × List W
  on_source e none = (none, [])
  on_source e (some src) =
      let (src', readers) = trigger e.is_readable read src in
      let (src'', writers) = trigger e.is_writable write src' in (some src'', readers ++ writers)

  -- One event of the loop in `poll`, and the wakers that it takes.
  pub on_event : Shared W → Event → Result (Shared W × List W)
  on_event s e =
      let i = slot_of e.token in
      let (src, wakers) = on_source e (s.source i) in
      if ltb i s.capacity then ok (set_source s i src, wakers) else panic out_of_bounds

  -- `poll` on the events that mio returned: the wakers are woken in this order.
  pub poll : Shared W → List Event → Result (Shared W × List W)
  poll s [] = ok (s, [])
  poll s (e ∷ events) = do
    (s', wakers) ← on_event s e
    (s'', more) ← poll s' events
    ok (s'', wakers ++ more)
