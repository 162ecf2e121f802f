-- ===== src/Reactor/Waits.antt =====
-- nea/src/reactor.rs: whom the reactor wakes has waited.
use nea.Base.{
  ℕ, suc, ◌*◌, ◌≤◌, ◌==◌, ltb, inl, inr, arith, Bool, true, false, Bool-cases, Option, none, some,
  List, [], ◌∷◌, ◌++◌, length, length-append, Result, ok, panic, ◌>>=◌, update,
}
use nea.Reactor.{
  Direction, read, write, Source, Shared, set_source, Event, slot_of, waiting, trigger, on_source,
  on_event, poll, put,
}

module _ {W : Type 0} (P : W → Type 0) where
  abbrev pub AllWakers : List W → Type 0
  AllWakers [] = Unit
  AllWakers (w ∷ ws) = P w × AllWakers ws

  abbrev pub Waiter : Option W → Type 0
  Waiter none = Unit
  Waiter (some w) = P w

  -- Whoever waits for a source satisfies P.
  abbrev pub Waits : Option (Source W) → Type 0
  Waits none = Unit
  Waits (some src) = (d : Direction) → Waiter (src.interest d)

  AllWakers-append : (ws vs : List W) → AllWakers ws → AllWakers vs → AllWakers (ws ++ vs)
  AllWakers-append [] vs h k = k
  AllWakers-append (w ∷ ws) vs (p, h) k = (p, AllWakers-append ws vs h k)

  waiting_lem : (o : Option W) → Waiter o → AllWakers (waiting o) × (length (waiting o) ≤ 1)
  unfolding length
  waiting_lem none h = (tt, omega arith)
  waiting_lem (some w) h = ((h, tt), omega arith)

  nobody_waits :
      (interest : Direction → Option W) (d : Direction)
      → ((x : Direction) → Waiter (interest x))
      → (x : Direction) → Waiter (put interest d none x)
  nobody_waits interest read h read = tt
  nobody_waits interest read h write = h write
  nobody_waits interest write h read = h read
  nobody_waits interest write h write = tt

  trigger_lem :
      (flag : Bool) (d : Direction) (src : Source W)
      → Waits (some src)
      → Waits (some (trigger flag d src).0)
        × AllWakers (trigger flag d src).1
        × (length (trigger flag d src).1 ≤ 1)
  unfolding trigger length
  trigger_lem false d src h = (h, tt, omega arith)
  trigger_lem true read src h =
      let (all, few) = waiting_lem (src.interest read) (h read) in
      (nobody_waits src.interest read h, all, few)
  trigger_lem true write src h =
      let (all, few) = waiting_lem (src.interest write) (h write) in
      (nobody_waits src.interest write h, all, few)

  on_source_lem :
      (e : Event) (o : Option (Source W))
      → Waits o
      → Waits (on_source e o).0 × AllWakers (on_source e o).1 × (length (on_source e o).1 ≤ 2)
  unfolding on_source length
  on_source_lem e none h = (tt, tt, omega arith)
  on_source_lem e (some src) h =
      let (h', all, few) = trigger_lem e.is_readable read src h in
      let (h'', all', few') =
        trigger_lem e.is_writable write (trigger e.is_readable read src).0 h' in
      let readers = (trigger e.is_readable read src).1 in
      let writers = (trigger e.is_writable write (trigger e.is_readable read src).0).1 in
      (
        h'',
        AllWakers-append readers writers all all',
        omega (arith, length-append readers writers, few, few'),
      )

  write_source :
      (f : ℕ → Option (Source W)) (i : ℕ) (o : Option (Source W))
      → ((x : ℕ) → Waits (f x))
      → Waits o
      → (x : ℕ) → Waits (update f i o x)
  write_source f i o all h x = elim (Bool-cases (i == x)) [
    | inl here ↦ rw here h
    | inr away ↦ rw away (all x)
  ]

  -- The wakers that `poll` returns, for a number of events.
  abbrev pub AllWaited : ℕ → Result (Shared W × List W) → Type 0
  AllWaited n (ok (s, wakers)) = AllWakers wakers × (length wakers ≤ 2 * n)
  AllWaited n (panic p) = Unit

  more_wakers :
      (n : ℕ) (wakers : List W) (r : Result (Shared W × List W))
      → AllWakers wakers
      → length wakers ≤ 2
      → AllWaited n r
      → AllWaited (suc n) (r >>= λ p. ok (p.0, wakers ++ p.1))
  more_wakers n wakers (ok (s, rest)) all few (all', few') =
      (AllWakers-append wakers rest all all', omega (arith, length-append wakers rest))
  more_wakers n wakers (panic p) all few h = tt

  -- Those whom `poll` wakes have waited, at most two for each event.
  pub poll-AllWaited :
      (s : Shared W) (events : List Event)
      → ((i : ℕ) → Waits (s.source i))
      → AllWaited (length events) (poll s events)
  unfolding poll on_event length
  poll-AllWaited s [] h = (tt, omega arith)
  poll-AllWaited s (e ∷ events) h =
      let i = slot_of e.token in
      let (h', all, few) = on_source_lem e (s.source i) (h i) in
      let s1 = set_source s i (on_source e (s.source i)).0 in
      elim (Bool-cases (ltb i s.capacity)) [
        | inl there ↦ rw there (
            more_wakers (length events) (on_source e (s.source i)).1 (poll s1 events) all few (
              poll-AllWaited s1 events (write_source s.source i (on_source e (s.source i)).0 h h')))
        | inr away ↦ rw away tt
      ]
