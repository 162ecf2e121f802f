-- ===== src/Reactor/Between.antt =====
-- nea/src/reactor.rs: the loop of `poll_io`, while the reactor handles events between its rounds. A
-- round holds the lock of the source, which the reactor takes for each event.
use nea.Base.{
  ℕ, suc, ◌≤◌, ◌≡◌, refl, sym, ap, subst, ◌∙◌, arith, Bool, true, false, Bool-cases, inl, inr,
  Option, none, some, List, [], ◌∷◌, ◌++◌, Result, ok, panic, ◌>>=◌, length,
}
use nea.Reactor.{
  Direction, Source, Shared, set_source, IoResult, would_block, value, Poll, pending, ready,
  clear_trigger, io_call, io_round, Event, poll,
}
use nea.Reactor.Polls.{Waits, round_none, round_not, round_yes, asks, asks-Waits, put_same, at_slot}
use nea.Reactor.Events.{AllInside, any_hits, DeliveredAt, poll-Delivered}

-- Every batch has an event for the stream.
abbrev pub AllHit : ℕ → Direction → List (List Event) → Type 0
AllHit i d [] = Unit
AllHit i d (events ∷ between) = (any_hits i d events ≡ true) × AllHit i d between

abbrev pub AllBatchesInside : ℕ → List (List Event) → Type 0
AllBatchesInside n [] = Unit
AllBatchesInside n (events ∷ between) = AllInside n events × AllBatchesInside n between

module _ {W : Type 0} where
  same_source : (o : Option (Source W)) (x y : Source W) → o ≡ some x → o ≡ some y → x ≡ y
  same_source o x y e e' = ground arith

  -- A source that was not ready and then is has had an event.
  hit_lem :
      (hits : Direction → Bool) (d : Direction) (cleared : Source W) (old now : Option (Source W))
      (ws : List W)
      → old ≡ some cleared
      → cleared.triggered d ≡ false
      → DeliveredAt hits old now ws
      → ((src : Source W) → now ≡ some src → src.triggered d ≡ true)
      → hits d ≡ true
  hit_lem hits d cleared none now ws e idle at hot = absurd (ground arith)
  hit_lem hits d cleared (some old) now ws e idle (src', e', at) hot =
      let same = same_source (some old) old cleared refl e in
      let was_idle : old.triggered d ≡ false = ap (λ (x : Source W). x.triggered d) same ∙ idle in
      ground (arith, (at d).readiness, hot src' e', was_idle)

module _ {W A : Type 0} (will_wake : W → W → Bool) (i : ℕ) (d : Direction) (w : W) where
  -- What comes of a round, with the loop behind the events; the wakers that these take are woken.
  abbrev after_round :
      Shared W × Option (Poll A)
      → (Shared W → Result (Shared W × List W × Option (Poll A)))
      → Result (Shared W × List W × Option (Poll A))
  after_round (s, none) again = again s
  after_round (s, some r) again = ok (s, [], some r)

  -- The rounds, with a batch of events between each two; `none` if these are over.
  pub interleaved :
      List (List Event) → Shared W → (ℕ → IoResult A) → Result (Shared W × List W × Option (Poll A))
  interleaved [] s f = let (s', p) = io_round will_wake s i d w (f 0) in ok (s', [], p)
  interleaved (events ∷ between) s f = after_round (io_round will_wake s i d w (f 0)) (λ s'.
      poll s' events >>= λ woken. interleaved between woken.0 (λ k. f (suc k)) >>= λ rest.
      ok (rest.0, woken.1 ++ rest.1, rest.2))

  -- What a round leads to.
  abbrev Round : Shared W → IoResult A → Shared W × Option (Poll A) → Type 0
  Round s r (s', none) =
      (src : Source W) × (s.source i ≡ some src)
      × (src.triggered d ≡ true)
      × (s' ≡ set_source s i (some (clear_trigger src d)))
  Round s r (s', some (ready a)) = (r ≡ value a) × (s'.capacity ≡ s.capacity)
  Round s r (s', some pending) =
      ((src : Source W) → s'.source i ≡ some src → Waits will_wake src d w)
      × (s'.capacity ≡ s.capacity)

  called :
      (s : Shared W) (src : Source W) (r : IoResult A)
      → s.source i ≡ some src
      → src.triggered d ≡ true
      → Round s r (io_call s i src d r)
  unfolding io_call
  called s src would_block e hot = (src, e, hot, refl)
  called s src (value a) e hot = (refl, refl)

  round_lem : (s : Shared W) (r : IoResult A) → Round s r (io_round will_wake s i d w r)
  round_lem s r = go (s.source i) refl
    where
      go : (o : Option (Source W)) → s.source i ≡ o → Round s r (io_round will_wake s i d w r)
      go none e =
          subst (Round s r) (sym (round_none will_wake s i d w r e))
            (λ src there. absurd (ground arith), refl)
      go (some src) e = elim (Bool-cases (src.triggered d)) [
        | inl hot ↦
            subst (Round s r) (sym (round_yes will_wake s i d w r src e hot)) (called s src r e hot)
        | inr idle ↦
            let asked = asks will_wake src d w in
            subst (Round s r) (sym (round_not will_wake s i d w r src e idle)) (
              λ now there.
                  subst (λ x. Waits will_wake x d w)
                    (same_source _ asked now (at_slot will_wake s.source i (some asked)) there)
                    (asks-Waits will_wake src d w idle),
              refl,
            )
      ]

  -- How the loop ends: with the value of one of its calls of the socket; with the task waiting; or
  -- it has not ended, and then the source was ready and every batch had an event for it.
  abbrev pub Ended :
      Option (Source W)
      → List (List Event)
      → (ℕ → IoResult A)
      → Option (Poll A)
      → Option (Source W)
      → Type 0
  Ended old between f (some (ready a)) now = (k : ℕ) × (k ≤ length between) × (f k ≡ value a)
  Ended old between f (some pending) now =
      (src : Source W) → now ≡ some src → Waits will_wake src d w
  Ended old between f none now =
      ((src : Source W) → old ≡ some src → src.triggered d ≡ true) × AllHit i d between

  -- No panic, and the end as above.
  abbrev pub Ends :
      Option (Source W)
      → List (List Event)
      → (ℕ → IoResult A)
      → Result (Shared W × List W × Option (Poll A))
      → Type 0
  Ends old between f (ok (s', wakers, p)) = Ended old between f p (s'.source i)
  Ends old between f (panic p) = ⊥

  Ends-later :
      (old mid : Option (Source W)) (events : List Event) (between : List (List Event))
      (f : ℕ → IoResult A) (ws : List W) (r : Result (Shared W × List W × Option (Poll A)))
      → ((src : Source W) → old ≡ some src → src.triggered d ≡ true)
      → (((src : Source W) → mid ≡ some src → src.triggered d ≡ true) → any_hits i d events ≡ true)
      → Ends mid between (λ k. f (suc k)) r
      → Ends old (events ∷ between) f (r >>= λ rest. ok (rest.0, ws ++ rest.1, rest.2))
  unfolding length
  Ends-later old mid events between f ws (panic p) hot hit h = h
  Ends-later old mid events between f ws (ok (s, vs, none)) hot hit (mid_hot, all) =
      (hot, (hit mid_hot, all))
  Ends-later old mid events between f ws (ok (s, vs, some pending)) hot hit h = h
  Ends-later old mid events between f ws (ok (s, vs, some (ready a))) hot hit (k, le, v) =
      (suc k, omega arith, v)

  -- While the reactor handles a batch of events, with tokens of the table, between each two rounds
  -- of `poll_io`, the loop does not panic. It ends with the value of one of its calls of the
  -- socket; or it ends pending, and then its source, if there is one, is not ready and a waker of
  -- the task waits; or it has not ended when the batches are over, and then the source, if there is
  -- one, was ready at the start and every batch had an event for it.
  pub interleaved-Ends :
      (between : List (List Event)) (s : Shared W) (f : ℕ → IoResult A)
      → AllBatchesInside s.capacity between
      → Ends (s.source i) between f (interleaved between s f)
  unfolding interleaved length clear_trigger
  interleaved-Ends [] s f inside = go (io_round will_wake s i d w (f 0)) (round_lem s (f 0))
    where
      go :
          (o : Shared W × Option (Poll A))
          → Round s (f 0) o
          → Ends (s.source i) [] f (ok (o.0, [], o.1))
      go (s', none) (src, here, hot, _) = (
        λ x there. ap (λ (y : Source W). y.triggered d) (same_source _ x src there here) ∙ hot,
        tt,
      )
      go (s', some (ready a)) (v, _) = (0, omega arith, v)
      go (s', some pending) (waits, _) = waits
  interleaved-Ends (events ∷ between) s f (first, inside) =
      go (io_round will_wake s i d w (f 0)) (round_lem s (f 0)) (λ s' size.
        interleaved-Ends between s' (λ k. f (suc k))
          (subst (λ n. AllBatchesInside n between) (sym size) inside))
    where
      again : Shared W → Result (Shared W × List W × Option (Poll A))
      again s' = poll s' events >>= λ woken.
          interleaved between woken.0 (λ k. f (suc k)) >>= λ rest.
          ok (rest.0, woken.1 ++ rest.1, rest.2)

      go :
          (o : Shared W × Option (Poll A))
          → Round s (f 0) o
          → ((s' : Shared W)
              → s'.capacity ≡ s.capacity
              → Ends
                  (s'.source i)
                  between
                  (λ k. f (suc k))
                  (interleaved between s' (λ k. f (suc k))))
          → Ends (s.source i) (events ∷ between) f (after_round o again)
      go (s', some (ready a)) (v, _) rest = (0, omega arith, v)
      go (s', some pending) (waits, _) rest = waits
      go (s1, none) (src, here, hot, cleared) rest =
          let size1 : s1.capacity ≡ s.capacity = ap (λ (z : Shared W). z.capacity) cleared in
          let idle_source = clear_trigger src d in
          let (s2, ws, e, size, at) =
            poll-Delivered s1 events (subst (λ n. AllInside n events) (sym size1) first) in
          rw e (
            Ends-later (s.source i) (s2.source i) events between f ws
              (interleaved between s2 (λ k. f (suc k)))
              (λ x there.
                ap (λ (y : Source W). y.triggered d) (same_source _ x src there here) ∙ hot)
              (hit_lem (λ x. any_hits i x events) d idle_source (s1.source i) (s2.source i) ws
                (ap (λ (z : Shared W). z.source i) cleared
                  ∙ at_slot will_wake s.source i (some idle_source))
                (put_same will_wake src.triggered d false) (at i))
              (rest s2 (size ∙ size1)))
