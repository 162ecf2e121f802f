-- ===== src/Reactor/Readiness.antt =====
-- nea/src/reactor.rs: from a task that waits over an event to its next poll, and the life of a
-- source from its registration to its drop.
use mathlib.Core.List.Memᴰ.{Memᴰ}
use nea.Base.{
  ℕ, ◌^◌, ◌==◌, ◌<◌, ◌≡◌, ◌≢◌, ◌⊎◌, refl, sym, ap, subst, ◌∙◌, arith, ltb, Bool, true, Option, none,
  some, List, ◌∷◌, Result, ok, panic, assertion_failed,
}
use nea.Index.{QueueIndex, to_usize}
use nea.Index.Words.{from_usize-to_usize}
use nea.Reactor.{
  Direction, Source, fresh, registers, deregisters, Shared, set_source, IoResult, value, Poll,
  pending, ready, Event, slot_of, register, deregister, io_call, poll_io, poll,
}
use nea.Reactor.Polls.{Waits, Polled, poll_io-Polled, round_yes, stops}
use nea.Reactor.Events.{any_hits, AllInside, DeliveredAt, poll-Delivered}

module _ {W : Type 0} (will_wake : W → W → Bool) {A : Type 0} where
  -- A source of a stream whose poll was pending has a task waiting.
  pending-Waits :
      (s s1 : Shared W) (i : ℕ) (d : Direction) (w : W) (f : ℕ → IoResult A) (src : Source W)
      → poll_io 2 will_wake s i d w f ≡ (s1, some pending)
      → s1.source i ≡ some src
      → Waits will_wake src d w
  pending-Waits s s1 i d w f src polled there =
      let (s', p, eq, spec, _) = poll_io-Polled will_wake s i d w f in
      let both : (s', some p) ≡ (s1, some pending) = sym eq ∙ polled in
      let now : s'.source i ≡ some src =
        ap (λ (x : Shared W × Option (Poll A)). x.0.source i) both ∙ there in
      let same : p ≡ pending = ground (arith, ap (λ (x : Shared W × Option (Poll A)). x.1) both) in
      subst (λ o. Polled will_wake (s.source i) d w (f 0) pending o) now
        (subst (λ q. Polled will_wake (s.source i) d w (f 0) q (s'.source i)) same spec)

  -- A task polls a stream, with no event between the rounds, finds it pending, and the stream is
  -- still registered. If mio then returns events, with tokens of the table, of which one is for
  -- that stream and direction, the reactor wakes a waker of that task, and if the next call of the
  -- socket returns a value, the next poll of the stream in that direction returns it.
  pub no_lost_readiness :
      (s s1 : Shared W) (i : ℕ) (d : Direction) (w v : W) (f g : ℕ → IoResult A) (src : Source W)
      (events : List Event) (a : A)
      → poll_io 2 will_wake s i d w f ≡ (s1, some pending)
      → s1.source i ≡ some src
      → AllInside s1.capacity events
      → any_hits i d events ≡ true
      → g 0 ≡ value a
      → (s2 : Shared W) × (wakers : List W) × (waker : W) × (s3 : Shared W) × (poll s1 events
          ≡ ok (s2, wakers))
        × ((waker ≡ w) ⊎ (will_wake waker w ≡ true))
        × Memᴰ waker wakers
        × (poll_io 2 will_wake s2 i d v g ≡ (s3, some (ready a)))
  unfolding io_call
  no_lost_readiness s s1 i d w v f g src events a polled there inside hit result =
      let waits = pending-Waits s s1 i d w f src polled there in
      let (s2, wakers, eq, _, at) = poll-Delivered s1 events inside in
      let (src', now, delivered) =
        subst (λ o. DeliveredAt (λ x. any_hits i x events) o (s2.source i) wakers) there (at i) in
      let here = delivered d in
      let hot : src'.triggered d ≡ true = ground (arith, here.readiness) in
      (
        s2,
        wakers,
        waits.waker,
        _,
        eq,
        waits.same_task,
        here.wakes waits.waker waits.waiting_waker hit,
        stops will_wake s2 i d v 1 g _ _
            (round_yes will_wake s2 i d v (g 0) src' now hot ∙ ap (io_call s2 i src' d) result),
      )

module _ {W : Type 0} where
  dropped : Shared W → ℕ → ℕ → Shared W
  dropped s token i = record (set_source s i none) { registry = deregisters token ∷ s.registry }

  drop_at :
      (s : Shared W) (token i : ℕ) (src : Source W)
      → slot_of token ≡ i
      → i < s.capacity
      → s.source i ≡ some src
      → deregister s token ≡ ok (dropped s token i)
  unfolding deregister dropped
  drop_at s token i src place lt there =
      let room : ltb (slot_of token) s.capacity ≡ true = ground arith in
      rw room (
        ap
          (λ o. elim o as (λ _. Result (Shared W)) [
            | none ↦ panic assertion_failed
            | some src ↦ ok (record (set_source s (slot_of token) none) {
              registry = deregisters token ∷ s.registry;
            })
          ])
          (ap s.source place ∙ there)
        ∙ ap (λ j. ok (record (set_source s j none) { registry = deregisters token ∷ s.registry }))
            place)

  drop_gone :
      (s : Shared W) (token i : ℕ)
      → slot_of token ≡ i
      → i < s.capacity
      → s.source i ≡ none
      → deregister s token ≡ panic assertion_failed
  unfolding deregister
  drop_gone s token i place lt there =
      let room : ltb (slot_of token) s.capacity ≡ true = ground arith in
      rw room (
        ap
          (λ o. elim o as (λ _. Result (Shared W)) [
            | none ↦ panic assertion_failed
            | some src ↦ ok (record (set_source s (slot_of token) none) {
              registry = deregisters token ∷ s.registry;
            })
          ])
          (ap s.source place ∙ there))

  -- A queue index in the table, with fields below 2^32: `register` returns a token and puts a fresh
  -- source in its place; the drop of the stream of that token takes it out, leaves the rest of the
  -- table as it was, and has asked mio for one registration and its end; a second drop panics.
  pub deregister-register :
      (s : Shared W) (q : QueueIndex)
      → q.identifier < 2 ^ 32
      → q.index < 2 ^ 32
      → q.index < s.capacity
      → (s1 s2 : Shared W) × (token : ℕ) × (register s q ≡ ok (s1, token))
        × (s1.source q.index ≡ some fresh)
        × (deregister s1 token ≡ ok s2)
        × (s2.source q.index ≡ none)
        × ((x : ℕ) → x ≢ q.index → s2.source x ≡ s.source x)
        × (deregister s2 token ≡ panic assertion_failed)
        × (s2.registry ≡ deregisters token ∷ registers token ∷ s.registry)
  unfolding register dropped
  deregister-register s q h k inside =
      let place : slot_of (to_usize q) ≡ q.index =
        ap (λ (x : QueueIndex). x.index) (from_usize-to_usize q h k).0 in
      let there : ltb q.index s.capacity ≡ true = ground arith in
      let self : (q.index == q.index) ≡ true = ground arith in
      let s1 : Shared W = record (set_source s q.index (some fresh)) {
        registry = registers (to_usize q) ∷ s.registry;
      } in
      let here : s1.source q.index ≡ some fresh = rw self refl in
      let gone : (dropped s1 (to_usize q) q.index).source q.index ≡ none = rw self refl in
      (
        s1,
        dropped s1 (to_usize q) q.index,
        to_usize q,
        rw there refl,
        here,
        drop_at s1 (to_usize q) q.index fresh place inside here,
        gone,
        (λ x ne. ground arith),
        drop_gone (dropped s1 (to_usize q) q.index) (to_usize q) q.index place inside gone,
        refl,
      )
