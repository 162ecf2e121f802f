-- ===== src/Reactor/Events.antt =====
-- nea/src/reactor.rs: what the events of mio do to the sources, and whom they wake.
use mathlib.Core.List.Memᴰ
use mathlib.Core.List.Memᴰ.{Memᴰ, head}
use nea.Base.{
  ℕ, ◌==◌, ◌<◌, ◌≡◌, inl, inr, refl, sym, ap, subst, ◌∙◌, arith, ltb, Bool, true, false, ◌&&◌, ◌||◌,
  Bool-cases, Option, none, some, List, [], ◌∷◌, ◌++◌, update, if◌then◌else◌, ok, ◌>>=◌, Result,
}
use nea.Reactor.{
  Direction, read, write, Source, Shared, set_source, Event, slot_of, waiting, trigger, on_source,
  on_event, poll,
}

abbrev pub flag : Direction → Event → Bool
flag read e = e.is_readable
flag write e = e.is_writable

-- An event is for the source at `i`, in direction `d`.
abbrev pub hits : ℕ → Direction → Event → Bool
hits i d e = slot_of e.token == i && flag d e

abbrev pub any_hits : ℕ → Direction → List Event → Bool
any_hits i d [] = false
any_hits i d (e ∷ events) = hits i d e || any_hits i d events

abbrev choose : Direction → Bool → Bool → Bool
choose read r w = r
choose write r w = w

choose-flag : (d : Direction) (e : Event) → choose d e.is_readable e.is_writable ≡ flag d e
choose-flag read e = refl
choose-flag write e = refl

-- The tokens of all events are those of places in the table.
abbrev pub AllInside : ℕ → List Event → Type 0
AllInside n [] = Unit
AllInside n (e ∷ events) = (slot_of e.token < n) × AllInside n events

module _ {W : Type 0} where
  -- What events leave of a source in one direction: with a hit it is ready, nobody waits, and who
  -- waited is woken; without one it is as before.
  pub record Delivered (src : Source W) (d : Direction) (hit : Bool) (src' : Source W)
      (wakers : List W) : Type 0 where
    pub readiness : src'.triggered d ≡ (hit || src.triggered d)
    pub waits : src'.interest d ≡ (if hit then none else src.interest d)
    pub wakes : (w : W) → src.interest d ≡ some w → hit ≡ true → Memᴰ w wakers

  then-Delivered :
      {src src1 src2 : Source W} (d : Direction) (h1 h2 : Bool) {ws1 ws2 : List W}
      → Delivered src d h1 src1 ws1
      → Delivered src1 d h2 src2 ws2
      → Delivered src d (h1 || h2) src2 (ws1 ++ ws2)
  then-Delivered d true true {ws1} {ws2} one two = record {
    readiness = two.readiness;
    waits = two.waits;
    wakes = λ w e h. Memᴰ.append_left ws2 (one.wakes w e refl);
  }
  then-Delivered d true false {ws1} {ws2} one two = record {
    readiness = two.readiness ∙ one.readiness;
    waits = two.waits ∙ one.waits;
    wakes = λ w e h. Memᴰ.append_left ws2 (one.wakes w e refl);
  }
  then-Delivered d false true {ws1} {ws2} one two = record {
    readiness = two.readiness;
    waits = two.waits;
    wakes = λ w e h. Memᴰ.append_right ws1 (two.wakes w (one.waits ∙ e) h);
  }
  then-Delivered d false false {ws1} {ws2} one two = record {
    readiness = two.readiness ∙ one.readiness;
    waits = two.waits ∙ one.waits;
    wakes = λ w e h. Memᴰ.append_right ws1 (two.wakes w (one.waits ∙ e) h);
  }

  abbrev after : Bool → Bool → Source W → Source W
  after r w src = (trigger w write (trigger r read src).0).0

  abbrev woken_by : Bool → Bool → Source W → List W
  woken_by r w src = (trigger r read src).1 ++ (trigger w write (trigger r read src).0).1

  waiting_lem : (o : Option W) (w : W) → o ≡ some w → Memᴰ w (waiting o)
  waiting_lem none w e = absurd (ground arith)
  waiting_lem (some x) w e = head (ground arith)

  after-Delivered :
      (r w : Bool) (d : Direction) (src : Source W)
      → Delivered src d (choose d r w) (after r w src) (woken_by r w src)
  unfolding trigger
  after-Delivered true true read src = record {
    readiness = refl;
    waits = refl;
    wakes = λ w e h.
        Memᴰ.append_left (waiting (src.interest write)) (waiting_lem (src.interest read) w e);
  }
  after-Delivered true true write src = record {
    readiness = refl;
    waits = refl;
    wakes = λ w e h.
        Memᴰ.append_right (waiting (src.interest read)) (waiting_lem (src.interest write) w e);
  }
  after-Delivered true false read src = record {
    readiness = refl;
    waits = refl;
    wakes = λ w e h. Memᴰ.append_left [] (waiting_lem (src.interest read) w e);
  }
  after-Delivered true false write src = record {
    readiness = refl;
    waits = refl;
    wakes = λ w e h. absurd (ground arith);
  }
  after-Delivered false true read src = record {
    readiness = refl;
    waits = refl;
    wakes = λ w e h. absurd (ground arith);
  }
  after-Delivered false true write src = record {
    readiness = refl;
    waits = refl;
    wakes = λ w e h. waiting_lem (src.interest write) w e;
  }
  after-Delivered false false read src = record {
    readiness = refl;
    waits = refl;
    wakes = λ w e h. absurd (ground arith);
  }
  after-Delivered false false write src = record {
    readiness = refl;
    waits = refl;
    wakes = λ w e h. absurd (ground arith);
  }

  -- A place of the table behind the events, which hit it in the given directions: it has a source
  -- exactly if it had one, and in each direction that is as `Delivered` says.
  abbrev pub DeliveredAt :
      (Direction → Bool) → Option (Source W) → Option (Source W) → List W → Type 0
  DeliveredAt hit none now wakers = now ≡ none
  DeliveredAt hit (some src) now wakers =
      (src' : Source W) × (now ≡ some src')
      × ((d : Direction) → Delivered src d (hit d) src' wakers)

  not_hit : (src : Source W) (d : Direction) (ws : List W) → Delivered src d false src ws
  not_hit src d ws = record {
    readiness = refl;
    waits = refl;
    wakes = λ w e h. absurd (ground arith);
  }

  module _ (s : Shared W) (e : Event) (i : ℕ) where
    -- The event is for place `i`.
    at_place :
        (o : Option (Source W))
        → (slot_of e.token == i) ≡ true
        → DeliveredAt
            (λ d. hits i d e)
            o
            (update s.source (slot_of e.token) (on_source e o).0 i)
            (on_source e o).1
    unfolding on_source
    at_place none same = rw same refl
    at_place (some src) same = (
      after e.is_readable e.is_writable src,
      rw same refl,
      λ d.
          subst
            (λ h.
              Delivered src d h (after e.is_readable e.is_writable src)
                (woken_by e.is_readable e.is_writable src))
            (rw same (choose-flag d e)) (after-Delivered e.is_readable e.is_writable d src),
    )

    elsewhere :
        (o : Option (Source W)) (ws : List W)
        → s.source i ≡ o
        → (slot_of e.token == i) ≡ false
        → DeliveredAt (λ d. hits i d e) o (s.source i) ws
    elsewhere none ws old away = old
    elsewhere (some src) ws old away =
        (src, old, λ d. subst (λ h. Delivered src d h src ws) (rw away refl) (not_hit src d ws))

    event_at :
        DeliveredAt
          (λ d. hits i d e)
          (s.source i)
          (update s.source (slot_of e.token) (on_source e (s.source (slot_of e.token))).0 i)
          (on_source e (s.source (slot_of e.token))).1
    event_at = elim (Bool-cases (slot_of e.token == i)) [
      | inl same ↦
          let place : slot_of e.token ≡ i = ground arith in
          subst
            (λ o.
              DeliveredAt (λ d. hits i d e) (s.source i)
                (update s.source (slot_of e.token) (on_source e o).0 i) (on_source e o).1)
            (sym (ap s.source place)) (at_place (s.source i) same)
      | inr away ↦
          subst
            (λ now.
              DeliveredAt (λ d. hits i d e) (s.source i) now
                (on_source e (s.source (slot_of e.token))).1)
            (rw away refl)
            (elsewhere (s.source i) (on_source e (s.source (slot_of e.token))).1 refl away)
    ]

  then_at :
      (h1 h2 : Direction → Bool) (old mid now : Option (Source W)) (ws1 ws2 : List W)
      → DeliveredAt h1 old mid ws1
      → DeliveredAt h2 mid now ws2
      → DeliveredAt (λ d. h1 d || h2 d) old now (ws1 ++ ws2)
  then_at h1 h2 none none now ws1 ws2 one two = two
  then_at h1 h2 none (some mid) now ws1 ws2 one two = absurd (ground arith)
  then_at h1 h2 (some src) none now ws1 ws2 (src1, e1, one) two = absurd (ground arith)
  then_at h1 h2 (some src) (some mid) now ws1 ws2 (src1, e1, one) (src2, e2, two) =
      let same : src1 ≡ mid = ground arith in
      (
        src2,
        e2,
        λ d.
            then-Delivered d (h1 d) (h2 d) (subst (λ x. Delivered src d (h1 d) x ws1) same (one d))
              (two d),
      )

  -- On events with tokens of the table `poll` returns. Each source that some event is for, in a
  -- direction, is then ready in it and nobody waits, and who waited there is among the woken; in
  -- any other direction it is as before, and places without a source stay so.
  pub poll-Delivered :
      (s : Shared W) (events : List Event)
      → AllInside s.capacity events
      → (s' : Shared W) × (wakers : List W) × (poll s events ≡ ok (s', wakers))
        × (s'.capacity ≡ s.capacity)
        × ((i : ℕ) → DeliveredAt (λ d. any_hits i d events) (s.source i) (s'.source i) wakers)
  unfolding poll on_event
  poll-Delivered s [] inside = (s, [], refl, refl, λ i. nothing (s.source i))
    where
      nothing : (o : Option (Source W)) → DeliveredAt (λ d. false) o o []
      nothing none = refl
      nothing (some src) = (src, refl, λ d. not_hit src d [])
  poll-Delivered s (e ∷ events) (e_lt, rest) =
      let (now, ws1) = on_source e (s.source (slot_of e.token)) in
      let s1 = set_source s (slot_of e.token) now in
      let (s', ws2, eq, size, at) = poll-Delivered s1 events rest in
      let there : ltb (slot_of e.token) s.capacity ≡ true = ground arith in
      (
        s',
        ws1 ++ ws2,
        rw there (ap (λ (x : Result (Shared W × List W)). x >>= λ p. ok (p.0, ws1 ++ p.1)) eq),
        size,
        λ i.
            then_at (λ d. hits i d e) (λ d. any_hits i d events) (s.source i) (s1.source i)
              (s'.source i) ws1 ws2 (event_at s e i) (at i),
      )
