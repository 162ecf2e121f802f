-- ===== src/Reactor/Polls.antt =====
-- nea/src/reactor.rs: what `poll_io` returns, and whom it leaves waiting.
use nea.Base.{
  ℕ, suc, ◌+◌, ◌≡◌, ◌≢◌, ◌⊎◌, inl, inr, refl, sym, ap, subst, ◌∙◌, arith, Bool, true, false,
  Bool-cases, Option, none, some, update,
}
use nea.Reactor.{
  Direction, read, write, put, Source, Shared, set_source, IoResult, would_block, value, Poll,
  pending, ready, keep, poll_ready, clear_trigger, io_call, io_round, round_on, poll_io,
}

module _ {W : Type 0} (will_wake : W → W → Bool) where
  -- The source is not ready in a direction, and a waker of the task of `w` waits for it.
  pub record Waits (src : Source W) (d : Direction) (w : W) : Type 0 where
    pub not_ready : src.triggered d ≡ false
    pub waker : W
    pub waiting_waker : src.interest d ≡ some waker
    pub same_task : (waker ≡ w) ⊎ (will_wake waker w ≡ true)

  pub put_same : {A : Type 0} (f : Direction → A) (d : Direction) (a : A) → put f d a d ≡ a
  put_same f read a = refl
  put_same f write a = refl

  keep_lem :
      (old : Option W) (w : W)
      → (keep will_wake old w ≡ w) ⊎ (will_wake (keep will_wake old w) w ≡ true)
  unfolding keep
  keep_lem none w = inl refl
  keep_lem (some old) w = elim (Bool-cases (will_wake old w)) [
    | inl same ↦ rw same (inr same)
    | inr other ↦ rw other (inl refl)
  ]

  abbrev pub asks : Source W → Direction → W → Source W
  asks src d w = record src {
    interest = put src.interest d (some (keep will_wake (src.interest d) w));
  }

  poll_ready-not :
      (src : Source W) (d : Direction) (w : W)
      → src.triggered d ≡ false
      → poll_ready will_wake src d w ≡ (false, asks src d w)
  unfolding poll_ready
  poll_ready-not src d w e = rw e refl

  pub asks-Waits :
      (src : Source W) (d : Direction) (w : W) → src.triggered d ≡ false → Waits (asks src d w) d w
  asks-Waits src d w e = record {
    not_ready = e;
    waker = keep will_wake (src.interest d) w;
    waiting_waker = put_same src.interest d _;
    same_task = keep_lem (src.interest d) w;
  }

  -- What a poll leads to: a result is that of the first call, and the source is as before; without
  -- one the stream has no source, or its source is not ready and the task waits.
  abbrev pub Polled :
      {A : Type 0}
      → Option (Source W)
      → Direction
      → W
      → IoResult A
      → Poll A
      → Option (Source W)
      → Type 0
  Polled old d w first (ready a) now = (first ≡ value a) × (now ≡ old)
  Polled old d w first pending none = old ≡ none
  Polled old d w first pending (some src) = Waits src d w

  poll_ready-yes :
      (src : Source W) (d : Direction) (w : W)
      → src.triggered d ≡ true
      → poll_ready will_wake src d w ≡ (true, src)
  unfolding poll_ready
  poll_ready-yes src d w e = rw e refl

  module _ {A : Type 0} (s : Shared W) (i : ℕ) (d : Direction) (w : W) where
    pub round_none :
        (r : IoResult A) → s.source i ≡ none → io_round will_wake s i d w r ≡ (s, some pending)
    unfolding io_round round_on
    round_none r e = ap (round_on will_wake s i d w r) e

    pub round_not :
        (r : IoResult A) (src : Source W)
        → s.source i ≡ some src
        → src.triggered d ≡ false
        → io_round will_wake s i d w r ≡ (set_source s i (some (asks src d w)), some pending)
    unfolding io_round round_on
    round_not r src e idle =
        ap (round_on will_wake s i d w r) e ∙ rw (poll_ready-not src d w idle) refl

    pub round_yes :
        (r : IoResult A) (src : Source W)
        → s.source i ≡ some src
        → src.triggered d ≡ true
        → io_round will_wake s i d w r ≡ io_call s i src d r
    unfolding io_round round_on
    round_yes r src e hot =
        ap (round_on will_wake s i d w r) e ∙ rw (poll_ready-yes src d w hot) refl

    pub stops :
        (n : ℕ) (f : ℕ → IoResult A) (s' : Shared W) (p : Poll A)
        → io_round will_wake s i d w (f 0) ≡ (s', some p)
        → poll_io (suc n) will_wake s i d w f ≡ (s', some p)
    unfolding poll_io
    stops n f s' p e =
        ap
          (λ (x : Shared W × Option (Poll A)). elim x.1 as (λ _. Shared W × Option (Poll A)) [
            | none ↦ poll_io n will_wake x.0 i d w (λ k. f (k + 1))
            | some r ↦ (x.0, some r)
          ])
          e

    goes_on :
        (n : ℕ) (f : ℕ → IoResult A) (s' : Shared W)
        → io_round will_wake s i d w (f 0) ≡ (s', none)
        → poll_io (suc n) will_wake s i d w f ≡ poll_io n will_wake s' i d w (λ k. f (k + 1))
    unfolding poll_io
    goes_on n f s' e =
        ap
          (λ (x : Shared W × Option (Poll A)). elim x.1 as (λ _. Shared W × Option (Poll A)) [
            | none ↦ poll_io n will_wake x.0 i d w (λ k. f (k + 1))
            | some r ↦ (x.0, some r)
          ])
          e

  pub at_slot : {A : Type 0} (g : ℕ → A) (i : ℕ) (a : A) → update g i a i ≡ a
  at_slot g i a = ground arith

  off_slot : {A : Type 0} (g : ℕ → A) (i x : ℕ) (a : A) → x ≢ i → update g i a x ≡ g x
  off_slot g i x a ne = ground arith

  -- If no event comes between its rounds, `poll_io` returns within two of them. If it returns a
  -- value, that is what the first call of the socket returned, and the source is as before; if it
  -- is pending, the stream has no source, or its source is not ready and a waker of the task waits.
  -- No other source changes.
  pub poll_io-Polled :
      {A : Type 0} (s : Shared W) (i : ℕ) (d : Direction) (w : W) (f : ℕ → IoResult A)
      → (s' : Shared W) × (p : Poll A) × (poll_io 2 will_wake s i d w f ≡ (s', some p))
        × Polled (s.source i) d w (f 0) p (s'.source i)
        × ((x : ℕ) → x ≢ i → s'.source x ≡ s.source x)
  unfolding io_call clear_trigger
  poll_io-Polled {A} s i d w f = go (s.source i) refl
    where
      now : (src : Source W) → (set_source s i (some src)).source i ≡ some src
      now src = at_slot s.source i (some src)

      called :
          (src : Source W) (r : IoResult A)
          → s.source i ≡ some src
          → src.triggered d ≡ true
          → f 0 ≡ r
          → (s' : Shared W) × (p : Poll A) × (poll_io 2 will_wake s i d w f ≡ (s', some p))
            × Polled (s.source i) d w (f 0) p (s'.source i)
            × ((x : ℕ) → x ≢ i → s'.source x ≡ s.source x)
      called src (value a) e hot result = (
        set_source s i (some src),
        ready a,
        stops s i d w 1 f _ _ (round_yes s i d w (f 0) src e hot ∙ ap (io_call s i src d) result),
        (result, now src ∙ sym e),
        λ x ne. off_slot s.source i x (some src) ne,
      )
      called src would_block e hot result =
          let cleared = clear_trigger src d in
          let s1 = set_source s i (some cleared) in
          let idle : cleared.triggered d ≡ false = put_same src.triggered d false in
          (
            set_source s1 i (some (asks cleared d w)),
            pending,
            goes_on s i d w 1 f s1
                  (round_yes s i d w (f 0) src e hot ∙ ap (io_call s i src d) result)
                ∙ stops s1 i d w 0 (λ k. f (k + 1)) _ _
                    (round_not s1 i d w (f 1) cleared (now cleared) idle),
            subst (Polled (s.source i) d w (f 0) pending)
                (sym (at_slot s1.source i (some (asks cleared d w)))) (asks-Waits cleared d w idle),
            λ x ne.
                off_slot s1.source i x (some (asks cleared d w)) ne
                ∙ off_slot s.source i x (some cleared) ne,
          )

      go :
          (o : Option (Source W))
          → s.source i ≡ o
          → (s' : Shared W) × (p : Poll A) × (poll_io 2 will_wake s i d w f ≡ (s', some p))
            × Polled (s.source i) d w (f 0) p (s'.source i)
            × ((x : ℕ) → x ≢ i → s'.source x ≡ s.source x)
      go none e = (
        s,
        pending,
        stops s i d w 1 f _ _ (round_none s i d w (f 0) e),
        subst (Polled (s.source i) d w (f 0) pending) (sym e) e,
        λ x ne. refl,
      )
      go (some src) e = elim (Bool-cases (src.triggered d)) [
        | inl hot ↦ called src (f 0) e hot refl
        | inr idle ↦ (
          set_source s i (some (asks src d w)),
          pending,
          stops s i d w 1 f _ _ (round_not s i d w (f 0) src e idle),
          subst (Polled (s.source i) d w (f 0) pending) (sym (now (asks src d w)))
              (asks-Waits src d w idle),
          λ x ne. off_slot s.source i x (some (asks src d w)) ne,
        )
      ]
