-- ===== src/Executor/Run/Jobs.antt =====
-- nea/src/executor.rs: the poll of one job of a bucket.
use nea.Base.{
  ℕ, ◌+◌, ◌*◌, ◌==◌, ◌<◌, ◌≡◌, ◌≢◌, refl, sym, ap, subst, ◌∙◌, arith, Bool-cases, inl, inr, Option,
  none, some, List, ◌∷◌, ok, panic, Result, update,
}
use nea.Index.{IoResources, BucketIndex, ConnectionIndex}
use nea.Executor.{
  Slot, empty, reserved, occupied, Inner, Outcome, returns, fails, Action, Poll, pending, ready,
  panics, oom, out_of_memory_done, panic_done, Verdict, continues, act_all, out_of_memory, panicked,
}
use nea.Executor.Run.{
  after_input_stream, after_http_connection, poll_result, stopped, input_stream_job,
  http_connection_job,
}
use nea.Executor.Run.Balance.{live, alive, live_connections, live-update_own, live-update_other}
use nea.Executor.Run.Actions.{Steady, Held, AllOwn, live-update_same}
use nea.Executor.Run.Polls.{act_all-Kept}
use nea.Base.{
  ◌⊎◌, Panic, explicit_panic, memory_exhausted, assertion_failed, divide_by_zero, out_of_bounds,
  arithmetic_overflow, todo_reached, unreachable_reached, unwrap_failed,
}
use nea.Executor.Run.Actions.{count-lt}
use nea.Executor.Run.Release.{Served, give_up-Served, finish_job-Served}

module _ {F C : Type 0} {n size : ℕ} (s : Inner F C) (b : BucketIndex)
    (st : Steady n size b.index s) (h : Held s b.index) where
  abbrev http : ℕ
  http = s.io_resources.http_connections

  after_input_stream-Served :
      (fut : F) (r : Poll F)
      → s.futures b.index ≡ some fut
      → Served n size b.index (after_input_stream s b r)
  unfolding after_input_stream
  after_input_stream-Served fut (pending next) was = (
    record {
      exists = st.exists;
      buckets = st.buckets;
      resources = st.resources;
      few = st.few;
      arenas = st.arenas;
      queued = st.queued;
      others = λ x lt ne. ground (arith, st.others x lt ne);
    },
    record { own = ground (arith, h.own, ap alive was); some_job = h.some_job },
  )
  after_input_stream-Served fut ready was =
      finish_job-Served s st
        (record s {
          futures = update s.futures b.index none;
          closed = s.tcp_streams b.index ∷ s.closed;
        })
        refl refl refl st.arenas
        (λ x lt. elim (Bool-cases (x == b.index)) [
          | inl here ↦
              let e : x ≡ b.index = ground arith in rw e (ground (arith, h.own, ap alive was))
          | inr away ↦ ground (arith, st.others x lt (λ e. absurd (ground arith)))
        ])
        (omega (arith, count-lt st h))
  after_input_stream-Served fut panics was = give_up-Served s b st panicked panic_done (inr refl)
  after_input_stream-Served fut oom was =
      give_up-Served s b st out_of_memory out_of_memory_done (inl refl)

  after_http_connection-Served :
      (c : ConnectionIndex) (o : ℕ) (conn : C) (r : Poll C)
      → c.index ≡ b.index * http + o
      → o < http
      → s.connections c.index ≡ occupied conn
      → Served n size b.index (after_http_connection s b c r)
  unfolding after_http_connection
  after_http_connection-Served c o conn (pending next) place o_lt was =
      let same : (x : ℕ)
          → live_connections http (update s.connections c.index (occupied next)) x
            ≡ live_connections http s.connections x =
        λ x. live-update_same http s.connections c.index x (occupied next) (sym (ap live was)) in
      (
        record {
          exists = st.exists;
          buckets = st.buckets;
          resources = st.resources;
          few = st.few;
          arenas = st.arenas;
          queued = st.queued;
          others = λ x lt ne. omega (arith, st.others x lt ne, same x);
        },
        record { own = omega (arith, h.own, same b.index); some_job = h.some_job },
      )
  after_http_connection-Served c o conn ready place o_lt was =
      finish_job-Served s st (record s { connections = update s.connections c.index empty }) refl
        refl refl st.arenas
        (λ x lt. elim (Bool-cases (x == b.index)) [
          | inl here ↦
              let e : x ≡ b.index = ground arith in
              rw e (ground (arith, h.own, own_place, ap live was))
          | inr away ↦ ground (arith, st.others x lt (λ e. absurd (ground arith)), other_place x)
        ])
        (omega (arith, count-lt st h))
    where
      own_place :
          live_connections http (update s.connections c.index empty) b.index
            + live (s.connections c.index)
          ≡ live_connections http s.connections b.index + 0
      own_place =
          subst
            (λ k.
              live_connections http (update s.connections k empty) b.index + live (s.connections k)
              ≡ live_connections http s.connections b.index + 0)
            (sym place) (live-update_own http s.connections b.index o empty o_lt)

      other_place :
          (x : ℕ)
          → b.index ≢ x
          → live_connections http (update s.connections c.index empty) x
            ≡ live_connections http s.connections x
      other_place x ne =
          subst
            (λ k.
              live_connections http (update s.connections k empty) x
              ≡ live_connections http s.connections x)
            (sym place) (live-update_other http s.connections b.index x o empty ne o_lt)
  after_http_connection-Served c o conn panics place o_lt was = (st, tt)
  after_http_connection-Served c o conn oom place o_lt was =
      give_up-Served s b st out_of_memory out_of_memory_done (inl refl)

-- A poll that does not return has run out of memory, or has panicked.
pub stopped_cases :
    {A : Type 0} (p : Panic) → (stopped {A = A} p ≡ oom) ⊎ (stopped {A = A} p ≡ panics)
unfolding stopped
stopped_cases memory_exhausted = inl refl
stopped_cases assertion_failed = inr refl
stopped_cases divide_by_zero = inr refl
stopped_cases out_of_bounds = inr refl
stopped_cases arithmetic_overflow = inr refl
stopped_cases todo_reached = inr refl
stopped_cases unreachable_reached = inr refl
stopped_cases unwrap_failed = inr refl
stopped_cases explicit_panic = inr refl

after_stop-Served :
    {F C : Type 0} {n size : ℕ} (s : Inner F C) (b : BucketIndex)
    → Steady n size b.index s
    → (r : Poll F) → (r ≡ oom) ⊎ (r ≡ panics)
    → Served n size b.index (after_input_stream s b r)
unfolding after_input_stream
after_stop-Served s b st oom which =
    give_up-Served s b st out_of_memory out_of_memory_done (inl refl)
after_stop-Served s b st panics which = give_up-Served s b st panicked panic_done (inr refl)
after_stop-Served s b st ready which = absurd (ground arith)
after_stop-Served s b st (pending f) which = absurd (ground arith)

module _ {F C : Type 0} (poll_future : F → List (Action C) × Poll F)
    (poll_connection : C → List (Action C) × Poll C) {n size : ℕ} (s : Inner F C) (b : BucketIndex)
    (st : Steady n size b.index s) (h : Held s b.index) where
  pub input_stream_job-Served :
      ((fut : F) → AllOwn b.index (poll_future fut).0)
      → Served n size b.index (input_stream_job poll_future poll_connection s b)
  unfolding input_stream_job after_input_stream
  input_stream_job-Served own = go (s.futures b.index) refl
    where
      polled :
          (fut : F) (r : Result (Unit {0}))
          → s.futures b.index ≡ some fut
          → (act_all s (poll_future fut).0).result ≡ r
          → let o = act_all s (poll_future fut).0 in
            Served n size b.index (
              after_input_stream o.state b
                (elim r [ ok _ ↦ (poll_future fut).1 | panic p ↦ stopped p ]))
      polled fut (ok a) was e =
          let kept = act_all-Kept s (poll_future fut).0 (own fut) st h in
          after_input_stream-Served (act_all s (poll_future fut).0).state b kept.steady
            (kept.still_held a e) fut (poll_future fut).1 (kept.same_futures b.index ∙ was)
      polled fut (panic p) was e =
          let kept = act_all-Kept s (poll_future fut).0 (own fut) st h in
          elim (stopped_cases {A = F} p) [
            | inl e ↦ rw e (
                after_stop-Served (act_all s (poll_future fut).0).state b kept.steady oom
                  (inl refl))
            | inr e ↦ rw e (
                after_stop-Served (act_all s (poll_future fut).0).state b kept.steady panics
                  (inr refl))
          ]

      go :
          (f : Option F)
          → s.futures b.index ≡ f
          → Served n size b.index (elim f as (λ _. Outcome (Inner F C) Verdict) [
            | none ↦ after_input_stream s b panics
            | some fut ↦
                let o = act_all s (poll_future fut).0 in
                after_input_stream o.state b (poll_result o (poll_future fut).1)
          ])
      go none was = give_up-Served s b st panicked panic_done (inr refl)
      go (some fut) was = polled fut (act_all s (poll_future fut).0).result was refl

  pub http_connection_job-Served :
      (c : ConnectionIndex) (o : ℕ)
      → ((conn : C) → AllOwn b.index (poll_connection conn).0)
      → c.index ≡ b.index * s.io_resources.http_connections + o
      → o < s.io_resources.http_connections
      → Served n size b.index (http_connection_job poll_future poll_connection s b c)
  unfolding http_connection_job after_http_connection
  http_connection_job-Served c o own place lt = go (s.connections c.index) refl
    where
      polled :
          (conn : C) (r : Result (Unit {0}))
          → s.connections c.index ≡ occupied conn
          → (act_all s (poll_connection conn).0).result ≡ r
          → let o = act_all s (poll_connection conn).0 in
            Served n size b.index (
              after_http_connection o.state b c
                (elim r [ ok _ ↦ (poll_connection conn).1 | panic p ↦ stopped p ]))
      polled conn (ok a) was e =
          let kept = act_all-Kept s (poll_connection conn).0 (own conn) st h in
          let same : s.io_resources.http_connections
              ≡ (act_all s (poll_connection conn).0).state.io_resources.http_connections =
            sym (ap (λ (r : IoResources). r.http_connections) kept.same_resources) in
          after_http_connection-Served (act_all s (poll_connection conn).0).state b kept.steady
            (kept.still_held a e) c o conn (poll_connection conn).1
            (subst (λ http. c.index ≡ b.index * http + o) same place)
            (subst (λ http. o < http) same lt) (kept.same_occupied c.index conn was)
      polled conn (panic p) was e =
          let kept = act_all-Kept s (poll_connection conn).0 (own conn) st h in
          elim (stopped_cases {A = C} p) [
            | inl e ↦ rw e (
                give_up-Served (act_all s (poll_connection conn).0).state b kept.steady
                  out_of_memory out_of_memory_done (inl refl))
            | inr e ↦ rw e (kept.steady, tt)
          ]

      go :
          (slot : Slot C)
          → s.connections c.index ≡ slot
          → Served n size b.index (elim slot as (λ _. Outcome (Inner F C) Verdict) [
            | empty ↦ returns s continues
            | reserved ↦ fails s explicit_panic
            | occupied conn ↦
                let o = act_all s (poll_connection conn).0 in
                after_http_connection o.state b c (poll_result o (poll_connection conn).1)
          ])
      go empty was = (st, h)
      go reserved was = (st, tt)
      go (occupied conn) was = polled conn (act_all s (poll_connection conn).0).result was refl
