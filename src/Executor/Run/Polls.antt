-- ===== src/Executor/Run/Polls.antt =====
-- nea/src/executor.rs: the calls of a whole poll.
use nea.Base.{
  ℕ, ◌≡◌, refl, sym, ap, ◌∙◌, arith, assertion_failed, Panic, List, [], ◌∷◌, update, ok, panic,
  Result,
}
use nea.Index.{ConnectionIndex, QueueIndex, from_connection_index}
use nea.Executor.{
  Slot, empty, reserved, occupied, Inner, Outcome, returns, fails, and_then, Action, reserve,
  populate, wakes, allocates, enqueue, handshake_reserve, handshake_populate, act, act_all,
}
use nea.Executor.Run.Balance.{live, live_connections}
use nea.Executor.Run.Actions.{
  Steady, Held, IsOwn, AllOwn, Kept, live-update_same, enqueue-Kept, Kept-queue,
  handshake_reserve-Kept, allocate_in-Kept,
}

-- A call made behind a change that keeps futures, streams and connections that are there.
Kept-behind :
    {F C : Type 0} {A : Type 0} {n size b : ℕ} {s s' : Inner F C} {o : Outcome (Inner F C) A}
    → ((x : ℕ) → s'.futures x ≡ s.futures x)
    → s'.io_resources ≡ s.io_resources
    → ((x : ℕ) → s'.tcp_streams x ≡ s.tcp_streams x)
    → ((c : ℕ) (conn : C) → s.connections c ≡ occupied conn → s'.connections c ≡ occupied conn)
    → Kept n size b s' o
    → Kept n size b s o
Kept-behind futures resources streams conns k = record {
  steady = k.steady;
  same_futures = λ x. k.same_futures x ∙ futures x;
  same_resources = k.same_resources ∙ resources;
  same_streams = λ x. k.same_streams x ∙ streams x;
  same_occupied = λ c conn e. k.same_occupied c conn (conns c conn e);
  still_held = k.still_held;
}

and_then-Kept :
    {F C : Type 0} {A B : Type 0} {n size b : ℕ} {s : Inner F C} (o : Outcome (Inner F C) A)
    (k : Inner F C → A → Outcome (Inner F C) B)
    → Kept n size b s o
    → ((a : A) → Steady n size b o.state → Held o.state b → Kept n size b o.state (k o.state a))
    → Kept n size b s (and_then o k)
and_then-Kept {F} {C} {A} {B} {n} {size} {b} {s} o k kept rest = go o.result refl
  where
    go :
        (r : Result A)
        → o.result ≡ r
        → Kept n size b s (elim r [ ok a ↦ k o.state a | panic p ↦ fails o.state p ])
    go (ok a) e =
        Kept-behind kept.same_futures kept.same_resources kept.same_streams kept.same_occupied
          (rest a kept.steady (kept.still_held a e))
    go (panic p) e = record {
      steady = kept.steady;
      same_futures = kept.same_futures;
      same_resources = kept.same_resources;
      same_streams = kept.same_streams;
      same_occupied = kept.same_occupied;
      still_held = λ a e. cc;
    }

module _ {F C : Type 0} {n size b : ℕ} {s : Inner F C} (st : Steady n size b s) (h : Held s b) where
  -- A call that panics at once changes nothing.
  fails-Kept : {A : Type 0} (p : Panic) → Kept n size b s (fails {A = A} s p)
  fails-Kept p = Kept-queue st h s.queue (panic p) st.queued

  handshake_populate-Kept :
      (c : ConnectionIndex) (conn : C) → Kept n size b s (handshake_populate s c conn)
  unfolding handshake_populate
  handshake_populate-Kept c conn = go (s.connections c.index) refl
    where
      s' : Inner F C
      s' = record s { connections = update s.connections c.index (occupied conn) }

      as_live :
          s.connections c.index ≡ reserved
          → (x : ℕ)
          → live_connections s.io_resources.http_connections s'.connections x
            ≡ live_connections s.io_resources.http_connections s.connections x
      as_live was x =
          live-update_same s.io_resources.http_connections s.connections c.index x (occupied conn)
            (sym (ap live was))

      still_there :
          s.connections c.index ≡ reserved
          → (k : ℕ) (old : C) → s.connections k ≡ occupied old
          → s'.connections k ≡ occupied old
      still_there was k old e = ground arith

      populated_steady : s.connections c.index ≡ reserved → Steady n size b s'
      populated_steady was = record {
        exists = st.exists;
        buckets = st.buckets;
        resources = st.resources;
        few = st.few;
        arenas = st.arenas;
        queued = st.queued;
        others = λ x lt ne. ground (arith, st.others x lt ne, as_live was x);
      }

      populated_held : s.connections c.index ≡ reserved → Held s' b
      populated_held was = record {
        own = ground (arith, h.own, as_live was b);
        some_job = h.some_job;
      }

      populated :
          s.connections c.index ≡ reserved
          → (r : Result QueueIndex)
          → Kept n size b s (elim r [ ok q ↦ enqueue s' q | panic p ↦ fails s' p ])
      populated was (ok q) =
          Kept-behind (λ x. refl) refl (λ x. refl) (still_there was)
            (enqueue-Kept (populated_steady was) (populated_held was) q)
      populated was (panic p) =
          Kept-behind (λ x. refl) refl (λ x. refl) (still_there was)
            (Kept-queue (populated_steady was) (populated_held was) s.queue (panic p) st.queued)

      go :
          (slot : Slot C)
          → s.connections c.index ≡ slot
          → Kept {A = Unit {0}} n size b s (elim slot [
            | reserved ↦ (elim (from_connection_index s.io_resources c) [
              | ok q ↦ enqueue s' q
              | panic p ↦ fails s' p
            ])
            | empty ↦ fails s assertion_failed
            | occupied _ ↦ fails s assertion_failed
          ])
      go reserved e = populated e (from_connection_index s.io_resources c)
      go empty e = fails-Kept assertion_failed
      go (occupied _) e = fails-Kept assertion_failed

  act-Kept : (a : Action C) → IsOwn b a → Kept n size b s (act s a)
  unfolding act
  act-Kept (reserve x) own =
      and_then-Kept (handshake_reserve s x) (λ s' _. returns s' tt)
        (handshake_reserve-Kept st h x own)
        (λ c st' h'. Kept-queue st' h' (handshake_reserve s x).state.queue (ok tt) st'.queued)
  act-Kept (populate c conn) own = handshake_populate-Kept c conn
  act-Kept (wakes i) own = enqueue-Kept st h i
  act-Kept (allocates arena l) (own, (k, power)) = allocate_in-Kept st h arena l k own power

-- All calls of a poll keep the counts, up to a panic.
pub act_all-Kept :
    {F C : Type 0} {n size b : ℕ} (s : Inner F C) (actions : List (Action C))
    → AllOwn b actions
    → Steady n size b s
    → Held s b
    → Kept n size b s (act_all s actions)
unfolding act_all
act_all-Kept s [] own st h = Kept-queue st h s.queue (ok tt) st.queued
act_all-Kept s (a ∷ rest) own st h =
    and_then-Kept (act s a) (λ s' _. act_all s' rest) (act-Kept st h a own.0)
      (λ _ st' h'. act_all-Kept (act s a).state rest own.1 st' h')
