-- ===== src/Executor/Start/Streams.antt =====
-- nea/src/lib.rs: what the loop of `run_request_handler` does with a stream.
use nea.Base.{ℕ, ◌<◌, ◌≡◌, Bool, Option, none, some, ◌∷◌, ok, panic, if◌then◌else◌, unwrap_failed}
use nea.Index.{BucketIndex}
use nea.Executor.{Inner, Outcome, returns, fails}
use nea.Executor.Claim.{IsTaken}
use nea.Executor.Start.{claim_and_execute}

module _ {F C : Type 0} where
  -- What the loop does with a stream that no bucket is free for: it shuts the stream down, which may
  -- fail, and the duplicate `fd` of the descriptor is closed when it is dropped, in both cases.
  pub refuse : Bool → Inner F C → ℕ → Outcome (Inner F C) (Unit {0})
  refuse shut_down s fd =
      let s' = record s { closed = fd ∷ s.closed } in
      if shut_down then returns s' tt else fails s' unwrap_failed

  abbrev pub handled :
      Bool
      → ℕ
      → Option BucketIndex × Outcome (Inner F C) (Unit {0})
      → Outcome (Inner F C) (Unit {0})
  handled shut_down fd (none, o) = refuse shut_down o.state fd
  handled shut_down fd (some b, o) = o

  -- The loop of `run_request_handler` on one stream; `shut_down` is whether a `shutdown` succeeds.
  pub accept_stream : Bool → (ℕ → Bool) → Inner F C → ℕ → F → Outcome (Inner F C) (Unit {0})
  accept_stream shut_down locked s fd fut = handled shut_down fd (claim_and_execute locked s fd fut)

  -- Each bucket is locked or has a count above 0, the duplicate of the descriptor is closed, and the
  -- loop goes on exactly if the stream could be shut down.
  abbrev pub Refused :
      ℕ → ℕ → Bool → (ℕ → Bool) → Inner F C → Outcome (Inner F C) (Unit {0}) → Type 0
  Refused n fd shut_down locked s o =
      ((x : ℕ) → x < n → IsTaken locked s x)
      × (o.state ≡ record s { closed = fd ∷ s.closed })
      × (o.result ≡ (if shut_down then ok tt else panic unwrap_failed))
