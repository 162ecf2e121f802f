-- ===== src/Executor/Run/Calm.antt =====
-- nea/src/executor.rs: polls that make no job, and what they leave of the queue.
use nea.Base.{ℕ, ◌≡◌, refl, ◌∙◌, arith, List, [], ◌∷◌, ok, panic, Result}
use nea.Allocator.Bump.{IsPower}
use nea.Executor.{
  Inner, Outcome, fails, Action, act, act_all, reserve, populate, wakes, allocates,
  handshake_reserve, reserve_at, allocate_in,
}
use nea.Executor.Run.Actions.{AllOwn}

-- A call that makes no job: a reservation in bucket `b`, or an allocation in its arena at an
-- alignment that is a power of two up to the page size. A wake is none, and neither is what makes a
-- connection ready to be polled.
abbrev pub IsCalm : {C : Type 0} → ℕ → Action C → Type 0
IsCalm b (reserve x) = x.index ≡ b
IsCalm b (populate c conn) = ⊥
IsCalm b (wakes i) = ⊥
IsCalm b (allocates arena l) = (arena ≡ b) × ((k : ℕ) × IsPower l k)

abbrev pub AllCalm : {C : Type 0} → ℕ → List (Action C) → Type 0
AllCalm b [] = Unit
AllCalm b (a ∷ rest) = IsCalm b a × AllCalm b rest

pub calm_own :
    {C : Type 0} (b : ℕ) (actions : List (Action C)) → AllCalm b actions → AllOwn b actions
calm_own b [] calm = tt
calm_own b (reserve x ∷ rest) (own, calm) = (own, calm_own b rest calm)
calm_own b (populate c conn ∷ rest) (own, calm) = absurd own
calm_own b (wakes i ∷ rest) (own, calm) = absurd own
calm_own b (allocates arena l ∷ rest) (own, calm) = (own, calm_own b rest calm)

act-queue :
    {F C : Type 0} (b : ℕ) (s : Inner F C) (a : Action C)
    → IsCalm b a
    → (act s a).state.queue ≡ s.queue
unfolding act handshake_reserve reserve_at allocate_in
act-queue b s (reserve x) calm = ground arith
act-queue b s (populate c conn) calm = absurd calm
act-queue b s (wakes i) calm = absurd calm
act-queue b s (allocates arena l) calm = ground arith

pub act_all-queue :
    {F C : Type 0} (b : ℕ) (s : Inner F C) (actions : List (Action C))
    → AllCalm b actions
    → (act_all s actions).state.queue ≡ s.queue
unfolding act_all
act_all-queue b s [] calm = refl
act_all-queue {F} {C} b s (a ∷ rest) calm =
    go (act s a).result (act_all-queue b (act s a).state rest calm.1)
  where
    go :
        (r : Result (Unit {0}))
        → (act_all (act s a).state rest).state.queue ≡ (act s a).state.queue
        → (elim r as (λ _. Outcome (Inner F C) (Unit {0})) [
          | ok _ ↦ act_all (act s a).state rest
          | panic p ↦ fails (act s a).state p
        ]).state.queue
          ≡ s.queue
    go (ok _) later = later ∙ act-queue b s a calm.0
    go (panic p) later = act-queue b s a calm.0
