-- ===== src/Executor/Claim.antt =====
-- nea/src/executor.rs: which bucket a new request gets.
use native.Mathlib.Decide.{ℕ_discrete}
use nea.Base.{
  ℕ, zero, suc, ◌+◌, ◌%◌, ◌^◌, ◌==◌, ◌≤◌, ◌<◌, ◌≡◌, ◌≢◌, ◌⊎◌, inl, inr, refl, subst, arith,
  Bool-cases, Bool, true, false, Option, none, some, update, not, ◌&&◌,
}
use nea.Index.{BucketIndex}
use nea.Executor.{Inner, try_claim, try_claim_from}

-- A bucket that `try_claim` passes over: its count is not 0, or another thread has it locked.
abbrev pub IsTaken : {F C : Type 0} → (ℕ → Bool) → Inner F C → ℕ → Type 0
IsTaken locked s x = (s.refcounts x ≢ 0) ⊎ (locked x ≡ true)

-- What `try_claim` does: `none`, and no change, only if all buckets from `i` on are taken; else the
-- first one that is not, whose count is then 1. Nothing else changes.
abbrev pub Claims :
    {F C : Type 0} → (ℕ → Bool) → Inner F C → ℕ → Option BucketIndex → Inner F C → Type 0
Claims locked s i none s' = (s' ≡ s) × ((x : ℕ) → i ≤ x → x < s.bucket_count → IsTaken locked s x)
Claims locked s i (some b) s' =
    (b.index < s.bucket_count)
    × (s.refcounts b.index ≡ 0)
    × (locked b.index ≡ false)
    × ((x : ℕ) → i ≤ x → x < b.index → IsTaken locked s x)
    × (s' ≡ record s { refcounts = update s.refcounts b.index 1 })

module _ {F C : Type 0} (locked : ℕ → Bool) (s : Inner F C) where
  Claims-earlier :
      (i : ℕ) (found : Option BucketIndex) (s' : Inner F C)
      → IsTaken locked s i
      → Claims locked s (i + 1) found s'
      → Claims locked s i found s'
  Claims-earlier i none s' taken (same, rest) = (
    same,
    λ x above below. elim (ℕ_discrete i x) [
      | yes e ↦ subst (IsTaken locked s) e taken
      | no e ↦ rest x (omega arith) below
    ],
  )
  Claims-earlier i (some b) s' taken (lt, free, open_, rest, eq) = (
    lt,
    free,
    open_,
    (λ x above below. elim (ℕ_discrete i x) [
      | yes e ↦ subst (IsTaken locked s) e taken
      | no e ↦ rest x (omega arith) below
    ]),
    eq,
  )

  try_claim_from-Claims :
      (left i : ℕ)
      → i + left ≡ s.bucket_count
      → s.bucket_count < 2 ^ 32
      → let (found, s') = try_claim_from locked s left i in Claims locked s i found s'
  unfolding try_claim_from
  try_claim_from-Claims zero i e small = (refl, λ x above below. absurd (omega arith))
  try_claim_from-Claims (suc left) i e small =
      let index : i % 2 ^ 32 ≡ i = omega arith in
      elim (Bool-cases (not (locked i) && s.refcounts i == 0)) [
        | inl free ↦
            rw (free, index)
              (
                omega arith,
                ground arith,
                ground arith,
                (λ x above below. absurd (omega arith)),
                refl,
              )
        | inr taken ↦ rw taken (
            Claims-earlier i (try_claim_from locked s left (i + 1)).0
              (try_claim_from locked s left (i + 1)).1 (ground arith)
              (try_claim_from-Claims left (i + 1) (omega arith) small))
      ]

  -- For fewer than 2^32 buckets, `try_claim` returns `none` and changes nothing only if each bucket
  -- is locked by another thread or has a count that is not 0; otherwise it returns the first bucket
  -- that is neither, whose count is then 1, and changes nothing else.
  pub try_claim-Claims :
      s.bucket_count < 2 ^ 32 → let (found, s') = try_claim locked s in Claims locked s 0 found s'
  unfolding try_claim
  try_claim-Claims small = try_claim_from-Claims s.bucket_count 0 (omega arith) small
