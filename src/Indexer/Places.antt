-- ===== src/Indexer/Places.antt =====
-- shared/src/indexer.rs: which place `insert` takes.
use native.Mathlib.Decide.{ℕ_discrete}
use nea.Base.{
  ℕ, zero, suc, ◌+◌, ◌==◌, ◌≤◌, ◌<◌, ◌≡◌, ◌≢◌, refl, arith, subst, Bool-cases, inl, inr, Option,
  none, some, update,
}
use nea.Indexer.{Indexer, insert_from, insert}

-- What `insert` leads to: no place is free, and nothing changes; or the first free place gets the
-- descriptor.
abbrev pub Inserts : Indexer → ℕ → ℕ → Option ℕ → Indexer → Type 0
Inserts x fd i none x' = (x' ≡ x) × ((j : ℕ) → i ≤ j → j < x.size → x.handle j ≢ 0)
Inserts x fd i (some k) x' =
    (k < x.size)
    × (x.handle k ≡ 0)
    × ((j : ℕ) → i ≤ j → j < k → x.handle j ≢ 0)
    × (x' ≡ record x { handle = update x.handle k fd })

Inserts-earlier :
    (x : Indexer) (fd i : ℕ) (found : Option ℕ) (x' : Indexer)
    → x.handle i ≢ 0
    → Inserts x fd (i + 1) found x'
    → Inserts x fd i found x'
Inserts-earlier x fd i none x' ne (same, rest) = (
  same,
  λ j above below. elim (ℕ_discrete i j) [
    | yes e ↦ subst (λ y. x.handle y ≢ 0) e ne
    | no e ↦ rest j (omega arith) below
  ],
)
Inserts-earlier x fd i (some k) x' ne (lt, free, rest, eq) = (
  lt,
  free,
  (λ j above below. elim (ℕ_discrete i j) [
    | yes e ↦ subst (λ y. x.handle y ≢ 0) e ne
    | no e ↦ rest j (omega arith) below
  ]),
  eq,
)

insert_from-Inserts :
    (x : Indexer) (fd left i : ℕ)
    → i + left ≡ x.size
    → let (found, x') = insert_from x fd left i in Inserts x fd i found x'
unfolding insert_from
insert_from-Inserts x fd zero i e = (refl, λ j above below. absurd (omega arith))
insert_from-Inserts x fd (suc left) i e = elim (Bool-cases (x.handle i == 0)) [
  | inl free ↦ rw free (omega arith, ground arith, (λ j above below. absurd (omega arith)), refl)
  | inr used ↦ rw used (
      Inserts-earlier x fd i (insert_from x fd left (i + 1)).0 (insert_from x fd left (i + 1)).1
        (ground arith) (insert_from-Inserts x fd left (i + 1) (omega arith)))
]

-- `insert` returns `none` and changes nothing only if no place is free; otherwise it returns the
-- first free place, which then has the descriptor, and no other place changes.
pub insert-Inserts :
    (x : Indexer) (fd : ℕ) → let (found, x') = insert x fd in Inserts x fd 0 found x'
unfolding insert
insert-Inserts x fd = insert_from-Inserts x fd x.size 0 (omega arith)
