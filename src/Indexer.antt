-- ===== src/Indexer.antt =====
-- shared/src/indexer.rs: a table of file descriptors, in which 0 marks a free place.
pub mod Places
mod Tests
use nea.Base.{
  ℕ, zero, suc, ◌+◌, ◌==◌, ltb, Option, none, some, if◌then◌else◌, update, Result, ok, panic,
  out_of_bounds,
}

pub record Indexer : Type 0 where
  pub size : ℕ
  pub handle : ℕ → ℕ

abbrev pub new : Indexer
new = record { size = 0; handle = λ _. 0 }

pub initialize : ℕ → Indexer
initialize size = record { size = size; handle = λ _. 0 }

-- `insert` from place `i` on, with `left` places to go.
insert_from : Indexer → ℕ → ℕ → ℕ → Option ℕ × Indexer
insert_from x fd zero i = (none, x)
insert_from x fd (suc left) i =
    let rest = insert_from x fd left (i + 1) in
    if x.handle i == 0 then (some i, record x { handle = update x.handle i fd }) else rest

pub insert : Indexer → ℕ → Option ℕ × Indexer
insert x fd = insert_from x fd x.size 0

pub remove : Indexer → ℕ → Result Indexer
remove x i =
    if ltb i x.size then ok (record x { handle = update x.handle i 0 }) else panic out_of_bounds
