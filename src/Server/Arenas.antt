-- ===== src/Server/Arenas.antt =====
-- nea/src/lib.rs: what a thread gets from the arena of its number.
use nea.Base.{
  ℕ, ◌+◌, ◌-◌, ◌%◌, ◌^◌, ◌==◌, ◌≤◌, ◌<◌, ◌≡◌, ◌≢◌, inl, inr, refl, arith, false, ◌||◌, Bool-cases,
  ltb, Option, none, some,
}
use nea.Allocator.{Layout, ServerAlloc, try_allocate_in_bucket, try_allocate_in_initial_bucket}
use nea.Allocator.Bump.{IsPower, Allocates, full, block as taken}
use nea.Allocator.Arenas.{IsReady, try_allocate_in_bucket-Allocates}
use nea.Server.{Allocation, null, block, system, jumps, or_jump, alloc}

-- The arena of a bucket, and none of the special numbers.
abbrev pub IsBucket : ℕ → ℕ → Type 0
IsBucket n arena = (arena < n) × (n ≤ 2 ^ 32 - 4)

-- What a worker gets from the rest of a bucket from `start` on, of which `left` bytes are left
-- behind it: a jump, only if the rest is too small for the size, and then nothing is taken; or an
-- aligned block in the rest, above what is left.
abbrev pub Given : Layout → (start remaining left : ℕ) → Allocation → Type 0
Given l start remaining left null = ⊥
Given l start remaining left (system l') = ⊥
Given l start remaining left jumps = (remaining < l.size) × (left ≡ remaining)
Given l start remaining left (block p) =
    (p ≡ start + left) × (left + l.size ≤ remaining) × (p % l.align ≡ 0)

Given-of :
    (l : Layout) (start remaining left : ℕ) (r : Option ℕ)
    → Allocates l start remaining r left
    → Given l start remaining left (or_jump r)
Given-of l start remaining left none (full h) = (h, refl)
Given-of l start remaining left (some p) (taken left' fits near aligned) = (refl, fits, aligned)

-- A worker in one of `n` buckets that are set up, at most 2^32 - 4, allocates at an alignment that
-- is a power of two up to the page size: it gets an aligned block of the rest of its own bucket,
-- above what is left then, or it jumps, and only if the rest is smaller than the size. The buckets
-- stay apart, and no other bucket changes.
pub alloc-Given :
    (a : ServerAlloc) (l : Layout) (k arena n size : ℕ)
    → IsPower l k
    → IsReady n size a
    → arena < n
    → n ≤ 2 ^ 32 - 4
    → let (given, a') = alloc arena a l in
      Given l (a.bucket arena).start (a.bucket arena).remaining (a'.bucket arena).remaining given
      × IsReady n size a'
      × ((j : ℕ) → j ≢ arena → a'.bucket j ≡ a.bucket j)
unfolding alloc
alloc-Given a l k arena n size power ready lt few =
    let (spec, ready', others) =
      try_allocate_in_bucket-Allocates a l k arena n size power ready lt in
    let (own, a') = try_allocate_in_bucket a l arena in
    let main : (arena == 2 ^ 32 - 1) ≡ false = ground arith in
    let executor : (arena == 2 ^ 32 - 2) ≡ false = ground arith in
    let reactor : (arena == 2 ^ 32 - 3) ≡ false = ground arith in
    let early : (arena == 2 ^ 32 - 4) ≡ false = ground arith in
    rw (main, executor, reactor, early)
      (
        Given-of l (a.bucket arena).start (a.bucket arena).remaining (a'.bucket arena).remaining own
            spec,
        ready',
        others,
      )

-- A thread whose arena is not that of a bucket, such as the main thread, allocates from no bucket.
pub alloc_outside :
    (a : ServerAlloc) (l : Layout) (arena : ℕ)
    → a.bucket_count ≤ arena
    → (alloc arena a l).1.bucket ≡ a.bucket
unfolding alloc try_allocate_in_bucket try_allocate_in_initial_bucket
alloc_outside a l arena outside =
    let missing : ltb arena a.bucket_count ≡ false = ground arith in
    elim (Bool-cases (arena == 2 ^ 32 - 1)) [
      | inl main ↦ rw main refl
      | inr not_main ↦ elim (Bool-cases (arena == 2 ^ 32 - 2 || arena == 2 ^ 32 - 3)) [
        | inl other ↦ rw (not_main, other) refl
        | inr not_other ↦ elim (Bool-cases (arena == 2 ^ 32 - 4)) [
          | inl early ↦ rw (not_main, not_other, early) refl
          | inr not_early ↦ rw (not_main, not_other, not_early, missing) refl
        ]
      ]
    ]
