-- ===== src/Allocator/Bump.antt =====
-- shared/src/allocator.rs: what one allocation, and a sequence of them, takes from an arena.
use native.Mathlib.Nat.{
  one-le-pow, pow-le-pow_right, pow-suc, div-add-mod', add-mul-mod_self_right, mod-lt,
}
use nea.Base.{
  ℕ, zero, suc, ◌+◌, ◌-◌, ◌*◌, ◌/◌, ◌%◌, ◌^◌, ◌≤◌, ◌<◌, ◌≡◌, inl, inr, ap, subst, ◌∙◌, arith,
  Bool-cases, false, Option, none, some, List, [], ◌∷◌, ltb, ◌==◌, bit_and, bit_and_round_down, u64,
}
use nea.Allocator.{Layout, try_alloc_help, align_mask_to_round_down, max_supported_align}

-- The exponent of an alignment that is a power of two, up to the page size.
abbrev pub IsPower : Layout → ℕ → Type 0
IsPower l k = (k ≤ 12) × (l.align ≡ 2 ^ k)

-- An arena of `size` bytes at an address that is a multiple of the page size, inside the address
-- space and not at 0, with its unused part at the bottom.
pub record IsArena (origin size remaining : ℕ) : Type 0 where
  pub aligned : origin % 4096 ≡ 0
  pub mapped : 0 < origin
  pub in_space : origin + size < 2 ^ 64
  pub fits : remaining ≤ size

power_le : (k : ℕ) → k ≤ 12 → 2 ^ k ≤ 4096
power_le k h = pow-le-pow_right {n = 2} (omega arith) {i = k} {j = 12} h

multiple : (m p : ℕ) → 0 < p → m * p % p ≡ 0
multiple m p h = grind arith

halve_power : (x k : ℕ) → x % 2 ^ suc k ≡ 0 → x % 2 ^ k ≡ 0
halve_power x k h =
    let m = x / 2 ^ suc k in
    let e : m * 2 * 2 ^ k ≡ x =
      omega (arith, div-add-mod' x (2 ^ suc k), ap (λ (d : ℕ). m * d) (pow-suc 2 k)) in
    subst (λ y. y % 2 ^ k ≡ 0) e (multiple (m * 2) (2 ^ k) (one-le-pow k 2 (omega arith)))

-- A multiple of 2^(k + j) is a multiple of 2^k.
smaller_power : (x j k : ℕ) → x % 2 ^ (j + k) ≡ 0 → x % 2 ^ k ≡ 0
smaller_power x zero k h = subst (λ (e : ℕ). x % 2 ^ e ≡ 0) {x = 0 + k} {y = k} (omega arith) h
smaller_power x (suc j) k h = smaller_power x j k (
    halve_power x (j + k)
      (subst (λ (e : ℕ). x % 2 ^ e ≡ 0) {x = suc j + k} {y = suc (j + k)} (omega arith) h))

page_multiple : (x k : ℕ) → x % 4096 ≡ 0 → k ≤ 12 → x % 2 ^ k ≡ 0
page_multiple x k h le =
    smaller_power x (12 - k) k
      (subst (λ (e : ℕ). x % 2 ^ e ≡ 0) {x = 12} {y = 12 - k + k} (omega arith) h)

sum_multiple : (x m p : ℕ) → 0 < p → x % p ≡ 0 → (x + m * p) % p ≡ 0
sum_multiple x m p pos h = add-mul-mod_self_right x m p ∙ h

-- What an allocation of a supported alignment does: without room for the size it fails and leaves
-- the arena alone; otherwise the block lies in what remained, below all of what was taken before,
-- is aligned, and wastes less than the alignment.
pub data Allocates (l : Layout) (origin remaining : ℕ) : Option ℕ → ℕ → Type 0 where
  full : remaining < l.size → Allocates l origin remaining none remaining
  block :
      (left : ℕ)
      → left + l.size ≤ remaining
      → remaining < left + l.size + l.align
      → (origin + left) % l.align ≡ 0
      → Allocates l origin remaining (some (origin + left)) left

-- An allocation at an alignment that is a power of two up to the page size, from an arena at a page
-- address inside the address space: without room for the size it fails and leaves the arena alone;
-- otherwise the block lies in what remained, what remains then lies below it, it is aligned, and
-- less than the alignment is wasted.
pub try_alloc_help-Allocates :
    (l : Layout) (k origin size remaining : ℕ)
    → IsPower l k
    → IsArena origin size remaining
    → let (result, left) = try_alloc_help l origin remaining in
      Allocates l origin remaining result left
unfolding try_alloc_help
try_alloc_help-Allocates l k origin size remaining (le, power) arena =
    elim (Bool-cases (ltb remaining l.size)) [
      | inl small ↦ rw (supported, small) (full (ground arith))
      | inr room ↦
          let d = remaining - l.size in
          let left = d / 2 ^ k * 2 ^ k in
          let rounded : bit_and d (2 ^ 64 - 2 ^ k) ≡ left =
            bit_and_round_down 64 k d (omega (arith, arena)) (omega arith) in
          let rest : left + d % 2 ^ k ≡ d = div-add-mod' d (2 ^ k) in
          let small : d % 2 ^ k < 2 ^ k = mod-lt d {m = 2 ^ k} positive in
          let address : u64 (origin + left) ≡ origin + left = omega (arith, arena, rest) in
          let mapped : (origin + left == 0) ≡ false = ground (arith, arena.mapped) in
          rw (supported, room, mask_eq, rounded, address, mapped)
            (block left (ground (arith, rest)) (ground (arith, rest, small)) (
              rw power (
                sum_multiple origin (d / 2 ^ k) (2 ^ k) positive
                  (page_multiple origin k arena.aligned le))))
    ]
  where
    positive : 0 < 2 ^ k
    positive = one-le-pow k 2 (omega arith)

    supported : ltb 4096 l.align ≡ false
    supported = ground (arith, power_le k le)

    mask_eq : align_mask_to_round_down l.align ≡ 2 ^ 64 - 2 ^ k
    mask_eq = omega (arith, power_le k le, positive)

-- An alignment above the page size is never served.
pub try_alloc_help_unsupported :
    (l : Layout) (origin remaining : ℕ)
    → max_supported_align < l.align
    → try_alloc_help l origin remaining ≡ (none, remaining)
unfolding try_alloc_help
try_alloc_help_unsupported l origin remaining h = ground arith

-- A sequence of allocations from one arena: the blocks that it gave out, the first first, each with
-- its size, and what remains.
pub alloc_all : ℕ → ℕ → List Layout → List (ℕ × ℕ) × ℕ
alloc_all origin remaining [] = ([], remaining)
alloc_all origin remaining (l ∷ ls) =
    let (result, left) = try_alloc_help l origin remaining in
    let (blocks, rest) = alloc_all origin left ls in
    (elim result [ none ↦ blocks | some p ↦ (p, l.size) ∷ blocks ], rest)

-- Blocks from `top` downwards, each below the one before, down to `bottom`.
abbrev pub Stacked : ℕ → ℕ → List (ℕ × ℕ) → Type 0
Stacked bottom top [] = bottom ≤ top
Stacked bottom top ((p, n) ∷ blocks) = (p + n ≤ top) × Stacked bottom p blocks

abbrev pub AllPowers : List Layout → Type 0
AllPowers [] = Unit
AllPowers (l ∷ ls) = ((k : ℕ) × IsPower l k) × AllPowers ls

-- The blocks of any sequence of allocations, at alignments that are powers of two up to the page
-- size, from an arena at a page address inside the address space do not overlap: each lies below
-- the one before it, the first below the end of what remained at the start, and the last above what
-- remains at the end.
pub alloc_all-Stacked :
    (origin size remaining : ℕ) (ls : List Layout)
    → IsArena origin size remaining
    → AllPowers ls
    → let (blocks, rest) = alloc_all origin remaining ls in
      Stacked (origin + rest) (origin + remaining) blocks
unfolding alloc_all
alloc_all-Stacked origin size remaining [] arena powers = omega arith
alloc_all-Stacked origin size remaining (l ∷ ls) arena ((k, power), powers) =
    go (try_alloc_help l origin remaining).0 (try_alloc_help l origin remaining).1
      (try_alloc_help-Allocates l k origin size remaining power arena)
      (λ left h.
        alloc_all-Stacked origin size left ls
          (record {
            aligned = arena.aligned;
            mapped = arena.mapped;
            in_space = arena.in_space;
            fits = omega (arith, arena.fits);
          })
          powers)
  where
    go :
        (result : Option ℕ) (left : ℕ)
        → Allocates l origin remaining result left
        → ((left : ℕ)
            → left ≤ remaining
            → Stacked
                (origin + (alloc_all origin left ls).1)
                (origin + left)
                (alloc_all origin left ls).0)
        → Stacked (origin + (alloc_all origin left ls).1) (origin + remaining) (elim result [
          | none ↦ (alloc_all origin left ls).0
          | some p ↦ (p, l.size) ∷ (alloc_all origin left ls).0
        ])
    go none left (full h) rest = rest left (omega arith)
    go (some p) left (block left' fits near aligned) rest = (omega arith, rest left' (omega arith))
