-- ===== src/Allocator/Arenas.antt =====
-- shared/src/allocator.rs: the arenas of the buckets, side by side.
use nea.Base.{
  ℕ, ◌+◌, ◌*◌, ◌%◌, ◌^◌, ◌≤◌, ◌<◌, ◌≡◌, ◌≢◌, refl, arith, Option, none, some, ok, ltb, ◌==◌, true,
}
use nea.Allocator.{
  ServerAlloc, set_remaining, Layout, initialize_buckets, initialize_at, clear_bucket,
  try_allocate_in_bucket, try_alloc_help,
}
use nea.Allocator.Bump.{IsArena, IsPower, Allocates, full, block, try_alloc_help-Allocates}

-- The allocator after a successful `mmap` of `n` buckets of `size` bytes, a multiple of the page
-- size, at the page `ptr`: each bucket is an arena, and those of two buckets do not overlap.
pub record IsReady (n size : ℕ) (a : ServerAlloc) : Type 0 where
  pub count : a.bucket_count ≡ n
  pub sizes : (i : ℕ) → i < n → (a.bucket i).size ≡ size
  pub arenas : (i : ℕ) → i < n → IsArena (a.bucket i).start size (a.bucket i).remaining
  pub apart : (i j : ℕ) → i < j → j < n → (a.bucket i).start + size ≤ (a.bucket j).start

place_le : (i j s : ℕ) → i < j → i * s + s ≤ j * s
place_le i j s h = grind arith

-- If `mmap` gives a page address above 0 with room for `n` buckets of some pages below the end of
-- the address space, each bucket is set up at a page address, apart from the others, with all of
-- its memory.
pub initialize_buckets-IsReady :
    (a : ServerAlloc) (n pages ptr : ℕ)
    → ptr % 4096 ≡ 0
    → 0 < ptr
    → ptr + n * (pages * 4096) < 2 ^ 64
    → (a' : ServerAlloc) × (initialize_buckets a n (pages * 4096) (some ptr) ≡ some a')
      × IsReady n (pages * 4096) a'
      × ((i : ℕ) → (a'.bucket i).remaining ≡ pages * 4096)
unfolding initialize_buckets initialize_at
initialize_buckets-IsReady a n pages ptr page mapped room = (_, refl, ready, λ i. refl)
  where
    size : ℕ
    size = pages * 4096

    ready : IsReady n size (record a {
      bucket_count = n;
      bucket = λ i. record { start = ptr + i * size; size = size; remaining = size };
    })
    ready = record {
      count = refl;
      sizes = λ i lt. refl;
      arenas = λ i lt. record {
        aligned = omega (arith, page);
        mapped = omega arith;
        in_space = omega (arith, place_le i n size lt);
        fits = omega arith;
      };
      apart = λ i j lt j_lt. omega (arith, place_le i j size lt);
    }

-- Bucket `i` has a new remainder that fits, and the others are as they were.
set_remaining-IsReady :
    (a : ServerAlloc) (i left n size : ℕ)
    → IsReady n size a
    → left ≤ size
    → IsReady n size (set_remaining a i left)
set_remaining-IsReady a i left n size ready fits = record {
  count = ready.count;
  sizes = λ j lt. ground (arith, ready.sizes j lt);
  arenas = λ j lt. record {
    aligned = ground (arith, ready.arenas j lt);
    mapped = ground (arith, ready.arenas j lt);
    in_space = ground (arith, ready.arenas j lt);
    fits = ground (arith, ready.arenas j lt);
  };
  apart = λ j k lt k_lt. ground (arith, ready.apart j k lt k_lt);
}

Allocates-le :
    (l : Layout) (origin remaining left : ℕ) (result : Option ℕ)
    → Allocates l origin remaining result left
    → left ≤ remaining
Allocates-le l origin remaining left none (full h) = omega arith
Allocates-le l origin remaining left (some p) (block left' fits near aligned) = omega arith

-- An allocation in one of the `n` buckets that are set up, at an alignment that is a power of two
-- up to the page size, does what an allocation in the arena of that bucket does, keeps the buckets
-- apart, and changes no other bucket.
pub try_allocate_in_bucket-Allocates :
    (a : ServerAlloc) (l : Layout) (k i n size : ℕ)
    → IsPower l k
    → IsReady n size a
    → i < n
    → let (result, a') = try_allocate_in_bucket a l i in
      Allocates l (a.bucket i).start (a.bucket i).remaining result (a'.bucket i).remaining
      × IsReady n size a'
      × ((j : ℕ) → j ≢ i → a'.bucket j ≡ a.bucket j)
unfolding try_allocate_in_bucket
try_allocate_in_bucket-Allocates a l k i n size power ready lt =
    let exists : ltb i a.bucket_count ≡ true = ground (arith, ready.count) in
    let self : (i == i) ≡ true = ground arith in
    let took =
      try_alloc_help-Allocates l k (a.bucket i).start size (a.bucket i).remaining power
        (ready.arenas i lt) in
    let left = (try_alloc_help l (a.bucket i).start (a.bucket i).remaining).1 in
    rw (exists, self)
      (
        took,
        set_remaining-IsReady a i left n size ready (
            omega (
              arith,
              (ready.arenas i lt).fits,
              Allocates-le l (a.bucket i).start (a.bucket i).remaining left
                  (try_alloc_help l (a.bucket i).start (a.bucket i).remaining).0 took,
            )),
        λ j ne. ground arith,
      )

-- Clearing one of the `n` buckets that are set up returns, gives back all of its memory, keeps the
-- buckets apart, and changes no other bucket.
pub clear_bucket-IsReady :
    (a : ServerAlloc) (i n size : ℕ)
    → IsReady n size a
    → i < n
    → (a' : ServerAlloc) × (clear_bucket a i ≡ ok a')
      × ((a'.bucket i).remaining ≡ size)
      × IsReady n size a'
      × ((j : ℕ) → j ≢ i → a'.bucket j ≡ a.bucket j)
unfolding clear_bucket
clear_bucket-IsReady a i n size ready lt =
    let exists : ltb i a.bucket_count ≡ true = ground (arith, ready.count) in
    rw exists (
      set_remaining a i (a.bucket i).size,
      refl,
      ground (arith, ready.sizes i lt),
      set_remaining-IsReady a i (a.bucket i).size n size ready (omega (arith, ready.sizes i lt)),
      λ j ne. ground arith,
    )

pub clear_bucket-others :
    (a : ServerAlloc) (i : ℕ) {a' : ServerAlloc}
    → clear_bucket a i ≡ ok a'
    → (x : ℕ) → x ≢ i
    → a'.bucket x ≡ a.bucket x
unfolding clear_bucket
clear_bucket-others a i e x ne = ground arith
