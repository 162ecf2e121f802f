-- ===== src/Allocator.antt =====
-- shared/src/allocator.rs: bump allocation from the top of an arena down, one arena for the time
-- before the first request and one for each bucket, and clearing a bucket as a whole.
-- An address is a number; `mmap` is the parameter `ptr`, the address that it returned or none.
pub mod Bump
pub mod Arenas
mod Tests
use nea.Base.{
  ℕ, zero, suc, ◌+◌, ◌-◌, ◌*◌, ◌%◌, ◌^◌, ltb, ◌==◌, if◌then◌else◌, Option, none, some, bit_and,
  update, u64, Result, ok, panic, out_of_bounds,
}

abbrev pub initial_arena_size : ℕ
initial_arena_size = 4096 * 128

abbrev pub max_supported_align : ℕ
max_supported_align = 4096

-- `std::alloc::Layout`, whose alignment is a power of two.
pub record Layout : Type 0 where
  pub size : ℕ
  pub align : ℕ

pub record Bucket : Type 0 where
  pub start : ℕ
  pub size : ℕ
  pub remaining : ℕ

pub record ServerAlloc : Type 0 where
  pub initial_arena : ℕ
  pub initial_arena_remaining : ℕ
  pub bucket_count : ℕ
  pub bucket : ℕ → Bucket

-- `ServerAlloc::new`, for an arena that the loader has put at the given address.
pub new : ℕ → ServerAlloc
new arena = record {
  initial_arena = arena;
  initial_arena_remaining = initial_arena_size;
  bucket_count = 0;
  bucket = λ _. record { start = 0; size = 0; remaining = 0 };
}

-- `NonNull::new`.
abbrev pub non_null : ℕ → Option ℕ
non_null p = if p == 0 then none else some p

-- `!(align - 1)` in 64 bits.
abbrev pub align_mask_to_round_down : ℕ → ℕ
align_mask_to_round_down align = 2 ^ 64 - 1 - (align - 1)

-- The block and the bytes that remain.
pub try_alloc_help : Layout → ℕ → ℕ → Option ℕ × ℕ
try_alloc_help l origin remaining =
    let left = bit_and (remaining - l.size) (align_mask_to_round_down l.align) in
    if ltb max_supported_align l.align
    then (none, remaining)
    else if ltb remaining l.size
    then (none, remaining)
    else (non_null (u64 (origin + left)), left)

unfoldable pub try_allocate_in_initial_bucket : ServerAlloc → Layout → Option ℕ × ServerAlloc
try_allocate_in_initial_bucket a l =
    let (block, left) = try_alloc_help l a.initial_arena a.initial_arena_remaining in
    (block, record a { initial_arena_remaining = left })

abbrev pub set_remaining : ServerAlloc → ℕ → ℕ → ServerAlloc
set_remaining a i n = record a {
  bucket = update a.bucket i (record (a.bucket i) { remaining = n });
}

-- A bucket that does not exist has no room.
unfoldable pub try_allocate_in_bucket : ServerAlloc → Layout → ℕ → Option ℕ × ServerAlloc
try_allocate_in_bucket a l i =
    let (block, left) = try_alloc_help l (a.bucket i).start (a.bucket i).remaining in
    if ltb i a.bucket_count then (block, set_remaining a i left) else (none, a)

pub clear_bucket : ServerAlloc → ℕ → Result ServerAlloc
clear_bucket a i =
    if ltb i a.bucket_count then ok (set_remaining a i (a.bucket i).size) else panic out_of_bounds

-- The buckets lie one behind the other from the address that `mmap` returned; `none` is its error.
unfoldable pub initialize_at : ServerAlloc → ℕ → ℕ → Option ℕ → Option ServerAlloc
initialize_at a number_of_buckets bucket_size none = none
initialize_at a number_of_buckets bucket_size (some ptr) = some (record a {
  bucket_count = number_of_buckets;
  bucket =
      λ i. record { start = ptr + i * bucket_size; size = bucket_size; remaining = bucket_size };
})

unfoldable pub initialize_buckets : ServerAlloc → ℕ → ℕ → Option ℕ → Option ServerAlloc
initialize_buckets = initialize_at
