-- ===== src/Allocator/Tests.antt =====
-- Allocations in two buckets of two pages each.
use nea.Base.{ℕ, ◌+◌, ◌*◌, ◌≡◌, refl, arith, some, [], ◌∷◌}
use nea.Allocator.{ServerAlloc, Layout, try_alloc_help}
use nea.Allocator.Bump.{IsPower, IsArena, alloc_all, Stacked, alloc_all-Stacked}
use nea.Allocator.Arenas.{IsReady}

abbrev words : Layout
words = record { size = 20; align = 8 }

abbrev byte : Layout
byte = record { size = 1; align = 1 }

abbrev page : ℕ
page = 40960

one_page : IsArena page 4096 4096
one_page = record {
  aligned = omega arith;
  mapped = omega arith;
  in_space = omega arith;
  fits = omega arith;
}

words-IsPower : IsPower words 3
words-IsPower = (omega arith, refl)

-- 20 bytes at an alignment of 8 take the top 24 bytes of the page.
words_block : try_alloc_help words page 4096 ≡ (some 45032, 4072)
unfolding try_alloc_help
words_block = refl

alloc_all-Stacked_example :
    Stacked
      (page + (alloc_all page 4096 (words ∷ byte ∷ words ∷ [])).1)
      (page + 4096)
      (alloc_all page 4096 (words ∷ byte ∷ words ∷ [])).0
alloc_all-Stacked_example =
    alloc_all-Stacked page 4096 4096 (words ∷ byte ∷ words ∷ []) one_page
      ((3, words-IsPower), ((0, (omega arith, refl)), ((3, words-IsPower), tt)))

abbrev two_buckets : ServerAlloc
two_buckets = record {
  initial_arena = 4096;
  initial_arena_remaining = 524288;
  bucket_count = 2;
  bucket = λ i. record { start = page + i * 8192; size = 8192; remaining = 8000 };
}

two_buckets-IsReady : IsReady 2 8192 two_buckets
two_buckets-IsReady = record {
  count = refl;
  sizes = λ i lt. refl;
  arenas = λ i lt. record {
    aligned = omega arith;
    mapped = omega arith;
    in_space = omega arith;
    fits = omega arith;
  };
  apart = λ i j lt j_lt. omega arith;
}
