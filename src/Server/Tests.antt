-- ===== src/Server/Tests.antt =====
-- Workers in two buckets of two pages each, and the main thread.
use nea.Base.{ℕ, ◌+◌, ◌*◌, ◌≡◌, ◌≢◌, refl, arith}
use nea.Allocator.{ServerAlloc, Layout}
use nea.Allocator.Arenas.{IsReady}
use nea.Server.{alloc}
use nea.Server.Arenas.{alloc-Given, Given}

abbrev word : Layout
word = record { size = 20; align = 8 }

abbrev arenas : ServerAlloc
arenas = record {
  initial_arena = 4096;
  initial_arena_remaining = 524288;
  bucket_count = 2;
  bucket = λ i. record { start = 40960 + i * 8192; size = 8192; remaining = 8000 };
}

two_arenas-IsReady : IsReady 2 8192 arenas
two_arenas-IsReady = record {
  count = refl;
  sizes = λ i lt. refl;
  arenas = λ i lt. record {
    aligned = omega arith;
    mapped = omega arith;
    in_space = omega arith;
    fits = omega arith;
  };
  apart = λ i j lt j_lt. omega arith;
}

alloc-Given_example :
    Given word 49152 8000 ((alloc 1 arenas word).1.bucket 1).remaining (alloc 1 arenas word).0
    × IsReady 2 8192 (alloc 1 arenas word).1
    × ((j : ℕ) → j ≢ 1 → (alloc 1 arenas word).1.bucket j ≡ arenas.bucket j)
alloc-Given_example =
    alloc-Given arenas word 3 1 2 8192 (omega arith, refl) two_arenas-IsReady (omega arith)
      (omega arith)
