-- ===== src/Examples/OutOfMemory.antt =====
-- nea/examples/oom.rs: a request for `/n` reserves n times 1000 bytes. What the allocator makes of
-- that is a parameter, as is the decoding of UTF-8.
use nea.Base.{
  ℕ, ◌*◌, ◌<◌, ◌^◌, ◌%◌, ◌≡◌, refl, arith, Bool, true, Option, some, List, [], ◌∷◌, ◌++◌,
  if◌then◌else◌, Result, ok, panic, ◌>>=◌, ◌>>◌, unwrap_failed, u64,
}
use nea.Text.{
  Text, codes, crlf, decimal, split_whitespace, spaced, IsWord, AllWords, split_whitespace-spaced,
}
use nea.RustNea.Paths.{parse_usize, parse_usize-decimal, unwrap}
use nea.RustNea.Handlers.{unwrap_text, unwrap_read, behind_slash}
use nea.Examples.{response_head}

-- `nth(1).unwrap()`.
abbrev second_word : List Text → Result Text
second_word [] = panic unwrap_failed
second_word (first ∷ []) = panic unwrap_failed
second_word (first ∷ second ∷ words) = ok second

abbrev allocated : ℕ → Text
allocated kbs =
    response_head
    ++ (codes "successfully allocated " ++ (decimal kbs ++ (codes "kb of memory" ++ crlf)))

-- What the handler writes, with the bytes that it has read, and whether the write succeeds.
oom_handler :
    (List ℕ → Option Text) → (ℕ → Result (Unit {0})) → Option (List ℕ) → Bool → Result Text
oom_handler from_utf8 with_capacity read written = do
  bytes ← unwrap_read read
  string ← unwrap_text (from_utf8 bytes)
  path ← second_word (split_whitespace string)
  num_str ← behind_slash path
  kbs ← unwrap (parse_usize num_str)
  _ ← with_capacity (u64 (kbs * 1000))
  if written then ok (allocated kbs) else panic unwrap_failed

-- A request of words, the second of which is a slash and a number, ends as its allocation does.
oom_handler-words :
    (from_utf8 : List ℕ → Option Text) (with_capacity : ℕ → Result (Unit {0})) (bytes : List ℕ)
    (method : Text) (n : ℕ) (words : List Text)
    → from_utf8 bytes ≡ some (spaced method ((codes "/" ++ decimal n) ∷ words))
    → IsWord method
    → AllWords ((codes "/" ++ decimal n) ∷ words)
    → n < 2 ^ 54
    → oom_handler from_utf8 with_capacity (some bytes) true
      ≡ (with_capacity (n * 1000) >> ok (allocated n))
unfolding oom_handler
oom_handler-words from_utf8 with_capacity bytes method n words decoded word all small = rw decoded (
    rw (split_whitespace-spaced method ((codes "/" ++ decimal n) ∷ words) word all) (
      rw (parse_usize-decimal n (omega arith))
        (let fits : (n * 1000) % 2 ^ 64 ≡ n * 1000 = omega arith in rw fits refl)))
