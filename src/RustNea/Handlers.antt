-- ===== src/RustNea/Handlers.antt =====
-- benchmarks/rust-nea/src/bin: the handlers of the three benchmarks, which differ in what they
-- respond. The bytes that are read, the decoding of UTF-8, whether the write succeeds and the file
-- are parameters. A write that takes a part of the response is not looked at.
use nea.Base.{
  ℕ, ◌*◌, ◌%◌, ◌^◌, ◌<◌, ◌≡◌, refl, arith, ltb, Bool, true, Option, none, some, List, [], ◌∷◌, ◌++◌,
  if◌then◌else◌, Result, ok, panic, ◌>>=◌, out_of_bounds, unwrap_failed, u64,
}
use nea.Text.{Text, codes, decimal, lines}
use nea.RustNea.{Request, parse, headers_of, format_response}
use nea.RustNea.Messages.{print, IsRequest, parse-print}
use nea.RustNea.Paths.{parse_usize, parse_usize-decimal, unwrap}

abbrev pub unwrap_text : Option Text → Result Text
unwrap_text none = panic unwrap_failed
unwrap_text (some t) = ok t

abbrev unwrap_request : Option Request → Result Request
unwrap_request none = panic unwrap_failed
unwrap_request (some r) = ok r

-- `path[1..]`: a text without a first byte, or with a first character of more bytes, is a panic.
abbrev pub behind_slash : Text → Result Text
behind_slash [] = panic out_of_bounds
behind_slash (c ∷ s) = if ltb c 128 then ok s else panic out_of_bounds

-- `respond` of varying-allocations.rs, where the memory is enough.
varying_allocations : Request → Result Text
varying_allocations request = do
  number ← behind_slash request.path
  n ← unwrap (parse_usize number)
  ok (format_response (decimal (u64 (n * 1024))))

-- `respond` of send-static-file.rs.
abbrev send_static_file : Text → Request → Result Text
send_static_file file request = ok (format_response file)

abbrev pub unwrap_read : Option (List ℕ) → Result (List ℕ)
unwrap_read none = panic unwrap_failed
unwrap_read (some bytes) = ok bytes

module _ (from_utf8 : List ℕ → Option Text) (respond : Request → Result Text) where
  -- What the handler writes.
  answer_request : Option (List ℕ) → Bool → Result Text
  answer_request read written = do
    bytes ← unwrap_read read
    string ← unwrap_text (from_utf8 bytes)
    parsed ← parse string
    request ← unwrap_request parsed
    response ← respond request
    if written then ok response else panic unwrap_failed

-- Where the write succeeds, a well-formed request gets the response to it, with lines of its body
-- among its headers.
answer_request_lem :
    (from_utf8 : List ℕ → Option Text) (respond : Request → Result Text) (bytes : List ℕ)
    (r : Request) (response : Text)
    → from_utf8 bytes ≡ some (print r)
    → IsRequest r
    → respond (record r { headers = r.headers ++ headers_of (lines r.body) }) ≡ ok response
    → answer_request from_utf8 respond (some bytes) true ≡ ok response
unfolding answer_request
answer_request_lem from_utf8 respond bytes r response decoded is e =
    rw decoded (rw (parse-print r is) (rw e refl))

-- A request for `/n` allocates n times 1024 bytes.
answer_request-varying_allocations :
    (from_utf8 : List ℕ → Option Text) (bytes : List ℕ) (r : Request) (n : ℕ)
    → from_utf8 bytes ≡ some (print r)
    → IsRequest r
    → r.path ≡ codes "/" ++ decimal n
    → n < 2 ^ 54
    → answer_request from_utf8 varying_allocations (some bytes) true
      ≡ ok (format_response (decimal (n * 1024)))
unfolding varying_allocations
answer_request-varying_allocations from_utf8 bytes r n decoded is path small =
    answer_request_lem from_utf8 varying_allocations bytes r (format_response (decimal (n * 1024)))
      decoded is
      (rw path (
        rw (parse_usize-decimal n (omega arith))
          (let fits : (n * 1024) % 2 ^ 64 ≡ n * 1024 = omega arith in rw fits refl)))
