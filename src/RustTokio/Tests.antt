-- ===== src/RustTokio/Tests.antt =====
-- A request with one header that is given twice, a response, and a connection that blocks twice.
use nea.Base.{◌+◌, ℕ, ◌<◌, ◌^◌, ◌≡◌, ◌≢◌, refl, arith, none, List, [], ◌∷◌, ◌++◌, length}
use nea.Text.{Text, codes, is_whitespace, Header, AllFields, blank_line, joined, fields, len}
use nea.RustTokio.{value, TextMap, from_str, Response}
use nea.RustTokio.Requests.{IsRequest, start, last_value, from_str-parses}
use nea.RustTokio.Responses.{Framed, to_string-Framed}
use nea.RustTokio.Server.{
  moved, would_block, returned, blocked, total, Ends, write_response, write_response_lem,
}

abbrev first : Header
first = record { key = codes "Accept"; value = codes "text/html" }

abbrev second : Header
second = record { key = codes "Accept"; value = codes "*/*" }

abbrev body : Text
body = codes "a body"

words : IsRequest (codes "GET") (codes "/") (codes "HTTP/1.1")
unfolding is_whitespace
words = record {
  method_word = record { no_spaces = refl; some_text = refl };
  path_word = record { no_spaces = refl; some_text = refl };
  version_word = record { no_spaces = refl; some_text = refl };
}

twice : AllFields (first ∷ second ∷ [])
twice = (
  record {
    no_colon = refl;
    key_no_cr = refl;
    key_no_lf = refl;
    value_no_cr = refl;
    value_no_lf = refl;
  },
  (
    record {
      no_colon = refl;
      key_no_cr = refl;
      key_no_lf = refl;
      value_no_cr = refl;
      value_no_lf = refl;
    },
    tt,
  ),
)

from_str-parses_example :
    (map : TextMap) × (from_str (
        joined (start (codes "GET") (codes "/") (codes "HTTP/1.1")) (fields (first ∷ second ∷ []))
        ++ (blank_line ++ body))
      ≡ value (record {
        body = body;
        headers = map;
        method = codes "GET";
        path = codes "/";
        version = codes "HTTP/1.1";
      }))
    × ((key : Text) → map key ≡ last_value key (first ∷ second ∷ []) none)
from_str-parses_example =
    from_str-parses (codes "GET") (codes "/") (codes "HTTP/1.1") words (first ∷ second ∷ []) body
      twice

abbrev answer : Response
answer = record { content_type = codes "text/plain"; body = body; status = 200 }

body_small : len answer.body < 2 ^ 64
unfolding len
body_small = omega arith

to_string-Framed_example : Framed answer
to_string-Framed_example = to_string-Framed answer refl refl body_small

abbrev bytes : List ℕ
bytes = 1 ∷ 2 ∷ 3 ∷ []

short_part : 1 < length bytes
unfolding length
short_part = omega arith

no_wrap : 1 + length bytes + total (moved 5 ∷ []) < 2 ^ 64
unfolding length
no_wrap = omega arith

write_response_lem_example :
    Ends bytes [] 0
      (would_block ∷ moved 2 ∷ moved 1 ∷ [])
      (write_response bytes (would_block ∷ moved 2 ∷ moved 1 ∷ []) [] 0)
    × (write_response bytes (blocked 2 (moved (length bytes) ∷ moved 5 ∷ [])) [] 0
        ≡ (returned, bytes))
    × ((write_response bytes (blocked 2 (moved 1 ∷ moved (length bytes) ∷ moved 5 ∷ [])) [] 0).0
        ≢ returned)
write_response_lem_example =
    write_response_lem bytes (would_block ∷ moved 2 ∷ moved 1 ∷ []) 2 1 (moved 5 ∷ []) (omega arith)
      short_part no_wrap
