-- ===== src/RustTokio/Worker/Tests.antt =====
-- Two clients: the first one sends a request in two parts and is answered, the second one fails.
use nea.Base.{
  ℕ, ◌-◌, ◌^◌, ◌<◌, ap, ◌≤◌, ◌≡◌, ◌≢◌, refl, arith, Option, none, some, List, [], ◌∷◌, ◌++◌, length,
}
use nea.Text.{Text, codes, crlf, split_once, strip_prefix, lines}
use nea.RustTokio.{Response, to_string, Request, value, from_str, collect}
use nea.RustTokio.Server.{returned, moved, write_response, whole_write}
use nea.RustTokio.Worker.{
  arrived, read_error, read_request, zeroes, buffer_size, Accept, accepted, worker, after_response,
}
use nea.RustTokio.Worker.Reads.{ReadsStart, arrivals, joined_chunks, NoneEmpty, read_request_lem}
use nea.RustTokio.Worker.Serves.{AllAnswered, one_client_stops_all}
use nea.RustTokio.Worker.Padding.{worker-zeroes}

abbrev chunks : List (List ℕ)
chunks = (71 ∷ 69 ∷ []) ∷ (84 ∷ []) ∷ []

chunks-NoneEmpty : NoneEmpty chunks
unfolding length
chunks-NoneEmpty = (omega arith, (omega arith, tt))

chunks_fit : length (joined_chunks chunks) ≤ buffer_size
unfolding length
chunks_fit = omega arith

read_request_lem_example :
    ReadsStart []
      (arrived (71 ∷ []) ∷ read_error ∷ [])
      (read_request [] (arrived (71 ∷ []) ∷ read_error ∷ [])).1
    × (read_request [] (arrivals chunks []) ≡ (returned, 71 ∷ 69 ∷ 84 ∷ []))
read_request_lem_example =
    read_request_lem (arrived (71 ∷ []) ∷ read_error ∷ []) chunks [] chunks-NoneEmpty chunks_fit

abbrev from_utf8 : List ℕ → Option Text
from_utf8 bytes = some bytes

abbrev as_bytes : Text → List ℕ
as_bytes t = t

abbrev hello : Response
hello = record { content_type = codes "text/plain"; body = codes "hello"; status = 200 }

abbrev handler : Text → Response
handler t = hello

abbrev client : Accept
client = accepted (arrivals chunks []) (moved (length (to_string hello)) ∷ [])

answer_small : length (to_string hello) < 2 ^ 64
unfolding length to_string nea.Text.digits nea.Text.len
answer_small = omega arith

client-AllAnswered : AllAnswered from_utf8 as_bytes handler (client ∷ []) (to_string hello ∷ [])
client-AllAnswered = (
  (
    71 ∷ 69 ∷ 84 ∷ [],
    _,
    read_request_lem_example.1,
    refl,
    whole_write (to_string hello) 0 [] answer_small,
  ),
  tt,
)

fails_at_once : (read_request [] (read_error ∷ [])).0 ≢ returned
unfolding read_request
fails_at_once e = absurd (cc)

one_client_stops_all_example :
    worker from_utf8 as_bytes handler
      ((client ∷ []) ++ (accepted (read_error ∷ []) [] ∷ client ∷ []))
    ≡ record {
      sent = (to_string hello ∷ []) ++ ([] ∷ []);
      loop = (read_request [] (read_error ∷ [])).0;
    }
one_client_stops_all_example =
    one_client_stops_all from_utf8 as_bytes handler (client ∷ []) (to_string hello ∷ [])
      (read_error ∷ []) [] (client ∷ []) client-AllAnswered fails_at_once

abbrev request_text : Text
request_text = codes "GET / HTTP/1.1" ++ (crlf ++ (crlf ++ codes "hi"))

abbrev request : Request
request = record {
  body = codes "hi";
  headers = λ j. none;
  method = codes "GET";
  path = codes "/";
  version = codes "HTTP/1.1";
}

abbrev request_chunks : List (List ℕ)
request_chunks = request_text ∷ []

abbrev padding : List ℕ
padding = zeroes (buffer_size - length (joined_chunks request_chunks))

-- A decoded text with zeroes behind it.
abbrev padded : Option Text → ℕ → Option Text
padded none k = none
padded (some t) k = some (t ++ zeroes k)

request_parsed : from_str (joined_chunks request_chunks) ≡ value request
unfolding from_str split_once strip_prefix lines collect
request_parsed = refl

request_chunks-NoneEmpty : NoneEmpty request_chunks
unfolding length
request_chunks-NoneEmpty = (omega arith, tt)

request_fits : length (joined_chunks request_chunks) ≤ buffer_size
unfolding length
request_fits = omega arith

worker-zeroes_example :
    (worker from_utf8 as_bytes handler (accepted (arrivals request_chunks []) [] ∷ [])
      ≡ after_response
          (write_response
            (as_bytes (to_string (handler (joined_chunks request_chunks ++ padding))))
            []
            []
            0)
          (worker from_utf8 as_bytes handler []))
    × (from_str (joined_chunks request_chunks ++ padding)
        ≡ value (record request { body = codes "hi" ++ padding }))
worker-zeroes_example =
    worker-zeroes from_utf8 as_bytes handler (λ bytes t k e. ap (λ o. padded o k) e) request_chunks
      [] [] [] (joined_chunks request_chunks) request request_chunks-NoneEmpty request_fits refl
      request_parsed
