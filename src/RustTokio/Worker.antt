-- ===== src/RustTokio/Worker.antt =====
-- benchmarks/rust-tokio/src/server.rs: reading a request, and the loop that serves one connection
-- behind the other. What the operating system answers is a list of events, for each connection;
-- decoding and encoding UTF-8 and the handler are parameters.
pub mod Reads
pub mod Serves
pub mod Padding
mod Tests
use nea.Base.{
  ℕ, zero, suc, ◌+◌, ◌-◌, ◌==◌, ltb, Bool, true, false, Option, none, some, List, [], ◌∷◌, ◌++◌,
  if◌then◌else◌, length, take,
}
use nea.Text.{Text}
use nea.RustTokio.{Response, to_string}
use nea.RustTokio.Server.{Loop, waiting, returned, failed, Answer, write_response}

-- What a read finds: bytes, of which it takes as many as its buffer has room for and leaves the
-- rest to the next read; or none, or an error.
pub data ReadAnswer : Type 0 where
  arrived : List ℕ → ReadAnswer
  read_would_block read_error : ReadAnswer

abbrev pub buffer_size : ℕ
buffer_size = 1024

-- `read_request`, with the bytes that it has read. A read into a buffer without room gives 0 bytes,
-- as does a read at the end of the stream.
pub read_request : List ℕ → List ReadAnswer → Loop × List ℕ
read_request buf [] = (waiting, buf)
read_request buf (arrived bytes ∷ events) =
    let room = buffer_size - length buf in
    let rest = read_request (buf ++ bytes) events in
    if length bytes == 0
    then (returned, buf)
    else if room == 0
    then (returned, buf)
    else if ltb room (length bytes)
    then (returned, buf ++ take room bytes)
    else rest
read_request buf (read_would_block ∷ events) = (returned, buf)
read_request buf (read_error ∷ events) = (failed, buf)

abbrev pub zeroes : ℕ → List ℕ
zeroes zero = []
zeroes (suc n) = 0 ∷ zeroes n

-- The whole buffer, which was filled with zeroes before.
abbrev pub buffer : List ℕ → List ℕ
buffer bytes = bytes ++ zeroes (buffer_size - length bytes)

-- A call of `accept`, with what happens on the stream that it returns.
pub data Accept : Type 0 where
  accepted : List ReadAnswer → List Answer → Accept
  accept_error : Accept

-- What went to each of the streams, in order, and how the loop stands.
pub record Service : Type 0 where
  pub sent : List (List ℕ)
  pub loop : Loop

-- A stream on which the loop stops.
abbrev pub stops_on : List ℕ → Loop → Service
stops_on bytes l = record { sent = bytes ∷ []; loop = l }

abbrev pub after_response : Loop × List ℕ → Service → Service
after_response (waiting, bytes) rest = stops_on bytes waiting
after_response (returned, bytes) rest = record { sent = bytes ∷ rest.sent; loop = rest.loop }
after_response (failed, bytes) rest = stops_on bytes failed

module _ (from_utf8 : List ℕ → Option Text) (as_bytes : Text → List ℕ)
    (handler : Text → Response) where
  abbrev pub reply_to : Option Text → List Answer → Service → Service
  reply_to none answers rest = stops_on [] failed
  reply_to (some request) answers rest =
      after_response (write_response (as_bytes (to_string (handler request))) answers [] 0) rest

  abbrev pub after_request : Loop × List ℕ → List Answer → Service → Service
  after_request (waiting, bytes) answers rest = stops_on [] waiting
  after_request (returned, bytes) answers rest = reply_to (from_utf8 (buffer bytes)) answers rest
  after_request (failed, bytes) answers rest = stops_on [] failed

  -- `worker`; `returned` is that it ended with `Ok`, and `failed` that it ended with an error.
  pub worker : List Accept → Service
  worker [] = record { sent = []; loop = waiting }
  worker (accept_error ∷ later) = record { sent = []; loop = returned }
  worker (accepted reads answers ∷ later) =
      let rest = worker later in after_request (read_request [] reads) answers rest

  -- `serve`, with whether the address is bound.
  abbrev serve : Bool → List Accept → Service
  serve bound connections = elim bound [
    | true ↦ worker connections
    | false ↦ record { sent = []; loop = failed }
  ]
