-- ===== src/Reactor/Streams/Tests.antt =====
-- A table of four sources, of which the third can be read, and a socket with two bytes.
use nea.Base.{
  ℕ, ◌==◌, ◌<◌, ◌≡◌, ◌≢◌, ◌≤◌, ap, subst, arith, true, false, none, some, List, [], ◌∷◌, ok,
  if◌then◌else◌, length, take, take_part,
}
use nea.Index.{from_usize}
use nea.Reactor.{read, put, fresh, Shared, IoResult, would_block, value, Poll, slot_of}
use nea.Reactor.Streams.{IoAnswer, gives, errs, StreamSocket, ReadBufCursor, poll_read}
use nea.Reactor.Streams.Reads.{ReadEnds, poll_read-ReadEnds}

abbrev table : Shared ℕ
table = record {
  capacity = 4;
  source =
      λ i. if i == 2 then some (record fresh { triggered = put (λ _. false) read true }) else none;
  registry = [];
}

abbrev socket : StreamSocket ℕ
socket = record {
  read_call = λ k size. value (gives (take size (7 ∷ 8 ∷ [])));
  write_call = λ k bytes. would_block;
  flush_call = λ k. would_block;
  shutdown_call = λ k. would_block;
}

abbrev cursor : ReadBufCursor
cursor = record { filled = 1 ∷ []; unfilled = 0 ∷ 0 ∷ 0 ∷ [] }

abbrev bytes_of : IoResult (IoAnswer ℕ (List ℕ)) → List ℕ
bytes_of would_block = []
bytes_of (value (errs e)) = []
bytes_of (value (gives bytes)) = bytes

socket_documented :
    (k size : ℕ) (bytes : List ℕ)
    → socket.read_call k size ≡ value (gives bytes)
    → length bytes ≤ size
socket_documented k size bytes e =
    let (_, _, short) = take_part size (7 ∷ 8 ∷ []) in
    subst (λ b. length b ≤ size) (ap bytes_of e) short

third_inside : slot_of 2 < 4
unfolding from_usize
third_inside = omega arith

poll_read-ReadEnds_example :
    (s' : Shared ℕ) × (buf' : ReadBufCursor) × (p : Poll (IoAnswer ℕ (Unit {0}))) × (poll_read 2
        ◌==◌ table 2 5 socket cursor
      ≡ ok (s', buf', some p))
    × ReadEnds ◌==◌ table 2 5 socket cursor p s' buf'
    × ((x : ℕ) → x ≢ slot_of 2 → s'.source x ≡ table.source x)
poll_read-ReadEnds_example =
    poll_read-ReadEnds ◌==◌ table 2 5 socket cursor third_inside socket_documented
