-- ===== src/Reactor/Streams/Reads.antt =====
-- nea/src/reactor.rs: what a read of hyper leaves in its buffer.
use nea.Base.{
  ℕ, ◌+◌, ◌≤◌, ◌<◌, ◌≡◌, ◌≢◌, refl, ap, ◌∙◌, arith, ltb, true, false, Bool, some, List, ◌++◌,
  length, length-append, take, drop, take-drop, ok, ◌>>=◌,
}
use nea.Reactor.{read, Shared, IoResult, value, Poll, pending, ready, slot_of, poll_io, poll_stream}
use nea.Reactor.Polls.{poll_io-Polled, Polled}
use nea.Reactor.Streams.{
  IoAnswer, gives, errs, StreamSocket, ReadBufCursor, tmp_buf_len, room_of, copy_in, copy_ready,
  poll_read,
}

-- The bytes stand behind those that were in the buffer, over as many of the rest.
pub record CopiedIn (buf buf' : ReadBufCursor) (bytes : List ℕ) : Type 0 where
  pub behind : buf'.filled ≡ buf.filled ++ bytes
  pub over : buf.unfilled ≡ take (length bytes) buf.unfilled ++ buf'.unfilled
  pub same_size :
      length buf'.filled + length buf'.unfilled ≡ length buf.filled + length buf.unfilled
  pub at_most : length bytes ≤ tmp_buf_len

remaining-le :
    (buf : ReadBufCursor) → (room_of buf ≤ length buf.unfilled) × (room_of buf ≤ tmp_buf_len)
remaining-le buf = (ground arith, ground arith)

copy_in-CopiedIn :
    {E : Type 0} (buf : ReadBufCursor) (bytes : List ℕ)
    → length bytes ≤ room_of buf
    → (buf' : ReadBufCursor) × (copy_in {E = E} buf (gives bytes) ≡ ok (buf', gives tt))
      × CopiedIn buf buf' bytes
unfolding copy_in
copy_in-CopiedIn buf bytes le =
    let room : ltb (room_of buf) (length bytes) ≡ false = ground arith in
    let (short, few) = remaining-le buf in
    let (over, sizes) = take-drop (length bytes) buf.unfilled (omega (arith, le, short)) in
    (
      record { filled = buf.filled ++ bytes; unfilled = drop (length bytes) buf.unfilled },
      rw room refl,
      record {
        behind = refl;
        over = over;
        same_size = omega (arith, length-append buf.filled bytes, sizes);
        at_most = omega (arith, le, few);
      },
    )

poll_stream_lem :
    {W A : Type 0} (will_wake : W → W → Bool) (s : Shared W) (token : ℕ) (w : W)
    (f : ℕ → IoResult A)
    → slot_of token < s.capacity
    → poll_stream 2 will_wake s token read w f ≡ ok (poll_io 2 will_wake s (slot_of token) read w f)
unfolding poll_stream
poll_stream_lem will_wake s token w f inside =
    let there : ltb (slot_of token) s.capacity ≡ true = ground arith in rw there refl

module _ {W E : Type 0} (will_wake : W → W → Bool) (s : Shared W) (token : ℕ) (w : W)
    (socket : StreamSocket E) (buf : ReadBufCursor) where
  -- How a read ends, with what the first call of the socket returned.
  abbrev pub ReadEnds : Poll (IoAnswer E (Unit {0})) → Shared W → ReadBufCursor → Type 0
  ReadEnds pending s' buf' =
      (buf' ≡ buf)
      × Polled will_wake (s.source (slot_of token)) read w (socket.read_call 0 (room_of buf))
          pending (s'.source (slot_of token))
  ReadEnds (ready (errs e)) s' buf' =
      (buf' ≡ buf) × (socket.read_call 0 (room_of buf) ≡ value (errs e))
  ReadEnds (ready (gives _)) s' buf' =
      (bytes : List ℕ) × (socket.read_call 0 (room_of buf) ≡ value (gives bytes))
      × CopiedIn buf buf' bytes

  -- For a stream whose place is in the table, and a socket whose reads return no more bytes than
  -- they are asked for: two rounds are enough for a read of hyper, and it does not panic. If it is
  -- pending, the buffer is as before, and the stream has no source, or its source is not ready and
  -- a waker of the task waits; an error is that of the first call, and leaves the buffer as before;
  -- and otherwise the bytes of the first call, at most 1024, stand behind those that were in the
  -- buffer, over as many of the rest, whose other bytes are as before. No other source changes.
  pub poll_read-ReadEnds :
      slot_of token < s.capacity
      → ((k size : ℕ) (bytes : List ℕ)
          → socket.read_call k size ≡ value (gives bytes)
          → length bytes ≤ size)
      → (s' : Shared W) × (buf' : ReadBufCursor) × (p : Poll (IoAnswer E (Unit {0}))) × (poll_read 2
            will_wake s token w socket buf
          ≡ ok (s', buf', some p))
        × ReadEnds p s' buf'
        × ((x : ℕ) → x ≢ slot_of token → s'.source x ≡ s.source x)
  unfolding poll_read copy_in
  poll_read-ReadEnds inside documented =
      let f = λ (k : ℕ). socket.read_call k (room_of buf) in
      let (s', p, eq, polled, others) = poll_io-Polled will_wake s (slot_of token) read w f in
      let at : poll_stream 2 will_wake s token read w f ≡ ok (s', some p) =
        poll_stream_lem will_wake s token w f inside ∙ ap ok eq in
      go s' p at polled others
    where
      go :
          (s' : Shared W) (p : Poll (IoAnswer E (List ℕ)))
          → poll_stream 2 will_wake s token read w (λ k. socket.read_call k (room_of buf))
            ≡ ok (s', some p)
          → Polled will_wake
              (s.source (slot_of token))
              read
              w
              (socket.read_call 0 (room_of buf))
              p
              (s'.source (slot_of token))
          → ((x : ℕ) → x ≢ slot_of token → s'.source x ≡ s.source x)
          → (s' : Shared W) × (buf' : ReadBufCursor) × (q : Poll (IoAnswer E (Unit {0})))
            × (poll_read 2 will_wake s token w socket buf ≡ ok (s', buf', some q))
            × ReadEnds q s' buf'
            × ((x : ℕ) → x ≢ slot_of token → s'.source x ≡ s.source x)
      go s' pending at polled others = (
        s',
        buf,
        pending,
        ap (λ r. r >>= λ (s', p). copy_ready buf s' p) at,
        (refl, polled),
        others,
      )
      go s' (ready (errs e)) at polled others = (
        s',
        buf,
        ready (errs e),
        ap (λ r. r >>= λ (s', p). copy_ready buf s' p) at,
        (refl, polled.0),
        others,
      )
      go s' (ready (gives bytes)) at polled others =
          let (buf', copied, fits) =
            copy_in-CopiedIn {E = E} buf bytes (documented 0 (room_of buf) bytes polled.0) in
          (
            s',
            buf',
            ready (gives tt),
            ap (λ r. r >>= λ (s', p). copy_ready buf s' p) at
                ∙ ap (λ c. c >>= λ (buf', done). ok (s', buf', some (ready done))) copied,
            (bytes, polled.0, fits),
            others,
          )
