-- ===== src/Reactor/Streams.antt =====
-- nea/src/reactor.rs: the stream of a request, which is read and written through `poll_io`, by the
-- application and by hyper. What the socket returns at each call is a parameter.
pub mod Reads
mod Tests
use nea.Base.{
  ℕ, ltb, Bool, Option, none, some, if◌then◌else◌, List, ◌++◌, length, drop, Result, ok, panic,
  ◌>>=◌, out_of_bounds,
}
use nea.Reactor.{Direction, read, write, Shared, IoResult, Poll, pending, ready, poll_stream}

-- `io::Result`, but for `WouldBlock`.
pub data IoAnswer (E A : Type 0) : Type 0 where
  gives : A → IoAnswer E A
  errs : E → IoAnswer E A

-- The calls of a socket: at its k-th call in a poll, a read gets the size of the buffer and returns
-- the bytes that it put there, and a write returns how many bytes it took.
pub record StreamSocket (E : Type 0) : Type 0 where
  pub read_call : ℕ → ℕ → IoResult (IoAnswer E (List ℕ))
  pub write_call : ℕ → List ℕ → IoResult (IoAnswer E ℕ)
  pub flush_call : ℕ → IoResult (IoAnswer E (Unit {0}))
  pub shutdown_call : ℕ → IoResult (IoAnswer E (Unit {0}))

-- The buffer that hyper hands over: the bytes that are in it, and what stands in the rest.
pub record ReadBufCursor : Type 0 where
  pub filled : List ℕ
  pub unfilled : List ℕ

abbrev pub tmp_buf_len : ℕ
tmp_buf_len = 1024

-- `buf_mut.len().min(TMP_BUF_LEN)`.
abbrev pub room_of : ReadBufCursor → ℕ
room_of buf = if ltb (length buf.unfilled) tmp_buf_len then length buf.unfilled else tmp_buf_len

-- The bytes of a read go to the start of the rest, which they make shorter; more bytes than there is
-- room for in either buffer are a panic of the slices.
pub copy_in :
    {E : Type 0}
    → ReadBufCursor
    → IoAnswer E (List ℕ)
    → Result (ReadBufCursor × IoAnswer E (Unit {0}))
copy_in buf (errs e) = ok (buf, errs e)
copy_in buf (gives bytes) =
    if ltb (room_of buf) (length bytes)
    then panic out_of_bounds
    else ok (
      record { filled = buf.filled ++ bytes; unfilled = drop (length bytes) buf.unfilled },
      gives tt,
    )

-- What `poll_io` returned, with the buffer.
abbrev pub copy_ready :
    {W E : Type 0}
    → ReadBufCursor
    → Shared W
    → Option (Poll (IoAnswer E (List ℕ)))
    → Result (Shared W × ReadBufCursor × Option (Poll (IoAnswer E (Unit {0}))))
copy_ready buf s' none = ok (s', buf, none)
copy_ready buf s' (some pending) = ok (s', buf, some pending)
copy_ready buf s' (some (ready answer)) =
    copy_in buf answer >>= λ (buf', done). ok (s', buf', some (ready done))

module _ {W E : Type 0} (rounds : ℕ) (will_wake : W → W → Bool) (s : Shared W) (token : ℕ) (w : W)
    (socket : StreamSocket E) where
  pub poll_read :
      ReadBufCursor → Result (Shared W × ReadBufCursor × Option (Poll (IoAnswer E (Unit {0}))))
  poll_read buf =
      poll_stream rounds will_wake s token read w (λ k. socket.read_call k (room_of buf))
      >>= λ (s', p). copy_ready buf s' p

  -- `read`, into a buffer of the given size.
  read_poll : ℕ → Result (Shared W × Option (Poll (IoAnswer E (List ℕ))))
  read_poll size = poll_stream rounds will_wake s token read w (λ k. socket.read_call k size)

  -- `write` and `poll_write`.
  poll_write : List ℕ → Result (Shared W × Option (Poll (IoAnswer E ℕ)))
  poll_write buf = poll_stream rounds will_wake s token write w (λ k. socket.write_call k buf)

  -- `flush` and `poll_flush`.
  poll_flush : Result (Shared W × Option (Poll (IoAnswer E (Unit {0}))))
  poll_flush = poll_stream rounds will_wake s token write w socket.flush_call

  poll_shutdown : Result (Shared W × Option (Poll (IoAnswer E (Unit {0}))))
  poll_shutdown = poll_stream rounds will_wake s token write w socket.shutdown_call
