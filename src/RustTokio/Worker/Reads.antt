-- ===== src/RustTokio/Worker/Reads.antt =====
-- benchmarks/rust-tokio/src/server.rs: what `read_request` has of the bytes of a stream.
use nea.Base.{
  ℕ, ◌+◌, ◌-◌, ◌==◌, ◌≤◌, ◌<◌, ◌≡◌, ◌≢◌, refl, sym, ap, ◌∙◌, arith, ltb, false, Bool-cases, inl,
  inr, List, [], ◌∷◌, ◌++◌, append_assoc, append-nil, length, length-append, take, take_part,
}
use nea.RustTokio.Server.{returned}
use nea.RustTokio.Worker.{
  ReadAnswer, arrived, read_would_block, read_error, buffer_size, read_request,
}

-- All bytes that arrive.
abbrev pub arriving : List ReadAnswer → List ℕ
arriving [] = []
arriving (arrived bytes ∷ events) = bytes ++ arriving events
arriving (read_would_block ∷ events) = arriving events
arriving (read_error ∷ events) = arriving events

-- The bytes that were read behind those in `buf` are the first that arrive, and fit.
pub record ReadsStart (buf : List ℕ) (events : List ReadAnswer) (bytes : List ℕ) : Type 0 where
  pub taken : List ℕ
  pub left : List ℕ
  pub start : bytes ≡ buf ++ taken
  pub parts : arriving events ≡ taken ++ left
  pub fits : length bytes ≤ buffer_size

nothing_read :
    (buf : List ℕ) (events : List ReadAnswer) → length buf ≤ buffer_size → ReadsStart buf events buf
nothing_read buf events fits = record {
  taken = [];
  left = arriving events;
  start = sym (append-nil buf);
  parts = refl;
  fits = fits;
}

part_read :
    (buf bytes : List ℕ) (events : List ReadAnswer)
    → length buf ≤ buffer_size
    → ReadsStart buf (arrived bytes ∷ events) (buf ++ take (buffer_size - length buf) bytes)
part_read buf bytes events fits =
    let (left, parts, short) = take_part (buffer_size - length buf) bytes in
    record {
      taken = take (buffer_size - length buf) bytes;
      left = left ++ arriving events;
      start = refl;
      parts =
          ap (λ x. x ++ arriving events) parts
          ∙ append_assoc (take (buffer_size - length buf) bytes) left (arriving events);
      fits = omega (arith, length-append buf (take (buffer_size - length buf) bytes), short, fits);
    }

all_read :
    (buf bytes : List ℕ) (events : List ReadAnswer) (got : List ℕ)
    → ReadsStart (buf ++ bytes) events got
    → ReadsStart buf (arrived bytes ∷ events) got
all_read buf bytes events got rest = record {
  taken = bytes ++ rest.taken;
  left = rest.left;
  start = rest.start ∙ append_assoc buf bytes rest.taken;
  parts = ap (λ x. bytes ++ x) rest.parts ∙ sym (append_assoc bytes rest.taken rest.left);
  fits = rest.fits;
}

not_less : (x y : ℕ) → ltb x y ≡ false → y ≤ x
not_less x y e = ground arith

not_below : (x y : ℕ) → y ≤ x → ltb x y ≡ false
not_below x y le = ground arith

differs : (x y : ℕ) → x ≢ y → (x == y) ≡ false
differs x y ne = ground arith

no_bytes : length {A = ℕ} [] ≡ 0
unfolding length
no_bytes = refl

empty_fits : length {A = ℕ} [] ≤ buffer_size
unfolding length
empty_fits = omega arith

read_from :
    (events : List ReadAnswer) (buf : List ℕ)
    → length buf ≤ buffer_size
    → ReadsStart buf events (read_request buf events).1
unfolding read_request
read_from [] buf fits = nothing_read buf [] fits
read_from (arrived bytes ∷ events) buf fits = elim (Bool-cases (length bytes == 0)) [
  | inl end_of_stream ↦ rw end_of_stream (nothing_read buf (arrived bytes ∷ events) fits)
  | inr more ↦ elim (Bool-cases (buffer_size - length buf == 0)) [
    | inl no_room ↦ rw (more, no_room) (nothing_read buf (arrived bytes ∷ events) fits)
    | inr room ↦ elim (Bool-cases (ltb (buffer_size - length buf) (length bytes))) [
      | inl too_many ↦ rw (more, room, too_many) (part_read buf bytes events fits)
      | inr all ↦
          rw (more, room, all)
            (all_read buf bytes events (read_request (buf ++ bytes) events).1 (
              read_from events (buf ++ bytes) (
                omega (
                  arith,
                  length-append buf bytes,
                  not_less (buffer_size - length buf) (length bytes) all,
                  fits,
                ))))
    ]
  ]
]
read_from (read_would_block ∷ events) buf fits = nothing_read buf (read_would_block ∷ events) fits
read_from (read_error ∷ events) buf fits = nothing_read buf (read_error ∷ events) fits

read_request-ReadsStart :
    (events : List ReadAnswer) → ReadsStart [] events (read_request [] events).1
read_request-ReadsStart events = read_from events [] (omega (arith, empty_fits))

-- Chunks that arrive one behind the other, then nothing for now.
abbrev pub arrivals : List (List ℕ) → List ReadAnswer → List ReadAnswer
arrivals [] later = read_would_block ∷ later
arrivals (chunk ∷ chunks) later = arrived chunk ∷ arrivals chunks later

abbrev pub joined_chunks : List (List ℕ) → List ℕ
joined_chunks [] = []
joined_chunks (chunk ∷ chunks) = chunk ++ joined_chunks chunks

abbrev pub NoneEmpty : List (List ℕ) → Type 0
NoneEmpty [] = Unit
NoneEmpty (chunk ∷ chunks) = (0 < length chunk) × NoneEmpty chunks

read_chunks :
    (chunks : List (List ℕ)) (later : List ReadAnswer) (buf : List ℕ)
    → NoneEmpty chunks
    → length buf + length (joined_chunks chunks) ≤ buffer_size
    → read_request buf (arrivals chunks later) ≡ (returned, buf ++ joined_chunks chunks)
unfolding read_request
read_chunks [] later buf some fits = ap (λ b. (returned, b)) (sym (append-nil buf))
read_chunks (chunk ∷ chunks) later buf some fits =
    let total = length-append chunk (joined_chunks chunks) in
    let more : (length chunk == 0) ≡ false = ground (arith, some.0) in
    let room : (buffer_size - length buf == 0) ≡ false =
      differs (buffer_size - length buf) 0 (λ e. omega (arith, some.0, total, fits, e)) in
    let all : ltb (buffer_size - length buf) (length chunk) ≡ false =
      not_below (buffer_size - length buf) (length chunk) (omega (arith, total, fits)) in
    rw (more, room, all)
      (read_chunks chunks later (buf ++ chunk) some.1
          (omega (arith, total, fits, length-append buf chunk))
        ∙ ap (λ b. (returned, b)) (append_assoc buf chunk (joined_chunks chunks)))

-- Whatever arrives, the bytes that are read are the first that arrive, and at most 1024. When
-- chunks that are not empty arrive, 1024 bytes at most together, and then none for now, the bytes
-- that are read are these, whatever comes later.
pub read_request_lem :
    (events : List ReadAnswer) (chunks : List (List ℕ)) (later : List ReadAnswer)
    → NoneEmpty chunks
    → length (joined_chunks chunks) ≤ buffer_size
    → ReadsStart [] events (read_request [] events).1
      × (read_request [] (arrivals chunks later) ≡ (returned, joined_chunks chunks))
read_request_lem events chunks later some fits = (
  read_request-ReadsStart events,
  read_chunks chunks later [] some (omega (arith, fits, no_bytes)),
)
