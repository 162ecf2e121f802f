-- ===== src/RustTokio/Server.antt =====
-- benchmarks/rust-tokio/src/server.rs: the loops that read a request and write a response. What the
-- operating system answers to the calls on the stream is a list of events.
use nea.Base.{
  ℕ, zero, suc, ◌+◌, ◌%◌, ◌^◌, ◌<◌, ◌==◌, ◌≡◌, ◌≢◌, ◌⊎◌, inl, inr, refl, sym, ap, ◌∙◌, arith,
  Bool-cases, List, [], ◌∷◌, ◌++◌, if◌then◌else◌, length, take, take-length, append_assoc,
  append-nil,
}

pub data Answer : Type 0 where
  moved : ℕ → Answer
  would_block io_error : Answer

-- How a loop stands when the events are over.
pub data Loop : Type 0 where
  waiting returned failed : Loop

-- `write_response`, with the bytes that went to the stream. Each write starts at the first byte, and
-- the count of bytes is a usize, which wraps.
pub write_response : List ℕ → List Answer → List ℕ → ℕ → Loop × List ℕ
write_response response [] sent bytes_written = (waiting, sent)
write_response response (moved n ∷ events) sent bytes_written =
    let written = (bytes_written + n) % 2 ^ 64 in
    let rest = write_response response events (sent ++ take n response) written in
    if written == length response then (returned, sent ++ take n response) else rest
write_response response (would_block ∷ events) sent bytes_written =
    write_response response events sent bytes_written
write_response response (io_error ∷ events) sent bytes_written = (failed, sent)

-- The stream was not ready, any number of times.
abbrev pub blocked : ℕ → List Answer → List Answer
blocked zero events = events
blocked (suc k) events = would_block ∷ blocked k events

-- The sum of the counts that the writes return.
abbrev pub total : List Answer → ℕ
total [] = 0
total (moved n ∷ events) = n + total events
total (would_block ∷ events) = total events
total (io_error ∷ events) = total events

module _ (response : List ℕ) where
  -- What the writes have sent: for each the start of the response.
  abbrev pub starts : List Answer → List ℕ
  starts [] = []
  starts (moved n ∷ events) = take n response ++ starts events
  starts (would_block ∷ events) = starts events
  starts (io_error ∷ events) = starts events

  -- No error, and behind no write the sum is the length of the response, modulo 2^64.
  abbrev pub IsShort : ℕ → List Answer → Type 0
  IsShort w [] = Unit
  IsShort w (moved n ∷ events) = ((w + n) % 2 ^ 64 ≢ length response) × IsShort (w + n) events
  IsShort w (would_block ∷ events) = IsShort w events
  IsShort w (io_error ∷ events) = ⊥

  -- The loop waits behind all answers; or it fails at the first error; or it returns at the first
  -- write behind which the sum is the length.
  abbrev pub Waits : List ℕ → ℕ → List Answer → Loop × List ℕ → Type 0
  Waits sent w events o = IsShort w events × (o ≡ (waiting, sent ++ starts events))

  abbrev pub Fails : List ℕ → ℕ → List Answer → Loop × List ℕ → Type 0
  Fails sent w events o =
      (before : List Answer) × (later : List Answer) × (events ≡ before ++ io_error ∷ later)
      × IsShort w before
      × (o ≡ (failed, sent ++ starts before))

  abbrev pub Returns : List ℕ → ℕ → List Answer → Loop × List ℕ → Type 0
  Returns sent w events o =
      (before : List Answer) × (n : ℕ) × (later : List Answer) × (events
        ≡ before ++ moved n ∷ later)
      × IsShort w before
      × ((w + total before + n) % 2 ^ 64 ≡ length response)
      × (o ≡ (returned, (sent ++ starts before) ++ take n response))

  abbrev pub Ends : List ℕ → ℕ → List Answer → Loop × List ℕ → Type 0
  Ends sent w events o = Waits sent w events o ⊎ (Fails sent w events o ⊎ Returns sent w events o)

  behind_write :
      (events : List Answer) (sent : List ℕ) (w n : ℕ) (o : Loop × List ℕ)
      → (w + n) % 2 ^ 64 ≢ length response
      → Ends (sent ++ take n response) (w + n) events o
      → Ends sent w (moved n ∷ events) o
  behind_write events sent w n o ne (inl (short, e)) =
      inl ((ne, short), e ∙ ap (λ b. (waiting, b)) (append_assoc sent _ _))
  behind_write events sent w n o ne (inr (inl (before, later, split, short, e))) = inr (
      inl (
        moved n ∷ before,
        later,
        ap (λ es. moved n ∷ es) split,
        (ne, short),
        e ∙ ap (λ b. (failed, b)) (append_assoc sent _ _),
      ))
  behind_write events sent w n o ne (inr (inr (before, m, later, split, short, hit, e))) = inr (
      inr (
        moved n ∷ before,
        m,
        later,
        ap (λ es. moved n ∷ es) split,
        (ne, short),
        omega (arith, hit),
        e ∙ ap (λ b. (returned, b ++ take m response)) (append_assoc sent _ _),
      ))

  behind_block :
      (events : List Answer) (sent : List ℕ) (w : ℕ) (o : Loop × List ℕ)
      → Ends sent w events o
      → Ends sent w (would_block ∷ events) o
  behind_block events sent w o (inl waits) = inl waits
  behind_block events sent w o (inr (inl (before, later, split, short, e))) =
      inr (inl (would_block ∷ before, later, ap (λ es. would_block ∷ es) split, short, e))
  behind_block events sent w o (inr (inr (before, m, later, split, short, hit, e))) =
      inr (inr (would_block ∷ before, m, later, ap (λ es. would_block ∷ es) split, short, hit, e))

  write_response-Ends :
      (events : List Answer) (sent : List ℕ) (w : ℕ)
      → Ends sent w events (write_response response events sent (w % 2 ^ 64))
  unfolding write_response
  write_response-Ends [] sent w = inl (tt, ap (λ b. (waiting, b)) (sym (append-nil sent)))
  write_response-Ends (moved n ∷ events) sent w =
      let sum : (w % 2 ^ 64 + n) % 2 ^ 64 ≡ (w + n) % 2 ^ 64 = omega arith in
      elim (Bool-cases ((w + n) % 2 ^ 64 == length response)) [
        | inl hit ↦ inr (
            inr (
              [],
              n,
              events,
              refl,
              tt,
              ground arith,
              rw (sum, hit) (ap (λ b. (returned, b ++ take n response)) (sym (append-nil sent))),
            ))
        | inr miss ↦
            behind_write events sent w n _ (ground arith)
              (rw (sum, miss) (write_response-Ends events (sent ++ take n response) (w + n)))
      ]
  write_response-Ends (would_block ∷ events) sent w =
      behind_block events sent w _ (write_response-Ends events sent w)
  write_response-Ends (io_error ∷ events) sent w =
      inr (inl ([], events, refl, tt, ap (λ b. (failed, b)) (sym (append-nil sent))))

  -- Bytes that were counted beyond the length, and no wrap: the loop does not return.
  overshoot :
      (events : List Answer) (sent : List ℕ) (bytes_written : ℕ)
      → length response < bytes_written
      → bytes_written + total events < 2 ^ 64
      → (write_response response events sent bytes_written).0 ≢ returned
  unfolding write_response
  overshoot [] sent w lt small = λ e. absurd (ground arith)
  overshoot (moved n ∷ events) sent w lt small =
      let sum : (w + n) % 2 ^ 64 ≡ w + n = omega (arith, small) in
      let rest =
        overshoot events (sent ++ take n response) (w + n) (omega arith) (omega (arith, small)) in
      rw sum (λ e. absurd (ground (arith, rest)))
  overshoot (would_block ∷ events) sent w lt small = overshoot events sent w lt small
  overshoot (io_error ∷ events) sent w lt small = λ e. absurd (ground arith)

  skip_blocked :
      (k : ℕ) (events : List Answer) (sent : List ℕ) (w : ℕ)
      → write_response response (blocked k events) sent w ≡ write_response response events sent w
  unfolding write_response
  skip_blocked zero events sent w = refl
  skip_blocked (suc k) events sent w = skip_blocked k events sent w

  pub whole_write :
      (k : ℕ) (events : List Answer)
      → length response < 2 ^ 64
      → write_response response (blocked k (moved (length response) ∷ events)) [] 0
        ≡ (returned, response)
  unfolding write_response
  whole_write k events small =
      let sum : (0 + length response) % 2 ^ 64 ≡ length response = omega arith in
      skip_blocked k (moved (length response) ∷ events) [] 0
      ∙ rw sum (ground (arith, take-length response))

  short_write :
      (n : ℕ) (events : List Answer)
      → 0 < n
      → n < length response
      → n + length response + total events < 2 ^ 64
      → (write_response response (moved n ∷ moved (length response) ∷ events) [] 0).0 ≢ returned
  unfolding write_response
  short_write n events pos lt small =
      let one : (0 + n) % 2 ^ 64 ≡ n = omega arith in
      let two : (n + length response) % 2 ^ 64 ≡ n + length response = omega arith in
      let after =
        overshoot events (take n response ++ take (length response) response) (n + length response)
          (omega arith) small in
      rw (one, two) (λ e. absurd (ground (arith, after)))

  -- Whatever the stream answers to the writes, the loop waits behind all answers, or fails at the
  -- first error, or returns at the first write behind which the sum of the counts is the length of
  -- the response modulo 2^64, and each write has sent bytes from the start of the response. When
  -- the stream blocks any number of times and then takes the whole response, the loop returns and
  -- the stream has got the response. When it takes a part first, and then the whole, the loop does
  -- not return, whatever the stream answers later, as long as the sum of all counts stays below
  -- 2^64.
  pub write_response_lem :
      (answers : List Answer) (k n : ℕ) (events : List Answer)
      → 0 < n
      → n < length response
      → n + length response + total events < 2 ^ 64
      → Ends [] 0 answers (write_response response answers [] 0)
        × (write_response response (blocked k (moved (length response) ∷ events)) [] 0
            ≡ (returned, response))
        × ((write_response response (blocked k (moved n ∷ moved (length response) ∷ events)) [] 0).0
            ≢ returned)
  write_response_lem answers k n events pos lt small = (
    write_response-Ends answers [] 0,
    whole_write k events (omega (arith, small)),
    rw (skip_blocked k (moved n ∷ moved (length response) ∷ events) [] 0)
        (short_write n events pos lt small),
  )
