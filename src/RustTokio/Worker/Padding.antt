-- ===== src/RustTokio/Worker/Padding.antt =====
-- benchmarks/rust-tokio/src/server.rs and request.rs: the zeroes of the buffer behind a request.
use nea.Base.{
  ℕ, ◌-◌, ◌≤◌, length, ◌≡◌, refl, sym, ap, ◌∙◌, arith, Option, none, some, List, [], ◌∷◌, ◌++◌,
}
use nea.Text.{Text, codes, blank_line, lines, split_once, split_once-behind}
use nea.RustTokio.{
  Response, to_string, Fallible, value, error, ParseRequestError, TextMap, Request, or_syntax,
  collect, request_of, from_lines, from_str,
}
use nea.RustTokio.Server.{Answer, write_response}
use nea.RustTokio.Worker.{
  zeroes, buffer_size, ReadAnswer, Accept, accepted, worker, after_request, after_response,
  reply_to,
}
use nea.RustTokio.Worker.Reads.{arrivals, joined_chunks, NoneEmpty, read_request_lem}

abbrev pub with_body :
    Text → Fallible ParseRequestError Request → Fallible ParseRequestError Request
with_body b (error e) = error e
with_body b (value r) = value (record r { body = b })

-- A result whose body, if it is a request, is this one.
abbrev HasBody : Text → Fallible ParseRequestError Request → Type 0
HasBody b (error e) = Unit
HasBody b (value r) = r.body ≡ b

module _ (b b' : Text) where
  -- What two results of the parser have in common whose bodies differ.
  abbrev Alike : Fallible ParseRequestError Request → Fallible ParseRequestError Request → Type 0
  Alike r r' = (r' ≡ with_body b' r) × HasBody b r

  or_syntax-Alike :
      (o : Option (Text × Text)) (f g : Text → Text → Fallible ParseRequestError Request)
      → ((x y : Text) → Alike (f x y) (g x y))
      → Alike (or_syntax o f) (or_syntax o g)
  or_syntax-Alike none f g alike = (refl, tt)
  or_syntax-Alike (some (x, y)) f g alike = alike x y

  request_of-Alike :
      (method path version : Text) (m : Fallible ParseRequestError TextMap)
      → Alike (request_of b method path version m) (request_of b' method path version m)
  request_of-Alike method path version (error e) = (refl, tt)
  request_of-Alike method path version (value map) = (refl, refl)

  from_lines-Alike : (ls : List Text) → Alike (from_lines b ls) (from_lines b' ls)
  from_lines-Alike [] = (refl, tt)
  from_lines-Alike (first ∷ rest) =
      or_syntax-Alike (split_once (codes " ") first) _ _ (λ method remainder.
        or_syntax-Alike (split_once (codes " ") remainder) _ _
          (λ path version. request_of-Alike method path version (collect rest (λ j. none))))

has_body :
    (b : Text) (r : Fallible ParseRequestError Request) (q : Request)
    → HasBody b r
    → r ≡ value q
    → q.body ≡ b
has_body b (error e) q h eq = absurd (cc)
has_body b (value r) q h eq = ground (arith, h)

-- A text that is parsed to a request is parsed, with any number of zeroes behind it, to the same
-- request with these zeroes behind its body.
from_str-zeroes :
    (t : Text) (k : ℕ) (r : Request)
    → from_str t ≡ value r
    → from_str (t ++ zeroes k) ≡ value (record r { body = r.body ++ zeroes k })
unfolding from_str
from_str-zeroes t k r e = go (split_once blank_line t) refl e
  where
    go :
        (o : Option (Text × Text))
        → split_once blank_line t ≡ o
        → or_syntax o (λ headers body. from_lines body (lines headers)) ≡ value r
        → from_str (t ++ zeroes k) ≡ value (record r { body = r.body ++ zeroes k })
    go none split e' = absurd (cc)
    go (some (headers, body)) split e' =
        let (same, has) = from_lines-Alike body (body ++ zeroes k) (lines headers) in
        ap (λ o. or_syntax o (λ headers body. from_lines body (lines headers)))
          (split_once-behind blank_line t (zeroes k) headers body split)
        ∙ same
        ∙ ap (with_body (body ++ zeroes k)) e'
        ∙ ap (λ x. value (record r { body = x ++ zeroes k })) (sym (has_body body _ r has e'))

-- A decoder of UTF-8 for which a zero byte is a character of its own.
abbrev pub KeepsZeroes : (List ℕ → Option Text) → Type 0
KeepsZeroes from_utf8 =
    (bytes : List ℕ) (t : Text) (k : ℕ)
    → from_utf8 bytes ≡ some t
    → from_utf8 (bytes ++ zeroes k) ≡ some (t ++ zeroes k)

module _ (from_utf8 : List ℕ → Option Text) (as_bytes : Text → List ℕ) (handler : Text → Response)
    (keeps : KeepsZeroes from_utf8) where
  -- A decoder for which zero bytes are characters of their own: if a client sends a request in
  -- chunks that are not empty, 1024 bytes at most together, then nothing for now, and these bytes
  -- decode to a text that is a request, the worker gives the handler this text with as many zeroes
  -- behind it as the buffer had places left, and sends its response; the text with the zeroes is
  -- the same request with the zeroes behind its body.
  pub worker-zeroes :
      (chunks : List (List ℕ)) (later : List ReadAnswer) (answers : List Answer)
      (connections : List Accept) (t : Text) (r : Request)
      → NoneEmpty chunks
      → length (joined_chunks chunks) ≤ buffer_size
      → from_utf8 (joined_chunks chunks) ≡ some t
      → from_str t ≡ value r
      → let padding = zeroes (buffer_size - length (joined_chunks chunks)) in
        (worker from_utf8 as_bytes handler (accepted (arrivals chunks later) answers ∷ connections)
          ≡ after_response
              (write_response (as_bytes (to_string (handler (t ++ padding)))) answers [] 0)
              (worker from_utf8 as_bytes handler connections))
        × (from_str (t ++ padding) ≡ value (record r { body = r.body ++ padding }))
  unfolding worker
  worker-zeroes chunks later answers connections t r nonempty fits decoded parsed =
      let bytes = joined_chunks chunks in
      let room = buffer_size - length bytes in
      let rest = worker from_utf8 as_bytes handler connections in
      (
        ap (λ o. after_request from_utf8 as_bytes handler o answers rest)
              (read_request_lem [] chunks later nonempty fits).1
            ∙ ap (λ o. reply_to from_utf8 as_bytes handler o answers rest)
                (keeps bytes t room decoded),
        from_str-zeroes t room r parsed,
      )
