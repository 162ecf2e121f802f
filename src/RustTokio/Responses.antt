-- ===== src/RustTokio/Responses.antt =====
-- benchmarks/rust-tokio/src/response.rs: what a client reads of a response.
use nea.Base.{ℕ, ◌<◌, ◌^◌, ◌≡◌, refl, ap, ◌∙◌, arith, true, some, [], ◌∷◌, ◌++◌, append_assoc}
use nea.Text.{
  Text, codes, blank_line, split_once, lines, colon, Header, field, IsField, AllLines, IsLine,
  joined, split_once-joined, lines-joined, decimal, digits-avoids, read, read-decimal, len, avoids,
  avoids-append, field-IsLine, split_once-field,
}
use nea.RustTokio.{Response, desc, status_text, to_string}

abbrev status_line : Response → Text
status_line r = codes "HTTP/1.1 " ++ status_text r.status

abbrev content_type : Response → Header
content_type r = record {
  key = codes "Content-Type";
  value = r.content_type ++ codes "; charset=utf-8";
}

abbrev content_length : Response → Header
content_length r = record { key = codes "Content-Length"; value = decimal (len r.body) }

to_string_lem :
    (r : Response)
    → to_string r
      ≡ joined (status_line r) (field (content_type r) ∷ field (content_length r) ∷ [])
        ++ (blank_line ++ r.body)
unfolding to_string
to_string_lem r = simp append_assoc

desc-avoids : (x status : ℕ) → x < 32 → avoids x (desc status) ≡ true
desc-avoids x status lt = ground arith

status-avoids : (x status : ℕ) → x < 32 → avoids x (status_text status) ≡ true
status-avoids x status lt =
    avoids-append x (decimal status) (codes " " ++ desc status)
      (digits-avoids x 20 status (omega arith)) (ground (arith, desc-avoids x status))

status_line-IsLine : (r : Response) → IsLine (status_line r)
status_line-IsLine r = record {
  no_cr = status-avoids 13 r.status (omega arith);
  no_lf = status-avoids 10 r.status (omega arith);
  some_text = refl;
}

content_type-IsField :
    (r : Response)
    → avoids 13 r.content_type ≡ true
    → avoids 10 r.content_type ≡ true
    → IsField (content_type r)
content_type-IsField r no_cr no_lf = record {
  no_colon = refl;
  key_no_cr = refl;
  key_no_lf = refl;
  value_no_cr = avoids-append 13 r.content_type (codes "; charset=utf-8") no_cr refl;
  value_no_lf = avoids-append 10 r.content_type (codes "; charset=utf-8") no_lf refl;
}

content_length-IsField : (r : Response) → IsField (content_length r)
content_length-IsField r = record {
  no_colon = refl;
  key_no_cr = refl;
  key_no_lf = refl;
  value_no_cr = digits-avoids 13 20 (len r.body) (omega arith);
  value_no_lf = digits-avoids 10 20 (len r.body) (omega arith);
}

-- The parts of the response as a client finds them.
pub record Framed (r : Response) : Type 0 where
  head : Text
  splits : split_once blank_line (to_string r) ≡ some (head, r.body)
  head_lines : lines head ≡ status_line r ∷ field (content_type r) ∷ field (content_length r) ∷ []
  length_value :
      split_once colon (field (content_length r))
      ≡ some (codes "Content-Length", (content_length r).value)
  length_read : read 0 (content_length r).value ≡ len r.body

-- A response with a content type without an end of a line, and with a body of less than 2^64 bytes,
-- is printed as a text whose first blank line stands before the body; the lines before that are the
-- status, the content type and the content length, and the number in the last is the length of the
-- body in bytes.
pub to_string-Framed :
    (r : Response)
    → avoids 13 r.content_type ≡ true
    → avoids 10 r.content_type ≡ true
    → len r.body < 2 ^ 64
    → Framed r
to_string-Framed r no_cr no_lf small =
    let type = content_type-IsField r no_cr no_lf in
    let length = content_length-IsField r in
    let rest = field (content_type r) ∷ field (content_length r) ∷ [] in
    let all : AllLines rest =
      (field-IsLine (content_type r) type, (field-IsLine (content_length r) length, tt)) in
    let start = status_line-IsLine r in
    record {
      head = joined (status_line r) rest;
      splits =
          ap (split_once blank_line) (to_string_lem r)
          ∙ split_once-joined (status_line r) rest r.body start all;
      head_lines = lines-joined (status_line r) rest start all;
      length_value = split_once-field (content_length r) length;
      length_read = read-decimal (len r.body) small;
    }
