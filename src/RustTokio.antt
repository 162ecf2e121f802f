-- ===== src/RustTokio.antt =====
-- benchmarks/rust-tokio/src: the requests and responses of the server that the benchmarks on nea
-- are compared with.
pub mod Requests
pub mod Responses
pub mod Server
pub mod Worker
mod Tests
use nea.Base.{
  ℕ, ◌==◌, Bool, true, false, ◌&&◌, Option, none, some, List, [], ◌∷◌, ◌++◌, if◌then◌else◌,
}
use nea.Text.{Text, same, codes, crlf, blank_line, split_once, lines, colon, len, decimal}

-- A result of Rust.
pub data Fallible (E A : Type 0) : Type 0 where
  value : A → Fallible E A
  error : E → Fallible E A

pub data ParseRequestError : Type 0 where
  unexpected_eof syntax : ParseRequestError

-- A `BTreeMap` of texts, as what it finds at each key.
abbrev pub TextMap : Type 0
TextMap = Text → Option Text

abbrev pub insert : Text → Text → TextMap → TextMap
insert key v map j = if same j key then some v else map j

pub record Request : Type 0 where
  pub body : Text
  pub headers : TextMap
  pub method : Text
  pub path : Text
  pub version : Text

abbrev pub or_syntax :
    {A : Type 0}
    → Option (Text × Text)
    → (Text → Text → Fallible ParseRequestError A)
    → Fallible ParseRequestError A
or_syntax none next = error syntax
or_syntax (some (a, b)) next = next a b

-- The headers of the lines, the first line without a separator is an error.
unfoldable pub collect : List Text → TextMap → Fallible ParseRequestError TextMap
collect [] map = value map
collect (line ∷ rest) map =
    or_syntax (split_once colon line) (λ key v. collect rest (insert key v map))

abbrev pub request_of :
    Text
    → Text
    → Text
    → Text
    → Fallible ParseRequestError TextMap
    → Fallible ParseRequestError Request
request_of body method path version (error e) = error e
request_of body method path version (value map) =
    value (record { body = body; headers = map; method = method; path = path; version = version })

abbrev pub from_lines : Text → List Text → Fallible ParseRequestError Request
from_lines body [] = error unexpected_eof
from_lines body (first ∷ rest) = or_syntax (split_once (codes " ") first) λ method remainder.
    or_syntax (split_once (codes " ") remainder)
      λ path version. request_of body method path version (collect rest (λ j. none))

unfoldable pub from_str : Text → Fallible ParseRequestError Request
from_str content =
    or_syntax (split_once blank_line content) λ headers body. from_lines body (lines headers)

pub record Response : Type 0 where
  pub content_type : Text
  pub body : Text
  pub status : ℕ

abbrev pub desc : ℕ → Text
desc status = if status == 200 then codes "OK" else codes "Unknown"

abbrev pub status_text : ℕ → Text
status_text status = decimal status ++ (codes " " ++ desc status)

-- `to_string` of a response.
pub to_string : Response → Text
to_string r =
    codes "HTTP/1.1 "
    ++ (status_text r.status
        ++ (crlf
            ++ (codes "Content-Type: "
                ++ (r.content_type
                    ++ (codes "; charset=utf-8"
                        ++ (crlf
                            ++ (codes "Content-Length: "
                                ++ (decimal (len r.body) ++ (crlf ++ (crlf ++ r.body))))))))))

abbrev text_plain : Text
text_plain = codes "text/plain"

abbrev image_svg : Text
image_svg = codes "image/svg+xml"

abbrev status_ok : ℕ
status_ok = 200

-- `from` of a `&str` and of a `String`.
abbrev response_from : Text → Response
response_from text = record { content_type = text_plain; body = text; status = status_ok }
