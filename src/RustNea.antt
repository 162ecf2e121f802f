-- ===== src/RustNea.antt =====
-- benchmarks/rust-nea/src/lib.rs: a request as the benchmarks on nea read it, and the response.
pub mod Messages
pub mod Paths
pub mod Handlers
mod Tests
use nea.Base.{Option, none, some, List, [], ◌∷◌, ◌++◌, Result, ok, panic, ◌>>=◌, assertion_failed}
use nea.Text.{Text, codes, crlf, blank_line, split_once, lines, split_whitespace, colon, Header}

pub record Request : Type 0 where
  pub body : Text
  pub headers : List Header
  pub method : Text
  pub path : Text
  pub version : Text

-- The three words of the first line; a fourth fails the assertion.
abbrev pub request_line : List Text → Result (Option (Text × Text × Text))
request_line [] = ok none
request_line (method ∷ []) = ok none
request_line (method ∷ path ∷ []) = ok none
request_line (method ∷ path ∷ version ∷ []) = ok (some (method, path, version))
request_line (method ∷ path ∷ version ∷ more ∷ words) = panic assertion_failed

-- A line without the separator is passed over.
abbrev pub push_header : Option (Text × Text) → List Header → List Header
push_header none headers = headers
push_header (some (key, value)) headers = record { key = key; value = value } ∷ headers

pub headers_of : List Text → List Header
headers_of [] = []
headers_of (line ∷ rest) = push_header (split_once colon line) (headers_of rest)

abbrev pub request_of : Text → List Header → Option (Text × Text × Text) → Result (Option Request)
request_of body headers none = ok none
request_of body headers (some (method, path, version)) = ok (
    some
      (record { body = body; headers = headers; method = method; path = path; version = version }))

-- The headers are looked for in all that follows the first line.
pub parse : Text → Result (Option Request)
parse string = elim (split_once blank_line string) [
  | none ↦ ok none
  | some (_headers, body) ↦ elim (split_once crlf string) [
    | none ↦ ok none
    | some (x, _headers) ↦
        request_line (split_whitespace x) >>= request_of body (headers_of (lines _headers))
  ]
]

abbrev pub format_response : Text → Text
format_response rust_response =
    codes "HTTP/1.1 200 OK"
    ++ (crlf ++ (codes "Content-Type: text/html" ++ (crlf ++ (crlf ++ (rust_response ++ crlf)))))
