-- ===== src/RustNea/Messages.antt =====
-- benchmarks/rust-nea/src/lib.rs: what `Request::parse` makes of a well-formed request.
use nea.Base.{
  ◌≡◌, refl, ap, ◌∙◌, arith, some, List, [], ◌∷◌, ◌++◌, ok, panic, ◌>>=◌, assertion_failed,
  append_assoc,
}
use nea.Text.{
  Text, crlf, blank_line, split_once, strip_prefix, lines, split_whitespace, Header, joined, spaced,
  fields, AllFields, AllWords, IsWord, split_once-joined, split_once-at, lines-message, lines-step,
  split_whitespace-spaced, spaced-IsLine, fields-AllLines, split_once-field, IsLine, AllLines,
}
use nea.RustNea.{Request, request_line, request_of, headers_of, parse}

-- What stands behind the first line.
abbrev behind_first : List Text → Text → Text
behind_first [] body = crlf ++ body
behind_first (l ∷ ls) body = joined l ls ++ (blank_line ++ body)

first_line :
    (l : Text) (ls : List Text) (body : Text)
    → IsLine l
    → split_once crlf (joined l ls ++ (blank_line ++ body)) ≡ some (l, behind_first ls body)
first_line l [] body h = split_once-at 13 (10 ∷ []) l (crlf ++ body) h.no_cr
first_line l (m ∷ ms) body h =
    ap (split_once crlf) (append_assoc l (crlf ++ joined m ms) (blank_line ++ body))
    ∙ split_once-at 13 (10 ∷ []) l (joined m ms ++ (blank_line ++ body)) h.no_cr

lines-behind_first :
    (ls : List Text) (body : Text)
    → AllLines ls
    → lines (behind_first ls body) ≡ ls ++ ([] ∷ lines body)
lines-behind_first [] body h = lines-step [] body refl refl
lines-behind_first (l ∷ ls) body (h, hs) = lines-message l ls body h hs

headers_of-fields :
    (hs : List Header) (rest : List Text)
    → AllFields hs
    → headers_of (fields hs ++ ([] ∷ rest)) ≡ hs ++ headers_of rest
unfolding headers_of split_once strip_prefix
headers_of-fields [] rest f = refl
headers_of-fields (h ∷ hs) rest (f, fs) =
    rw (split_once-field h f) (ap (λ r. h ∷ r) (headers_of-fields hs rest fs))

parse_split :
    (string head body x rest : Text)
    → split_once blank_line string ≡ some (head, body)
    → split_once crlf string ≡ some (x, rest)
    → parse string
      ≡ (request_line (split_whitespace x) >>= request_of body (headers_of (lines rest)))
unfolding parse
parse_split string head body x rest e e' = ground arith

parse_words :
    (w : Text) (ws : List Text) (hs : List Header) (body : Text)
    → IsWord w
    → AllWords ws
    → AllFields hs
    → parse (joined (spaced w ws) (fields hs) ++ (blank_line ++ body))
      ≡ (request_line (w ∷ ws) >>= request_of body (hs ++ headers_of (lines body)))
parse_words w ws hs body word words f =
    let line = spaced-IsLine w ws word words in
    let all = fields-AllLines hs f in
    parse_split (joined (spaced w ws) (fields hs) ++ (blank_line ++ body))
      (joined (spaced w ws) (fields hs)) body (spaced w ws) (behind_first (fields hs) body)
      (split_once-joined (spaced w ws) (fields hs) body line all)
      (first_line (spaced w ws) (fields hs) body line)
    ∙ rw (split_whitespace-spaced w ws word words) (
        rw (lines-behind_first (fields hs) body all)
          (rw (headers_of-fields hs (lines body) f) refl))

-- The text of a request.
abbrev pub print : Request → Text
print r =
    joined (spaced r.method (r.path ∷ r.version ∷ [])) (fields r.headers) ++ (blank_line ++ r.body)

pub record IsRequest (r : Request) : Type 0 where
  pub method_word : IsWord r.method
  pub path_word : IsWord r.path
  pub version_word : IsWord r.version
  pub header_fields : AllFields r.headers

-- The text of a request whose method, path and version are words, and whose headers have no end of
-- a line and no colon in a key, is parsed to that request, but for its headers: behind these come
-- all lines of the body with a colon and a space.
pub parse-print :
    (r : Request)
    → IsRequest r
    → parse (print r) ≡ ok (some (record r { headers = r.headers ++ headers_of (lines r.body) }))
parse-print r h =
    parse_words r.method (r.path ∷ r.version ∷ []) r.headers r.body h.method_word
      (h.path_word, (h.version_word, tt)) h.header_fields

pub parse_long_line :
    (method path version more : Text) (words : List Text) (hs : List Header) (body : Text)
    → AllWords (method ∷ path ∷ version ∷ more ∷ words)
    → AllFields hs
    → parse
        (joined (spaced method (path ∷ version ∷ more ∷ words)) (fields hs) ++ (blank_line ++ body))
      ≡ panic assertion_failed
parse_long_line method path version more words hs body (h, k) f =
    parse_words method (path ∷ version ∷ more ∷ words) hs body h k f
