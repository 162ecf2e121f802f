-- ===== src/RustTokio/Requests.antt =====
-- benchmarks/rust-tokio/src/request.rs: what is parsed of a well-formed request, and the errors.
use nea.Base.{
  ℕ, ◌≡◌, ◌≢◌, ◌↔◌, refl, ap, ◌∙◌, arith, Option, none, some, List, [], ◌∷◌, ◌++◌, if◌then◌else◌,
}
use nea.Text.{
  Text, same, codes, blank_line, split_once, lines, colon, Header, fields, AllFields, AllLines,
  IsWord, joined, spaced, split_once-joined, split_once-at, split_once-field, lines-joined,
  spaced-IsLine, fields-AllLines, word-no_space, split_once_sound, attach, strip_prefix,
}
use nea.RustTokio.{
  Fallible, value, error, ParseRequestError, unexpected_eof, syntax, TextMap, insert, or_syntax,
  collect, request_of, from_lines, from_str,
}

-- The headers, each written over what is there for its key.
abbrev pub insert_all : List Header → TextMap → TextMap
insert_all [] map = map
insert_all (h ∷ hs) map = insert_all hs (insert h.key h.value map)

-- The value of the last header with a key.
abbrev pub last_value : Text → List Header → Option Text → Option Text
last_value key [] found = found
last_value key (h ∷ hs) found = last_value key hs (if same key h.key then some h.value else found)

insert_all-last_value :
    (hs : List Header) (map : TextMap) (key : Text)
    → insert_all hs map key ≡ last_value key hs (map key)
insert_all-last_value [] map key = refl
insert_all-last_value (h ∷ hs) map key = insert_all-last_value hs (insert h.key h.value map) key

collect-fields :
    (hs : List Header) (map : TextMap)
    → AllFields hs
    → collect (fields hs) map ≡ value (insert_all hs map)
unfolding collect
collect-fields [] map f = refl
collect-fields (h ∷ hs) map (f, fs) =
    rw (split_once-field h f) (collect-fields hs (insert h.key h.value map) fs)

pub record IsRequest (method path version : Text) : Type 0 where
  pub method_word : IsWord method
  pub path_word : IsWord path
  pub version_word : IsWord version

abbrev pub start : Text → Text → Text → Text
start method path version = spaced method (path ∷ version ∷ [])

module _ (method path version : Text) (h : IsRequest method path version) where
  start_line :
      (rest : List Text) (body : Text)
      → from_lines body (start method path version ∷ rest)
        ≡ request_of body method path version (collect rest (λ j. none))
  start_line rest body =
      rw
        (split_once-at 32 [] method (spaced path (version ∷ []))
          (word-no_space method h.method_word.no_spaces))
        (rw (split_once-at 32 [] path version (word-no_space path h.path_word.no_spaces)) refl)

  from_str-joined :
      (ls : List Text) (body : Text)
      → AllLines ls
      → from_str (joined (start method path version) ls ++ (blank_line ++ body))
        ≡ request_of body method path version (collect ls (λ j. none))
  unfolding from_str
  from_str-joined ls body all =
      let line =
        spaced-IsLine method (path ∷ version ∷ []) h.method_word
          (h.path_word, (h.version_word, tt)) in
      rw (split_once-joined (start method path version) ls body line all)
        (rw (lines-joined (start method path version) ls line all) (start_line ls body))

  -- The text of a request whose method, path and version are words, and whose headers have no end
  -- of a line and no colon in a key, is parsed to these and to its body, and its headers to a map
  -- that has for each key the value of the last header with it.
  pub from_str-parses :
      (hs : List Header) (body : Text)
      → AllFields hs
      → (map : TextMap) × (from_str
            (joined (start method path version) (fields hs) ++ (blank_line ++ body))
          ≡ value (record {
            body = body;
            headers = map;
            method = method;
            path = path;
            version = version;
          }))
        × ((key : Text) → map key ≡ last_value key hs none)
  from_str-parses hs body f = (
    insert_all hs (λ j. none),
    from_str-joined (fields hs) body (fields-AllLines hs f)
        ∙ ap (request_of body method path version) (collect-fields hs (λ j. none) f),
    insert_all-last_value hs (λ j. none),
  )

attach-some : (c : ℕ) (rest : List Text) → attach c rest ≢ []
attach-some c [] e = absurd (ground arith)
attach-some c (line ∷ rest) e = absurd (ground arith)

lines-none : (s : Text) → lines s ≡ [] → s ≡ []
unfolding lines
lines-none [] e = refl
lines-none (c ∷ []) e = absurd (ground arith)
lines-none (c ∷ d ∷ s) e =
    absurd (ground (arith, attach-some c (lines (d ∷ s)), attach-some d (lines s)))

request_of-error :
    (body method path version : Text) (r : Fallible ParseRequestError TextMap)
    → r ≢ error unexpected_eof
    → request_of body method path version r ≢ error unexpected_eof
request_of-error body method path version (value map) h = λ e. absurd (ground arith)
request_of-error body method path version (error unexpected_eof) h = λ e. h refl
request_of-error body method path version (error syntax) h = λ e. absurd (ground arith)

or_syntax-error :
    {A : Type 0} (o : Option (Text × Text)) (next : Text → Text → Fallible ParseRequestError A)
    → ((a b : Text) → next a b ≢ error unexpected_eof)
    → or_syntax o next ≢ error unexpected_eof
or_syntax-error none next h = λ e. absurd (ground arith)
or_syntax-error (some (a, b)) next h = h a b

collect-error : (ls : List Text) (map : TextMap) → collect ls map ≢ error unexpected_eof
unfolding collect
collect-error [] map = λ e. absurd (ground arith)
collect-error (l ∷ ls) map =
    or_syntax-error (split_once colon l) (λ key v. collect ls (insert key v map))
      (λ key v. collect-error ls (insert key v map))

from_lines-error :
    (body : Text) (ls : List Text) → from_lines body ls ≡ error unexpected_eof → ls ≡ []
from_lines-error body [] e = refl
from_lines-error body (l ∷ ls) e = absurd (
    or_syntax-error (split_once (codes " ") l)
      (λ method remainder.
        or_syntax (split_once (codes " ") remainder)
          λ path version. request_of body method path version (collect ls (λ j. none)))
      (λ method remainder.
        or_syntax-error (split_once (codes " ") remainder)
          (λ path version. request_of body method path version (collect ls (λ j. none)))
          (λ path version.
            request_of-error body method path version (collect ls (λ j. none))
              (collect-error ls (λ j. none))))
      e)

-- The parser returns the error of an unexpected end if and only if the text starts with a blank
-- line, that is two ends of a line.
pub unexpected_eof_iff :
    (content : Text)
    → (from_str content ≡ error unexpected_eof) ↔ ((body : Text) × (content ≡ blank_line ++ body))
unfolding from_str split_once strip_prefix lines
unexpected_eof_iff content = (go (split_once blank_line content) refl, λ (body, e). rw e refl)
  where
    go :
        (o : Option (Text × Text))
        → split_once blank_line content ≡ o
        → or_syntax o (λ headers body. from_lines body (lines headers)) ≡ error unexpected_eof
        → (body : Text) × (content ≡ blank_line ++ body)
    go none here e = absurd (ground arith)
    go (some (headers, body)) here e =
        let empty_head = lines-none headers (from_lines-error body (lines headers) e) in
        (
          body,
          split_once_sound blank_line content headers body here
              ∙ ap (λ head. head ++ (blank_line ++ body)) empty_head,
        )
