-- ===== src/Examples/Hyper.antt =====
-- nea/examples/hyper.rs: the request is put into a page, in a buffer of 1024 bytes. The request to
-- another server, which the handler makes meanwhile, is a parameter: whether it succeeds.
use nea.Base.{
  ℕ, ◌-◌, ltb, Bool, Option, none, some, List, [], ◌∷◌, ◌++◌, if◌then◌else◌, length, take,
}
use nea.Text.{codes, crlf}
use nea.Examples.{Handled, finished, failed, panicked, response_head}

abbrev pub page_size : ℕ
page_size = 1024

-- `write_all` of a cursor over the buffer: as many bytes as there is room for.
abbrev cursor_write : List ℕ → List ℕ → List ℕ
cursor_write buffer bytes = buffer ++ take (page_size - length buffer) bytes

-- `write_fmt`, which writes the pieces of the format up to the first that does not fit.
cursor_write_fmt : List ℕ → List (List ℕ) → List ℕ
cursor_write_fmt buffer [] = buffer
cursor_write_fmt buffer (piece ∷ pieces) =
    let rest = cursor_write_fmt (cursor_write buffer piece) pieces in
    if ltb (page_size - length buffer) (length piece) then cursor_write buffer piece else rest

pub response : List ℕ → List ℕ
response input =
    cursor_write_fmt
      (cursor_write
        (cursor_write (cursor_write [] (codes "HTTP/1.1 200 OK" ++ crlf))
          (codes "Content-Type: text/html" ++ crlf))
        crlf)
      (codes "<html>" ∷ input ∷ codes "</html>" ∷ [])

-- What the handler writes, with the bytes that it has read, whether they are UTF-8, whether the
-- other server answers, and whether its write and its flush succeed.
pub hyper_app : Option (List ℕ) → (List ℕ → Bool) → Bool → Bool → Handled
hyper_app none is_utf8 answered written = failed
hyper_app (some input) is_utf8 answered written =
    if is_utf8 input
    then if answered then if written then finished (response input) else failed else panicked
    else panicked

-- The page as a whole.
abbrev pub page : List ℕ → List ℕ
page input = response_head ++ (codes "<html>" ++ (input ++ codes "</html>"))

abbrev joined : List (List ℕ) → List ℕ
joined [] = []
joined (piece ∷ pieces) = piece ++ joined pieces
