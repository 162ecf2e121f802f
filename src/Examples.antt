-- ===== src/Examples.antt =====
-- nea/examples: the handlers of three example servers. A handler reads once and writes once; what the
-- stream answers is a parameter. Texts that both write are bytes of ASCII.
pub mod Hyper
pub mod StaticFile
pub mod OutOfMemory
mod Tests
use nea.Base.{ℕ, List, ◌++◌}
use nea.Text.{Text, codes, crlf}

-- What a handler does to its stream and how it ends: with `Ok`, with an error, or by a panic.
pub data Handled : Type 0 where
  finished : List ℕ → Handled
  gave_nothing : Handled
  failed : Handled
  panicked : Handled

abbrev pub response_head : Text
response_head =
    codes "HTTP/1.1 200 OK" ++ (crlf ++ (codes "Content-Type: text/html" ++ (crlf ++ crlf)))
