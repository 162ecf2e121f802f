-- ===== src/Examples/StaticFile.antt =====
-- nea/examples/send-static-file.rs: any request with a blank line is answered with one file. The
-- contents of the file are a parameter, as is the decoding of UTF-8.
use nea.Base.{ℕ, Bool, Option, none, some, List, ◌++◌, if◌then◌else◌}
use nea.Text.{Text, blank_line, crlf, split_once}
use nea.Examples.{Handled, finished, gave_nothing, panicked, response_head}

module _ (from_utf8 : List ℕ → Option Text) (file : List ℕ) where
  -- With a text that has no blank line nothing is written. The write may take a part of the
  -- response alone, which is not looked at; its error is a panic.
  abbrev static_answer : Option (Text × Text) → Bool → Handled
  static_answer none written = gave_nothing
  static_answer (some (headers, body)) written =
      if written then finished (response_head ++ (file ++ crlf)) else panicked

  abbrev decoded : Option Text → Bool → Handled
  decoded none written = panicked
  decoded (some text) written = static_answer (split_once blank_line text) written

  -- What the handler writes, with the bytes that it has read, and whether the write succeeds.
  static_handler : Option (List ℕ) → Bool → Handled
  static_handler none written = panicked
  static_handler (some bytes) written = decoded (from_utf8 bytes) written
