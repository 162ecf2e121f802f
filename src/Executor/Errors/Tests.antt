-- ===== src/Executor/Errors/Tests.antt =====
-- A socket that takes as many texts as its number says.
use nea.Base.{ℕ, zero, suc, ◌≡◌, refl, sym, Bool, true, false, some, [], ◌++◌, append-nil}
use nea.Text.{Text, codes, crlf, blank_line, split_once}
use nea.Executor.{panicked}
use nea.Executor.Errors.{message, send_error_response}
use nea.Executor.Errors.Sends.{Sends, IsSocket, error_response, send_error_response-Sends}

record Socket : Type 0 where
  left : ℕ
  written : Text

abbrev take_text : ℕ → Text → Text → Bool × Socket
take_text zero text t = (false, record { left = zero; written = text })
take_text (suc k) text t = (true, record { left = k; written = text ++ t })

abbrev write_all : Socket → Text → Bool × Socket
write_all s t = take_text s.left s.written t

abbrev nothing : Socket → Bool × Socket
nothing s = (true, s)

abbrev text_of : Socket → Text
text_of s = s.written

take_text-Sends :
    (k : ℕ) (text t : Text)
    → Sends text_of t (record { left = k; written = text }) (take_text k text t)
take_text-Sends zero text t = record {
  sent = [];
  missing = t;
  parts = refl;
  got = sym (append-nil text);
  whole = λ e. absurd (cc);
}
take_text-Sends (suc k) text t = record {
  sent = t;
  missing = [];
  parts = sym (append-nil t);
  got = refl;
  whole = λ e. refl;
}

Socket-IsSocket : IsSocket text_of write_all nothing nothing
Socket-IsSocket = record {
  writes = λ s t. take_text-Sends s.left s.written t;
  flushes = λ s. refl;
  shuts = λ s. refl;
}

-- The third write fails.
send_error_response-Sends_example :
    Sends text_of
      (error_response panicked)
      (record { left = 2; written = [] })
      (send_error_response write_all nothing nothing (record { left = 2; written = [] }) panicked)
    × (split_once blank_line (error_response panicked)
        ≡ some (
          codes "HTTP/1.1 500 Internal Server Error" ++ (crlf ++ codes "Content-Type: text/plain"),
          message panicked,
        ))
send_error_response-Sends_example =
    send_error_response-Sends text_of write_all nothing nothing (record { left = 2; written = [] })
      panicked Socket-IsSocket
