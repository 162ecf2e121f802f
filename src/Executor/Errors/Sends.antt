-- ===== src/Executor/Errors/Sends.antt =====
-- nea/src/executor.rs: what a client gets of the error response, if the socket fails at some call.
use nea.Base.{
  ◌≡◌, refl, sym, ap, ◌∙◌, arith, Bool, true, false, some, [], ◌++◌, append_assoc, append-nil,
}
use nea.Text.{Text, codes, crlf, blank_line, split_once, strip_prefix}
use nea.Executor.{CleanupReason, out_of_memory, panicked}
use nea.Executor.Errors.{
  and_go, error_status_line, error_content_type, message, send_error_response,
}

-- Of a text the socket has got the start, and all of it if the calls succeeded.
pub record Sends {S : Type 0} (written : S → Text) (t : Text) (s : S) (o : Bool × S) : Type 0 where
  pub sent : Text
  pub missing : Text
  pub parts : t ≡ sent ++ missing
  pub got : written o.1 ≡ written s ++ sent
  pub whole : o.0 ≡ true → missing ≡ []

-- What the calls of a socket are documented to do: `write_all` writes a start of the text, and all
-- of it if it succeeds; the others write nothing.
pub record IsSocket {S : Type 0} (written : S → Text) (write_all : S → Text → Bool × S)
    (flush shutdown : S → Bool × S) : Type 0 where
  pub writes : (s : S) (t : Text) → Sends written t s (write_all s t)
  pub flushes : (s : S) → written (flush s).1 ≡ written s
  pub shuts : (s : S) → written (shutdown s).1 ≡ written s

module _ {S : Type 0} (written : S → Text) where
  and_go-Sends :
      (t u : Text) (s : S) (o : Bool × S) (next : S → Bool × S)
      → Sends written t s o
      → ((s' : S) → Sends written u s' (next s'))
      → Sends written (t ++ u) s (and_go o next)
  and_go-Sends t u s (true, s') next first rest =
      let later = rest s' in
      let all : t ≡ first.sent =
        first.parts ∙ ap (λ r. first.sent ++ r) (first.whole refl) ∙ append-nil first.sent in
      record {
        sent = first.sent ++ later.sent;
        missing = later.missing;
        parts =
            ap (λ x. x ++ u) all
            ∙ ap (λ x. first.sent ++ x) later.parts
            ∙ sym (append_assoc first.sent later.sent later.missing);
        got =
            later.got
            ∙ ap (λ x. x ++ later.sent) first.got
            ∙ append_assoc (written s) first.sent later.sent;
        whole = later.whole;
      }
  and_go-Sends t u s (false, s') next first rest = record {
    sent = first.sent;
    missing = first.missing ++ u;
    parts = ap (λ x. x ++ u) first.parts ∙ append_assoc first.sent first.missing u;
    got = first.got;
    whole = λ e. absurd (ground arith);
  }

  nothing-Sends : (s : S) (o : Bool × S) → written o.1 ≡ written s → Sends written [] s o
  nothing-Sends s o same = record {
    sent = [];
    missing = [];
    parts = refl;
    got = same ∙ sym (append-nil (written s));
    whole = λ e. refl;
  }

abbrev pub error_response : CleanupReason → Text
error_response reason =
    error_status_line ++ (error_content_type ++ (crlf ++ (message reason ++ [])))

framed :
    (reason : CleanupReason)
    → split_once blank_line (error_response reason)
      ≡ some (
        codes "HTTP/1.1 500 Internal Server Error" ++ (crlf ++ codes "Content-Type: text/plain"),
        message reason,
      )
unfolding split_once strip_prefix
framed out_of_memory = refl
framed panicked = refl

-- On a socket whose writes write a start of their text, and all of it if they succeed, and whose
-- other calls write nothing: behind `send_error_response` the socket has got a start of the
-- response, and all of it if every call succeeded; the response is, before and behind its first
-- blank line, a head with status 500 and the message of the reason.
pub send_error_response-Sends :
    {S : Type 0} (written : S → Text) (write_all : S → Text → Bool × S)
    (flush shutdown : S → Bool × S) (socket : S) (reason : CleanupReason)
    → IsSocket written write_all flush shutdown
    → Sends written
        (error_response reason)
        socket
        (send_error_response write_all flush shutdown socket reason)
      × (split_once blank_line (error_response reason)
          ≡ some (
            codes "HTTP/1.1 500 Internal Server Error"
                ++ (crlf ++ codes "Content-Type: text/plain"),
            message reason,
          ))
unfolding send_error_response
send_error_response-Sends written write_all flush shutdown socket reason is = (
  and_go-Sends written error_status_line (error_content_type ++ (crlf ++ (message reason ++ [])))
      socket (write_all socket error_status_line) _ (is.writes socket error_status_line)
      (λ s1.
        and_go-Sends written error_content_type (crlf ++ (message reason ++ [])) s1
          (write_all s1 error_content_type) _ (is.writes s1 error_content_type)
          (λ s2.
            and_go-Sends written crlf (message reason ++ []) s2 (write_all s2 crlf) _
              (is.writes s2 crlf)
              (λ s3.
                and_go-Sends written (message reason) [] s3 (write_all s3 (message reason)) _
                  (is.writes s3 (message reason))
                  (λ s4.
                    and_go-Sends written [] [] s4 (flush s4) shutdown
                      (nothing-Sends written s4 (flush s4) (is.flushes s4))
                      (λ s5. nothing-Sends written s5 (shutdown s5) (is.shuts s5)))))),
  framed reason,
)
