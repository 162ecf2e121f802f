-- ===== src/Executor/Errors.antt =====
-- nea/src/executor.rs: the response that `cleanup_bucket` sends in place of the application's. The
-- socket is a parameter: what a call makes of it, and whether it succeeds.
pub mod Sends
mod Tests
use nea.Base.{ℕ, Bool, true, false, ◌++◌}
use nea.Text.{Text, codes, crlf}
use nea.Executor.{CleanupReason, out_of_memory, panicked}

-- The operator `?`: an error is the result of the whole function.
abbrev pub and_go : {S : Type 0} → Bool × S → (S → Bool × S) → Bool × S
and_go (true, s) next = next s
and_go (false, s) next = (false, s)

abbrev pub error_status_line : Text
error_status_line = codes "HTTP/1.1 500 Internal Server Error" ++ crlf

abbrev pub error_content_type : Text
error_content_type = codes "Content-Type: text/plain" ++ crlf

abbrev pub message : CleanupReason → Text
message out_of_memory = codes "Internal Server Error: Out of Memory" ++ crlf
message panicked = codes "Internal Server Error: Panic" ++ crlf

pub send_error_response :
    {S : Type 0}
    → (S → Text → Bool × S)
    → (S → Bool × S)
    → (S → Bool × S)
    → S
    → CleanupReason
    → Bool × S
send_error_response write_all flush shutdown socket reason =
    and_go (write_all socket error_status_line) (λ s1.
      and_go (write_all s1 error_content_type) (λ s2.
        and_go (write_all s2 crlf)
          (λ s3. and_go (write_all s3 (message reason)) (λ s4. and_go (flush s4) shutdown))))
