-- ===== src/StateMachine.antt =====
-- nea/examples/state-machine-html.rs: the handler as a state machine, and the loop that carries out
-- its commands. What the stream answers is a list of results; `none` is an error.
pub mod Sends
mod Tests
use nea.Base.{
  ℕ, zero, suc, ◌==◌, sub64, Bool, true, false, Option, none, some, List, [], ◌∷◌, ◌++◌,
  if◌then◌else◌, length, take,
}
use nea.Text.{Text, codes, crlf}

pub data Cmd : Type 0 where
  read : Cmd
  write : List ℕ → Cmd
  done : Cmd

pub data Msg : Type 0 where
  nothing : Msg
  was_read : List ℕ → Msg

pub data Model : Type 0 where
  initial writing : Model

abbrev pub html_response : List ℕ
html_response =
    codes "HTTP/1.1 200 OK"
    ++ (crlf
        ++ (codes "Content-Type: text/html" ++ (crlf ++ (crlf ++ codes "<html>foobar</html>"))))

pub roc_handler : Model → Msg → Model × Cmd
roc_handler initial nothing = (initial, read)
roc_handler initial (was_read buf) = (writing, write html_response)
roc_handler writing msg = (writing, done)

-- How a loop ends: in `waiting` the answers are over, in `out_of_fuel` the rounds.
pub data Ended : Type 0 where
  finished failed waiting out_of_fuel : Ended

-- The loop over `remaining`, with the answers that are left and the bytes that went out. Each write
-- starts at the first byte; the subtraction wraps.
pub write_all : List ℕ → ℕ → List (Option ℕ) → List ℕ → Ended × List (Option ℕ) × List ℕ
write_all buf remaining [] sent =
    if remaining == 0 then (finished, [], sent) else (waiting, [], sent)
write_all buf remaining (none ∷ answers) sent =
    if remaining == 0 then (finished, none ∷ answers, sent) else (failed, answers, sent)
write_all buf remaining (some n ∷ answers) sent =
    let rest = write_all buf (sub64 remaining n) answers (sent ++ take n buf) in
    if remaining == 0 then (finished, some n ∷ answers, sent) else rest

-- What the loop does behind a write.
abbrev pub after_write :
    Ended × List (Option ℕ) × List ℕ → (List (Option ℕ) → List ℕ → Ended × List ℕ) → Ended × List ℕ
after_write (finished, writes, sent) again = again writes sent
after_write (failed, writes, sent) again = (failed, sent)
after_write (waiting, writes, sent) again = (waiting, sent)
after_write (out_of_fuel, writes, sent) again = (out_of_fuel, sent)

abbrev pub after_read :
    List (Option (List ℕ))
    → List ℕ
    → (Msg → List (Option (List ℕ)) → Ended × List ℕ)
    → Ended × List ℕ
after_read [] sent again = (waiting, sent)
after_read (none ∷ reads) sent again = (failed, sent)
after_read (some buf ∷ reads) sent again = again (was_read buf) reads

abbrev pub carry_out :
    Cmd
    → List (Option (List ℕ))
    → List (Option ℕ)
    → List ℕ
    → (Msg → List (Option (List ℕ)) → List (Option ℕ) → List ℕ → Ended × List ℕ)
    → Ended × List ℕ
carry_out read reads writes sent again =
    after_read reads sent (λ msg rest. again msg rest writes sent)
carry_out (write buf) reads writes sent again =
    after_write (write_all buf (length buf) writes sent) (λ rest out. again nothing reads rest out)
carry_out done reads writes sent again = (finished, sent)

-- The loop of `handler`, on fuel.
pub handler : ℕ → Model → Msg → List (Option (List ℕ)) → List (Option ℕ) → List ℕ → Ended × List ℕ
handler zero model msg reads writes sent = (out_of_fuel, sent)
handler (suc fuel) model msg reads writes sent =
    let (new_model, cmd) = roc_handler model msg in
    carry_out cmd reads writes sent (handler fuel new_model)
