-- ===== src/StateMachine/Sends.antt =====
-- nea/examples/state-machine-html.rs: that the handler ends, and what it sends.
use nea.Base.{
  ℕ, ◌-◌, ◌^◌, sub64, ◌∙◌, ◌<◌, ◌≡◌, ◌≢◌, refl, ap, arith, Option, none, some, List, [], ◌∷◌, ◌++◌,
  length, take, take-length,
}
use nea.StateMachine.{
  handler, roc_handler, initial, nothing, html_response, Ended, finished, out_of_fuel, failed,
  waiting, write_all, after_write,
}

write_all-ends :
    (buf : List ℕ) (remaining : ℕ) (answers : List (Option ℕ)) (sent : List ℕ)
    → (write_all buf remaining answers sent).0 ≢ out_of_fuel
unfolding write_all
write_all-ends buf remaining [] sent = λ e. absurd (ground arith)
write_all-ends buf remaining (none ∷ answers) sent = λ e. absurd (ground arith)
write_all-ends buf remaining (some n ∷ answers) sent =
    let rest = write_all-ends buf (sub64 remaining n) answers (sent ++ take n buf) in
    λ e. absurd (ground (arith, rest))

after_write-ends :
    (o : Ended × List (Option ℕ) × List ℕ)
    → o.0 ≢ out_of_fuel
    → (after_write o (λ writes sent. (finished, sent))).0 ≢ out_of_fuel
after_write-ends (finished, writes, sent) h = λ e. absurd (ground arith)
after_write-ends (failed, writes, sent) h = λ e. absurd (ground arith)
after_write-ends (waiting, writes, sent) h = λ e. absurd (ground arith)
after_write-ends (out_of_fuel, writes, sent) h = h

ends :
    (reads : List (Option (List ℕ))) (writes : List (Option ℕ))
    → (handler 3 initial nothing reads writes []).0 ≢ out_of_fuel
unfolding handler roc_handler
ends [] writes = λ e. absurd (ground arith)
ends (none ∷ reads) writes = λ e. absurd (ground arith)
ends (some buf ∷ reads) writes =
    after_write-ends (write_all html_response (length html_response) writes [])
      (write_all-ends html_response (length html_response) writes [])

write_done :
    (buf : List ℕ) (answers : List (Option ℕ)) (sent : List ℕ)
    → write_all buf 0 answers sent ≡ (finished, answers, sent)
unfolding write_all
write_done buf [] sent = refl
write_done buf (none ∷ answers) sent = refl
write_done buf (some n ∷ answers) sent = refl

one_write :
    (buf : List ℕ) (remaining n : ℕ) (answers : List (Option ℕ)) (sent : List ℕ)
    → 0 < remaining
    → write_all buf remaining (some n ∷ answers) sent
      ≡ write_all buf (sub64 remaining n) answers (sent ++ take n buf)
unfolding write_all
one_write buf remaining n answers sent pos = ground arith

last_write :
    (buf : List ℕ) (remaining : ℕ) (answers : List (Option ℕ)) (sent : List ℕ)
    → 0 < remaining
    → remaining < 2 ^ 64
    → write_all buf remaining (some remaining ∷ answers) sent
      ≡ (finished, answers, sent ++ take remaining buf)
last_write buf remaining answers sent pos lt =
    let none_left : sub64 remaining remaining ≡ 0 = omega arith in
    one_write buf remaining remaining answers sent pos
    ∙ rw none_left (write_done buf answers (sent ++ take remaining buf))

two_writes :
    (buf : List ℕ) (n : ℕ) (answers : List (Option ℕ))
    → 0 < n
    → n < length buf
    → length buf < 2 ^ 64
    → write_all buf (length buf) (some n ∷ some (length buf - n) ∷ answers) []
      ≡ (finished, answers, take n buf ++ take (length buf - n) buf)
two_writes buf n answers pos lt small =
    let left : sub64 (length buf) n ≡ length buf - n = omega arith in
    one_write buf (length buf) n (some (length buf - n) ∷ answers) [] (omega arith)
    ∙ rw left (last_write buf (length buf - n) answers (take n buf) (omega arith) (omega arith))

html_some : 0 < length html_response
unfolding length
html_some = omega arith

html_small : length html_response < 2 ^ 64
unfolding length
html_small = omega arith

-- The loop of the handler carries out three commands at most, whatever the stream answers; the loop
-- inside a command that writes is not bounded, and may wait when the answers are over. If the
-- stream gives a request and takes the whole response at once, the handler finishes and the
-- response was sent. If it takes a part and then as many bytes as are missing, the handler
-- finishes, but the second part that was sent is again from the start of the response.
pub handler_lem :
    (buf : List ℕ) (reads : List (Option (List ℕ))) (writes : List (Option ℕ))
    → ((handler 3 initial nothing reads writes []).0 ≢ out_of_fuel)
      × (handler 3 initial nothing (some buf ∷ reads) (some (length html_response) ∷ writes) []
          ≡ (finished, html_response))
      × ((n : ℕ)
          → 0 < n
          → n < length html_response
          → handler 3 initial nothing
              (some buf ∷ reads)
              (some n ∷ some (length html_response - n) ∷ writes)
              []
            ≡ (finished, take n html_response ++ take (length html_response - n) html_response))
unfolding handler roc_handler
handler_lem buf reads writes =
    let close =
      λ (o : Ended × List (Option ℕ) × List ℕ). after_write o (λ writes sent. (finished, sent)) in
    (
      ends reads writes,
      ap close (last_write html_response (length html_response) writes [] html_some html_small)
          ∙ ap (λ out. (finished, out)) (take-length html_response),
      λ n pos lt. ap close (two_writes html_response n writes pos lt html_small),
    )
