-- ===== src/StateMachine/Tests.antt =====
-- A client that sends three bytes, and a stream that takes the response in two parts or in one.
use nea.Base.{ℕ, ◌-◌, ◌<◌, ◌≡◌, ◌≢◌, some, List, [], ◌∷◌, ◌++◌, length, take}
use nea.StateMachine.{handler, initial, nothing, html_response, finished, out_of_fuel}
use nea.StateMachine.Sends.{handler_lem}

abbrev request : List ℕ
request = 71 ∷ 69 ∷ 84 ∷ []

handler_lem_example :
    ((handler 3 initial nothing [] [] []).0 ≢ out_of_fuel)
    × (handler 3 initial nothing (some request ∷ []) (some (length html_response) ∷ []) []
        ≡ (finished, html_response))
    × ((n : ℕ)
        → 0 < n
        → n < length html_response
        → handler 3 initial nothing
            (some request ∷ [])
            (some n ∷ some (length html_response - n) ∷ [])
            []
          ≡ (finished, take n html_response ++ take (length html_response - n) html_response))
handler_lem_example = handler_lem request [] []
