-- ===== src/RustTokio/Worker/Serves.antt =====
-- benchmarks/rust-tokio/src/server.rs: the connections of the loop in `worker`, in order.
use nea.Base.{ℕ, ◌≡◌, ◌≢◌, refl, ap, ◌∙◌, Option, some, List, [], ◌∷◌, ◌++◌}
use nea.Text.{Text}
use nea.RustTokio.{Response, to_string}
use nea.RustTokio.Server.{Loop, waiting, returned, failed, Answer, write_response}
use nea.RustTokio.Worker.{
  ReadAnswer, read_request, buffer, Accept, accepted, accept_error, Service, stops_on,
  after_response, reply_to, after_request, worker,
}

module _ (from_utf8 : List ℕ → Option Text) (as_bytes : Text → List ℕ)
    (handler : Text → Response) where
  -- The connection is answered with these bytes: its request is read and decoded, and the response
  -- is written.
  abbrev pub Answered : Accept → List ℕ → Type 0
  Answered accept_error reply = ⊥
  Answered (accepted reads answers) reply =
      (bytes : List ℕ) × (request : Text) × (read_request [] reads ≡ (returned, bytes))
      × (from_utf8 (buffer bytes) ≡ some request)
      × (write_response (as_bytes (to_string (handler request))) answers [] 0 ≡ (returned, reply))

  abbrev pub AllAnswered : List Accept → List (List ℕ) → Type 0
  AllAnswered [] [] = Unit
  AllAnswered [] (r ∷ replies) = ⊥
  AllAnswered (c ∷ connections) [] = ⊥
  AllAnswered (c ∷ connections) (r ∷ replies) = Answered c r × AllAnswered connections replies

  Answered-first :
      (c : Accept) (reply : List ℕ) (later : List Accept)
      → Answered c reply
      → worker from_utf8 as_bytes handler (c ∷ later) ≡ (
          let rest = worker from_utf8 as_bytes handler later in
          record { sent = reply ∷ rest.sent; loop = rest.loop })
  unfolding worker
  Answered-first accept_error reply later answered = absurd answered
  Answered-first (accepted reads answers) reply later (bytes, request, read, decoded, written) =
      let rest = worker from_utf8 as_bytes handler later in
      ap (λ r. after_request from_utf8 as_bytes handler r answers rest) read
      ∙ ap (λ t. reply_to from_utf8 as_bytes handler t answers rest) decoded
      ∙ ap (λ w. after_response w rest) written

  unread :
      (r : Loop × List ℕ) (answers : List Answer) (rest : Service)
      → r.0 ≢ returned
      → after_request from_utf8 as_bytes handler r answers rest ≡ stops_on [] r.0
  unread (waiting, bytes) answers rest ne = refl
  unread (returned, bytes) answers rest ne = absurd (ne refl)
  unread (failed, bytes) answers rest ne = refl

  -- When some connections are answered, each read, decoded and written in full, and then comes one
  -- whose request is not read to an end, the loop has sent the answers of the former and nothing
  -- more, and stands as the read of the latter does, failed or waiting, whatever connections come
  -- later.
  pub one_client_stops_all :
      (connections : List Accept) (replies : List (List ℕ)) (reads : List ReadAnswer)
      (answers : List Answer) (later : List Accept)
      → AllAnswered connections replies
      → (read_request [] reads).0 ≢ returned
      → worker from_utf8 as_bytes handler (connections ++ (accepted reads answers ∷ later))
        ≡ record { sent = replies ++ ([] ∷ []); loop = (read_request [] reads).0 }
  unfolding worker
  one_client_stops_all [] [] reads answers later all ne =
      unread (read_request [] reads) answers (worker from_utf8 as_bytes handler later) ne
  one_client_stops_all [] (reply ∷ replies) reads answers later all ne = absurd all
  one_client_stops_all (c ∷ connections) [] reads answers later all ne = absurd all
  one_client_stops_all (c ∷ connections) (reply ∷ replies) reads answers later all ne =
      Answered-first c reply (connections ++ (accepted reads answers ∷ later)) all.0
      ∙ ap (λ (rest : Service). record { sent = reply ∷ rest.sent; loop = rest.loop })
          (one_client_stops_all connections replies reads answers later all.1 ne)
