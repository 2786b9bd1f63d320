-- ===== src/Http/Server.antt =====
-- app/src/plc_http.c, `plc_http_server`: the loop over the clients.
use beremiz4u_c.Common.{
  codes, ◌≢◌, none, some, [], ◌∷◌, ◌≡◌, refl, Bool, true, ◌&&◌, List, [], ◌∷◌, Option, none, some,
  if◌then◌else◌,
}
use beremiz4u_c.Uploads.{Bytes}
use beremiz4u_c.Http.Files.{
  bad_request_text, left_open, Store, Encoders, Socket, respond, serve_request,
}
use beremiz4u_c.Http.Paths.{Asks, IsFor, answer-IsFor}
use beremiz4u_c.Http.Routing.{Outcome, process_request, Allowed, process_request-Allowed}
use beremiz4u_c.Settings.{overlay, c_string}

-- What `accept` gives: a client, with what `recv` gives of it and the answer of
-- `handle_status_request`, or an error.
pub data Accepted : Type 0 where
  client : Option Bytes → List Bytes → Accepted
  accept_error : Accepted

module _ (store : Store) (e : Encoders) (http_root : Bytes) where
  -- The loop over what `accept` gives, with the buffer that the requests share: the answers.
  unfoldable pub serve_clients : Bytes → List Accepted → List (List Bytes × Socket)
  serve_clients receive_buffer [] = []
  serve_clients receive_buffer (accept_error ∷ rest) = serve_clients receive_buffer rest
  serve_clients receive_buffer (client received status_json ∷ rest) =
      let (buffer, answer) = serve_request store e status_json http_root receive_buffer received in
      answer ∷ serve_clients buffer rest

  -- The thread, with what `socket`, `bind` and `listen` answer.
  unfoldable pub plc_http_server :
      Bool → Bool → Bool → Bytes → List Accepted → List (List Bytes × Socket)
  plc_http_server created bound listens receive_buffer accepted =
      if created && bound && listens then serve_clients receive_buffer accepted else []

  -- Each client has its answer, in order: that of an outcome that its request, the text in the buffer
  -- behind its bytes, allows, and that is the one for its path where it asks for one.
  abbrev pub Answered : Bytes → List Accepted → List (List Bytes × Socket) → Type 0
  Answered buffer [] [] = Unit {0}
  Answered buffer [] (answer ∷ answers) = ⊥
  Answered buffer (accept_error ∷ rest) answers = Answered buffer rest answers
  Answered buffer (client received status_json ∷ rest) [] = ⊥
  Answered buffer (client none status_json ∷ rest) (answer ∷ answers) =
      (answer ≡ (bad_request_text ∷ [], left_open)) × Answered buffer rest answers
  Answered buffer (client (some received) status_json ∷ rest) (answer ∷ answers) =
      ((o : Outcome) × (answer ≡ respond store e status_json o)
        × Allowed http_root (c_string (overlay received buffer)) o
        × ((uri behind : Bytes)
            → Asks (c_string (overlay received buffer)) uri behind
            → uri ≢ codes "/ws"
            → IsFor http_root uri o))
      × Answered (overlay received buffer) rest answers

  serve_clients-Answered :
      (receive_buffer : Bytes) (accepted : List Accepted)
      → Answered receive_buffer accepted (serve_clients receive_buffer accepted)
  unfolding serve_clients serve_request process_request respond
  serve_clients-Answered buffer [] = tt {0}
  serve_clients-Answered buffer (accept_error ∷ rest) = serve_clients-Answered buffer rest
  serve_clients-Answered buffer (client none status_json ∷ rest) =
      (refl, serve_clients-Answered buffer rest)
  serve_clients-Answered buffer (client (some received) status_json ∷ rest) = (
    (
      (process_request http_root buffer (some received)).1,
      refl,
      process_request-Allowed http_root buffer received,
      λ uri behind asks other.
          answer-IsFor http_root uri (c_string (overlay received buffer)) behind asks other,
    ),
    serve_clients-Answered (overlay received buffer) rest,
  )

  -- A server that could open its socket answers every client that it accepts, in order, where an
  -- answer is known: with what an outcome asks for that the client's request allows, so no file is read
  -- for a path with two dots; and a request for a path other than "/ws" is answered for this path: with
  -- the file below the root, the status or a refusal for two dots, unless the path does not fit into the
  -- 32 bytes that it is written to.
  pub plc_http_server-Answered :
      (receive_buffer : Bytes) (accepted : List Accepted)
      → Answered receive_buffer accepted (plc_http_server true true true receive_buffer accepted)
  unfolding plc_http_server
  plc_http_server-Answered receive_buffer accepted = serve_clients-Answered receive_buffer accepted
