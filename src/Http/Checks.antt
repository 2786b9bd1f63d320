-- ===== src/Http/Checks.antt =====
-- Requests and frames, and the theorems on them.
use beremiz4u_c.Common.{
  ℕ, ◌≡◌, refl, List, [], ◌∷◌, true, false, take, ◌++◌, none, some, arith, length, length-replicate,
  drop, replicate, codes,
}
use beremiz4u_c.Http.Frames.{Parsed, no_reply, send_websocket_message, parse_websocket_frame}
use beremiz4u_c.Http.Lengths.{parse-send_websocket_message}
use beremiz4u_c.Http.Requests.{strcasestr, extract_websocket_key, crlf}
use beremiz4u_c.Http.Search.{StartsWith, Found, strcasestr_lem}
use beremiz4u_c.Log.{read_digits}
use beremiz4u_c.Settings.{initial}
use beremiz4u_c.Http.Status.{
  Json, Sources, requested_status, page_content, page_head, handle_status_request,
  handle_status_request-length,
}
use beremiz4u_c.Http.Server.{
  Accepted, client, accept_error, Answered, plc_http_server, plc_http_server-Answered,
}
use beremiz4u_c.Http.Files.{Encoders, Store}
use beremiz4u_c.Http.Thread.{
  Received, bytes, ended, would_block, ready, Pass, websocket_pass, plc_websocket_server,
}
use beremiz4u_c.Http.Spaced.{AreSpaced, text_times, plc_websocket_server-AreSpaced}

parse-send_websocket_message_example :
    (p : Parsed) × (parse_websocket_frame (send_websocket_message (codes "hello")) ≡ some p)
    × (p.fin ≡ 1)
    × (p.opcode ≡ 1)
    × (p.masked ≡ 0)
    × (p.reply ≡ no_reply)
    × (p.payload_length ≡ 5)
    × (drop p.pos p.frame ≡ codes "hello")
parse-send_websocket_message_example = parse-send_websocket_message (codes "hello") (omega arith)

big : List ℕ
big = replicate 65536 7

length-big : length big ≡ 65536
unfolding big
length-big = length-replicate {A = ℕ} 65536 7

strcasestr_lem_example :
    (strcasestr (codes "Upgrade: WebSocket") (codes "websocket") ≡ none
      → (before after : List ℕ) → codes "Upgrade: WebSocket" ≡ before ++ after
      → StartsWith after (codes "websocket")
      → ⊥)
    × ((found : List ℕ)
        → strcasestr (codes "Upgrade: WebSocket") (codes "websocket") ≡ some found
        → Found (codes "Upgrade: WebSocket") (codes "websocket") found)
strcasestr_lem_example =
    strcasestr_lem (codes "Upgrade: WebSocket") (codes "websocket") (omega arith)

abbrev request : List ℕ
request = codes "GET /ws" ++ (crlf ++ (codes "Sec-WebSocket-Key: abc " ++ crlf))

extracted : extract_websocket_key request ≡ some (codes "abc")
unfolding extract_websocket_key
extracted = refl

abbrev page : List ℕ
page = replicate 1500 65

abbrev flash_disk : Store
flash_disk = record { is_regular = λ p. true; fopen = λ p. some page }

pass_at : ℕ → Received → Pass
pass_at now received = record {
  selected = ready true true;
  received = received;
  now = now;
  status_json = some (codes "{}");
}

abbrev met : List Pass
met =
    pass_at 400 would_block
    ∷ pass_at 1100 (bytes (0x89 ∷ 0x00 ∷ []))
    ∷ pass_at 1600 would_block
    ∷ pass_at 2100 would_block
    ∷ pass_at 2200 ended
    ∷ []

met_times : text_times (plc_websocket_server 5 0 met).0.sent ≡ 2100 ∷ 1100 ∷ []
unfolding plc_websocket_server pass_at websocket_pass parse_websocket_frame send_websocket_message
met_times = refl

plc_websocket_server-AreSpaced_example :
    AreSpaced 0 (text_times (plc_websocket_server 5 0 met).0.sent)
    × ((plc_websocket_server 5 0 met).1 ≡ true
        → ((plc_websocket_server 5 0 met).0.websocket_connected ≡ false)
          × ((plc_websocket_server 5 0 met).0.websocket_client_fd ≡ none))
plc_websocket_server-AreSpaced_example = plc_websocket_server-AreSpaced 0 5 met

encoders : Encoders
encoders = record { sha1 = λ b. take 20 b; base64 = λ b. b }

abbrev clients : List Accepted
clients =
    client (some (codes "GET / HTTP/1.1")) []
    ∷ accept_error
    ∷ client none []
    ∷ client (some (codes "GET /../x HTTP")) []
    ∷ []

plc_http_server-Answered_example :
    Answered flash_disk encoders
      (codes "/www/")
      (replicate 20 0)
      clients
      (plc_http_server flash_disk encoders (codes "/www/") true true true (replicate 20 0) clients)
plc_http_server-Answered_example =
    plc_http_server-Answered flash_disk encoders (codes "/www/") (replicate 20 0) clients

json : Json
json = record {
  json_calc_encoded_len = λ i. some 12;
  json_obj_encode_buf = λ i. some (codes "{\"a\":true}");
  net_addr_ntop = λ a. none;
}

sources : Sources
sources = record {
  plc_initialized = 1;
  plc_run = 0;
  module_name = codes "plc";
  settings = initial;
  interface = none;
}

known : json.json_calc_encoded_len (requested_status json sources) ≡ some 12
unfolding json
known = refl

handle_status_request-length_example :
    (rest : List ℕ) × (handle_status_request json [] true true sources ≡ (page_head ++ rest) ∷ [])
    × (read_digits 0 rest ≡ (
      length (page_content json [] 12 sources),
      crlf ++ (crlf ++ page_content json [] 12 sources),
    ))
handle_status_request-length_example = handle_status_request-length json [] sources 12 known
