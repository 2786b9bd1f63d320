-- ===== src/Http/Thread.antt =====
-- app/src/plc_http.c, `handle_websocket_communication`: the loop of a WebSocket.
use beremiz4u_c.Common.{
  ℕ, ◌+◌, Bool, true, false, ◌&&◌, List, [], ◌∷◌, Option, none, some, leb, if◌then◌else◌,
}
use beremiz4u_c.Uploads.{Bytes}
use beremiz4u_c.Http.Frames.{
  Reply, no_reply, close_frame, pong_frame, Parsed, parse_websocket_frame, send_websocket_message,
}

abbrev pub status_publish_interval : ℕ
status_publish_interval = 1000

-- What `recv` answers: bytes, the end, EAGAIN, or another error.
pub data Received : Type 0 where
  bytes : List ℕ → Received
  ended would_block recv_error : Received

-- What `select` answers: an error, or which sets hold the socket, none where it times out.
pub data Selected : Type 0 where
  select_error : Selected
  ready : Bool → Bool → Selected

-- What a pass of the loop meets, with the time in milliseconds, and the text of a status update, as
-- `update_text` of Http.Status gives it.
pub record Pass : Type 0 where
  pub selected : Selected
  pub received : Received
  pub now : ℕ
  pub status_json : Option Bytes

-- The globals, `last_send_time`, every frame that was sent with the time of its pass, newest first, and
-- how often the socket was closed.
pub record Session : Type 0 where
  pub websocket_connected : Bool
  pub websocket_client_fd : Option ℕ
  pub last_send_time : ℕ
  pub sent : List (ℕ × Bytes)
  pub closes : ℕ

abbrev pub send : ℕ → Bytes → Session → Session
send now frame s = record s { sent = (now, frame) ∷ s.sent }

-- `send_close_frame` and `send_pong_frame`.
unfoldable pub send_reply : ℕ → Reply → Session → Session
send_reply now no_reply s = s
send_reply now close_frame s = send now (0x88 ∷ 0x02 ∷ 0x03 ∷ 0xE8 ∷ []) s
send_reply now pong_frame s = send now (0x8A ∷ 0x00 ∷ []) s

abbrev parsed_reply : Option Parsed → Reply
parsed_reply none = no_reply
parsed_reply (some p) = p.reply

-- A read: the session, and whether the loop goes on.
unfoldable pub take_in : ℕ → Received → Session → Session × Bool
unfolding send_reply
take_in now (bytes b) s = (send_reply now (parsed_reply (parse_websocket_frame b)) s, true)
take_in now ended s = (s, false)
take_in now would_block s = (s, true)
take_in now recv_error s = (s, false)

unfoldable pub has_client : Option ℕ → Bool
has_client none = false
has_client (some fd) = true

unfoldable pub send_status_update : ℕ → Option Bytes → Session → Session
unfolding has_client
send_status_update now none s = s
send_status_update now (some json) s =
    if s.websocket_connected && has_client s.websocket_client_fd
    then send now (send_websocket_message json) s
    else s

-- The status update behind the reads.
unfoldable pub publish_status : Bool → Pass → Session → Session
unfolding send_status_update
publish_status writable p s =
    if leb (s.last_send_time + status_publish_interval) p.now && writable
    then record (send_status_update p.now p.status_json s) { last_send_time = p.now }
    else s

unfoldable pub after_read : Bool → Pass → Session × Bool → Session × Bool
unfolding publish_status
after_read writable p (s, false) = (s, false)
after_read writable p (s, true) = (publish_status writable p s, true)

-- A pass of the loop, and whether another one follows.
unfoldable pub websocket_pass : Pass → Selected → Session → Session × Bool
unfolding after_read take_in
websocket_pass p select_error s = (s, false)
websocket_pass p (ready readable writable) s =
    after_read writable p (if readable then take_in p.now p.received s else (s, true))

-- Behind the loop, and the second close of `plc_websocket_server`.
unfoldable pub leave : Session → Session
leave s = record s {
  websocket_connected = false;
  websocket_client_fd = none;
  closes = s.closes + 2;
}

-- The loop over the passes that it meets, and whether it ended.
unfoldable pub websocket_loop : List Pass → Session → Session × Bool
unfolding leave
websocket_loop [] s = (s, false)
websocket_loop (p ∷ ps) s =
    let (t, on) = websocket_pass p p.selected s in
    let further = websocket_loop ps t in
    if s.websocket_connected then (if on then further else (leave t, true)) else (leave s, true)

-- The session before the loop.
abbrev pub connected : ℕ → ℕ → Session
connected fd start = record {
  websocket_connected = true;
  websocket_client_fd = some fd;
  last_send_time = start;
  sent = [];
  closes = 0;
}

-- `plc_websocket_server` on a socket, from the time at the start.
unfoldable pub plc_websocket_server : ℕ → ℕ → List Pass → Session × Bool
unfolding websocket_loop
plc_websocket_server fd start passes = websocket_loop passes (connected fd start)
