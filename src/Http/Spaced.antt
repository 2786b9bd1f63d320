-- ===== src/Http/Spaced.antt =====
-- app/src/plc_http.c, `handle_websocket_communication`: the status updates and the end.
use beremiz4u_c.Common.{
  ◌==◌, ◌&&◌, Option, some, Bool, false, List, [], ◌∷◌, ℕ, ◌+◌, ◌≤◌, ◌≡◌, refl, Bool, true, false,
  List, [], ◌∷◌, none, if◌then◌else◌, arith,
}
use beremiz4u_c.Uploads.{Bytes}
use beremiz4u_c.Http.Frames.{
  send_websocket_message, frame_header, Reply, no_reply, close_frame, pong_frame,
}
use beremiz4u_c.Http.Thread.{
  send, has_client, Received, bytes, ended, would_block, recv_error, Selected, select_error, ready,
  Pass, Session, send_reply, take_in, send_status_update, publish_status, after_read,
  websocket_pass, leave, websocket_loop, plc_websocket_server, connected,
}

-- The last of the times, or the start.
abbrev pub latest : ℕ → List ℕ → ℕ
latest start [] = start
latest start (t ∷ ts) = t

-- Times, newest first, each at least a second behind the one before it, and behind the start.
abbrev pub AreSpaced : ℕ → List ℕ → Type 0
AreSpaced start [] = Unit {0}
AreSpaced start (t ∷ ts) = (latest start ts + 1000 ≤ t) × AreSpaced start ts

-- The frame is one of text: FIN is set and the opcode is that of a text.
abbrev pub is_text : Bytes → Bool
is_text [] = false
is_text (b ∷ bs) = b == 129

-- When text frames were sent, newest first.
abbrev pub text_times : List (ℕ × Bytes) → List ℕ
text_times [] = []
text_times ((now, frame) ∷ sent) =
    let times = text_times sent in if is_text frame then now ∷ times else times

abbrev IsTimed : ℕ → Session → Type 0
IsTimed start s =
    (latest start (text_times s.sent) ≤ s.last_send_time) × AreSpaced start (text_times s.sent)

-- The text of a status update is sent as a text frame.
pub send_websocket_message-text : (json : Bytes) → is_text (send_websocket_message json) ≡ true
unfolding send_websocket_message frame_header
send_websocket_message-text json = ground arith

module _ (start : ℕ) where
  reply-IsTimed :
      (now : ℕ) (r : Reply) (s : Session) → IsTimed start s → IsTimed start (send_reply now r s)
  unfolding send_reply
  reply-IsTimed now no_reply s h = h
  reply-IsTimed now close_frame s h = h
  reply-IsTimed now pong_frame s h = h

  take_in-IsTimed :
      (now : ℕ) (r : Received) (s : Session) → IsTimed start s → IsTimed start (take_in now r s).0
  unfolding take_in
  take_in-IsTimed now (bytes b) s h = reply-IsTimed now _ s h
  take_in-IsTimed now ended s h = h
  take_in-IsTimed now would_block s h = h
  take_in-IsTimed now recv_error s h = h

  -- A frame that is sent a second or more behind the last one.
  sent-IsTimed :
      (now : ℕ) (times : List ℕ) (text : Bool)
      → latest start times + 1000 ≤ now
      → AreSpaced start times
      → (latest start (if text then now ∷ times else times) ≤ now)
        × AreSpaced start (if text then now ∷ times else times)
  sent-IsTimed now times true due h = (omega arith, (due, h))
  sent-IsTimed now times false due h = (omega (arith, due), h)

  update-IsTimed :
      (now : ℕ) (json : Option Bytes) (s : Session)
      → s.last_send_time + 1000 ≤ now
      → IsTimed start s
      → IsTimed start (record (send_status_update now json s) { last_send_time = now })
  unfolding send_status_update
  update-IsTimed now none s due h = (omega (arith, h.0, due), h.1)
  update-IsTimed now (some json) s due h =
      sent_or_not (s.websocket_connected && has_client s.websocket_client_fd)
    where
      sent_or_not :
          (there : Bool)
          → IsTimed start (record (if there then send now (send_websocket_message json) s else s) {
            last_send_time = now;
          })
      sent_or_not true =
          sent-IsTimed now (text_times s.sent) (is_text (send_websocket_message json))
            (omega (arith, h.0, due)) h.1
      sent_or_not false = (omega (arith, h.0, due), h.1)

  due_or_not :
      (due : Bool) (now : ℕ) (json : Option Bytes) (s : Session)
      → (due ≡ true → s.last_send_time + 1000 ≤ now)
      → IsTimed start s
      → IsTimed start
          (if due then record (send_status_update now json s) { last_send_time = now } else s)
  due_or_not true now json s due h = update-IsTimed now json s (due refl) h
  due_or_not false now json s due h = h

  publish_status-IsTimed :
      (writable : Bool) (p : Pass) (s : Session)
      → IsTimed start s
      → IsTimed start (publish_status writable p s)
  unfolding publish_status
  publish_status-IsTimed writable p s h =
      due_or_not _ p.now p.status_json s (λ e. ground (arith, e)) h

  after_read-IsTimed :
      (writable : Bool) (p : Pass) (r : Session × Bool)
      → IsTimed start r.0
      → IsTimed start (after_read writable p r).0
  unfolding after_read
  after_read-IsTimed writable p (s, false) h = h
  after_read-IsTimed writable p (s, true) h = publish_status-IsTimed writable p s h

  websocket_pass-IsTimed :
      (p : Pass) (sel : Selected) (s : Session)
      → IsTimed start s
      → IsTimed start (websocket_pass p sel s).0
  unfolding websocket_pass
  websocket_pass-IsTimed p select_error s h = h
  websocket_pass-IsTimed p (ready true writable) s h =
      after_read-IsTimed writable p (take_in p.now p.received s)
        (take_in-IsTimed p.now p.received s h)
  websocket_pass-IsTimed p (ready false writable) s h = after_read-IsTimed writable p (s, true) h

  -- What is shown of the loop.
  abbrev IsKept : Session × Bool → Type 0
  IsKept (s, on) =
      IsTimed start s
      × (on ≡ true → (s.websocket_connected ≡ false) × (s.websocket_client_fd ≡ none))

  next-IsKept :
      (connected on : Bool) (s t : Session) (further : Session × Bool)
      → IsTimed start s
      → IsTimed start t
      → IsKept further
      → IsKept (if connected then (if on then further else (leave t, true)) else (leave s, true))
  unfolding leave
  next-IsKept false on s t further h k rest = (h, λ e. (refl, refl))
  next-IsKept true false s t further h k rest = (k, λ e. (refl, refl))
  next-IsKept true true s t further h k rest = rest

  websocket_loop-IsKept :
      (ps : List Pass) (s : Session) → IsTimed start s → IsKept (websocket_loop ps s)
  unfolding websocket_loop leave
  websocket_loop-IsKept [] s h = (h, λ e. absurd (ground (arith, e)))
  websocket_loop-IsKept (p ∷ ps) s h =
      let r = websocket_pass p p.selected s in
      let kept = websocket_pass-IsTimed p p.selected s h in
      next-IsKept s.websocket_connected r.1 s r.0 (websocket_loop ps r.0) h kept
        (websocket_loop-IsKept ps r.0 kept)

  -- Whatever the passes of a WebSocket meet: the text frames that it sends, which are its status
  -- updates, are at least a second apart, the first one a second behind the start; and when the loop
  -- has ended, the globals tell that no client is there.
  pub plc_websocket_server-AreSpaced :
      (fd : ℕ) (passes : List Pass)
      → AreSpaced start (text_times (plc_websocket_server fd start passes).0.sent)
        × ((plc_websocket_server fd start passes).1 ≡ true
            → ((plc_websocket_server fd start passes).0.websocket_connected ≡ false)
              × ((plc_websocket_server fd start passes).0.websocket_client_fd ≡ none))
  unfolding plc_websocket_server
  plc_websocket_server-AreSpaced fd passes =
      let kept = websocket_loop-IsKept passes (connected fd start) (omega arith, tt {0}) in
      (kept.0.1, kept.1)
