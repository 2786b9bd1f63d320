-- ===== src/Http/Frames.antt =====
-- app/src/plc_http.c, `send_websocket_message` and `parse_websocket_frame`: WebSocket frames.
-- Shifts and masks of bytes are written as divisions and remainders.
use beremiz4u_c.Common.{
  ℕ, zero, suc, ◌+◌, ◌*◌, ◌/◌, ◌%◌, List, [], ◌∷◌, ◌++◌, Option, none, some, ltb, leb, ◌==◌,
  if◌then◌else◌, length, take, drop, get_or, set, int_value,
}
use Prim.Native.Nat.{bit_xor}

-- The bytes in front of a message. The length is a 32-bit `size_t`.
unfoldable pub frame_header : ℕ → List ℕ
frame_header message_length =
    if leb message_length 125
    then 0x81 ∷ message_length ∷ []
    else if leb message_length 65535
    then 0x81 ∷ 126 ∷ (message_length / 256 % 256) ∷ (message_length % 256) ∷ []
    else 0x81
      ∷ 127
      ∷ 0
      ∷ 0
      ∷ 0
      ∷ 0
      ∷ (message_length / 16777216 % 256)
      ∷ (message_length / 65536 % 256)
      ∷ (message_length / 256 % 256)
      ∷ (message_length % 256)
      ∷ []

-- What is handed to `send`, where `k_malloc` gives the memory.
unfoldable pub send_websocket_message : List ℕ → List ℕ
unfolding frame_header
send_websocket_message message = frame_header (length message) ++ message

-- What the parser does behind the log: nothing, a close frame, or a pong frame.
pub data Reply : Type 0 where
  no_reply close_frame pong_frame : Reply

pub record Parsed : Type 0 where
  pub fin : ℕ
  pub opcode : ℕ
  pub masked : ℕ
  pub payload_length : ℕ
  pub pos : ℕ
  pub frame : List ℕ
  pub reply : Reply

abbrev pub reply_to : ℕ → Reply
reply_to opcode = if opcode == 8 then close_frame else if opcode == 9 then pong_frame else no_reply

-- The loop over the payload. A byte behind the end of the frame is written to other memory.
unfoldable pub unmask : List ℕ → ℕ → ℕ → ℕ → List ℕ → List ℕ
unmask mask pos i zero frame = frame
unmask mask pos i (suc rest) frame =
    unmask mask pos (i + 1) rest
      (set frame (pos + i) (bit_xor (get_or frame (pos + i) 0) (get_or mask (i % 4) 0)))

-- The length and the position behind it. `none`: the frame is too short.
unfoldable pub payload_length_at : List ℕ → Option (ℕ × ℕ)
payload_length_at frame =
    let short = get_or frame 1 0 % 128 in
    if short == 126
    then (if ltb (length frame) 4
        then none
        else some (get_or frame 2 0 * 256 + get_or frame 3 0, 4))
    else if short == 127
    then (if ltb (length frame) 10 then none else some (int_value (take 8 (drop 2 frame)), 10))
    else some (short, 2)

abbrev pub parsed : List ℕ → ℕ → ℕ → ℕ → List ℕ → Parsed
parsed frame masked payload_length pos after = record {
  fin = get_or frame 0 0 / 128 % 2;
  opcode = get_or frame 0 0 % 16;
  masked = masked;
  payload_length = payload_length;
  pos = pos;
  frame = after;
  reply = reply_to (get_or frame 0 0 % 16);
}

unfoldable pub parse_payload : List ℕ → Option (ℕ × ℕ) → Option Parsed
unfolding unmask
parse_payload frame none = none
parse_payload frame (some (payload_length, pos)) =
    let masked = get_or frame 1 0 / 128 % 2 in
    if masked == 0
    then some (parsed frame masked payload_length pos frame)
    else if ltb (length frame) (pos + 4)
    then none
    else some (
        parsed frame masked payload_length (pos + 4)
          (unmask (take 4 (drop pos frame)) (pos + 4) 0 payload_length frame))

-- `parse_websocket_frame`. `none`: it returns without a look at the opcode.
unfoldable pub parse_websocket_frame : List ℕ → Option Parsed
unfolding parse_payload payload_length_at
parse_websocket_frame frame =
    if ltb (length frame) 2 then none else parse_payload frame (payload_length_at frame)
