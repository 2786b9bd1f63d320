-- ===== src/Http/Lengths.antt =====
-- app/src/plc_http.c: what the parser of WebSocket frames makes of the frames that the server sends.
use beremiz4u_c.Common.{
  ℕ, ◌+◌, ◌*◌, ◌/◌, ◌%◌, ◌^◌, ◌≤◌, ◌<◌, ◌≡◌, ◌≢◌, refl, ap, ◌∙◌, Bool-cases, inl, inr, List, [],
  ◌∷◌, some, leb, arith, length, drop, int_value,
}
use beremiz4u_c.Http.Frames.{
  frame_header, send_websocket_message, Parsed, no_reply, parsed, parse_payload, payload_length_at,
  parse_websocket_frame,
}

short_frame :
    (message : List ℕ)
    → length message ≤ 125
    → send_websocket_message message ≡ 0x81 ∷ length message ∷ message
unfolding send_websocket_message frame_header
short_frame message small = ground arith

middle_frame :
    (message : List ℕ)
    → 125 < length message
    → length message ≤ 65535
    → send_websocket_message message
      ≡ 0x81 ∷ 126 ∷ (length message / 256 % 256) ∷ (length message % 256) ∷ message
unfolding send_websocket_message frame_header
middle_frame message least small = ground arith

long_frame :
    (message : List ℕ)
    → 65535 < length message
    → send_websocket_message message
      ≡ 0x81
        ∷ 127
        ∷ 0
        ∷ 0
        ∷ 0
        ∷ 0
        ∷ (length message / 16777216 % 256)
        ∷ (length message / 65536 % 256)
        ∷ (length message / 256 % 256)
        ∷ (length message % 256)
        ∷ message
unfolding send_websocket_message frame_header
long_frame message least = ground arith

parse_short :
    (n : ℕ) (rest : List ℕ)
    → n ≤ 125
    → parse_websocket_frame (0x81 ∷ n ∷ rest)
      ≡ some (parsed (0x81 ∷ n ∷ rest) 0 n 2 (0x81 ∷ n ∷ rest))
unfolding parse_websocket_frame parse_payload payload_length_at
parse_short n rest small = ground arith

parse_middle :
    (a b : ℕ) (rest : List ℕ)
    → (let frame = 0x81 ∷ 126 ∷ a ∷ b ∷ rest in
        parse_websocket_frame frame ≡ some (parsed frame 0 (a * 256 + b) 4 frame))
unfolding parse_websocket_frame parse_payload payload_length_at
parse_middle a b rest = ground arith

parse_long :
    (a b c d : ℕ) (rest : List ℕ)
    → (let frame = 0x81 ∷ 127 ∷ 0 ∷ 0 ∷ 0 ∷ 0 ∷ a ∷ b ∷ c ∷ d ∷ rest in
        parse_websocket_frame frame
        ≡ some (parsed frame 0 (int_value (0 ∷ 0 ∷ 0 ∷ 0 ∷ a ∷ b ∷ c ∷ d ∷ [])) 10 frame))
unfolding parse_websocket_frame parse_payload payload_length_at
parse_long a b c d rest = ground arith

-- A message of at most 65535 bytes is parsed as an unmasked text frame of one piece whose payload,
-- behind the header, is the message.
pub parse-send_websocket_message :
    (message : List ℕ)
    → length message ≤ 65535
    → (p : Parsed) × (parse_websocket_frame (send_websocket_message message) ≡ some p)
      × (p.fin ≡ 1)
      × (p.opcode ≡ 1)
      × (p.masked ≡ 0)
      × (p.reply ≡ no_reply)
      × (p.payload_length ≡ length message)
      × (drop p.pos p.frame ≡ message)
parse-send_websocket_message message small = elim (Bool-cases (leb (length message) 125)) [
  | inl short ↦
      let least : length message ≤ 125 = ground (arith, short) in
      (
        parsed (0x81 ∷ length message ∷ message) 0 (length message) 2
            (0x81 ∷ length message ∷ message),
        ap parse_websocket_frame (short_frame message least)
            ∙ parse_short (length message) message least,
        refl,
        refl,
        refl,
        refl,
        refl,
        refl,
      )
  | inr long ↦
      let least : 125 < length message = ground (arith, long) in
      let high = length message / 256 % 256 in
      let low = length message % 256 in
      let frame = 0x81 ∷ 126 ∷ high ∷ low ∷ message in
      (
        parsed frame 0 (high * 256 + low) 4 frame,
        ap parse_websocket_frame (middle_frame message least small) ∙ parse_middle high low message,
        refl,
        refl,
        refl,
        refl,
        omega arith,
        refl,
      )
]

-- A longer message is not: the server writes its length with the most significant byte first, and
-- the parser reads it with the least significant byte first, so that it finds another length.
pub parse-send_websocket_message_long :
    (message : List ℕ)
    → 65535 < length message
    → length message < 2 ^ 32
    → (p : Parsed) × (parse_websocket_frame (send_websocket_message message) ≡ some p)
      × (p.payload_length ≢ length message)
parse-send_websocket_message_long message least most =
    let a = length message / 16777216 % 256 in
    let b = length message / 65536 % 256 in
    let c = length message / 256 % 256 in
    let d = length message % 256 in
    let frame = 0x81 ∷ 127 ∷ 0 ∷ 0 ∷ 0 ∷ 0 ∷ a ∷ b ∷ c ∷ d ∷ message in
    (
      parsed frame 0 (int_value (0 ∷ 0 ∷ 0 ∷ 0 ∷ a ∷ b ∷ c ∷ d ∷ [])) 10 frame,
      ap parse_websocket_frame (long_frame message least) ∙ parse_long a b c d message,
      λ e. omega (arith, e),
    )
