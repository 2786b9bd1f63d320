-- ===== src/Http/Files.antt =====
-- app/src/plc_http.c: the content types, the sending of files, and what is sent for each outcome of a
-- request.
use beremiz4u_c.Common.{
  Bool, chunks, List, [], ◌∷◌, ◌++◌, Option, none, some, ◌==◌, if◌then◌else◌, length, take, codes,
}
use beremiz4u_c.Uploads.{Bytes, same_bytes}
use beremiz4u_c.Uploads.Install.{file_extension}
use beremiz4u_c.Http.Routing.{
  Outcome, websocket, refused, status, file, bad_request, overrun, process_request,
}

-- The table of extensions, with the dot.
unfoldable pub mime_types : List (Bytes × Bytes)
mime_types =
    (codes ".html", codes "text/html")
    ∷ (codes ".htm", codes "text/html")
    ∷ (codes ".css", codes "text/css")
    ∷ (codes ".js", codes "application/javascript")
    ∷ (codes ".json", codes "application/json")
    ∷ (codes ".txt", codes "text/plain")
    ∷ (codes ".jpg", codes "image/jpeg")
    ∷ (codes ".jpeg", codes "image/jpeg")
    ∷ (codes ".png", codes "image/png")
    ∷ (codes ".gif", codes "image/gif")
    ∷ (codes ".pgs", codes "text/html")
    ∷ []

abbrev pub octet_stream : Bytes
octet_stream = codes "application/octet-stream"

-- The loop over the table.
unfoldable pub look_up : Bytes → List (Bytes × Bytes) → Bytes
look_up dot [] = octet_stream
look_up dot ((extension, mime_type) ∷ rest) =
    let further = look_up dot rest in if same_bytes dot extension then mime_type else further

unfoldable pub get_content_type : Bytes → Bytes
unfolding look_up mime_types
get_content_type file_path = elim (file_extension file_path) [
  | none ↦ octet_stream
  | some dot ↦ if length dot == length file_path then octet_stream else look_up dot mime_types
]

abbrev pub crlf : Bytes
crlf = 13 ∷ 10 ∷ []

-- The status lines, with the head that they share and the empty line.
unfoldable pub response_head : Bytes → Bytes → Bytes
response_head code_text content_type =
    codes "HTTP/1.1 " ++ code_text ++ crlf ++ codes "Content-Type: " ++ content_type ++ crlf ++ crlf

abbrev pub not_found : Bytes
not_found =
    response_head (codes "404 Not Found") (codes "text/html") ++ codes "<h1>404 Not Found</h1>"

abbrev pub internal_error : Bytes
internal_error =
    response_head (codes "500 Internal Server Error") (codes "text/html")
    ++ codes "<h1>500 Internal Server Error</h1>"

abbrev pub bad_request_text : Bytes
bad_request_text =
    response_head (codes "400 Bad Request") (codes "text/html") ++ codes "<h1>Bad Request</h1>"

-- What the reads of 1024 bytes give.
abbrev pub blocks_of : Bytes → List Bytes
blocks_of bytes = chunks 1024 (length bytes) bytes

-- What the server asks of the file system: whether `stat` finds a regular file, and the bytes that
-- `fopen` gives.
pub record Store : Type 0 where
  pub is_regular : Bytes → Bool
  pub fopen : Bytes → Option Bytes

-- What is handed to `send`, in order. The head is cut where it does not fit into its 512 bytes.
unfoldable pub send_file : Store → Bytes → List Bytes
unfolding get_content_type response_head
send_file store file_path =
    if store.is_regular file_path
    then elim (store.fopen file_path) [
      | none ↦ internal_error ∷ []
      | some bytes ↦
          take 511 (response_head (codes "200 OK") (get_content_type file_path)) ∷ blocks_of bytes
    ]
    else not_found ∷ []

-- A digest and an encoding of mbedtls and the kernel.
pub record Encoders : Type 0 where
  pub sha1 : Bytes → Bytes
  pub base64 : Bytes → Bytes

-- `process_websocket_handshake`: the response.
unfoldable pub process_websocket_handshake : Encoders → Bytes → Bytes
process_websocket_handshake e client_key =
    let concatenated = take 99 (client_key ++ codes "258EAFA5-E914-47DA-95CA-C5AB0DC85B11") in
    take 255 (
      codes "HTTP/1.1 101 Switching Protocols"
      ++ crlf
      ++ codes "Upgrade: websocket"
      ++ crlf
      ++ codes "Connection: Upgrade"
      ++ crlf
      ++ codes "Sec-WebSocket-Accept: "
      ++ take 31 (e.base64 (e.sha1 concatenated))
      ++ crlf
      ++ crlf)

-- What happens to the socket of the client.
pub data Socket : Type 0 where
  closed left_open given_to_websocket not_known : Socket

-- What `process_request` does for an outcome: the sends, and the socket. `status_json` is the answer
-- of `handle_status_request`.
unfoldable pub respond : Store → Encoders → List Bytes → Outcome → List Bytes × Socket
respond store e status_json (websocket key) =
    (process_websocket_handshake e key ∷ [], given_to_websocket)
respond store e status_json refused = (bad_request_text ∷ [], closed)
respond store e status_json status = (status_json, closed)
respond store e status_json (file path) = (send_file store path, closed)
respond store e status_json bad_request = (bad_request_text ∷ [], left_open)
respond store e status_json (overrun path) = ([], not_known)

-- A request as a whole.
unfoldable pub serve_request :
    Store → Encoders → List Bytes → Bytes → Bytes → Option Bytes → Bytes × (List Bytes × Socket)
unfolding respond
serve_request store e status_json http_root receive_buffer received =
    let (buffer, outcome) = process_request http_root receive_buffer received in
    (buffer, respond store e status_json outcome)
