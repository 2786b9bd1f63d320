-- ===== src/Http/Routing.antt =====
-- app/src/plc_http.c, `process_request`: which answer a request gets.
-- The buffer of the server is not cleared between requests: a request is the text in it, up to its
-- first zero. A path that does not fit into the 32 bytes of `file_path` is written over what lies
-- behind them, and what follows is not known.
use beremiz4u_c.Common.{
  ℕ, ◌+◌, ◌≡◌, ◌⊎◌, inl, inr, refl, sym, subst, true, Bool-cases, Option-cases, List, [], ◌∷◌, ◌++◌,
  ltb, ◌≤◌, Option, none, some, ◌==◌, if◌then◌else◌, arith, length, take, drop, codes,
}
use beremiz4u_c.Settings.{overlay, c_string}
use beremiz4u_c.Uploads.{same_bytes}
use beremiz4u_c.Http.Requests.{strstr, is_websocket_upgrade_request, extract_websocket_key}
use beremiz4u_c.Http.Keys.{strstr_sound, strstr_complete}

pub data Outcome : Type 0 where
  websocket : List ℕ → Outcome
  refused status : Outcome
  file : List ℕ → Outcome
  bad_request : Outcome
  overrun : List ℕ → Outcome

abbrev pub skip_spaces : List ℕ → List ℕ
skip_spaces [] = []
skip_spaces (c ∷ cs) = let rest = skip_spaces cs in if c == 32 then rest else c ∷ cs

abbrev pub token : List ℕ → List ℕ
token [] = []
token (c ∷ cs) = let rest = token cs in if c == 32 then [] else c ∷ rest

-- strtok(text, " "): the token, and the text that the next call starts from.
unfoldable pub strtok : List ℕ → Option (List ℕ × List ℕ)
strtok text =
    let rest = skip_spaces text in
    elim rest [
      | [] ↦ none
      | c ∷ cs ↦ some (token (c ∷ cs), drop (length (token (c ∷ cs)) + 1) (c ∷ cs))
    ]

unfoldable pub upgrade : List ℕ → Outcome
upgrade request =
    if is_websocket_upgrade_request request
    then elim (extract_websocket_key request) [ none ↦ bad_request | some key ↦ websocket key ]
    else bad_request

abbrev pub dots : List ℕ
dots = 46 ∷ 46 ∷ []

-- A path with its final zero, in `file_path`.
abbrev pub placed : List ℕ → Outcome
placed path = if ltb (length path) 32 then file path else overrun path

unfoldable pub get_path : List ℕ → List ℕ → Outcome
get_path http_root uri = elim (strstr dots uri) [
  | some found ↦ refused
  | none ↦
      if same_bytes uri (codes "/")
      then placed (http_root ++ codes "index.html")
      else if same_bytes uri (codes "status")
      then status
      else placed (http_root ++ uri)
]

unfoldable pub answer_get : List ℕ → List ℕ → List ℕ → List ℕ → Outcome
unfolding upgrade get_path
answer_get http_root request method uri =
    if same_bytes method (codes "GET")
    then (if same_bytes uri (codes "/ws") then upgrade request else get_path http_root uri)
    else bad_request

unfoldable pub answer : List ℕ → List ℕ → Outcome
unfolding answer_get strtok
answer http_root request = elim (strtok (take 1023 request)) [
  | none ↦ bad_request
  | some method ↦ elim (strtok method.1) [
    | none ↦ bad_request
    | some uri ↦ answer_get http_root request method.0 uri.0
  ]
]

-- `process_request`: the buffer and the outcome. `none`: `recv` gave nothing.
unfoldable pub process_request : List ℕ → List ℕ → Option (List ℕ) → List ℕ × Outcome
unfolding answer
process_request http_root receive_buffer none = (receive_buffer, bad_request)
process_request http_root receive_buffer (some received) =
    let buffer = overlay received receive_buffer in (buffer, answer http_root (c_string buffer))

-- What an outcome says of the request.
abbrev pub Allowed : List ℕ → List ℕ → Outcome → Type 0
Allowed http_root request (websocket key) =
    (is_websocket_upgrade_request request ≡ true) × (extract_websocket_key request ≡ some key)
Allowed http_root request refused = (uri a b : List ℕ) × (uri ≡ a ++ (dots ++ b))
Allowed http_root request status = Unit {0}
Allowed http_root request (file path) =
    (path ≡ http_root ++ codes "index.html")
    ⊎ ((uri : List ℕ) × (path ≡ http_root ++ uri) × ((a b : List ℕ) → uri ≡ a ++ (dots ++ b) → ⊥))
Allowed http_root request bad_request = Unit {0}
Allowed http_root request (overrun path) = 32 ≤ length path

module _ (http_root request : List ℕ) where
  becomes : {o p : Outcome} → o ≡ p → Allowed http_root request p → Allowed http_root request o
  becomes e h = subst (Allowed http_root request) (sym e) h

  upgrade-Allowed : Allowed http_root request (upgrade request)
  unfolding upgrade
  upgrade-Allowed = elim (Bool-cases (is_websocket_upgrade_request request)) [
    | inr no_upgrade ↦ becomes {p = bad_request} (ground (arith, no_upgrade)) tt
    | inl asked ↦ elim (Option-cases (extract_websocket_key request)) [
      | inl no_key ↦ becomes {p = bad_request} (ground (arith, asked, no_key)) tt
      | inr (key, at) ↦ becomes {p = websocket key} (ground (arith, asked, at)) (asked, at)
    ]
  ]

  placed-Allowed :
      (path : List ℕ)
      → Allowed http_root request (file path)
      → Allowed http_root request (placed path)
  placed-Allowed path h = elim (Bool-cases (ltb (length path) 32)) [
    | inl fits ↦ becomes {p = file path} (ground (arith, fits)) h
    | inr long ↦ becomes {p = overrun path} (ground (arith, long)) (ground (arith, long))
  ]

  get_path-Allowed : (uri : List ℕ) → Allowed http_root request (get_path http_root uri)
  unfolding get_path
  get_path-Allowed uri = elim (Option-cases (strstr dots uri)) [
    | inr (found, at) ↦
        becomes {p = refused} (ground (arith, at))
          (uri, found.0, found.1, strstr_sound dots uri found.0 found.1 at)
    | inl no_dots ↦ elim (Bool-cases (same_bytes uri (codes "/"))) [
      | inl root ↦
          becomes {p = placed (http_root ++ codes "index.html")} (ground (arith, no_dots, root))
            (placed-Allowed (http_root ++ codes "index.html") (inl refl))
      | inr other ↦ elim (Bool-cases (same_bytes uri (codes "status"))) [
        | inl asked ↦ becomes {p = status} (ground (arith, no_dots, other, asked)) tt
        | inr named ↦
            becomes {p = placed (http_root ++ uri)} (ground (arith, no_dots, other, named)) (
              placed-Allowed (http_root ++ uri)
                (inr (uri, refl, λ a b e. strstr_complete dots uri a b no_dots e)))
      ]
    ]
  ]

  answer_get-Allowed :
      (method uri : List ℕ) → Allowed http_root request (answer_get http_root request method uri)
  unfolding answer_get
  answer_get-Allowed method uri = elim (Bool-cases (same_bytes method (codes "GET"))) [
    | inr other ↦ becomes {p = bad_request} (ground (arith, other)) tt
    | inl get ↦ elim (Bool-cases (same_bytes uri (codes "/ws"))) [
      | inl ws ↦ becomes {p = upgrade request} (ground (arith, get, ws)) upgrade-Allowed
      | inr path ↦
          becomes {p = get_path http_root uri} (ground (arith, get, path)) (get_path-Allowed uri)
    ]
  ]

  answer-Allowed : Allowed http_root request (answer http_root request)
  unfolding answer
  answer-Allowed = elim (Option-cases (strtok (take 1023 request))) [
    | inl no_method ↦ becomes {p = bad_request} (ground (arith, no_method)) tt
    | inr (method, at) ↦ elim (Option-cases (strtok method.1)) [
      | inl no_uri ↦ becomes {p = bad_request} (ground (arith, at, no_uri)) tt
      | inr (uri, behind) ↦
          becomes {p = answer_get http_root request method.0 uri.0} (ground (arith, at, behind))
            (answer_get-Allowed method.0 uri.0)
    ]
  ]

-- Whatever is received, a file that is sent lies below the root of the server: its path is the one of
-- the index, or the root followed by a text without two dots in a row. A refusal is for such dots. A
-- connection becomes a WebSocket only for a request that asks for it and has a key that fits, and
-- with this key.
pub process_request-Allowed :
    (http_root receive_buffer received : List ℕ)
    → Allowed http_root
        (c_string (overlay received receive_buffer))
        (process_request http_root receive_buffer (some received)).1
unfolding process_request
process_request-Allowed http_root receive_buffer received =
    answer-Allowed http_root (c_string (overlay received receive_buffer))
