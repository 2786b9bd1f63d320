-- ===== src/Http/Paths.antt =====
-- app/src/plc_http.c, `process_request`: the outcome for the path of a request.
use beremiz4u_c.Common.{
  ℕ, ◌+◌, ◌≤◌, ◌<◌, ◌≡◌, ◌≢◌, refl, sym, subst, ap, ◌∙◌, false, Bool-cases, Option-cases, inl, inr,
  List, [], ◌∷◌, ◌++◌, some, ltb, ◌==◌, if◌then◌else◌, arith, length, take, drop, codes,
}
use beremiz4u_c.Uploads.{same_bytes}
use beremiz4u_c.Uploads.Bytes.{same_bytes_sound}
use beremiz4u_c.Http.Requests.{strstr}
use beremiz4u_c.Http.Keys.{strstr_sound}
use beremiz4u_c.Http.Routing.{
  Outcome, websocket, refused, status, file, bad_request, overrun, token, strtok, dots, placed,
  get_path, answer_get, answer,
}

abbrev pub NoSpace : List ℕ → Type 0
NoSpace [] = Unit {0}
NoSpace (c ∷ s) = ((c == 32) ≡ false) × NoSpace s

token-NoSpace : (s rest : List ℕ) → NoSpace s → token (s ++ 32 ∷ rest) ≡ s
token-NoSpace [] rest h = refl
token-NoSpace (c ∷ s) rest h = ground (arith, h.0, token-NoSpace s rest h.1)

drop_word : (s rest : List ℕ) → drop (length s + 1) (s ++ 32 ∷ rest) ≡ rest
drop_word [] rest = refl
drop_word (c ∷ s) rest = ground (arith, drop_word s rest)

strtok_word :
    (c : ℕ) (s rest : List ℕ) → NoSpace (c ∷ s) → strtok ((c ∷ s) ++ 32 ∷ rest) ≡ some (c ∷ s, rest)
unfolding strtok
strtok_word c s rest h = ground (arith, h.0, token-NoSpace (c ∷ s) rest h, drop_word (c ∷ s) rest)

-- The text starts with GET and a path of its own, which is not empty.
abbrev pub Asks : List ℕ → List ℕ → List ℕ → Type 0
Asks request [] rest = ⊥
Asks request (c ∷ uri) rest =
    (take 1023 request ≡ codes "GET" ++ 32 ∷ ((c ∷ uri) ++ 32 ∷ rest)) × NoSpace (c ∷ uri)

answer_tokens :
    (http_root request method behind uri rest : List ℕ)
    → strtok (take 1023 request) ≡ some (method, behind)
    → strtok behind ≡ some (uri, rest)
    → answer http_root request ≡ answer_get http_root request method uri
unfolding answer
answer_tokens http_root request method behind uri rest first second = ground (arith, first, second)

answer-Asks :
    (http_root request uri rest : List ℕ)
    → Asks request uri rest
    → answer http_root request ≡ answer_get http_root request (codes "GET") uri
answer-Asks http_root request [] rest h = absurd h
answer-Asks http_root request (c ∷ uri) rest h =
    answer_tokens http_root request (codes "GET") ((c ∷ uri) ++ 32 ∷ rest) (c ∷ uri) rest
      (ap strtok h.0
        ∙ strtok_word 71 (69 ∷ 84 ∷ []) ((c ∷ uri) ++ 32 ∷ rest) (refl, (refl, (refl, tt {0}))))
      (strtok_word c uri rest h.1)

-- The path in the file system, and the outcome for a path of a request.
abbrev pub path_of : List ℕ → List ℕ → List ℕ
path_of http_root uri =
    http_root ++ (if same_bytes uri (codes "/") then codes "index.html" else uri)

abbrev pub IsFor : List ℕ → List ℕ → Outcome → Type 0
IsFor http_root uri (websocket key) = ⊥
IsFor http_root uri refused = (a b : List ℕ) × (uri ≡ a ++ (dots ++ b))
IsFor http_root uri status = uri ≡ codes "status"
IsFor http_root uri (file path) = (path ≡ path_of http_root uri) × (length path < 32)
IsFor http_root uri bad_request = ⊥
IsFor http_root uri (overrun path) = (path ≡ path_of http_root uri) × (32 ≤ length path)

module _ (http_root uri : List ℕ) where
  becomes : {o p : Outcome} → o ≡ p → IsFor http_root uri p → IsFor http_root uri o
  becomes e h = subst (IsFor http_root uri) (sym e) h

  placed-IsFor : (path : List ℕ) → path ≡ path_of http_root uri → IsFor http_root uri (placed path)
  placed-IsFor path e = elim (Bool-cases (ltb (length path) 32)) [
    | inl fits ↦ becomes {p = file path} (ground (arith, fits)) (e, ground (arith, fits))
    | inr long ↦ becomes {p = overrun path} (ground (arith, long)) (e, ground (arith, long))
  ]

  get_path-IsFor : IsFor http_root uri (get_path http_root uri)
  unfolding get_path
  get_path-IsFor = elim (Option-cases (strstr dots uri)) [
    | inr (found, at) ↦
        becomes {p = refused} (ground (arith, at))
          (found.0, found.1, strstr_sound dots uri found.0 found.1 at)
    | inl no_dots ↦ elim (Bool-cases (same_bytes uri (codes "/"))) [
      | inl root ↦
          becomes {p = placed (http_root ++ codes "index.html")} (ground (arith, no_dots, root))
            (placed-IsFor (http_root ++ codes "index.html") (rw (root)))
      | inr other ↦ elim (Bool-cases (same_bytes uri (codes "status"))) [
        | inl asked ↦
            becomes {p = status} (ground (arith, no_dots, other, asked))
              (same_bytes_sound uri (codes "status") asked)
        | inr named ↦
            becomes {p = placed (http_root ++ uri)} (ground (arith, no_dots, other, named))
              (placed-IsFor (http_root ++ uri) (rw (other)))
      ]
    ]
  ]

  -- A request for a path other than that of the WebSocket has the outcome for this path.
  pub answer-IsFor :
      (request rest : List ℕ)
      → Asks request uri rest
      → uri ≢ codes "/ws"
      → IsFor http_root uri (answer http_root request)
  unfolding answer_get
  answer-IsFor request rest asks other = elim (Bool-cases (same_bytes uri (codes "/ws"))) [
    | inl ws ↦ absurd (other (same_bytes_sound uri (codes "/ws") ws))
    | inr plain ↦
        becomes {p = get_path http_root uri}
          (answer-Asks http_root request uri rest asks ∙ rw (plain, answer_get)) get_path-IsFor
  ]
