-- ===== src/Http/Requests.antt =====
-- app/src/plc_http.c: what the server reads in the header of a request.
use beremiz4u_c.Common.{
  ℕ, ◌+◌, Bool, true, false, ◌&&◌, ◌||◌, List, [], ◌∷◌, Option, none, some, ltb, leb, ◌==◌,
  if◌then◌else◌, length, drop, codes,
}

unfoldable pub tolower : ℕ → ℕ
tolower c = if leb 65 c && leb c 90 then c + 32 else c

unfoldable pub isspace : ℕ → Bool
isspace c = c == 32 || (leb 9 c && leb c 13)

-- The inner loop of `strcasestr`: whether it reaches the end of the needle.
unfoldable pub matches_here : List ℕ → List ℕ → Bool
unfolding tolower
matches_here h [] = true
matches_here [] (n ∷ ns) = false
matches_here (h ∷ hs) (n ∷ ns) =
    let rest = matches_here hs ns in if tolower h == tolower n then rest else false

-- Its outer loop.
unfoldable pub search_case : List ℕ → ℕ → List ℕ → Option (List ℕ)
unfolding tolower matches_here
search_case [] n ns = none
search_case (h ∷ hs) n ns =
    let rest = search_case hs n ns in
    if tolower h == tolower n
    then (if matches_here (h ∷ hs) (n ∷ ns) then some (h ∷ hs) else rest)
    else rest

-- `strcasestr`: the rest of the haystack from the match on.
unfoldable pub strcasestr : List ℕ → List ℕ → Option (List ℕ)
unfolding search_case
strcasestr haystack [] = some haystack
strcasestr haystack (n ∷ ns) = search_case haystack n ns

abbrev is_found : Option (List ℕ) → Bool
is_found none = false
is_found (some s) = true

unfoldable pub is_websocket_upgrade_request : List ℕ → Bool
unfolding strcasestr
is_websocket_upgrade_request request =
    is_found (strcasestr request (codes "upgrade: websocket"))
    && is_found (strcasestr request (codes "connection: upgrade"))

abbrev pub starts : List ℕ → List ℕ → Bool
starts [] ys = true
starts (x ∷ xs) [] = false
starts (x ∷ xs) (y ∷ ys) = let rest = starts xs ys in if x == y then rest else false

abbrev pub in_front : ℕ → Option (List ℕ × List ℕ) → Option (List ℕ × List ℕ)
in_front c none = none
in_front c (some (before, after)) = some (c ∷ before, after)

-- `strstr`: what stands before the first place of the needle, and what stands behind the needle.
unfoldable pub strstr : List ℕ → List ℕ → Option (List ℕ × List ℕ)
strstr needle [] = if starts needle [] then some ([], []) else none
strstr needle (c ∷ cs) =
    let rest = strstr needle cs in
    if starts needle (c ∷ cs) then some ([], drop (length needle) (c ∷ cs)) else in_front c rest

-- The loop that moves the end of the key in front of the spaces.
unfoldable pub trim_end : List ℕ → List ℕ
unfolding isspace
trim_end [] = []
trim_end (c ∷ cs) = elim (trim_end cs) [
  | [] ↦ if isspace c then [] else c ∷ []
  | d ∷ ds ↦ c ∷ d ∷ ds
]

abbrev pub key_header : List ℕ
key_header = codes "Sec-WebSocket-Key: "

abbrev pub crlf : List ℕ
crlf = 13 ∷ 10 ∷ []

-- The key fits the buffer of 25 characters with its final zero.
unfoldable pub fitting_key : List ℕ → Option (List ℕ)
fitting_key key = if ltb (length key) 25 then some key else none

unfoldable pub key_up_to_line : Option (List ℕ × List ℕ) → Option (List ℕ)
unfolding fitting_key trim_end
key_up_to_line none = none
key_up_to_line (some (line, rest)) = fitting_key (trim_end line)

unfoldable pub key_behind : Option (List ℕ × List ℕ) → Option (List ℕ)
unfolding key_up_to_line strstr
key_behind none = none
key_behind (some (before, start)) = key_up_to_line (strstr crlf start)

unfoldable pub extract_websocket_key : List ℕ → Option (List ℕ)
unfolding key_behind strstr
extract_websocket_key request = key_behind (strstr key_header request)
