-- ===== src/Http/Keys.antt =====
-- app/src/plc_http.c, `extract_websocket_key`: what the key is, and that it fits its buffer.
use beremiz4u_c.Common.{
  ℕ, zero, suc, ◌≤◌, ◌≡◌, refl, ap, ap₂, sym, subst, ◌∙◌, true, Bool-cases, inl, inr, Option-cases,
  List, [], ◌∷◌, ◌++◌, none, some, arith, length, drop,
}
use beremiz4u_c.Http.Requests.{
  starts, strstr, isspace, trim_end, key_header, crlf, fitting_key, key_up_to_line, key_behind,
  extract_websocket_key,
}

heads : {a b : ℕ} {xs ys : List ℕ} → a ∷ xs ≡ b ∷ ys → (a ≡ b) × (xs ≡ ys)
heads e = ground arith

starts_sound : (needle s : List ℕ) → starts needle s ≡ true → s ≡ needle ++ drop (length needle) s
starts_sound [] s h = refl
starts_sound (x ∷ xs) [] h = ground arith
starts_sound (x ∷ xs) (y ∷ ys) h = ap₂ (◌∷◌) (ground arith) (starts_sound xs ys (ground arith))

starts_complete : (needle s : List ℕ) → starts needle (needle ++ s) ≡ true
starts_complete [] s = refl
starts_complete (x ∷ xs) s = ground (arith, starts_complete xs s)

drop_empty : (n : ℕ) → ◌≡◌ {A = List ℕ} (drop n []) []
drop_empty zero = refl
drop_empty (suc n) = refl

module _ (needle : List ℕ) where
  at_start :
      (s before after : List ℕ)
      → ([] ≡ before) × (drop (length needle) s ≡ after)
      → starts needle s ≡ true
      → s ≡ before ++ (needle ++ after)
  at_start s before after parts here =
      starts_sound needle s here ∙ ap₂ (λ b a. b ++ (needle ++ a)) parts.0 parts.1

  pub strstr_sound :
      (s before after : List ℕ)
      → strstr needle s ≡ some (before, after)
      → s ≡ before ++ (needle ++ after)
  unfolding strstr
  strstr_sound [] before after h = elim (Bool-cases (starts needle [])) [
    | inl here ↦ at_start [] before after (ground (arith, here, h, drop_empty (length needle))) here
    | inr not_here ↦ absurd (ground (arith, not_here, h))
  ]
  strstr_sound (c ∷ cs) before after h = elim (Bool-cases (starts needle (c ∷ cs))) [
    | inl here ↦ at_start (c ∷ cs) before after (ground (arith, here, h)) here
    | inr not_here ↦ elim (Option-cases (strstr needle cs)) [
      | inl missing ↦ absurd (ground (arith, not_here, missing, h))
      | inr (found, at) ↦
          let parts : (c ∷ found.0 ≡ before) × (found.1 ≡ after) =
            ground (arith, not_here, at, h) in
          ap (◌∷◌ c) (strstr_sound cs found.0 found.1 at)
          ∙ ap₂ (λ b a. b ++ (needle ++ a)) parts.0 parts.1
    ]
  ]

  -- Where `strstr` finds nothing, the needle is no part.
  pub strstr_complete :
      (s before after : List ℕ) → strstr needle s ≡ none → s ≡ before ++ (needle ++ after) → ⊥
  unfolding strstr
  strstr_complete [] [] after h e =
      ground (arith, h, subst (λ s. starts needle s ≡ true) (sym e) (starts_complete needle after))
  strstr_complete [] (b ∷ before) after h e = ground (arith, e)
  strstr_complete (c ∷ cs) [] after h e =
      ground (arith, h, subst (λ s. starts needle s ≡ true) (sym e) (starts_complete needle after))
  strstr_complete (c ∷ cs) (b ∷ before) after h e = elim (Option-cases (strstr needle cs)) [
    | inl missing ↦ strstr_complete cs before after missing (heads e).1
    | inr (found, at) ↦ ground (arith, h, at)
  ]

-- Only spaces.
abbrev pub AreSpaces : List ℕ → Type 0
AreSpaces [] = Unit {0}
AreSpaces (c ∷ cs) = (isspace c ≡ true) × AreSpaces cs

trim_cons :
    (c : ℕ) (cs t spaces : List ℕ)
    → trim_end cs ≡ t
    → cs ≡ t ++ spaces
    → AreSpaces spaces
    → (all : List ℕ) × (c ∷ cs ≡ trim_end (c ∷ cs) ++ all) × AreSpaces all
unfolding trim_end
trim_cons c cs [] spaces trimmed e only = elim (Bool-cases (isspace c)) [
  | inl space ↦
      let gone : [] ≡ trim_end (c ∷ cs) = ground (arith, trimmed, space) in
      (c ∷ spaces, ap (◌∷◌ c) e ∙ ap (λ l. l ++ c ∷ spaces) gone, (space, only))
  | inr other ↦
      let kept : c ∷ [] ≡ trim_end (c ∷ cs) = ground (arith, trimmed, other) in
      (spaces, ap (◌∷◌ c) e ∙ ap (λ l. l ++ spaces) kept, only)
]
trim_cons c cs (d ∷ ds) spaces trimmed e only =
    let kept : c ∷ d ∷ ds ≡ trim_end (c ∷ cs) = ground (arith, trimmed) in
    (spaces, ap (◌∷◌ c) e ∙ ap (λ l. l ++ spaces) kept, only)

trim_end_lem : (s : List ℕ) → (spaces : List ℕ) × (s ≡ trim_end s ++ spaces) × AreSpaces spaces
unfolding trim_end
trim_end_lem [] = ([], refl, tt)
trim_end_lem (c ∷ cs) =
    let rest = trim_end_lem cs in trim_cons c cs (trim_end cs) rest.0 refl rest.1 rest.2

-- A key that is answered has at most 24 characters, and the request has it, with nothing but spaces
-- behind it, between the header `Sec-WebSocket-Key: ` and the end of that line.
pub extract_websocket_key_lem :
    (request key : List ℕ)
    → extract_websocket_key request ≡ some key
    → (length key ≤ 24)
      × (before : List ℕ) × (spaces : List ℕ) × (after : List ℕ) × (request
          ≡ before ++ (key_header ++ ((key ++ spaces) ++ (crlf ++ after))))
      × AreSpaces spaces
unfolding extract_websocket_key key_behind key_up_to_line fitting_key
extract_websocket_key_lem request key h = elim (Option-cases (strstr key_header request)) [
  | inl missing ↦ absurd (ground (arith, missing, h))
  | inr (start, at) ↦ elim (Option-cases (strstr crlf start.1)) [
    | inl missing ↦ absurd (ground (arith, at, missing, h))
    | inr (line, ends) ↦
        let trimmed = trim_end_lem line.0 in
        let fits : (length key ≤ 24) × (trim_end line.0 ≡ key) = ground (arith, at, ends, h) in
        (
          fits.0,
          start.0,
          trimmed.0,
          line.1,
          strstr_sound key_header request start.0 start.1 at
              ∙ ap (λ s. start.0 ++ (key_header ++ s))
                  (strstr_sound crlf start.1 line.0 line.1 ends
                    ∙ ap (λ l. l ++ (crlf ++ line.1))
                        (trimmed.1 ∙ ap (λ k. k ++ trimmed.0) fits.1)),
          trimmed.2,
        )
  ]
]
