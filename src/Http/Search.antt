-- ===== src/Http/Search.antt =====
-- app/src/plc_http.c, `strcasestr`: against its meaning.
use beremiz4u_c.Common.{
  ℕ, ◌≡◌, refl, ap, ap₂, sym, subst, Bool-cases, inl, inr, ◌≤◌, suc, true, false, List, [], ◌∷◌,
  ◌++◌, map, none, some, if◌then◌else◌, arith, length, take,
}
use beremiz4u_c.Http.Requests.{tolower, matches_here, search_case, strcasestr}

-- A text starts with the needle, but for the case of letters.
abbrev pub StartsWith : List ℕ → List ℕ → Type 0
StartsWith s needle = map tolower (take (length needle) s) ≡ map tolower needle

matches_here_sound : (s needle : List ℕ) → matches_here s needle ≡ true → StartsWith s needle
unfolding matches_here
matches_here_sound s [] h = refl
matches_here_sound [] (n ∷ ns) h = ground arith
matches_here_sound (c ∷ s) (n ∷ ns) h =
    ap₂ (◌∷◌) (ground arith) (matches_here_sound s ns (ground arith))

heads : {a b : ℕ} {xs ys : List ℕ} → a ∷ xs ≡ b ∷ ys → (a ≡ b) × (xs ≡ ys)
heads e = ground arith

matches_here_complete : (s needle : List ℕ) → StartsWith s needle → matches_here s needle ≡ true
unfolding matches_here
matches_here_complete s [] h = refl
matches_here_complete [] (n ∷ ns) h = ground arith
matches_here_complete (c ∷ s) (n ∷ ns) h = ground (arith, heads h, matches_here_complete s ns)

-- What a match is: where it stands, and that none stands before it.
pub record Found (haystack needle found : List ℕ) : Type 0 where
  pub before : List ℕ
  pub parts : haystack ≡ before ++ found
  pub starts : StartsWith found needle
  pub first :
      (other after : List ℕ)
      → haystack ≡ other ++ after
      → StartsWith after needle
      → length before ≤ length other

module _ (n : ℕ) (ns : List ℕ) where
  -- One round of the outer loop.
  round :
      (c : ℕ) (cs : List ℕ)
      → search_case (c ∷ cs) n ns
        ≡ (if matches_here (c ∷ cs) (n ∷ ns) then some (c ∷ cs) else search_case cs n ns)
  unfolding search_case matches_here
  round c cs = ground arith

  not_empty : (s : List ℕ) → [] ≡ s → StartsWith s (n ∷ ns) → ⊥
  not_empty [] e h = ground (arith, h)
  not_empty (c ∷ s) e h = ground (arith, e)

  search_none :
      (haystack : List ℕ)
      → search_case haystack n ns ≡ none
      → (before after : List ℕ) → haystack ≡ before ++ after
      → StartsWith after (n ∷ ns)
      → ⊥
  search_none [] h [] after e starts = not_empty after e starts
  search_none [] h (b ∷ before) after e starts = ground (arith, e)
  search_none (c ∷ cs) h [] after e starts =
      let here =
        matches_here_complete (c ∷ cs) (n ∷ ns)
          (subst (λ s. StartsWith s (n ∷ ns)) (sym e) starts) in
      ground (arith, round c cs, here)
  search_none (c ∷ cs) h (b ∷ before) after e starts =
      search_none cs (ground (arith, round c cs)) before after (heads e).1 starts

  nothing : (found : List ℕ) → search_case [] n ns ≡ some found → ⊥
  unfolding search_case
  nothing found h = ground (arith, h)

  search_some :
      (haystack found : List ℕ)
      → search_case haystack n ns ≡ some found
      → Found haystack (n ∷ ns) found
  search_some [] found h = absurd (nothing found h)
  search_some (c ∷ cs) found h = elim (Bool-cases (matches_here (c ∷ cs) (n ∷ ns))) [
    | inl here ↦
        let same : c ∷ cs ≡ found = ground (arith, round c cs, here) in
        record {
          before = [];
          parts = same;
          starts =
              subst (λ s. StartsWith s (n ∷ ns)) same (matches_here_sound (c ∷ cs) (n ∷ ns) here);
          first = λ other after e starts. omega arith;
        }
    | inr not_here ↦
        let later = search_some cs found (ground (arith, round c cs, not_here)) in
        record {
          before = c ∷ later.before;
          parts = ap (◌∷◌ c) later.parts;
          starts = later.starts;
          first =
              λ other after e starts. further c cs found not_here later.first other after e starts;
        }
  ]
    where
      further :
          (c : ℕ) (cs found : List ℕ) {m : ℕ}
          → matches_here (c ∷ cs) (n ∷ ns) ≡ false
          → ((other after : List ℕ)
              → cs ≡ other ++ after
              → StartsWith after (n ∷ ns)
              → m ≤ length other)
          → (other after : List ℕ) → c ∷ cs ≡ other ++ after
          → StartsWith after (n ∷ ns)
          → suc m ≤ length other
      further c cs found not_here first [] after e starts = absurd (
          ground (
            arith,
            not_here,
            matches_here_complete (c ∷ cs) (n ∷ ns)
                (subst (λ s. StartsWith s (n ∷ ns)) (sym e) starts),
          ))
      further c cs found not_here first (o ∷ other) after e starts =
          omega (arith, first other after (heads e).1 starts)

-- With a needle that is not empty, `strcasestr` answers `none` only where no part of the haystack is
-- the needle, whatever the case of the letters. Otherwise it answers the haystack from the first
-- such part on.
pub strcasestr_lem :
    (haystack needle : List ℕ)
    → 1 ≤ length needle
    → (strcasestr haystack needle ≡ none
        → (before after : List ℕ) → haystack ≡ before ++ after
        → StartsWith after needle
        → ⊥)
      × ((found : List ℕ) → strcasestr haystack needle ≡ some found → Found haystack needle found)
unfolding strcasestr
strcasestr_lem haystack [] least = elim least [ ]
strcasestr_lem haystack (n ∷ ns) least = (search_none n ns haystack, search_some n ns haystack)
