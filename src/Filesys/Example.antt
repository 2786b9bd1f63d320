-- ===== src/Filesys/Example.antt =====
-- A file system at work: the list of the paths that exist.
use beremiz4u_c.Common.{
  ℕ, ◌≡◌, ◌≢◌, refl, sym, ap, ◌∙◌, Bool, true, false, List, [], ◌∷◌, Option, none, some, ◌==◌,
  if◌then◌else◌, arith, Bool-cases, Option-cases, inl, inr, eexist,
}
use beremiz4u_c.Filesys.{Bytes, Kind, directory, Files}

abbrev same : Bytes → Bytes → Bool
same [] [] = true
same [] (y ∷ ys) = false
same (x ∷ xs) [] = false
same (x ∷ xs) (y ∷ ys) = if x == y then same xs ys else false

same_iff : (xs ys : Bytes) → same xs ys ≡ true → xs ≡ ys
same_iff [] [] h = refl
same_iff [] (y ∷ ys) h = absurd (ground (arith, h))
same_iff (x ∷ xs) [] h = absurd (ground (arith, h))
same_iff (x ∷ xs) (y ∷ ys) h = ground (arith, h, same_iff xs ys)

same_self : (xs : Bytes) → same xs xs ≡ true
same_self [] = refl
same_self (x ∷ xs) = ground (arith, same_self xs)

abbrev pub look : Bytes → List (Bytes × Kind) → Option Kind
look path [] = none
look path ((p, kind) ∷ ps) = if same path p then some kind else look path ps

abbrev pub add : Bytes → List (Bytes × Kind) → List (Bytes × Kind) × ℕ
add path ps = elim (look path ps) [ none ↦ ((path, directory) ∷ ps, 0) | some kind ↦ (ps, eexist) ]

look-add_missing :
    (path p : Bytes) (ps : List (Bytes × Kind))
    → look path ps ≡ none
    → look p (add path ps).0 ≡ (if same p path then some directory else look p ps)
look-add_missing path p ps h = ground (arith, h)

look-add_found :
    (path : Bytes) (ps : List (Bytes × Kind)) (kind : Kind)
    → look path ps ≡ some kind
    → add path ps ≡ (ps, eexist)
look-add_found path ps kind h = rw (h, add)

pub made_there :
    (path : Bytes) (ps : List (Bytes × Kind))
    → (add path ps).1 ≡ 0
    → look path (add path ps).0 ≡ some directory
made_there path ps h = elim (Option-cases (look path ps)) [
  | inl missing ↦ ground (arith, look-add_missing path path ps missing, same_self path)
  | inr (kind, found) ↦ absurd (omega (arith, ap (λ r. r.1) (look-add_found path ps kind found), h))
]

pub others_kept :
    (path p : Bytes) (ps : List (Bytes × Kind)) → path ≢ p → look p (add path ps).0 ≡ look p ps
others_kept path p ps h = elim (Option-cases (look path ps)) [
  | inl missing ↦ elim (Bool-cases (same p path)) [
    | inl equal ↦ absurd (h (sym (same_iff p path equal)))
    | inr differs ↦ ground (arith, look-add_missing path p ps missing, differs)
  ]
  | inr (kind, found) ↦ ap (λ r. look p r.0) (look-add_found path ps kind found)
]

pub all_kept :
    (path p : Bytes) (ps : List (Bytes × Kind)) (kind : Kind)
    → look p ps ≡ some kind
    → look p (add path ps).0 ≡ some kind
all_kept path p ps kind h = elim (Option-cases (look path ps)) [
  | inl missing ↦ elim (Bool-cases (same p path)) [
    | inl equal ↦ ground (arith, missing, h, ap (λ q. look q ps) (same_iff p path equal))
    | inr differs ↦ ground (arith, look-add_missing path p ps missing, differs, h)
  ]
  | inr (kind', found) ↦ ap (λ r. look p r.0) (look-add_found path ps kind' found) ∙ h
]

pub failed_same :
    (path : Bytes) (ps : List (Bytes × Kind)) → (add path ps).1 ≢ 0 → (add path ps).0 ≡ ps
failed_same path ps h = elim (Option-cases (look path ps)) [
  | inl missing ↦ absurd (h (rw (missing, add)))
  | inr (kind, found) ↦ ap (λ r. r.0) (look-add_found path ps kind found)
]

unfoldable pub listed : Files (List (Bytes × Kind))
listed = record {
  stat = look;
  mkdir = add;
  create = λ path ps. ((path, Kind.regular) ∷ ps, 0);
  stat-mkdir = made_there;
  stat-mkdir_other = others_kept;
  stat-mkdir_kept = all_kept;
  mkdir_fails = failed_same;
}
