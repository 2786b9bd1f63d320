-- ===== src/Shell/Directory.antt =====
-- app/src/plc_cli.c, `cmd_cd`: the working directory.
use beremiz4u_c.Common.{
  ℕ, ◌≤◌, ◌≡◌, refl, sym, subst, ap, ◌∙◌, Bool, true, false, List, [], ◌∷◌, Option, none, some, inl,
  inr, if◌then◌else◌, arith, length, length-take, take, take_le, codes, before_last_slash, NoSlash,
  before_last_slash-append, Bool-cases, ==_iff, Option-cases, ℤ, pos,
}
use beremiz4u_c.Uploads.{same_bytes}
use beremiz4u_c.Shell.{
  Bytes, Vfs, Shell, starts_with_slash, create_abs_path, parent, enter, cmd_cd, max_path_len,
}
use beremiz4u_c.Shell.Paths.{IsCwd, joined, create_abs_path_lem}

abbrev size : Option Bytes → ℕ
size none = 0
size (some d) = length d

size-before_last_slash : (s : Bytes) → size (before_last_slash s) ≤ length s
size-before_last_slash [] = omega arith
size-before_last_slash (c ∷ cs) = elim (Option-cases (before_last_slash cs)) [
  | inl missing ↦ ground (arith, missing)
  | inr (d, found) ↦
      let shorter : length d ≤ length cs =
        omega (arith, size-before_last_slash cs, ap size found) in
      ground (arith, found, shorter)
]

length-parent : (o : Option Bytes) → size o ≤ 127 → length (parent o) ≤ 127
length-parent none h = omega arith
length-parent (some []) h = omega arith
length-parent (some (c ∷ d)) h = h

parent-starts :
    (s : Bytes)
    → starts_with_slash s ≡ true
    → starts_with_slash (parent (before_last_slash s)) ≡ true
parent-starts [] h = refl
parent-starts (c ∷ cs) h = elim (Option-cases (before_last_slash cs)) [
  | inl missing ↦ ground (arith, missing, h)
  | inr (d, found) ↦ ground (arith, found, h)
]

parent-IsCwd : (s : Bytes) → IsCwd s → IsCwd (parent (before_last_slash s))
parent-IsCwd s h = (
  parent-starts s h.0,
  length-parent (before_last_slash s) (omega (arith, size-before_last_slash s, h.1)),
)

take-starts : (s : Bytes) → starts_with_slash s ≡ true → IsCwd (take 127 s)
take-starts [] h = absurd (ground (arith, h))
take-starts (c ∷ s) h = (h, omega (arith, length-take 126 s))

joined-starts :
    (cwd name : Bytes) → starts_with_slash cwd ≡ true → starts_with_slash (joined cwd name) ≡ true
joined-starts [] name h = absurd (ground (arith, h))
joined-starts (c ∷ cwd) name h = elim (Bool-cases (starts_with_slash name)) [
  | inl absolute ↦ ground (arith, absolute)
  | inr relative ↦ ground (arith, relative, h)
]

NoSlash-relative : (name : Bytes) → NoSlash name → starts_with_slash name ≡ false
NoSlash-relative [] h = refl
NoSlash-relative (c ∷ name) h = h.0

-- The directory of a path made of a name with no slash.
parent-joined :
    (cwd name : Bytes)
    → IsCwd cwd
    → NoSlash name
    → parent (before_last_slash (joined cwd name)) ≡ cwd
parent-joined [] name h plain = absurd (ground (arith, h.0))
parent-joined (c ∷ []) name h plain =
    let slash : c ≡ 47 = (==_iff c 47).0 h.0 in
    rw (NoSlash-relative name plain, before_last_slash-append [] name plain)
      (ap (λ x. x ∷ []) (sym slash))
parent-joined (c ∷ d ∷ cwd) name h plain =
    ground (arith, NoSlash-relative name plain, before_last_slash-append (c ∷ d ∷ cwd) name plain)

module _ {F : Type 0} where
  pub either :
      (b : Bool) (x y : Shell F × ℤ)
      → IsCwd x.0.cwd
      → IsCwd y.0.cwd
      → IsCwd (if b then x else y).0.cwd
  either true x y hx hy = hx
  either false x y hx hy = hy

module _ {F : Type 0} (k : Vfs F) where
  enter-IsCwd :
      (path : Bytes) (o : Option Bool) (s : Shell F)
      → IsCwd (take 127 path)
      → IsCwd s.cwd
      → IsCwd (enter k path o s).0.cwd
  unfolding enter
  enter-IsCwd path none s p h = h
  enter-IsCwd path (some false) s p h = h
  enter-IsCwd path (some true) s p h = p

  -- `cmd_cd` keeps the working directory a text that starts with a slash and fits its array, whatever
  -- its arguments.
  pub cmd_cd-IsCwd : (args : List Bytes) (s : Shell F) → IsCwd s.cwd → IsCwd (cmd_cd k args s).0.cwd
  unfolding cmd_cd
  cmd_cd-IsCwd [] s h = (refl, omega arith)
  cmd_cd-IsCwd (arg ∷ args) s h =
      let path = create_abs_path s.cwd arg max_path_len in
      let fits : IsCwd (take 127 path) =
        subst (λ p. IsCwd (take 127 p)) (sym (create_abs_path_lem s.cwd arg h))
          (take-starts (take 127 (joined s.cwd arg))
            (take-starts (joined s.cwd arg) (joined-starts s.cwd arg h.0)).0) in
      either (same_bytes arg (codes ".."))
        (record s { cwd = parent (before_last_slash s.cwd) }, pos 0)
        (enter k path (k.fs_stat path s.files) s) (parent-IsCwd s.cwd h)
        (enter-IsCwd path (k.fs_stat path s.files) s fits h)

  -- To enter a directory by a name with no slash, other than "..", and to go up again is to stay,
  -- where the entry is a directory and its path fits the array.
  pub cmd_cd-up :
      (name : Bytes) (s : Shell F)
      → IsCwd s.cwd
      → NoSlash name
      → same_bytes name (codes "..") ≡ false
      → length (joined s.cwd name) ≤ 127
      → k.fs_stat (joined s.cwd name) s.files ≡ some true
      → cmd_cd k (codes ".." ∷ []) (cmd_cd k (name ∷ []) s).0 ≡ (s, pos 0)
  unfolding cmd_cd enter
  cmd_cd-up name s h plain other fits found =
      let path : create_abs_path s.cwd name max_path_len ≡ joined s.cwd name =
        create_abs_path_lem s.cwd name h ∙ take_le 127 (joined s.cwd name) fits in
      let down : cmd_cd k (name ∷ []) s ≡ (record s { cwd = take 127 (joined s.cwd name) }, pos 0) =
        rw (other, path, found) in
      ap (λ r. cmd_cd k (codes ".." ∷ []) r.0) down
      ∙ ap (λ p. (record s { cwd = parent (before_last_slash p) }, pos 0))
          (take_le 127 (joined s.cwd name) fits)
      ∙ ap (λ c. (record s { cwd = c }, pos 0)) (parent-joined s.cwd name h plain)
