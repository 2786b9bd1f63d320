-- ===== src/Filesys/Directories.antt =====
-- app/src/plc_filesys.c, `create_directories`: which directories it leaves.
use beremiz4u_c.Common.{
  ◌≡◌, ◌⊎◌, true, List, [], ◌∷◌, ◌++◌, none, some, ◌==◌, if◌then◌else◌, is_negative, eexist,
}
use beremiz4u_c.Filesys.{Bytes, directory, Files, Round, stop, go}

-- The paths before each slash of the rest.
abbrev pub parents : Bytes → Bytes → List Bytes
parents before [] = []
parents before (c ∷ rest) =
    let deeper = parents (before ++ c ∷ []) rest in if c == 47 then before ∷ deeper else deeper

module _ {F : Type 0} (k : Files F) where
  -- `stat` tells that a path is a directory; or `mkdir` has told that the path exists although `stat`
  -- found nothing there.
  abbrev pub IsThere : Bytes → F → Type 0
  IsThere p f =
      (k.stat p f ≡ some directory) ⊎ ((g : F) × (k.stat p g ≡ none) × ((k.mkdir p g).1 ≡ eexist))

  abbrev pub AreDirectories : List Bytes → F → Type 0
  AreDirectories [] f = Unit {0}
  AreDirectories (p ∷ ps) f = IsThere p f × AreDirectories ps f

  -- The directories of the first are directories of the second.
  Keeps : F → F → Type 0
  Keeps f g = (p : Bytes) → k.stat p f ≡ some directory → k.stat p g ≡ some directory

  -- What holds of a round that starts with the files f: it goes on with the path a directory and
  -- every directory kept, or it stops with an error.
  abbrev IsSound : List Bytes → F → Round F → Type 0
  IsSound ps f (go g created st) = AreDirectories ps g × Keeps f g
  IsSound ps f (stop g e) = is_negative e ≡ true
