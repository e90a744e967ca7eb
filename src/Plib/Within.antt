-- ===== src/Plib/Within.antt =====
-- The sections of a compiled module lie within its file.
use prismio.Base.{ℕ, ◌+◌, ◌≤◌, ◌≡◌, true, ◌⊎◌, List, [], ◌∷◌, ◌++◌}
use prismio.Plib.{Section, Plib, Registry, Load, loaded, refused, is_registered}

-- Both compilations of every section end at or before an offset.
unfoldable pub Within : ℕ → List Section → Type 0
Within bound [] = Unit
Within bound (s ∷ ss) =
    (s.bitcode_offset + s.bitcode_size ≤ bound)
    × (s.verify_bitcode_offset + s.verify_bitcode_size ≤ bound)
    × Within bound ss

-- What holds of a reading's result, if it is not refused.
abbrev OnLoaded : {A : Type 0} → (A → Type 0) → Load A → Type 0
OnLoaded P (refused e) = Unit
OnLoaded P (loaded a) = P a

abbrev EndsWithin : List Section × ℕ → Type 0
EndsWithin out = Within out.1 out.0

-- What plib_interface leaves in the registry.
abbrev pub Registered : ℕ → Registry → List ℕ → List ℕ → Registry → Type 0
Registered size plibs path name after =
    ((after ≡ plibs) × (is_registered name plibs ≡ true))
    ⊎ ((plib : Plib) × (after ≡ plibs ++ (plib ∷ []))
        × (plib.name ≡ name)
        × (plib.path ≡ path)
        × Within size plib.sections)
