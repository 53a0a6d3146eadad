-- ===== src/Driver.antt =====
-- The driver, qbebasedcompiler/src/driver.c; here `driver_derive_name`. A string is its bytes without
-- the 0 at the end.
pub mod Laws
pub mod System
pub mod Options
pub mod Tools
pub mod Front
pub mod Link
pub mod Main
use micro_colorschemes.Prelude.{
  ℕ, suc, ◌+◌, Bool, true, false, List, [], ◌∷◌, ◌++◌, Bytes, Option, none, some, ltb, ◌==◌,
  if◌then◌else◌, length, take, drop,
}

-- `strrchr`: the offset of the last `c`.
unfoldable pub strrchr : Bytes → ℕ → Option ℕ
strrchr [] c = none
strrchr (b ∷ bs) c = elim (strrchr bs c) [
  | some n ↦ some (suc n)
  | none ↦ if b == c then some 0 else none
]

-- The later of two offsets: `base2` where it is set and behind `base`.
abbrev pub later : Option ℕ → Option ℕ → Option ℕ
later base none = base
later none (some n) = some n
later (some m) (some n) = if ltb m n then some n else some m

-- `base + 1`, or the whole path.
abbrev pub behind_separator : Bytes → Option ℕ → Bytes
behind_separator path none = path
behind_separator path (some n) = drop (suc n) path

unfoldable pub base_name : Bytes → Bytes
unfolding strrchr
base_name path = behind_separator path (later (strrchr path b'/') (strrchr path b'\\'))

-- The bytes in front of the dot, or all.
abbrev pub stem_of : Bytes → Option ℕ → Bytes
stem_of base none = base
stem_of base (some dot) = take dot base

unfoldable pub driver_derive_name : Bytes → Bytes → Bytes
unfolding base_name
driver_derive_name path ext = stem_of (base_name path) (strrchr (base_name path) b'.') ++ ext
