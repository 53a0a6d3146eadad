-- ===== src/Qbe/Strings.antt =====
-- The text of a string in `qbe_emit_string_data` of qbebasedcompiler/src/qbe.c.
pub mod Escapes
use micro_colorschemes.Prelude.{
  ℕ, ◌+◌, ◌/◌, ◌%◌, Bool, ◌||◌, List, [], ◌∷◌, ◌++◌, ltb, ◌==◌, if◌then◌else◌, Bytes,
}

-- `\\%03o` of a byte.
abbrev pub octal_escape : ℕ → Bytes
octal_escape c = 92 ∷ (48 + c / 64) ∷ (48 + c / 8 % 8) ∷ (48 + c % 8) ∷ []

-- The body of the loop over the bytes of a string: `"` 34, backslash 92, newline 10, tab 9, return
-- 13 and 0 are written in two characters, other bytes outside 32 to 126 in octal.
unfoldable pub escape_byte : ℕ → Bytes
escape_byte c =
    if c == 34
    then 92 ∷ 34 ∷ []
    else if c == 92
    then 92 ∷ 92 ∷ []
    else if c == 10
    then 92 ∷ 110 ∷ []
    else if c == 9
    then 92 ∷ 116 ∷ []
    else if c == 13
    then 92 ∷ 114 ∷ []
    else if c == 0
    then 92 ∷ 48 ∷ []
    else if ltb c 32 || ltb 126 c
    then octal_escape c
    else c ∷ []

unfoldable pub escape_text : Bytes → Bytes
unfolding escape_byte
escape_text [] = []
escape_text (c ∷ cs) = escape_byte c ++ escape_text cs
