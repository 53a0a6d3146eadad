-- ===== src/Literal/Escapes.antt =====
-- Escapes and prefixes in qbebasedcompiler/src/parser.c: where the two escape tables differ, and
-- what the decoders make of a prefixed literal.
use micro_colorschemes.Prelude.{
  ℕ, ◌≤◌, ◌≡◌, ◌↔◌, refl, sym, ap, ◌∙◌, ◌||◌, Bool, false, [], ◌∷◌, ◌++◌, Bytes, arith, ◌==◌,
  length, map, codes,
}
use micro_colorschemes.Literal.Strings.{decode_str-quoted}
use micro_colorschemes.Literal.{char_escape, decode_char, str_escape, decode_body, decode_str}

-- Does the letter name the alarm, the backspace, the form feed or the vertical tab?
abbrev pub is_control_letter : ℕ → Bool
is_control_letter e = e == b'a' || e == b'b' || e == b'f' || e == b'v'

-- The two escape tables agree at a letter exactly if it is not `a`, `b`, `f` or `v`. At these four
-- the character constant is the control code, 7, 8, 12 and 11 in this order, and the string literal
-- keeps the letter.
pub char_escape-eq-str_escape_iff :
    (e : ℕ)
    → ((char_escape e ≡ str_escape e) ↔ (is_control_letter e ≡ false))
      × (map char_escape (codes "abfv") ≡ 7 ∷ 8 ∷ 12 ∷ 11 ∷ [])
      × (map str_escape (codes "abfv") ≡ codes "abfv")
unfolding char_escape str_escape
char_escape-eq-str_escape_iff e = (ground arith, refl, refl)

-- A character constant with a prefix of one byte and a byte at least behind its opening quote is
-- decoded to the code of that quote.
pub decode_char_prefixed :
    (p : ℕ) (body : Bytes) → 1 ≤ length body → decode_char (p ∷ b'\'' ∷ body) ≡ b'\''
unfolding decode_char
decode_char_prefixed p [] h = absurd (omega arith)
decode_char_prefixed p (c ∷ body) h = ground arith

decode_body-quote : (body : Bytes) → decode_body (b'"' ∷ body) ≡ b'"' ∷ decode_body body
unfolding decode_body
decode_body-quote [] = refl
decode_body-quote (c ∷ body) = refl

-- A string literal with a prefix of one byte is decoded with its opening quote in front.
pub decode_str_prefixed :
    (p : ℕ) (body : Bytes)
    → decode_str (p ∷ b'"' ∷ (body ++ b'"' ∷ [])) ≡ b'"' ∷ decode_str (b'"' ∷ (body ++ b'"' ∷ []))
decode_str_prefixed p body =
    decode_str-quoted p (b'"' ∷ body)
    ∙ decode_body-quote body
    ∙ ap (◌∷◌ b'"') (sym (decode_str-quoted b'"' body))
