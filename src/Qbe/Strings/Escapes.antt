-- ===== src/Qbe/Strings/Escapes.antt =====
-- Reading back the strings that qbebasedcompiler/src/qbe.c writes, by the rules of an assembler's
-- `.ascii`: a backslash before up to three octal digits, or before a letter.
use micro_colorschemes.Prelude.{
  ℕ, suc, ◌+◌, ◌-◌, ◌*◌, ◌/◌, ◌%◌, ◌<◌, ◌≡◌, ◌≢◌, ◌⊎◌, refl, sym, subst, ap, ◌∙◌, inl, inr, Bool,
  true, ◌&&◌, [], ◌∷◌, ◌++◌, zero, leb, ltb, ◌==◌, if◌then◌else◌, Bytes, arith,
}
use micro_colorschemes.Qbe.Strings.{escape_byte, escape_text, octal_escape}

-- Between escapes, behind a backslash, or behind octal digits of this value with room for `k` more.
pub data Reading : Type 0 where
  plain escaped : Reading
  octal : ℕ → ℕ → Reading

abbrev is_octal_digit : ℕ → Bool
is_octal_digit c = leb 48 c && ltb c 56

-- The byte that a letter behind a backslash stands for.
abbrev letter_byte : ℕ → ℕ
letter_byte c = if c == 110 then 10 else if c == 116 then 9 else if c == 114 then 13 else c

unfoldable pub unescape : Reading → Bytes → Bytes
unescape plain [] = []
unescape escaped [] = []
unescape (octal v k) [] = v ∷ []
unescape plain (c ∷ cs) =
    let more = unescape plain cs in if c == 92 then unescape escaped cs else c ∷ more
unescape escaped (c ∷ cs) =
    let more = unescape plain cs in
    if is_octal_digit c then unescape (octal (c - 48) 2) cs else letter_byte c ∷ more
unescape (octal v (suc k)) (c ∷ cs) =
    let digit = unescape (octal (v * 8 + (c - 48)) k) cs in
    let other = unescape plain cs in
    if is_octal_digit c then digit else if c == 92 then v ∷ unescape escaped cs else v ∷ c ∷ other
unescape (octal v zero) (c ∷ cs) =
    let other = unescape plain cs in if c == 92 then v ∷ unescape escaped cs else v ∷ c ∷ other

-- Bytes, none of them 0.
abbrev pub is_nonzero_bytes : Bytes → Bool
is_nonzero_bytes [] = true
is_nonzero_bytes (c ∷ cs) = ltb 0 c && ltb c 256 && is_nonzero_bytes cs

octal-value : (c : ℕ) → c / 64 * 8 * 8 + c / 8 % 8 * 8 + c % 8 ≡ c
octal-value c = omega arith

unescape-octal_escape :
    (c : ℕ) (cs : Bytes) → c < 256 → unescape plain (octal_escape c ++ cs) ≡ c ∷ unescape plain cs
unfolding unescape
unescape-octal_escape c cs small = ground (arith, octal-value c)

-- The escape of a byte is read back as that byte.
abbrev ReadsBack : ℕ → Type 0
ReadsBack c = (cs : Bytes) → unescape plain (escape_byte c ++ cs) ≡ c ∷ unescape plain cs

ReadsBack-short : (c : ℕ) → (c ≡ 34) ⊎ (c ≡ 92) ⊎ (c ≡ 10) ⊎ (c ≡ 9) ⊎ (c ≡ 13) → ReadsBack c
unfolding unescape escape_byte
ReadsBack-short c (inl e) = subst ReadsBack (sym e) (λ cs. refl)
ReadsBack-short c (inr (inl e)) = subst ReadsBack (sym e) (λ cs. refl)
ReadsBack-short c (inr (inr (inl e))) = subst ReadsBack (sym e) (λ cs. refl)
ReadsBack-short c (inr (inr (inr (inl e)))) = subst ReadsBack (sym e) (λ cs. refl)
ReadsBack-short c (inr (inr (inr (inr e)))) = subst ReadsBack (sym e) (λ cs. refl)

-- The forms of an escape.
escape_byte-cases :
    (c : ℕ)
    → 0 < c
    → ((c ≡ 34) ⊎ (c ≡ 92) ⊎ (c ≡ 10) ⊎ (c ≡ 9) ⊎ (c ≡ 13))
      ⊎ (escape_byte c ≡ octal_escape c)
      ⊎ ((escape_byte c ≡ c ∷ []) × (c ≢ 92))
unfolding escape_byte
escape_byte-cases c nz = ground arith

unescape-plain_byte :
    (c : ℕ) (cs : Bytes) → c ≢ 92 → unescape plain (c ∷ cs) ≡ c ∷ unescape plain cs
unfolding unescape
unescape-plain_byte c cs ne = ground arith

escape_byte-ReadsBack : (c : ℕ) → 0 < c → c < 256 → ReadsBack c
escape_byte-ReadsBack c nz small cs = elim (escape_byte-cases c nz) [
  | inl e ↦ ReadsBack-short c e cs
  | inr (inl e) ↦ ap (λ x. unescape plain (x ++ cs)) e ∙ unescape-octal_escape c cs small
  | inr (inr (e, ne)) ↦ ap (λ x. unescape plain (x ++ cs)) e ∙ unescape-plain_byte c cs ne
]

unescape-nil : unescape plain [] ≡ []
unfolding unescape
unescape-nil = refl

nonzero-head :
    (c : ℕ) (cs : Bytes)
    → is_nonzero_bytes (c ∷ cs) ≡ true
    → (0 < c) × (c < 256) × (is_nonzero_bytes cs ≡ true)
nonzero-head c cs h = ground arith

-- The text that `escape_text` writes for a string of bytes other than 0, each below 256, is read back
-- as that string.
pub unescape-escape_text :
    (text : Bytes) → is_nonzero_bytes text ≡ true → unescape plain (escape_text text) ≡ text
unfolding escape_text
unescape-escape_text [] h = unescape-nil
unescape-escape_text (c ∷ cs) h =
    let (nz, small, rest) = nonzero-head c cs h in
    escape_byte-ReadsBack c nz small (escape_text cs)
    ∙ ap (λ xs. c ∷ xs) (unescape-escape_text cs rest)
