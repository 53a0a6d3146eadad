-- ===== src/Literal/Strings.antt =====
-- String literals: what is written with escapes is decoded to what was meant.
use micro_colorschemes.Prelude.{
  ℕ, suc, ◌-◌, ◌≡◌, refl, ap, ◌∙◌, inl, inr, Bool-cases, ==_iff, false, [], ◌∷◌, ◌++◌, Bytes, arith,
  leb, ◌==◌, if◌then◌else◌, length, take, length-append, take-length,
}
use micro_colorschemes.Literal.{str_escape, decode_body, decode_str}

-- A byte inside a string literal.
abbrev pub written_byte : ℕ → Bytes
written_byte c =
    if c == 10
    then b'\\' ∷ b'n' ∷ []
    else if c == b'"'
    then b'\\' ∷ b'"' ∷ []
    else if c == b'\\'
    then b'\\' ∷ b'\\' ∷ []
    else c ∷ []

pub written : Bytes → Bytes
written [] = []
written (c ∷ cs) = written_byte c ++ written cs

-- The literal for a byte string.
abbrev pub string_literal : Bytes → Bytes
string_literal s = b'"' ∷ (written s ++ b'"' ∷ [])

decode_body-cons :
    (c : ℕ) (cs : Bytes) → (c == b'\\') ≡ false → decode_body (c ∷ cs) ≡ c ∷ decode_body cs
unfolding decode_body
decode_body-cons c [] h = refl
decode_body-cons c (d ∷ cs) h = ground arith

-- Two bytes that stand for one.
decode_body_pair :
    (d : ℕ) (cs : Bytes) → decode_body (b'\\' ∷ d ∷ cs) ≡ str_escape d ∷ decode_body cs
unfolding decode_body
decode_body_pair d cs = refl

decode_body-written_byte :
    (c : ℕ) (cs : Bytes) → decode_body (written_byte c ++ cs) ≡ c ∷ decode_body cs
decode_body-written_byte c cs = elim (Bool-cases (c == 10)) [
  | inl e ↦ rw e (decode_body_pair b'n' cs ∙ unfold str_escape in cc ((==_iff c 10).0 e))
  | inr n ↦ rw n (elim (Bool-cases (c == b'"')) [
    | inl e ↦ rw e (decode_body_pair b'"' cs ∙ unfold str_escape in cc ((==_iff c b'"').0 e))
    | inr m ↦ rw m (elim (Bool-cases (c == b'\\')) [
      | inl e ↦ rw e (decode_body_pair b'\\' cs ∙ unfold str_escape in cc ((==_iff c b'\\').0 e))
      | inr k ↦ rw k (decode_body-cons c cs k)
    ])
  ])
]

decode_body-written : (s : Bytes) → decode_body (written s) ≡ s
unfolding written
decode_body-written [] = unfold decode_body in refl
decode_body-written (c ∷ cs) =
    decode_body-written_byte c (written cs) ∙ ap (◌∷◌ c) (decode_body-written cs)

between_quotes : (body : Bytes) → take (length body) (body ++ b'"' ∷ []) ≡ body
between_quotes body = take-length body (b'"' ∷ [])

-- `decode_str` takes off one byte in front and one behind.
pub decode_str-quoted :
    (q : ℕ) (body : Bytes) → decode_str (q ∷ (body ++ b'"' ∷ [])) ≡ decode_body body
unfolding decode_str
decode_str-quoted q body =
    let len : suc (length (body ++ b'"' ∷ [])) - 2 ≡ length body =
      omega (arith, length-append body (b'"' ∷ [])) in
    let long : leb (suc (length (body ++ b'"' ∷ []))) 1 ≡ false =
      ground (arith, length-append body (b'"' ∷ [])) in
    rw (long, len) (ap decode_body (between_quotes body))

-- `decode_str` gives back every byte string from the literal that is written for it.
pub decode_str-string_literal : (s : Bytes) → decode_str (string_literal s) ≡ s
decode_str-string_literal s = decode_str-quoted b'"' (written s) ∙ decode_body-written s
