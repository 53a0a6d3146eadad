-- ===== src/Lexer/Punct/Munch.antt =====
-- `lex_punct` (qbebasedcompiler/src/Lexer.c) takes the longest punctuator in front.
use micro_colorschemes.Prelude.{
  ℕ, zero, suc, ◌+◌, ◌-◌, ◌≢◌, inl, inr, drop, Option-cases, ◌≤◌, ◌≡◌, refl, sym, ap, ◌∙◌, subst,
  [], ◌∷◌, ◌++◌, Bytes, Option, none, some, arith, length, get_or, take,
}
use micro_colorschemes.Token.{TokenKind, Token, tok_eof}
use micro_colorschemes.Token.Spelling.{punct_text}
use micro_colorschemes.Lexer.Punct.{punct_rest, punct_long, punct, lex_punct}
use micro_colorschemes.Lexer.Bounds.Tokens.{punct-left}
use micro_colorschemes.Lexer.{Lexer, peek, move}

-- `punct` on the bytes in front: those of the switch and of its tests.
abbrev pub punct_at : Bytes → Option (TokenKind × ℕ)
punct_at [] = none
punct_at (c ∷ bs) = punct c (get_or bs 0 0) (get_or bs 1 0)

-- The result is spelled by `c` and at most two bytes behind it.
IsSpelled : ℕ → ℕ → ℕ → Option (TokenKind × ℕ) → Type 0
IsSpelled c d e none = Unit
IsSpelled c d e (some (kind, n)) =
    (punct_text kind ≡ some (take (suc n) (c ∷ d ∷ e ∷ []))) × (n ≤ 2)

punct_rest-IsSpelled : (c d e : ℕ) → IsSpelled c d e (punct_rest c d)
unfolding punct_rest IsSpelled
punct_rest-IsSpelled c d e = ground arith

punct_long-IsSpelled : (c d e : ℕ) → IsSpelled c d e (punct_long c d e)
unfolding punct_long IsSpelled
punct_long-IsSpelled c d e = ground arith

punct-IsSpelled : (c d e : ℕ) → IsSpelled c d e (punct c d e)
unfolding punct IsSpelled
punct-IsSpelled c d e = ground arith

-- What is taken when the text of `kind` stands in front: at least that text.
Covers : ℕ → Option (TokenKind × ℕ) → Type 0
Covers m none = ⊥
Covers m (some (kind, n)) = m ≤ suc n

abbrev CoversText : Option Bytes → Bytes → Type 0
CoversText none bs = Unit
CoversText (some t) bs = Covers (length t) (punct_at (t ++ bs))

covers_all : (kind : TokenKind) (bs : Bytes) → CoversText (punct_text kind) bs
unfolding punct Covers
covers_all tok_eof bs = tt
covers_all _ [] = omega arith
covers_all _ (d ∷ []) = ground arith
covers_all _ (d ∷ e ∷ bs) = ground arith

covers :
    (kind : TokenKind) (t bs : Bytes)
    → punct_text kind ≡ some t
    → Covers (length t) (punct_at (t ++ bs))
covers kind t bs e = subst (λ o. CoversText o bs) e (covers_all kind bs)

take_front :
    (n : ℕ) (bs : Bytes)
    → n ≤ 2
    → n ≤ length bs
    → take n (get_or bs 0 0 ∷ get_or bs 1 0 ∷ []) ≡ take n bs
take_front zero bs p q = refl
take_front (suc n) [] p q = absurd (omega arith)
take_front (suc zero) (c ∷ bs) p q = refl
take_front (suc (suc n)) (c ∷ []) p q = absurd (omega arith)
take_front (suc (suc zero)) (c ∷ d ∷ bs) p q = refl
take_front (suc (suc (suc n))) (c ∷ d ∷ bs) p q = absurd (omega arith)

-- The kind that `punct` finds is spelled by the bytes that it takes.
punct_found :
    (c : ℕ) (bs : Bytes) (kind : TokenKind) (n : ℕ)
    → punct c (get_or bs 0 0) (get_or bs 1 0) ≡ some (kind, n)
    → punct_text kind ≡ some (take (suc n) (c ∷ bs))
unfolding IsSpelled
punct_found c bs kind n e =
    let (spelled, few) = rw e at (punct-IsSpelled c (get_or bs 0 0) (get_or bs 1 0)) in
    spelled ∙ ap (λ t. some (c ∷ t)) (take_front n bs few (punct-left c bs kind n e))

no_empty : (kind : TokenKind) → punct_text kind ≢ some []
no_empty tok_eof = cc
no_empty _ = cc

-- A token is the longest punctuator in front of `bs`: spelled by its bytes, and no shorter than `m`.
abbrev pub IsLongest : ℕ → Bytes → Token × Lexer → Type 0
IsLongest m bs r = (punct_text r.0.kind ≡ some (take r.0.len bs)) × (m ≤ r.0.len)

IsLongest-of :
    (m c : ℕ) (bs : Bytes) (L : Lexer)
    → L.cur.bytes ≡ c ∷ bs
    → Covers m (punct c (get_or bs 0 0) (get_or bs 1 0))
    → IsLongest m (c ∷ bs) (lex_punct (move 1 L) L.cur c)
unfolding lex_punct Covers
IsLongest-of m c bs L e h =
    let here = ap (λ b. punct c (get_or (drop 1 b) 0 0) (get_or (drop 1 b) 1 0)) e in
    elim (Option-cases (punct c (get_or bs 0 0) (get_or bs 1 0))) [
      | inl n ↦ absurd (rw n at h)
      | inr ((kind, n), s) ↦
          let len : L.cur.offset + 1 + n - L.cur.offset ≡ suc n = omega arith in
          let found = punct_found c bs kind n s in
          rw (here ∙ s, lex_punct) (rw len (found, rw s at h))
    ]

-- Where the text of a punctuator stands at the cursor, `lex_punct` returns a punctuator that is
-- spelled by the bytes of its token and is at least as long: the longest one in front is taken.
pub lex_punct-IsLongest :
    (kind : TokenKind) (t rest : Bytes) (L : Lexer)
    → punct_text kind ≡ some t
    → L.cur.bytes ≡ t ++ rest
    → IsLongest (length t) (t ++ rest) (lex_punct (move 1 L) L.cur (peek L))
lex_punct-IsLongest kind [] rest L e h = absurd (no_empty kind e)
lex_punct-IsLongest kind (c ∷ t) rest L e h =
    subst (λ b. IsLongest (suc (length t)) (c ∷ (t ++ rest)) (lex_punct (move 1 L) L.cur b))
      (sym (ap (λ b. get_or b 0 0) h))
      (IsLongest-of (suc (length t)) c (t ++ rest) L h (covers kind (c ∷ t) rest e))
