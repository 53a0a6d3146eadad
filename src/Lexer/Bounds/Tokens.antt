-- ===== src/Lexer/Bounds/Tokens.antt =====
-- Every function of the `lex_*` family (qbebasedcompiler/src/Lexer.c) stays inside the buffer, on
-- its line, and returns the token from `start` to the cursor.
use micro_colorschemes.Prelude.{
  ℕ, suc, ◌-◌, ◌≤◌, ◌≡◌, refl, ap, inl, inr, Bool, true, false, ◌&&◌, ◌||◌, [], ◌∷◌, Bytes, some,
  arith, ◌==◌, length, get_or, drop, Bool-cases, subst, Option-cases, iterate_inv,
}
use micro_colorschemes.Token.{TokenKind, Ptr}
use micro_colorschemes.Lexer.{Lexer, peek, peek2, move, is_alpha, is_digit, is_hex_digit, is_word}
use micro_colorschemes.Lexer.Bounds.{
  byte_left, Scans, Emits, move-Scans, skip_while-Scans, set_error-Scans, make_token-Emits,
  Emits-if,
}
use micro_colorschemes.Lexer.Quoted.{error_token, quoted_loop, lex_string, lex_char}
use micro_colorschemes.Lexer.Word.{literal_prefix, lex_word, lex_prefixed, lex_ident}
use micro_colorschemes.Lexer.Number.{
  skip_sign, lex_fraction, hex_exponent, dec_exponent, lex_hex, lex_dec, suffix_len, suffix_step,
  skip_suffix, finish_number, at_hex, lex_number,
}
use micro_colorschemes.Lexer.Punct.{punct, lex_punct}
use micro_colorschemes.Lexer.Next.{dispatch}

-- A round of the suffix loop takes a byte at least, and no more than there are.
pub suffix_len-left :
    (f : Bool) (bs : Bytes) (n : ℕ)
    → suffix_len f (get_or bs 0 0) (get_or bs 1 0) ≡ some n
    → (1 ≤ n) × (n ≤ length bs)
unfolding suffix_len
suffix_len-left f [] n e = ground arith
suffix_len-left f (c ∷ []) n e = ground arith
suffix_len-left f (c ∷ d ∷ bs) n e = ground arith

-- `lex_punct` takes no more bytes than there are.
pub punct-left :
    (c : ℕ) (bs : Bytes) (kind : TokenKind) (n : ℕ)
    → punct c (get_or bs 0 0) (get_or bs 1 0) ≡ some (kind, n)
    → n ≤ length bs
unfolding punct
punct-left c [] kind n e = ground arith
punct-left c (d ∷ []) kind n e = ground arith
punct-left c (d ∷ e' ∷ bs) kind n e = ground arith

module _ {L : Lexer} (start : Ptr) where
  error_token-Emits : {L' : Lexer} → Scans L L' → Emits L start (error_token start L')
  error_token-Emits s = record {
    scans = set_error-Scans s;
    starts = refl;
    reaches = refl;
    on_line = s.same_line;
    in_col = rw s.same_line_start;
  }

  quoted_loop-Emits :
      (quote : ℕ) (kind : TokenKind) (escaped : Bool) (bs : Bytes) {L' : Lexer}
      → L'.cur.bytes ≡ bs
      → Scans L L'
      → Emits L start (quoted_loop quote kind start escaped bs L')
  unfolding quoted_loop
  quoted_loop-Emits quote kind escaped [] e s = error_token-Emits s
  quoted_loop-Emits quote kind true (c ∷ cs) e s =
      quoted_loop-Emits quote kind false cs (ap (drop 1) e)
        (move-Scans 1 (omega (arith, ap length e)) s)
  quoted_loop-Emits quote kind false (c ∷ cs) e s =
      let s' = move-Scans 1 (omega (arith, ap length e)) s in
      Emits-if (c == quote) (make_token-Emits kind start s') (
        Emits-if (c == b'\n') (error_token-Emits s)
          (quoted_loop-Emits quote kind (c == b'\\') cs (ap (drop 1) e) s'))

  lex_string-Emits : {L' : Lexer} → Scans L L' → Emits L start (lex_string L' start)
  unfolding lex_string
  lex_string-Emits s = quoted_loop-Emits _ _ _ _ refl s

  lex_char-Emits : {L' : Lexer} → Scans L L' → Emits L start (lex_char L' start)
  unfolding lex_char
  lex_char-Emits s = quoted_loop-Emits _ _ _ _ refl s

  lex_word-Emits : {L' : Lexer} → Scans L L' → Emits L start (lex_word L' start)
  unfolding lex_word
  lex_word-Emits s = make_token-Emits _ start s

  lex_prefixed-Emits : {L' : Lexer} → Scans L L' → Emits L start (lex_prefixed L' start)
  unfolding lex_prefixed
  lex_prefixed-Emits {L'} s = elim (Bool-cases (peek L' == b'"' || peek L' == b'\'')) [
    | inl e ↦
        let s' = move-Scans 1 (byte_left L'.cur.bytes (ground arith)) s in
        rw e (
          Emits-if (literal_prefix start.bytes (L'.cur.offset - start.offset) (peek L') == 0)
            (lex_word-Emits s)
            (Emits-if (peek L' == b'"') (lex_string-Emits s') (lex_char-Emits s')))
    | inr e ↦ rw e (lex_word-Emits s)
  ]

  lex_ident-Emits : {L' : Lexer} → Scans L L' → Emits L start (lex_ident L' start)
  unfolding lex_ident
  lex_ident-Emits s = lex_prefixed-Emits (skip_while-Scans is_word s)

module _ {L : Lexer} where
  skip_sign-Scans : {L' : Lexer} → Scans L L' → Scans L (skip_sign L')
  skip_sign-Scans {L'} s = elim (Bool-cases (peek L' == b'+' || peek L' == b'-')) [
    | inl e ↦ rw e (move-Scans 1 (byte_left L'.cur.bytes (ground arith)) s)
    | inr e ↦ rw e s
  ]

  lex_fraction-Scans :
      {L' : Lexer} (test : ℕ → Bool) → Scans L L' → Scans L (lex_fraction test L').1
  unfolding lex_fraction
  lex_fraction-Scans {L'} test s = elim (Bool-cases (peek L' == b'.')) [
    | inl e ↦ rw e (skip_while-Scans test (move-Scans 1 (byte_left L'.cur.bytes (ground arith)) s))
    | inr e ↦ rw e s
  ]

  hex_exponent-Scans : (r : Bool × Lexer) → Scans L r.1 → Scans L (hex_exponent r).1
  unfolding hex_exponent
  hex_exponent-Scans (f, L') s = elim (Bool-cases (peek L' == b'p' || peek L' == b'P')) [
    | inl e ↦
        let s' = move-Scans 1 (byte_left L'.cur.bytes (ground arith)) s in
        rw e (skip_while-Scans is_digit (skip_sign-Scans s'))
    | inr e ↦ rw e s
  ]

  dec_exponent-Scans : (r : Bool × Lexer) → Scans L r.1 → Scans L (dec_exponent r).1
  unfolding dec_exponent
  dec_exponent-Scans (f, L') s =
      let test = (peek L' == b'e' || peek L' == b'E') && is_digit (peek (skip_sign (move 1 L'))) in
      elim (Bool-cases test) [
        | inl e ↦
            let s' = move-Scans 1 (byte_left L'.cur.bytes (ground arith)) s in
            rw e (skip_while-Scans is_digit (skip_sign-Scans s'))
        | inr e ↦ rw e s
      ]

  lex_hex-Scans : {L' : Lexer} → 1 ≤ length L'.cur.bytes → Scans L L' → Scans L (lex_hex L').1
  unfolding lex_hex
  lex_hex-Scans h s =
      hex_exponent-Scans _
        (lex_fraction-Scans is_hex_digit (skip_while-Scans is_hex_digit (move-Scans 1 h s)))

  lex_dec-Scans : {L' : Lexer} → Scans L L' → Scans L (lex_dec L').1
  unfolding lex_dec
  lex_dec-Scans s = dec_exponent-Scans _ (lex_fraction-Scans is_digit (skip_while-Scans is_digit s))

  suffix_step-Scans : (f : Bool) (A B : Lexer) → Scans L A → suffix_step f A ≡ some B → Scans L B
  unfolding suffix_step
  suffix_step-Scans f A B s e = elim (Option-cases (suffix_len f (peek A) (peek2 A))) [
    | inl stop ↦ cc (rw stop at e)
    | inr (n, more) ↦
        let moved : some (move n A) ≡ some B = rw more at e in
        subst (Scans L) (cc) (move-Scans n (suffix_len-left f A.cur.bytes n more).1 s)
  ]

  skip_suffix-Scans : (f : Bool) {L' : Lexer} → Scans L L' → Scans L (skip_suffix f L')
  unfolding skip_suffix
  skip_suffix-Scans f {L'} s =
      iterate_inv (Scans L) (suffix_step f) (suffix_step-Scans f) (suc (length L'.cur.bytes)) L' s

  finish_number-Emits :
      (start : Ptr) (r : Bool × Lexer) → Scans L r.1 → Emits L start (finish_number start r)
  unfolding finish_number
  finish_number-Emits start (f, L') s = make_token-Emits _ start (skip_suffix-Scans f s)

  lex_number-Emits : {L' : Lexer} (start : Ptr) → Scans L L' → Emits L start (lex_number L' start)
  unfolding lex_number
  lex_number-Emits {L'} start s = elim (Bool-cases (at_hex L' start)) [
    | inl e ↦
        let left = byte_left L'.cur.bytes (ground arith) in
        rw e (finish_number-Emits start _ (lex_hex-Scans left s))
    | inr e ↦ rw e (finish_number-Emits start _ (lex_dec-Scans s))
  ]

  lex_punct-Emits :
      {L' : Lexer} (start : Ptr) (c : ℕ) → Scans L L' → Emits L start (lex_punct L' start c)
  unfolding lex_punct
  lex_punct-Emits {L'} start c s = elim (Option-cases (punct c (peek L') (peek2 L'))) [
    | inl e ↦ rw (e, lex_punct) (error_token-Emits start s)
    | inr ((kind, n), e) ↦
        rw (e, lex_punct)
          (make_token-Emits kind start (move-Scans n (punct-left c L'.cur.bytes kind n e) s))
  ]

  pub dispatch-Emits :
      {L' : Lexer} (c : ℕ) (start : Ptr) → Scans L L' → Emits L start (dispatch c start L')
  unfolding dispatch
  dispatch-Emits {L'} c start s = Emits-if (is_alpha c || c == b'_') (lex_ident-Emits start s) (
      Emits-if (is_digit c) (lex_number-Emits start s) (
        Emits-if (c == b'"') (lex_string-Emits start s)
          (Emits-if (c == b'\'') (lex_char-Emits start s) (lex_punct-Emits start c s))))
