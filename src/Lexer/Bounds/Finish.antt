-- ===== src/Lexer/Bounds/Finish.antt =====
-- The end of the input in qbebasedcompiler/src/Lexer.c: only the end of the buffer, or an error
-- before, gives `tok_eof`; it is reached, and it stays.
use micro_colorschemes.Prelude.{
  ℕ, zero, suc, ◌-◌, ◌≤◌, ◌<◌, ◌≡◌, ◌≢◌, refl, sym, ap, ◌∙◌, ◌⊎◌, inl, inr, Bool, true, false, ◌||◌,
  [], ◌∷◌, Bytes, none, some, arith, ◌==◌, if◌then◌else◌, length, take, Bool-cases, Option-cases,
  iterate,
}
use micro_colorschemes.Token.{TokenKind, Ptr, Token, tok_eof, tok_strlit, tok_charlit}
use micro_colorschemes.Token.Kinds.{kind_eq, kind_eq_iff}
use micro_colorschemes.Token.Keywords.Laws.{lookup_keyword-ne-eof}
use micro_colorschemes.Lexer.{
  Lexer, peek, peek2, move, make_token, is_alpha, is_digit, skip_while, is_word,
}
use micro_colorschemes.Lexer.Trivia.{trivia_step, skip_trivia}
use micro_colorschemes.Lexer.Quoted.{quoted_loop, lex_string, lex_char}
use micro_colorschemes.Lexer.Word.{literal_prefix, word_kind, lex_word, lex_prefixed, lex_ident}
use micro_colorschemes.Lexer.Number.{at_hex, lex_hex, lex_dec, finish_number, lex_number}
use micro_colorschemes.Lexer.Punct.{punct, lex_punct}
use micro_colorschemes.Lexer.Next.{dispatch, scan_token, next_token, after_tokens}
use micro_colorschemes.Lexer.Bounds.{IsValid, Scans-refl, length-view, skip_bytes-IsAt}
use micro_colorschemes.Lexer.Bounds.Trivia.{skip_trivia-Passes, trivia_step-skip_trivia}
use micro_colorschemes.Lexer.Bounds.Next.{IsValid-Passes, next_token-IsTokenOf}
use micro_colorschemes.Lexer.Bounds.Tokens.{dispatch-Emits}

-- The token is not the end.
data IsMore : Token × Lexer → Type 0 where
  more : {r : Token × Lexer} → r.0.kind ≢ tok_eof → IsMore r

IsMore-ne-eof : {r : Token × Lexer} → IsMore r → r.0.kind ≢ tok_eof
IsMore-ne-eof (more h) = h

IsMore-if : {A B : Token × Lexer} (b : Bool) → IsMore A → IsMore B → IsMore (if b then A else B)
IsMore-if true p q = p
IsMore-if false p q = q

quoted_loop-IsMore :
    (quote : ℕ) (kind : TokenKind) (start : Ptr) (escaped : Bool) (bs : Bytes) (L : Lexer)
    → kind ≢ tok_eof
    → IsMore (quoted_loop quote kind start escaped bs L)
unfolding quoted_loop
quoted_loop-IsMore quote kind start escaped [] L h = more (cc)
quoted_loop-IsMore quote kind start true (c ∷ cs) L h =
    quoted_loop-IsMore quote kind start false cs (move 1 L) h
quoted_loop-IsMore quote kind start false (c ∷ cs) L h = IsMore-if (c == quote) (more h) (
    IsMore-if (c == b'\n') (more (cc))
      (quoted_loop-IsMore quote kind start (c == b'\\') cs (move 1 L) h))

word_kind-ne-eof : (w : Bytes) → word_kind w ≢ tok_eof
unfolding word_kind
word_kind-ne-eof w = ground (arith, lookup_keyword-ne-eof w)

lex_word-IsMore : (L : Lexer) (start : Ptr) → IsMore (lex_word L start)
unfolding lex_word
lex_word-IsMore L start = more (word_kind-ne-eof (take (L.cur.offset - start.offset) start.bytes))

lex_string-IsMore : (L : Lexer) (start : Ptr) → IsMore (lex_string L start)
unfolding lex_string
lex_string-IsMore L start = quoted_loop-IsMore b'"' tok_strlit start false L.cur.bytes L (cc)

lex_char-IsMore : (L : Lexer) (start : Ptr) → IsMore (lex_char L start)
unfolding lex_char
lex_char-IsMore L start = quoted_loop-IsMore b'\'' tok_charlit start false L.cur.bytes L (cc)

lex_prefixed-IsMore : (L : Lexer) (start : Ptr) → IsMore (lex_prefixed L start)
unfolding lex_prefixed
lex_prefixed-IsMore L start =
    IsMore-if (peek L == b'"' || peek L == b'\'')
      (IsMore-if (literal_prefix start.bytes (L.cur.offset - start.offset) (peek L) == 0)
        (lex_word-IsMore L start)
        (IsMore-if (peek L == b'"') (lex_string-IsMore (move 1 L) start)
          (lex_char-IsMore (move 1 L) start)))
      (lex_word-IsMore L start)

punct-ne-eof :
    (c d e : ℕ) (n : ℕ) (kind : TokenKind) → punct c d e ≡ some (kind, n) → kind ≢ tok_eof
unfolding punct
punct-ne-eof c d e n kind h = ground arith

lex_punct-IsMore : (L : Lexer) (start : Ptr) (c : ℕ) → IsMore (lex_punct L start c)
unfolding lex_punct
lex_punct-IsMore L start c = elim (Option-cases (punct c (peek L) (peek2 L))) [
  | inl e ↦ rw (e, lex_punct) (more (cc))
  | inr ((kind, n), e) ↦ rw (e, lex_punct) (more (punct-ne-eof c (peek L) (peek2 L) n kind e))
]

finish_number-IsMore : (start : Ptr) (r : Bool × Lexer) → IsMore (finish_number start r)
unfolding finish_number
finish_number-IsMore start (true, L) = more (cc)
finish_number-IsMore start (false, L) = more (cc)

dispatch-IsMore : (c : ℕ) (start : Ptr) (L : Lexer) → IsMore (dispatch c start L)
unfolding dispatch lex_ident lex_number
dispatch-IsMore c start L =
    IsMore-if (is_alpha c || c == b'_') (lex_prefixed-IsMore (skip_while is_word L) start) (
      IsMore-if (is_digit c)
        (finish_number-IsMore start (if at_hex L start then lex_hex L else lex_dec L))
        (IsMore-if (c == b'"') (lex_string-IsMore L start)
          (IsMore-if (c == b'\'') (lex_char-IsMore L start) (lex_punct-IsMore L start c))))

-- Behind the trivia only the end of the buffer is the end.
scan_token-eof :
    (bs : Bytes) (L : Lexer)
    → (scan_token bs L).0.kind ≡ tok_eof
    → (bs ≡ []) × (scan_token bs L ≡ (make_token L tok_eof L.cur, L))
unfolding scan_token
scan_token-eof [] L e = (refl, refl)
scan_token-eof (c ∷ cs) L e = absurd (IsMore-ne-eof (dispatch-IsMore c L.cur (move 1 L)) e)

iterate_stopped : (f : ℕ) (L : Lexer) → trivia_step L ≡ none → iterate f trivia_step L ≡ L
unfolding iterate
iterate_stopped zero L e = refl
iterate_stopped (suc f) L e = rw (e, iterate)

skip_trivia_idem : (L : Lexer) → skip_trivia (skip_trivia L) ≡ skip_trivia L
skip_trivia_idem L =
    let M = skip_trivia L in
    unfold skip_trivia in iterate_stopped (suc (length M.cur.bytes)) M (trivia_step-skip_trivia L)

-- Where nothing but trivia is left, the end is returned at the end of the buffer.
at_end :
    (L : Lexer)
    → (skip_trivia L).cur.bytes ≡ []
    → L.had_error ≡ false
    → next_token L ≡ (make_token (skip_trivia L) tok_eof (skip_trivia L).cur, skip_trivia L)
unfolding next_token scan_token
at_end L empty no_error = simp no_error (ap (λ bs. scan_token bs (skip_trivia L)) empty)

after_error : (L : Lexer) → L.had_error ≡ true → next_token L ≡ (make_token L tok_eof L.cur, L)
unfolding next_token
after_error L e = simp e

-- The states in which `tok_eof` is returned.
eof_cases :
    (L : Lexer)
    → (next_token L).0.kind ≡ tok_eof
    → (L.had_error ≡ true) ⊎ ((L.had_error ≡ false) × ((skip_trivia L).cur.bytes ≡ []))
unfolding next_token
eof_cases L e = elim (Bool-cases L.had_error) [
  | inl t ↦ inl t
  | inr t ↦ inr (t, (scan_token-eof (skip_trivia L).cur.bytes (skip_trivia L) (simp t at e)).0)
]

-- A call behind one that returned the end returns the same token and leaves the same lexer.
pub next_token-eof_again :
    (L : Lexer) → (next_token L).0.kind ≡ tok_eof → next_token (next_token L).1 ≡ next_token L
next_token-eof_again L e = elim (eof_cases L e) [
  | inl t ↦ ap (λ r. next_token r.1) (after_error L t)
  | inr (t, empty) ↦
      let S = skip_trivia L in
      let now = at_end L empty t in
      elim (Bool-cases S.had_error) [
        | inl bad ↦ ap (λ r. next_token r.1) now ∙ after_error S bad ∙ sym now
        | inr good ↦
            let same = skip_trivia_idem L in
            ap (λ r. next_token r.1) now
            ∙ at_end S (ap (λ M. M.cur.bytes) same ∙ empty) good
            ∙ rw same (sym now)
      ]
]

scan_token-len_pos :
    (bs : Bytes) {L : Lexer}
    → IsValid L
    → L.cur.bytes ≡ bs
    → (scan_token bs L).0.kind ≢ tok_eof
    → 0 < (scan_token bs L).0.len
unfolding scan_token
scan_token-len_pos [] v e ne = absurd (ne refl)
scan_token-len_pos (c ∷ cs) {L} v e ne =
    let behind = skip_bytes-IsAt 1 (omega (arith, ap length e)) v.cursor in
    let t = dispatch-Emits c L.cur (Scans-refl {L = move 1 L} behind) in
    omega (arith, t.reaches, t.scans.onward)

-- From a valid lexer, every token but the end takes a byte at least.
pub next_token-len_pos :
    (L : Lexer) → IsValid L → (next_token L).0.kind ≢ tok_eof → 0 < (next_token L).0.len
unfolding next_token
next_token-len_pos L v ne = elim (Bool-cases L.had_error) [
  | inl e ↦ absurd (ne (ap (λ (r : Token × Lexer). r.0.kind) (after_error L e)))
  | inr e ↦
      let valid = IsValid-Passes v (skip_trivia-Passes L) in
      simp e (scan_token-len_pos (skip_trivia L).cur.bytes valid refl (simp e at ne))
]

after_tokens-stays : (n : ℕ) (L : Lexer) → (next_token L).1 ≡ L → after_tokens n L ≡ L
unfolding after_tokens
after_tokens-stays zero L e = refl
after_tokens-stays (suc n) L e = rw e (after_tokens-stays n L e)

pub fewer_left :
    (L : Lexer)
    → IsValid L
    → (next_token L).0.kind ≢ tok_eof
    → length (next_token L).1.cur.bytes < length L.cur.bytes
fewer_left L v ne =
    let t = next_token-IsTokenOf L v in
    omega (
      arith,
      next_token-len_pos L v ne,
      t.onward,
      t.reaches,
      length-view v.cursor,
      length-view t.valid.cursor,
      ap (λ (p : Ptr). length p.bytes) t.same_src,
    )

kind-cases : (k : TokenKind) → (k ≡ tok_eof) ⊎ (k ≢ tok_eof)
kind-cases k = elim (Bool-cases (kind_eq k tok_eof)) [
  | inl t ↦ inl ((kind_eq_iff k tok_eof).0 t)
  | inr f ↦ inr (λ e. cc (f, (kind_eq_iff k tok_eof).1 e))
]

eof_within :
    (n : ℕ) (L : Lexer)
    → IsValid L
    → length L.cur.bytes ≤ n
    → (next_token (after_tokens n L)).0.kind ≡ tok_eof
unfolding after_tokens
eof_within zero L v h = elim (kind-cases (next_token L).0.kind) [
  | inl e ↦ e
  | inr ne ↦ absurd (omega (arith, fewer_left L v ne))
]
eof_within (suc n) L v h = elim (kind-cases (next_token L).0.kind) [
  | inl e ↦
      let again = next_token-eof_again L e in
      let stays = after_tokens-stays n (next_token L).1 (ap (λ (r : Token × Lexer). r.1) again) in
      ap (λ M. (next_token M).0.kind) stays ∙ ap (λ (r : Token × Lexer). r.0.kind) again ∙ e
  | inr ne ↦
      eof_within n (next_token L).1 (next_token-IsTokenOf L v).valid
        (omega (arith, fewer_left L v ne))
]

-- From a valid lexer, after as many tokens as there are bytes left at the cursor, the next token is
-- the end.
pub after_tokens-eof :
    (L : Lexer) → IsValid L → (next_token (after_tokens (length L.cur.bytes) L)).0.kind ≡ tok_eof
after_tokens-eof L v = eof_within (length L.cur.bytes) L v (omega arith)
