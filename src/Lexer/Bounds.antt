-- ===== src/Lexer/Bounds.antt =====
-- Where the cursor stands: predicates on the lexer of qbebasedcompiler/src/Lexer.c, and that the
-- simple moves keep them. The children prove the functions of the `lex_*` family and `next_token`.
pub mod Trivia
pub mod Tokens
pub mod Next
pub mod Finish
use micro_colorschemes.Prelude.{
  ℕ, suc, ◌+◌, ◌-◌, ◌≤◌, ◌<◌, ◌≡◌, refl, sym, ap, ◌∙◌, Bool, true, false, [], ◌∷◌, Bytes, arith,
  if◌then◌else◌, length, get_or, drop, length-drop, drop-drop, Bool-cases,
}
use micro_colorschemes.Token.{TokenKind, Ptr, Token}
use micro_colorschemes.Lexer.{
  Lexer, skip_bytes, move, newline, set_error, make_token, lexer_init, scan_while, skip_while,
}

-- The pointer stands in the buffer or at its end, and shows what is there.
pub record IsAt (src : Bytes) (p : Ptr) : Type 0 where
  pub inside : p.offset ≤ length src
  pub view : p.bytes ≡ drop p.offset src

-- Between two calls of `next_token`.
pub record IsValid (L : Lexer) : Type 0 where
  pub cursor : IsAt L.src.bytes L.cur
  pub line_begun : L.line_start.offset ≤ L.cur.offset

-- `L'` comes from `L` inside one token: the cursor went on, and no line ended.
pub record Scans (L L' : Lexer) : Type 0 where
  pub cursor : IsAt L.src.bytes L'.cur
  pub onward : L.cur.offset ≤ L'.cur.offset
  pub same_src : L'.src ≡ L.src
  pub same_line : L'.line ≡ L.line
  pub same_line_start : L'.line_start ≡ L.line_start

-- The token reaches from `start` to the cursor behind it, at the line and column of `start`.
pub record Emits (L : Lexer) (start : Ptr) (r : Token × Lexer) : Type 0 where
  pub scans : Scans L r.1
  pub starts : r.0.start ≡ start
  pub reaches : r.0.len ≡ r.1.cur.offset - start.offset
  pub on_line : r.0.line ≡ L.line
  pub in_col : r.0.col ≡ start.offset - L.line_start.offset + 1

pub length-view : {src : Bytes} {p : Ptr} → IsAt src p → length p.bytes + p.offset ≡ length src
length-view {src} {p} a = omega (arith, length-drop p.offset src, ap length a.view, a.inside)

pub skip_bytes-IsAt :
    {src : Bytes} {p : Ptr} (n : ℕ) → n ≤ length p.bytes → IsAt src p → IsAt src (skip_bytes n p)
skip_bytes-IsAt {src} {p} n h a = record {
  inside = omega (arith, length-view a);
  view = ap (drop n) a.view ∙ drop-drop n p.offset src (p.offset + n) refl;
}

pub scan_while-le : (test : ℕ → Bool) (bs : Bytes) → scan_while test bs ≤ length bs
unfolding scan_while
scan_while-le test [] = omega arith
scan_while-le test (c ∷ cs) = ground (arith, scan_while-le test cs)

-- A byte that is not 0 stands before the end.
pub byte_left : (bs : Bytes) → 0 < get_or bs 0 0 → 1 ≤ length bs
byte_left [] h = absurd (omega arith)
byte_left (c ∷ bs) h = omega arith

pub bytes_left : (bs : Bytes) → 0 < get_or bs 1 0 → 2 ≤ length bs
bytes_left [] h = absurd (omega arith)
bytes_left (c ∷ []) h = absurd (omega arith)
bytes_left (c ∷ d ∷ bs) h = omega arith

module _ {L : Lexer} where
  pub move-Scans : {L' : Lexer} (n : ℕ) → n ≤ length L'.cur.bytes → Scans L L' → Scans L (move n L')
  move-Scans n h s = record {
    cursor = skip_bytes-IsAt n h s.cursor;
    onward = omega (arith, s.onward);
    same_src = s.same_src;
    same_line = s.same_line;
    same_line_start = s.same_line_start;
  }

  pub skip_while-Scans : {L' : Lexer} (test : ℕ → Bool) → Scans L L' → Scans L (skip_while test L')
  skip_while-Scans {L'} test s = move-Scans _ (scan_while-le test L'.cur.bytes) s

  pub set_error-Scans : {L' : Lexer} → Scans L L' → Scans L (set_error L')
  set_error-Scans s = record {
    cursor = s.cursor;
    onward = s.onward;
    same_src = s.same_src;
    same_line = s.same_line;
    same_line_start = s.same_line_start;
  }

  pub make_token-Emits :
      {L' : Lexer} (kind : TokenKind) (start : Ptr)
      → Scans L L'
      → Emits L start (make_token L' kind start, L')
  make_token-Emits kind start s = record {
    scans = s;
    starts = refl;
    reaches = refl;
    on_line = s.same_line;
    in_col = rw s.same_line_start;
  }

  pub Scans-if : {A B : Lexer} (b : Bool) → Scans L A → Scans L B → Scans L (if b then A else B)
  Scans-if true s t = s
  Scans-if false s t = t

  pub Emits-if :
      {start : Ptr} {A B : Token × Lexer} (b : Bool)
      → Emits L start A
      → Emits L start B
      → Emits L start (if b then A else B)
  Emits-if true s t = s
  Emits-if false s t = t

pub Scans-refl : {L : Lexer} → IsAt L.src.bytes L.cur → Scans L L
Scans-refl a = record {
  cursor = a;
  onward = omega arith;
  same_src = refl;
  same_line = refl;
  same_line_start = refl;
}

pub lexer_init-IsValid : (src filename : Bytes) → IsValid (lexer_init src filename)
unfolding lexer_init
lexer_init-IsValid src filename = record {
  cursor = record { inside = omega arith; view = refl };
  line_begun = omega arith;
}
