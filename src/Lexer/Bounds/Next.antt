-- ===== src/Lexer/Bounds/Next.antt =====
-- `next_token` of qbebasedcompiler/src/Lexer.c: the token lies in the buffer between the old and
-- the new cursor, every other token than the end takes a byte, and the end is reached and stays.
use micro_colorschemes.Prelude.{
  ◌+◌, ◌≤◌, ◌≡◌, refl, sym, ap, ◌∙◌, subst, inl, inr, [], ◌∷◌, ◌++◌, Bytes, arith, length,
  length-append, append_assoc, Bool-cases,
}
use micro_colorschemes.Token.{Ptr, Token, tok_eof}
use micro_colorschemes.Lexer.{Lexer, move, make_token}
use micro_colorschemes.Lexer.Trivia.{skip_trivia}
use micro_colorschemes.Lexer.Next.{scan_token, next_token}
use micro_colorschemes.Lexer.Bounds.{IsAt, IsValid, Scans, Emits, skip_bytes-IsAt}
use micro_colorschemes.Lexer.Bounds.Trivia.{
  newlines, newlines-append, Passes, Passes-IsAt, skip_trivia-Passes,
}
use micro_colorschemes.Lexer.Bounds.Tokens.{dispatch-Emits}

-- A token and the lexer behind it, read from `L`: the bytes `passed` lie between the cursor of `L` and
-- the token, which ends at the new cursor. Its line is that of `L` and one more for each newline
-- passed; its column (from 1) is counted from the `line_start` of the lexer.
pub record IsTokenOf (L : Lexer) (r : Token × Lexer) : Type 0 where
  pub valid : IsValid r.1
  pub same_src : r.1.src ≡ L.src
  pub begins : IsAt L.src.bytes r.0.start
  pub passed : Bytes
  pub splits : L.cur.bytes ≡ passed ++ r.0.start.bytes
  pub follows : r.0.start.offset ≡ L.cur.offset + length passed
  pub counted : r.0.line ≡ L.line + newlines passed
  pub onward : L.cur.offset ≤ r.0.start.offset
  pub reaches : r.0.start.offset + r.0.len ≡ r.1.cur.offset
  pub on_line : r.0.line ≡ r.1.line
  pub in_col : r.0.col + r.1.line_start.offset ≡ r.0.start.offset + 1

pub IsValid-Passes : {L L' : Lexer} → IsValid L → Passes L L' → IsValid L'
IsValid-Passes {L} {L'} v p = record {
  cursor = rw p.same_src (Passes-IsAt p v.cursor);
  line_begun = elim p.begun [
    | inl e ↦ rw e (omega (arith, p.moved, v.line_begun))
    | inr (_, h) ↦ h
  ];
}

-- The end of the buffer as a token.
eof-IsTokenOf : {L : Lexer} → IsValid L → IsTokenOf L (make_token L tok_eof L.cur, L)
eof-IsTokenOf v = record {
  valid = v;
  same_src = refl;
  begins = v.cursor;
  passed = [];
  splits = refl;
  follows = omega arith;
  counted = omega arith;
  onward = omega arith;
  reaches = omega arith;
  on_line = refl;
  in_col = omega (arith, v.line_begun);
}

Emits-IsTokenOf : {L : Lexer} {r : Token × Lexer} → IsValid L → Emits L L.cur r → IsTokenOf L r
Emits-IsTokenOf {L} {r} v e = record {
  valid = record {
    cursor = rw e.scans.same_src e.scans.cursor;
    line_begun = rw e.scans.same_line_start (omega (arith, v.line_begun, e.scans.onward));
  };
  same_src = e.scans.same_src;
  begins = rw e.starts v.cursor;
  passed = [];
  splits = ap (λ (p : Ptr). p.bytes) (sym e.starts);
  follows = rw e.starts (omega arith);
  counted = omega (arith, e.on_line);
  onward = rw e.starts (omega arith);
  reaches = rw (e.starts, e.reaches) (omega (arith, e.scans.onward));
  on_line = e.on_line ∙ sym e.scans.same_line;
  in_col = rw (e.in_col, e.scans.same_line_start, e.starts) (omega (arith, v.line_begun));
}

first_byte-Scans : {L : Lexer} → IsValid L → 1 ≤ length L.cur.bytes → Scans L (move 1 L)
first_byte-Scans v h = record {
  cursor = skip_bytes-IsAt 1 h v.cursor;
  onward = omega arith;
  same_src = refl;
  same_line = refl;
  same_line_start = refl;
}

scan_token-IsTokenOf :
    (bs : Bytes) {L : Lexer} → IsValid L → L.cur.bytes ≡ bs → IsTokenOf L (scan_token bs L)
unfolding scan_token
scan_token-IsTokenOf [] v e = eof-IsTokenOf v
scan_token-IsTokenOf (c ∷ cs) {L} v e =
    Emits-IsTokenOf v (dispatch-Emits c L.cur (first_byte-Scans v (omega (arith, ap length e))))

-- Whatever the source holds, `next_token` keeps a valid lexer valid, and the token it returns lies in
-- the buffer, from a place at or behind the old cursor up to the new one. Its line is the old line and
-- one more for each newline between the old cursor and the token, and its column is one more than its
-- distance from the `line_start` of the new lexer, wherever the code has put that.
pub next_token-IsTokenOf : (L : Lexer) → IsValid L → IsTokenOf L (next_token L)
unfolding next_token
next_token-IsTokenOf L v = elim (Bool-cases L.had_error) [
  | inl e ↦ simp e (eof-IsTokenOf v)
  | inr e ↦
      let p = skip_trivia-Passes L in
      let t' = (scan_token (skip_trivia L).cur.bytes (skip_trivia L)).0 in
      let t = scan_token-IsTokenOf (skip_trivia L).cur.bytes (IsValid-Passes v p) refl in
      simp e (record {
        valid = t.valid;
        same_src = t.same_src ∙ p.same_src;
        begins = subst (λ (s : Ptr). IsAt s.bytes t'.start) p.same_src t.begins;
        passed = p.read ++ t.passed;
        splits =
            p.splits
            ∙ ap (◌++◌ p.read) t.splits
            ∙ sym (append_assoc p.read t.passed t'.start.bytes);
        follows = omega (arith, p.moved, t.follows, length-append p.read t.passed);
        counted = omega (arith, p.counted, t.counted, newlines-append p.read t.passed);
        onward = omega (arith, p.moved, t.onward);
        reaches = t.reaches;
        on_line = t.on_line;
        in_col = t.in_col;
      })
]
