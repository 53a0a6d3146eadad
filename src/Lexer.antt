-- ===== src/Lexer.antt =====
-- The lexer of qbebasedcompiler/src/Lexer.c: its state, the reading of the next bytes, and
-- `make_token`. The children hold the `lex_*` family, `next_token` and what is proved of them.
--
-- `is_eof` is that no bytes are left at the cursor: `end` is the end of the buffer. An `L->cur++`
-- is `move 1`, which adds to the offset whether or not a byte is left.
pub mod Trivia
pub mod Quoted
pub mod Word
pub mod Punct
pub mod Number
pub mod Next
pub mod Bounds
use micro_colorschemes.Prelude.{
  ℕ, suc, ◌+◌, ◌-◌, Bool, true, false, not, ◌&&◌, ◌||◌, List, [], ◌∷◌, Bytes, leb, ◌==◌,
  if◌then◌else◌, length, get_or, drop,
}
use micro_colorschemes.Token.{TokenKind, Ptr, Token}

pub record Lexer : Type 0 where
  pub src : Ptr
  pub cur : Ptr
  pub line_start : Ptr
  pub line : ℕ
  pub filename : Bytes
  pub had_error : Bool

abbrev pub skip_bytes : ℕ → Ptr → Ptr
skip_bytes n p = record { offset = p.offset + n; bytes = drop n p.bytes }

abbrev pub peek : Lexer → ℕ
peek L = get_or L.cur.bytes 0 0

abbrev pub peek2 : Lexer → ℕ
peek2 L = get_or L.cur.bytes 1 0

abbrev pub peek3 : Lexer → ℕ
peek3 L = get_or L.cur.bytes 2 0

-- `L->cur += n`.
abbrev pub move : ℕ → Lexer → Lexer
move n L = record L { cur = skip_bytes n L.cur }

abbrev pub newline : Lexer → Lexer
newline L = record L { line = L.line + 1; line_start = L.cur }

abbrev pub set_error : Lexer → Lexer
set_error L = record L { had_error = true }

abbrev pub make_token : Lexer → TokenKind → Ptr → Token
make_token L kind start = record {
  kind = kind;
  start = start;
  len = L.cur.offset - start.offset;
  line = L.line;
  col = start.offset - L.line_start.offset + 1;
}

unfoldable pub lexer_init : Bytes → Bytes → Lexer
lexer_init src filename =
    let begin : Ptr = record { offset = 0; bytes = src } in
    record {
      src = begin;
      cur = begin;
      line_start = begin;
      line = 1;
      filename = filename;
      had_error = false;
    }

-- How many bytes in front satisfy a test.
pub scan_while : (ℕ → Bool) → Bytes → ℕ
scan_while test [] = 0
scan_while test (c ∷ cs) = if test c then suc (scan_while test cs) else 0

-- `while (test(peek(L))) L->cur++`, for a test that the byte 0, read at the end, fails.
abbrev pub skip_while : (ℕ → Bool) → Lexer → Lexer
skip_while test L = move (scan_while test L.cur.bytes) L

-- `isdigit`, `isalpha` and `isalnum` of the C locale.
abbrev within : ℕ → ℕ → ℕ → Bool
within lo hi c = leb lo c && leb c hi

unfoldable pub is_digit : ℕ → Bool
is_digit c = within b'0' b'9' c

unfoldable pub is_alpha : ℕ → Bool
is_alpha c = within b'a' b'z' c || within b'A' b'Z' c

-- What an identifier goes on with.
unfoldable pub is_word : ℕ → Bool
unfolding is_digit is_alpha
is_word c = is_alpha c || is_digit c || c == b'_'

unfoldable pub is_hex_digit : ℕ → Bool
unfolding is_digit
is_hex_digit c = is_digit c || within b'a' b'f' c || within b'A' b'F' c
