-- ===== src/Lexer/Trivia.antt =====
-- `skip_trivia` of qbebasedcompiler/src/Lexer.c: white space, line splices and comments.
use micro_colorschemes.Prelude.{
  ℕ, suc, Bool, not, ◌&&◌, ◌||◌, [], ◌∷◌, Bytes, Option, none, some, ◌==◌, if◌then◌else◌, length,
  get_or, iterate,
}
use micro_colorschemes.Lexer.{
  Lexer, peek, peek2, peek3, move, newline, set_error, scan_while, skip_while,
}

-- Space, tab, carriage return, form feed and vertical tab.
abbrev pub is_blank : ℕ → Bool
is_blank c = c == b' ' || c == b'\t' || c == b'\r' || c == 12 || c == 11

abbrev pub not_newline : ℕ → Bool
not_newline c = not (c == b'\n')

-- A backslash before the end of a line.
abbrev pub at_splice : Lexer → Bool
at_splice L = peek L == b'\\' && (peek2 L == b'\n' || peek2 L == b'\r' && peek3 L == b'\n')

-- From the backslash to behind the end of its line.
unfoldable pub line_splice : Lexer → Lexer
line_splice L = newline (move (if peek2 L == b'\r' then 3 else 2) L)

unfoldable pub line_comment : Lexer → Lexer
unfolding scan_while
line_comment L = skip_while not_newline (move 2 L)

-- The loop inside a block comment; the bytes are those at the cursor.
unfoldable pub comment_body : Bytes → Lexer → Lexer
comment_body [] L = set_error L
comment_body (c ∷ cs) L =
    let rest = comment_body cs (move 1 (if c == b'\n' then newline L else L)) in
    if c == b'*' && get_or cs 0 0 == b'/' then move 2 L else rest

unfoldable pub block_comment : Lexer → Lexer
unfolding comment_body
block_comment L = let inside = move 2 L in comment_body inside.cur.bytes inside

-- One round of the loop; `none` is its `break`.
unfoldable pub trivia_step : Lexer → Option Lexer
unfolding line_splice line_comment block_comment
trivia_step L =
    if is_blank (peek L)
    then some (move 1 L)
    else if peek L == b'\n'
    then some (newline (move 1 L))
    else if at_splice L
    then some (line_splice L)
    else if peek L == b'/' && peek2 L == b'/'
    then some (line_comment L)
    else if peek L == b'/' && peek2 L == b'*'
    then some (block_comment L)
    else none

-- Each round takes a byte at least, so one round more than there are bytes is enough.
unfoldable pub skip_trivia : Lexer → Lexer
unfolding iterate trivia_step
skip_trivia L = iterate (suc (length L.cur.bytes)) trivia_step L
