-- ===== src/Lexer/Quoted.antt =====
-- `lex_string` and `lex_char` of qbebasedcompiler/src/Lexer.c. Their `prefix` argument is unused.
use micro_colorschemes.Prelude.{ℕ, Bool, true, false, [], ◌∷◌, Bytes, ◌==◌, if◌then◌else◌}
use micro_colorschemes.Token.{TokenKind, Ptr, Token, tok_strlit, tok_charlit, tok_other}
use micro_colorschemes.Lexer.{Lexer, move, set_error, make_token}

-- `had_error` is set, and the token is of kind `tok_other`.
abbrev pub error_token : Ptr → Lexer → Token × Lexer
error_token start L = (make_token L tok_other start, set_error L)

-- The loop of both functions, for their quote and the kind that they return. The bytes are those
-- at the cursor. `escaped`: the byte before was a backslash, and the byte here is passed over unread.
unfoldable pub quoted_loop : ℕ → TokenKind → Ptr → Bool → Bytes → Lexer → Token × Lexer
quoted_loop quote kind start escaped [] L = error_token start L
quoted_loop quote kind start true (c ∷ cs) L = quoted_loop quote kind start false cs (move 1 L)
quoted_loop quote kind start false (c ∷ cs) L =
    let rest = quoted_loop quote kind start (c == b'\\') cs (move 1 L) in
    if c == quote
    then (make_token (move 1 L) kind start, move 1 L)
    else if c == b'\n'
    then error_token start L
    else rest

unfoldable pub lex_string : Lexer → Ptr → Token × Lexer
unfolding quoted_loop
lex_string L start = quoted_loop b'"' tok_strlit start false L.cur.bytes L

unfoldable pub lex_char : Lexer → Ptr → Token × Lexer
unfolding quoted_loop
lex_char L start = quoted_loop b'\'' tok_charlit start false L.cur.bytes L
