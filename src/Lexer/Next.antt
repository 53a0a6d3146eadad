-- ===== src/Lexer/Next.antt =====
-- `next_token` of qbebasedcompiler/src/Lexer.c.
use micro_colorschemes.Prelude.{ℕ, zero, suc, ◌||◌, [], ◌∷◌, Bytes, ◌==◌, if◌then◌else◌}
use micro_colorschemes.Token.{Ptr, Token, tok_eof}
use micro_colorschemes.Lexer.{Lexer, move, make_token, is_alpha, is_digit}
use micro_colorschemes.Lexer.Trivia.{skip_trivia}
use micro_colorschemes.Lexer.Quoted.{lex_string, lex_char}
use micro_colorschemes.Lexer.Word.{lex_ident}
use micro_colorschemes.Lexer.Number.{lex_number}
use micro_colorschemes.Lexer.Punct.{lex_punct}

-- By the first byte `c`, which is behind the cursor.
unfoldable pub dispatch : ℕ → Ptr → Lexer → Token × Lexer
unfolding is_alpha is_digit lex_ident lex_number lex_string lex_char lex_punct
dispatch c start L =
    if is_alpha c || c == b'_'
    then lex_ident L start
    else if is_digit c
    then lex_number L start
    else if c == b'"'
    then lex_string L start
    else if c == b'\''
    then lex_char L start
    else lex_punct L start c

-- Behind the trivia; the bytes are those at the cursor.
unfoldable pub scan_token : Bytes → Lexer → Token × Lexer
unfolding dispatch
scan_token [] L = (make_token L tok_eof L.cur, L)
scan_token (c ∷ cs) L = dispatch c L.cur (move 1 L)

unfoldable pub next_token : Lexer → Token × Lexer
next_token L =
    let L' = skip_trivia L in
    if L.had_error then (make_token L tok_eof L.cur, L) else scan_token L'.cur.bytes L'

-- The lexer after `n` tokens.
unfoldable pub after_tokens : ℕ → Lexer → Lexer
after_tokens zero L = L
after_tokens (suc n) L = after_tokens n (next_token L).1
