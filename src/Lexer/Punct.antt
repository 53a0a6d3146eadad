-- ===== src/Lexer/Punct.antt =====
-- `lex_punct` of qbebasedcompiler/src/Lexer.c.
pub mod Munch
use micro_colorschemes.Prelude.{ℕ, ◌&&◌, Option, none, some, ◌==◌, if◌then◌else◌}
use micro_colorschemes.Token.{
  TokenKind, Ptr, Token, tok_lbracket, tok_rbracket, tok_lparen, tok_rparen, tok_lbrace, tok_rbrace,
  tok_semi, tok_comma, tok_question, tok_colon, tok_tilde, tok_ellipsis, tok_dot, tok_arrow,
  tok_minusminus, tok_minuseq, tok_minus, tok_plusplus, tok_pluseq, tok_plus, tok_shleq, tok_shl,
  tok_leq, tok_lt, tok_shreq, tok_shr, tok_geq, tok_gt, tok_eqeq, tok_eq, tok_neq, tok_bang,
  tok_andand, tok_andeq, tok_amp, tok_oror, tok_oreq, tok_pipe, tok_xoreq, tok_caret, tok_stareq,
  tok_star, tok_slasheq, tok_slash, tok_percenteq, tok_percent, tok_hashhash, tok_hash,
}
use micro_colorschemes.Lexer.{Lexer, peek, peek2, move, make_token}
use micro_colorschemes.Lexer.Quoted.{error_token}

-- The switch on the byte `c`, with `peek` in `d` and `peek2` in `e`: the kind, and how many bytes
-- are taken behind `c`. `none` is the way out below the switch. It is cut in three: the punctuators
-- of one byte, those that start with `.`, `-`, `+`, `<` or `>`, and the rest.
unfoldable pub punct_rest : ℕ → ℕ → Option (TokenKind × ℕ)
punct_rest c d =
    if c == b'='
    then some (if d == b'=' then (tok_eqeq, 1) else (tok_eq, 0))
    else if c == b'!'
    then some (if d == b'=' then (tok_neq, 1) else (tok_bang, 0))
    else if c == b'&'
    then some
        (if d == b'&' then (tok_andand, 1) else if d == b'=' then (tok_andeq, 1) else (tok_amp, 0))
    else if c == b'|'
    then some
        (if d == b'|' then (tok_oror, 1) else if d == b'=' then (tok_oreq, 1) else (tok_pipe, 0))
    else if c == b'^'
    then some (if d == b'=' then (tok_xoreq, 1) else (tok_caret, 0))
    else if c == b'*'
    then some (if d == b'=' then (tok_stareq, 1) else (tok_star, 0))
    else if c == b'/'
    then some (if d == b'=' then (tok_slasheq, 1) else (tok_slash, 0))
    else if c == b'%'
    then some (if d == b'=' then (tok_percenteq, 1) else (tok_percent, 0))
    else if c == b'#'
    then some (if d == b'#' then (tok_hashhash, 1) else (tok_hash, 0))
    else none

unfoldable pub punct_long : ℕ → ℕ → ℕ → Option (TokenKind × ℕ)
unfolding punct_rest
punct_long c d e =
    if c == b'.'
    then some (if d == b'.' && e == b'.' then (tok_ellipsis, 2) else (tok_dot, 0))
    else if c == b'-'
    then some (
        if d == b'>'
        then (tok_arrow, 1)
        else if d == b'-'
        then (tok_minusminus, 1)
        else if d == b'='
        then (tok_minuseq, 1)
        else (tok_minus, 0))
    else if c == b'+'
    then some (
        if d == b'+'
        then (tok_plusplus, 1)
        else if d == b'='
        then (tok_pluseq, 1)
        else (tok_plus, 0))
    else if c == b'<'
    then some (
        if d == b'<' && e == b'='
        then (tok_shleq, 2)
        else if d == b'<'
        then (tok_shl, 1)
        else if d == b'='
        then (tok_leq, 1)
        else (tok_lt, 0))
    else if c == b'>'
    then some (
        if d == b'>' && e == b'='
        then (tok_shreq, 2)
        else if d == b'>'
        then (tok_shr, 1)
        else if d == b'='
        then (tok_geq, 1)
        else (tok_gt, 0))
    else punct_rest c d

unfoldable pub punct : ℕ → ℕ → ℕ → Option (TokenKind × ℕ)
unfolding punct_long
punct c d e =
    if c == b'['
    then some (tok_lbracket, 0)
    else if c == b']'
    then some (tok_rbracket, 0)
    else if c == b'('
    then some (tok_lparen, 0)
    else if c == b')'
    then some (tok_rparen, 0)
    else if c == b'{'
    then some (tok_lbrace, 0)
    else if c == b'}'
    then some (tok_rbrace, 0)
    else if c == b';'
    then some (tok_semi, 0)
    else if c == b','
    then some (tok_comma, 0)
    else if c == b'?'
    then some (tok_question, 0)
    else if c == b':'
    then some (tok_colon, 0)
    else if c == b'~'
    then some (tok_tilde, 0)
    else punct_long c d e

unfoldable pub lex_punct : Lexer → Ptr → ℕ → Token × Lexer
lex_punct L start c = elim (punct c (peek L) (peek2 L)) [
  | some (kind, n) ↦ (make_token (move n L) kind start, move n L)
  | none ↦ error_token start L
]
