-- ===== src/Lexer/Number.antt =====
-- `lex_number` of qbebasedcompiler/src/Lexer.c.
use mathlib.Core.Option
use micro_colorschemes.Prelude.{
  ℕ, suc, Bool, true, false, ◌&&◌, ◌||◌, Option, none, some, ◌==◌, if◌then◌else◌, length, get_or,
  iterate,
}
use micro_colorschemes.Token.{Ptr, Token, tok_intlit, tok_floatlit}
use micro_colorschemes.Lexer.{
  Lexer, peek, peek2, move, make_token, scan_while, skip_while, is_digit, is_hex_digit,
}

abbrev pub skip_sign : Lexer → Lexer
skip_sign L = if peek L == b'+' || peek L == b'-' then move 1 L else L

-- A point and the digits behind it.
unfoldable pub lex_fraction : (ℕ → Bool) → Lexer → Bool × Lexer
unfolding scan_while
lex_fraction test L = if peek L == b'.' then (true, skip_while test (move 1 L)) else (false, L)

unfoldable pub hex_exponent : Bool × Lexer → Bool × Lexer
unfolding scan_while is_digit
hex_exponent (is_float, L) =
    if peek L == b'p' || peek L == b'P'
    then (true, skip_while is_digit (skip_sign (move 1 L)))
    else (is_float, L)

-- With no digit behind the `e` and its sign the cursor goes back.
unfoldable pub dec_exponent : Bool × Lexer → Bool × Lexer
unfolding scan_while is_digit
dec_exponent (is_float, L) =
    let behind = skip_sign (move 1 L) in
    if (peek L == b'e' || peek L == b'E') && is_digit (peek behind)
    then (true, skip_while is_digit behind)
    else (is_float, L)

unfoldable pub lex_hex : Lexer → Bool × Lexer
unfolding scan_while is_hex_digit lex_fraction hex_exponent
lex_hex L = hex_exponent (lex_fraction is_hex_digit (skip_while is_hex_digit (move 1 L)))

unfoldable pub lex_dec : Lexer → Bool × Lexer
unfolding scan_while is_digit lex_fraction dec_exponent
lex_dec L = dec_exponent (lex_fraction is_digit (skip_while is_digit L))

-- What one round of the suffix loop takes, with `peek` in `c` and `peek2` in `d`; `none` is its
-- `break`.
unfoldable pub suffix_len : Bool → ℕ → ℕ → Option ℕ
suffix_len is_float c d =
    if c == b'u' || c == b'U'
    then some 1
    else if c == b'l' || c == b'L'
    then some (if d == c then 2 else 1)
    else if (c == b'f' || c == b'F') && is_float
    then some 1
    else none

unfoldable pub suffix_step : Bool → Lexer → Option Lexer
unfolding suffix_len
suffix_step is_float L = Option.map (λ n. move n L) (suffix_len is_float (peek L) (peek2 L))

-- Each round takes a byte at least.
unfoldable pub skip_suffix : Bool → Lexer → Lexer
unfolding iterate suffix_step
skip_suffix is_float L = iterate (suc (length L.cur.bytes)) (suffix_step is_float) L

unfoldable pub finish_number : Ptr → Bool × Lexer → Token × Lexer
unfolding skip_suffix
finish_number start (is_float, L) =
    let kind = if is_float then tok_floatlit else tok_intlit in
    (make_token (skip_suffix is_float L) kind start, skip_suffix is_float L)

abbrev pub at_hex : Lexer → Ptr → Bool
at_hex L start = get_or start.bytes 0 0 == b'0' && (peek L == b'x' || peek L == b'X')

unfoldable pub lex_number : Lexer → Ptr → Token × Lexer
unfolding lex_hex lex_dec finish_number
lex_number L start = finish_number start (if at_hex L start then lex_hex L else lex_dec L)
