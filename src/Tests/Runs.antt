-- ===== src/Tests/Runs.antt =====
-- Runs of the definitions on small inputs.
use micro_colorschemes.Prelude.{◌≡◌, refl, false, [], codes}
use micro_colorschemes.Token.{tok_shleq, tok_while}
use micro_colorschemes.Token.Keywords.{lookup_keyword}
use micro_colorschemes.Lexer.{lexer_init}
use micro_colorschemes.Lexer.Trivia.{skip_trivia}
use micro_colorschemes.Lexer.Punct.{punct}
use micro_colorschemes.Lexer.Next.{next_token, scan_token}
use micro_colorschemes.Literal.{
  decode_int, decode_digits, digit_value, decode_char, char_escape, decode_str, decode_body,
  str_escape,
}
use micro_colorschemes.Ast.{ty_int, ty_char, scalar}
use micro_colorschemes.Sema.Convert.{usual_arith}
use micro_colorschemes.Qbe.Strings.{escape_text}

first_shift : (next_token (lexer_init (codes " <<=1") [])).0.kind ≡ tok_shleq
unfolding lexer_init next_token skip_trivia scan_token punct
first_shift = refl

-- The comment's newline leaves the column one too large.
column_behind_comment : (next_token (lexer_init (codes "/*\n*/a") [])).0.col ≡ 4
unfolding lexer_init next_token skip_trivia scan_token
column_behind_comment = refl

keyword_while : lookup_keyword (codes "while") ≡ tok_while
unfolding lookup_keyword
keyword_while = refl

octal_literal : decode_int (codes "017") ≡ (15, false, false)
unfolding decode_int decode_digits digit_value
octal_literal = refl

char_newline : decode_char (codes "'\\n'") ≡ 10
unfolding decode_char char_escape
char_newline = refl

str_alarm : decode_str (codes "\"\\a\"") ≡ codes "a"
unfolding decode_str decode_body str_escape
str_alarm = refl

char_plus_int : usual_arith (scalar ty_char) (scalar ty_int) ≡ scalar ty_int
unfolding usual_arith
char_plus_int = refl

escaped_newline : escape_text (codes "a\n\u{1}") ≡ codes "a\\n\\001"
unfolding escape_text
escaped_newline = refl
