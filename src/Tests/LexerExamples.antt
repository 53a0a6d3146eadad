-- ===== src/Tests/LexerExamples.antt =====
-- The theorems on Lexer.c, on literals and on the arena at small inputs.
use micro_colorschemes.Prelude.{
  map, ◌∷◌, ◌<◌, ◌≡◌, ◌≢◌, ◌↔◌, refl, sym, ◌∙◌, false, [], ◌++◌, Bytes, codes, none, some,
  if◌then◌else◌, ◌==◌, ◌+◌, length, arith,
}
use micro_colorschemes.Token.{tok_eof, tok_other, tok_while, tok_shleq}
use micro_colorschemes.Token.Keywords.{lookup_keyword}
use micro_colorschemes.Token.Keywords.Laws.{lookup_keyword_iff}
use micro_colorschemes.Token.Spelling.{keyword_text}
use micro_colorschemes.Lexer.{Lexer, lexer_init, move, peek}
use micro_colorschemes.Lexer.Trivia.{skip_trivia, trivia_step}
use micro_colorschemes.Lexer.Punct.{punct, lex_punct}
use micro_colorschemes.Lexer.Punct.Munch.{lex_punct-IsLongest, IsLongest}
use micro_colorschemes.Lexer.Next.{next_token, scan_token, after_tokens}
use micro_colorschemes.Lexer.Bounds.{lexer_init-IsValid}
use micro_colorschemes.Lexer.Bounds.Trivia.{Passes, skip_trivia-Passes, trivia_step-skip_trivia}
use micro_colorschemes.Lexer.Bounds.Next.{IsTokenOf, next_token-IsTokenOf}
use micro_colorschemes.Lexer.Bounds.Finish.{after_tokens-eof, next_token-len_pos}
use micro_colorschemes.Literal.{decode_int, decode_str, char_escape, str_escape}
use micro_colorschemes.Literal.Radix.{decode_int-literals, decimal_text, octal_text, hex_text}
use micro_colorschemes.Literal.Strings.{decode_str-string_literal, string_literal}
use micro_colorschemes.Literal.Escapes.{char_escape-eq-str_escape_iff, is_control_letter}
use micro_colorschemes.Ast.Arena.{arena_alloc, arena_alloc-IsFresh, IsFresh, round_up, used_at}

abbrev shift_text : Bytes
shift_text = codes " <<=1"

abbrev shift_lexer : Lexer
shift_lexer = lexer_init shift_text []

abbrev blank_lexer : Lexer
blank_lexer = lexer_init (codes " \n") []

next_token-IsTokenOf_example : IsTokenOf shift_lexer (next_token shift_lexer)
next_token-IsTokenOf_example = next_token-IsTokenOf shift_lexer (lexer_init-IsValid shift_text [])

after_tokens-eof_example :
    (next_token (after_tokens (length shift_lexer.cur.bytes) shift_lexer)).0.kind ≡ tok_eof
after_tokens-eof_example = after_tokens-eof shift_lexer (lexer_init-IsValid shift_text [])

shift_kind : (next_token shift_lexer).0.kind ≡ tok_shleq
unfolding lexer_init next_token skip_trivia scan_token punct
shift_kind = refl

shleq-ne-eof : tok_shleq ≢ tok_eof
shleq-ne-eof e = cc

shift_first : (next_token shift_lexer).0.kind ≢ tok_eof
shift_first e = shleq-ne-eof (sym shift_kind ∙ e)

next_token-len_pos_example : 0 < (next_token shift_lexer).0.len
next_token-len_pos_example =
    next_token-len_pos shift_lexer (lexer_init-IsValid shift_text []) shift_first

blank_end : (next_token blank_lexer).0.kind ≡ tok_eof
unfolding lexer_init next_token skip_trivia scan_token
blank_end = refl

trivia_step-skip_trivia_example : trivia_step (skip_trivia shift_lexer) ≡ none
trivia_step-skip_trivia_example = trivia_step-skip_trivia shift_lexer

skip_trivia-Passes_example : Passes blank_lexer (skip_trivia blank_lexer)
skip_trivia-Passes_example = skip_trivia-Passes blank_lexer

abbrev punct_lexer : Lexer
punct_lexer = record {
  src = record { offset = 0; bytes = codes "<<=1" };
  cur = record { offset = 0; bytes = codes "<<=1" };
  line_start = record { offset = 0; bytes = codes "<<=1" };
  line = 1;
  filename = [];
  had_error = false;
}

lex_punct-IsLongest_example :
    IsLongest
      (length (codes "<<="))
      (codes "<<=" ++ codes "1")
      (lex_punct (move 1 punct_lexer) punct_lexer.cur (peek punct_lexer))
lex_punct-IsLongest_example =
    lex_punct-IsLongest tok_shleq (codes "<<=") (codes "1") punct_lexer refl refl

while-ne-other : tok_while ≢ tok_other
while-ne-other e = cc

lookup_keyword_iff_example :
    (lookup_keyword (codes "while") ≡ tok_while) ↔ (keyword_text tok_while ≡ some (codes "while"))
lookup_keyword_iff_example = lookup_keyword_iff (codes "while") tok_while while-ne-other

decode_int-literals_example :
    (decode_int (decimal_text 300) ≡ (300, false, false))
    × (decode_int (octal_text 300) ≡ (300, false, false))
    × (decode_int (hex_text 300) ≡ (300, false, false))
decode_int-literals_example = decode_int-literals 300 (omega arith)

decode_str-string_literal_example : decode_str (string_literal (codes "a\n\"")) ≡ codes "a\n\""
decode_str-string_literal_example = decode_str-string_literal (codes "a\n\"")

char_escape-eq-str_escape_iff_example :
    ((char_escape b'v' ≡ str_escape b'v') ↔ (is_control_letter b'v' ≡ false))
    × (map char_escape (codes "abfv") ≡ 7 ∷ 8 ∷ 12 ∷ 11 ∷ [])
    × (map str_escape (codes "abfv") ≡ codes "abfv")
char_escape-eq-str_escape_iff_example = char_escape-eq-str_escape_iff b'v'

arena_alloc-IsFresh_example :
    let (p, a') = arena_alloc [] 100 in
    IsFresh 100 [] p a'
    × (used_at a' 0 ≡ (if 0 == p.block then p.at + round_up 100 else used_at [] 0))
arena_alloc-IsFresh_example = arena_alloc-IsFresh [] 100 0 tt (omega arith)
