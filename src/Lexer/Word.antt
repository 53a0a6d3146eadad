-- ===== src/Lexer/Word.antt =====
-- `lex_ident` of qbebasedcompiler/src/Lexer.c: identifiers, keywords and prefixed literals.
use micro_colorschemes.Prelude.{ℕ, ◌-◌, ◌&&◌, ◌||◌, Bytes, ◌==◌, if◌then◌else◌, get_or, take}
use micro_colorschemes.Token.{TokenKind, Ptr, Token, tok_other, tok_ident}
use micro_colorschemes.Token.Kinds.{kind_eq}
use micro_colorschemes.Token.Keywords.{lookup_keyword}
use micro_colorschemes.Lexer.{Lexer, peek, move, make_token, scan_while, skip_while, is_word}
use micro_colorschemes.Lexer.Quoted.{lex_string, lex_char}

-- The prefix of a literal whose quote `q` follows the `plen` bytes at `s`, or 0.
unfoldable pub literal_prefix : Bytes → ℕ → ℕ → ℕ
literal_prefix s plen q =
    if plen == 1 && (get_or s 0 0 == b'L' || get_or s 0 0 == b'u' || get_or s 0 0 == b'U')
    then get_or s 0 0
    else if plen == 2 && get_or s 0 0 == b'u' && get_or s 1 0 == b'8' && q == b'"'
    then b'8'
    else 0

-- The kind of a word by the keyword table.
unfoldable pub word_kind : Bytes → TokenKind
unfolding kind_eq lookup_keyword
word_kind w = if kind_eq (lookup_keyword w) tok_other then tok_ident else lookup_keyword w

unfoldable pub lex_word : Lexer → Ptr → Token × Lexer
unfolding word_kind
lex_word L start =
    (make_token L (word_kind (take (L.cur.offset - start.offset) start.bytes)) start, L)

-- Behind the word: a quote makes it the prefix of a literal.
unfoldable pub lex_prefixed : Lexer → Ptr → Token × Lexer
unfolding literal_prefix lex_word lex_string lex_char
lex_prefixed L start =
    if peek L == b'"' || peek L == b'\''
    then (if literal_prefix start.bytes (L.cur.offset - start.offset) (peek L) == 0
        then lex_word L start
        else if peek L == b'"'
        then lex_string (move 1 L) start
        else lex_char (move 1 L) start)
    else lex_word L start

unfoldable pub lex_ident : Lexer → Ptr → Token × Lexer
unfolding lex_prefixed scan_while is_word
lex_ident L start = lex_prefixed (skip_while is_word L) start
