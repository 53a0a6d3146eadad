-- ===== src/Parser/State.antt =====
-- The state of the parser of qbebasedcompiler/src/parser.c and the functions that look at the next
-- tokens: `Parser`, `parse_advance` to `parse_add_typedef_name`.
--
-- A function of the source is a state monad over `Parser`. It is done, or it fails with a message
-- before `exit(1)`, or the model's fuel is at its end.
use micro_colorschemes.Prelude.{
  ℕ, ◌+◌, Bool, false, List, [], ◌∷◌, ◌++◌, Bytes, leb, length, bytes_eq, if◌then◌else◌, ◌||◌,
}
use micro_colorschemes.Token.{TokenKind, Token, token_text}
use micro_colorschemes.Token.Kinds.{kind_eq}
use micro_colorschemes.Lexer.{Lexer}
use micro_colorschemes.Lexer.Next.{next_token}
use micro_colorschemes.Ast.{Node}

-- `next_id` numbers the types that `new_type` makes. `union_value` is what `u.intlit.value` reads at
-- a node that is no integer literal: the front of its union, which may hold an address. It is a
-- parameter of the model and never changes.
pub record Parser : Type 0 where
  pub lex : Lexer
  pub cur : Token
  pub peek : Token
  pub typedefs : List Bytes
  pub next_id : ℕ
  pub union_value : Node → ℕ

-- What the message says and the token at which it stands: the kind that was expected, or none.
pub data ParseError : Type 0 where
  expected : TokenKind → Token → ParseError
  unexpected_token : Token → ParseError

pub data Outcome (A : Type 0) : Type 0 where
  done : A → Parser → Outcome A
  failed : ParseError → Outcome A
  no_fuel : Outcome A

abbrev pub Parse : Type 0 → Type 0
Parse A = Parser → Outcome A

abbrev pub then_parse : {A B : Type 0} → Outcome A → (A → Parse B) → Outcome B
then_parse (done a P) f = f a P
then_parse (failed e) f = failed e
then_parse no_fuel f = no_fuel

infixl 5 ◌>>=◌ ◌>>◌
unfoldable pub ◌>>=◌ : {A B : Type 0} → Parse A → (A → Parse B) → Parse B
◌>>=◌ m f P = then_parse (m P) f

unfoldable pub ◌>>◌ : {A B : Type 0} → Parse A → Parse B → Parse B
unfolding ◌>>=◌
m >> k = m >>= λ _. k

unfoldable pub pure : {A : Type 0} → A → Parse A
pure a P = done a P

unfoldable pub fail : {A : Type 0} → ParseError → Parse A
fail e P = failed e

unfoldable pub out_of_fuel : {A : Type 0} → Parse A
out_of_fuel P = no_fuel

-- A function that goes on by the kind of the current token.
unfoldable pub on_kind : {A : Type 0} → (TokenKind → Parse A) → Parse A
on_kind g P = g P.cur.kind P

unfoldable pub current : Parse Token
current P = done P.cur P

-- The state behind `parse_advance`.
unfoldable pub advanced : Parser → Parser
advanced P = record P { cur = P.peek; peek = (next_token P.lex).0; lex = (next_token P.lex).1 }

-- It returns the token that it passes, which the source reads before the call.
unfoldable pub parse_advance : Parse Token
unfolding advanced
parse_advance P = done P.cur (advanced P)

abbrev pub parse_check : TokenKind → Parser → Bool
parse_check k P = kind_eq P.cur.kind k

-- `if (parse_match(P, k)) there; else other;`.
unfoldable pub parse_match : {A : Type 0} → TokenKind → Parse A → Parse A → Parse A
unfolding parse_advance ◌>>=◌ ◌>>◌
parse_match k there other P = if parse_check k P then (parse_advance >> there) P else other P

-- `if (parse_check(P, k)) there; else other;`.
unfoldable pub if_check : {A : Type 0} → TokenKind → Parse A → Parse A → Parse A
if_check k there other P = if parse_check k P then there P else other P

-- A test that looks at more than the kind of the current token.
unfoldable pub if_state : {A : Type 0} → (Parser → Bool) → Parse A → Parse A → Parse A
if_state c there other P = if c P then there P else other P

unfoldable pub parse_expect : TokenKind → Parse Token
unfolding parse_advance
parse_expect k P = if parse_check k P then parse_advance P else failed (expected k P.cur)

-- The table of typedef names, the first one first.
unfoldable pub has_name : List Bytes → Bytes → Bool
has_name [] s = false
has_name (name ∷ names) s = bytes_eq name s || has_name names s

unfoldable pub parse_is_typedef_name : Parser → Token → Bool
unfolding has_name
parse_is_typedef_name P t = has_name P.typedefs (token_text t)

-- The table has room for 256 names; a name behind these is dropped.
unfoldable pub parse_add_typedef_name : Token → Parser → Parser
parse_add_typedef_name t P =
    if leb 256 (length P.typedefs)
    then P
    else record P { typedefs = P.typedefs ++ token_text t ∷ [] }

-- The number of a new type.
unfoldable pub new_type_id : Parse ℕ
new_type_id P = done P.next_id (record P { next_id = P.next_id + 1 })
