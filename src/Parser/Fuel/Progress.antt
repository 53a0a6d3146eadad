-- ===== src/Parser/Fuel/Progress.antt =====
-- The tokens at which `parse_external_decl` of qbebasedcompiler/src/parser.c passes a token.
use micro_colorschemes.Prelude.{
  ℕ, ◌≤◌, ◌≡◌, refl, Bool, true, false, not, ◌||◌, arith, Bool-cases, inl, inr,
}
use micro_colorschemes.Token.{
  TokenKind, Token, tok_eof, tok_semi, tok_star, tok_ident, tok_lbracket, tok_lparen,
}
use micro_colorschemes.Token.Kinds.{kind_eq, kind_eq_iff}
use micro_colorschemes.Lexer.Bounds.{IsValid}
use micro_colorschemes.Ast.{CType, Node, no_node, scalar, ty_int}
use micro_colorschemes.Parser.State.{
  Parser, done, Parse, ◌>>=◌, pure, current, parse_match, if_check, if_state,
}
use micro_colorschemes.Parser.Level.{Saw, Level}
use micro_colorschemes.Parser.Types.{
  saw_nothing, at_specifier, specifier_loop, parse_decl_specifiers, specified_type, star_loop,
  declared_name, array_loop, function_suffix, parse_declarator,
}
use micro_colorschemes.Parser.Unit.{parse_external_decl, external_tail, external_rest}
use micro_colorschemes.Parser.Fuel.{
  Goes, Fed, Fed-of, FedOn, FedOn-of, fed_on, Fed-pure, FedOn-pass, Fed-stay, Goes-bind, Below,
  Below-less, left,
}
use micro_colorschemes.Parser.Fuel.Steps.{
  FedOn-advance, FedOn-match, FedOn-if_check, FedOn-if_check_other, Fed-new_type_id,
}
use micro_colorschemes.Parser.Fuel.Types.{
  at_specifier-kind, declared_name-Fed, dimension-Fed, parameters-Fed, array_loop-Fed,
  function_suffix-Fed,
}
use micro_colorschemes.Parser.Fuel.Unit.{external_tail-Fed, external_rest-Fed}

-- At a token of the kind `t`, `m` gives `a` and changes nothing.
data Idle (t : TokenKind) {A : Type 0} (m : Parse A) (a : A) : Type 0 where
  idle : ((P : Parser) → P.cur.kind ≡ t → m P ≡ done a P) → Idle t m a

-- What comes behind an idle function.
FedOn-Idle :
    {t : TokenKind} {d k : ℕ} {A B : Type 0} {m : Parse A} {a : A} (f : A → Parse B)
    → Idle t m a
    → FedOn t d k (f a)
    → FedOn t d k (m >>= f)
unfolding ◌>>=◌
FedOn-Idle f (idle h) g = fed_on (λ P e v l. rw (h P e) (FedOn-of g P e v l))

module _ {A : Type 0} {t : TokenKind} (k : TokenKind) (m : Parse A) (a : A)
    (n : kind_eq t k ≡ false) where
  Idle-match : Idle t (parse_match k m (pure a)) a
  unfolding parse_match pure
  Idle-match = idle (λ P e. rw e (rw n refl))

  Idle-if_check : Idle t (if_check k m (pure a)) a
  unfolding if_check pure
  Idle-if_check = idle (λ P e. rw e (rw n refl))

module _ {k : ℕ} {r : Level} (b : Below k r) (base : CType) where
  star_loop-Idle : {t : TokenKind} → kind_eq t tok_star ≡ false → Idle t (star_loop r base) base
  unfolding star_loop
  star_loop-Idle n = Idle-match tok_star _ base n

  declared_name-Idle :
      {t : TokenKind} → kind_eq t tok_ident ≡ false → Idle t (declared_name base) no_node
  unfolding declared_name
  declared_name-Idle n = Idle-if_check tok_ident _ no_node n

  array_loop-Idle :
      {t : TokenKind} → kind_eq t tok_lbracket ≡ false → Idle t (array_loop r base) base
  unfolding array_loop
  array_loop-Idle n = Idle-match tok_lbracket _ base n

  star_loop-FedOn : FedOn tok_star 1 k (star_loop r base)
  unfolding star_loop kind_eq
  star_loop-FedOn =
      FedOn-match tok_star _ refl (λ j s. Fed-stay Fed-new_type_id (λ id. (b j s).stars _))

  declared_name-FedOn : FedOn tok_ident 1 k (declared_name base)
  unfolding declared_name kind_eq
  declared_name-FedOn = FedOn-if_check tok_ident _ (FedOn-advance refl (λ t j s. Fed-pure _))

  array_loop-FedOn : FedOn tok_lbracket 1 k (array_loop r base)
  unfolding array_loop kind_eq
  array_loop-FedOn = FedOn-match tok_lbracket _ refl (λ j s. dimension-Fed b base s)

  function_suffix-FedOn : FedOn tok_lparen 1 k (function_suffix r base)
  unfolding function_suffix kind_eq
  function_suffix-FedOn = FedOn-match tok_lparen _ refl (λ j s. parameters-Fed b base s)

-- The kinds with which a declarator begins.
abbrev pub begins_declarator : TokenKind → Bool
begins_declarator tok_star = true
begins_declarator tok_ident = true
begins_declarator tok_lbracket = true
begins_declarator tok_lparen = true
begins_declarator _ = false

no_semi : (t : TokenKind) → begins_declarator t ≡ true → kind_eq t tok_semi ≡ false
unfolding kind_eq
no_semi tok_semi h = cc
no_semi _ h = refl

module _ {k : ℕ} {r : Level} (b : Below k r) (base : CType) where
  parse_declarator-FedOn :
      (t : TokenKind) → begins_declarator t ≡ true → FedOn t 1 k (parse_declarator r base)
  unfolding parse_declarator kind_eq
  parse_declarator-FedOn tok_star h = FedOn-pass (star_loop-FedOn b base) (λ p j s.
      Fed-stay (declared_name-Fed p) (λ name.
        Fed-stay (array_loop-Fed (Below-less s b) p)
          (λ a. Fed-stay (function_suffix-Fed (Below-less s b) a) (λ w. Fed-pure _))))
  parse_declarator-FedOn tok_ident h = FedOn-Idle _ (star_loop-Idle b base refl) (
      FedOn-pass (declared_name-FedOn b base) (λ name j s.
        Fed-stay (array_loop-Fed (Below-less s b) base)
          (λ a. Fed-stay (function_suffix-Fed (Below-less s b) a) (λ w. Fed-pure _))))
  parse_declarator-FedOn tok_lbracket h = FedOn-Idle _ (star_loop-Idle b base refl) (
      FedOn-Idle _ (declared_name-Idle b base refl) (
        FedOn-pass (array_loop-FedOn b base)
          (λ a j s. Fed-stay (function_suffix-Fed (Below-less s b) a) (λ w. Fed-pure _))))
  parse_declarator-FedOn tok_lparen h = FedOn-Idle _ (star_loop-Idle b base refl) (
      FedOn-Idle _ (declared_name-Idle b base refl) (
        FedOn-Idle _ (array_loop-Idle b base refl)
          (FedOn-pass (function_suffix-FedOn b base) (λ w j s. Fed-pure _))))
  parse_declarator-FedOn _ h = cc

  current-FedOn :
      {t : TokenKind} {B : Type 0} (m : Parse B) (f : B → Token → Parse Node)
      → FedOn t 1 k m
      → ((a : B) (x : Token) → Fed 0 k (f a x))
      → FedOn t 1 k (current >>= λ x. m >>= λ a. f a x)
  unfolding current ◌>>=◌
  current-FedOn m f h g = fed_on (λ P e v l.
      Goes-bind 1 0 1 P (m P) (λ a. f a P.cur) (omega arith) (FedOn-of h P e v l)
        (λ a Q w s. Fed-of (g a P.cur) Q w (omega (arith, s, l))))

  external_tail-FedOn :
      (t : TokenKind) → begins_declarator t ≡ true → FedOn t 1 k (external_tail r base)
  unfolding external_tail kind_eq
  external_tail-FedOn t h = FedOn-if_check_other tok_semi _ (no_semi t h) (
      current-FedOn (parse_declarator r base) (λ name tok. external_rest r tok base name)
        (parse_declarator-FedOn t h) (λ name tok. external_rest-Fed b tok base name))

  external_tail-FedOn_semi : FedOn tok_semi 1 k (external_tail r base)
  unfolding external_tail kind_eq
  external_tail-FedOn_semi =
      FedOn-if_check tok_semi _ (FedOn-advance refl (λ s j u. Fed-pure no_node))

-- Does the token stand where no external declaration begins? Its function returns NULL there.
unfoldable pub is_stuck : Parser → Bool
is_stuck P = not (
    at_specifier P
    || kind_eq P.cur.kind tok_eof
    || kind_eq P.cur.kind tok_semi
    || begins_declarator P.cur.kind)

stuck_test :
    (a c d e : Bool) → not (a || c || d || e) ≡ false → a ≡ false → c ≡ false → d ≡ false → e ≡ true
stuck_test a c d e h p q r = ground (arith, h, p, q, r)

module _ {k : ℕ} {r : Level} (b : Below k r) (P : Parser) (v : IsValid P.lex) (l : left P ≤ k) where
  specifier_loop-Goes : (s : Saw) → at_specifier P ≡ true → Goes 1 P (specifier_loop r s P)
  unfolding specifier_loop if_state
  specifier_loop-Goes s e =
      rw e (
        FedOn-of (FedOn-advance (at_specifier-kind P e) (λ t j s. (b j s).specifiers _)) P refl v l)

  parse_decl_specifiers-Goes : at_specifier P ≡ true → Goes 1 P (parse_decl_specifiers r P)
  unfolding parse_decl_specifiers ◌>>=◌
  parse_decl_specifiers-Goes e =
      Goes-bind 1 0 1 P (specifier_loop r saw_nothing P) _ (omega arith) (specifier_loop-Goes _ e)
        (λ s Q w u. Fed-of (Fed-pure {k = k} _) Q w (omega (arith, u, l)))

  parse_external_decl-specified : at_specifier P ≡ true → Goes 1 P (parse_external_decl r P)
  unfolding parse_external_decl ◌>>=◌
  parse_external_decl-specified e =
      Goes-bind 1 0 1 P (parse_decl_specifiers r P) (external_tail r) (omega arith)
        (parse_decl_specifiers-Goes e)
        (λ base Q w u. Fed-of (external_tail-Fed b base) Q w (omega (arith, u, l)))

module _ (r : Level) (P : Parser) where
  parse_decl_specifiers-none :
      at_specifier P ≡ false → parse_decl_specifiers r P ≡ done (scalar ty_int) P
  unfolding parse_decl_specifiers specifier_loop if_state ◌>>=◌ pure specified_type
  parse_decl_specifiers-none e = rw e refl

  parse_external_decl-none :
      at_specifier P ≡ false → parse_external_decl r P ≡ external_tail r (scalar ty_int) P
  unfolding parse_external_decl ◌>>=◌
  parse_external_decl-none e = rw (parse_decl_specifiers-none e) refl

module _ {k : ℕ} {r : Level} (b : Below k r) (P : Parser) (v : IsValid P.lex) (l : left P ≤ k) where
  -- Away from the end and from a token that is stuck, a token is passed.
  pub parse_external_decl-Goes :
      kind_eq P.cur.kind tok_eof ≡ false → is_stuck P ≡ false → Goes 1 P (parse_external_decl r P)
  unfolding is_stuck
  parse_external_decl-Goes ne st = elim (Bool-cases (at_specifier P)) [
    | inl e ↦ parse_external_decl-specified b P v l e
    | inr e ↦ rw (parse_external_decl-none r P e) (elim (Bool-cases (kind_eq P.cur.kind tok_semi)) [
      | inl s ↦
          FedOn-of (external_tail-FedOn_semi b _) P ((kind_eq_iff P.cur.kind tok_semi).0 s) v l
      | inr s ↦
          FedOn-of (external_tail-FedOn b _ P.cur.kind (stuck_test _ _ _ _ st e ne s)) P refl v l
    ])
  ]

no_declarator :
    (t : TokenKind)
    → begins_declarator t ≡ false
    → (kind_eq t tok_star ≡ false)
      × (kind_eq t tok_ident ≡ false)
      × (kind_eq t tok_lbracket ≡ false)
      × (kind_eq t tok_lparen ≡ false)
unfolding kind_eq
no_declarator tok_star h = cc
no_declarator tok_ident h = cc
no_declarator tok_lbracket h = cc
no_declarator tok_lparen h = cc
no_declarator _ h = (refl, refl, refl, refl)

four_false :
    (a c d e : Bool)
    → not (a || c || d || e) ≡ true
    → (a ≡ false) × (c ≡ false) × (d ≡ false) × (e ≡ false)
four_false a c d e h = (ground (arith, h), ground (arith, h), ground (arith, h), ground (arith, h))

pub is_stuck-none :
    (P : Parser)
    → is_stuck P ≡ true
    → (at_specifier P ≡ false)
      × (kind_eq P.cur.kind tok_eof ≡ false)
      × (kind_eq P.cur.kind tok_semi ≡ false)
      × (begins_declarator P.cur.kind ≡ false)
unfolding is_stuck
is_stuck-none P st = four_false _ _ _ _ st

module _ (r : Level) (P : Parser) (st : is_stuck P ≡ true) where
  -- The declarator of such a token is empty.
  parse_declarator-stuck : (base : CType) → parse_declarator r base P ≡ done no_node P
  unfolding parse_declarator star_loop declared_name array_loop function_suffix ◌>>=◌ parse_match
      if_check pure
  parse_declarator-stuck base =
      let e = no_declarator P.cur.kind (is_stuck-none P st).3 in
      rw e.0 (rw e.1 (rw e.2 (rw e.3 refl)))

  pub parse_external_decl-stuck : parse_external_decl r P ≡ done no_node P
  unfolding external_tail external_rest if_check ◌>>=◌ current pure
  parse_external_decl-stuck =
      rw (parse_external_decl-none r P (is_stuck-none P st).0)
        (rw (is_stuck-none P st).2 (rw (parse_declarator-stuck (scalar ty_int)) refl))
