-- ===== src/Token/Keywords/Laws.antt =====
-- `lookup_keyword` (qbebasedcompiler/src/Lexer.c) against the spelling of the keywords.
use micro_colorschemes.Prelude.{
  ◌≡◌, ◌≢◌, refl, sym, ap, ◌∙◌, ◌↔◌, subst, inl, inr, Bool, true, false, ◌&&◌, List, [], ◌∷◌,
  Option, none, some, Bytes, arith, bytes_eq, bytes_eq_iff, Bool-cases,
}
use micro_colorschemes.Token.{TokenKind, tok_eof, tok_other}
use micro_colorschemes.Token.Kinds.{kind_eq, kind_eq_iff}
use micro_colorschemes.Token.Spelling.{keyword_text}
use micro_colorschemes.Token.Keywords.{keywords, lookup_in, lookup_keyword}

is_text : Bytes → Option Bytes → Bool
is_text name none = false
is_text name (some w) = bytes_eq w name

is_text→eq : (name : Bytes) (o : Option Bytes) → is_text name o ≡ true → o ≡ some name
unfolding is_text
is_text→eq name none h = cc
is_text→eq name (some w) h = ap some ((bytes_eq_iff w name).0 h)

-- Every entry of the table is spelled as its kind.
spelled : List (Bytes × TokenKind) → Bool
unfolding is_text
spelled [] = true
spelled ((name, kind) ∷ entries) = is_text name (keyword_text kind) && spelled entries

spelled-keywords : spelled keywords ≡ true
unfolding spelled bytes_eq
spelled-keywords = refl

lookup_in-spelled :
    (entries : List (Bytes × TokenKind)) (s : Bytes)
    → spelled entries ≡ true
    → lookup_in entries s ≢ tok_other
    → keyword_text (lookup_in entries s) ≡ some s
unfolding lookup_in spelled
lookup_in-spelled [] s h ne = absurd (ne refl)
lookup_in-spelled ((name, kind) ∷ entries) s h ne = elim (Bool-cases (bytes_eq name s)) [
  | inl e ↦
      let here : is_text name (keyword_text kind) ≡ true = ground arith in
      rw e (is_text→eq name (keyword_text kind) here ∙ ap some ((bytes_eq_iff name s).0 e))
  | inr e ↦ rw e (lookup_in-spelled entries s (ground arith) (rw e at ne))
]

found : TokenKind → Option Bytes → Bool
found k none = true
found k (some w) = kind_eq (lookup_keyword w) k

found_all : (k : TokenKind) → found k (keyword_text k) ≡ true
unfolding found kind_eq lookup_keyword
found_all tok_eof = refl
found_all _ = refl

-- `lookup_keyword` returns a kind other than `tok_other` exactly for the keyword spelling of that
-- kind.
pub lookup_keyword_iff :
    (s : Bytes) (k : TokenKind) → k ≢ tok_other → (lookup_keyword s ≡ k) ↔ (keyword_text k ≡ some s)
unfolding lookup_keyword
lookup_keyword_iff s k ne = (forth, back)
  where
    forth : lookup_in keywords s ≡ k → keyword_text k ≡ some s
    forth e =
        subst (λ j. keyword_text j ≡ some s) e
          (lookup_in-spelled keywords s spelled-keywords (λ o. ne (sym e ∙ o)))

    back : keyword_text k ≡ some s → lookup_in keywords s ≡ k
    back e = (kind_eq_iff _ k).0 (unfold found in rw e at (found_all k))

pub lookup_keyword-ne-eof : (s : Bytes) → lookup_keyword s ≢ tok_eof
lookup_keyword-ne-eof s e = cc ((lookup_keyword_iff s tok_eof (cc)).0 e)
