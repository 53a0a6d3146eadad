-- ===== src/Qbe/Program/Numbers.antt =====
-- The numbers of strings in qbebasedcompiler/src/qbe.c, and the table that holds their texts.
pub mod Walk
pub mod Written
use micro_colorschemes.Prelude.{
  ℕ, suc, ◌+◌, ◌≤◌, ◌<◌, ◌≡◌, refl, sym, ap, ◌∙◌, arith, Bool, Bool-cases, true, false, inl, inr,
  Option, some, none, List, [], ◌∷◌, ◌++◌, length, length-append, ltb, Bytes, bytes_eq,
  bytes_eq_iff, if◌then◌else◌,
}
use micro_colorschemes.Qbe.Program.{Strings, Collect, string_number, number_string, ◌>>=◌, pure}

abbrev pub Pairs : Type 0
Pairs = List (Bytes × ℕ)

-- Each text stands in the table under its number.
pub data AllFound (S : Strings) : Pairs → Type 0 where
  all_nil : AllFound S []
  all_cons :
      {text : Bytes} {id : ℕ} {l : Pairs}
      → string_number S.qbe_strings text ≡ some id
      → AllFound S l
      → AllFound S ((text, id) ∷ l)

pub AllFound-append :
    {S : Strings} (k l : Pairs) → AllFound S k → AllFound S l → AllFound S (k ++ l)
AllFound-append [] l all_nil h = h
AllFound-append (p ∷ k) l (all_cons e g) h = all_cons e (AllFound-append k l g h)

-- What was found is found.
pub data Extends (S T : Strings) : Type 0 where
  extends :
      ((text : Bytes) (id : ℕ)
        → string_number S.qbe_strings text ≡ some id
        → string_number T.qbe_strings text ≡ some id)
      → Extends S T

pub AllFound-Extends : {S T : Strings} (l : Pairs) → Extends S T → AllFound S l → AllFound T l
AllFound-Extends [] x all_nil = all_nil
AllFound-Extends (p ∷ l) (extends x) (all_cons e h) =
    all_cons (x _ _ e) (AllFound-Extends l (extends x) h)

-- The numbers of the table are `i`, `i + 1` and so on.
pub data AreCounted : ℕ → Pairs → Type 0 where
  counted_nil : {i : ℕ} → AreCounted i []
  counted_cons :
      {i id : ℕ} {text : Bytes} {l : Pairs}
      → id ≡ i
      → AreCounted (suc i) l
      → AreCounted i ((text, id) ∷ l)

-- Every number given is in the table, in order from 0.
abbrev pub IsFull : Strings → Type 0
IsFull S = (length S.qbe_strings ≡ S.qbe_str_total) × AreCounted 0 S.qbe_strings

-- From `S` with `C`: the count has not gone back, and while it is at most 1024, the table stays
-- full, keeps what it had, and the result has `R`.
unfoldable pub RunNumbers :
    {A : Type 0} → (Strings → Type 0) → (A → Strings → Type 0) → Strings → A × Strings → Type 0
RunNumbers C R S (a, T) =
    (S.qbe_str_total ≤ T.qbe_str_total)
    × (IsFull S → T.qbe_str_total ≤ 1024 → C S → IsFull T × Extends S T × R a T)

pub data Numbers {A : Type 0} (C : Strings → Type 0) (R : A → Strings → Type 0) (m : Collect A)
    : Type 0 where
  numbers : ((S : Strings) → RunNumbers C R S (m S)) → Numbers C R m

abbrev pub Anything : Strings → Type 0
Anything S = Unit

pub Extends-refl : {S : Strings} → Extends S S
Extends-refl = extends (λ text id e. e)

Extends-trans : {S T U : Strings} → Extends S T → Extends T U → Extends S U
Extends-trans (extends f) (extends g) = extends (λ text id e. g text id (f text id e))

pub Numbers-run :
    {A : Type 0} {C : Strings → Type 0} {R : A → Strings → Type 0} {m : Collect A}
    → Numbers C R m
    → (S : Strings) → RunNumbers C R S (m S)
Numbers-run (numbers h) = h

module _ {A B : Type 0} {C : Strings → Type 0} {R : A → Strings → Type 0}
    {R' : B → Strings → Type 0} where
  pub Numbers-bind :
      (m : Collect A) (f : A → Collect B)
      → Numbers C R m
      → ((a : A) → Numbers (R a) R' (f a))
      → Numbers C R' (m >>= f)
  unfolding RunNumbers
  Numbers-bind m f (numbers h) g = numbers (λ S.
      let first = h S in
      let second = Numbers-run (g (m S).0) (m S).1 in
      (
        omega (arith, first.0, second.0),
        λ full few c.
            let p = first.1 full (omega (arith, second.0, few)) c in
            let q = second.1 p.0 few p.2 in (q.0, Extends-trans p.1 q.1, q.2),
      ))

module _ {A : Type 0} {C : Strings → Type 0} {R : A → Strings → Type 0} where
  pub Numbers-pure : (a : A) → ((S : Strings) → C S → R a S) → Numbers C R (pure a)
  unfolding RunNumbers
  Numbers-pure a h = numbers (λ S. (omega arith, λ full few c. (full, Extends-refl, h S c)))

-- A predicate that what follows keeps.
pub data Kept (C : Strings → Type 0) : Type 0 where
  kept : ((S T : Strings) → Extends S T → C S → C T) → Kept C

pub Numbers-frame :
    {A : Type 0} {C : Strings → Type 0} {R : A → Strings → Type 0} (m : Collect A)
    → Kept C
    → Numbers Anything R m
    → Numbers C (λ a T. C T × R a T) m
unfolding RunNumbers
Numbers-frame m (kept k) (numbers h) = numbers (λ S.
    let run = h S in
    (run.0, λ full few c. let p = run.1 full few tt in (p.0, p.1, (k _ _ p.1 c, p.2))))

-- The number of a text in front of a table is that in the table behind it.
string_number-append :
    (l k : Pairs) (text : Bytes) (id : ℕ)
    → string_number l text ≡ some id
    → string_number (l ++ k) text ≡ some id
string_number-append [] k text id h = cc
string_number-append ((stored, n) ∷ l) k text id h = elim (Bool-cases (bytes_eq stored text)) [
  | inl e ↦ rw e (ap (λ b. if b then some n else string_number l text) (sym e) ∙ h)
  | inr e ↦ rw e (
      string_number-append l k text id
        (sym (ap (λ b. if b then some n else string_number l text) e) ∙ h))
]

string_number_last :
    (l : Pairs) (text : Bytes) (id : ℕ)
    → string_number l text ≡ none
    → string_number (l ++ (text, id) ∷ []) text ≡ some id
string_number_last [] text id h = rw ((bytes_eq_iff text text).1 refl) refl
string_number_last ((stored, n) ∷ l) text id h = elim (Bool-cases (bytes_eq stored text)) [
  | inl e ↦
      let no : some n ≡ none = ap (λ b. if b then some n else string_number l text) (sym e) ∙ h in
      cc
  | inr e ↦ rw e (
      string_number_last l text id
        (sym (ap (λ b. if b then some n else string_number l text) e) ∙ h))
]

AreCounted-last :
    (l : Pairs) (i : ℕ) (text : Bytes) (id : ℕ)
    → AreCounted i l
    → id ≡ i + length l
    → AreCounted i (l ++ (text, id) ∷ [])
AreCounted-last [] i text id c h = counted_cons (omega (arith, h)) counted_nil
AreCounted-last (p ∷ l) i text id (counted_cons e c) h =
    counted_cons e (AreCounted-last l (suc i) text id c (omega (arith, h)))

-- A string gets a number under which its text stands.
pub number-Numbers :
    (text : Bytes)
    → Numbers Anything
        (λ id T. AllFound T ((text, id) ∷ []))
        (λ S. number_string (string_number S.qbe_strings text) text S)
unfolding RunNumbers
number-Numbers text = numbers (λ S. given S (string_number S.qbe_strings text) refl)
  where
    given :
        (S : Strings) (o : Option ℕ)
        → string_number S.qbe_strings text ≡ o
        → RunNumbers Anything (λ id T. AllFound T ((text, id) ∷ [])) S (number_string o text S)
    given S (some id) e = (omega arith, λ full few c. (full, Extends-refl, all_cons e all_nil))
    given S none e = (
      omega arith,
      λ full few c. elim (Bool-cases (ltb (length S.qbe_strings) 1024)) [
        | inl b ↦ rw b (
          (
            length-append S.qbe_strings _ ∙ ap (λ n. n + 1) full.0,
            AreCounted-last S.qbe_strings 0 text _ full.1 (omega (arith, full.0)),
          ),
          extends (λ t id h. string_number-append S.qbe_strings _ t id h),
          all_cons (string_number_last S.qbe_strings text _ e) all_nil,
        )
        | inr b ↦ let no : ⊥ = ground (arith, b, full.0, few) in elim no [ ]
      ],
    )
