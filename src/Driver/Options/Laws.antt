-- ===== src/Driver/Options/Laws.antt =====
-- The room for the options of the preprocessor in `driver_main` of qbebasedcompiler/src/driver.c.
use micro_colorschemes.Prelude.{
  ℕ, ◌+◌, ◌≤◌, ◌≡◌, ◌⊎◌, refl, sym, subst, if◌then◌else◌, ltb, ◌==◌, get_or, Bool, true, false,
  ◌||◌, List, [], ◌∷◌, Bytes, codes, Option, none, some, arith, bytes_eq, length, length-append,
  inl, inr,
}
use micro_colorschemes.Driver.System.{Message}
use micro_colorschemes.Driver.Options.{
  Options, Round, skip_next, goes_on, returns, push_two, push_one, joined, take_input,
  single_option, paired_option, flag_option, option_at, Parsed, parsed, stopped, read_options,
}

-- The array `extra` has 256 places. An early return is with 0 or 1.
pub data Room : Options → Type 0 where
  room : {o : Options} → length o.extra ≤ 256 → Room o

pub data RoundFits : Round → Type 0 where
  skip_fits : {o : Options} → Room o → RoundFits (skip_next o)
  goes_fits : {o : Options} → Room o → RoundFits (goes_on o)
  returns_fits : {n : ℕ} {ms : List Message} → n ≤ 1 → RoundFits (returns n ms)

pub data ParsedFits : Parsed → Type 0 where
  parsed_fits : {o : Options} → Room o → ParsedFits (parsed o)
  stopped_fits : {n : ℕ} {ms : List Message} → n ≤ 1 → ParsedFits (stopped n ms)

if_fits :
    {x y : Round} (b : Bool)
    → (b ≡ true → RoundFits x)
    → RoundFits y
    → RoundFits (if b then x else y)
if_fits true h k = h refl
if_fits false h k = k

push_two-RoundFits : (o : Options) (a b : Bytes) → Room o → RoundFits (push_two o a b)
push_two-RoundFits o a b r =
    if_fits (ltb (length o.extra + 2) 256)
      (λ h. skip_fits (room (ground (arith, h, length-append o.extra (a ∷ b ∷ []))))) (goes_fits r)

push_one-RoundFits : (o : Options) (a : Bytes) → Room o → RoundFits (push_one o a)
push_one-RoundFits o a r =
    if_fits (ltb (length o.extra) 256)
      (λ h. goes_fits (room (ground (arith, h, length-append o.extra (a ∷ []))))) (goes_fits r)

same_extra : {o : Options} (p : Options) → p.extra ≡ o.extra → Room o → Room p
same_extra p e (room h) = room (subst (λ x. length x ≤ 256) (sym e) h)

input_fits :
    (prog a : Bytes) (o : Options) (i : Option Bytes)
    → o.input ≡ i
    → Room o
    → RoundFits (take_input prog o a)
input_fits prog a o none e r = rw e (goes_fits (same_extra _ refl r))
input_fits prog a o (some x) e r = rw e (returns_fits (omega arith))

single_option-RoundFits :
    (prog : Bytes) (o : Options) (a : Bytes) → Room o → RoundFits (single_option prog o a)
unfolding single_option
single_option-RoundFits prog o a r =
    if_fits (joined a b'I' || (joined a b'D' || joined a b'U')) (λ h. push_one-RoundFits o a r)
      (if_fits (bytes_eq a (codes "-h") || bytes_eq a (codes "--help"))
        (λ h. returns_fits (omega arith))
        (if_fits (get_or a 0 0 == b'-') (λ h. returns_fits (omega arith))
          (input_fits prog a o o.input refl r)))

paired_option-RoundFits :
    (prog : Bytes) (o : Options) (a : Bytes) (next : Option Bytes)
    → Room o
    → RoundFits (paired_option prog o a next)
unfolding paired_option
paired_option-RoundFits prog o a none r = single_option-RoundFits prog o a r
paired_option-RoundFits prog o a (some b) r =
    if_fits (bytes_eq a (codes "-I") || (bytes_eq a (codes "-D") || bytes_eq a (codes "-U")))
      (λ h. push_two-RoundFits o a b r) (single_option-RoundFits prog o a r)

flag_option-RoundFits :
    (prog : Bytes) (o : Options) (a : Bytes) (next : Option Bytes)
    → Room o
    → RoundFits (flag_option prog o a next)
unfolding flag_option
flag_option-RoundFits prog o a next r =
    if_fits (bytes_eq a (codes "-S")) (λ h. goes_fits (same_extra _ refl r))
      (if_fits (bytes_eq a (codes "-c")) (λ h. goes_fits (same_extra _ refl r))
        (if_fits (bytes_eq a (codes "-emit-qbe")) (λ h. goes_fits (same_extra _ refl r))
          (if_fits (bytes_eq a (codes "-E")) (λ h. goes_fits (same_extra _ refl r))
            (if_fits (bytes_eq a (codes "-v")) (λ h. goes_fits (same_extra _ refl r))
              (paired_option-RoundFits prog o a next r)))))

option_at-RoundFits :
    (prog : Bytes) (o : Options) (a : Bytes) (next : Option Bytes)
    → Room o
    → RoundFits (option_at prog o a next)
unfolding option_at
option_at-RoundFits prog o a none r = flag_option-RoundFits prog o a none r
option_at-RoundFits prog o a (some b) r =
    if_fits (bytes_eq a (codes "-o")) (λ h. skip_fits (same_extra _ refl r))
      (flag_option-RoundFits prog o a (some b) r)

round_cases :
    {x : Round}
    → RoundFits x
    → ((p : Options) × (x ≡ skip_next p) × Room p)
      ⊎ (((p : Options) × (x ≡ goes_on p) × Room p)
          ⊎ ((n : ℕ) × (ms : List Message) × (x ≡ returns n ms) × (n ≤ 1)))
round_cases (skip_fits {o} r) = inl (o, refl, r)
round_cases (goes_fits {o} r) = inr (inl (o, refl, r))
round_cases (returns_fits {n} {ms} l) = inr (inr (n, ms, refl, l))

-- With at most 256 options for the preprocessor noted, the loop over any arguments notes at most 256 in
-- all, or it returns 0 or 1 early.
pub read_options-ParsedFits :
    (prog : Bytes) (o : Options) (args : List Bytes)
    → Room o
    → ParsedFits (read_options prog o args)
unfolding read_options
read_options-ParsedFits prog o [] r = parsed_fits r
read_options-ParsedFits prog o (a ∷ []) r =
    elim (round_cases (option_at-RoundFits prog o a none r)) [
      | inl (p, e, h) ↦ rw (read_options, e) (parsed_fits h)
      | inr (inl (p, e, h)) ↦ rw (read_options, e) (parsed_fits h)
      | inr (inr (n, ms, e, l)) ↦ rw (read_options, e) (stopped_fits l)
    ]
read_options-ParsedFits prog o (a ∷ b ∷ rest) r =
    elim (round_cases (option_at-RoundFits prog o a (some b) r)) [
      | inl (p, e, h) ↦ rw (read_options, e) (read_options-ParsedFits prog p rest h)
      | inr (inl (p, e, h)) ↦ rw (read_options, e) (read_options-ParsedFits prog p (b ∷ rest) h)
      | inr (inr (n, ms, e, l)) ↦ rw (read_options, e) (stopped_fits l)
    ]
