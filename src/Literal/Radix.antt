-- ===== src/Literal/Radix.antt =====
-- `decode_int` of qbebasedcompiler/src/parser.c reads back what is printed in base 8, 10 or 16.
use micro_colorschemes.Prelude.{
  ℕ, zero, suc, ◌+◌, ◌-◌, ◌*◌, ◌/◌, ◌%◌, ◌≤◌, ◌<◌, ◌≡◌, refl, ap, ◌∙◌, inl, inr, false, [], ◌∷◌,
  Bytes, some, arith, leb, ltb, if◌then◌else◌, get_or, Bool-cases,
}
use native.Mathlib.Decide.{dec_lt}
use native.Mathlib.Nat.{mod-eq_of_lt, mod-lt, div-add-mod', div-lt_self, div-lt_iff_lt-mul}
use micro_colorschemes.Literal.{
  long_long_mod, long_long_bound, digit_value, decode_digits, decode_int,
}

-- The lower-case digit of a value below 16.
abbrev pub digit_char : ℕ → ℕ
digit_char d = if ltb d 10 then b'0' + d else b'a' + (d - 10)

-- The digits of `n` in front of `rest`, the most significant one first.
pub print_onto : ℕ → ℕ → ℕ → Bytes → Bytes
print_onto base zero n rest = rest
print_onto base (suc f) n rest =
    let more = print_onto base f (n / base) (digit_char (n % base) ∷ rest) in
    if ltb n base then digit_char n ∷ rest else more

-- A number has no more digits than its value plus one.
unfoldable pub print_base : ℕ → ℕ → Bytes
unfolding print_onto
print_base base n = print_onto base (suc n) n []

digit_value-digit_char : (d : ℕ) → d < 16 → digit_value (digit_char d) ≡ some d
unfolding digit_value
digit_value-digit_char d h = ground arith

decode_digit :
    (base v d : ℕ) (rest : Bytes)
    → d < 16
    → v * base + d < long_long_bound
    → decode_digits base v (digit_char d ∷ rest) ≡ decode_digits base (v * base + d) rest
unfolding decode_digits
decode_digit base v d rest h small =
    let fits : leb long_long_bound (v * base + d) ≡ false = ground (arith, small) in
    let same : (v * base + d) % long_long_mod ≡ v * base + d =
      mod-eq_of_lt (omega (arith, small)) in
    rw (digit_value-digit_char d h, fits, decode_digits) (ap (λ w. decode_digits base w rest) same)

decode-print_onto :
    (base f n : ℕ) (rest : Bytes)
    → 2 ≤ base
    → base ≤ 16
    → n < f
    → n < long_long_bound
    → decode_digits base 0 (print_onto base f n rest) ≡ decode_digits base n rest
unfolding print_onto
decode-print_onto base zero n rest h k less small = absurd (omega arith)
decode-print_onto base (suc f) n rest h k less small = elim (Bool-cases (ltb n base)) [
  | inl t ↦ rw t (
      decode_digit base 0 n rest (ground arith) (grind arith)
      ∙ ap (λ w. decode_digits base w rest) (omega arith))
  | inr t ↦
      let more : base ≤ n = ground arith in
      let smaller : n / base < n = div-lt_self (omega arith) h in
      let digit : n % base < base = mod-lt n (omega arith) in
      let whole = div-add-mod' n base in
      rw t (
        decode-print_onto base f (n / base) _ h k (omega arith) (omega arith)
        ∙ decode_digit base (n / base) (n % base) rest (omega arith) (rw whole small)
        ∙ ap (λ w. decode_digits base w rest) whole)
]

-- What is printed in front starts with a digit that is not 0, but for the number 0.
decode-print_base :
    (base n : ℕ)
    → 2 ≤ base
    → base ≤ 16
    → n < long_long_bound
    → decode_digits base 0 (print_base base n) ≡ (n, false, false)
unfolding print_base
decode-print_base base n h k small =
    decode-print_onto base (suc n) n [] h k (omega arith) small ∙ unfold decode_digits in refl

div_pos : (n base : ℕ) → 0 < base → base ≤ n → 0 < n / base
div_pos n base p h = elim (dec_lt 0 (n / base)) [
  | yes q ↦ q
  | no q ↦
      let none : n / base < 1 = omega arith in absurd (omega (arith, (div-lt_iff_lt-mul p).0 none))
]

-- The first byte of a printed number.
first_digit :
    (base f n : ℕ) (rest : Bytes)
    → 2 ≤ base
    → base ≤ 10
    → 0 < n
    → n < f
    → (b'1' ≤ get_or (print_onto base f n rest) 0 0)
      × (get_or (print_onto base f n rest) 0 0 ≤ b'9')
unfolding print_onto
first_digit base zero n rest h k pos less = absurd (omega arith)
first_digit base (suc f) n rest h k pos less = elim (Bool-cases (ltb n base)) [
  | inl t ↦ rw t (ground arith)
  | inr t ↦
      let more : base ≤ n = ground arith in
      let smaller : n / base < n = div-lt_self (omega arith) h in
      let left : 0 < n / base = div_pos n base (omega arith) more in
      rw t (first_digit base f (n / base) _ h k left (omega arith))
]

-- The C literal of a number: decimal, octal and hexadecimal.
abbrev pub decimal_text : ℕ → Bytes
decimal_text n = print_base 10 n

abbrev pub octal_text : ℕ → Bytes
octal_text n = b'0' ∷ print_base 8 n

abbrev pub hex_text : ℕ → Bytes
hex_text n = b'0' ∷ b'x' ∷ print_base 16 n

first_digit_of :
    (base n : ℕ)
    → 2 ≤ base
    → base ≤ 10
    → 0 < n
    → (b'1' ≤ get_or (print_base base n) 0 0) × (get_or (print_base base n) 0 0 ≤ b'9')
unfolding print_base
first_digit_of base n h k pos = first_digit base (suc n) n [] h k pos (omega arith)

decode_int-decimal_text :
    (n : ℕ) → n < long_long_bound → decode_int (decimal_text n) ≡ (n, false, false)
unfolding decode_int
decode_int-decimal_text zero h = unfold print_base decode_digits digit_value in refl
decode_int-decimal_text (suc n) h = ground (
  arith,
  first_digit_of 10 (suc n) (omega arith) (omega arith) (omega arith),
  decode-print_base 10 (suc n) (omega arith) (omega arith) h,
)

decode_int-octal_text :
    (n : ℕ) → n < long_long_bound → decode_int (octal_text n) ≡ (n, false, false)
unfolding decode_int
decode_int-octal_text zero h = unfold print_base decode_digits digit_value in refl
decode_int-octal_text (suc n) h = ground (
  arith,
  first_digit_of 8 (suc n) (omega arith) (omega arith) (omega arith),
  decode-print_base 8 (suc n) (omega arith) (omega arith) h,
)

decode_int-hex_text : (n : ℕ) → n < long_long_bound → decode_int (hex_text n) ≡ (n, false, false)
unfolding decode_int
decode_int-hex_text n h = ground (arith, decode-print_base 16 n (omega arith) (omega arith) h)

-- Below 2^63, which is every value of `long long` that is not negative, `decode_int` reads back every
-- number from its decimal, its octal and its hexadecimal literal, takes none of them for unsigned, and
-- does not overflow.
pub decode_int-literals :
    (n : ℕ)
    → n < long_long_bound
    → (decode_int (decimal_text n) ≡ (n, false, false))
      × (decode_int (octal_text n) ≡ (n, false, false))
      × (decode_int (hex_text n) ≡ (n, false, false))
decode_int-literals n h =
    (decode_int-decimal_text n h, decode_int-octal_text n h, decode_int-hex_text n h)
