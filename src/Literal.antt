-- ===== src/Literal.antt =====
-- The values of literal tokens: `decode_int`, `decode_char` and `decode_str` of
-- qbebasedcompiler/src/parser.c. Each takes the token's bytes, `s` and `len`, as one byte string.
pub mod Radix
pub mod Strings
pub mod Escapes
use micro_colorschemes.Prelude.{
  ℕ, ◌+◌, ◌-◌, ◌*◌, ◌%◌, ◌^◌, Bool, true, false, ◌&&◌, ◌||◌, [], ◌∷◌, Bytes, Option, none, some,
  leb, ◌==◌, if◌then◌else◌, length, get_or, take, drop,
}

-- `long long` as its bit pattern; the patterns from 2^63 on are the negative values.
abbrev pub long_long_mod : ℕ
long_long_mod = 2 ^ 64

-- The values of `long long` that are not negative lie below this bound.
abbrev pub long_long_bound : ℕ
long_long_bound = 2 ^ 63

abbrev pub between : ℕ → ℕ → ℕ → Bool
between lo hi c = leb lo c && leb c hi

-- The digit that a byte stands for, whatever the base.
unfoldable pub digit_value : ℕ → Option ℕ
digit_value c =
    if between b'0' b'9' c
    then some (c - b'0')
    else if between b'a' b'f' c
    then some (c - b'a' + 10)
    else if between b'A' b'F' c
    then some (c - b'A' + 10)
    else none

-- The loop of `decode_int`: the value, whether a `u` was met, and whether the signed arithmetic
-- overflowed. A digit is added, an `l` passed over; a `u` and any other byte end the loop. An overflow
-- is undefined in C: the value is then the low 64 bits, what wrapping arithmetic gives, and only a
-- run without it tells what the code does.
unfoldable pub decode_digits : ℕ → ℕ → Bytes → ℕ × Bool × Bool
decode_digits base v [] = (v, false, false)
decode_digits base v (c ∷ cs) = elim (digit_value c) [
  | some d ↦
      let next = v * base + d in
      let rest = decode_digits base (next % long_long_mod) cs in
      (rest.0, rest.1, leb long_long_bound next || rest.2)
  | none ↦
      let rest = decode_digits base v cs in
      if c == b'u' || c == b'U'
      then (v, true, false)
      else if c == b'l' || c == b'L'
      then rest
      else (v, false, false)
]

-- The value, `*is_unsigned`, and whether the arithmetic overflowed.
unfoldable pub decode_int : Bytes → ℕ × Bool × Bool
unfolding decode_digits
decode_int s =
    if leb 2 (length s) && get_or s 0 0 == b'0' && (get_or s 1 0 == b'x' || get_or s 1 0 == b'X')
    then decode_digits 16 0 (drop 2 s)
    else if leb 1 (length s) && get_or s 0 0 == b'0'
    then decode_digits 8 0 (drop 1 s)
    else decode_digits 10 0 s

-- The byte for the letter behind a backslash in a character constant.
unfoldable pub char_escape : ℕ → ℕ
char_escape e =
    if e == b'n'
    then 10
    else if e == b't'
    then 9
    else if e == b'r'
    then 13
    else if e == b'0'
    then 0
    else if e == b'a'
    then 7
    else if e == b'b'
    then 8
    else if e == b'f'
    then 12
    else if e == b'v'
    then 11
    else e

-- The value of a character constant with its quotes.
unfoldable pub decode_char : Bytes → ℕ
unfolding char_escape
decode_char s =
    if leb (length s) 2
    then 0
    else if get_or s 1 0 == b'\\' && leb 4 (length s)
    then char_escape (get_or s 2 0)
    else get_or s 1 0

-- The byte for the letter behind a backslash in a string literal.
unfoldable pub str_escape : ℕ → ℕ
str_escape e =
    if e == b'n'
    then 10
    else if e == b't'
    then 9
    else if e == b'r'
    then 13
    else if e == b'0'
    then 0
    else e

-- The loop of `decode_str` over the bytes between the quotes. The last byte is kept as it is.
unfoldable pub decode_body : Bytes → Bytes
unfolding str_escape
decode_body [] = []
decode_body (c ∷ []) = c ∷ []
decode_body (c ∷ d ∷ cs) = elim (c == b'\\') [
  | true ↦ str_escape d ∷ decode_body cs
  | false ↦ c ∷ decode_body (d ∷ cs)
]

-- A string literal with its quotes, without the byte 0 that the code puts behind the result.
unfoldable pub decode_str : Bytes → Bytes
unfolding decode_body
decode_str s = if leb (length s) 1 then [] else decode_body (take (length s - 2) (drop 1 s))
