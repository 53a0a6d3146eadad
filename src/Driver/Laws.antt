-- ===== src/Driver/Laws.antt =====
-- What `driver_derive_name` of qbebasedcompiler/src/driver.c makes of a path.
use micro_colorschemes.Prelude.{
  ℕ, suc, ◌<◌, ◌≡◌, ◌≢◌, ◌⊎◌, inl, inr, refl, ap, ◌∙◌, [], ◌∷◌, ◌++◌, Bytes, Option, none, some,
  arith, length, drop, take-length,
}
use micro_colorschemes.Driver.{
  strrchr, later, behind_separator, base_name, stem_of, driver_derive_name,
}

-- The last `c` is that in between, if none is behind it.
strrchr-append_at :
    (xs ys : Bytes) (c : ℕ) → strrchr ys c ≡ none → strrchr (xs ++ c ∷ ys) c ≡ some (length xs)
unfolding strrchr
strrchr-append_at [] ys c h = ground (arith, h)
strrchr-append_at (x ∷ xs) ys c h = ground (arith, strrchr-append_at xs ys c h)

strrchr-append_other :
    (xs ys : Bytes) (b c : ℕ)
    → b ≢ c
    → strrchr ys c ≡ none
    → (strrchr (xs ++ b ∷ ys) c ≡ none)
      ⊎ ((n : ℕ) × (strrchr (xs ++ b ∷ ys) c ≡ some n) × (n < length xs))
unfolding strrchr
strrchr-append_other [] ys b c ne h = inl (ground (arith, h, ne))
strrchr-append_other (x ∷ xs) ys b c ne h = elim (strrchr-append_other xs ys b c ne h) [
  | inl e ↦ ground (arith, e)
  | inr (n, e, lt) ↦ inr (suc n, ground (arith, e), omega (arith, lt))
]

later-first :
    (m : ℕ) (o : Option ℕ)
    → (o ≡ none) ⊎ ((n : ℕ) × (o ≡ some n) × (n < m))
    → later (some m) o ≡ some m
later-first m o h = elim h [
  | inl e ↦ ap (later (some m)) e
  | inr (n, e, lt) ↦ ap (later (some m)) e ∙ ground (arith, lt)
]

drop_separator : (xs ys : Bytes) (c : ℕ) → drop (suc (length xs)) (xs ++ c ∷ ys) ≡ ys
drop_separator [] ys c = refl
drop_separator (x ∷ xs) ys c = drop_separator xs ys c

slash-ne-backslash : ◌≢◌ {A = ℕ} b'/' b'\\'
slash-ne-backslash e = omega (arith, e)

base_name-append :
    (dir name : Bytes)
    → strrchr name b'/' ≡ none
    → strrchr name b'\\' ≡ none
    → base_name (dir ++ b'/' ∷ name) ≡ name
unfolding base_name
base_name-append dir name h k =
    let path = dir ++ b'/' ∷ name in
    let other = strrchr-append_other dir name b'/' b'\\' slash-ne-backslash k in
    ap (λ o. behind_separator path (later o (strrchr path b'\\')))
      (strrchr-append_at dir name b'/' h)
    ∙ ap (behind_separator path) (later-first (length dir) (strrchr path b'\\') other)
    ∙ drop_separator dir name b'/'

-- For a path with a slash, behind it a stem, a dot and a suffix, where no slash and no backslash stand
-- behind that slash and no dot in the suffix, `driver_derive_name` returns the stem with the extension
-- behind it.
pub driver_derive_name-path :
    (dir stem suffix ext : Bytes)
    → strrchr (stem ++ b'.' ∷ suffix) b'/' ≡ none
    → strrchr (stem ++ b'.' ∷ suffix) b'\\' ≡ none
    → strrchr suffix b'.' ≡ none
    → driver_derive_name (dir ++ b'/' ∷ (stem ++ b'.' ∷ suffix)) ext ≡ stem ++ ext
unfolding driver_derive_name
driver_derive_name-path dir stem suffix ext h k e =
    let name = stem ++ b'.' ∷ suffix in
    ap (λ b. stem_of b (strrchr b b'.') ++ ext) (base_name-append dir name h k)
    ∙ ap (λ o. stem_of name o ++ ext) (strrchr-append_at stem suffix b'.' e)
    ∙ ap (λ x. x ++ ext) (take-length stem (b'.' ∷ suffix))
