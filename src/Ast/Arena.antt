-- ===== src/Ast/Arena.antt =====
-- The arena of qbebasedcompiler/src/ast.c: `arena_alloc`. `malloc` gives each block an address; the
-- model keeps for a block its capacity and what is used of it. Places are counted from the start of
-- the data: the header in front of them is left out, so alignment is that of the place in the data.
use micro_colorschemes.Prelude.{
  ℕ, ◌+◌, ◌*◌, ◌/◌, ◌%◌, ◌^◌, ◌≤◌, ◌<◌, ◌≡◌, refl, inl, inr, List, [], ◌∷◌, arith, ltb, ◌==◌,
  if◌then◌else◌, length, Bool-cases,
}

pub record ArenaBlock : Type 0 where
  pub used : ℕ
  pub cap : ℕ

-- The blocks, that of `head` first.
abbrev pub Arena : Type 0
Arena = List ArenaBlock

-- `(n + 15) & ~(size_t)15`, with the wrap of `size_t`.
unfoldable pub round_up : ℕ → ℕ
round_up n = (n + 15) % 2 ^ 64 / 16 * 16

-- A place: the number of the block from the bottom of the list, and the offset in its data.
pub record Place : Type 0 where
  pub block : ℕ
  pub at : ℕ

-- A new block, when the head has no room.
abbrev pub new_block : ℕ → ArenaBlock
new_block n = record { used = 0; cap = if ltb 4096 n then n else 4096 }

-- The head block takes the bytes.
abbrev pub take_from : ArenaBlock → Arena → ℕ → Place × Arena
take_from b rest n =
    (record { block = length rest; at = b.used }, record b { used = b.used + n } ∷ rest)

-- The room test, and what follows it, for rounded sizes.
unfoldable pub alloc_rounded : Arena → ℕ → Place × Arena
alloc_rounded [] n = take_from (new_block n) [] n
alloc_rounded (b ∷ rest) n =
    if ltb b.cap ((b.used + n) % 2 ^ 64)
    then take_from (new_block n) (b ∷ rest) n
    else take_from b rest n

unfoldable pub arena_alloc : Arena → ℕ → Place × Arena
arena_alloc a n = alloc_rounded a (round_up n)

-- Blocks below 2^62 bytes, each used in whole steps of 16 and no further than its end.
abbrev pub AllFit : Arena → Type 0
AllFit [] = Unit
AllFit (b ∷ rest) = (b.used ≤ b.cap) × (b.cap ≤ 2 ^ 62) × (b.used % 16 ≡ 0) × AllFit rest

-- What is used of a block, by its number.
pub used_at : Arena → ℕ → ℕ
used_at [] k = 0
used_at (b ∷ rest) k = if k == length rest then b.used else used_at rest k

used_at_above : (a : Arena) (k : ℕ) → length a ≤ k → used_at a k ≡ 0
unfolding used_at
used_at_above [] k h = refl
used_at_above (b ∷ rest) k h = ground (arith, used_at_above rest k (omega arith))

-- The place is aligned and fresh: what the block had in use ends before it, the block now uses `n`
-- bytes from there on, and no other block changed.
pub record IsFresh (n : ℕ) (a : Arena) (p : Place) (a' : Arena) : Type 0 where
  pub aligned : p.at % 16 ≡ 0
  pub behind : used_at a p.block ≤ p.at
  pub covered : p.at + n ≤ used_at a' p.block
  pub fits : AllFit a'

alloc_rounded-IsFresh :
    (a : Arena) (n : ℕ)
    → AllFit a
    → n ≤ 2 ^ 62
    → n % 16 ≡ 0
    → IsFresh n a (alloc_rounded a n).0 (alloc_rounded a n).1
unfolding alloc_rounded used_at
alloc_rounded-IsFresh [] n h k m = record {
  aligned = omega arith;
  behind = omega arith;
  covered = ground arith;
  fits = (ground arith, ground arith, omega arith, tt);
}
alloc_rounded-IsFresh (b ∷ rest) n h k m = elim (Bool-cases (ltb b.cap ((b.used + n) % 2 ^ 64))) [
  | inl t ↦ rw t (record {
    aligned = omega arith;
    behind = ground (arith, used_at_above rest (length (b ∷ rest)) (omega arith));
    covered = ground arith;
    fits = (ground arith, ground arith, omega arith, h);
  })
  | inr t ↦ rw t (record {
    aligned = h.2;
    behind = ground arith;
    covered = ground arith;
    fits = (ground arith, h.1, omega arith, h.3);
  })
]

used_at-alloc_rounded :
    (a : Arena) (n k : ℕ)
    → let r = alloc_rounded a n in
      used_at r.1 k ≡ (if k == r.0.block then r.0.at + n else used_at a k)
unfolding alloc_rounded used_at
used_at-alloc_rounded [] n k = ground arith
used_at-alloc_rounded (b ∷ rest) n k = ground arith

round_up_bounds :
    (n : ℕ) → n < 2 ^ 61 → (n ≤ round_up n) × (round_up n ≤ n + 15) × (round_up n % 16 ≡ 0)
unfolding round_up
round_up_bounds n h = (omega arith, omega arith, omega arith)

-- In an arena whose blocks fit, for `n` below 2^61, `arena_alloc` returns at least `n` bytes at an
-- offset that is a multiple of 16, inside a block and behind all that was in use of it. That block is
-- in use up to the end of these bytes and every other block as far as before, so that no later
-- allocation can meet them.
pub arena_alloc-IsFresh :
    (a : Arena) (n k : ℕ)
    → AllFit a
    → n < 2 ^ 61
    → let (p, a') = arena_alloc a n in
      IsFresh n a p a' × (used_at a' k ≡ (if k == p.block then p.at + round_up n else used_at a k))
unfolding arena_alloc
arena_alloc-IsFresh a n k h small =
    let (up, near, even) = round_up_bounds n small in
    let f = alloc_rounded-IsFresh a (round_up n) h (omega arith) even in
    (
      record {
        aligned = f.aligned;
        behind = f.behind;
        covered = omega (arith, f.covered);
        fits = f.fits;
      },
      used_at-alloc_rounded a (round_up n) k,
    )
