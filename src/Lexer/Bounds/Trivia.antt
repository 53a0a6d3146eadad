-- ===== src/Lexer/Bounds/Trivia.antt =====
-- What `skip_trivia` of qbebasedcompiler/src/Lexer.c passes over: the cursor goes on inside the
-- buffer, the line counter counts the newlines passed, and the loop ends by its `break`.
use micro_colorschemes.Prelude.{
  ℕ, suc, ◌+◌, ◌≤◌, ◌<◌, ◌≡◌, refl, sym, ap, ◌∙◌, ◌⊎◌, inl, inr, true, false, ◌&&◌, ◌||◌, [], ◌∷◌,
  ◌++◌, append_assoc, Bytes, none, some, arith, ◌==◌, if◌then◌else◌, length, get_or, take, drop,
  length-append, length-take_le, take-append-drop, drop-length, drop-drop, Bool-cases, if-eq-some,
  subst, iterate_inv, iterate_done,
}
use micro_colorschemes.Lexer.{Lexer, peek, peek2, move, newline, scan_while}
use micro_colorschemes.Lexer.Trivia.{
  is_blank, not_newline, at_splice, line_splice, line_comment, comment_body, block_comment,
  trivia_step, skip_trivia,
}
use micro_colorschemes.Lexer.Bounds.{bytes_left, IsAt, length-view, scan_while-le}

-- How many newlines there are.
abbrev pub newlines : Bytes → ℕ
newlines [] = 0
newlines (c ∷ cs) = (if c == b'\n' then 1 else 0) + newlines cs

pub newlines-append : (a b : Bytes) → newlines (a ++ b) ≡ newlines a + newlines b
newlines-append [] b = omega arith
newlines-append (c ∷ a) b = omega (arith, newlines-append a b)

-- `L'` comes from `L` by passing over the bytes `read`, with the lines counted. A line that began
-- on the way began at a byte that was passed, or right behind it.
pub record Passes (L L' : Lexer) : Type 0 where
  pub read : Bytes
  pub splits : L.cur.bytes ≡ read ++ L'.cur.bytes
  pub moved : L'.cur.offset ≡ L.cur.offset + length read
  pub counted : L'.line ≡ L.line + newlines read
  pub begun :
      (L'.line_start ≡ L.line_start)
      ⊎ ((L.cur.offset ≤ L'.line_start.offset) × (L'.line_start.offset ≤ L'.cur.offset))
  pub same_src : L'.src ≡ L.src

pub Passes-refl : {L : Lexer} → Passes L L
Passes-refl = record {
  read = [];
  splits = refl;
  moved = omega arith;
  counted = omega arith;
  begun = inl refl;
  same_src = refl;
}

begun_trans :
    {L L' L'' : Lexer} (p : Passes L L') (q : Passes L' L'')
    → (L''.line_start ≡ L.line_start)
      ⊎ ((L.cur.offset ≤ L''.line_start.offset) × (L''.line_start.offset ≤ L''.cur.offset))
begun_trans p q = elim q.begun [
  | inl e ↦ elim p.begun [
    | inl d ↦ inl (e ∙ d)
    | inr (lo, hi) ↦ inr (rw e lo, omega (arith, q.moved, rw (← e) at hi))
  ]
  | inr (lo, hi) ↦ inr (omega (arith, p.moved, lo), hi)
]

pub Passes-trans : {L L' L'' : Lexer} → Passes L L' → Passes L' L'' → Passes L L''
Passes-trans p q = record {
  read = p.read ++ q.read;
  splits = p.splits ∙ ap (◌++◌ p.read) q.splits ∙ sym (append_assoc p.read q.read _);
  moved = omega (arith, p.moved, q.moved, length-append p.read q.read);
  counted = omega (arith, p.counted, q.counted, newlines-append p.read q.read);
  begun = begun_trans p q;
  same_src = q.same_src ∙ p.same_src;
}

pub Passes-IsAt : {L L' : Lexer} → Passes L L' → IsAt L.src.bytes L.cur → IsAt L.src.bytes L'.cur
Passes-IsAt {L} {L'} p a = record {
  inside =
      omega (arith, p.moved, length-view a, ap length p.splits, length-append p.read L'.cur.bytes);
  view =
      sym (drop-length p.read L'.cur.bytes)
      ∙ ap (drop (length p.read)) (sym p.splits ∙ a.view)
      ∙ drop-drop (length p.read) L.cur.offset L.src.bytes L'.cur.offset (sym p.moved);
}

-- A move over bytes on one line.
move-Passes :
    (n : ℕ) {L : Lexer}
    → n ≤ length L.cur.bytes
    → newlines (take n L.cur.bytes) ≡ 0
    → Passes L (move n L)
move-Passes n {L} h z = record {
  read = take n L.cur.bytes;
  splits = sym (take-append-drop n L.cur.bytes);
  moved = omega (arith, length-take_le n L.cur.bytes h);
  counted = omega (arith, z);
  begun = inl refl;
  same_src = refl;
}

-- A move over bytes the last of which ends a line.
newline-Passes :
    (n : ℕ) {L : Lexer}
    → n ≤ length L.cur.bytes
    → newlines (take n L.cur.bytes) ≡ 1
    → Passes L (newline (move n L))
newline-Passes n {L} h one = record {
  read = take n L.cur.bytes;
  splits = sym (take-append-drop n L.cur.bytes);
  moved = omega (arith, length-take_le n L.cur.bytes h);
  counted = omega (arith, one);
  begun = inr (omega arith, omega arith);
  same_src = refl;
}

-- One byte of a block comment: the line is counted before the byte is passed.
comment_byte-Passes :
    (c : ℕ) (cs : Bytes) {L : Lexer}
    → L.cur.bytes ≡ c ∷ cs
    → Passes L (move 1 (if c == b'\n' then newline L else L))
comment_byte-Passes c cs {L} e = elim (Bool-cases (c == b'\n')) [
  | inl t ↦ rw t (record {
    read = c ∷ [];
    splits = rw e;
    moved = omega arith;
    counted = ground arith;
    begun = inr (omega arith, omega arith);
    same_src = refl;
  })
  | inr t ↦ rw t (move-Passes 1 (rw e (omega arith)) (rw e (ground arith)))
]

comment_byte-bytes :
    (c : ℕ) (cs : Bytes) (L : Lexer)
    → L.cur.bytes ≡ c ∷ cs
    → (move 1 (if c == b'\n' then newline L else L)).cur.bytes ≡ cs
comment_byte-bytes c cs L e = elim (Bool-cases (c == b'\n')) [
  | inl t ↦ rw t (ap (drop 1) e)
  | inr t ↦ rw t (ap (drop 1) e)
]

close_line :
    (c : ℕ) (cs : Bytes)
    → (c == b'*' && get_or cs 0 0 == b'/') ≡ true
    → newlines (take 2 (c ∷ cs)) ≡ 0
close_line c [] e = ground arith
close_line c (d ∷ cs) e = ground arith

close_left : (cs : Bytes) → 0 < get_or cs 0 0 → 2 ≤ suc (length cs)
close_left [] h = absurd (omega arith)
close_left (c ∷ cs) h = omega arith

comment_body-Passes : (bs : Bytes) {L : Lexer} → L.cur.bytes ≡ bs → Passes L (comment_body bs L)
unfolding comment_body
comment_body-Passes [] e = record {
  read = [];
  splits = refl;
  moved = omega arith;
  counted = omega arith;
  begun = inl refl;
  same_src = refl;
}
comment_body-Passes (c ∷ cs) {L} e = elim (Bool-cases (c == b'*' && get_or cs 0 0 == b'/')) [
  | inl t ↦ rw t (move-Passes 2 (rw e (close_left cs (ground arith))) (rw e (close_line c cs t)))
  | inr t ↦
      let step = comment_byte-Passes c cs e in
      rw t (Passes-trans step (comment_body-Passes cs (comment_byte-bytes c cs L e)))
]

pair_line :
    (bs : Bytes)
    → (get_or bs 0 0 == b'\n') ≡ false
    → (get_or bs 1 0 == b'\n') ≡ false
    → newlines (take 2 bs) ≡ 0
pair_line [] p q = refl
pair_line (c ∷ []) p q = ground arith
pair_line (c ∷ d ∷ bs) p q = ground arith

-- Over the two bytes that open a comment.
open_comment-Passes :
    (second : ℕ) {L : Lexer}
    → 0 < second
    → (second == b'\n') ≡ false
    → (peek L == b'/' && peek2 L == second) ≡ true
    → Passes L (move 2 L)
open_comment-Passes second {L} p n e =
    move-Passes 2 (bytes_left L.cur.bytes (ground arith))
      (pair_line L.cur.bytes (ground arith) (ground arith))

not_newline-newlines : (bs : Bytes) → newlines (take (scan_while not_newline bs) bs) ≡ 0
unfolding scan_while
not_newline-newlines [] = refl
not_newline-newlines (c ∷ bs) = ground (arith, not_newline-newlines bs)

-- One round passes over a byte at least.
abbrev pub PassesSome : Lexer → Lexer → Type 0
PassesSome L L' = Passes L L' × (L.cur.offset < L'.cur.offset)

line_comment-PassesSome :
    {L : Lexer} → (peek L == b'/' && peek2 L == b'/') ≡ true → PassesSome L (line_comment L)
unfolding line_comment
line_comment-PassesSome {L} e =
    let rest = drop 2 L.cur.bytes in
    (
      Passes-trans (open_comment-Passes b'/' (omega arith) refl e) (
          move-Passes (scan_while not_newline rest) (scan_while-le not_newline rest)
            (not_newline-newlines rest)),
      omega arith,
    )

block_comment-PassesSome :
    {L : Lexer} → (peek L == b'/' && peek2 L == b'*') ≡ true → PassesSome L (block_comment L)
unfolding block_comment
block_comment-PassesSome {L} e =
    let inside = comment_body-Passes (drop 2 L.cur.bytes) {L = move 2 L} refl in
    (
      Passes-trans (open_comment-Passes b'*' (omega arith) refl e) inside,
      omega (arith, inside.moved),
    )

splice_line :
    (bs : Bytes)
    → (get_or bs 0 0 == b'\\'
        && (get_or bs 1 0 == b'\n' || get_or bs 1 0 == b'\r' && get_or bs 2 0 == b'\n'))
      ≡ true
    → let n : ℕ = if get_or bs 1 0 == b'\r' then 3 else 2 in
      (n ≤ length bs) × (newlines (take n bs) ≡ 1)
splice_line [] e = ground arith
splice_line (c ∷ []) e = ground arith
splice_line (c ∷ d ∷ []) e = ground arith
splice_line (c ∷ d ∷ f ∷ bs) e = ground arith

line_splice-PassesSome : {L : Lexer} → at_splice L ≡ true → PassesSome L (line_splice L)
unfolding line_splice
line_splice-PassesSome {L} e =
    let (left, one) = splice_line L.cur.bytes e in (newline-Passes _ left one, ground arith)

blank_line :
    (bs : Bytes) → is_blank (get_or bs 0 0) ≡ true → (1 ≤ length bs) × (newlines (take 1 bs) ≡ 0)
blank_line [] e = ground arith
blank_line (c ∷ bs) e = ground arith

end_line :
    (bs : Bytes) → (get_or bs 0 0 == b'\n') ≡ true → (1 ≤ length bs) × (newlines (take 1 bs) ≡ 1)
end_line [] e = ground arith
end_line (c ∷ bs) e = ground arith

comments-PassesSome :
    (L L' : Lexer)
    → (if peek L == b'/' && peek2 L == b'/'
        then some (line_comment L)
        else if peek L == b'/' && peek2 L == b'*'
        then some (block_comment L)
        else none)
      ≡ some L'
    → PassesSome L L'
comments-PassesSome L L' e = elim (if-eq-some (peek L == b'/' && peek2 L == b'/') e) [
  | inl (t, h) ↦ subst (PassesSome L) h (line_comment-PassesSome t)
  | inr (_, e₁) ↦ elim (if-eq-some (peek L == b'/' && peek2 L == b'*') e₁) [
    | inl (t, h) ↦ subst (PassesSome L) h (block_comment-PassesSome t)
    | inr (_, e₂) ↦ cc
  ]
]

trivia_step-PassesSome : (L L' : Lexer) → trivia_step L ≡ some L' → PassesSome L L'
unfolding trivia_step
trivia_step-PassesSome L L' e = elim (if-eq-some (is_blank (peek L)) e) [
  | inl (t, h) ↦
      let (left, z) = blank_line L.cur.bytes t in
      subst (PassesSome L) h (move-Passes 1 left z, omega arith)
  | inr (_, e₁) ↦ elim (if-eq-some (peek L == b'\n') e₁) [
    | inl (t, h) ↦
        let (left, one) = end_line L.cur.bytes t in
        subst (PassesSome L) h (newline-Passes 1 left one, omega arith)
    | inr (_, e₂) ↦ elim (if-eq-some (at_splice L) e₂) [
      | inl (t, h) ↦ subst (PassesSome L) h (line_splice-PassesSome t)
      | inr (_, e₃) ↦ comments-PassesSome L L' e₃
    ]
  ]
]

keep_round : (L A B : Lexer) → Passes L A → trivia_step A ≡ some B → Passes L B
keep_round L A B p e = Passes-trans p (trivia_step-PassesSome A B e).0

-- From `L` to the lexer behind `skip_trivia`, the buffer is the same and the cursor went on inside
-- it, the line went up by the newlines in between, and the line began where it did or at a place
-- gone by.
pub skip_trivia-Passes : (L : Lexer) → Passes L (skip_trivia L)
unfolding skip_trivia
skip_trivia-Passes L =
    iterate_inv (Passes L) trivia_step (keep_round L) (suc (length L.cur.bytes)) L Passes-refl

fewer_left : (A B : Lexer) → trivia_step A ≡ some B → length B.cur.bytes < length A.cur.bytes
fewer_left A B e =
    let (p, less) = trivia_step-PassesSome A B e in
    omega (arith, p.moved, ap length p.splits, length-append p.read B.cur.bytes)

-- The loop of `skip_trivia` ends by its `break`, in every state: behind it stands no white space, no
-- line splice and no comment.
pub trivia_step-skip_trivia : (L : Lexer) → trivia_step (skip_trivia L) ≡ none
unfolding skip_trivia
trivia_step-skip_trivia L =
    iterate_done (λ _. Unit {0}) (λ A. length A.cur.bytes) trivia_step
      (λ A B _ e. (tt, fewer_left A B e)) (suc (length L.cur.bytes)) L tt (omega arith)
