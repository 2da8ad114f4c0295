-- ===== src/Scanner/Fread.antt =====
-- The reads of YY_INPUT of Assig1/lex.yy.c, and the size of the buffer that they go to.
use c.Base.{
  Bool, ◌%◌, ℕ, zero, suc, ◌+◌, ◌-◌, ◌*◌, ◌<◌, ◌≤◌, ◌≡◌, refl, true, false, [], ◌∷◌, ◌==◌, ltb,
  arith, inl, inr, Bool-cases, Text, length,
}
use c.Base.Run.{Returns, returns}
use c.Scanner.Buffer.{getc_line, double, grow, yy_input}

-- what fread does: no more than it is asked for, no more than there is, and nothing only at the end
pub record IsFread (fread : ℕ → Text → ℕ) : Type 0 where
  pub at_most : (max_size : ℕ) (unread : Text) → fread max_size unread ≤ max_size
  pub from : (max_size : ℕ) (unread : Text) → fread max_size unread ≤ length unread
  pub gives :
      (max_size : ℕ) (unread : Text) → 0 < max_size → fread max_size unread ≡ 0 → unread ≡ []

double_lem : (size : ℕ) → 0 < size → size < 4611686018427387905 → double size ≡ size * 2
unfolding double
double_lem size pos small = rw (wide, positive) refl
  where
    wide : size * 2 % 18446744073709551616 ≡ size * 2
    wide = omega arith

    positive : (size * 2 == 0) ≡ false
    positive = ground arith

-- there is room for a character more, and the size does not wrap around
pub grow_lem :
    (ours : Bool) (start move size : ℕ)
    → ours ≡ true
    → start + move < size
    → move < 2147483647
    → size < 9223372036854775809
    → Returns
        (λ n. (move + 1 < n) × (n < 9223372036854775809))
        (grow 2 ours (start + move + 1) move size)
unfolding grow
grow_lem ours start move size is fits moved small =
    rw is (elim (Bool-cases (size - move - 1 == 0)) [
      | inr x ↦ rw (grow, below size (omega arith), x) (returns (ground arith, small))
      | inl x ↦
          let twice = double_lem size (omega arith) (ground arith) in
          rw
            (
              grow,
              below size (omega arith),
              x,
              near (ground arith),
              below (double size) (omega arith),
              larger (double size) twice,
            )
            (returns (ground arith, ground arith))
    ])
  where
    below : (n : ℕ) → move < n → ltb move n ≡ true
    below n lt = ground arith

    near : start + move + 1 < 2147483648 → ltb (start + move + 1) 2147483648 ≡ true
    near lt = ground arith

    larger : (n : ℕ) → n ≡ size * 2 → (n - move - 1 == 0) ≡ false
    larger n twice = ground arith

getc_line_lem :
    (max_size : ℕ) (unread : Text)
    → (getc_line max_size unread ≤ max_size) × (getc_line max_size unread ≤ length unread)
unfolding getc_line
getc_line_lem zero unread = (omega arith, omega arith)
getc_line_lem (suc max_size) [] = (omega arith, omega arith)
getc_line_lem (suc max_size) (c ∷ unread) = elim (Bool-cases (c == 10)) [
  | inl x ↦ rw x (omega arith, omega arith)
  | inr x ↦
      let rest = getc_line_lem max_size unread in
      rw x (omega (arith, rest.0), omega (arith, rest.1))
]

getc_line_gives :
    (max_size : ℕ) (unread : Text) → 0 < max_size → getc_line max_size unread ≡ 0 → unread ≡ []
unfolding getc_line
getc_line_gives zero unread pos z = absurd (omega arith)
getc_line_gives (suc max_size) [] pos z = refl
getc_line_gives (suc max_size) (c ∷ unread) pos z = absurd (ground arith)

-- the read of YY_INPUT is one of fread's kind, also when it ends behind a line
pub yy_input-IsFread :
    (fread : ℕ → Text → ℕ) (interactive : Bool)
    → IsFread fread
    → IsFread (yy_input fread interactive)
unfolding yy_input
yy_input-IsFread fread true is = record {
  at_most = λ max_size unread. (getc_line_lem max_size unread).0;
  from = λ max_size unread. (getc_line_lem max_size unread).1;
  gives = getc_line_gives;
}
yy_input-IsFread fread false is = is
