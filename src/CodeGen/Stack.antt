-- ===== src/CodeGen/Stack.antt =====
-- The label stack of Assig4/codegen.c against a list, its bottom first.
use c.Base.{
  get_or-append_last, get_or-append_left, get_or-set_snoc, length-snoc, ℕ, zero, suc, ◌≤◌, ◌<◌, ◌≡◌,
  refl, ap, ◌∙◌, Bool, true, false, List, [], ◌∷◌, ◌++◌, arith, if◌then◌else◌, ltb, lt→ltb, le→ltb,
  length, length-set, get_or, set,
}
use c.Base.Int.{ℤ, pos, negsuc, is_negative, at_least, increment, decrement}
use c.Base.Run.{Run, ok, fault, out_of_bounds, ◌>>=◌, Returns, returns}

-- STACK_SIZ
abbrev pub stack_siz : ℕ
stack_siz = 1000

-- `intstack_t`
pub record IntStack : Type 0 where
  pub stack : List ℤ
  pub index : ℤ

-- `cells[i] = v` and `cells[i]`
unfoldable pub write_cell : List ℤ → ℤ → ℤ → Run (List ℤ)
write_cell cells (pos i) v =
    if ltb i (length cells) then ok (set cells i v) else fault out_of_bounds
write_cell cells (negsuc i) v = fault out_of_bounds

unfoldable pub read_cell : List ℤ → ℤ → Run ℤ
read_cell cells (pos i) =
    if ltb i (length cells) then ok (get_or cells i (pos 0)) else fault out_of_bounds
read_cell cells (negsuc i) = fault out_of_bounds

-- `cells` is what `malloc` leaves in the array
unfoldable pub s_init : (cells : List ℤ) → IntStack
s_init cells = record { stack = cells; index = negsuc 0 }

unfoldable pub s_push : IntStack → ℤ → Run (IntStack × Bool)
unfolding write_cell
s_push s n = if at_least stack_siz s.index then ok (s, false) else do
  cells ← write_cell s.stack (increment s.index) n
  ok (record { stack = cells; index = increment s.index }, true)

unfoldable pub s_get : IntStack → Run ℤ
unfolding read_cell
s_get s = if is_negative s.index then ok (negsuc 0) else read_cell s.stack s.index

unfoldable pub s_pop : IntStack → IntStack × Bool
s_pop s = if is_negative s.index then (s, false) else (record s { index = decrement s.index }, true)

-- the index of a stack of `n` labels
abbrev pub top_of : ℕ → ℤ
top_of zero = negsuc 0
top_of (suc n) = pos n

-- the stack holds the labels `xs`, the bottom first
pub record Holds (s : IntStack) (xs : List ℤ) : Type 0 where
  pub cells : length s.stack ≡ stack_siz
  pub fits : length xs ≤ stack_siz
  pub index : s.index ≡ top_of (length xs)
  pub reads : (i : ℕ) → i < length xs → get_or s.stack i (pos 0) ≡ get_or xs i (pos 0)

pub s_init-Holds : (cells : List ℤ) → length cells ≡ stack_siz → Holds (s_init cells) []
unfolding s_init
s_init-Holds cells h = record {
  cells = h;
  fits = omega arith;
  index = refl;
  reads = λ i lt. absurd (omega arith);
}

increment-top_of : (n : ℕ) → increment (top_of n) ≡ pos n
increment-top_of zero = refl
increment-top_of (suc n) = refl

decrement-top_of : (n : ℕ) → decrement (top_of (suc n)) ≡ top_of n
decrement-top_of zero = refl
decrement-top_of (suc n) = refl

at_least-top_of : (n : ℕ) → n ≤ stack_siz → at_least stack_siz (top_of n) ≡ false
at_least-top_of zero h = refl
at_least-top_of (suc n) h = ground arith

module _ {s : IntStack} {xs : List ℤ} (holds : Holds s xs) where
  -- With room for one more label, s_push succeeds and puts the label on top.
  pub s_push_lem :
      (n : ℤ)
      → length xs < stack_siz
      → Returns (λ r. (r.1 ≡ true) × Holds r.0 (xs ++ n ∷ [])) (s_push s n)
  unfolding s_push write_cell
  s_push_lem n h =
      rw
        (
          holds.index,
          at_least-top_of (length xs) (omega arith),
          increment-top_of (length xs),
          write_cell,
          lt→ltb (length xs) (length s.stack) (omega (arith, holds.cells)),
        )
        (returns (
          refl,
          record {
            cells = length-set s.stack (length xs) n ∙ holds.cells;
            fits = omega (arith, length-snoc xs n);
            index = rw (length-snoc xs n);
            reads = get_or-set_snoc s.stack xs n (pos 0) (omega (arith, holds.cells)) holds.reads;
          },
        ))

  -- On a stack of 1000 labels the guard of s_push passes, and the write is one past the array.
  pub s_push_full : (n : ℤ) → length xs ≡ stack_siz → s_push s n ≡ fault out_of_bounds
  unfolding s_push write_cell
  s_push_full n h = rw (
    holds.index,
    at_least-top_of (length xs) (omega arith),
    increment-top_of (length xs),
    write_cell,
    le→ltb (length xs) (length s.stack) (omega (arith, holds.cells)),
  )

module _ {s : IntStack} (xs : List ℤ) (n : ℤ) (holds : Holds s (xs ++ n ∷ [])) where
  s_get_top : s_get s ≡ ok n
  unfolding s_get read_cell
  s_get_top =
      rw
        (
          holds.index,
          length-snoc xs n,
          read_cell,
          lt→ltb (length xs) (length s.stack)
              (omega (arith, holds.cells, holds.fits, length-snoc xs n)),
        )
        (ap ok (
          holds.reads (length xs) (omega (arith, length-snoc xs n))
          ∙ get_or-append_last xs n (pos 0)))

  s_pop_top : ((s_pop s).1 ≡ true) × Holds (s_pop s).0 xs
  unfolding s_pop
  s_pop_top =
      rw (holds.index, length-snoc xs n)
        (
          refl,
          record {
            cells = holds.cells;
            fits = omega (arith, holds.fits, length-snoc xs n);
            index = decrement-top_of (length xs);
            reads = λ i lt.
                holds.reads i (omega (arith, length-snoc xs n))
                ∙ get_or-append_left xs n (pos 0) i lt;
          },
        )

  -- On a stack that is not empty s_get returns the top label and s_pop takes it off.
  pub top_lem : (s_get s ≡ ok n) × ((s_pop s).1 ≡ true) × Holds (s_pop s).0 xs
  top_lem = (s_get_top, s_pop_top.0, s_pop_top.1)

-- On an empty stack s_get returns -1, and s_pop returns false and changes nothing.
pub empty_lem : {s : IntStack} → Holds s [] → (s_get s ≡ ok (negsuc 0)) × (s_pop s ≡ (s, false))
unfolding s_get s_pop
empty_lem holds = (rw holds.index, rw holds.index)
