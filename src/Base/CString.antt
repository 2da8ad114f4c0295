-- ===== src/Base/CString.antt =====
-- C strings as the lists of their bytes, without the closing NUL, and `strcmp(a, b) == 0`.
use Prim.Native.Nat.{compare, Ordering, ℕ}
use Prim.Native.Char.{code}
use Prim.Native.String.{String}
use mathlib.Core.Path.{◌≡◌, refl}
use mathlib.Core.Logic.{◌↔◌}
use mathlib.Core.Bool.{Bool, true, false, ◌&&◌}
use mathlib.Core.List.{List, [], ◌∷◌}
use native.Mathlib.Omega.{arith}
use c.Base.Tests.{◌==◌}

abbrev pub Text : Type 0
Text = List ℕ

-- The bytes of a string literal.
abbrev pub codes : String → Text
codes String.[] = []
codes (String.◌∷◌ x s) = code x ∷ codes s

unfoldable pub streq : Text → Text → Bool
streq [] [] = true
streq [] (y ∷ ys) = false
streq (x ∷ xs) [] = false
streq (x ∷ xs) (y ∷ ys) = x == y && streq xs ys

pub streq_refl : (a : Text) → streq a a ≡ true
unfolding streq
streq_refl [] = refl
streq_refl (x ∷ xs) = ground (arith, streq_refl xs)

pub streq_symm : (a b : Text) → streq a b ≡ streq b a
unfolding streq
streq_symm [] [] = refl
streq_symm [] (y ∷ ys) = refl
streq_symm (x ∷ xs) [] = refl
streq_symm (x ∷ xs) (y ∷ ys) = ground (arith, streq_symm xs ys)

pub streq→eq : (a b : Text) → streq a b ≡ true → a ≡ b
unfolding streq
streq→eq [] [] h = refl
streq→eq [] (y ∷ ys) h = cc
streq→eq (x ∷ xs) [] h = cc
streq→eq (x ∷ xs) (y ∷ ys) h = ground (arith, streq→eq xs ys)

pub streq_iff : (a b : Text) → (streq a b ≡ true) ↔ (a ≡ b)
streq_iff a b = (streq→eq a b, λ e. rw e (streq_refl b))

-- strcmp, as the sign of its result
unfoldable pub strcmp : Text → Text → Ordering
strcmp [] [] = Ordering.eq
strcmp [] (b ∷ t) = Ordering.lt
strcmp (a ∷ s) [] = Ordering.gt
strcmp (a ∷ s) (b ∷ t) =
    let rest = strcmp s t in
    elim (compare a b) [
      | Ordering.eq ↦ rest
      | Ordering.lt ↦ Ordering.lt
      | Ordering.gt ↦ Ordering.gt
    ]
