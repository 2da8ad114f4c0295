-- ===== src/Base/Decimal.antt =====
-- `sprintf(buf, "%d", n)` for an int that is not negative: its decimal digits.
use Prim.Native.Nat.{ℕ, zero, suc, ◌+◌, ◌-◌, ◌*◌, ◌/◌, ◌%◌, ◌^◌, ◌≤◌, ◌<◌}
use mathlib.Core.Path.{◌≡◌, refl, ◌∙◌}
use mathlib.Core.Bool.{Bool, true, false, ◌&&◌}
use mathlib.Core.List.{[], ◌∷◌, ◌++◌}
use native.Mathlib.Omega.{arith}
use c.Base.Tests.{leb, ltb, if◌then◌else◌}
use c.Base.Lists.{length}
use c.Base.CString.{Text}

abbrev pub is_digit : ℕ → Bool
is_digit b = leb b'0' b && leb b b'9'

-- The digits of `n` in front of `acc`; each round takes one digit off, so `n + 1` rounds are enough.
unfoldable pub digits : ℕ → ℕ → Text → Text
digits zero n acc = acc
digits (suc fuel) n acc =
    let rest = digits fuel (n / 10) ((b'0' + n % 10) ∷ acc) in
    if ltb n 10 then (b'0' + n) ∷ acc else rest

unfoldable pub decimal : ℕ → Text
unfolding digits
decimal n = digits (n + 1) n []

-- the number that leading digits stand for, read after the value `v`
unfoldable pub value : ℕ → Text → ℕ
value v [] = v
value v (b ∷ text) = if is_digit b then value (v * 10 + (b - b'0')) text else v

-- what follows the leading digits
unfoldable pub after_digits : Text → Text
after_digits [] = []
after_digits (b ∷ text) = if is_digit b then after_digits text else b ∷ text

abbrev pub no_digit_first : Text → Bool
no_digit_first [] = true
no_digit_first (b ∷ text) = if is_digit b then false else true

-- multiply out: reading the digits of `n` and then `acc` from 0 is reading `acc` from `n`
value-digits :
    (fuel n : ℕ) (acc rest : Text)
    → n < fuel
    → value 0 (digits fuel n acc ++ rest) ≡ value n (acc ++ rest)
unfolding digits value
value-digits zero n acc rest h = absurd (omega arith)
value-digits (suc fuel) n acc rest h =
    ground (arith, value-digits fuel (n / 10) ((b'0' + n % 10) ∷ acc) rest)

after_digits-digits :
    (fuel n : ℕ) (acc rest : Text)
    → n < fuel
    → after_digits (digits fuel n acc ++ rest) ≡ after_digits (acc ++ rest)
unfolding digits after_digits
after_digits-digits zero n acc rest h = absurd (omega arith)
after_digits-digits (suc fuel) n acc rest h =
    ground (arith, after_digits-digits fuel (n / 10) ((b'0' + n % 10) ∷ acc) rest)

value-rest : (n : ℕ) (rest : Text) → no_digit_first rest ≡ true → value n rest ≡ n
unfolding value
value-rest n [] h = refl
value-rest n (b ∷ rest) h = ground arith

after_digits-rest : (rest : Text) → no_digit_first rest ≡ true → after_digits rest ≡ rest
unfolding after_digits
after_digits-rest [] h = refl
after_digits-rest (b ∷ rest) h = ground arith

pub value-decimal :
    (n : ℕ) (rest : Text) → no_digit_first rest ≡ true → value 0 (decimal n ++ rest) ≡ n
unfolding decimal
value-decimal n rest h = value-digits (n + 1) n [] rest (omega arith) ∙ value-rest n rest h

pub after_digits-decimal :
    (n : ℕ) (rest : Text) → no_digit_first rest ≡ true → after_digits (decimal n ++ rest) ≡ rest
unfolding decimal
after_digits-decimal n rest h =
    after_digits-digits (n + 1) n [] rest (omega arith) ∙ after_digits-rest rest h

length-digits :
    (w fuel n : ℕ) (acc : Text)
    → n < fuel
    → n < 10 ^ suc w
    → length (digits fuel n acc) ≤ suc w + length acc
unfolding digits
length-digits w zero n acc h k = absurd (omega arith)
length-digits zero (suc fuel) n acc h k = ground arith
length-digits (suc w) (suc fuel) n acc h k =
    ground (arith, length-digits w fuel (n / 10) ((b'0' + n % 10) ∷ acc))

pub length-decimal : (w n : ℕ) → n < 10 ^ suc w → length (decimal n) ≤ suc w
unfolding decimal
length-decimal w n h = omega (arith, length-digits w (n + 1) n [] (omega arith) h)
