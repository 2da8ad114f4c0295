-- ===== src/Scanner/Checks.antt =====
-- Facts about the tables of Assig1/lex.yy.c that are checked entry by entry.
use c.Base.{
  ℕ, zero, suc, ◌<◌, ◌≡◌, refl, sym, ap, ◌∙◌, Bool, true, false, not, ◌&&◌, ◌||◌, ltb, ◌==◌, ==_iff,
  arith, inl, inr, Bool-cases,
}
use c.Base.Run.{Run, ok, fault}
use c.Scanner.{at, transition}
use c.Scanner.Tables.{yy_accept, yy_ec, yy_meta, yy_base, yy_def, yy_nxt, yy_chk}

-- a test holds of all numbers below a bound
abbrev all_below : ℕ → (ℕ → Bool) → Bool
all_below zero f = true
all_below (suc n) f = f n && all_below n f

all_below-lt : (n : ℕ) (f : ℕ → Bool) → all_below n f ≡ true → (i : ℕ) → i < n → f i ≡ true
all_below-lt zero f h i lt = absurd (omega arith)
all_below-lt (suc n) f h i lt = elim (Bool-cases (i == n)) [
  | inl x ↦ ap f ((==_iff i n).0 x) ∙ both.0
  | inr x ↦ all_below-lt n f both.1 i (ground arith)
]
  where
    both : (f n ≡ true) × (all_below n f ≡ true)
    both = ground arith

-- a state that a text leads to
abbrev pub is_state : ℕ → Bool
is_state s = ltb 0 s && ltb s 79 && not (s == 3)

-- from a state with a base of 127 there is no way on
abbrev good_step : ℕ → Run ℕ → Bool
good_step s (ok next) = is_state next && (not (at yy_base s == 127) || next == 78)
good_step s (fault e) = false

good_check :
    all_below 79 (λ s. not (is_state s) || all_below 45 (λ c. good_step s (transition 3 s (suc c))))
    ≡ true
unfolding transition yy_accept yy_ec yy_meta yy_base yy_def yy_nxt yy_chk
good_check = refl

abbrev to_end : ℕ → Run ℕ → Bool
to_end s (ok next) = next == 3
to_end s (fault e) = false

abbrev end_test : ℕ → Bool
end_test s = not (is_state s) || at yy_base s == 127 || to_end s (transition 3 s 0)

end_check : all_below 79 end_test ≡ true
unfolding transition yy_accept yy_ec yy_meta yy_base yy_def yy_nxt yy_chk
end_check = refl

abbrev accept_test : ℕ → Bool
accept_test s = not (is_state s) || not (at yy_accept s == 11)

accept_check : all_below 79 accept_test ≡ true
unfolding yy_accept
accept_check = refl

abbrev class_test : ℕ → Bool
class_test b = ltb 0 (at yy_ec (suc b)) && ltb (at yy_ec (suc b)) 46

class_check : all_below 255 class_test ≡ true
unfolding yy_ec
class_check = refl

abbrev accepts : Run ℕ → Bool
accepts (ok next) = not (at yy_accept next == 0)
accepts (fault e) = false

start_check : all_below 45 (λ c. accepts (transition 3 1 (suc c))) ≡ true
unfolding transition yy_accept yy_ec yy_meta yy_base yy_def yy_nxt yy_chk
start_check = refl

-- a byte of a text, which has no NUL
abbrev pub IsByte : ℕ → Type 0
IsByte b = (0 < b) × (b < 256)

abbrev value : Run ℕ → ℕ
value (ok s) = s
value (fault e) = 78

-- the state after a byte
unfoldable pub delta : ℕ → ℕ → ℕ
delta s b = value (transition 3 s (at yy_ec b))

implied : (a b : Bool) → (not a || b) ≡ true → a ≡ true → b ≡ true
implied a b h x = ground arith

is_false : (a : Bool) → not a ≡ true → a ≡ false
is_false a h = ground arith

both : (a b c : Bool) → (a && (not b || c)) ≡ true → (a ≡ true) × (b ≡ true → c ≡ true)
both a b c h = ground arith

either : (a b c : Bool) → (not a || b || c) ≡ true → a ≡ true → b ≡ false → c ≡ true
either a b c h x y = ground arith

state_lt : (s : ℕ) → is_state s ≡ true → s < 79
state_lt s h = ground arith

class_lem : (b : ℕ) → IsByte b → (0 < at yy_ec b) × (at yy_ec b < 46)
class_lem zero is = absurd (omega arith)
class_lem (suc b) is =
    let found = all_below-lt 255 class_test class_check b (omega arith) in ground arith

at_class : (s c : ℕ) → is_state s ≡ true → 0 < c → c < 46 → good_step s (transition 3 s c) ≡ true
at_class s zero h pos lt = absurd (omega arith)
at_class s (suc c) h pos lt =
    all_below-lt 45 (λ c. good_step s (transition 3 s (suc c)))
      (implied (is_state s) _
        (all_below-lt 79
          (λ s. not (is_state s) || all_below 45 (λ c. good_step s (transition 3 s (suc c))))
          good_check s (state_lt s h))
        h)
      c (omega arith)

-- a byte leads from a state to a state, and to the jam from a state that has no way on
pub record Steps (s b : ℕ) : Type 0 where
  pub moves : transition 3 s (at yy_ec b) ≡ ok (delta s b)
  pub is : is_state (delta s b) ≡ true
  pub jams : (at yy_base s == 127) ≡ true → delta s b ≡ 78

pub steps : (s b : ℕ) → is_state s ≡ true → IsByte b → Steps s b
unfolding delta
steps s b h byte =
    let class = class_lem b byte in
    by_result (transition 3 s (at yy_ec b)) refl (at_class s (at yy_ec b) h class.0 class.1)
  where
    by_result : (r : Run ℕ) → transition 3 s (at yy_ec b) ≡ r → good_step s r ≡ true → Steps s b
    by_result (fault e) eq good = cc
    by_result (ok next) eq good =
        let v = ap value eq in
        record {
          moves = eq ∙ ap ok (sym v);
          is = ap is_state v ∙ (split good).0;
          jams = λ j. v ∙ (split good).1 j;
        }
      where
        split :
            good_step s (ok next) ≡ true
            → (is_state next ≡ true) × ((at yy_base s == 127) ≡ true → next ≡ 78)
        split h =
            let (a, b) = both (is_state next) (at yy_base s == 127) (next == 78) h in
            (a, λ j. (==_iff next 78).0 (b j))

pub ends : (s : ℕ) → is_state s ≡ true → (at yy_base s == 127) ≡ false → transition 3 s 0 ≡ ok 3
ends s h goes = by_result (transition 3 s 0) (
    either (is_state s) (at yy_base s == 127) _
      (all_below-lt 79 end_test end_check s (state_lt s h)) h goes)
  where
    by_result : (r : Run ℕ) → to_end s r ≡ true → r ≡ ok 3
    by_result (fault e) x = cc
    by_result (ok next) x = ap ok ((==_iff next 3).0 x)

pub no_end : (s : ℕ) → is_state s ≡ true → (at yy_accept s == 11) ≡ false
no_end s h =
    is_false _
      (implied (is_state s) _ (all_below-lt 79 accept_test accept_check s (state_lt s h)) h)

pub start_accepts : (b : ℕ) → IsByte b → (at yy_accept (delta 1 b) == 0) ≡ false
unfolding delta
start_accepts b byte = let class = class_lem b byte in by_class (at yy_ec b) class.0 class.1
  where
    by_run : (r : Run ℕ) → accepts r ≡ true → (at yy_accept (value r) == 0) ≡ false
    by_run (ok s) h = ground arith
    by_run (fault e) h = cc

    by_class : (c : ℕ) → 0 < c → c < 46 → (at yy_accept (value (transition 3 1 c)) == 0) ≡ false
    by_class zero pos lt = absurd (omega arith)
    by_class (suc c) pos lt =
        by_run (transition 3 1 (suc c))
          (all_below-lt 45 (λ c. accepts (transition 3 1 (suc c))) start_check c (omega arith))

abbrev rule_test : ℕ → Bool
rule_test s = not (is_state s) || ltb (at yy_accept s) 11

rule_check : all_below 79 rule_test ≡ true
unfolding yy_accept
rule_check = refl

pub rule_lt : (s : ℕ) → is_state s ≡ true → at yy_accept s < 11
rule_lt s h =
    below _ (implied (is_state s) _ (all_below-lt 79 rule_test rule_check s (state_lt s h)) h)
  where
    below : (n : ℕ) → ltb n 11 ≡ true → n < 11
    below n x = ground arith
