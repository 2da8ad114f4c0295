-- ===== src/Scanner/Longest.antt =====
-- The automaton of Assig1/lex.yy.c without its buffer: the longest prefix of a text that it accepts.
use c.Base.{
  ℕ, zero, suc, ◌+◌, ◌<◌, ◌≤◌, ◌≡◌, ◌≢◌, ◌⊎◌, refl, ap, ◌∙◌, true, false, [], ◌∷◌, ◌==◌, ==_iff,
  arith, if◌then◌else◌, inl, inr, Bool-cases, Text, length, take,
}
use c.Scanner.{at}
use c.Scanner.Tables.{yy_accept, yy_base}
use c.Scanner.Checks.{delta, IsByte, is_state, steps}

-- the state after a text
unfoldable pub run : ℕ → Text → ℕ
run s [] = s
run s (b ∷ text) = run (delta s b) text

-- the rule that accepts a text, or 0
unfoldable pub rule : ℕ → Text → ℕ
unfolding run
rule s text = at yy_accept (run s text)

-- the action and the length of the text up to a state, if the state accepts
unfoldable pub keep : ℕ → ℕ → ℕ × ℕ → ℕ × ℕ
keep s k acc = if at yy_accept s == 0 then acc else (at yy_accept s, k)

-- the last accepting state on the way through the whole text
unfoldable pub best : Text → ℕ → ℕ → ℕ × ℕ → ℕ × ℕ
unfolding keep
best [] s k acc = keep s k acc
best (b ∷ text) s k acc = best text (delta s b) (suc k) (keep s k acc)

-- every byte of a text is one
abbrev pub IsText : Text → Type 0
IsText [] = Unit
IsText (b ∷ text) = IsByte b × IsText text

-- a result of `best` that is a prefix of the text, `k` being what came before
pub record Longest (text : Text) (s k : ℕ) (r : ℕ × ℕ) : Type 0 where
  pub len : ℕ
  pub within : len ≤ length text
  pub act : r.0 ≡ rule s (take len text)
  pub place : r.1 ≡ k + len
  pub accepted : rule s (take len text) ≢ 0
  pub longest : (m : ℕ) → len < m → m ≤ length text → rule s (take m text) ≡ 0

pub best_cases :
    (text : Text) (s k : ℕ) (acc : ℕ × ℕ)
    → (best text s k acc ≡ acc) × ((m : ℕ) → m ≤ length text → rule s (take m text) ≡ 0)
      ⊎ Longest text s k (best text s k acc)
unfolding best keep rule run
best_cases [] s k acc = elim (Bool-cases (at yy_accept s == 0)) [
  | inl x ↦ inl (rw x refl, λ m le. nothing m ∙ (==_iff (at yy_accept s) 0).0 x)
  | inr x ↦ inr (
      rw x (record {
        len = 0;
        within = omega arith;
        act = refl;
        place = omega arith;
        accepted = ground arith;
        longest = λ m lt le. absurd (omega arith);
      }))
]
  where
    nothing : (m : ℕ) → rule s (take m []) ≡ at yy_accept s
    nothing zero = refl
    nothing (suc m) = refl
best_cases (b ∷ text) s k acc = elim (best_cases text (delta s b) (suc k) (keep s k acc)) [
  | inr l ↦ inr (record {
    len = suc l.len;
    within = omega (arith, l.within);
    act = l.act;
    place = omega (arith, l.place);
    accepted = l.accepted;
    longest = λ m. later l m;
  })
  | inl (same, none_later) ↦ elim (Bool-cases (at yy_accept s == 0)) [
    | inl x ↦
        inl (same ∙ rw (keep, x) refl, λ m. none_at ((==_iff (at yy_accept s) 0).0 x) none_later m)
    | inr x ↦ inr (
        rw same (
          rw (keep, x)
            (record {
              len = 0;
              within = omega arith;
              act = refl;
              place = omega arith;
              accepted = ground arith;
              longest = λ m. beyond none_later m;
            })))
  ]
]
  where
    later :
        (l : Longest text (delta s b) (suc k) (best text (delta s b) (suc k) (keep s k acc)))
        (m : ℕ)
        → suc l.len < m
        → m ≤ length (b ∷ text)
        → rule s (take m (b ∷ text)) ≡ 0
    later l zero lt le = absurd (omega arith)
    later l (suc m) lt le = l.longest m (omega arith) (omega arith)

    none_at :
        at yy_accept s ≡ 0
        → ((m : ℕ) → m ≤ length text → rule (delta s b) (take m text) ≡ 0)
        → (m : ℕ) → m ≤ length (b ∷ text)
        → rule s (take m (b ∷ text)) ≡ 0
    none_at here rest zero le = here
    none_at here rest (suc m) le = rest m (omega arith)

    beyond :
        ((m : ℕ) → m ≤ length text → rule (delta s b) (take m text) ≡ 0)
        → (m : ℕ) → 0 < m
        → m ≤ length (b ∷ text)
        → rule s (take m (b ∷ text)) ≡ 0
    beyond rest zero lt le = absurd (omega arith)
    beyond rest (suc m) lt le = rest m (omega arith)

keep_fresh :
    (s k : ℕ) (acc acc' : ℕ × ℕ) → (at yy_accept s == 0) ≡ false → keep s k acc ≡ keep s k acc'
unfolding keep
keep_fresh s k acc acc' h = rw h

-- where the state accepts, what came before does not matter
pub best_fresh :
    (text : Text) (s k : ℕ) (acc acc' : ℕ × ℕ)
    → (at yy_accept s == 0) ≡ false
    → best text s k acc ≡ best text s k acc'
unfolding best
best_fresh [] s k acc acc' h = rw (keep, h)
best_fresh (b ∷ text) s k acc acc' h =
    ap (best text (delta s b) (suc k)) (keep_fresh s k acc acc' h)

jam_base : (at yy_base 78 == 127) ≡ true
unfolding yy_base
jam_base = refl

jam_keep : (k : ℕ) (acc : ℕ × ℕ) → keep 78 k acc ≡ acc
unfolding keep yy_accept
jam_keep k acc = refl

-- from a state without a way on nothing more is accepted
pub best_dead :
    (text : Text) (s k : ℕ) (acc : ℕ × ℕ)
    → is_state s ≡ true
    → (at yy_base s == 127) ≡ true
    → IsText text
    → best text s k acc ≡ keep s k acc
unfolding best
best_dead [] s k acc is dead bytes = refl
best_dead (b ∷ text) s k acc is dead bytes =
    ap (λ n. best text n (suc k) (keep s k acc)) ((steps s b is bytes.0).jams dead)
    ∙ best_dead text 78 (suc k) (keep s k acc) refl jam_base bytes.1
    ∙ jam_keep (suc k) (keep s k acc)
