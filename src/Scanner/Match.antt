-- ===== src/Scanner/Match.antt =====
-- What yylex of Assig1/lex.yy.c takes from its buffer against the longest prefix that is accepted.
use c.Base.{
  false-ne-true, ℕ, zero, suc, ◌+◌, ◌-◌, ◌<◌, ◌≤◌, ◌≡◌, ◌≢◌, refl, sym, ap, ◌∙◌, true, false,
  Option, none, some, [], ◌∷◌, ◌==◌, arith, inl, inr, Text, length, take,
}
use c.Base.Run
use c.Base.Run.{Run, ok, fault, ◌>>=◌, Returns, returns}
use c.Scanner.{
  at, transition, Last, note, yy_match, yy_find_action, yy_get_previous_state, yy_end_of_buffer,
  scan_token,
}
use c.Scanner.Tables.{yy_accept, yy_base, yy_ec}
use c.Scanner.Checks.{delta, IsByte, steps, start_accepts}
use c.Scanner.Longest.{run, rule, keep, best, IsText, Longest, best_cases, best_fresh}
use c.Scanner.Loop.{closed, back_up, match_round, continue, Matched, continue_lem, previous_lem}
use mathlib.Core.List.{append-nil}

-- scan_token behind the loop at yy_match
unfoldable decide : Text → ℕ × ℕ × Last → Run (Option (ℕ × ℕ) × Last)
unfolding yy_find_action yy_get_previous_state
decide text (state, cp, last) = elim ((yy_find_action state cp last).0 == yy_end_of_buffer) [
  | false ↦ ok (some (yy_find_action state cp last), last)
  | true ↦ elim ((yy_find_action state cp last).1 - 1 == 0) [
    | true ↦ ok (none, last)
    | false ↦ do
      (state, last) ← yy_get_previous_state text 1 0 last
      ok (some (yy_find_action state (length text) last), last)
  ]
]

scan_round :
    (text : Text) (last : Last)
    → scan_token text last ≡ (yy_match (closed text) 1 0 last >>= decide text)
unfolding scan_token decide
scan_round text last = refl

decide_rule :
    (text : Text) (r : ℕ × ℕ × Last)
    → ((yy_find_action r.0 r.1 r.2).0 == yy_end_of_buffer) ≡ false
    → decide text r ≡ ok (some (yy_find_action r.0 r.1 r.2), r.2)
unfolding decide
decide_rule text (s, k, last) h = rw (decide, h)

decide_end :
    (text : Text) (n : ℕ)
    → decide text (78, suc n + 1 + 1, record { state = 3; cpos = suc n + 1 }) ≡ (
        yy_get_previous_state text 1 0 (record { state = 3; cpos = suc n + 1 }) >>= λ r.
        ok (some (yy_find_action r.0 (length text) r.1), r.1))
unfolding decide yy_find_action yy_accept
decide_end text n = rw (decide, not_first)
  where
    not_first : (suc n + 1 - 1 == 0) ≡ false
    not_first = ground arith

first_round :
    (b : ℕ) (text : Text) (last : Last)
    → IsByte b
    → yy_match (closed (b ∷ text)) 1 0 last ≡ continue text (delta 1 b) (0 + 1) (note 1 0 last)
unfolding continue
first_round b text last byte =
    match_round b (closed text) 1 0 (delta 1 b) last (steps 1 b refl byte).moves

-- for a text that is left, the scanner's answer is the last accepting state on the way through it
pub scan_token-best :
    (b : ℕ) (text : Text) (last : Last)
    → IsText (b ∷ text)
    → Returns (λ r. r.0 ≡ some (best (b ∷ text) 1 0 (0, 0))) (scan_token (b ∷ text) last)
unfolding best
scan_token-best b text last bytes =
    let step = steps 1 b refl bytes.0 in
    let accepted = start_accepts b bytes.0 in
    rw (scan_round (b ∷ text) last, first_round b text last bytes.0)
      (Run.bind
        (continue_lem text [] (delta 1 b) (0 + 1) (note 1 0 last) step.is
          (λ x later. absurd (false-ne-true (sym accepted ∙ x))) (rw (append-nil text) bytes.1))
        (by_match accepted bytes))
  where
    fresh :
        (at yy_accept (delta 1 b) == 0) ≡ false
        → (acc : ℕ × ℕ)
        → best text (delta 1 b) (0 + 1) acc ≡ best text (delta 1 b) 1 (keep 1 0 (0, 0))
    fresh accepted acc =
        best_fresh text (delta 1 b) (0 + 1) acc (keep 1 0 (0, 0)) accepted
        ∙ ap (λ n. best text (delta 1 b) n (keep 1 0 (0, 0))) (omega arith)

    by_match :
        (at yy_accept (delta 1 b) == 0) ≡ false
        → IsText (b ∷ text)
        → (r : ℕ × ℕ × Last) → Matched text [] (delta 1 b) (0 + 1) (note 1 0 last) r
        → Returns
            (λ r. r.0 ≡ some (best text (delta 1 b) 1 (keep 1 0 (0, 0))))
            (decide (b ∷ text) r)
    by_match accepted bytes r (inl (found, act, within)) = rw (decide_rule (b ∷ text) r act) (
        returns (
          ap some (
            found
            ∙ ap (λ t. best t (delta 1 b) (0 + 1) (back_up (note 1 0 last))) (append-nil text)
            ∙ fresh accepted (back_up (note 1 0 last)))))
    by_match accepted bytes r (inr (end, way)) =
        rw
          (ap (decide (b ∷ text))
              (end ∙ ap (λ n. (78, n + 1 + 1, record { state = 3; cpos = n + 1 })) (omega arith))
            ∙ decide_end (b ∷ text) (length text))
          (Run.bind
            (previous_lem (b ∷ text) 1 0 (record { state = 3; cpos = suc (length text) + 1 }) refl
              bytes)
            λ q h. returns (
              ap some (
                ap (λ n. yy_find_action q.0 n q.1) (omega arith)
                ∙ h
                ∙ best_fresh text (delta 1 b) 1 _ _ accepted)))

-- nothing is left: the end of the file
pub scan_token-nil : (last : Last) → Returns (λ r. r.0 ≡ none) (scan_token [] last)
unfolding scan_token note transition yy_accept yy_base yy_ec
scan_token-nil last = returns refl

-- what the scanner finds: a rule and the length of the text that it matches
pub record IsToken (text : Text) (token : ℕ × ℕ) : Type 0 where
  pub nonempty : 0 < token.1
  pub within : token.1 ≤ length text
  pub matched : token.0 ≡ rule 1 (take token.1 text)
  pub accepted : token.0 ≢ 0
  pub longest : (m : ℕ) → token.1 < m → m ≤ length text → rule 1 (take m text) ≡ 0

first_accepted : (b : ℕ) → IsByte b → rule 1 (b ∷ []) ≢ 0
unfolding rule run
first_accepted b byte z = let found = start_accepts b byte in ground arith

pub best-IsToken :
    (b : ℕ) (text : Text) → IsText (b ∷ text) → IsToken (b ∷ text) (best (b ∷ text) 1 0 (0, 0))
best-IsToken b text bytes = elim (best_cases (b ∷ text) 1 0 (0, 0)) [
  | inl (same, none_at) ↦ absurd (first_accepted b bytes.0 (none_at 1 (omega arith)))
  | inr l ↦
      let place : (best (b ∷ text) 1 0 (0, 0)).1 ≡ l.len = l.place ∙ omega arith in
      record {
        nonempty = positive bytes.0 l place l.len refl;
        within = omega (arith, place, l.within);
        matched = l.act ∙ ap (λ n. rule 1 (take n (b ∷ text))) (sym place);
        accepted = λ z. l.accepted (sym l.act ∙ z);
        longest = λ m lt le. l.longest m (omega (arith, place)) le;
      }
]
  where
    positive :
        IsByte b
        → (l : Longest (b ∷ text) 1 0 (best (b ∷ text) 1 0 (0, 0)))
        → (best (b ∷ text) 1 0 (0, 0)).1 ≡ l.len
        → (n : ℕ) → l.len ≡ n
        → 0 < (best (b ∷ text) 1 0 (0, 0)).1
    positive byte l place zero z =
        absurd (first_accepted b byte (l.longest 1 (omega arith) (omega arith)))
    positive byte l place (suc n) z = omega arith

-- Whatever a text of bytes is left, of which none is NUL, and whatever state the scanner backed up to
-- before, it finds a token without a fault: at least one character and no more than are left, by the
-- rule that accepts them, and no longer beginning of the text is accepted by any rule.
pub scan_token-IsToken :
    (b : ℕ) (text : Text) (last : Last)
    → IsText (b ∷ text)
    → Returns
        (λ r. (token : ℕ × ℕ) × (r.0 ≡ some token) × IsToken (b ∷ text) token)
        (scan_token (b ∷ text) last)
scan_token-IsToken b text last bytes =
    Run.mono (scan_token-best b text last bytes)
      λ r h. (best (b ∷ text) 1 0 (0, 0), h, best-IsToken b text bytes)
