-- ===== src/Scanner/Loop.antt =====
-- The loop at yy_match of Assig1/lex.yy.c on the characters that are in the buffer, `more` being those that
-- are still in the file.
use c.Base.{
  false-ne-true, ℕ, ◌+◌, ◌≤◌, ◌≡◌, ◌⊎◌, refl, sym, ap, ◌∙◌, true, false, [], ◌∷◌, ◌++◌, ◌==◌, arith,
  inl, inr, Bool-cases, Text, length,
}
use c.Base.Run
use c.Base.Run.{Run, ok, fault, ◌>>=◌, Returns, returns}
use c.Scanner.{
  at, transition, Last, note, yy_match, yy_find_action, yy_get_previous_state, yy_end_of_buffer,
}
use c.Scanner.Tables.{yy_accept, yy_base, yy_ec}
use c.Scanner.Checks.{delta, IsByte, is_state, steps, ends, no_end, start_accepts}
use c.Scanner.Longest.{keep, best, IsText, best_dead}

-- the action and the length that backing up gives
abbrev pub back_up : Last → ℕ × ℕ
back_up last = (at yy_accept last.state, last.cpos)

pub back_up-note : (s k : ℕ) (last : Last) → back_up (note s k last) ≡ keep s k (back_up last)
unfolding note keep
back_up-note s k last = elim (Bool-cases (at yy_accept s == 0)) [
  | inl x ↦ rw x refl
  | inr x ↦ rw x refl
]

pub find-keep : (s k : ℕ) (last : Last) → yy_find_action s k last ≡ keep s k (back_up last)
unfolding yy_find_action keep
find-keep s k last = refl

-- the buffer behind the text
abbrev pub closed : Text → Text
closed text = text ++ 0 ∷ 0 ∷ []

pub match_round :
    (c : ℕ) (buffer : Text) (s k next : ℕ) (last : Last)
    → transition 3 s (at yy_ec c) ≡ ok next
    → yy_match (c ∷ buffer) s k last ≡ (elim (at yy_base next == 127) [
      | true ↦ ok (next, k + 1, note s k last)
      | false ↦ yy_match buffer next (k + 1) (note s k last)
    ])
unfolding yy_match
match_round c buffer s k next last h = rw (yy_match, h)

-- the loop at yy_match once it has come to a state
unfoldable pub continue : Text → ℕ → ℕ → Last → Run (ℕ × ℕ × Last)
continue text s k last = elim (at yy_base s == 127) [
  | true ↦ ok (s, k, last)
  | false ↦ yy_match (closed text) s k last
]

-- no state on the way through the text stops the loop
abbrev pub IsOpen : Text → ℕ → Type 0
IsOpen [] s = (at yy_base s == 127) ≡ false
IsOpen (b ∷ text) s = ((at yy_base s == 127) ≡ false) × IsOpen text (delta s b)

-- the loop stops in the text, where backing up gives the longest match, or behind both end characters
abbrev pub Matched : Text → Text → ℕ → ℕ → Last → ℕ × ℕ × Last → Type 0
Matched text more s k last r =
    (yy_find_action r.0 r.1 r.2 ≡ best (text ++ more) s k (back_up last))
      × ((yy_find_action r.0 r.1 r.2).0 == yy_end_of_buffer ≡ false)
      × ((yy_find_action r.0 r.1 r.2).1 ≤ k + length text)
    ⊎ (r ≡ (78, k + length text + 1 + 1, record { state = 3; cpos = k + length text + 1 }))
      × IsOpen text s

-- Behind the first character, what backing up gives is a rule and a place that has been passed.
abbrev pub Fine : ℕ → ℕ → Last → Type 0
Fine s k last =
    (at yy_accept s == 0) ≡ true
    → (s == 1) ≡ false
    → ((at yy_accept last.state == 11) ≡ false) × (last.cpos ≤ k)

pub Fine-note :
    (b s k : ℕ) (last : Last)
    → IsByte b
    → is_state s ≡ true
    → Fine s k last
    → Fine (delta s b) (k + 1) (note s k last)
unfolding note
Fine-note b s k last byte is fine x later = elim (Bool-cases (at yy_accept s == 0)) [
  | inr y ↦ rw y (no_end s is, omega arith)
  | inl y ↦ elim (Bool-cases (s == 1)) [
    | inr z ↦ let passed = fine y z in rw y (passed.0, omega (arith, passed.1))
    | inl z ↦ absurd (
        false-ne-true (
          sym (start_accepts b byte)
          ∙ ap (λ n. at yy_accept (delta n b) == 0) (sym (is_start z))
          ∙ x))
  ]
]
  where
    is_start : (s == 1) ≡ true → s ≡ 1
    is_start z = ground arith

pub start_goes : (at yy_base 1 == 127) ≡ false
unfolding yy_base
start_goes = refl

not_start : (s : ℕ) → (at yy_base s == 127) ≡ true → (s == 1) ≡ false
not_start s stop = elim (Bool-cases (s == 1)) [
  | inr x ↦ x
  | inl x ↦
      absurd
        (false-ne-true (sym start_goes ∙ ap (λ n. at yy_base n == 127) (sym (is_start x)) ∙ stop))
]
  where
    is_start : (s == 1) ≡ true → s ≡ 1
    is_start z = ground arith

keep_rule :
    (s k : ℕ) (last : Last)
    → is_state s ≡ true
    → (at yy_base s == 127) ≡ true
    → Fine s k last
    → ((keep s k (back_up last)).0 == 11 ≡ false) × ((keep s k (back_up last)).1 ≤ k)
unfolding keep
keep_rule s k last is stop fine = elim (Bool-cases (at yy_accept s == 0)) [
  | inl y ↦ rw y (fine y (not_start s stop))
  | inr y ↦ rw y (no_end s is, omega arith)
]

pub at_end :
    (s k : ℕ) (last : Last)
    → is_state s ≡ true
    → (at yy_base s == 127) ≡ false
    → yy_match (0 ∷ 0 ∷ []) s k last ≡ ok (78, k + 1 + 1, record { state = 3; cpos = k + 1 })
unfolding note yy_accept yy_base yy_ec transition
at_end s k last is goes =
    match_round 0 (0 ∷ []) s k 3 last (ends s is goes)
    ∙ match_round 0 [] 3 (k + 1) 78 (note s k last) refl

continue_stops :
    (text : Text) (s k : ℕ) (last : Last)
    → (at yy_base s == 127) ≡ true
    → continue text s k last ≡ ok (s, k, last)
unfolding continue
continue_stops text s k last x = rw (continue, x)

pub continue_goes :
    (text : Text) (s k : ℕ) (last : Last)
    → (at yy_base s == 127) ≡ false
    → continue text s k last ≡ yy_match (closed text) s k last
unfolding continue
continue_goes text s k last x = rw (continue, x)

stops :
    (text more : Text) (s k : ℕ) (last : Last)
    → is_state s ≡ true
    → Fine s k last
    → IsText (text ++ more)
    → (at yy_base s == 127) ≡ true
    → Returns (Matched text more s k last) (continue text s k last)
stops text more s k last is fine bytes x =
    let kept = keep_rule s k last is x fine in
    rw (continue_stops text s k last x) (
      returns (
        inl (
          find-keep s k last ∙ sym (best_dead (text ++ more) s k (back_up last) is x bytes),
          ap (λ (r : ℕ × ℕ). r.0 == 11) (find-keep s k last) ∙ kept.0,
          omega (arith, ap (λ (r : ℕ × ℕ). r.1) (find-keep s k last), kept.1),
        )))

-- one more character
Matched-cons :
    (b : ℕ) (text more : Text) (s k : ℕ) (last : Last) (r : ℕ × ℕ × Last)
    → (at yy_base s == 127) ≡ false
    → Matched text more (delta s b) (k + 1) (note s k last) r
    → Matched (b ∷ text) more s k last r
unfolding best
Matched-cons b text more s k last r goes (inl (found, act, within)) = inl (
  found
      ∙ ap (best (text ++ more) (delta s b) (k + 1)) (back_up-note s k last)
      ∙ ap (λ n. best (text ++ more) (delta s b) n (keep s k (back_up last))) (omega arith),
  act,
  omega arith,
)
Matched-cons b text more s k last r goes (inr (end, way)) =
    inr (
      end ∙ ap (λ n. (78, n + 1 + 1, record { state = 3; cpos = n + 1 })) (omega arith),
      (goes, way),
    )

goes_on :
    (b : ℕ) (text : Text) (s k next : ℕ) (last : Last)
    → (at yy_base s == 127) ≡ false
    → transition 3 s (at yy_ec b) ≡ ok next
    → continue (b ∷ text) s k last ≡ continue text next (k + 1) (note s k last)
unfolding continue
goes_on b text s k next last x h =
    continue_goes (b ∷ text) s k last x ∙ match_round b (closed text) s k next last h

pub continue_lem :
    (text more : Text) (s k : ℕ) (last : Last)
    → is_state s ≡ true
    → Fine s k last
    → IsText (text ++ more)
    → Returns (Matched text more s k last) (continue text s k last)
continue_lem [] more s k last is fine bytes = elim (Bool-cases (at yy_base s == 127)) [
  | inl x ↦ stops [] more s k last is fine bytes x
  | inr x ↦
      rw (continue_goes [] s k last x, at_end s k last is x)
        (returns
          (inr (ap (λ n. (78, n + 1 + 1, record { state = 3; cpos = n + 1 })) (omega arith), x)))
]
continue_lem (b ∷ text) more s k last is fine bytes = elim (Bool-cases (at yy_base s == 127)) [
  | inl x ↦ stops (b ∷ text) more s k last is fine bytes x
  | inr x ↦
      let step = steps s b is bytes.0 in
      rw (goes_on b text s k (delta s b) last x step.moves) (
        Run.mono
          (continue_lem text more (delta s b) (k + 1) (note s k last) step.is
            (Fine-note b s k last bytes.0 is fine) bytes.1)
          (λ r. Matched-cons b text more s k last r x))
]

pub previous_round :
    (c : ℕ) (text : Text) (s k next : ℕ) (last : Last)
    → (c == 0) ≡ false
    → transition 3 s (at yy_ec c) ≡ ok next
    → yy_get_previous_state (c ∷ text) s k last
      ≡ yy_get_previous_state text next (k + 1) (note s k last)
unfolding yy_get_previous_state
previous_round c text s k next last read h = rw (yy_get_previous_state, read, h)

pub not_nul : (b : ℕ) → IsByte b → (b == 0) ≡ false
not_nul b byte = ground arith

-- the state before the end characters, with what backing up from it gives
pub previous_lem :
    (text : Text) (s k : ℕ) (last : Last)
    → is_state s ≡ true
    → IsText text
    → Returns
        (λ r. yy_find_action r.0 (k + length text) r.1 ≡ best text s k (back_up last))
        (yy_get_previous_state text s k last)
unfolding best yy_get_previous_state
previous_lem [] s k last is bytes =
    returns (find-keep s (k + 0) last ∙ ap (λ n. keep s n (back_up last)) (omega arith))
previous_lem (b ∷ text) s k last is bytes =
    let step = steps s b is bytes.0 in
    rw (previous_round b text s k (delta s b) last (not_nul b bytes.0) step.moves) (
      Run.mono (previous_lem text (delta s b) (k + 1) (note s k last) step.is bytes.1) λ r h.
        ap (λ n. yy_find_action r.0 n r.1) (omega arith)
        ∙ h
        ∙ ap (best text (delta s b) (k + 1)) (back_up-note s k last)
        ∙ ap (λ n. best text (delta s b) n (keep s k (back_up last))) (omega arith))
