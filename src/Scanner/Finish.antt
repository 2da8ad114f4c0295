-- ===== src/Scanner/Finish.antt =====
-- yylex of Assig1/lex.yy.c comes to the end of every text, unless an array of fixed size is too small.
use c.Base.{
  length-drop, ℕ, zero, suc, ◌+◌, ◌<◌, ◌≤◌, ◌≡◌, ◌≢◌, refl, true, none, some, List, [], ◌∷◌, ◌==◌,
  ◌&&◌, ltb, arith, inl, inr, Bool-cases, Text, length, take, drop, ap, ◌∙◌,
}
use c.Base.Run.{ok, ◌>>=◌}
use c.IdTable.{IdInfo}
use c.Scanner.{Last, scan_token}
use c.Scanner.Actions.{Scan, id_action, do_action, yylex}
use c.Scanner.Longest.{IsText, rule, run}
use c.Scanner.Checks.{is_state, delta, steps, rule_lt}
use c.Scanner.Match.{IsToken, scan_token-nil, scan_token-IsToken}
use Prim.Native.Nat.{Ordering}
use c.Scanner.Ends.{Finishes, finished, bind, bind_returns, map_result}
use c.Scanner.TooSmall.{
  TooSmall, new_name, NoRoom, Acted, insert_id-Finishes, comment_action-Finishes, same_comment,
}

run-is_state :
    (text : Text) (s : ℕ) → is_state s ≡ true → IsText text → is_state (run s text) ≡ true
unfolding run
run-is_state [] s is bytes = is
run-is_state (b ∷ text) s is bytes = run-is_state text (delta s b) (steps s b is bytes.0).is bytes.1

IsText-take : (n : ℕ) (text : Text) → IsText text → IsText (take n text)
IsText-take zero text bytes = tt
IsText-take (suc n) [] bytes = tt
IsText-take (suc n) (b ∷ text) bytes = (bytes.0, IsText-take n text bytes.1)

pub IsText-drop : (n : ℕ) (text : Text) → IsText text → IsText (drop n text)
IsText-drop zero text bytes = bytes
IsText-drop (suc n) [] bytes = tt
IsText-drop (suc n) (b ∷ text) bytes = IsText-drop n text bytes.1

-- a token's action is one of the ten rules
pub token_lt : (text : Text) (token : ℕ × ℕ) → IsText text → IsToken text token → token.0 < 11
unfolding rule
token_lt text token bytes is =
    let lt =
      rule_lt (run 1 (take token.1 text))
        (run-is_state (take token.1 text) 1 refl (IsText-take token.1 text bytes)) in
    let found = is.matched in omega arith

module _ (qsort : (IdInfo → IdInfo → Ordering) → List IdInfo → List IdInfo) where
  id_action-Finishes :
      (yytext text : Text) (st : Scan)
      → IsText text
      → Finishes (NoRoom st.symtab yytext) (Acted text st) (id_action qsort yytext text st)
  unfolding id_action
  id_action-Finishes yytext text st bytes =
      bind (λ why. why) (insert_id-Finishes st.symtab yytext)
        λ symtab e h. finished ((bytes, omega arith), omega arith)

  pub do_action-Finishes :
      (act : ℕ) (yytext text : Text) (st : Scan)
      → act ≢ 0
      → act < 11
      → IsText text
      → Finishes (TooSmall act yytext text st) (Acted text st) (do_action qsort act yytext text st)
  unfolding do_action
  do_action-Finishes act yytext text st ne lt bytes = elim (Bool-cases (act == 1)) [
    | inl x1 ↦ rw x1 (finished ((bytes, omega arith), omega arith))
    | inr y1 ↦ elim (Bool-cases (act == 8)) [
      | inl x8 ↦
          rw (y1, x8)
            (map_result (new_name (ground arith)) (λ q h. h)
              (id_action-Finishes yytext text st bytes))
      | inr y8 ↦ elim (Bool-cases (act == 9)) [
        | inl x9 ↦
            rw (y1, y8, x9)
              (map_result (same_comment act yytext text st (ground arith)) (λ q h. h)
                (comment_action-Finishes text st bytes))
        | inr y9 ↦ elim (Bool-cases (act == 10)) [
          | inl x10 ↦ rw (y1, y8, y9, x10) (finished ((bytes, omega arith), omega arith))
          | inr y10 ↦
              let counted : (ltb 1 act && ltb act 8) ≡ true = ground arith in
              rw (y1, y8, y9, y10, counted) (finished ((bytes, omega arith), omega arith))
        ]
      ]
    ]
  ]

  pub yylex_round :
      (fuel : ℕ) (text : Text) (last : Last) (st : Scan)
      → yylex qsort (suc fuel) text last st ≡ (
          scan_token text last >>= λ r. elim r.0 [
            | none ↦ ok st
            | some (yy_act, yyleng) ↦
                do_action qsort yy_act (take yyleng text) (drop yyleng text) st >>= λ q.
                yylex qsort fuel q.1 r.1 q.0
          ])
  unfolding yylex
  yylex_round fuel text last st = refl

  -- the run comes to a token that needs more than an array has
  pub data Overruns : Text → Last → Scan → Type 0 where
    now :
        {text : Text} {last : Last} {st : Scan} {act leng : ℕ} {last' : Last}
        → scan_token text last ≡ ok (some (act, leng), last')
        → TooSmall act (take leng text) (drop leng text) st
        → Overruns text last st
    later :
        {text : Text} {last : Last} {st : Scan} {act leng : ℕ} {last' : Last} {st' : Scan}
        {rest : Text}
        → scan_token text last ≡ ok (some (act, leng), last')
        → do_action qsort act (take leng text) (drop leng text) st ≡ ok (st', rest)
        → Overruns rest last' st'
        → Overruns text last st

  -- On a text of bytes of which none is NUL, with more rounds than characters, yylex neither runs out of
  -- rounds nor meets an action that it does not have: it comes to the end of the text, with no more
  -- tokens than characters, unless the run comes to a token for which it writes out of bounds. That is a
  -- new identifier when the table has 100 or when it is 256 characters long or more, or a comment when
  -- there are 100 or when it does not end in the 97 characters behind its beginning, which an unclosed
  -- one does not. A comment ends by its closing mark or by the byte 255.
  pub yylex-Finishes :
      (fuel : ℕ) (text : Text) (last : Last) (st : Scan)
      → IsText text
      → length text < fuel
      → Finishes
          (Overruns text last st)
          (λ r. r.tokens ≤ st.tokens + length text)
          (yylex qsort fuel text last st)
  yylex-Finishes zero text last st bytes enough = absurd (omega arith)
  yylex-Finishes (suc fuel) [] last st bytes enough =
      rw (yylex_round fuel [] last st)
        (bind_returns (scan_token-nil last) λ r e h. rw h (finished (omega arith)))
  yylex-Finishes (suc fuel) (b ∷ text) last st bytes enough =
      rw (yylex_round fuel (b ∷ text) last st) (
        bind_returns (scan_token-IsToken b text last bytes) λ r e (token, found, is).
          let scanned = e ∙ ap (λ o. ok (o, r.1)) found in
          rw found (
            bind (now scanned)
              (do_action-Finishes token.0 (take token.1 (b ∷ text)) (drop token.1 (b ∷ text)) st
                is.accepted (token_lt (b ∷ text) token bytes is)
                (IsText-drop token.1 (b ∷ text) bytes))
              λ q done acted.
                let shorter = length-drop token.1 (b ∷ text) is.within in
                let nonempty = is.nonempty in
                map_result (later scanned done)
                  (λ r le. omega (arith, le, acted.0.1, acted.1, shorter, nonempty))
                  (yylex-Finishes fuel q.1 r.1 q.0 acted.0.0
                    (omega (arith, acted.0.1, shorter, nonempty, enough)))))
