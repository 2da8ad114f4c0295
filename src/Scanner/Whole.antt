-- ===== src/Scanner/Whole.antt =====
-- yylex of Assig1/lex.yy.c on a file that is read in portions, and on its whole text.
use c.Base.{
  ◌&&◌, length-drop, length-append, ℕ, zero, suc, ◌+◌, ◌<◌, ◌≤◌, ◌≡◌, refl, sym, ap, ◌∙◌, Bool,
  true, false, Option, none, some, List, [], ◌∷◌, ◌==◌, ltb, ==_iff, arith, inl, inr, Bool-cases,
  Text, length, take, drop, take-append, codes,
}
use c.Base.Run
use c.Base.Run.{Run, ok, fault, out_of_bounds, ◌>>=◌, Returns, returns}
use c.IdTable.{insert_id, id_info_cmp, IdInfo}
use c.Scanner.{Last, scan_token}
use c.Scanner.Longest.{best, IsText}
use c.Scanner.Match.{best-IsToken, scan_token-best, scan_token-nil}
use c.Scanner.Buffer.{Buffer}
use c.Scanner.OnBuffer.{Answer, consume, scan_from}
use c.Scanner.Actions.{Scan, Eaten, comment_done, comment_action, id_action, do_action, yylex}
use c.Scanner.OnFile.{EatenHere, comment_here, do_action_here, yylex_here}
use c.Scanner.Fread.{IsFread}
use c.Scanner.Fits.{Fits}
use c.Scanner.Refill.{start_Place}
use c.Scanner.Buffered.{scan_from_lem}
use c.Scanner.Comment.{SameEaten, eaten, overrun, inside_IsRunning, eat_here_lem}
use c.Scanner.Ends.{Finishes, finished, Left}
use c.Scanner.TooSmall.{Acted}
use c.Scanner.Finish.{IsText-drop, token_lt, do_action-Finishes, yylex_round}
use c.Scanner.Same.{consume-Fits, scan_from-end}
use Prim.Native.Nat.{Ordering}

-- an action leaves the same of the state and of the text, or it writes past the end of an array
data SameActed : Run (Scan × Text) → Run (Scan × Buffer) → Type 0 where
  acted :
      {st : Scan} {text : Text} {b : Buffer} → Fits text b → SameActed (ok (st, text)) (ok (st, b))
  stopped : {e : Run.Fault} → SameActed (fault e) (fault e)

abbrev with_text : Text → Scan → Run (Scan × Text)
with_text text st = ok (st, text)

module _ (fread : ℕ → Text → ℕ) where
  done_lem :
      (r : Run Scan) (text : Text) (b : Buffer)
      → Fits text b
      → SameActed (r >>= λ st. ok (st, text)) (r >>= λ st. ok (st, b))
  done_lem (ok st) text b fits = acted fits
  done_lem (fault e) text b fits = stopped

  comment_lem :
      {e : Run Eaten} {h : Run EatenHere} (st : Scan)
      → SameEaten e h
      → SameActed
          (e >>= λ e. comment_done e.comment e.linenumber e.closed st >>= λ st. ok (st, e.rest))
          (h >>= λ h. comment_done h.comment h.linenumber h.closed st >>= λ st. ok (st, h.buffer))
  comment_lem st overrun = stopped
  comment_lem st (eaten {e} {h} comment lines closed fits) =
      rw (comment, lines, closed)
        (done_lem (comment_done h.comment h.linenumber h.closed st) e.rest h.buffer fits)

  comment_here_lem :
      (rounds : ℕ) (whole : Text) (place : ℕ) (b : Buffer) (st : Scan)
      → IsFread fread
      → length whole < 2147483647
      → Fits whole b
      → 0 < place
      → place ≤ length b.ahead
      → length whole + 101 < rounds
      → SameActed (comment_action (drop place whole) st) (comment_here fread rounds place b st)
  unfolding comment_action comment_here
  comment_here_lem rounds whole place b st is small fits pos le enough = comment_lem st (
      eat_here_lem fread (drop place whole) rounds is false whole place b (codes "/*") st.linenumber
        (record {
          small = small;
          fits = fits;
          ready = λ some_left. inside_IsRunning whole b fits (omega arith);
          inside = le;
          left = refl;
        })
        (omega (arith, enough, length-drop place whole shorter, shorter)))
    where
      shorter : place ≤ length whole
      shorter = omega (arith, le, ap length fits.rest, length-append b.ahead b.unread)

  module _ (qsort : (IdInfo → IdInfo → Ordering) → List IdInfo → List IdInfo) where
    -- the other actions do not look at the text behind the token
    do_action_text :
        (act : ℕ) (yytext text : Text) (st : Scan)
        → (act == 9) ≡ false
        → do_action qsort act yytext text st
          ≡ (do_action qsort act yytext [] st >>= λ (r : Scan × Text). with_text text r.0)
    unfolding do_action id_action
    do_action_text act yytext text st ne = elim (Bool-cases (act == 1)) [
      | inl x1 ↦ rw x1 refl
      | inr y1 ↦ elim (Bool-cases (act == 8)) [
        | inl x8 ↦ rw (y1, x8) (by_insert (insert_id st.symtab yytext))
        | inr y8 ↦ elim (Bool-cases (act == 10)) [
          | inl x10 ↦ rw (y1, y8, ne, x10) refl
          | inr y10 ↦ elim (Bool-cases (ltb 1 act && ltb act 8)) [
            | inl x ↦ rw (y1, y8, ne, y10, x) refl
            | inr x ↦ rw (y1, y8, ne, y10, x) refl
          ]
        ]
      ]
    ]
      where
        stored : Text → List IdInfo → Run (Scan × Text)
        stored text symtab =
            ok (record st { tokens = st.tokens + 1; symtab = qsort id_info_cmp symtab }, text)

        by_insert :
            (r : Run (List IdInfo))
            → (r >>= stored text) ≡ (r >>= stored [] >>= λ (r : Scan × Text). with_text text r.0)
        by_insert (ok symtab) = refl
        by_insert (fault e) = refl

    do_action_comment :
        (yytext text : Text) (st : Scan) → do_action qsort 9 yytext text st ≡ comment_action text st
    unfolding do_action
    do_action_comment yytext text st = refl

    here_comment :
        (rounds n : ℕ) (b : Buffer) (st : Scan)
        → do_action_here fread qsort rounds 9 n b st ≡ comment_here fread rounds n b st
    unfolding do_action_here
    here_comment rounds n b st = refl

    here_other :
        (rounds act n : ℕ) (b : Buffer) (st : Scan)
        → (act == 9) ≡ false
        → do_action_here fread qsort rounds act n b st
          ≡ (do_action qsort act (take n b.ahead) [] st >>= λ r. ok (r.0, consume n b))
    unfolding do_action_here
    here_other rounds act n b st ne = ap by_test ne
      where
        by_test : Bool → Run (Scan × Buffer)
        by_test test = elim test [
          | true ↦ comment_here fread rounds n b st
          | false ↦ do_action qsort act (take n b.ahead) [] st >>= λ (r : Scan × Text).
              ok (r.0, consume n b)
        ]

    kept_lem :
        (r : Run (Scan × Text)) (text : Text) (b : Buffer)
        → Fits text b
        → SameActed (r >>= λ (q : Scan × Text). with_text text q.0) (r >>= λ q. ok (q.0, b))
    kept_lem (ok q) text b fits = acted fits
    kept_lem (fault e) text b fits = stopped

    -- an action through the buffer and on the text
    do_action_lem :
        (rounds act n : ℕ) (whole : Text) (b : Buffer) (st : Scan)
        → IsFread fread
        → length whole < 2147483647
        → Fits whole b
        → 0 < n
        → n ≤ length b.ahead
        → length whole + 101 < rounds
        → SameActed
            (do_action qsort act (take n whole) (drop n whole) st)
            (do_action_here fread qsort rounds act n b st)
    do_action_lem rounds act n whole b st is small fits pos le enough =
        elim (Bool-cases (act == 9)) [
          | inl x ↦
              rw
                (
                  (==_iff act 9).0 x,
                  do_action_comment (take n whole) (drop n whole) st,
                  here_comment rounds n b st,
                )
                (comment_here_lem rounds whole n b st is small fits pos le enough)
          | inr x ↦
              rw
                (
                  do_action_text act (take n whole) (drop n whole) st x,
                  here_other rounds act n b st x,
                  token,
                )
                (kept_lem (do_action qsort act (take n b.ahead) [] st) (drop n whole) (consume n b)
                  (consume-Fits whole n b fits le))
        ]
      where
        token : take n whole ≡ take n b.ahead
        token = ap (take n) (sym fits.rest) ∙ take-append n b.ahead b.unread le

    abbrev here_on : ℕ → Option (ℕ × ℕ) → Last → Buffer → Scan → Run Scan
    here_on fuel found last b st = elim found [
      | none ↦ ok st
      | some (act, n) ↦ do_action_here fread qsort (suc fuel + 101) act n b st >>= λ r.
          yylex_here fread qsort fuel r.1 last r.0
    ]

    abbrev text_on : ℕ → Text → Option (ℕ × ℕ) → Last → Scan → Run Scan
    text_on fuel text found last st = elim found [
      | none ↦ ok st
      | some (act, n) ↦
          do_action qsort act (take n text) (drop n text) st >>= λ r. yylex qsort fuel r.1 last r.0
    ]

    here_round :
        (fuel : ℕ) (b : Buffer) (last : Last) (st : Scan)
        → yylex_here fread qsort (suc fuel) b last st
          ≡ (scan_from fread (suc fuel) b 1 0 last >>= λ r. here_on fuel r.0 r.1 r.2 st)
    unfolding yylex_here
    here_round fuel b last st = refl

    -- a call on each side that returns
    here_answer :
        (fuel : ℕ) (b : Buffer) (last : Last) (st : Scan) (r : Answer)
        → scan_from fread (suc fuel) b 1 0 last ≡ ok r
        → yylex_here fread qsort (suc fuel) b last st ≡ here_on fuel r.0 r.1 r.2 st
    here_answer fuel b last st r e =
        here_round fuel b last st ∙ ap (λ m. m >>= λ r. here_on fuel r.0 r.1 r.2 st) e

    text_answer :
        (fuel : ℕ) (text : Text) (last : Last) (st : Scan) (r : Option (ℕ × ℕ) × Last)
        → scan_token text last ≡ ok r
        → yylex qsort (suc fuel) text last st ≡ text_on fuel text r.0 r.1 st
    text_answer fuel text last st r e =
        yylex_round qsort fuel text last st ∙ ap (λ m. m >>= λ r. text_on fuel text r.0 r.1 st) e

    join :
        {m : Run (Scan × Text)} {m' : Run (Scan × Buffer)} {Why : Type 0} (text : Text) (st : Scan)
        (f : Scan × Text → Run Scan) (g : Scan × Buffer → Run Scan)
        → SameActed m m'
        → Finishes Why (Acted text st) m
        → ((st : Scan) (rest : Text) (b : Buffer)
            → Fits rest b
            → Left text rest
            → g (st, b) ≡ f (st, rest))
        → (m' >>= g) ≡ (m >>= f)
    join text st f g (acted fits) (finished left) next = next _ _ _ fits left.0
    join text st f g stopped fin next = refl

    -- For an fread that gives what there is, in whatever portions, and a text of less than 2 ^ 31 - 1 bytes of which
    -- none is NUL, whose beginning is in the buffer: with more rounds than characters, yylex on the buffer, the
    -- comments that it reads by input() included, ends as yylex on the whole text, with the same tables,
    -- counters and output, or with the same fault.
    pub yylex_here-yylex :
        (fuel : ℕ) (text : Text) (b : Buffer) (last last' : Last) (st : Scan)
        → IsFread fread
        → length text < 2147483647
        → IsText text
        → Fits text b
        → length text < fuel
        → yylex_here fread qsort fuel b last st ≡ yylex qsort fuel text last' st
    yylex_here-yylex zero text b last last' st is small bytes fits enough = absurd (omega arith)
    yylex_here-yylex (suc fuel) [] b last last' st is small bytes fits enough =
        let (r, e, h) = Run.value (scan_from-end fread fuel b last is fits) in
        let (q, e', h') = Run.value (scan_token-nil last') in
        here_answer fuel b last st r e
        ∙ ap (λ o. here_on fuel o r.1 r.2 st) h.0
        ∙ ap (λ o. text_on fuel [] o q.1 st) (sym h')
        ∙ sym (text_answer fuel [] last' st q e')
    yylex_here-yylex (suc fuel) (c ∷ text) b last last' st is small bytes fits enough =
        let (r, e, scanned) = Run.value (
          scan_from_lem fread (suc fuel) c text is small bytes [] b.ahead b 1 0 last refl
            (start_Place last) fits
            (omega (arith, enough, ap length fits.rest, length-append b.ahead b.unread))) in
        let (q, e', found) = Run.value (scan_token-best c text last' bytes) in
        let token = best (c ∷ text) 1 0 (0, 0) in
        let good = best-IsToken c text bytes in
        here_answer fuel b last st r e
        ∙ ap (λ o. here_on fuel o r.1 r.2 st) scanned.found
        ∙ join (drop token.1 (c ∷ text)) st (λ p. yylex qsort fuel p.1 q.1 p.0)
            (λ p. yylex_here fread qsort fuel p.1 r.1 p.0)
            (do_action_lem (suc fuel + 101) token.0 token.1 (c ∷ text) r.2 st is small scanned.fits
              good.nonempty scanned.within (omega arith))
            (do_action-Finishes qsort token.0 (take token.1 (c ∷ text)) (drop token.1 (c ∷ text)) st
              good.accepted (token_lt (c ∷ text) token bytes good)
              (IsText-drop token.1 (c ∷ text) bytes))
            (λ st rest b fits left.
              yylex_here-yylex fuel rest b r.1 q.1 st is
                (omega (arith, small, left.1, length-drop token.1 (c ∷ text) good.within)) left.0
                fits
                (omega (
                  arith,
                  left.1,
                  enough,
                  length-drop token.1 (c ∷ text) good.within,
                  good.nonempty,
                )))
        ∙ ap (λ o. text_on fuel (c ∷ text) o q.1 st) (sym found)
        ∙ sym (text_answer fuel (c ∷ text) last' st q e')
