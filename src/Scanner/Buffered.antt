-- ===== src/Scanner/Buffered.antt =====
-- yylex of Assig1/lex.yy.c on its buffer finds the tokens of the whole file.
use c.Base.{
  ltb, ℕ, zero, suc, ◌+◌, ◌-◌, ◌<◌, ◌≤◌, ◌≡◌, refl, sym, ap, ◌∙◌, true, false, some, ◌∷◌, ◌++◌,
  ◌==◌, arith, inl, inr, Text, length, take, drop, length-append, take-length, drop-length, leb,
}
use c.Base.Run
use c.Base.Run.{Run, ok, fault, ◌>>=◌, Returns, returns}
use c.Scanner.{yy_get_previous_state, Last, yy_match, yy_find_action, yy_end_of_buffer}
use c.Scanner.Tables.{yy_accept}
use c.Scanner.Checks.{delta, start_accepts}
use c.Scanner.Longest.{best, best_fresh, IsText}
use c.Scanner.Loop.{closed, back_up, IsOpen, continue_goes, continue_lem, Matched, previous_lem}
use c.Scanner.Match.{best-IsToken}
use c.Scanner.Buffer.{eob_act_continue_scan, Buffer, Eob, yy_get_next_buffer}
use c.Scanner.OnBuffer.{int_amount, Answer, Next, renew, after_refill, end_of_buffer, scan_from}
use c.Scanner.Fits.{Fits, Refilled, ended, pending, continued}
use c.Scanner.Fread.{IsFread}
use c.Scanner.Fill.{yy_get_next_buffer_lem}
use c.Scanner.Refill.{IsOpen-append, Place, previous_Place, IsText-append, renew_lem}
use mathlib.Core.List.{append-nil, append_assoc, nil≢cons}

-- The answer is the longest match at the start of what is left of the file, and it lies in the buffer.
pub record Scanned (whole : Text) (r : Answer) : Type 0 where
  pub found : r.0 ≡ some (best whole 1 0 (0, 0))
  pub fits : Fits whole r.2
  pub within : (best whole 1 0 (0, 0)).1 ≤ length r.2.ahead

-- where the scanner goes on with a buffer that has been filled
record Resumed (whole : Text) (left : ℕ) (r : Buffer × ℕ × ℕ × Last) : Type 0 where
  done : Text
  next : Text
  ahead : r.0.ahead ≡ done ++ next
  place : Place done r.1 r.2 r.3
  fits : Fits whole r.0
  fewer : length r.0.unread < left

abbrev Onward : Text → ℕ → Next → Type 0
Onward whole left (inl answer) = Scanned whole answer
Onward whole left (inr r) = Resumed whole left r

best_start :
    (c : ℕ) (text : Text) (acc : ℕ × ℕ)
    → IsText (c ∷ text)
    → best (c ∷ text) 1 0 acc ≡ best (c ∷ text) 1 0 (0, 0)
unfolding best
best_start c text acc bytes = best_fresh text (delta 1 c) 1 _ _ (start_accepts c bytes.0)

after_refill_continues :
    (n : ℕ) (last : Last) (b : Buffer)
    → n + 1 < 2147483648
    → after_refill n eob_act_continue_scan last b
      ≡ (yy_get_previous_state (take n b.ahead) 1 0 last >>= λ r. ok (inr (b, r.0, n, r.1)))
unfolding after_refill int_amount
after_refill_continues n last b few = rw (after_refill, int_amount, narrow) refl
  where
    narrow : ltb (n + 1) 2147483648 ≡ true
    narrow = ground arith

-- the answers of yy_get_next_buffer behind the last character of the buffer
after_refill_lem :
    (c : ℕ) (text ahead unread : Text) (n : ℕ) (last : Last) (r : Eob × Buffer)
    → IsText (c ∷ text)
    → ahead ++ unread ≡ c ∷ text
    → IsOpen ahead 1
    → n ≡ length ahead
    → n + 1 < 2147483648
    → Refilled (c ∷ text) ahead unread r
    → Returns (Onward (c ∷ text) (length unread)) (after_refill n r.0 last r.1)
unfolding after_refill
after_refill_lem c text ahead unread n last r bytes rest way count few
      (ended none_ahead none_left fits is) =
    absurd (nil≢cons (sym (ap (λ a. a ++ unread) none_ahead ∙ none_left) ∙ rest))
after_refill_lem c text ahead unread n last r bytes rest way count few
      (pending some_ahead same none_left nothing fits) =
    Run.bind (previous_lem r.1.ahead 1 0 last refl (rw everything bytes)) λ q h. returns (record {
      found = ap some (
          ap (λ m. yy_find_action q.0 m q.1) (omega arith)
          ∙ h
          ∙ ap (λ whole. best whole 1 0 (back_up last)) everything
          ∙ best_start c text (back_up last) bytes);
      fits = fits;
      within = omega (arith, (best-IsToken c text bytes).within, ap length everything);
    })
  where
    everything : r.1.ahead ≡ c ∷ text
    everything = sym (append-nil r.1.ahead) ∙ ap (λ u. r.1.ahead ++ u) (sym nothing) ∙ fits.rest
after_refill_lem c text ahead unread n last r bytes rest way count few
      (continued more some_more longer fewer fits) =
    rw (after_refill_continues n last r.1 few, before)
      (Run.bind
        (previous_Place ahead n last count (IsText-append ahead unread (rw rest bytes)).0 way)
        λ q place. returns (record {
          done = ahead;
          next = more;
          ahead = longer;
          place = place;
          fits = fits;
          fewer = fewer;
        }))
  where
    before : take n r.1.ahead ≡ ahead
    before = ap (take n) longer ∙ ap (λ m. take m (ahead ++ more)) count ∙ take-length ahead more

module _ (fread : ℕ → Text → ℕ) where
  pub end_of_buffer_round :
      (n : ℕ) (last : Last) (b : Buffer)
      → (renew b).ahead ≡ b.ahead
      → n ≡ length b.ahead
      → end_of_buffer fread (n + 1) last b ≡ (
          yy_get_next_buffer fread (n + 1) (renew b) >>= λ r. after_refill (n + 1 - 1) r.0 last r.1)
  unfolding end_of_buffer
  end_of_buffer_round n last b same count = rw (end_of_buffer, behind) refl
    where
      behind : leb (n + 1) (length (renew b).ahead) ≡ false
      behind = let counted = ap length same in ground arith

  -- what comes behind the last character of the buffer
  end_of_buffer_lem :
      (c : ℕ) (text : Text) (n : ℕ) (last : Last) (b : Buffer)
      → IsFread fread
      → length (c ∷ text) < 2147483647
      → IsText (c ∷ text)
      → Fits (c ∷ text) b
      → IsOpen b.ahead 1
      → n ≡ length b.ahead
      → Returns (Onward (c ∷ text) (length b.unread)) (end_of_buffer fread (n + 1) last b)
  end_of_buffer_lem c text n last b is small bytes fits way count =
      let used = renew_lem (c ∷ text) b fits in
      rw (end_of_buffer_round n last b used.ahead count) (
        Run.bind
          (yy_get_next_buffer_lem fread (c ∷ text) (n + 1) (renew b) is used.fits
            (λ some_left. used.running) small (omega (arith, count, ap length used.ahead)))
          λ r refilled. rw (sym used.unread) (
            after_refill_lem c text (renew b).ahead (renew b).unread (n + 1 - 1) last r bytes
              used.fits.rest (rw used.ahead way) (omega (arith, count, ap length used.ahead))
              (few count) refilled))
    where
      few : n ≡ length b.ahead → n + 1 - 1 + 1 < 2147483648
      few count = omega (arith, count, small, ap length fits.rest, length-append b.ahead b.unread)

  -- scan_from behind the loop at yy_match
  unfoldable pub decide : ℕ → Buffer → ℕ × ℕ × Last → Run Answer
  unfolding yy_find_action end_of_buffer scan_from
  decide fuel b (state, cp, last) = elim ((yy_find_action state cp last).0 == yy_end_of_buffer) [
    | false ↦ ok (some (yy_find_action state cp last), last, b)
    | true ↦ do
      next ← end_of_buffer fread (yy_find_action state cp last).1 last b
      elim next [
        | inl answer ↦ ok answer
        | inr (b, state, cp, last) ↦ scan_from fread fuel b state cp last
      ]
  ]

  pub scan_round :
      (fuel : ℕ) (b : Buffer) (s k : ℕ) (last : Last)
      → scan_from fread (suc fuel) b s k last
        ≡ (yy_match (closed (drop k b.ahead)) s k last >>= decide fuel b)
  unfolding scan_from decide
  scan_round fuel b s k last = refl

  decide_rule :
      (fuel : ℕ) (b : Buffer) (r : ℕ × ℕ × Last)
      → ((yy_find_action r.0 r.1 r.2).0 == yy_end_of_buffer) ≡ false
      → decide fuel b r ≡ ok (some (yy_find_action r.0 r.1 r.2), r.2, b)
  unfolding decide
  decide_rule fuel b (s, k, last) h = rw (decide, h)

  -- the rest of the scan at an answer of the end of the buffer
  unfoldable pub onward : ℕ → Next → Run Answer
  unfolding scan_from
  onward fuel (inl answer) = ok answer
  onward fuel (inr (b, state, cp, last)) = scan_from fread fuel b state cp last

  pub decide_end :
      (fuel n : ℕ) (b : Buffer)
      → decide fuel b (78, n + 1 + 1, record { state = 3; cpos = n + 1 })
        ≡ (end_of_buffer fread (n + 1) (record { state = 3; cpos = n + 1 }) b >>= onward fuel)
  unfolding decide onward yy_find_action yy_accept
  decide_end fuel n b = refl

  -- the text from a place in the buffer to the end of the file is of bytes
  rest_IsText :
      (whole done next : Text) (b : Buffer)
      → Fits whole b
      → b.ahead ≡ done ++ next
      → IsText whole
      → (done ++ (next ++ b.unread) ≡ whole) × IsText (next ++ b.unread)
  rest_IsText whole done next b fits ahead bytes =
      (joined, (IsText-append done _ (rw joined bytes)).1)
    where
      joined : done ++ (next ++ b.unread) ≡ whole
      joined =
          sym (append_assoc done next b.unread)
          ∙ ap (λ text. text ++ b.unread) (sym ahead)
          ∙ fits.rest

  -- what is shown of a scan with so many rounds
  abbrev pub FindsWhole : ℕ → Text → Type 0
  FindsWhole fuel whole =
      (done next : Text) (b : Buffer) (s k : ℕ) (last : Last)
      → b.ahead ≡ done ++ next
      → Place done s k last
      → Fits whole b
      → length b.unread < fuel
      → Returns (Scanned whole) (scan_from fread fuel b s k last)

  onward_lem :
      (fuel left : ℕ) (whole : Text) (r : Next)
      → FindsWhole fuel whole
      → left < suc fuel
      → Onward whole left r
      → Returns (Scanned whole) (onward fuel r)
  unfolding onward
  onward_lem fuel left whole (inl answer) again enough scanned = returns scanned
  onward_lem fuel left whole (inr (b, s, k, last)) again enough r =
      again r.done r.next b s k last r.ahead r.place r.fits (omega (arith, r.fewer, enough))

  -- From every place in the buffer, with more rounds than characters are left in the file, the scanner finds
  -- the longest match of the whole.
  pub scan_from_lem :
      (fuel : ℕ) (c : ℕ) (text : Text)
      → IsFread fread
      → length (c ∷ text) < 2147483647
      → IsText (c ∷ text)
      → FindsWhole fuel (c ∷ text)
  scan_from_lem zero c text is small bytes done next b s k last ahead place fits enough =
      absurd (omega arith)
  scan_from_lem (suc fuel) c text is small bytes done next b s k last ahead place fits enough =
      let here = rest_IsText (c ∷ text) done next b fits ahead bytes in
      rw (scan_round fuel b s k last, left, sym (continue_goes next s k last place.goes))
        (Run.bind (continue_lem next b.unread s k last place.is place.fine here.1)
          λ r matched. by_match (scan_from_lem fuel c text is small bytes) here.0 r matched)
    where
      left : drop k b.ahead ≡ next
      left = ap (drop k) ahead ∙ ap (λ n. drop n (done ++ next)) place.cpos ∙ drop-length done next

      count : k + length next ≡ length b.ahead
      count = omega (arith, place.cpos, ap length ahead, length-append done next)

      whole_way : IsOpen next s → IsOpen b.ahead 1
      whole_way way = rw ahead (IsOpen-append done next 1 place.way (rw (sym place.state) way))

      by_match :
          FindsWhole fuel (c ∷ text)
          → done ++ (next ++ b.unread) ≡ c ∷ text
          → (r : ℕ × ℕ × Last) → Matched next b.unread s k last r
          → Returns (Scanned (c ∷ text)) (decide fuel b r)
      by_match again joined r (inl (found, act, within)) =
          let token =
            found
            ∙ sym (place.same (next ++ b.unread))
            ∙ ap (λ t. best t 1 0 place.acc) joined
            ∙ best_start c text place.acc bytes in
          rw (decide_rule fuel b r act) (
            returns (record {
              found = ap some token;
              fits = fits;
              within = omega (arith, within, count, ap (λ (t : ℕ × ℕ). t.1) token);
            }))
      by_match again joined r (inr (end, way)) =
          rw (end, decide_end fuel (k + length next) b)
            (Run.bind
              (end_of_buffer_lem c text (k + length next) _ b is small bytes fits (whole_way way)
                count)
              λ q onwards. onward_lem fuel (length b.unread) (c ∷ text) q again enough onwards)
