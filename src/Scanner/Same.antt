-- ===== src/Scanner/Same.antt =====
-- yylex of Assig1/lex.yy.c with its buffer and without.
use c.Base.{
  length_zero, Bool, ℕ, suc, ◌+◌, ◌-◌, ◌<◌, ◌≤◌, ◌≡◌, refl, sym, ap, ◌∙◌, none, some, [], ◌∷◌,
  arith, inl, Text, length, drop, length-append, length-drop, drop-append, drop_nil,
}
use c.Base.Run
use c.Base.Run.{Run, ok, fault, ◌>>=◌, Returns, returns}
use c.Scanner.{Last, scan_token, yy_match}
use c.Scanner.Loop.{closed, at_end, start_goes}
use c.Scanner.Longest.{best, IsText}
use c.Scanner.Match.{IsToken, best-IsToken, scan_token-best}
use c.Scanner.Buffer.{
  Status, yy_buffer_new, yy_buffer_normal, yy_buffer_eof_pending, Buffer, Eob, yy_create_buffer,
}
use c.Scanner.OnBuffer.{Next, consume, renew, after_refill, scan_from}
use c.Scanner.Fits.{Since, Fits, Refilled, ended, pending, continued}
use c.Scanner.Fread.{IsFread}
use c.Scanner.Refill.{start_Place, renew_lem}
use c.Scanner.Fill.{yy_get_next_buffer_lem}
use c.Scanner.Buffered.{scan_from_lem, scan_round, decide, decide_end, end_of_buffer_round, onward}

-- the buffer behind a token that lies in it
pub consume-Fits :
    (whole : Text) (n : ℕ) (b : Buffer)
    → Fits whole b
    → n ≤ length b.ahead
    → Fits (drop n whole) (consume n b)
unfolding consume
consume-Fits whole n b fits le = record {
  rest = sym (drop-append n b.ahead b.unread le) ∙ ap (drop n) fits.rest;
  ours = fits.ours;
  fill = fits.fill;
  room = omega (arith, fits.room, length-drop n b.ahead le);
  size = fits.size;
  since = by_status b.yy_buffer_status fits.since;
}
  where
    by_status : (status : Status) → Since status b → Since status (consume n b)
    by_status yy_buffer_new empty = ap (drop n) empty ∙ drop_nil n
    by_status yy_buffer_normal h = tt
    by_status yy_buffer_eof_pending nothing = nothing

-- yyin has been opened, and yylex has not read from it
pub yy_create_buffer-Fits :
    (tty : Bool) (file : Text) (size : ℕ)
    → 0 < size
    → size < 9223372036854775809
    → Fits file (yy_create_buffer tty file size)
unfolding yy_create_buffer
yy_create_buffer-Fits tty file size pos small = record {
  rest = refl;
  ours = refl;
  fill = refl;
  room = omega arith;
  size = small;
  since = refl;
}

module _ (fread : ℕ → Text → ℕ) where
  -- For a text of less than 2 ^ 31 - 1 bytes of which none is NUL, whose beginning is in the buffer and
  -- whose rest is in the file, and for an fread that gives what there is in whatever portions: with
  -- more rounds than characters are unread, the scanner on its buffer returns the token that the
  -- scanner with the whole text before it returns, which is a token of the text as IsToken says, and
  -- buffer and file together hold the text behind it.
  pub scan_from-scan_token :
      (fuel c : ℕ) (text : Text) (b : Buffer) (last : Last)
      → IsFread fread
      → length (c ∷ text) < 2147483647
      → IsText (c ∷ text)
      → Fits (c ∷ text) b
      → length b.unread < fuel
      → Returns
          (λ r.
            (token : ℕ × ℕ) × (r.0 ≡ some token)
            × Returns (λ q. q.0 ≡ some token) (scan_token (c ∷ text) last)
            × IsToken (c ∷ text) token
            × Fits (drop token.1 (c ∷ text)) (consume token.1 r.2))
          (scan_from fread fuel b 1 0 last)
  scan_from-scan_token fuel c text b last is small bytes fits enough =
      Run.mono
        (scan_from_lem fread fuel c text is small bytes [] b.ahead b 1 0 last refl
          (start_Place last) fits enough)
        λ r scanned. (
          best (c ∷ text) 1 0 (0, 0),
          scanned.found,
          scan_token-best c text last bytes,
          best-IsToken c text bytes,
          consume-Fits (c ∷ text) _ r.2 scanned.fits scanned.within,
        )

  pub nothing_ahead : (b : Buffer) → Fits [] b → (b.ahead ≡ []) × (b.unread ≡ [])
  nothing_ahead b fits =
      (length_zero b.ahead (omega (arith, counted)), length_zero b.unread (omega (arith, counted)))
    where
      counted : length b.ahead + length b.unread ≡ 0
      counted = sym (length-append b.ahead b.unread) ∙ ap length fits.rest

  after_end :
      (ahead unread : Text) (n : ℕ) (last : Last) (r : Eob × Buffer)
      → ahead ≡ []
      → unread ≡ []
      → Refilled [] ahead unread r
      → Returns
          (λ (q : Next). (b : Buffer) × (q ≡ inl (none, last, b)) × Fits [] b)
          (after_refill n r.0 last r.1)
  unfolding after_refill
  after_end ahead unread n last r empty nothing (ended none_ahead none_left fits is) =
      returns (r.1, refl, fits)
  after_end ahead unread n last r empty nothing (pending some_ahead same none_left none_now fits) =
      absurd (some_ahead empty)
  after_end ahead unread n last r empty nothing (continued more some_more longer fewer fits) =
      absurd (omega (arith, fewer, ap length nothing))

  -- Where nothing is left in the buffer and in the file, for every fread that gives what there is,
  -- the scanner returns the end of the file, and it leaves a buffer on which it returns it again.
  pub scan_from-end :
      (fuel : ℕ) (b : Buffer) (last : Last)
      → IsFread fread
      → Fits [] b
      → Returns (λ r. (r.0 ≡ none) × Fits [] r.2) (scan_from fread (suc fuel) b 1 0 last)
  unfolding onward
  scan_from-end fuel b last is fits =
      let left = nothing_ahead b fits in
      let used = renew_lem [] b fits in
      let end : Last = record { state = 3; cpos = 0 + 1 } in
      let to_end =
        scan_round fread fuel b 1 0 last
        ∙ ap (λ t. yy_match (closed t) 1 0 last >>= decide fread fuel b) left.0
        ∙ ap (λ m. m >>= decide fread fuel b) (at_end 1 0 last refl start_goes)
        ∙ decide_end fread fuel 0 b
        ∙ ap (λ m. m >>= onward fread fuel)
            (end_of_buffer_round fread 0 end b used.ahead (ap length (sym left.0))) in
      rw to_end (
        Run.bind
          (Run.bind
            (yy_get_next_buffer_lem fread [] (0 + 1) (renew b) is used.fits
              (λ some_left. used.running) (omega arith)
              (omega (arith, ap length used.ahead, ap length left.0)))
            λ r.
              after_end (renew b).ahead (renew b).unread (0 + 1 - 1) end r (used.ahead ∙ left.0)
                (used.unread ∙ left.1))
          λ q (b', answer, still). rw answer (returns (refl, still)))
