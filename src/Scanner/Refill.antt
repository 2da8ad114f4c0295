-- ===== src/Scanner/Refill.antt =====
-- The scanner of Assig1/lex.yy.c on its buffer against the one that has the whole file before it.
use c.Base.{
  take_nil, false-ne-true, ℕ, ◌+◌, ◌-◌, ◌≡◌, refl, sym, ap, ◌∙◌, true, false, [], ◌∷◌, ◌++◌, ◌==◌,
  arith, Text, length, take,
}
use c.Base.Run
use c.Base.Run.{Run, ok, fault, ◌>>=◌, Returns, returns}
use c.Scanner.Buffer.{Status, yy_buffer_new, yy_buffer_normal, yy_buffer_eof_pending, Buffer}
use c.Scanner.OnBuffer.{renew}
use c.Scanner.Fits.{Since, Fits}
use c.Scanner.Fill.{IsRunning, normal, at_eof}
use c.Scanner.{at, Last, note, yy_get_previous_state}
use c.Scanner.Tables.{yy_base}
use c.Scanner.Checks.{delta, is_state, steps}
use c.Scanner.Longest.{run, keep, best, IsText}
use c.Scanner.Loop.{back_up, back_up-note, IsOpen, Fine, Fine-note, previous_round, not_nul}

-- the state in which a text leaves the automaton goes on
pub open_end : (text : Text) (s : ℕ) → IsOpen text s → (at yy_base (run s text) == 127) ≡ false
unfolding run
open_end [] s way = way
open_end (b ∷ text) s way = open_end text (delta s b) way.1

pub IsOpen-append :
    (done text : Text) (s : ℕ) → IsOpen done s → IsOpen text (run s done) → IsOpen (done ++ text) s
unfolding run
IsOpen-append [] text s way next = next
IsOpen-append (b ∷ done) text s way next = (way.0, IsOpen-append done text (delta s b) way.1 next)

-- What comes before a place on the way through a text, with what backing up from there gives: the longest
-- match of everything is the one that goes on from that place.
pub record Place (done : Text) (s k : ℕ) (last : Last) : Type 0 where
  pub acc : ℕ × ℕ
  pub is : is_state s ≡ true
  pub goes : (at yy_base s == 127) ≡ false
  pub way : IsOpen done 1
  pub state : s ≡ run 1 done
  pub cpos : k ≡ length done
  pub fine : Fine s k last
  pub same : (more : Text) → best (done ++ more) 1 0 acc ≡ best more s k (back_up last)

-- yy_get_previous_state goes through a text as the automaton does
pub previous_state_run :
    (text : Text) (s k : ℕ) (last : Last)
    → is_state s ≡ true
    → Fine s k last
    → IsText text
    → Returns
        (λ r.
          (r.0 ≡ run s text)
          × (is_state r.0 ≡ true)
          × Fine r.0 (k + length text) r.1
          × ((more : Text)
              → best (text ++ more) s k (back_up last)
                ≡ best more r.0 (k + length text) (back_up r.1)))
        (yy_get_previous_state text s k last)
unfolding run best yy_get_previous_state
previous_state_run [] s k last is fine bytes = returns (
  refl,
  is,
  λ x later. let passed = fine x later in (passed.0, omega (arith, passed.1)),
  λ more. ap (λ n. best more s n (back_up last)) (omega arith),
)
previous_state_run (b ∷ text) s k last is fine bytes =
    let step = steps s b is bytes.0 in
    rw (previous_round b text s k (delta s b) last (not_nul b bytes.0) step.moves) (
      Run.mono
        (previous_state_run text (delta s b) (k + 1) (note s k last) step.is
          (Fine-note b s k last bytes.0 is fine) bytes.1)
        λ r (state, is, fine, same). (
          state,
          is,
          λ x later. let passed = fine x later in (passed.0, omega (arith, passed.1)),
          λ more.
              ap (λ n. best (text ++ more) (delta s b) n (keep s k (back_up last))) (omega arith)
              ∙ sym (ap (best (text ++ more) (delta s b) (k + 1)) (back_up-note s k last))
              ∙ same more
              ∙ ap (λ n. best more r.0 n (back_up r.1)) (omega arith),
        ))

-- at the end of the text that is in the buffer
pub previous_Place :
    (text : Text) (n : ℕ) (last : Last)
    → n ≡ length text
    → IsText text
    → IsOpen text 1
    → Returns (λ r. Place text r.0 n r.1) (yy_get_previous_state text 1 0 last)
previous_Place text n last count bytes way = rw moved (
    Run.mono
      (previous_state_run text 1 0 last refl (λ x later. absurd (false-ne-true (sym later))) bytes)
      λ r (state, is, fine, same). record {
        acc = back_up last;
        is = is;
        goes = ap (λ s. at yy_base s == 127) state ∙ open_end text 1 way;
        way = way;
        state = state;
        cpos = omega arith;
        fine = fine;
        same = same;
      })
  where
    moved : n ≡ 0 + length text
    moved = omega arith

-- where the scanner starts
pub start_Place : (last : Last) → Place [] 1 0 last
unfolding run yy_base
start_Place last = record {
  acc = back_up last;
  is = refl;
  goes = refl;
  way = refl;
  state = refl;
  cpos = refl;
  fine = λ x later. absurd (false-ne-true (sym later));
  same = λ more. refl;
}

pub IsText-append : (xs ys : Text) → IsText (xs ++ ys) → IsText xs × IsText ys
IsText-append [] ys bytes = (tt, bytes)
IsText-append (x ∷ xs) ys bytes =
    let rest = IsText-append xs ys bytes.1 in ((bytes.0, rest.0), rest.1)

-- a buffer that is used is not new any more
pub record Renewed (whole : Text) (b b' : Buffer) : Type 0 where
  pub ahead : b'.ahead ≡ b.ahead
  pub unread : b'.unread ≡ b.unread
  pub fits : Fits whole b'
  pub running : IsRunning b'.yy_buffer_status

renew_new :
    (b : Buffer)
    → b.yy_buffer_status ≡ yy_buffer_new
    → renew b ≡ record b {
      yy_buffer_status = yy_buffer_normal;
      ahead = take (b.yy_n_chars - b.start) b.ahead;
    }
unfolding renew
renew_new b eq = rw (renew, eq) refl

renew_used : (b : Buffer) → IsRunning b.yy_buffer_status → renew b ≡ b
unfolding renew
renew_used b running = by_status b.yy_buffer_status refl running
  where
    by_renewal : Status → Buffer
    by_renewal status = elim status [
      | yy_buffer_new ↦ record b {
        yy_buffer_status = yy_buffer_normal;
        ahead = take (b.yy_n_chars - b.start) b.ahead;
      }
      | yy_buffer_normal ↦ b
      | yy_buffer_eof_pending ↦ b
    ]

    by_status : (status : Status) → b.yy_buffer_status ≡ status → IsRunning status → renew b ≡ b
    by_status yy_buffer_new eq is = elim is [ ]
    by_status yy_buffer_normal eq is = ap by_renewal eq
    by_status yy_buffer_eof_pending eq is = ap by_renewal eq

pub renew_lem : (whole : Text) (b : Buffer) → Fits whole b → Renewed whole b (renew b)
renew_lem whole b fits = by_status b.yy_buffer_status refl
  where
    used : IsRunning b.yy_buffer_status → Renewed whole b (renew b)
    used running =
        rw (renew_used b running)
          (record { ahead = refl; unread = refl; fits = fits; running = running })

    by_status : (status : Status) → b.yy_buffer_status ≡ status → Renewed whole b (renew b)
    by_status yy_buffer_normal eq = used (rw eq normal)
    by_status yy_buffer_eof_pending eq = used (rw eq at_eof)
    by_status yy_buffer_new eq = rw (renew_new b eq) (record {
      ahead = kept;
      unread = refl;
      fits = record {
        rest = ap (λ text. text ++ b.unread) kept ∙ fits.rest;
        ours = fits.ours;
        fill = fits.fill;
        room = omega (arith, fits.room, ap length kept);
        size = fits.size;
        since = tt;
      };
      running = normal;
    })
      where
        empty : b.ahead ≡ []
        empty = rw (sym (ap (λ s. Since s b) eq)) fits.since

        kept : take (b.yy_n_chars - b.start) b.ahead ≡ b.ahead
        kept = ap (take (b.yy_n_chars - b.start)) empty ∙ take_nil _ ∙ sym empty
