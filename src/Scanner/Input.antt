-- ===== src/Scanner/Input.antt =====
-- input() of Assig1/lex.yy.c reads the file character by character, through the buffer.
use c.Base.{
  drop_nil, if◌then◌else◌, ℕ, zero, suc, ◌+◌, ◌<◌, ◌≤◌, ◌≡◌, ◌≢◌, refl, sym, ap, ◌∙◌, [], ◌∷◌, ◌++◌,
  arith, Text, length, drop, length-drop, drop-append, drop-length,
}
use c.Base.Run
use c.Base.Run.{out_of_bounds, Run, ok, fault, ◌>>=◌, Returns, returns}
use c.Scanner.Buffer.{yy_flush_buffer, yy_init_buffer, Buffer, Eob, yy_get_next_buffer, yyrestart}
use c.Scanner.OnBuffer.{input, input_refilled}
use c.Scanner.Fits.{Fits, Refilled, ended, pending, continued}
use c.Scanner.Fread.{IsFread}
use c.Scanner.Fill.{IsRunning, yy_get_next_buffer_lem}

-- what input() makes of the text from the next character on, in a file of which the buffer holds a part
pub data IsInput (whole : Text) (place : ℕ) : Text → ℕ × ℕ × Buffer → Type 0 where
  read :
      {c : ℕ} {rest : Text} {b : Buffer}
      → Fits whole b
      → place + 1 ≤ length b.ahead
      → IsInput whole place (c ∷ rest) (c, place + 1, b)
  at_end : {b : Buffer} → Fits [] b → IsInput whole place [] (0, 0, b)

IsInput-cons :
    (whole : Text) (place c : ℕ) (rest text : Text) (b : Buffer)
    → Fits whole b
    → place + 1 ≤ length b.ahead
    → c ∷ rest ≡ text
    → IsInput whole place text (c, place + 1, b)
IsInput-cons whole place c rest text b fits le same = rw (sym same) (read fits le)

IsInput-nil :
    (whole : Text) (place p : ℕ) (text : Text) (b : Buffer)
    → Fits [] b
    → p ≡ 0
    → text ≡ []
    → IsInput whole place text (0, p, b)
IsInput-nil whole place p text b fits first same = rw (first, same) (at_end fits)

yyrestart-Fits : (whole : Text) (b : Buffer) → Fits whole b → b.unread ≡ [] → Fits [] (yyrestart b)
unfolding yyrestart yy_init_buffer yy_flush_buffer
yyrestart-Fits whole b fits nothing = record {
  rest = nothing;
  ours = fits.ours;
  fill = refl;
  room = omega (arith, fits.room);
  size = fits.size;
  since = refl;
}

place_lt : (place c : ℕ) (text rest : Text) → drop place text ≡ c ∷ rest → place + 1 ≤ length text
place_lt zero c text rest eq = omega (arith, ap length eq)
place_lt (suc place) c [] rest eq = absurd (omega (arith, ap length eq))
place_lt (suc place) c (b ∷ text) rest eq = omega (arith, place_lt place c text rest eq)

-- the next character is in the buffer
IsInput-read :
    (whole : Text) (place c : ℕ) (text : Text) (b : Buffer)
    → Fits whole b
    → drop place b.ahead ≡ c ∷ text
    → IsInput whole place (drop place whole) (c, place + 1, b)
IsInput-read whole place c text b fits here =
    let le = place_lt place c b.ahead text here in
    IsInput-cons whole place c (text ++ b.unread) (drop place whole) b fits le (
      sym (ap (λ t. t ++ b.unread) here)
      ∙ sym (drop-append place b.ahead b.unread (omega (arith, le)))
      ∙ ap (drop place) fits.rest)

refilled_read :
    (whole : Text) (place : ℕ) (b : Buffer) (text : Text)
    → Fits whole b
    → drop place b.ahead ≡ text
    → text ≢ []
    → Returns
        (IsInput whole place (drop place whole))
        (elim text [ c ∷ rest ↦ ok (c, place + 1, b) | [] ↦ fault out_of_bounds ])
refilled_read whole place b [] fits here some_left = absurd (some_left refl)
refilled_read whole place b (c ∷ text) fits here some_left =
    returns (IsInput-read whole place c text b fits here)

behind_all :
    (whole : Text) (place : ℕ) (ahead unread : Text)
    → ahead ++ unread ≡ whole
    → place ≡ length ahead
    → drop place whole ≡ unread
behind_all whole place ahead unread rest count =
    ap (drop place) (sym rest) ∙ ap (λ n. drop n (ahead ++ unread)) count ∙ drop-length ahead unread

input_refilled_lem :
    (whole : Text) (place : ℕ) (ahead unread : Text) (r : Eob × Buffer)
    → ahead ++ unread ≡ whole
    → place ≡ length ahead
    → Refilled whole ahead unread r
    → Returns (IsInput whole place (drop place whole)) (input_refilled place r.0 r.1)
unfolding input_refilled
input_refilled_lem whole place ahead unread r rest count (ended none_ahead none_left fits is) =
    returns (
      IsInput-nil whole place _ (drop place whole) r.1 (rw nothing_whole fits) first
        (ap (drop place) (sym nothing_whole) ∙ drop_nil place))
  where
    nothing_whole : [] ≡ whole
    nothing_whole = sym (ap (λ a. a ++ unread) none_ahead ∙ none_left) ∙ rest

    first : (if r.1.yy_fill_buffer then 0 else place + 1) ≡ 0
    first = rw fits.fill refl
input_refilled_lem whole place ahead unread r rest count
      (pending some_ahead same none_left nothing fits) =
    returns (
      IsInput-nil whole place 0 (drop place whole) (yyrestart r.1)
        (yyrestart-Fits whole r.1 fits nothing) refl
        (behind_all whole place ahead unread rest count ∙ none_left))
input_refilled_lem whole place ahead unread r rest count
      (continued more some_more longer fewer fits) =
    refilled_read whole place r.1 (drop place r.1.ahead) fits refl (λ z. some_more (sym behind ∙ z))
  where
    behind : drop place r.1.ahead ≡ more
    behind =
        ap (drop place) longer ∙ ap (λ n. drop n (ahead ++ more)) count ∙ drop-length ahead more

module _ (fread : ℕ → Text → ℕ) where
  -- At a place in the buffer, for a text of less than 2 ^ 31 - 1 characters whose beginning is in the
  -- buffer, for an fread that gives what there is, and for a buffer that is not new unless nothing
  -- is unread, input() returns the next character of the text with the place behind it, which is in
  -- the buffer, whether it had to be read or not; where none is left it returns 0, and not EOF, and
  -- leaves an empty buffer.
  pub input-IsInput :
      (whole : Text) (place : ℕ) (b : Buffer)
      → IsFread fread
      → length whole < 2147483647
      → Fits whole b
      → (0 < length b.unread → IsRunning b.yy_buffer_status)
      → place ≤ length b.ahead
      → Returns (IsInput whole place (drop place whole)) (input fread place b)
  unfolding input
  input-IsInput whole place b is small fits ready le = by_text (drop place b.ahead) refl
    where
      by_text :
          (text : Text)
          → drop place b.ahead ≡ text
          → Returns (IsInput whole place (drop place whole)) (elim text [
            | c ∷ rest ↦ ok (c, place + 1, b)
            | [] ↦ yy_get_next_buffer fread (place + 1) b >>= λ r. input_refilled place r.0 r.1
          ])
      by_text (c ∷ text) here = returns (IsInput-read whole place c text b fits here)
      by_text [] here =
          let behind = length-drop place b.ahead le in
          Run.bind
            (yy_get_next_buffer_lem fread whole (place + 1) b is fits ready small
              (omega (arith, behind, ap length here)))
            λ r refilled.
              input_refilled_lem whole place b.ahead b.unread r fits.rest
                (omega (arith, behind, ap length here)) refilled
