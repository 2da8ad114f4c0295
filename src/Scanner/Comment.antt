-- ===== src/Scanner/Comment.antt =====
-- The comment action of Assig1/lex.yy.c through the buffer against the one on the whole text.
use c.Base.{
  ℕ, zero, suc, ◌+◌, ◌<◌, ◌≤◌, ◌≡◌, refl, sym, ap, ◌∙◌, Bool, true, false, [], ◌∷◌, ◌++◌, ◌==◌,
  ◌||◌, ltb, arith, if◌then◌else◌, inl, inr, Bool-cases, Text, length, drop, length-append,
}
use c.Base.Run.{Run, ok, fault, out_of_bounds, ◌>>=◌, Returns, returns}
use c.Scanner.Buffer.{Status, yy_buffer_new, yy_buffer_normal, yy_buffer_eof_pending, Buffer}
use c.Scanner.OnBuffer.{consume, input}
use c.Scanner.Actions.{Eaten, put_char, eat_comment}
use c.Scanner.OnFile.{EatenHere, eat_here}
use c.Scanner.Fread.{IsFread}
use c.Scanner.Fits.{Since, Fits}
use c.Scanner.Fill.{IsRunning, normal, at_eof}
use c.Scanner.Input.{IsInput, read, at_end, input-IsInput}
use c.Scanner.Same.{consume-Fits, nothing_ahead}
use c.Scanner.Ends.{eat_end_lem}
use mathlib.Core.List.{tail-eq_of_cons-eq, nil≢cons}

-- the two loops leave the same, or both write past the end of the comment
pub data SameEaten : Run Eaten → Run EatenHere → Type 0 where
  eaten :
      {e : Eaten} {h : EatenHere}
      → e.comment ≡ h.comment
      → e.linenumber ≡ h.linenumber
      → e.closed ≡ h.closed
      → Fits e.rest h.buffer
      → SameEaten (ok e) (ok h)
  overrun : SameEaten (fault out_of_bounds) (fault out_of_bounds)

-- a buffer that holds a character is not new
pub inside_IsRunning :
    (whole : Text) (b : Buffer) → Fits whole b → 0 < length b.ahead → IsRunning b.yy_buffer_status
inside_IsRunning whole b fits some_ahead = by_status b.yy_buffer_status fits.since
  where
    by_status : (status : Status) → Since status b → IsRunning status
    by_status yy_buffer_new empty = absurd (omega (arith, some_ahead, ap length empty))
    by_status yy_buffer_normal h = normal
    by_status yy_buffer_eof_pending h = at_eof

-- the same test of the place on both sides
SameEaten-put_char :
    (comment : Text) (c : ℕ) (f : Text → Run Eaten) (g : Text → Run EatenHere)
    → (length comment < 100 → SameEaten (f (comment ++ c ∷ [])) (g (comment ++ c ∷ [])))
    → SameEaten (put_char comment c >>= f) (put_char comment c >>= g)
unfolding put_char
SameEaten-put_char comment c f g next = elim (Bool-cases (ltb (length comment) 100)) [
  | inl x ↦ rw x (next (ground arith))
  | inr x ↦ rw x overrun
]

drop_next :
    (place c : ℕ) (text rest : Text) → drop place text ≡ c ∷ rest → drop (place + 1) text ≡ rest
drop_next place c text rest eq = ap (λ n. drop n text) next_place ∙ by_place place text eq
  where
    next_place : place + 1 ≡ suc place
    next_place = omega arith

    by_place : (place : ℕ) (text : Text) → drop place text ≡ c ∷ rest → drop (suc place) text ≡ rest
    by_place zero (d ∷ text) eq = tail-eq_of_cons-eq eq
    by_place zero [] eq = absurd (nil≢cons eq)
    by_place (suc place) [] eq = absurd (nil≢cons eq)
    by_place (suc place) (d ∷ text) eq = by_place place text eq

-- the call of input() returns
SameEaten-bind :
    {A : Type 0} {P : A → Type 0} {m : Run A} {f : A → Run EatenHere} (r : Run Eaten)
    → Returns P m
    → ((a : A) → P a → SameEaten r (f a))
    → SameEaten r (m >>= f)
SameEaten-bind r (returns p) next = next _ p

-- A place in the buffer, with the text that is left behind it: the buffer is not new as long as something
-- is unread.
pub record AtPlace (whole text : Text) (place : ℕ) (b : Buffer) : Type 0 where
  pub small : length whole < 2147483647
  pub fits : Fits whole b
  pub ready : 0 < length b.unread → IsRunning b.yy_buffer_status
  pub inside : place ≤ length b.ahead
  pub left : drop place whole ≡ text

module _ (fread : ℕ → Text → ℕ) where
  -- a round of the loop behind its call of input()
  unfoldable eat_char : ℕ → (star : Bool) → (c place : ℕ) → Buffer → Text → ℕ → Run EatenHere
  unfolding put_char eat_here
  eat_char rounds false c place b comment lines = elim (c == 42) [
    | true ↦ do comment ← put_char comment c; eat_here fread rounds true place b comment lines
    | false ↦ elim (c == 255) [
      | true ↦ ok (record {
        comment = comment;
        linenumber = lines;
        closed = false;
        buffer = consume place b;
      })
      | false ↦ do
        comment ← put_char comment c
        eat_here fread rounds false place b comment (if c == 10 then lines + 1 else lines)
    ]
  ]
  eat_char rounds true c place b comment lines = do
    comment ← put_char comment c
    elim (c == 42) [
      | true ↦ eat_here fread rounds true place b comment lines
      | false ↦ elim (c == 47 || c == 255) [
        | true ↦ ok (record {
          comment = comment;
          linenumber = lines;
          closed = c == 47;
          buffer = consume place b;
        })
        | false ↦ eat_here fread rounds false place b comment lines
      ]
    ]

  eat_round :
      (rounds : ℕ) (star : Bool) (place : ℕ) (b : Buffer) (comment : Text) (lines : ℕ)
      → eat_here fread (suc rounds) star place b comment lines
        ≡ (input fread place b >>= λ r. eat_char rounds star r.0 r.1 r.2 comment lines)
  unfolding eat_here eat_char
  eat_round rounds false place b comment lines = refl
  eat_round rounds true place b comment lines = refl

  -- the same character on both sides
  eat_char_lem :
      (rounds : ℕ) (star : Bool) (c place : ℕ) (rest : Text) (b : Buffer) (comment : Text)
      (lines : ℕ)
      → Fits rest (consume place b)
      → ((star : Bool) (comment : Text) (lines : ℕ)
          → SameEaten
              (eat_comment star rest comment lines)
              (eat_here fread rounds star place b comment lines))
      → SameEaten
          (eat_comment star (c ∷ rest) comment lines)
          (eat_char rounds star c place b comment lines)
  unfolding eat_comment eat_char
  eat_char_lem rounds false c place rest b comment lines fits again = elim (Bool-cases (c == 42)) [
    | inl x ↦
        rw (eat_comment, eat_char, x)
          (SameEaten-put_char comment c _ _ λ lt. again true (comment ++ c ∷ []) lines)
    | inr x ↦ elim (Bool-cases (c == 255)) [
      | inl y ↦ rw (eat_comment, eat_char, x, y) (eaten refl refl refl fits)
      | inr y ↦
          rw (eat_comment, eat_char, x, y)
            (SameEaten-put_char comment c _ _ λ lt. again false (comment ++ c ∷ []) _)
    ]
  ]
  eat_char_lem rounds true c place rest b comment lines fits again =
      SameEaten-put_char comment c _ _ λ lt. elim (Bool-cases (c == 42)) [
        | inl x ↦ rw x (again true (comment ++ c ∷ []) lines)
        | inr x ↦ elim (Bool-cases (c == 47 || c == 255)) [
          | inl y ↦ rw (x, y) (eaten refl refl refl fits)
          | inr y ↦ rw (x, y) (again false (comment ++ c ∷ []) lines)
        ]
      ]

  input_at :
      (whole text : Text) (place : ℕ) (b : Buffer)
      → IsFread fread
      → AtPlace whole text place b
      → Returns (IsInput whole place text) (input fread place b)
  input_at whole text place b is here =
      rw⁻¹ here.left
        (input-IsInput fread whole place b is here.small here.fits here.ready here.inside)

  full_or :
      (comment : Text) (g : Text → Run EatenHere)
      → (length comment < 100 → SameEaten (fault out_of_bounds) (g (comment ++ 0 ∷ [])))
      → SameEaten (fault out_of_bounds) (put_char comment 0 >>= g)
  unfolding put_char
  full_or comment g next = elim (Bool-cases (ltb (length comment) 100)) [
    | inl x ↦ rw x (next (ground arith))
    | inr x ↦ rw x overrun
  ]

  -- behind the end of the file
  end_char :
      (rounds : ℕ) (star : Bool) (b : Buffer) (comment : Text) (lines : ℕ)
      → (length comment < 100
          → SameEaten
              (fault out_of_bounds)
              (eat_here fread rounds false 0 b (comment ++ 0 ∷ []) lines))
      → SameEaten (fault out_of_bounds) (eat_char rounds star 0 0 b comment lines)
  unfolding eat_char
  end_char rounds false b comment lines next = full_or comment _ next
  end_char rounds true b comment lines next = full_or comment _ next

  abbrev Overruns : ℕ → Type 0
  Overruns rounds =
      (star : Bool) (whole : Text) (place : ℕ) (b : Buffer) (comment : Text) (lines : ℕ)
      → AtPlace whole [] place b
      → 0 < rounds
      → 100 < rounds + length comment
      → SameEaten (fault out_of_bounds) (eat_here fread rounds star place b comment lines)

  eat_behind : (rounds : ℕ) → IsFread fread → Overruns rounds
  eat_behind zero is star whole place b comment lines here some_round enough = absurd (omega arith)
  eat_behind (suc rounds) is star whole place b comment lines here some_round enough =
      rw (eat_round rounds star place b comment lines) (
        SameEaten-bind _ (input_at whole [] place b is here)
          λ r answer. by_answer (eat_behind rounds is) r answer)
    where
      by_answer :
          Overruns rounds
          → (r : ℕ × ℕ × Buffer) → IsInput whole place [] r
          → SameEaten (fault out_of_bounds) (eat_char rounds star r.0 r.1 r.2 comment lines)
      by_answer again r (at_end empty) = end_char rounds star r.2 comment lines λ lt.
          again false [] 0 r.2 (comment ++ 0 ∷ []) lines (at_start r.2 empty) (omega arith)
            (omega (arith, length-append comment (0 ∷ [])))
        where
          at_start : (b : Buffer) → Fits [] b → AtPlace [] [] 0 b
          at_start b empty = record {
            small = omega arith;
            fits = empty;
            ready = λ some_left. absurd (omega (arith, ap length (nothing_ahead fread b empty).1));
            inside = omega arith;
            left = refl;
          }

  eat_comment_nil :
      (star : Bool) (comment : Text) (lines : ℕ)
      → eat_comment star [] comment lines ≡ fault out_of_bounds
  unfolding eat_comment
  eat_comment_nil false comment lines = eat_end_lem 101 comment (omega arith) (omega arith)
  eat_comment_nil true comment lines = eat_end_lem 101 comment (omega arith) (omega arith)

  -- the loop through the buffer and the loop on the text that is left
  abbrev pub EatsSame : Text → ℕ → Type 0
  EatsSame text rounds =
      (star : Bool) (whole : Text) (place : ℕ) (b : Buffer) (comment : Text) (lines : ℕ)
      → AtPlace whole text place b
      → length text + 101 < rounds
      → SameEaten (eat_comment star text comment lines)
          (eat_here fread rounds star place b comment lines)

  -- The loop of the comment action finds the same through the buffer as on the text that is left.
  pub eat_here_lem : (text : Text) (rounds : ℕ) → IsFread fread → EatsSame text rounds
  eat_here_lem [] rounds is star whole place b comment lines here enough =
      rw (eat_comment_nil star comment lines)
        (eat_behind rounds is star whole place b comment lines here (omega arith) (omega arith))
  eat_here_lem (c ∷ text) zero is star whole place b comment lines here enough =
      absurd (omega arith)
  eat_here_lem (c ∷ text) (suc rounds) is star whole place b comment lines here enough =
      rw (eat_round rounds star place b comment lines) (
        SameEaten-bind _ (input_at whole (c ∷ text) place b is here)
          λ r answer. by_answer (eat_here_lem text rounds is) r answer)
    where
      by_answer :
          EatsSame text rounds
          → (r : ℕ × ℕ × Buffer) → IsInput whole place (c ∷ text) r
          → SameEaten
              (eat_comment star (c ∷ text) comment lines)
              (eat_char rounds star r.0 r.1 r.2 comment lines)
      by_answer again r (read fits in_buffer) =
          let next = drop_next place c whole text here.left in
          eat_char_lem rounds star c (place + 1) text r.2 comment lines
            (rw (sym next) (consume-Fits whole (place + 1) r.2 fits in_buffer))
            λ star comment lines.
              again star whole (place + 1) r.2 comment lines
                (record {
                  small = here.small;
                  fits = fits;
                  ready = λ some_left. inside_IsRunning whole r.2 fits (omega (arith, in_buffer));
                  inside = in_buffer;
                  left = next;
                })
                (omega arith)
