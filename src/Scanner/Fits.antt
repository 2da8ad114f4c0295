-- ===== src/Scanner/Fits.antt =====
-- What yy_get_next_buffer of Assig1/lex.yy.c leaves in the buffer.
use c.Base.{
  drop_nil, take_nil, length-drop, take-eq_self, ℕ, ◌+◌, ◌<◌, ◌≤◌, ◌≡◌, ◌≢◌, refl, sym, ap, ◌∙◌,
  true, false, [], ◌++◌, ◌==◌, ltb, ==_iff, arith, inl, inr, Bool-cases, Text, length, take, drop,
  length-take, take-drop, length-append, length_zero,
}
use c.Base.Run.{Returns, returns}
use c.Scanner.Buffer.{
  yy_flush_buffer, yy_init_buffer, Status, yy_buffer_new, yy_buffer_normal, yy_buffer_eof_pending,
  Buffer, Eob, eob_act_continue_scan, eob_act_end_of_file, eob_act_last_match, move_chars, settle,
  yyrestart,
}
use mathlib.Core.List.{append-nil, append_assoc}

-- a new buffer is empty, and behind the end of the file nothing is left
abbrev pub Since : Status → Buffer → Type 0
Since yy_buffer_new b = b.ahead ≡ []
Since yy_buffer_normal b = Unit
Since yy_buffer_eof_pending b = b.unread ≡ []

-- the buffer holds a part of a text, the rest of which is in the file
pub record Fits (whole : Text) (b : Buffer) : Type 0 where
  pub rest : b.ahead ++ b.unread ≡ whole
  pub ours : b.yy_is_our_buffer ≡ true
  pub fill : b.yy_fill_buffer ≡ true
  pub room : b.start + length b.ahead < b.yy_buf_size
  pub size : b.yy_buf_size < 9223372036854775809
  pub since : Since b.yy_buffer_status b

-- what yy_get_next_buffer answers, behind the last character that is in the buffer
pub data Refilled (whole : Text) (ahead unread : Text) : Eob × Buffer → Type 0 where
  ended :
      {b' : Buffer}
      → ahead ≡ []
      → unread ≡ []
      → Fits whole b'
      → b'.ahead ≡ []
      → Refilled whole ahead unread (eob_act_end_of_file, b')
  pending :
      {b' : Buffer}
      → ahead ≢ []
      → b'.ahead ≡ ahead
      → unread ≡ []
      → b'.unread ≡ []
      → Fits whole b'
      → Refilled whole ahead unread (eob_act_last_match, b')
  continued :
      {b' : Buffer} (more : Text)
      → more ≢ []
      → b'.ahead ≡ ahead ++ more
      → length b'.unread < length unread
      → Fits whole b'
      → Refilled whole ahead unread (eob_act_continue_scan, b')

-- the part of the buffer that yy_get_next_buffer works on
pub record Held (whole : Text) (b : Buffer) : Type 0 where
  pub rest : b.ahead ++ b.unread ≡ whole
  pub ours : b.yy_is_our_buffer ≡ true
  pub fill : b.yy_fill_buffer ≡ true
  pub size : b.yy_buf_size < 9223372036854775809

moved_ahead :
    (n : ℕ) (b : Buffer) → (move_chars (length b.ahead) n b).ahead ≡ b.ahead ++ take n b.unread
unfolding move_chars
moved_ahead n b =
    ap (λ text. text ++ take n b.unread) (take-eq_self (length b.ahead) b.ahead (omega arith))

moved_length :
    (n : ℕ) (b : Buffer)
    → n ≤ length b.unread
    → length (move_chars (length b.ahead) n b).ahead ≡ length b.ahead + n
moved_length n b le =
    ap length (moved_ahead n b)
    ∙ length-append b.ahead (take n b.unread)
    ∙ ap (λ m. length b.ahead + m) (length-take n b.unread le)

moved_rest :
    (n : ℕ) (b : Buffer)
    → (move_chars (length b.ahead) n b).ahead ++ drop n b.unread ≡ b.ahead ++ b.unread
moved_rest n b =
    ap (λ text. text ++ drop n b.unread) (moved_ahead n b)
    ∙ append_assoc b.ahead (take n b.unread) (drop n b.unread)
    ∙ ap (λ text. b.ahead ++ text) (take-drop n b.unread)

settle_end :
    (whole : Text) (b : Buffer)
    → Held whole b
    → 0 < b.yy_buf_size
    → b.ahead ≡ []
    → Fits whole (yyrestart b)
unfolding yyrestart yy_init_buffer yy_flush_buffer
settle_end whole b held some_size empty = record {
  rest = ap (λ text. text ++ b.unread) (sym empty) ∙ held.rest;
  ours = held.ours;
  fill = refl;
  room = omega arith;
  size = held.size;
  since = refl;
}

settle_Fits :
    (whole : Text) (n : ℕ) (status : Status) (b : Buffer)
    → Held whole b
    → n + length b.ahead < b.yy_buf_size
    → n ≤ length b.unread
    → ((b' : Buffer)
        → b'.unread ≡ drop n b.unread
        → b'.ahead ≡ (move_chars (length b.ahead) n b).ahead
        → Since status b')
    → Fits whole (record (move_chars (length b.ahead) n b) { yy_buffer_status = status })
unfolding move_chars
settle_Fits whole n status b held fits le since = record {
  rest = moved_rest n b ∙ held.rest;
  ours = held.ours;
  fill = held.fill;
  room = omega (arith, moved_length n b le, fits);
  size = held.size;
  since = since _ refl refl;
}

pub settle_lem :
    (whole : Text) (n : ℕ) (b : Buffer)
    → Held whole b
    → (0 < n → b.yy_buffer_status ≡ yy_buffer_normal)
    → n + length b.ahead < b.yy_buf_size
    → n ≤ length b.unread
    → (n ≡ 0 → b.unread ≡ [])
    → Returns (Refilled whole b.ahead b.unread) (settle (length b.ahead) n b)
unfolding settle yyrestart yy_init_buffer yy_flush_buffer move_chars
settle_lem whole n b held going fits le nothing = elim (Bool-cases (n == 0)) [
  | inl x ↦
      let empty = nothing ((==_iff n 0).0 x) in
      elim (Bool-cases (length b.ahead == 0)) [
        | inl y ↦
            let none_ahead = length_zero b.ahead ((==_iff (length b.ahead) 0).0 y) in
            rw (settle, roomy, x, y)
              (returns (
                ended none_ahead empty (settle_end whole b held (omega arith) none_ahead)
                  restarted))
        | inr y ↦
            rw (settle, roomy, x, y)
              (returns (
                pending (some_ahead y)
                  (moved_ahead n b
                    ∙ ap (λ text. b.ahead ++ take n text) empty
                    ∙ ap (λ text. b.ahead ++ text) (take_nil n)
                    ∙ append-nil b.ahead)
                  empty (ap (drop n) empty ∙ drop_nil n)
                  (settle_Fits whole n yy_buffer_eof_pending b held fits le
                    λ b' u a. u ∙ ap (drop n) empty ∙ drop_nil n)))
      ]
  | inr x ↦
      rw (settle, roomy, x)
        (returns (
          continued (take n b.unread) (new_chars x) (moved_ahead n b) (fewer x) (
            settle_Fits whole n b.yy_buffer_status b held fits le
              λ b' u a. rw (going (ground arith)) tt)))
]
  where
    roomy : ltb b.yy_buf_size (n + length b.ahead) ≡ false
    roomy = ground arith

    some_ahead : (length b.ahead == 0) ≡ false → b.ahead ≢ []
    some_ahead y z = let none_ahead = ap length z in ground arith

    new_chars : (n == 0) ≡ false → take n b.unread ≢ []
    new_chars x z =
        let count = length-take n b.unread le in let none_new = ap length z in ground arith

    fewer : (n == 0) ≡ false → length (drop n b.unread) < length b.unread
    fewer x = let count = length-drop n b.unread le in ground arith

    restarted : (yyrestart b).ahead ≡ []
    restarted = refl
