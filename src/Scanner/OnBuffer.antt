-- ===== src/Scanner/OnBuffer.antt =====
-- The scanner of Assig1/lex.yy.c and its input() on the buffer.
use c.Base.{
  ltb, ℕ, zero, suc, ◌+◌, ◌-◌, true, false, Option, none, some, [], ◌∷◌, ◌++◌, ◌==◌, leb,
  if◌then◌else◌, ◌⊎◌, inl, inr, Text, length, take, drop,
}
use c.Base.Run.{Run, ok, fault, out_of_fuel, out_of_bounds, ◌>>=◌}
use c.Scanner.{
  Last, note, transition, yy_match, yy_find_action, yy_get_previous_state, yy_end_of_buffer,
}
use c.Scanner.Buffer.{
  int_limit, yy_buffer_new, yy_buffer_normal, yy_buffer_eof_pending, Buffer, yyrestart, Eob,
  eob_act_continue_scan, eob_act_end_of_file, eob_act_last_match, yy_get_next_buffer,
}

-- an answer of the scanner: the action and the length of yytext, or none for the end of the file
abbrev pub Answer : Type 0
Answer = Option (ℕ × ℕ) × Last × Buffer

-- `yy_c_buf_p = yy_cp` at the start of the next token
unfoldable pub consume : (yyleng : ℕ) → Buffer → Buffer
consume yyleng b = record b { start = b.start + yyleng; ahead = drop yyleng b.ahead }

-- (yy_n_chars) is taken from a new buffer
unfoldable pub renew : Buffer → Buffer
renew b = elim b.yy_buffer_status [
  | yy_buffer_new ↦ record b {
    yy_buffer_status = yy_buffer_normal;
    ahead = take (b.yy_n_chars - b.start) b.ahead;
  }
  | yy_buffer_normal ↦ b
  | yy_buffer_eof_pending ↦ b
]

unfoldable pub yy_try_nul_trans : ℕ → ℕ → Last → Run (ℕ × Last)
unfolding transition note
yy_try_nul_trans state cp last = do
  next ← transition 3 state 1
  ok (if next == 78 then 0 else next, note state cp last)

-- where the scanner goes from YY_END_OF_BUFFER: to an answer, or back to yy_match
abbrev pub Next : Type 0
Next = Answer ⊎ (Buffer × ℕ × ℕ × Last)

-- `yy_amount_of_matched_text`, an int: where the cast wraps around, yy_c_buf_p is put in front of the token
unfoldable pub int_amount : ℕ → Run ℕ
int_amount amount = if ltb (amount + 1) int_limit then ok amount else fault out_of_bounds

-- "This was really a NUL."
unfoldable pub nul_in_text : (yy_amount_of_matched_text : ℕ) → Last → Buffer → Run Next
unfolding int_amount yy_get_previous_state yy_try_nul_trans yy_find_action
nul_in_text amount last b = do
  amount ← int_amount amount
  (state, last) ← yy_get_previous_state (take amount b.ahead) 1 0 last
  (next, last) ← yy_try_nul_trans state amount last
  ok (
      if next == 0
      then inl (some (yy_find_action state amount last), last, b)
      else inr (b, next, amount + 1, last))

-- the switch over the answer of yy_get_next_buffer; yywrap() is 1
unfoldable pub after_refill : (yy_amount_of_matched_text : ℕ) → Eob → Last → Buffer → Run Next
unfolding int_amount yy_get_previous_state yy_find_action
after_refill amount eob_act_end_of_file last b = ok (inl (none, last, b))
after_refill amount eob_act_continue_scan last b = do
  amount ← int_amount amount
  (state, last) ← yy_get_previous_state (take amount b.ahead) 1 0 last
  ok (inr (b, state, amount, last))
after_refill amount eob_act_last_match last b = do
  (state, last) ← yy_get_previous_state b.ahead 1 0 last
  ok (inl (some (yy_find_action state (length b.ahead) last), last, b))

-- the switch of input() over the answer of yy_get_next_buffer, and the read behind it; where the end of the
-- file is found, yyrestart has put yy_c_buf_p at the start
unfoldable pub input_refilled : (offset : ℕ) → Eob → Buffer → Run (ℕ × ℕ × Buffer)
unfolding yyrestart
input_refilled offset eob_act_last_match b = ok (0, 0, yyrestart b)
input_refilled offset eob_act_end_of_file b = ok (0, if b.yy_fill_buffer then 0 else offset + 1, b)
input_refilled offset eob_act_continue_scan b = elim (drop offset b.ahead) [
  | c ∷ rest ↦ ok (c, offset + 1, b)
  | [] ↦ fault out_of_bounds
]

-- fread as in Buffer
module _ (fread : (max_size : ℕ) → Text → ℕ) where
  -- the case YY_END_OF_BUFFER
  unfoldable pub end_of_buffer : (yy_c_buf_p : ℕ) → Last → Buffer → Run Next
  unfolding renew nul_in_text yy_get_next_buffer after_refill
  end_of_buffer yy_c_buf_p last b = elim (leb yy_c_buf_p (length (renew b).ahead)) [
    | true ↦ nul_in_text (yy_c_buf_p - 1) last (renew b)
    | false ↦ do
      (act, b) ← yy_get_next_buffer fread yy_c_buf_p (renew b)
      after_refill (yy_c_buf_p - 1) act last b
  ]

  -- yylex from yy_match to the switch on yy_act; `cp` counts from yytext_ptr and the rounds are the fuel
  unfoldable pub scan_from : ℕ → Buffer → (state cp : ℕ) → Last → Run Answer
  unfolding yy_match yy_find_action end_of_buffer
  scan_from zero b state cp last = fault out_of_fuel
  scan_from (suc fuel) b state cp last = do
    (state, cp, last) ← yy_match (drop cp b.ahead ++ 0 ∷ 0 ∷ []) state cp last
    elim ((yy_find_action state cp last).0 == yy_end_of_buffer) [
      | false ↦ ok (some (yy_find_action state cp last), last, b)
      | true ↦ do
        next ← end_of_buffer (yy_find_action state cp last).1 last b
        elim next [
          | inl answer ↦ ok answer
          | inr (b, state, cp, last) ↦ scan_from fuel b state cp last
        ]
    ]

  -- input(): the character, or 0 at the end of the file, with the place behind it. `yy_c_buf_p` counts from
  -- yytext_ptr.
  unfoldable pub input : (yy_c_buf_p : ℕ) → Buffer → Run (ℕ × ℕ × Buffer)
  unfolding yy_get_next_buffer input_refilled
  input yy_c_buf_p b = elim (drop yy_c_buf_p b.ahead) [
    | c ∷ rest ↦ ok (c, yy_c_buf_p + 1, b)
    | [] ↦ do
      (act, b) ← yy_get_next_buffer fread (yy_c_buf_p + 1) b
      input_refilled yy_c_buf_p act b
  ]
