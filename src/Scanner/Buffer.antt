-- ===== src/Scanner/Buffer.antt =====
-- The input buffer of Assig1/lex.yy.c, and how it is filled.
use c.Base.{
  ◌/◌, ◌%◌, ◌&&◌, ℕ, zero, suc, ◌+◌, ◌-◌, ◌*◌, Bool, true, false, not, [], ◌∷◌, ◌++◌, ◌==◌, ltb,
  if◌then◌else◌, Text, length, take, drop,
}
use c.Base.Run.{Run, ok, fault, out_of_fuel, out_of_bounds, reported, ◌>>=◌}

-- YY_BUFFER_NEW, YY_BUFFER_NORMAL and YY_BUFFER_EOF_PENDING
pub data Status : Type 0 where
  yy_buffer_new : Status
  yy_buffer_normal : Status
  yy_buffer_eof_pending : Status

-- The current buffer with the globals that go with it. The array yy_ch_buf is seen from yytext_ptr, which
-- stands at its place `start`: `ahead` is what comes up to the place `(yy_n_chars)`, behind which the two
-- end characters stand. `unread` is what yyin still gives.
pub record Buffer : Type 0 where
  pub yy_buf_size : ℕ
  pub yy_n_chars : ℕ
  pub yy_is_our_buffer : Bool
  pub yy_is_interactive : Bool
  pub yy_fill_buffer : Bool
  pub yy_buffer_status : Status
  pub start : ℕ
  pub ahead : Text
  pub unread : Text

-- YY_BUF_SIZE and YY_READ_BUF_SIZE
abbrev pub yy_buf_size : ℕ
yy_buf_size = 16384

abbrev pub yy_read_buf_size : ℕ
yy_read_buf_size = 8192

-- with the call of yy_load_buffer_state, as the buffer is the current one
unfoldable pub yy_flush_buffer : Buffer → Buffer
yy_flush_buffer b = record b {
  yy_n_chars = 0;
  yy_buffer_status = yy_buffer_new;
  start = 0;
  ahead = [];
}

-- isatty() of the file is the same as when it was opened
unfoldable pub yy_init_buffer : Buffer → Buffer
unfolding yy_flush_buffer
yy_init_buffer b = record (yy_flush_buffer b) { yy_fill_buffer = true }

-- for the file that is being read, of which nothing is given back
unfoldable pub yyrestart : Buffer → Buffer
unfolding yy_init_buffer
yyrestart b = yy_init_buffer b

-- memory does not run out
unfoldable pub yy_create_buffer : (tty : Bool) → (file : Text) → (size : ℕ) → Buffer
unfolding yy_init_buffer
yy_create_buffer tty file size = yy_init_buffer (record {
  yy_buf_size = size;
  yy_n_chars = 0;
  yy_is_our_buffer = true;
  yy_is_interactive = tty;
  yy_fill_buffer = true;
  yy_buffer_status = yy_buffer_new;
  start = 0;
  ahead = [];
  unread = file;
})

-- the numbers from here on do not fit an int
abbrev pub int_limit : ℕ
int_limit = 2147483648

-- the number of characters that the loop over getc of YY_INPUT stores
unfoldable pub getc_line : (max_size : ℕ) → Text → ℕ
getc_line zero unread = 0
getc_line (suc max_size) [] = 0
getc_line (suc max_size) (c ∷ unread) = if c == 10 then 1 else suc (getc_line max_size unread)

-- `b->yy_buf_size` after it has been made larger; a yy_size_t has 64 bits
unfoldable pub double : ℕ → ℕ
double size =
    if size * 2 % 18446744073709551616 == 0
    then (size + size / 8) % 18446744073709551616
    else size * 2 % 18446744073709551616

-- The while loop over num_to_read: the size at which there is room. Where more is to be moved than the
-- size, num_to_read wraps around and the read goes past the array. `yy_c_buf_p_offset` is an int: where it
-- wraps around, yy_c_buf_p is put outside the array.
unfoldable pub grow :
    ℕ → (is_our_buffer : Bool) → (yy_c_buf_p_offset : ℕ) → (number_to_move : ℕ) → (size : ℕ) → Run ℕ
unfolding double
grow zero is_ours offset number_to_move size = fault out_of_fuel
grow (suc fuel) is_ours offset number_to_move size = elim (ltb number_to_move size) [
  | false ↦ fault out_of_bounds
  | true ↦ elim (size - number_to_move - 1 == 0) [
    | false ↦ ok size
    | true ↦ elim is_ours [
      | false ↦ fault reported
      | true ↦ elim (ltb offset int_limit) [
        | false ↦ fault out_of_bounds
        | true ↦ grow fuel true offset number_to_move (double size)
      ]
    ]
  ]
]

-- the answers of yy_get_next_buffer
pub data Eob : Type 0 where
  eob_act_continue_scan : Eob
  eob_act_end_of_file : Eob
  eob_act_last_match : Eob

-- what is moved to the start of the array, followed by the characters that have been read
unfoldable pub move_chars : (number_to_move n : ℕ) → Buffer → Buffer
move_chars number_to_move n b = record b {
  start = 0;
  ahead = take number_to_move b.ahead ++ take n b.unread;
  unread = drop n b.unread;
}

-- The end of yy_get_next_buffer, `n` being the number of characters that have been read. An array that
-- is made larger without its size being noted is not followed further.
unfoldable pub settle : (number_to_move n : ℕ) → Buffer → Run (Eob × Buffer)
unfolding move_chars yyrestart
settle number_to_move n b =
    if ltb b.yy_buf_size (n + number_to_move)
    then fault out_of_bounds
    else if n == 0 && number_to_move == 0
    then ok (eob_act_end_of_file, yyrestart b)
    else if n == 0
    then ok (
      eob_act_last_match,
      record (move_chars number_to_move n b) { yy_buffer_status = yy_buffer_eof_pending },
    )
    else ok (eob_act_continue_scan, move_chars number_to_move n b)

-- fread(buf, 1, max_size, yyin): the number of characters that it reads
module _ (fread : (max_size : ℕ) → Text → ℕ) where
  -- YY_INPUT, without errors of the file
  unfoldable pub yy_input : (interactive : Bool) → (max_size : ℕ) → Text → ℕ
  unfolding getc_line
  yy_input interactive max_size unread =
      if interactive then getc_line max_size unread else fread max_size unread

  -- the call of YY_INPUT
  unfoldable pub read_up_to : (num_to_read number_to_move : ℕ) → Buffer → Run (Eob × Buffer)
  unfolding yy_input settle
  read_up_to num_to_read number_to_move b =
      let num_to_read =
        if ltb yy_read_buf_size num_to_read then yy_read_buf_size else num_to_read in
      let n = yy_input b.yy_is_interactive num_to_read b.unread in
      settle number_to_move n (record b { yy_n_chars = n })

  -- the read of yy_get_next_buffer; two rounds of the loop are enough
  unfoldable pub read_more : (number_to_move : ℕ) → Buffer → Run (Eob × Buffer)
  unfolding grow read_up_to
  read_more number_to_move b = do
    size ← grow 2 b.yy_is_our_buffer (b.start + number_to_move + 1) number_to_move b.yy_buf_size
    read_up_to (size - number_to_move - 1) number_to_move (record b { yy_buf_size = size })

  -- `yy_c_buf_p` counts from yytext_ptr. `number_to_move` is an int: a count that does not fit wraps around to
  -- a negative one, with which the array is written in front of its start.
  unfoldable pub yy_get_next_buffer : (yy_c_buf_p : ℕ) → Buffer → Run (Eob × Buffer)
  unfolding read_more settle
  yy_get_next_buffer yy_c_buf_p b =
      if ltb (length b.ahead + 1) yy_c_buf_p
      then fault reported
      else if not b.yy_fill_buffer
      then ok (if yy_c_buf_p == 1 then eob_act_end_of_file else eob_act_last_match, b)
      else if not (ltb yy_c_buf_p int_limit)
      then fault out_of_bounds
      else elim b.yy_buffer_status [
        | yy_buffer_eof_pending ↦ settle (yy_c_buf_p - 1) 0 (record b { yy_n_chars = 0 })
        | yy_buffer_new ↦ read_more (yy_c_buf_p - 1) b
        | yy_buffer_normal ↦ read_more (yy_c_buf_p - 1) b
      ]
