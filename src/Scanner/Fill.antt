-- ===== src/Scanner/Fill.antt =====
-- The read of yy_get_next_buffer of Assig1/lex.yy.c.
use c.Base.{
  ℕ, ◌+◌, ◌-◌, ◌<◌, ◌≤◌, ◌≡◌, refl, sym, ap, true, false, [], ltb, arith, inl, inr, Bool-cases,
  Text, length, length-append, if◌then◌else◌,
}
use c.Base.Run
use c.Base.Run.{Run, ok, fault, ◌>>=◌, Returns, returns}
use c.Scanner.Buffer.{
  Status, yy_buffer_new, yy_buffer_normal, yy_buffer_eof_pending, Buffer, grow, settle, yy_input,
  read_up_to, read_more, yy_get_next_buffer,
}
use c.Scanner.Fits.{Since, Fits, Held, Refilled, settle_lem}
use c.Scanner.Fread.{IsFread, yy_input-IsFread, grow_lem}

-- what a buffer is when more of the file is wanted
pub data IsRunning : Status → Type 0 where
  normal : IsRunning yy_buffer_normal
  at_eof : IsRunning yy_buffer_eof_pending

capped :
    (n : ℕ)
    → 0 < n
    → (0 < (if ltb 8192 n then 8192 else n)) × ((if ltb 8192 n then 8192 else n) ≤ n)
capped n pos = elim (Bool-cases (ltb 8192 n)) [
  | inl x ↦ rw x (omega arith, ground arith)
  | inr x ↦ rw x (pos, omega arith)
]

module _ (fread : ℕ → Text → ℕ) where
  read_up_to_lem :
      (whole : Text) (num_to_read : ℕ) (b : Buffer)
      → IsFread fread
      → Held whole b
      → (0 < length b.unread → b.yy_buffer_status ≡ yy_buffer_normal)
      → 0 < num_to_read
      → num_to_read + length b.ahead < b.yy_buf_size
      → Returns (Refilled whole b.ahead b.unread) (read_up_to fread num_to_read (length b.ahead) b)
  unfolding read_up_to
  read_up_to_lem whole num_to_read b is held running pos le =
      let cap = capped num_to_read pos in
      let input = yy_input-IsFread fread b.yy_is_interactive is in
      let most = input.at_most asked b.unread in
      settle_lem whole (yy_input fread b.yy_is_interactive asked b.unread)
        (record b { yy_n_chars = yy_input fread b.yy_is_interactive asked b.unread })
        (record { rest = held.rest; ours = held.ours; fill = held.fill; size = held.size })
        (λ some_read. running (omega (arith, input.from asked b.unread)))
        (omega (arith, most, le, cap.1)) (input.from asked b.unread)
        (input.gives asked b.unread cap.0)
    where
      asked : ℕ
      asked = if ltb 8192 num_to_read then 8192 else num_to_read

  read_more_round :
      (move : ℕ) (b : Buffer)
      → read_more fread move b ≡ (
          grow 2 b.yy_is_our_buffer (b.start + move + 1) move b.yy_buf_size >>= λ size.
          read_up_to fread (size - move - 1) move (record b { yy_buf_size = size }))
  unfolding read_more
  read_more_round move b = refl

  read_more_lem :
      (whole : Text) (b : Buffer)
      → IsFread fread
      → Fits whole b
      → (0 < length b.unread → b.yy_buffer_status ≡ yy_buffer_normal)
      → length whole < 2147483647
      → Returns (Refilled whole b.ahead b.unread) (read_more fread (length b.ahead) b)
  read_more_lem whole b is fits running small = rw (read_more_round (length b.ahead) b) (
      Run.bind
        (grow_lem b.yy_is_our_buffer b.start (length b.ahead) b.yy_buf_size fits.ours
          (omega (arith, fits.room))
          (omega (arith, small, ap length fits.rest, length-append b.ahead b.unread)) fits.size)
        λ size (more, bounded).
          read_up_to_lem whole (size - length b.ahead - 1) (record b { yy_buf_size = size }) is
            (record { rest = fits.rest; ours = fits.ours; fill = fits.fill; size = bounded })
            running (omega (arith, more)) (omega (arith, more)))

  yy_get_next_buffer_filled :
      (c : ℕ) (b : Buffer)
      → c ≡ length b.ahead + 1
      → b.yy_fill_buffer ≡ true
      → c < 2147483648
      → yy_get_next_buffer fread c b ≡ (elim b.yy_buffer_status [
        | yy_buffer_eof_pending ↦ settle (c - 1) 0 (record b { yy_n_chars = 0 })
        | yy_buffer_new ↦ read_more fread (c - 1) b
        | yy_buffer_normal ↦ read_more fread (c - 1) b
      ])
  unfolding yy_get_next_buffer
  yy_get_next_buffer_filled c b at_end fill lt = rw (yy_get_next_buffer, near, fill, narrow) refl
    where
      near : ltb (length b.ahead + 1) c ≡ false
      near = ground arith

      narrow : ltb c 2147483648 ≡ true
      narrow = ground arith

  -- Behind the last character of the buffer, for a text of less than 2 ^ 31 - 1 characters whose
  -- beginning is in the buffer, for an fread that gives what there is, and for a buffer that is not
  -- new unless nothing is unread, yy_get_next_buffer returns without a fault: it says that the file
  -- has ended only where nothing is in the buffer and unread, and that the last match is due, with
  -- the same characters in the buffer, only where nothing is unread; else one more character at
  -- least stands behind those that were there. Buffer and file still hold the text, and the buffer
  -- has room for its part of it.
  pub yy_get_next_buffer_lem :
      (whole : Text) (c : ℕ) (b : Buffer)
      → IsFread fread
      → Fits whole b
      → (0 < length b.unread → IsRunning b.yy_buffer_status)
      → length whole < 2147483647
      → c ≡ length b.ahead + 1
      → Returns (Refilled whole b.ahead b.unread) (yy_get_next_buffer fread c b)
  yy_get_next_buffer_lem whole c b is fits running small at_end =
      rw
        (yy_get_next_buffer_filled c b at_end fits.fill
          (omega (arith, at_end, small, ap length fits.rest, length-append b.ahead b.unread)))
        (by_status b.yy_buffer_status refl running)
    where
      moved : c - 1 ≡ length b.ahead
      moved = omega (arith, at_end)

      by_status :
          (status : Status)
          → b.yy_buffer_status ≡ status
          → (0 < length b.unread → IsRunning status)
          → Returns (Refilled whole b.ahead b.unread) (elim status [
            | yy_buffer_eof_pending ↦ settle (c - 1) 0 (record b { yy_n_chars = 0 })
            | yy_buffer_new ↦ read_more fread (c - 1) b
            | yy_buffer_normal ↦ read_more fread (c - 1) b
          ])
      by_status yy_buffer_normal eq ready =
          rw moved (read_more_lem whole b is fits (λ some_left. eq) small)
      by_status yy_buffer_new eq ready =
          rw moved
            (read_more_lem whole b is fits (λ some_left. absurd (not_new (ready some_left))) small)
        where
          not_new : IsRunning yy_buffer_new → ⊥
          not_new used = elim used [ ]
      by_status yy_buffer_eof_pending eq ready = rw moved (
          settle_lem whole 0 (record b { yy_n_chars = 0 })
            (record { rest = fits.rest; ours = fits.ours; fill = fits.fill; size = fits.size })
            (λ some_read. absurd (omega arith)) (omega (arith, fits.room)) (omega arith)
            λ z. nothing_left)
        where
          nothing_left : b.unread ≡ []
          nothing_left = rw (sym (ap (λ s. Since s b) eq)) fits.since
