-- ===== src/Scanner.antt =====
-- The scanner of Assig1 as flex generated it (Assig1/lex.yy.c).
pub mod Tables
pub mod Checks
pub mod Longest
pub mod Loop
pub mod Match
pub mod Buffer
pub mod OnBuffer
pub mod Fread
pub mod Fits
pub mod Fill
pub mod Refill
pub mod Buffered
pub mod Same
pub mod Input
pub mod Actions
pub mod Ends
pub mod TooSmall
pub mod Finish
pub mod OnFile
pub mod Comment
pub mod Whole
mod Tests
mod BufferTests
use c.Base.{
  Option, none, some, Text, length, [], ◌∷◌, ◌++◌, ◌-◌, ℕ, zero, suc, ◌+◌, Bool, true, false, List,
  get_or, ◌==◌, leb, if◌then◌else◌,
}
use c.Base.Run.{Run, ok, fault, out_of_fuel, out_of_bounds, ◌>>=◌}
use c.Scanner.Tables.{yy_accept, yy_ec, yy_meta, yy_base, yy_def, yy_nxt, yy_chk}

-- a table of C read at an index
abbrev pub at : List ℕ → ℕ → ℕ
at table i = get_or table i 0

-- The while loop over yy_def and the read of yy_nxt that follows it; the rounds are the fuel.
unfoldable pub transition : ℕ → (yy_current_state : ℕ) → (yy_c : ℕ) → Run ℕ
unfolding yy_chk yy_base yy_def yy_meta yy_nxt
transition zero state yy_c = fault out_of_fuel
transition (suc fuel) state yy_c = elim (at yy_chk (at yy_base state + yy_c) == state) [
  | true ↦ ok (at yy_nxt (at yy_base state + yy_c))
  | false ↦
      let next = at yy_def state in
      transition fuel next (if leb 79 next then at yy_meta yy_c else yy_c)
]

-- `yy_last_accepting_state` and `yy_last_accepting_cpos`; positions count from `yytext`
pub record Last : Type 0 where
  pub state : ℕ
  pub cpos : ℕ

-- the test of yy_accept in the loops
unfoldable pub note : ℕ → ℕ → Last → Last
unfolding yy_accept
note state cp last = if at yy_accept state == 0 then last else record { state = state; cpos = cp }

-- the state, yy_cp and the last accepting state after the loop at yy_match; the list is the buffer from yy_cp on
unfoldable pub yy_match : Text → ℕ → ℕ → Last → Run (ℕ × ℕ × Last)
unfolding yy_ec yy_base transition note
yy_match [] state cp last = fault out_of_bounds
yy_match (c ∷ buffer) state cp last = do
  next ← transition 3 state (at yy_ec c)
  elim (at yy_base next == 127) [
    | true ↦ ok (next, cp + 1, note state cp last)
    | false ↦ yy_match buffer next (cp + 1) (note state cp last)
  ]

-- yy_act and yy_cp
unfoldable pub yy_find_action : ℕ → ℕ → Last → ℕ × ℕ
unfolding yy_accept
yy_find_action state cp last =
    if at yy_accept state == 0
    then (at yy_accept last.state, last.cpos)
    else (at yy_accept state, cp)

-- the class of a character of the text, where a NUL is not the end of the buffer
abbrev pub class_of : ℕ → ℕ
class_of c = if c == 0 then 1 else at yy_ec c

-- the list is the text from yytext to yy_c_buf_p
unfoldable pub yy_get_previous_state : Text → ℕ → ℕ → Last → Run (ℕ × Last)
unfolding yy_ec transition note
yy_get_previous_state [] state cp last = ok (state, last)
yy_get_previous_state (c ∷ text) state cp last = do
  next ← transition 3 state (class_of c)
  yy_get_previous_state text next (cp + 1) (note state cp last)

-- YY_END_OF_BUFFER, the action of the state behind the last character
abbrev pub yy_end_of_buffer : ℕ
yy_end_of_buffer = 11

-- What the scanner finds at the start of the text that is left: the action and the length of yytext, or
-- none for the end of the file. The buffer holds the whole text, closed by two YY_END_OF_BUFFER_CHAR, so
-- that yy_get_next_buffer reads no more: it answers EOB_ACT_END_OF_FILE when nothing is left, and
-- EOB_ACT_LAST_MATCH otherwise.
unfoldable pub scan_token : Text → Last → Run (Option (ℕ × ℕ) × Last)
unfolding yy_match yy_find_action yy_get_previous_state
scan_token text last = do
  (state, cp, last) ← yy_match (text ++ 0 ∷ 0 ∷ []) 1 0 last
  elim ((yy_find_action state cp last).0 == yy_end_of_buffer) [
    | false ↦ ok (some (yy_find_action state cp last), last)
    | true ↦ elim ((yy_find_action state cp last).1 - 1 == 0) [
      | true ↦ ok (none, last)
      | false ↦ do
        (state, last) ← yy_get_previous_state text 1 0 last
        ok (some (yy_find_action state (length text) last), last)
    ]
  ]
