-- ===== src/Scanner/OnFile.antt =====
-- yylex of Assig1/lex.yy.c on a file that is read through the buffer: its actions, with the comment's calls
-- of input(), and its loop.
use c.Base.{
  ℕ, zero, suc, ◌+◌, Bool, true, false, none, some, List, [], ◌==◌, ◌||◌, if◌then◌else◌, Text, take,
  codes,
}
use c.Base.Run.{Run, ok, fault, out_of_fuel, ◌>>=◌}
use c.IdTable.{IdInfo}
use c.Scanner.{Last}
use c.Scanner.Buffer.{Buffer}
use c.Scanner.OnBuffer.{consume, scan_from, input}
use c.Scanner.Actions.{Scan, eof, put_char, comment_done, do_action}
use Prim.Native.Nat.{Ordering}

-- what the loop of the comment action leaves: the comment, the line number, whether the closing mark was
-- found, and the buffer behind the last character that was read
pub record EatenHere : Type 0 where
  pub comment : Text
  pub linenumber : ℕ
  pub closed : Bool
  pub buffer : Buffer

module _ (fread : (max_size : ℕ) → Text → ℕ) where
  -- The for loop of the comment action; `star` says that it is in the second while loop, `place` is
  -- yy_c_buf_p counted from yytext_ptr, and the rounds are the fuel.
  unfoldable pub eat_here :
      ℕ → (star : Bool) → (place : ℕ) → Buffer → (this_comment : Text) → ℕ → Run EatenHere
  unfolding input put_char
  eat_here zero star place b this_comment lines = fault out_of_fuel
  eat_here (suc rounds) false place b this_comment lines = do
    (c, place, b) ← input fread place b
    elim (c == 42) [
      | true ↦ do
        this_comment ← put_char this_comment c
        eat_here rounds true place b this_comment lines
      | false ↦ elim (c == eof) [
        | true ↦ ok (record {
          comment = this_comment;
          linenumber = lines;
          closed = false;
          buffer = consume place b;
        })
        | false ↦ do
          this_comment ← put_char this_comment c
          eat_here rounds false place b this_comment (if c == 10 then lines + 1 else lines)
      ]
    ]
  eat_here (suc rounds) true place b this_comment lines = do
    (c, place, b) ← input fread place b
    this_comment ← put_char this_comment c
    elim (c == 42) [
      | true ↦ eat_here rounds true place b this_comment lines
      | false ↦ elim (c == 47 || c == eof) [
        | true ↦ ok (record {
          comment = this_comment;
          linenumber = lines;
          closed = c == 47;
          buffer = consume place b;
        })
        | false ↦ eat_here rounds false place b this_comment lines
      ]
    ]

  -- the action of "/*"
  unfoldable pub comment_here : ℕ → (yyleng : ℕ) → Buffer → Scan → Run (Scan × Buffer)
  unfolding eat_here comment_done
  comment_here rounds yyleng b st = do
    e ← eat_here rounds false yyleng b (codes "/*") st.linenumber
    st ← comment_done e.comment e.linenumber e.closed st
    ok (st, e.buffer)

  module _ (qsort : (IdInfo → IdInfo → Ordering) → List IdInfo → List IdInfo) where
    -- the switch on yy_act: only the comment reads more
    unfoldable pub do_action_here : ℕ → (yy_act yyleng : ℕ) → Buffer → Scan → Run (Scan × Buffer)
    unfolding comment_here do_action
    do_action_here rounds yy_act yyleng b st = elim (yy_act == 9) [
      | true ↦ comment_here rounds yyleng b st
      | false ↦ do
        (st, rest) ← do_action qsort yy_act (take yyleng b.ahead) [] st
        ok (st, consume yyleng b)
    ]

    -- The while loop of yylex. The rounds bound the tokens, the refills for one of them, and the characters of
    -- a comment, of which 101 more may come from behind the end of the file.
    unfoldable pub yylex_here : ℕ → Buffer → Last → Scan → Run Scan
    unfolding scan_from do_action_here
    yylex_here zero b last st = fault out_of_fuel
    yylex_here (suc fuel) b last st = do
      (found, last, b) ← scan_from fread (suc fuel) b 1 0 last
      elim found [
        | none ↦ ok st
        | some (yy_act, yyleng) ↦ do
          (st, b) ← do_action_here (suc fuel + 101) yy_act yyleng b st
          yylex_here fuel b last st
      ]
