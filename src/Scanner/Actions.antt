-- ===== src/Scanner/Actions.antt =====
-- The actions of Assig1/lexer.lex as they stand in Assig1/lex.yy.c, and the loop of yylex over a whole text.
use c.Base.{
  ◌&&◌, ℕ, zero, suc, ◌+◌, Bool, true, false, none, some, List, [], ◌∷◌, ◌++◌, ltb, ◌==◌, ◌||◌,
  if◌then◌else◌, length, take, drop, Text, codes,
}
use c.Base.Decimal.{decimal}
use c.Base.Run.{Run, ok, fault, out_of_bounds, out_of_fuel, reported, ◌>>=◌}
use c.IdTable.{
  IdInfo, init_ids, insert_id, id_info_cmp, insert_comment, max_comment_size, init_comments,
  print_comments, print_ids,
}
use c.Scanner.{Last, scan_token}
use Prim.Native.Nat.{Ordering}

-- the globals of the scanner, the two tables, and what is written to yyout
pub record Scan : Type 0 where
  pub linenumber : ℕ
  pub tokens : ℕ
  pub comments : ℕ
  pub symtab : List IdInfo
  pub comments_arr : List Text
  pub output : Text

-- EOF as a `char`, which is what the byte 255 is too
abbrev pub eof : ℕ
eof = 255

-- `this_comment[this_comment_idx++]=c`
unfoldable pub put_char : Text → ℕ → Run Text
put_char this_comment c =
    if ltb (length this_comment) max_comment_size
    then ok (this_comment ++ c ∷ [])
    else fault out_of_bounds

-- what the loop of the comment action leaves: the comment, the line number, whether the closing mark was
-- found, and the text that input() has not read
pub record Eaten : Type 0 where
  pub comment : Text
  pub linenumber : ℕ
  pub closed : Bool
  pub rest : Text

-- The loop behind the last character, where input() returns 0 in every round: yywrap is 1 and `return 0`
-- stands where the action expects EOF. A round more than this_comment has places is enough.
unfoldable pub eat_end : ℕ → Text → Run Eaten
unfolding put_char
eat_end zero this_comment = fault out_of_fuel
eat_end (suc rounds) this_comment = do
  this_comment ← put_char this_comment 0
  eat_end rounds this_comment

-- the for loop of the comment action; `star` says that it is in the second while loop
unfoldable pub eat_comment : (star : Bool) → Text → Text → ℕ → Run Eaten
unfolding put_char eat_end
eat_comment star [] this_comment lines = eat_end (suc max_comment_size) this_comment
eat_comment false (c ∷ text) this_comment lines = elim (c == 42) [
  | true ↦ do this_comment ← put_char this_comment c; eat_comment true text this_comment lines
  | false ↦ elim (c == eof) [
    | true ↦ ok (record { comment = this_comment; linenumber = lines; closed = false; rest = text })
    | false ↦ do
      this_comment ← put_char this_comment c
      eat_comment false text this_comment (if c == 10 then lines + 1 else lines)
  ]
]
eat_comment true (c ∷ text) this_comment lines = do
  this_comment ← put_char this_comment c
  elim (c == 42) [
    | true ↦ eat_comment true text this_comment lines
    | false ↦ elim (c == 47 || c == eof) [
      | true ↦
          ok (record { comment = this_comment; linenumber = lines; closed = c == 47; rest = text })
      | false ↦ eat_comment false text this_comment lines
    ]
  ]

-- the end of the comment action, behind its loop
unfoldable pub comment_done :
    (this_comment : Text) → (linenumber : ℕ) → (closed : Bool) → Scan → Run Scan
unfolding insert_comment
comment_done this_comment linenumber closed st = do
  comments_arr ← insert_comment st.comments_arr this_comment
  ok (record st {
    comments = st.comments + 1;
    tokens = st.tokens + 1;
    linenumber = linenumber;
    output = st.output ++ (if closed then [] else codes "Error: EOF in comment");
    comments_arr = comments_arr;
  })

-- the action of "/*"
unfoldable pub comment_action : Text → Scan → Run (Scan × Text)
unfolding eat_comment comment_done
comment_action text st = do
  e ← eat_comment false text (codes "/*") st.linenumber
  st ← comment_done e.comment e.linenumber e.closed st
  ok (st, e.rest)

module _ (qsort : (IdInfo → IdInfo → Ordering) → List IdInfo → List IdInfo) where
  -- the action of an identifier
  unfoldable pub id_action : Text → Text → Scan → Run (Scan × Text)
  unfolding insert_id id_info_cmp
  id_action yytext text st = do
    symtab ← insert_id st.symtab yytext
    ok (record st { tokens = st.tokens + 1; symtab = qsort id_info_cmp symtab }, text)

  -- the switch on yy_act: the state and the text that is left
  unfoldable pub do_action : ℕ → (yytext : Text) → Text → Scan → Run (Scan × Text)
  unfolding id_action comment_action
  do_action yy_act yytext text st =
      if yy_act == 1
      then ok (record st { linenumber = st.linenumber + 1 }, text)
      else if yy_act == 8
      then id_action yytext text st
      else if yy_act == 9
      then comment_action text st
      else if yy_act == 10
      then ok (record st { output = st.output ++ yytext }, text)
      else if ltb 1 yy_act && ltb yy_act 8
      then ok (record st { tokens = st.tokens + 1 }, text)
      else fault reported

  -- the while loop of yylex on the text that is left; the rounds are the fuel
  unfoldable pub yylex : ℕ → Text → Last → Scan → Run Scan
  unfolding scan_token do_action
  yylex zero text last st = fault out_of_fuel
  yylex (suc fuel) text last st = do
    (found, last) ← scan_token text last
    elim found [
      | none ↦ ok st
      | some (yy_act, yyleng) ↦ do
        (st, text) ← do_action yy_act (take yyleng text) (drop yyleng text) st
        yylex fuel text last st
    ]

  -- what main writes for an input; the tables that it empties at the end are not read again
  unfoldable pub main : ℕ → Text → Run Text
  unfolding yylex print_comments print_ids init_ids init_comments
  main fuel input = do
    st ←
        yylex fuel input (record { state = 0; cpos = 0 })
          (record {
            linenumber = 0;
            tokens = 0;
            comments = 0;
            symtab = init_ids;
            comments_arr = init_comments;
            output = [];
          })
    ok (
        st.output
        ++ lines (
            (codes ""
              ∷ (codes "number of tokens " ++ decimal st.tokens)
              ∷ (codes "number of lines " ++ decimal st.linenumber)
              ∷ (codes "There are " ++ decimal st.comments ++ codes " comments:")
              ∷ [])
            ++ print_comments st.comments_arr
            ++ print_ids st.symtab))
    where
      lines : List Text → Text
      lines [] = []
      lines (line ∷ rest) = (line ++ 10 ∷ []) ++ lines rest
