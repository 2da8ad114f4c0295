-- ===== src/Scanner/Tests.antt =====
-- The scanner of Assig1 at concrete inputs.
use c.Base.Decimal.{decimal}
use c.Base.{streq, ◌≤◌, ◌+◌, arith, ℕ, ◌≡◌, refl, [], ◌∷◌, ◌++◌, Text, codes, some}
use c.Scanner.Match.{IsToken, scan_token-IsToken}
use c.Scanner.Ends.{Finishes}
use c.Scanner.Finish.{Overruns, yylex-Finishes}
use c.Base.Run.{Returns, returns, ok}
use c.Scanner.{Last, scan_token, transition}
use c.Scanner.Actions.{Scan, main, yylex}
use c.Scanner.Longest.{rule, IsText}
use c.Scanner.Checks.{delta}
use c.Scanner.Tables.{yy_accept, yy_ec, yy_meta, yy_base, yy_def, yy_nxt, yy_chk}

-- the rules of some texts: 3 reserved words, 8 identifiers, 7 numbers, 6 integer constants, 5 strings, 2 operators
rules :
    (rule 1 (codes "while") ≡ 3)
    × (rule 1 (codes "whiles") ≡ 8)
    × (rule 1 (codes "12") ≡ 7)
    × (rule 1 (codes "digit") ≡ 6)
    × (rule 1 (codes "digits") ≡ 8)
    × (rule 1 (codes "dig") ≡ 8)
    × (rule 1 (codes ">=") ≡ 2)
    × (rule 1 (codes "/") ≡ 10)
unfolding rule delta transition yy_accept yy_ec yy_meta yy_base yy_def yy_nxt yy_chk
rules = (refl, refl, refl, refl, refl, refl, refl, refl)

abbrev newline : Text
newline = 10 ∷ []

main_small :
    main (λ cmp ids. ids) 20 (codes "int x; /*c*/ x=1")
    ≡ ok (
        codes "   "
        ++ newline
        ++ codes "number of tokens 7"
        ++ newline
        ++ codes "number of lines 0"
        ++ newline
        ++ codes "There are 1 comments:"
        ++ newline
        ++ codes "/*c*/"
        ++ newline
        ++ codes "x 2"
        ++ newline)
unfolding main streq decimal
main_small = refl

-- a newline behind a star in a comment is not counted
main_star :
    (main (λ cmp ids. ids) 20 (codes "/**" ++ newline ++ codes "*/")
      ≡ ok (
          newline
          ++ codes "number of tokens 1"
          ++ newline
          ++ codes "number of lines 0"
          ++ newline
          ++ codes "There are 1 comments:"
          ++ newline
          ++ codes "/**"
          ++ newline
          ++ codes "*/"
          ++ newline))
unfolding main streq decimal
main_star = refl

-- a keyword and the name that follows it
abbrev sample : Text
sample = codes "if x"

sample-IsText : IsText sample
sample-IsText = (
  (omega arith, omega arith),
  ((omega arith, omega arith), ((omega arith, omega arith), ((omega arith, omega arith), tt))),
)

abbrev no_last : Last
no_last = record { state = 0; cpos = 0 }

abbrev fresh : Scan
fresh = record {
  linenumber = 0;
  tokens = 0;
  comments = 0;
  symtab = [];
  comments_arr = [];
  output = [];
}

scan_token-sample : Returns (λ r. r.0 ≡ some (3, 2)) (scan_token sample no_last)
unfolding scan_token transition yy_accept yy_ec yy_meta yy_base yy_def yy_nxt yy_chk
scan_token-sample = returns refl

scan_token-IsToken_example :
    Returns
      (λ r. (token : ℕ × ℕ) × (r.0 ≡ some token) × IsToken sample token)
      (scan_token sample no_last)
scan_token-IsToken_example = scan_token-IsToken 105 (codes "f x") no_last sample-IsText

yylex-Finishes_example :
    Finishes
      (Overruns (λ cmp ids. ids) sample no_last fresh)
      (λ (r : Scan). r.tokens ≤ 0 + 4)
      (yylex (λ cmp ids. ids) 5 sample no_last fresh)
yylex-Finishes_example =
    yylex-Finishes (λ cmp ids. ids) 5 sample no_last fresh sample-IsText (omega arith)
