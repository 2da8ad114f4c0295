-- ===== src/Parser/Tests.antt =====
-- The actions of Assig4/parser.y at small programs.
use c.SymbolTable.{plain, Symbol, float_ty, int_ty, TypeEnum}
use c.Parser.Types.{binop_type_lem, Operands, binop_type}
use c.Parser.Control.Compiles.{parse-Runs}
use c.Base.{
  ℕ, ◌≡◌, ◌-◌, refl, Bool, none, some, List, [], ◌∷◌, ◌++◌, Text, codes, replicate, arith, ◌==◌,
}
use c.Base.Int.{ℤ, pos}
use c.Base.Run.{reported, fault, ok, ◌>>=◌, Returns}
use c.CodeGen.Stack.{s_init, s_init-Holds, s_push, s_get, s_pop, Holds}
use c.Parser.Control.{
  LabelKind, else_part, exit_part, test_part, Code, instr, beqz, jump, at, Control, Cond, Stmt,
  simple, empty_stmt, if_stmt, while_stmt, parse,
}
use c.Parser.Control.Layout.{label, layout, numbers, depth, Printed, parse_lem}
use c.Parser.Control.Targets.{Once, parse-Once}
use c.Parser.Control.Exec.{Eval, eval_stop, eval_again, eval_simple, eval_then, exec_all, Runs}

abbrev counter : Cond
counter = record { code = []; place = codes "$8"; name = codes "x" }

abbrev dec : Text
dec = codes "\tsub $8, $8, 1"

-- while (x) if (x) x = x - 1;
abbrev count_down : Stmt
count_down = while_stmt counter (if_stmt counter (simple (dec ∷ [])) empty_stmt)

abbrev cells : List ℤ
cells = replicate 1000 (pos 0)

abbrev start : Control
start = record { label_no = 0; label_stack = s_init cells; out = [] }

start-Holds : Holds start.label_stack []
start-Holds = s_init-Holds cells refl

printed :
    (parse count_down start >>= λ st. ok st.out)
    ≡ ok (
        at (label test_part 1)
        ∷ beqz (codes "$8") (label exit_part 1) (some (codes "x"))
        ∷ beqz (codes "$8") (label else_part 2) none
        ∷ instr dec
        ∷ jump (label exit_part 2)
        ∷ at (label else_part 2)
        ∷ at (label exit_part 2)
        ∷ jump (label test_part 1)
        ∷ at (label exit_part 1)
        ∷ [])
unfolding parse s_init s_push s_get s_pop
printed = refl

parse_lem_example :
    Returns (Printed start [] (numbers count_down) (layout count_down 0)) (parse count_down start)
unfolding depth
parse_lem_example = parse_lem count_down start [] start-Holds (omega arith)

parse-Once_example :
    Returns
      (λ r.
        (code : List Code) × (r.out ≡ start.out ++ code)
        × ((kind : LabelKind) (k : ℕ) → Once kind k code))
      (parse count_down start)
unfolding depth
parse-Once_example = parse-Once count_down start [] start-Holds (omega arith)

-- $8 is the state
abbrev exec : Text → ℕ → ℕ
exec line s = s - 1

abbrev is_zero : Text → ℕ → Bool
is_zero place s = s == 0

two_rounds : Eval exec is_zero count_down 2 0
unfolding exec_all
two_rounds =
    eval_again refl (eval_then refl eval_simple)
      (eval_again refl (eval_then refl eval_simple) (eval_stop refl))

parse-Runs_example : Returns (λ r. Runs exec is_zero r.out r.out 2 [] 0) (parse count_down start)
unfolding depth
parse-Runs_example =
    parse-Runs exec is_zero count_down start [] start-Holds (omega arith) refl two_rounds

-- the sum of an int and a float is an int, the sum of a float and an int a float
sums : (binop_type int_ty float_ty ≡ ok int_ty) × (binop_type float_ty int_ty ≡ ok float_ty)
unfolding binop_type
sums = (refl, refl)

binop_type_lem_example :
    (Operands int_ty float_ty → binop_type int_ty float_ty ≡ ok int_ty)
    × ((Operands int_ty float_ty → ⊥) → binop_type int_ty float_ty ≡ fault reported)
binop_type_lem_example = binop_type_lem int_ty float_ty

abbrev variable : TypeEnum → Symbol
variable type = record {
  name = codes "x";
  scope = 0;
  type = type;
  kind = plain;
  n_param = 0;
  dim = 0;
  next = 0;
  type_ptr = 0;
  place = codes "____x";
}
