-- ===== src/Parser/Control.antt =====
-- if_stmt, while_stmt and block_stmt of Assig4/parser.y: the actions that number the labels, keep
-- them on the label stack and print jumps. A statement is its parse tree; the actions of everything
-- else in it are the lines that they print.
use c.Base.{ℕ, suc, ◌+◌, Option, none, some, List, [], ◌∷◌, ◌++◌, map, Text}
use c.Base.Int.{ℤ, pos}
use c.Base.Run.{Run, ok, ◌>>=◌}
use c.CodeGen.Stack.{IntStack, s_push, s_get, s_pop}
pub mod Layout
pub mod Targets
pub mod Exec
pub mod Compiles

-- `_Lelse`, `_Lexit` and `_Test`
pub data LabelKind : Type 0 where
  else_part exit_part test_part : LabelKind

pub record Label : Type 0 where
  pub kind : LabelKind
  pub number : ℤ

-- what is printed: a line of another action, a conditional and an unconditional jump, a label; the
-- comment of a conditional jump is the name of its symbol
pub data Code : Type 0 where
  instr : Text → Code
  beqz : Text → Label → Option Text → Code
  jump : Label → Code
  at : Label → Code

-- `label_no`, `label_stack` and the output
pub record Control : Type 0 where
  pub label_no : ℕ
  pub label_stack : IntStack
  pub out : List Code

unfoldable pub emit : Control → Code → Control
emit st line = record st { out = st.out ++ line ∷ [] }

-- an expression: the lines that its actions print, and the place and the name of its symbol
pub record Cond : Type 0 where
  pub code : List Text
  pub place : Text
  pub name : Text

unfoldable pub emit_all : Control → List Text → Control
emit_all st lines = record st { out = st.out ++ map instr lines }

-- `++label_no` and the push, whose result is not looked at
unfoldable pub push_label : Control → Run Control
push_label st = do
  (stack, _) ← s_push st.label_stack (pos (st.label_no + 1))
  ok (record st { label_no = st.label_no + 1; label_stack = stack })

-- the first action of if_stmt
unfoldable pub if_test : Control → Cond → Run Control
unfolding emit push_label
if_test st c =
    push_label
      (emit st (beqz c.place (record { kind = else_part; number = pos (st.label_no + 1) }) none))

-- the second action of if_stmt
unfoldable pub if_label : Control → Run Control
unfolding emit
if_label st = do
  exit ← s_get st.label_stack
  let st = emit st (jump (record { kind = exit_part; number = exit }))
  other ← s_get st.label_stack
  ok (emit st (at (record { kind = else_part; number = other })))

-- the last action of if_stmt
unfoldable pub if_end : Control → Run Control
unfolding emit
if_end st = do
  exit ← s_get st.label_stack
  let st = emit st (at (record { kind = exit_part; number = exit }))
  ok (record st { label_stack = (s_pop st.label_stack).0 })

-- the first action of while_stmt
unfoldable pub while_head : Control → Run Control
unfolding emit push_label
while_head st =
    push_label (emit st (at (record { kind = test_part; number = pos (st.label_no + 1) })))

-- the second action of while_stmt
unfoldable pub while_test : Control → Cond → Control
unfolding emit
while_test st c =
    emit st (beqz c.place (record { kind = exit_part; number = pos st.label_no }) (some c.name))

-- the last action of while_stmt
unfoldable pub while_label : Control → Run Control
unfolding emit
while_label st = do
  test ← s_get st.label_stack
  let st = emit st (jump (record { kind = test_part; number = test }))
  exit ← s_get st.label_stack
  let st = emit st (at (record { kind = exit_part; number = exit }))
  ok (record st { label_stack = (s_pop st.label_stack).0 })

-- `simple` is a statement with no labels of its own; `block` is braces around statements, whose
-- action prints `nop`; an `if` without `else` has an empty one
pub data Stmt : Type 0 where
  empty_stmt : Stmt
  simple : List Text → Stmt
  seq : Stmt → Stmt → Stmt
  block : Stmt → Stmt
  if_stmt : Cond → Stmt → Stmt → Stmt
  while_stmt : Cond → Stmt → Stmt

-- the line of block_stmt
abbrev pub nop : Text
nop = b'\t' ∷ b'n' ∷ b'o' ∷ b'p' ∷ []

-- the actions in the order in which the parser runs them
unfoldable pub parse : Stmt → Control → Run Control
unfolding emit_all if_test if_label if_end while_head while_test while_label
parse empty_stmt st = ok st
parse (simple lines) st = ok (emit_all st lines)
parse (seq s t) st = do st ← parse s st; parse t st
parse (block s) st = parse s (emit_all st (nop ∷ []))
parse (if_stmt c s t) st = do
  st ← if_test (emit_all st c.code) c
  st ← parse s st
  st ← if_label st
  st ← parse t st
  if_end st
parse (while_stmt c s) st = do
  st ← while_head st
  st ← parse s (while_test (emit_all st c.code) c)
  while_label st
