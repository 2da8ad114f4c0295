-- ===== src/Parser/Control/Exec.antt =====
-- What the code of the control statements of Assig4/parser.y does, against the meaning of `if` and
-- `while`. The state is a parameter, with what a line does to it and which places are zero in it.
use mathlib.Core.List.{append_assoc}
use c.Base.{
  Option, ℕ, ◌+◌, ◌≤◌, ◌≡◌, Bool, true, false, none, some, List, [], ◌∷◌, ◌++◌, map, arith, Text,
  ◌==◌, if◌then◌else◌,
}
use c.Parser.Control.{
  LabelKind, else_part, exit_part, test_part, Label, Code, instr, beqz, jump, at, Cond, nop, Stmt,
  empty_stmt, simple, seq, block, if_stmt, while_stmt,
}
use c.Parser.Control.Layout.{numbers, label, layout}
use c.Parser.Control.Targets.{is_label, defined, defined-append}

-- the code from the first place on where the label is printed
unfoldable pub find_label : LabelKind → ℕ → List Code → List Code
find_label kind k [] = []
find_label kind k (instr text ∷ code) = find_label kind k code
find_label kind k (beqz place l name ∷ code) = find_label kind k code
find_label kind k (jump l ∷ code) = find_label kind k code
find_label kind k (at l ∷ code) =
    if is_label kind k l == 1 then at l ∷ code else find_label kind k code

is_label-label : (kind : LabelKind) (k : ℕ) → is_label kind k (label kind k) ≡ 1
unfolding is_label
is_label-label else_part k = ground arith
is_label-label exit_part k = ground arith
is_label-label test_part k = ground arith

pub find_label_unique :
    (kind : LabelKind) (k : ℕ) (a b : List Code)
    → defined kind k (a ++ at (label kind k) ∷ b) ≤ 1
    → find_label kind k (a ++ at (label kind k) ∷ b) ≡ at (label kind k) ∷ b
unfolding find_label defined
find_label_unique kind k [] b h = rw (is_label-label kind k)
find_label_unique kind k (instr text ∷ a) b h = find_label_unique kind k a b h
find_label_unique kind k (beqz place l name ∷ a) b h = find_label_unique kind k a b h
find_label_unique kind k (jump l ∷ a) b h = find_label_unique kind k a b h
find_label_unique kind k (at l ∷ a) b h =
    let later = defined-append kind k a (at (label kind k) ∷ b) in
    let mine = is_label-label kind k in
    let not_here : (is_label kind k l == 1) ≡ false = ground (arith, later, mine, h) in
    rw not_here (find_label_unique kind k a b (omega arith))

unfoldable pub if_code : Cond → List Code → List Code → ℕ → List Code → List Code
if_code c a b n post =
    map instr c.code
    ++ beqz c.place (label else_part (n + 1)) none
      ∷ (a
          ++ jump (label exit_part (n + 1))
            ∷ at (label else_part (n + 1))
            ∷ (b ++ at (label exit_part (n + 1)) ∷ post))

unfoldable pub while_code : Cond → List Code → ℕ → List Code → List Code
while_code c a n post =
    at (label test_part (n + 1))
    ∷ (map instr c.code
        ++ beqz c.place (label exit_part (n + 1)) (some c.name)
          ∷ (a ++ jump (label test_part (n + 1)) ∷ at (label exit_part (n + 1)) ∷ post))

pub layout-if :
    (c : Cond) (a b : Stmt) (n : ℕ) (post : List Code)
    → layout (if_stmt c a b) n ++ post
      ≡ if_code c (layout a (n + 1)) (layout b (n + 1 + numbers a)) n post
unfolding layout if_code
layout-if c a b n post = simp append_assoc

pub layout-while :
    (c : Cond) (a : Stmt) (n : ℕ) (post : List Code)
    → layout (while_stmt c a) n ++ post ≡ while_code c (layout a (n + 1)) n post
unfolding layout while_code
layout-while c a n post = simp append_assoc

module _ {ℓ} {S : Type ℓ} (exec : Text → S → S) (is_zero : Text → S → Bool) where
  unfoldable pub exec_all : List Text → S → S
  exec_all [] s = s
  exec_all (line ∷ lines) s = exec_all lines (exec line s)

  -- the meaning of statements
  pub data Eval : Stmt → S → S → Type ℓ where
    eval_empty : {s : S} → Eval empty_stmt s s
    eval_simple : {lines : List Text} {s : S} → Eval (simple lines) s (exec_all lines s)
    eval_seq : {a b : Stmt} {s s' s'' : S} → Eval a s s' → Eval b s' s'' → Eval (seq a b) s s''
    eval_block : {a : Stmt} {s s' : S} → Eval a (exec nop s) s' → Eval (block a) s s'
    eval_then :
        {c : Cond} {a b : Stmt} {s s' : S}
        → is_zero c.place (exec_all c.code s) ≡ false
        → Eval a (exec_all c.code s) s'
        → Eval (if_stmt c a b) s s'
    eval_else :
        {c : Cond} {a b : Stmt} {s s' : S}
        → is_zero c.place (exec_all c.code s) ≡ true
        → Eval b (exec_all c.code s) s'
        → Eval (if_stmt c a b) s s'
    eval_stop :
        {c : Cond} {a : Stmt} {s : S}
        → is_zero c.place (exec_all c.code s) ≡ true
        → Eval (while_stmt c a) s (exec_all c.code s)
    eval_again :
        {c : Cond} {a : Stmt} {s s' s'' : S}
        → is_zero c.place (exec_all c.code s) ≡ false
        → Eval a (exec_all c.code s) s'
        → Eval (while_stmt c a) s' s''
        → Eval (while_stmt c a) s s''

  -- runs of a program: the code that is left, and the state
  pub data Runs (prog : List Code) : List Code → S → List Code → S → Type ℓ where
    done : {code : List Code} {s : S} → Runs prog code s code s
    run_instr :
        {text : Text} {code end : List Code} {s s' : S}
        → Runs prog code (exec text s) end s'
        → Runs prog (instr text ∷ code) s end s'
    run_at :
        {l : Label} {code end : List Code} {s s' : S}
        → Runs prog code s end s'
        → Runs prog (at l ∷ code) s end s'
    run_jump :
        {kind : LabelKind} {k : ℕ} {code end : List Code} {s s' : S}
        → Runs prog (find_label kind k prog) s end s'
        → Runs prog (jump (label kind k) ∷ code) s end s'
    run_taken :
        {place : Text} {kind : LabelKind} {k : ℕ} {name : Option Text} {code end : List Code}
        {s s' : S}
        → is_zero place s ≡ true
        → Runs prog (find_label kind k prog) s end s'
        → Runs prog (beqz place (label kind k) name ∷ code) s end s'
    run_past :
        {place : Text} {l : Label} {name : Option Text} {code end : List Code} {s s' : S}
        → is_zero place s ≡ false
        → Runs prog code s end s'
        → Runs prog (beqz place l name ∷ code) s end s'
