-- ===== src/Parser/Control/Layout.antt =====
-- The control statements of Assig4/parser.y against a translation that passes label numbers down and
-- needs no stack.
use mathlib.Core.List.{append-nil, append_assoc}
use c.Base.{
  ℕ, ◌+◌, ◌≤◌, ◌≡◌, refl, sym, ap, ◌∙◌, none, some, List, [], ◌∷◌, ◌++◌, map, arith, length,
  length-snoc, Text, ltb, if◌then◌else◌,
}
use c.Base.Int.{ℤ, pos}
use c.Base.Run
use c.Base.Run.{Run, ok, ◌>>=◌, Returns, returns}
use c.CodeGen.Stack.{stack_siz, Holds, s_push_lem, top_lem}
use c.Parser.Control.{
  LabelKind, else_part, exit_part, test_part, Label, Code, instr, beqz, jump, at, Control, emit,
  emit_all, push_label, if_test, if_label, if_end, while_head, while_test, while_label, Stmt,
  empty_stmt, simple, seq, block, if_stmt, while_stmt, nop, parse,
}

-- how many statements take a number, and how deep they are nested
unfoldable pub numbers : Stmt → ℕ
numbers empty_stmt = 0
numbers (simple lines) = 0
numbers (seq s t) = numbers s + numbers t
numbers (block s) = numbers s
numbers (if_stmt c s t) = 1 + numbers s + numbers t
numbers (while_stmt c s) = 1 + numbers s

abbrev pub max : ℕ → ℕ → ℕ
max a b = if ltb a b then b else a

unfoldable pub depth : Stmt → ℕ
depth empty_stmt = 0
depth (simple lines) = 0
depth (seq s t) = max (depth s) (depth t)
depth (block s) = depth s
depth (if_stmt c s t) = 1 + max (depth s) (depth t)
depth (while_stmt c s) = 1 + depth s

abbrev pub label : LabelKind → ℕ → Label
label kind n = record { kind = kind; number = pos n }

-- the code of a statement when the labels up to `n` are taken
unfoldable pub layout : Stmt → ℕ → List Code
unfolding numbers
layout empty_stmt n = []
layout (simple lines) n = map instr lines
layout (seq s t) n = layout s n ++ layout t (n + numbers s)
layout (block s) n = instr nop ∷ layout s n
layout (if_stmt c s t) n =
    map instr c.code
    ++ beqz c.place (label else_part (n + 1)) none
      ∷ (layout s (n + 1)
          ++ jump (label exit_part (n + 1))
            ∷ at (label else_part (n + 1))
            ∷ (layout t (n + 1 + numbers s) ++ at (label exit_part (n + 1)) ∷ []))
layout (while_stmt c s) n =
    at (label test_part (n + 1))
    ∷ (map instr c.code
        ++ beqz c.place (label exit_part (n + 1)) (some c.name)
          ∷ (layout s (n + 1)
              ++ jump (label test_part (n + 1)) ∷ at (label exit_part (n + 1)) ∷ []))

-- the state `r` after `code` has been printed, `k` numbers taken and the stack left as it was
pub record Printed (st : Control) (xs : List ℤ) (k : ℕ) (code : List Code) (r : Control)
    : Type 0 where
  pub stack : Holds r.label_stack xs
  pub label_no : r.label_no ≡ st.label_no + k
  pub out : r.out ≡ st.out ++ code

module _ (st : Control) (xs : List ℤ) where
  push_label_lem :
      Holds st.label_stack xs
      → length xs + 1 ≤ stack_siz
      → Returns (Printed st (xs ++ pos (st.label_no + 1) ∷ []) 1 []) (push_label st)
  unfolding push_label
  push_label_lem holds room =
      Run.bind (s_push_lem holds (pos (st.label_no + 1)) (omega arith))
        λ r h. returns (record { stack = h.1; label_no = refl; out = sym (append-nil st.out) })

  -- the last actions of both statements
  if_end_lem :
      (n : ℤ)
      → Holds st.label_stack (xs ++ n ∷ [])
      → Returns (Printed st xs 0 (at (record { kind = exit_part; number = n }) ∷ [])) (if_end st)
  unfolding if_end emit
  if_end_lem n holds =
      let (top, _, rest) = top_lem xs n holds in
      rw top (returns (record { stack = rest; label_no = omega arith; out = refl }))

  if_label_lem :
      (n : ℤ)
      → Holds st.label_stack (xs ++ n ∷ [])
      → Returns
          (Printed st (xs ++ n ∷ []) 0 (
            jump (record { kind = exit_part; number = n })
            ∷ at (record { kind = else_part; number = n })
            ∷ []))
          (if_label st)
  unfolding if_label emit
  if_label_lem n holds =
      let (top, _, rest) = top_lem xs n holds in
      rw top
        (returns (record { stack = holds; label_no = omega arith; out = append_assoc st.out _ _ }))

  while_label_lem :
      (n : ℤ)
      → Holds st.label_stack (xs ++ n ∷ [])
      → Returns
          (Printed st xs 0 (
            jump (record { kind = test_part; number = n })
            ∷ at (record { kind = exit_part; number = n })
            ∷ []))
          (while_label st)
  unfolding while_label emit
  while_label_lem n holds =
      let (top, _, rest) = top_lem xs n holds in
      rw top
        (returns (record { stack = rest; label_no = omega arith; out = append_assoc st.out _ _ }))

-- printing one piece of code after another
Printed-then :
    {st mid r : Control} {xs ys : List ℤ} {j k : ℕ} {code more : List Code}
    → Printed st xs j code mid
    → Printed mid ys k more r
    → Printed st ys (j + k) (code ++ more) r
Printed-then {st} {code} {more} a b = record {
  stack = b.stack;
  label_no = omega (arith, a.label_no, b.label_no);
  out = b.out ∙ ap (λ o. o ++ more) a.out ∙ append_assoc st.out code more;
}

Printed-cast :
    {st r : Control} {xs : List ℤ} {j k : ℕ} {code more : List Code}
    → j ≡ k
    → code ≡ more
    → Printed st xs j code r
    → Printed st xs k more r
Printed-cast {st} e f p = record {
  stack = p.stack;
  label_no = p.label_no ∙ ap (λ n. st.label_no + n) e;
  out = p.out ∙ ap (λ c. st.out ++ c) f;
}

-- a statement printed where the numbers up to `n` are taken
Printed-layout :
    (s : Stmt) {mid r : Control} {xs : List ℤ} (n : ℕ)
    → mid.label_no ≡ n
    → Printed mid xs (numbers s) (layout s mid.label_no) r
    → Printed mid xs (numbers s) (layout s n) r
Printed-layout s n e p = Printed-cast refl (ap (layout s) e) p

module _ (st : Control) (xs : List ℤ) (holds : Holds st.label_stack xs) where
  emit_all_lem : (lines : List Text) → Printed st xs 0 (map instr lines) (emit_all st lines)
  unfolding emit_all
  emit_all_lem lines = record { stack = holds; label_no = omega arith; out = refl }

  emit_lem : (line : Code) → Printed st xs 0 (line ∷ []) (emit st line)
  unfolding emit
  emit_lem line = record { stack = holds; label_no = omega arith; out = refl }

-- With room on the label stack for as many numbers as the statement's depth, the actions do not
-- fault. They print the code of the translation without a stack, take one number for each `if` and
-- `while`, and leave on the stack what was there before.
pub parse_lem :
    (s : Stmt) (st : Control) (xs : List ℤ)
    → Holds st.label_stack xs
    → length xs + depth s ≤ stack_siz
    → Returns (Printed st xs (numbers s) (layout s st.label_no)) (parse s st)
unfolding parse layout numbers depth if_test while_head while_test emit emit_all
parse_lem empty_stmt st xs holds room =
    returns (record { stack = holds; label_no = omega arith; out = sym (append-nil st.out) })
parse_lem (simple lines) st xs holds room = returns (emit_all_lem st xs holds lines)
parse_lem (seq s t) st xs holds room = Run.bind (parse_lem s st xs holds (ground arith)) λ mid p.
    Run.mono (parse_lem t mid xs p.stack (ground arith))
      λ r q. Printed-then p (Printed-layout t (st.label_no + numbers s) p.label_no q)
parse_lem (block s) st xs holds room =
    let p = emit_all_lem st xs holds (nop ∷ []) in
    Run.mono (parse_lem s (emit_all st (nop ∷ [])) xs holds room)
      λ r q. Printed-cast (omega arith) refl (Printed-then p q)
parse_lem (if_stmt c s t) st xs holds room =
    let n = st.label_no + 1 in
    let test = beqz c.place (label else_part n) none in
    let p₀ = emit_all_lem st xs holds c.code in
    let p₁ = emit_lem (emit_all st c.code) xs holds test in
    Run.bind (push_label_lem (emit (emit_all st c.code) test) xs holds (ground arith)) λ a p₂.
      Run.bind (parse_lem s a (xs ++ pos n ∷ []) p₂.stack (ground (arith, length-snoc xs (pos n))))
        λ b p₃. Run.bind (if_label_lem b xs (pos n) p₃.stack) λ d p₄.
          Run.bind
            (parse_lem t d (xs ++ pos n ∷ []) p₄.stack (ground (arith, length-snoc xs (pos n))))
            λ e p₅. Run.mono (if_end_lem e xs (pos n) p₅.stack) λ r p₆.
              let inner = Printed-layout s n p₂.label_no p₃ in
              let other =
                Printed-layout t (n + numbers s)
                  (omega (arith, p₂.label_no, p₃.label_no, p₄.label_no)) p₅ in
              Printed-cast (omega arith) refl (
                Printed-then p₀ (
                  Printed-then p₁ (
                    Printed-then p₂
                      (Printed-then inner (Printed-then p₄ (Printed-then other p₆))))))
parse_lem (while_stmt c s) st xs holds room =
    let n = st.label_no + 1 in
    let head = at (label test_part n) in
    let p₀ = emit_lem st xs holds head in
    Run.bind (push_label_lem (emit st head) xs holds (ground arith)) λ a p₁.
      let test = beqz c.place (label exit_part a.label_no) (some c.name) in
      let p₂ = emit_all_lem a (xs ++ pos n ∷ []) p₁.stack c.code in
      let p₃ = emit_lem (emit_all a c.code) (xs ++ pos n ∷ []) p₁.stack test in
      Run.bind
        (parse_lem s (while_test (emit_all a c.code) c) (xs ++ pos n ∷ []) p₁.stack
          (ground (arith, length-snoc xs (pos n))))
        λ b p₄. Run.mono (while_label_lem b xs (pos n) p₄.stack) λ r p₅.
          let inner = Printed-layout s n p₁.label_no p₄ in
          Printed-cast (omega arith) (rw p₁.label_no) (
            Printed-then p₀
              (Printed-then p₁ (Printed-then p₂ (Printed-then p₃ (Printed-then inner p₅)))))
