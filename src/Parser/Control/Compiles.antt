-- ===== src/Parser/Control/Compiles.antt =====
-- The code of the control statements of Assig4/parser.y, wherever it stands in a program that prints
-- no label twice.
use mathlib.Core.List.{append-nil, append_assoc}
use c.Base.{
  ℕ, ◌+◌, ◌≤◌, ◌≡◌, sym, ap, ◌∙◌, Bool, true, false, none, some, List, [], ◌∷◌, ◌++◌, map, Text,
  length,
}
use c.Base.Run
use c.Base.Int.{ℤ}
use c.Base.Run.{Run, Returns}
use c.CodeGen.Stack.{Holds, stack_siz}
use c.Parser.Control.{
  LabelKind, else_part, exit_part, test_part, Code, instr, beqz, jump, at, Cond, Control, nop, Stmt,
  seq, if_stmt, while_stmt, parse,
}
use c.Parser.Control.Layout.{numbers, depth, label, layout, parse_lem}
use c.Parser.Control.Targets.{defined, layout-Once}
use c.Parser.Control.Exec.{
  find_label, find_label_unique, if_code, while_code, layout-if, layout-while, exec_all, Eval,
  eval_empty, eval_simple, eval_seq, eval_block, eval_then, eval_else, eval_stop, eval_again, Runs,
  done, run_instr, run_at, run_jump, run_taken, run_past,
}

module _ {ℓ} {S : Type ℓ} (exec : Text → S → S) (is_zero : Text → S → Bool) where
  module _ (prog : List Code) where
    then-Runs :
        {a b e : List Code} {s s' s'' : S}
        → Runs exec is_zero prog a s b s'
        → Runs exec is_zero prog b s' e s''
        → Runs exec is_zero prog a s e s''
    then-Runs done q = q
    then-Runs (run_instr p) q = run_instr (then-Runs p q)
    then-Runs (run_at p) q = run_at (then-Runs p q)
    then-Runs (run_jump p) q = run_jump (then-Runs p q)
    then-Runs (run_taken z p) q = run_taken z (then-Runs p q)
    then-Runs (run_past z p) q = run_past z (then-Runs p q)

    run_lines :
        (lines : List Text) {rest : List Code} {s : S}
        → Runs exec is_zero prog (map instr lines ++ rest) s rest (exec_all exec is_zero lines s)
    unfolding exec_all
    run_lines [] = done
    run_lines (line ∷ lines) = run_instr (run_lines lines)

    -- wherever the code of the statement stands in the program, it leads from `s` to `s'`
    abbrev Does : Stmt → ℕ → S → S → Type ℓ
    Does a n s s' =
        (pre post : List Code)
        → prog ≡ pre ++ (layout a n ++ post)
        → Runs exec is_zero prog (layout a n ++ post) s post s'

    -- the state after the code of an expression
    abbrev tested : Cond → S → S
    tested c s = exec_all exec is_zero c.code s

    module _ (unique : (kind : LabelKind) (k : ℕ) → defined kind k prog ≤ 1) where
      Runs-to :
          (kind : LabelKind) (k : ℕ) (a b : List Code) {e : List Code} {s s' : S}
          → prog ≡ a ++ at (label kind k) ∷ b
          → Runs exec is_zero prog (at (label kind k) ∷ b) s e s'
          → Runs exec is_zero prog (find_label kind k prog) s e s'
      Runs-to kind k a b h p =
          rw (ap (find_label kind k) h ∙ find_label_unique kind k a b (rw h at (unique kind k))) p

      run_seq :
          (a b : Stmt) (n : ℕ) {s s' s'' : S}
          → Does a n s s'
          → Does b (n + numbers a) s' s''
          → Does (seq a b) n s s''
      unfolding layout
      run_seq a b n x y pre post h =
          let m = n + numbers a in
          rw (append_assoc (layout a n) (layout b m) post) (
            then-Runs (x pre (layout b m ++ post) (rw append_assoc at h))
              (y (pre ++ layout a n) post (rw append_assoc (rw append_assoc at h))))

      run_then :
          (c : Cond) (a b : Stmt) (n : ℕ) {s s' : S}
          → is_zero c.place (tested c s) ≡ false
          → Does a (n + 1) (tested c s) s'
          → Does (if_stmt c a b) n s s'
      unfolding if_code
      run_then c a b n z x pre post h =
          let k = n + 1 in
          let test = beqz c.place (label else_part k) none in
          let second = layout b (k + numbers a) in
          let back = jump (label exit_part k) ∷ at (label else_part k) ∷ [] in
          let h' = rw (layout-if c a b n post) at h in
          let own = pre ++ (map instr c.code ++ test ∷ []) in
          rw (layout-if c a b n post) (
            then-Runs (run_lines c.code) (
              run_past z (
                then-Runs
                  (x own (back ++ second ++ at (label exit_part k) ∷ post) (h' ∙ simp append_assoc))
                  (run_jump (
                    Runs-to exit_part k (own ++ layout a k ++ back ++ second) post
                      (h' ∙ simp append_assoc) (run_at done))))))

      run_else :
          (c : Cond) (a b : Stmt) (n : ℕ) {s s' : S}
          → is_zero c.place (tested c s) ≡ true
          → Does b (n + 1 + numbers a) (tested c s) s'
          → Does (if_stmt c a b) n s s'
      unfolding if_code
      run_else c a b n z x pre post h =
          let k = n + 1 in
          let test = beqz c.place (label else_part k) none in
          let h' = rw (layout-if c a b n post) at h in
          let own =
            pre ++ (map instr c.code ++ test ∷ layout a k ++ jump (label exit_part k) ∷ []) in
          let last = at (label exit_part k) ∷ post in
          rw (layout-if c a b n post) (
            then-Runs (run_lines c.code) (
              run_taken z (
                Runs-to else_part k own (layout b (k + numbers a) ++ last) (h' ∙ simp append_assoc)
                  (run_at (
                    then-Runs (x (own ++ at (label else_part k) ∷ []) last (h' ∙ simp append_assoc))
                      (run_at done))))))

      run_stop :
          (c : Cond) (a : Stmt) (n : ℕ) {s : S}
          → is_zero c.place (tested c s) ≡ true
          → Does (while_stmt c a) n s (tested c s)
      unfolding while_code
      run_stop c a n z pre post h =
          let k = n + 1 in
          let test = beqz c.place (label exit_part k) (some c.name) in
          let body = map instr c.code ++ test ∷ layout a k ++ jump (label test_part k) ∷ [] in
          let h' = rw (layout-while c a n post) at h in
          rw (layout-while c a n post) (
            run_at (
              then-Runs (run_lines c.code) (
                run_taken z (
                  Runs-to exit_part k (pre ++ at (label test_part k) ∷ body) post
                    (h' ∙ simp append_assoc) (run_at done)))))

      run_again :
          (c : Cond) (a : Stmt) (n : ℕ) {s s' s'' : S}
          → is_zero c.place (tested c s) ≡ false
          → Does a (n + 1) (tested c s) s'
          → Does (while_stmt c a) n s' s''
          → Does (while_stmt c a) n s s''
      unfolding while_code
      run_again c a n z x y pre post h =
          let k = n + 1 in
          let test = beqz c.place (label exit_part k) (some c.name) in
          let back = jump (label test_part k) ∷ at (label exit_part k) ∷ post in
          let e = layout-while c a n post in
          let h' = rw e at h in
          rw e (
            run_at (
              then-Runs (run_lines c.code) (
                run_past z (
                  then-Runs
                    (x (pre ++ at (label test_part k) ∷ (map instr c.code ++ test ∷ [])) back
                      (h' ∙ simp append_assoc))
                    (run_jump (
                      Runs-to test_part k pre (map instr c.code ++ test ∷ (layout a k ++ back)) h'
                        (rw e at (y pre post h))))))))

      exec_lem : {a : Stmt} (n : ℕ) {s s' : S} → Eval exec is_zero a s s' → Does a n s s'
      unfolding layout
      exec_lem n eval_empty pre post h = done
      exec_lem n (eval_simple {lines}) pre post h = run_lines lines
      exec_lem n (eval_seq {a} {b} x y) pre post h =
          run_seq a b n (exec_lem n x) (exec_lem (n + numbers a) y) pre post h
      exec_lem n (eval_block x) pre post h =
          run_instr (exec_lem n x (pre ++ instr nop ∷ []) post (rw append_assoc h))
      exec_lem n (eval_then {c} {a} {b} z x) pre post h =
          run_then c a b n z (exec_lem (n + 1) x) pre post h
      exec_lem n (eval_else {c} {a} {b} z x) pre post h =
          run_else c a b n z (exec_lem (n + 1 + numbers a) x) pre post h
      exec_lem n (eval_stop {c} {a} z) pre post h = run_stop c a n z pre post h
      exec_lem n (eval_again {c} {a} z x y) pre post h =
          run_again c a n z (exec_lem (n + 1) x) (exec_lem n y) pre post h

  -- The code that the actions print for a statement, starting with no output and with room on the
  -- label stack for the statement's depth, does what the statement means: if the statement leads
  -- from `s` to `s'`, running the printed code from `s` reaches its end in `s'`.
  pub parse-Runs :
      (a : Stmt) (st : Control) (xs : List ℤ) {s s' : S}
      → Holds st.label_stack xs
      → length xs + depth a ≤ stack_siz
      → st.out ≡ []
      → Eval exec is_zero a s s'
      → Returns (λ r. Runs exec is_zero r.out r.out s [] s') (parse a st)
  parse-Runs a st xs {s} {s'} holds room start e =
      Run.mono (parse_lem a st xs holds room) λ r printed.
        let code = layout a st.label_no in
        let same : r.out ≡ code = printed.out ∙ ap (λ o. o ++ code) start in
        let nil = append-nil code in
        rw same (
          rw nil at (
            exec_lem code (λ kind k. (layout-Once kind k a st.label_no).0) st.label_no e [] []
              (sym nil)))
