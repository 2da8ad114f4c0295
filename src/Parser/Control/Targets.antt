-- ===== src/Parser/Control/Targets.antt =====
-- The labels that the control statements of Assig4/parser.y print: every jump has one target.
use c.CodeGen.Stack.{stack_siz, Holds}
use c.Base.Run.{Returns}
use c.Base.{
  length, Bool-cases, ℕ, ◌+◌, ◌≤◌, ◌<◌, ◌≡◌, ◌⊎◌, inl, inr, refl, ◌∙◌, Bool, true, false, ◌&&◌,
  none, some, List, [], ◌∷◌, ◌++◌, map, arith, Text, ◌==◌, if◌then◌else◌,
}
use c.Base.Run
use c.Base.Int.{ℤ, pos, negsuc}
use c.Parser.Control.{
  Control, parse, Cond, LabelKind, else_part, exit_part, test_part, Label, Code, instr, beqz, jump,
  at, Stmt, empty_stmt, simple, seq, block, if_stmt, while_stmt,
}
use c.Parser.Control.Layout.{parse_lem, depth, label, numbers, layout}

abbrev pub same_kind : LabelKind → LabelKind → Bool
same_kind else_part else_part = true
same_kind exit_part exit_part = true
same_kind test_part test_part = true
same_kind _ _ = false

abbrev pub is_number : ℕ → ℤ → Bool
is_number k (pos n) = n == k
is_number k (negsuc n) = false

-- 1 if the label is `kind` with the number `k`
unfoldable pub is_label : LabelKind → ℕ → Label → ℕ
is_label kind k l = if same_kind kind l.kind && is_number k l.number then 1 else 0

-- how often the label is printed
unfoldable pub defined : LabelKind → ℕ → List Code → ℕ
unfolding is_label
defined kind k [] = 0
defined kind k (instr text ∷ code) = defined kind k code
defined kind k (beqz place l name ∷ code) = defined kind k code
defined kind k (jump l ∷ code) = defined kind k code
defined kind k (at l ∷ code) = is_label kind k l + defined kind k code

-- how many jumps have it as their target
unfoldable pub used : LabelKind → ℕ → List Code → ℕ
unfolding is_label
used kind k [] = 0
used kind k (instr text ∷ code) = used kind k code
used kind k (beqz place l name ∷ code) = is_label kind k l + used kind k code
used kind k (jump l ∷ code) = is_label kind k l + used kind k code
used kind k (at l ∷ code) = used kind k code

-- of the labels that one statement prints, no two are the same
exclusive :
    (kind : LabelKind) (k n : ℕ)
    → (is_label kind k (label else_part n) + is_label kind k (label exit_part n) ≤ 1)
      × (is_label kind k (label test_part n) + is_label kind k (label exit_part n) ≤ 1)
unfolding is_label
exclusive else_part k n = (ground arith, ground arith)
exclusive exit_part k n = (ground arith, ground arith)
exclusive test_part k n = (ground arith, ground arith)

le_or_lt : (a b : ℕ) → (a ≤ b) ⊎ (b < a)
le_or_lt a b = ground arith

-- printed at most once, and once if used
abbrev OnceOf : ℕ → ℕ → Type 0
OnceOf d u = (d ≤ 1) × (1 ≤ u → d ≡ 1)

module _ (kind : LabelKind) (k : ℕ) where
  pub defined-append :
      (a b : List Code) → defined kind k (a ++ b) ≡ defined kind k a + defined kind k b
  unfolding defined
  defined-append [] b = omega arith
  defined-append (instr text ∷ a) b = defined-append a b
  defined-append (beqz place l name ∷ a) b = defined-append a b
  defined-append (jump l ∷ a) b = defined-append a b
  defined-append (at l ∷ a) b = omega (arith, defined-append a b)

  used-append : (a b : List Code) → used kind k (a ++ b) ≡ used kind k a + used kind k b
  unfolding used
  used-append [] b = omega arith
  used-append (instr text ∷ a) b = used-append a b
  used-append (beqz place l name ∷ a) b = omega (arith, used-append a b)
  used-append (jump l ∷ a) b = omega (arith, used-append a b)
  used-append (at l ∷ a) b = used-append a b

  defined-instr : (lines : List Text) → defined kind k (map instr lines) ≡ 0
  unfolding defined
  defined-instr [] = refl
  defined-instr (l ∷ lines) = defined-instr lines

  used-instr : (lines : List Text) → used kind k (map instr lines) ≡ 0
  unfolding used
  used-instr [] = refl
  used-instr (l ∷ lines) = used-instr lines

  -- whether the number `n` is the one that is counted, as a number
  abbrev mine : LabelKind → ℕ → ℕ
  mine kind' n = is_label kind k (label kind' n)

  defined-if :
      (c : Cond) (s t : Stmt) (n : ℕ)
      → defined kind k (layout (if_stmt c s t) n)
        ≡ defined kind k (layout s (n + 1))
          + (mine else_part (n + 1)
              + (defined kind k (layout t (n + 1 + numbers s)) + mine exit_part (n + 1)))
  unfolding defined layout
  defined-if c s t n =
      let tail = layout t (n + 1 + numbers s) ++ at (label exit_part (n + 1)) ∷ [] in
      let rest = jump (label exit_part (n + 1)) ∷ at (label else_part (n + 1)) ∷ tail in
      let test = beqz c.place (label else_part (n + 1)) none ∷ (layout s (n + 1) ++ rest) in
      omega (
        arith,
        defined-append (map instr c.code) test,
        defined-instr c.code,
        defined-append (layout s (n + 1)) rest,
        defined-append (layout t (n + 1 + numbers s)) (at (label exit_part (n + 1)) ∷ []),
      )

  used-if :
      (c : Cond) (s t : Stmt) (n : ℕ)
      → used kind k (layout (if_stmt c s t) n)
        ≡ mine else_part (n + 1)
          + (used kind k (layout s (n + 1))
              + (mine exit_part (n + 1) + used kind k (layout t (n + 1 + numbers s))))
  unfolding used layout
  used-if c s t n =
      let tail = layout t (n + 1 + numbers s) ++ at (label exit_part (n + 1)) ∷ [] in
      let rest = jump (label exit_part (n + 1)) ∷ at (label else_part (n + 1)) ∷ tail in
      let test = beqz c.place (label else_part (n + 1)) none ∷ (layout s (n + 1) ++ rest) in
      omega (
        arith,
        used-append (map instr c.code) test,
        used-instr c.code,
        used-append (layout s (n + 1)) rest,
        used-append (layout t (n + 1 + numbers s)) (at (label exit_part (n + 1)) ∷ []),
      )

  defined-while :
      (c : Cond) (s : Stmt) (n : ℕ)
      → defined kind k (layout (while_stmt c s) n)
        ≡ mine test_part (n + 1) + (defined kind k (layout s (n + 1)) + mine exit_part (n + 1))
  unfolding defined layout
  defined-while c s n =
      let rest = jump (label test_part (n + 1)) ∷ at (label exit_part (n + 1)) ∷ [] in
      let test =
        beqz c.place (label exit_part (n + 1)) (some c.name) ∷ (layout s (n + 1) ++ rest) in
      omega (
        arith,
        defined-append (map instr c.code) test,
        defined-instr c.code,
        defined-append (layout s (n + 1)) rest,
      )

  used-while :
      (c : Cond) (s : Stmt) (n : ℕ)
      → used kind k (layout (while_stmt c s) n)
        ≡ mine exit_part (n + 1) + (used kind k (layout s (n + 1)) + mine test_part (n + 1))
  unfolding used layout
  used-while c s n =
      let rest = jump (label test_part (n + 1)) ∷ at (label exit_part (n + 1)) ∷ [] in
      let test =
        beqz c.place (label exit_part (n + 1)) (some c.name) ∷ (layout s (n + 1) ++ rest) in
      omega (
        arith,
        used-append (map instr c.code) test,
        used-instr c.code,
        used-append (layout s (n + 1)) rest,
      )

  -- the numbers of a statement are those after `n`
  abbrev Outside : Stmt → ℕ → Type 0
  Outside s n = (k ≤ n) ⊎ (n + numbers s < k)

  other : (kind' : LabelKind) (n : ℕ) → (k < n) ⊎ (n < k) → mine kind' n ≡ 0
  unfolding is_label
  other kind' n h = let far : (n == k) ≡ false = ground arith in rw far (ground arith)

  outside :
      (s : Stmt) (n : ℕ)
      → Outside s n
      → (defined kind k (layout s n) ≡ 0) × (used kind k (layout s n) ≡ 0)
  unfolding layout numbers defined used
  outside empty_stmt n o = (refl, refl)
  outside (simple lines) n o = (defined-instr lines, used-instr lines)
  outside (seq s t) n o =
      let a = outside s n (ground arith) in
      let b = outside t (n + numbers s) (ground arith) in
      (
        defined-append (layout s n) (layout t (n + numbers s)) ∙ omega (arith, a.0, b.0),
        used-append (layout s n) (layout t (n + numbers s)) ∙ omega (arith, a.1, b.1),
      )
  outside (block s) n o = outside s n o
  outside (if_stmt c s t) n o =
      let a = outside s (n + 1) (ground arith) in
      let b = outside t (n + 1 + numbers s) (ground arith) in
      let x = other else_part (n + 1) (ground arith) in
      let y = other exit_part (n + 1) (ground arith) in
      (
        defined-if c s t n ∙ omega (arith, a.0, b.0, x, y),
        used-if c s t n ∙ omega (arith, a.1, b.1, x, y),
      )
  outside (while_stmt c s) n o =
      let a = outside s (n + 1) (ground arith) in
      let x = other test_part (n + 1) (ground arith) in
      let y = other exit_part (n + 1) (ground arith) in
      (defined-while c s n ∙ omega (arith, a.0, x, y), used-while c s n ∙ omega (arith, a.1, x, y))

  -- a label is printed once if it is used, and never twice
  abbrev pub Once : List Code → Type 0
  Once code = OnceOf (defined kind k code) (used kind k code)

  Once-of :
      (code : List Code) {d u : ℕ}
      → defined kind k code ≡ d
      → used kind k code ≡ u
      → OnceOf d u
      → Once code
  Once-of code e f o = rw (e, f) o

  -- two parts that are numbered apart
  apart :
      (s t : Stmt) (m n : ℕ)
      → m + numbers s ≤ n
      → Once (layout s m)
      → Once (layout t n)
      → OnceOf
          (defined kind k (layout s m) + defined kind k (layout t n))
          (used kind k (layout s m) + used kind k (layout t n))
  apart s t m n h a b = elim (le_or_lt k n) [
    | inl le ↦
        let z = outside t n (inl le) in
        rw (z.0, z.1) (omega (arith, a.0), λ u. omega (arith, a.1 (omega arith)))
    | inr lt ↦
        let z = outside s m (inr (omega arith)) in
        rw (z.0, z.1) (omega (arith, b.0), λ u. omega (arith, b.1 (omega arith)))
  ]

  -- Every label is printed at most once in the code of a statement, and a label that is the target
  -- of a jump in it is printed there exactly once.
  pub layout-Once : (s : Stmt) (n : ℕ) → Once (layout s n)
  unfolding layout numbers defined used
  layout-Once empty_stmt n = (omega arith, λ h. absurd (omega arith))
  layout-Once (simple lines) n =
      (omega (arith, defined-instr lines), λ h. absurd (omega (arith, used-instr lines)))
  layout-Once (seq s t) n =
      Once-of (layout s n ++ layout t (n + numbers s))
        (defined-append (layout s n) (layout t (n + numbers s)))
        (used-append (layout s n) (layout t (n + numbers s)))
        (apart s t n (n + numbers s) (omega arith) (layout-Once s n)
          (layout-Once t (n + numbers s)))
  layout-Once (block s) n = layout-Once s n
  layout-Once (if_stmt c s t) n =
      let both =
        apart s t (n + 1) (n + 1 + numbers s) (omega arith) (layout-Once s (n + 1))
          (layout-Once t (n + 1 + numbers s)) in
      Once-of (layout (if_stmt c s t) n) (defined-if c s t n) (used-if c s t n)
        (elim (Bool-cases (n + 1 == k)) [
          | inl here ↦
              let a = outside s (n + 1) (inl (ground arith)) in
              let b = outside t (n + 1 + numbers s) (inl (ground arith)) in
              let x = exclusive kind k (n + 1) in
              (omega (arith, a.0, b.0, x.0), λ u. omega (arith, a.0, a.1, b.0, b.1, x.0))
          | inr there ↦
              let e = other else_part (n + 1) (ground arith) in
              let x = other exit_part (n + 1) (ground arith) in
              (omega (arith, e, x, both.0), λ u. omega (arith, e, x, both.1 (omega (arith, e, x))))
        ])
  layout-Once (while_stmt c s) n =
      let part = layout-Once s (n + 1) in
      Once-of (layout (while_stmt c s) n) (defined-while c s n) (used-while c s n)
        (elim (Bool-cases (n + 1 == k)) [
          | inl here ↦
              let a = outside s (n + 1) (inl (ground arith)) in
              let x = exclusive kind k (n + 1) in
              (omega (arith, a.0, x.1), λ u. omega (arith, a.0, a.1, x.1))
          | inr there ↦
              let e = other test_part (n + 1) (ground arith) in
              let x = other exit_part (n + 1) (ground arith) in
              (omega (arith, e, x, part.0), λ u. omega (arith, e, x, part.1 (omega (arith, e, x))))
        ])

-- With room on the label stack for the statement's depth, the actions print code in which every
-- label stands at most once, and in which every label that is the target of a jump stands once.
pub parse-Once :
    (s : Stmt) (st : Control) (xs : List ℤ)
    → Holds st.label_stack xs
    → length xs + depth s ≤ stack_siz
    → Returns
        (λ r.
          (code : List Code) × (r.out ≡ st.out ++ code)
          × ((kind : LabelKind) (k : ℕ) → Once kind k code))
        (parse s st)
parse-Once s st xs holds room =
    Run.mono (parse_lem s st xs holds room)
      λ r printed. (layout s st.label_no, printed.out, λ kind k. layout-Once kind k s st.label_no)
