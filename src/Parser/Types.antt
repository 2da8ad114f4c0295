-- ===== src/Parser/Types.antt =====
-- The type checks in the actions of Assig4/parser.y: match_type, `expr binop expr` and assign_expr.
-- yyerror prints a message and ends the program.
use c.Base.{
  ◌⊎◌, false-ne-true, ℕ, ◌≡◌, ◌≢◌, refl, sym, ap, ◌∙◌, inl, inr, Bool, true, false, ◌&&◌, ◌||◌, not,
  ◌==◌, ==_iff, if◌then◌else◌, arith, Bool-cases,
}
use c.Base.Run.{Run, ok, fault, reported}
use c.SymbolTable.{
  TypeEnum, void_ty, int_ty, float_ty, typedef_ty, struct_ty, union_ty, arr_int_ty, arr_float_ty,
  Symbol,
}

-- the values of the enumeration
unfoldable pub type_number : TypeEnum → ℕ
type_number void_ty = 0
type_number int_ty = 1
type_number float_ty = 2
type_number typedef_ty = 3
type_number struct_ty = 4
type_number union_ty = 5
type_number arr_int_ty = 6
type_number arr_float_ty = 7

unfoldable pub is_type : TypeEnum → TypeEnum → Bool
unfolding type_number
is_type a b = type_number a == type_number b

unfoldable pub match_type : Symbol → Symbol → Bool
unfolding is_type
match_type s1 s2 = is_type s1.type s2.type

-- the checks on the operands; the result is a copy of the first one and has its type
unfoldable pub binop_type : TypeEnum → TypeEnum → Run TypeEnum
unfolding is_type
binop_type a b =
    if not (is_type a b)
      && (not (is_type a int_ty && is_type b float_ty)
          && not (is_type a float_ty && is_type b int_ty))
    then fault reported
    else (if is_type a struct_ty || is_type b struct_ty then fault reported else ok a)

-- the checks of `lhs = expr`; the result is the left side
unfoldable pub assign_type : Symbol → Symbol → Run Symbol
unfolding match_type is_type
assign_type s1 s2 =
    if not (match_type s1 s2) && not (is_type s1.type float_ty && is_type s2.type int_ty)
    then fault reported
    else (if (is_type s1.type struct_ty && is_type s2.type struct_ty)
          && not (s1.type_ptr == s2.type_ptr)
        then fault reported
        else ok s1)

-- the operands that the language has
pub data Operands : TypeEnum → TypeEnum → Type 0 where
  same : {t : TypeEnum} → t ≢ struct_ty → Operands t t
  int_float : Operands int_ty float_ty
  float_int : Operands float_ty int_ty

-- the sides of an assignment that the language has
pub data Assigns (s1 s2 : Symbol) : Type 0 where
  same_type : s1.type ≡ s2.type → s1.type ≢ struct_ty → Assigns s1 s2
  same_struct :
      s1.type ≡ struct_ty → s2.type ≡ struct_ty → s1.type_ptr ≡ s2.type_ptr → Assigns s1 s2
  int_to_float : s1.type ≡ float_ty → s2.type ≡ int_ty → Assigns s1 s2

of_number : ℕ → TypeEnum
of_number n =
    if n == 0
    then void_ty
    else if n == 1
    then int_ty
    else if n == 2
    then float_ty
    else if n == 3
    then typedef_ty
    else if n == 4
    then struct_ty
    else if n == 5
    then union_ty
    else if n == 6
    then arr_int_ty
    else arr_float_ty

of_number-type_number : (t : TypeEnum) → of_number (type_number t) ≡ t
unfolding type_number of_number
of_number-type_number void_ty = refl
of_number-type_number int_ty = refl
of_number-type_number float_ty = refl
of_number-type_number typedef_ty = refl
of_number-type_number struct_ty = refl
of_number-type_number union_ty = refl
of_number-type_number arr_int_ty = refl
of_number-type_number arr_float_ty = refl

is_type-eq : (a b : TypeEnum) → is_type a b ≡ true → a ≡ b
unfolding is_type
is_type-eq a b h =
    sym (of_number-type_number a)
    ∙ ap of_number ((==_iff (type_number a) (type_number b)).0 h)
    ∙ of_number-type_number b

is_type_refl : (a : TypeEnum) → is_type a a ≡ true
unfolding is_type
is_type_refl a = ground arith

is_type_ne : (a b : TypeEnum) → a ≢ b → is_type a b ≡ false
is_type_ne a b h = elim (Bool-cases (is_type a b)) [
  | inl e ↦ absurd (h (is_type-eq a b e))
  | inr e ↦ e
]

and_true : (x y : Bool) → (x && y) ≡ true → (x ≡ true) × (y ≡ true)
and_true x y h = ground arith

ne_struct : (a : TypeEnum) → is_type a struct_ty ≡ false → a ≢ struct_ty
ne_struct a h e = false-ne-true (sym h ∙ ap (λ t. is_type t struct_ty) e ∙ is_type_refl struct_ty)

accepted : {a b : TypeEnum} → Operands a b → binop_type a b ≡ ok a
unfolding binop_type
accepted (same {t} h) = rw (is_type_refl t, is_type_ne t struct_ty h)
accepted int_float = refl
accepted float_int = refl

-- whether two types are operands
decided : (a b : TypeEnum) → Operands a b ⊎ (binop_type a b ≡ fault reported)
unfolding binop_type
decided a b = elim (Bool-cases (is_type a b)) [
  | inl e ↦ elim (Bool-cases (is_type a struct_ty)) [
    | inl st ↦ inr (rw (e, st))
    | inr plain ↦ inl (rw (← is_type-eq a b e) (same (ne_struct a plain)))
  ]
  | inr ne ↦ elim (Bool-cases (is_type a int_ty && is_type b float_ty)) [
    | inl both ↦
        let (ia, fb) = and_true _ _ both in
        inl (rw (is_type-eq a int_ty ia, is_type-eq b float_ty fb) int_float)
    | inr no_if ↦ elim (Bool-cases (is_type a float_ty && is_type b int_ty)) [
      | inl both ↦
          let (fa, ib) = and_true _ _ both in
          inl (rw (is_type-eq a float_ty fa, is_type-eq b int_ty ib) float_int)
      | inr no_fi ↦ inr (rw (ne, no_if, no_fi))
    ]
  ]
]

-- Operands of one type that is no structure, or an int and a float in either order, are accepted,
-- and the type is that of the first; all other operands are reported.
pub binop_type_lem :
    (a b : TypeEnum)
    → (Operands a b → binop_type a b ≡ ok a)
      × ((Operands a b → ⊥) → binop_type a b ≡ fault reported)
binop_type_lem a b =
    (accepted, λ differ. elim (decided a b) [ inl o ↦ absurd (differ o) | inr r ↦ r ])

accepted_sides : (s1 s2 : Symbol) → Assigns s1 s2 → assign_type s1 s2 ≡ ok s1
unfolding assign_type match_type
accepted_sides s1 s2 (same_type e h) =
    rw (← e, is_type_refl s1.type, is_type_ne s1.type struct_ty h)
accepted_sides s1 s2 (same_struct a b p) =
    let p' : (s1.type_ptr == s2.type_ptr) ≡ true = ground arith in rw (a, b, p')
accepted_sides s1 s2 (int_to_float a b) = rw (a, b)

decided_sides : (s1 s2 : Symbol) → Assigns s1 s2 ⊎ (assign_type s1 s2 ≡ fault reported)
unfolding assign_type match_type
decided_sides s1 s2 = elim (Bool-cases (is_type s1.type s2.type)) [
  | inl e ↦ elim (Bool-cases (is_type s1.type struct_ty)) [
    | inr plain ↦ inl (same_type (is_type-eq s1.type s2.type e) (ne_struct s1.type plain))
    | inl st ↦
        let a = is_type-eq s1.type struct_ty st in
        let b = sym (is_type-eq s1.type s2.type e) ∙ a in
        elim (Bool-cases (s1.type_ptr == s2.type_ptr)) [
          | inl p ↦ inl (same_struct a b ((==_iff s1.type_ptr s2.type_ptr).0 p))
          | inr p ↦ inr (rw (a, b, p))
        ]
  ]
  | inr ne ↦ elim (Bool-cases (is_type s1.type float_ty && is_type s2.type int_ty)) [
    | inl both ↦
        let (fa, ib) = and_true _ _ both in
        inl (int_to_float (is_type-eq s1.type float_ty fa) (is_type-eq s2.type int_ty ib))
    | inr no_fi ↦ inr (rw (ne, no_fi))
  ]
]

-- An assignment is accepted between sides of one type that is no structure, between structures of
-- one type object, and of an int to a float; its result is the left side. Every other one is
-- reported.
pub assign_type_lem :
    (s1 s2 : Symbol)
    → (Assigns s1 s2 → assign_type s1 s2 ≡ ok s1)
      × ((Assigns s1 s2 → ⊥) → assign_type s1 s2 ≡ fault reported)
assign_type_lem s1 s2 = (
  accepted_sides s1 s2,
  λ differ. elim (decided_sides s1 s2) [ inl o ↦ absurd (differ o) | inr r ↦ r ],
)
