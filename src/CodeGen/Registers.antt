-- ===== src/CodeGen/Registers.antt =====
-- The temporary registers $8 to $15 of Assig4/codegen.c.
use c.Base.{
  length-set, lt→ltb, ℕ, zero, suc, ◌+◌, ◌*◌, ◌<◌, ◌≡◌, ◌≢◌, refl, sym, ap, ◌∙◌, inl, inr, Bool,
  true, ◌&&◌, Option, none, some, List, [], ◌∷◌, ◌++◌, arith, if◌then◌else◌, ltb, leb, ◌==◌, length,
  get_or, set, replicate, Text, codes, Bool-cases,
}
use c.Base.Decimal.{decimal}
use c.Base.Int.{ℤ, pos, negsuc, sub_ℕ, print_int}
use c.Base.Run.{Run, ok, fault, out_of_bounds}

-- `temp_reg`: 0 for a free register, 1 for one in use
abbrev pub TempReg : Type 0
TempReg = List ℕ

abbrev pub no_temps_used : TempReg
no_temps_used = replicate 8 0

-- the first free cell among those from number `i` on
unfoldable pub first_free : TempReg → ℕ → Option ℕ
first_free [] i = none
first_free (r ∷ regs) i = if r == 0 then some i else first_free regs (i + 1)

-- the array after the call and the register's number, or -1
unfoldable pub get_free_temp_reg : TempReg → TempReg × ℤ
unfolding first_free
get_free_temp_reg regs = elim (first_free regs 0) [
  | some i ↦ (set regs i 1, pos (i + 8))
  | none ↦ (regs, negsuc 0)
]

-- `str[i]`; the byte behind the last is the closing NUL
abbrev pub byte_at : Text → ℕ → ℕ
byte_at str i = get_or str i 0

unfoldable pub is_temp_reg : Text → Bool
is_temp_reg str = byte_at str 0 == b'$'

-- the cell that a register's name is taken for: `str[1]-'8'`, or
-- `(str[1]-'0')*10+(str[2]-'0')-8`
unfoldable pub temp_index : Text → ℤ
temp_index str =
    if leb b'8' (byte_at str 1) && leb (byte_at str 1) b'9'
    then sub_ℕ (byte_at str 1) b'8'
    else sub_ℕ (byte_at str 1 * 10 + byte_at str 2) (b'0' * 10 + b'0' + 8)

-- `temp_reg[reg]=0`
unfoldable pub clear_cell : TempReg → ℤ → Run TempReg
clear_cell regs (pos i) = if ltb i (length regs) then ok (set regs i 0) else fault out_of_bounds
clear_cell regs (negsuc i) = fault out_of_bounds

unfoldable pub mark_temp_reg_free : TempReg → Text → Run TempReg
unfolding is_temp_reg temp_index clear_cell
mark_temp_reg_free regs str = if is_temp_reg str then clear_cell regs (temp_index str) else ok regs

-- `sprintf(reg_str, "$%d", reg)`, as the parser writes a register's name
unfoldable pub reg_name : ℤ → Text
reg_name reg = codes "$" ++ print_int reg

abbrev pub Busy : TempReg → ℕ → Type 0
Busy regs i = get_or regs i 0 ≢ 0

-- the array and the number that get_free_temp_reg gives back, against the array before
abbrev pub Taken : TempReg → TempReg × ℤ → Type 0
Taken regs (regs', pos r) =
    (i : ℕ) × (r ≡ i + 8)
    × (i < length regs)
    × (get_or regs i 0 ≡ 0)
    × ((j : ℕ) → j < i → Busy regs j)
    × (regs' ≡ set regs i 1)
Taken regs (regs', negsuc r) = (r ≡ 0) × (regs' ≡ regs) × ((j : ℕ) → j < length regs → Busy regs j)

abbrev FirstFree : TempReg → ℕ → Option ℕ → Type 0
FirstFree regs from none = (j : ℕ) → j < length regs → Busy regs j
FirstFree regs from (some i) =
    (k : ℕ) × (i ≡ from + k)
    × (k < length regs)
    × (get_or regs k 0 ≡ 0)
    × ((j : ℕ) → j < k → Busy regs j)

Busy-cons :
    (r : ℕ) (regs : TempReg) (n : ℕ)
    → r ≢ 0
    → ((j : ℕ) → j < n → Busy regs j)
    → (j : ℕ) → j < suc n
    → Busy (r ∷ regs) j
Busy-cons r regs n h rest zero lt = h
Busy-cons r regs n h rest (suc j) lt = rest j (omega arith)

FirstFree-cons :
    (r : ℕ) (regs : TempReg) (from : ℕ) (o : Option ℕ)
    → r ≢ 0
    → FirstFree regs (from + 1) o
    → FirstFree (r ∷ regs) from o
FirstFree-cons r regs from none h rest = Busy-cons r regs (length regs) h rest
FirstFree-cons r regs from (some i) h (k, e, lt, z, busy) =
    (suc k, omega arith, omega arith, z, Busy-cons r regs k h busy)

first_free_lem : (regs : TempReg) (from : ℕ) → FirstFree regs from (first_free regs from)
unfolding first_free
first_free_lem [] from = λ j lt. absurd (omega arith)
first_free_lem (r ∷ regs) from = elim (Bool-cases (r == 0)) [
  | inl free ↦ rw free (0, omega arith, omega arith, ground arith, λ j lt. absurd (omega arith))
  | inr busy ↦ rw busy (
      FirstFree-cons r regs from (first_free regs (from + 1)) (ground arith)
        (first_free_lem regs (from + 1)))
]

-- get_free_temp_reg takes the free register with the lowest number, marks it used and returns its
-- number plus 8; it returns -1 and changes nothing exactly when all registers are in use.
pub get_free_temp_reg_lem : (regs : TempReg) → Taken regs (get_free_temp_reg regs)
unfolding get_free_temp_reg
get_free_temp_reg_lem regs = go (first_free regs 0) (first_free_lem regs 0)
  where
    go :
        (o : Option ℕ)
        → FirstFree regs 0 o
        → Taken regs (elim o [ some i ↦ (set regs i 1, pos (i + 8)) | none ↦ (regs, negsuc 0) ])
    go none busy = (refl, refl, busy)
    go (some i) (k, e, lt, z, busy) =
        (k, omega arith, lt, z, busy, ap (λ j. set regs j 1) (omega arith))

-- printing the number of a temporary register and reading it back gives its cell
temp_index-reg_name : (i : ℕ) → i < 8 → temp_index (reg_name (pos (i + 8))) ≡ pos i
unfolding temp_index reg_name decimal
temp_index-reg_name zero h = refl
temp_index-reg_name (suc zero) h = refl
temp_index-reg_name (suc (suc zero)) h = refl
temp_index-reg_name (suc (suc (suc zero))) h = refl
temp_index-reg_name (suc (suc (suc (suc zero)))) h = refl
temp_index-reg_name (suc (suc (suc (suc (suc zero))))) h = refl
temp_index-reg_name (suc (suc (suc (suc (suc (suc zero)))))) h = refl
temp_index-reg_name (suc (suc (suc (suc (suc (suc (suc zero))))))) h = refl
temp_index-reg_name (suc (suc (suc (suc (suc (suc (suc (suc i)))))))) h = absurd (omega arith)

is_temp_reg-reg_name : (r : ℤ) → is_temp_reg (reg_name r) ≡ true
unfolding is_temp_reg reg_name
is_temp_reg-reg_name r = refl

set-set :
    (regs : TempReg) (i : ℕ) → i < length regs → get_or regs i 0 ≡ 0 → set (set regs i 1) i 0 ≡ regs
set-set [] i h z = refl
set-set (r ∷ regs) zero h z = ap (λ x. x ∷ regs) (sym z)
set-set (r ∷ regs) (suc i) h z = ap (◌∷◌ r) (set-set regs i (omega arith) z)

-- mark_temp_reg_free, given the name of a temporary register, clears that register's cell.
pub mark_temp_reg_free-reg_name :
    (regs : TempReg) (i : ℕ)
    → length regs ≡ 8
    → i < 8
    → mark_temp_reg_free regs (reg_name (pos (i + 8))) ≡ ok (set regs i 0)
unfolding mark_temp_reg_free clear_cell
mark_temp_reg_free-reg_name regs i w h =
    rw (is_temp_reg-reg_name (pos (i + 8)), temp_index-reg_name i h, clear_cell)
      (rw (lt→ltb i (length regs) (omega arith)))

-- A register that get_free_temp_reg has handed out is given back under its printed name: the array
-- is then as it was before.
pub get-mark_temp_reg_free :
    (regs : TempReg) (r : ℕ)
    → length regs ≡ 8
    → (get_free_temp_reg regs).1 ≡ pos r
    → mark_temp_reg_free (get_free_temp_reg regs).0 (reg_name (pos r)) ≡ ok regs
get-mark_temp_reg_free regs r w got = go (get_free_temp_reg regs) (get_free_temp_reg_lem regs) got
  where
    go :
        (t : TempReg × ℤ)
        → Taken regs t
        → t.1 ≡ pos r
        → mark_temp_reg_free t.0 (reg_name (pos r)) ≡ ok regs
    go (regs', pos n) (i, e, lt, z, busy, e') got =
        let n-r : n ≡ r = ground arith in
        rw
          (
            e',
            ← n-r,
            e,
            mark_temp_reg_free-reg_name (set regs i 1) i (length-set regs i 1 ∙ w) (omega arith),
          )
          (ap ok (set-set regs i lt z))
    go (regs', negsuc n) t got = cc

-- For a register with a symbolic name, as the $v0 that holds a call's result, is_temp_reg says yes
-- and mark_temp_reg_free writes outside the array.
pub mark_temp_reg_free_symbolic :
    (regs : TempReg) (str : Text)
    → length regs ≡ 8
    → byte_at str 0 ≡ b'$'
    → b'9' < byte_at str 1
    → (is_temp_reg str ≡ true) × (mark_temp_reg_free regs str ≡ fault out_of_bounds)
unfolding mark_temp_reg_free clear_cell is_temp_reg temp_index
mark_temp_reg_free_symbolic regs str w dollar above = (ground arith, ground arith)
