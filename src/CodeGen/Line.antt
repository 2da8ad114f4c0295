-- ===== src/CodeGen/Line.antt =====
-- The lines that Assig4/codegen.c and the actions of Assig4/parser.y emit, and their text.
use c.Base.{ℕ, ◌++◌, ◌∷◌, [], Text, codes}
use c.Base.Decimal.{decimal}
use c.Base.Int.{ℤ, print_int}

pub data Reg : Type 0 where
  ra sp fp a0 v0 : Reg
  numbered : ℕ → Reg

pub data Line : Type 0 where
  text_section data_section syscall : Line
  label : Text → Line
  sw lw : Reg → ℤ → Reg → Line
  lw_label : Reg → Text → Line
  add_imm : Reg → Reg → ℤ → Line
  sub : Reg → Reg → Reg → Line
  li : Reg → ℕ → Line
  jr : Reg → Line
  word : Text → ℕ → Line
  frame_word : Text → ℕ → Line
  asciiz : Text → Text → Line

unfoldable pub render_reg : Reg → Text
render_reg ra = codes "$ra"
render_reg sp = codes "$sp"
render_reg fp = codes "$fp"
render_reg a0 = codes "$a0"
render_reg v0 = codes "$v0"
render_reg (numbered n) = codes "$" ++ decimal n

tab : Text
tab = b'\t' ∷ []

-- `r, off(base)`
render_access : Reg → ℤ → Reg → Text
unfolding render_reg
render_access r off base =
    render_reg r ++ codes ", " ++ print_int off ++ codes "(" ++ render_reg base ++ codes ")"

-- the text that `emit` prints, without the newline
unfoldable pub render : Line → Text
unfolding tab render_access render_reg
render text_section = codes ".text"
render data_section = codes ".data"
render syscall = tab ++ codes "syscall"
render (label name) = name ++ codes ":"
render (sw r off base) = tab ++ codes "sw " ++ render_access r off base
render (lw r off base) = tab ++ codes "lw " ++ render_access r off base
render (lw_label r name) = tab ++ codes "lw " ++ render_reg r ++ codes ", " ++ name
render (add_imm r s n) =
    tab ++ codes "add " ++ render_reg r ++ codes ", " ++ render_reg s ++ codes ", " ++ print_int n
render (sub r s t) =
    tab ++ codes "sub " ++ render_reg r ++ codes ", " ++ render_reg s ++ codes ", " ++ render_reg t
render (li r n) = tab ++ codes "li " ++ render_reg r ++ codes ", " ++ decimal n
render (jr r) = tab ++ codes "jr " ++ render_reg r
render (word name n) = name ++ codes ": .word " ++ decimal n
render (frame_word name n) = tab ++ name ++ codes ": .word " ++ decimal n
render (asciiz name str) = name ++ codes ": .asciiz " ++ str
