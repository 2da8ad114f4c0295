-- ===== src/CodeGen/Frame/Machine.antt =====
-- What the emitted instructions do to the registers and the memory of a MIPS machine with 32-bit
-- words, straight ahead: labels and directives do nothing, and neither do the two instructions that
-- leave a function. Memory is read and written a word at a time, at aligned addresses. The words
-- that directives place at labels are an argument.
use c.Base.{ℕ, suc, ◌+◌, ◌-◌, ◌%◌, ◌^◌, List, [], ◌∷◌, if◌then◌else◌, ◌==◌, Text}
use c.Base.Int.{ℤ, pos, negsuc}
use c.CodeGen.Line.{
  Reg, Line, ra, sp, fp, v0, a0, numbered, text_section, data_section, syscall, label, sw, lw,
  lw_label, add_imm, sub, li, jr, word, frame_word, asciiz,
}

-- the number of a register
abbrev pub number : Reg → ℕ
number v0 = 2
number a0 = 4
number sp = 29
number fp = 30
number ra = 31
number (numbered n) = n

pub record Machine : Type 0 where
  pub reg : ℕ → ℕ
  pub mem : ℕ → ℕ

abbrev pub update : (ℕ → ℕ) → ℕ → ℕ → ℕ → ℕ
update f i v j = if j == i then v else f j

-- a sum of 32-bit words
abbrev pub offset : ℕ → ℤ → ℕ
offset a (pos n) = (a + n) % 2 ^ 32
offset a (negsuc n) = (a + (2 ^ 32 - suc n)) % 2 ^ 32

unfoldable pub step : (Text → ℕ) → Line → Machine → Machine
step data_at (sw r off base) m = record m {
  mem = update m.mem (offset (m.reg (number base)) off) (m.reg (number r));
}
step data_at (lw r off base) m = record m {
  reg = update m.reg (number r) (m.mem (offset (m.reg (number base)) off));
}
step data_at (lw_label r name) m = record m { reg = update m.reg (number r) (data_at name) }
step data_at (add_imm r s n) m = record m {
  reg = update m.reg (number r) (offset (m.reg (number s)) n);
}
step data_at (sub r s t) m = record m {
  reg =
      update m.reg (number r) ((m.reg (number s) + (2 ^ 32 - m.reg (number t) % 2 ^ 32)) % 2 ^ 32);
}
step data_at (li r n) m = record m { reg = update m.reg (number r) n }
step data_at text_section m = m
step data_at data_section m = m
step data_at syscall m = m
step data_at (label name) m = m
step data_at (jr r) m = m
step data_at (word name n) m = m
step data_at (frame_word name n) m = m
step data_at (asciiz name str) m = m

unfoldable pub run : (Text → ℕ) → List Line → Machine → Machine
unfolding step
run data_at [] m = m
run data_at (i ∷ code) m = run data_at code (step data_at i m)
