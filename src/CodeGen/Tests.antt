-- ===== src/CodeGen/Tests.antt =====
-- Assig4/codegen.c at small inputs: emitted text, and the theorems.
use c.Base.{
  ℕ, ◌+◌, ◌*◌, ◌<◌, ◌≡◌, refl, true, [], ◌∷◌, ◌++◌, List, map, Text, codes, arith, replicate, set,
  get_or, zero, suc, if◌then◌else◌, ◌==◌, streq,
}
use c.Base.Decimal.{decimal}
use c.Base.Int.{ℤ, pos, negsuc}
use c.Base.Run.{ok, fault, out_of_bounds, Returns}
use c.CodeGen.Stack.{IntStack, s_init, s_push, Holds, s_init-Holds, s_push_full}
use c.CodeGen.Registers.{
  no_temps_used, get_free_temp_reg, is_temp_reg, mark_temp_reg_free, reg_name, Taken,
  get_free_temp_reg_lem, get-mark_temp_reg_free, mark_temp_reg_free_symbolic,
}
use c.CodeGen.Line.{Line, word, asciiz, render, sw, fp, numbered}
use c.CodeGen.Labels.{
  StringLabel, Declared, no_slabel, Labels, push_string_label, gen_string_labels, Pending, Pushed,
  push_string_label_lem, gen_string_labels_lem,
}
use c.CodeGen.Frame.{prolog, restore, gen_func_prolog, gen_func_epilog, framesize_name}
use c.CodeGen.Frame.Machine.{Machine, run}
use c.CodeGen.Frame.Saved.{Frame, Restored, prolog-Frame, frame_restores, local_overwrites}

-- what gen_func_prolog prints first
prolog_text :
    map render (gen_func_prolog (codes "f") [])
    ≡ codes ".text"
      ∷ codes "f:"
      ∷ codes "\tsw $ra, 0($sp)"
      ∷ codes "\tsw $fp, -4($sp)"
      ∷ codes "\tadd $fp, $sp, -4"
      ∷ codes "\tadd $sp, $sp, -8"
      ∷ codes "\tlw $2, _framesize_f"
      ∷ codes "\tsub $sp, $sp, $2"
      ∷ codes "\tsw $8, 32($sp)"
      ∷ codes "\tsw $9, 28($sp)"
      ∷ codes "\tsw $10, 24($sp)"
      ∷ codes "\tsw $11, 20($sp)"
      ∷ codes "\tsw $12, 16($sp)"
      ∷ codes "\tsw $13, 12($sp)"
      ∷ codes "\tsw $14, 8($sp)"
      ∷ codes "\tsw $15, 4($sp)"
      ∷ codes "_begin_f:"
      ∷ []
unfolding gen_func_prolog render decimal
prolog_text = refl

abbrev no_labels : Labels
no_labels = record { slabel_arr = replicate 100 no_slabel; counter = 0; gen = 4 }

epilog_text :
    map render (gen_func_epilog (codes "main") [] no_labels).0
    ≡ codes "_end_main:"
      ∷ codes "\tlw $8, 32($sp)"
      ∷ codes "\tlw $9, 28($sp)"
      ∷ codes "\tlw $10, 24($sp)"
      ∷ codes "\tlw $11, 20($sp)"
      ∷ codes "\tlw $12, 16($sp)"
      ∷ codes "\tlw $13, 12($sp)"
      ∷ codes "\tlw $14, 8($sp)"
      ∷ codes "\tlw $15, 4($sp)"
      ∷ codes "\tlw $ra, 4($fp)"
      ∷ codes "\tadd $sp, $fp, 4"
      ∷ codes "\tlw $fp, 0($fp)"
      ∷ codes "\tli $v0, 10"
      ∷ codes "\tsyscall"
      ∷ codes ".data"
      ∷ codes "\t_framesize_main: .word 36"
      ∷ []
unfolding gen_func_epilog render streq decimal framesize_name
epilog_text = refl

abbrev cells : List ℤ
cells = replicate 1000 (pos 0)

new-Holds : Holds (s_init cells) []
new-Holds = s_init-Holds cells refl

abbrev seven : IntStack
seven = record { stack = set cells 0 (pos 7); index = pos 0 }

below_one : (i : ℕ) → i < 1 → i ≡ 0
below_one i h = omega arith

seven-Holds : Holds seven ([] ++ pos 7 ∷ [])
seven-Holds = record {
  cells = refl;
  fits = omega arith;
  index = refl;
  reads = λ i lt. rw (below_one i lt);
}

abbrev full : IntStack
full = record { stack = cells; index = pos 999 }

full-Holds : Holds full cells
full-Holds = record { cells = refl; fits = omega arith; index = refl; reads = λ i lt. refl }

s_push_full_example : s_push full (pos 7) ≡ fault out_of_bounds
s_push_full_example = s_push_full full-Holds (pos 7) refl

get_free_temp_reg_lem_example : Taken (1 ∷ 0 ∷ []) (get_free_temp_reg (1 ∷ 0 ∷ []))
get_free_temp_reg_lem_example = get_free_temp_reg_lem (1 ∷ 0 ∷ [])

first_register : (get_free_temp_reg no_temps_used).1 ≡ pos 8
unfolding get_free_temp_reg
first_register = refl

get-mark_temp_reg_free_example :
    mark_temp_reg_free (get_free_temp_reg no_temps_used).0 (reg_name (pos 8)) ≡ ok no_temps_used
get-mark_temp_reg_free_example = get-mark_temp_reg_free no_temps_used 8 refl first_register

mark_temp_reg_free_symbolic_example :
    (is_temp_reg (codes "$v0") ≡ true)
    × (mark_temp_reg_free no_temps_used (codes "$v0") ≡ fault out_of_bounds)
mark_temp_reg_free_symbolic_example =
    mark_temp_reg_free_symbolic no_temps_used (codes "$v0") refl refl (omega arith)

no_labels-Pending : Pending no_labels []
no_labels-Pending = record {
  cells = refl;
  counter = refl;
  fits = omega arith;
  reads = λ i lt. absurd (omega arith);
}

push_string_label_lem_example :
    Returns (Pushed no_labels [] (codes "____x")) (push_string_label no_labels (codes "____x"))
push_string_label_lem_example =
    push_string_label_lem no_labels-Pending (codes "____x") (omega arith) (omega arith)
      (omega arith)

abbrev two_strings : List StringLabel
two_strings =
    record { label = codes "_slabel4"; str = codes "____x" }
    ∷ record { label = codes "_slabel5"; str = codes "hello" }
    ∷ []

abbrev labels : Labels
labels = record { slabel_arr = two_strings ++ replicate 98 no_slabel; counter = 2; gen = 6 }

labels-Pending : Pending labels two_strings
labels-Pending = record { cells = refl; counter = refl; fits = omega arith; reads = read }
  where
    read : (i : ℕ) → i < 2 → get_or labels.slabel_arr i no_slabel ≡ get_or two_strings i no_slabel
    read zero lt = refl
    read (suc zero) lt = refl
    read (suc (suc i)) lt = absurd (omega arith)

gen_string_labels_lem_example :
    ((lines : List Line) × ((gen_string_labels [] labels).0 ≡ [] ++ lines)
      × Declared two_strings lines)
    × Pending (gen_string_labels [] labels).1 []
    × ((gen_string_labels [] labels).1.gen ≡ 6)
gen_string_labels_lem_example = gen_string_labels_lem labels-Pending []

declared_text :
    (gen_string_labels [] labels).0
    ≡ word (codes "____x") 0 ∷ asciiz (codes "_slabel5") (codes "hello") ∷ []
unfolding gen_string_labels
declared_text = refl

-- the machine when `f` is called
abbrev caller : Machine
caller = record { reg = λ r. if r == 29 then 0x7fff_0028 else r; mem = λ a. 0 }

abbrev data_at : Text → ℕ
data_at name = 32

frame_restores_example :
    Restored caller (run data_at (restore (codes "f")) (run data_at (prolog (codes "f")) caller))
frame_restores_example =
    frame_restores data_at (codes "f") caller (λ m. m) 0x7fff_0000 refl refl (omega arith)
      (λ m. record { same_sp = refl; same_fp = refl; above = λ a lt. refl })

callee-Frame : Frame caller 0x7fff_0000 (run data_at (prolog (codes "f")) caller)
callee-Frame = prolog-Frame data_at (codes "f") caller 0x7fff_0000 refl refl (omega arith)

local_overwrites_example :
    (run data_at
        (sw (numbered 9) (negsuc (4 * 0 + 3)) fp ∷ restore (codes "f"))
        (run data_at (prolog (codes "f")) caller)).reg
      (8 + 0)
    ≡ (run data_at (prolog (codes "f")) caller).reg 9
local_overwrites_example =
    local_overwrites data_at (codes "f") caller (run data_at (prolog (codes "f")) caller)
      0x7fff_0000 9 0 callee-Frame (omega arith) (omega arith)
