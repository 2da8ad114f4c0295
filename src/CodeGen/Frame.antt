-- ===== src/CodeGen/Frame.antt =====
-- gen_func_prolog and gen_func_epilog of Assig4/codegen.c.
use c.Base.{ℕ, zero, suc, ◌+◌, ◌≡◌, Bool, List, [], ◌∷◌, ◌++◌, if◌then◌else◌, Text, codes, streq}
use c.Base.Int.{pos, negsuc}
use c.CodeGen.Line.{
  Line, ra, sp, fp, v0, numbered, text_section, data_section, syscall, label, sw, lw, lw_label,
  add_imm, sub, li, jr, frame_word,
}
use c.CodeGen.Labels.{Labels, gen_string_labels}
pub mod Machine
pub mod Saved

-- the word that holds the size of the function's frame
unfoldable pub framesize_name : Text → Text
framesize_name name = codes "_framesize_" ++ name

-- the lines that gen_func_prolog emits
unfoldable pub prolog : Text → List Line
unfolding framesize_name
prolog name =
    text_section
    ∷ label name
    ∷ sw ra (pos 0) sp
    ∷ sw fp (negsuc 3) sp
    ∷ add_imm fp sp (negsuc 3)
    ∷ add_imm sp sp (negsuc 7)
    ∷ lw_label (numbered 2) (framesize_name name)
    ∷ sub sp sp (numbered 2)
    ∷ sw (numbered 8) (pos 32) sp
    ∷ sw (numbered 9) (pos 28) sp
    ∷ sw (numbered 10) (pos 24) sp
    ∷ sw (numbered 11) (pos 20) sp
    ∷ sw (numbered 12) (pos 16) sp
    ∷ sw (numbered 13) (pos 12) sp
    ∷ sw (numbered 14) (pos 8) sp
    ∷ sw (numbered 15) (pos 4) sp
    ∷ label (codes "_begin_" ++ name)
    ∷ []

unfoldable pub gen_func_prolog : Text → List Line → List Line
unfolding prolog
gen_func_prolog name out = out ++ prolog name

-- the lines of gen_func_epilog that restore the registers
unfoldable pub restore : Text → List Line
restore name =
    label (codes "_end_" ++ name)
    ∷ lw (numbered 8) (pos 32) sp
    ∷ lw (numbered 9) (pos 28) sp
    ∷ lw (numbered 10) (pos 24) sp
    ∷ lw (numbered 11) (pos 20) sp
    ∷ lw (numbered 12) (pos 16) sp
    ∷ lw (numbered 13) (pos 12) sp
    ∷ lw (numbered 14) (pos 8) sp
    ∷ lw (numbered 15) (pos 4) sp
    ∷ lw ra (pos 4) fp
    ∷ add_imm sp fp (pos 4)
    ∷ lw fp (pos 0) fp
    ∷ []

unfoldable pub leave : Text → List Line
leave name = if streq name (codes "main") then li v0 10 ∷ syscall ∷ [] else jr ra ∷ []

-- `word_size`
unfoldable pub framesize : Text → ℕ
framesize name = if streq name (codes "main") then 36 else 32

unfoldable pub gen_func_epilog : Text → List Line → Labels → List Line × Labels
unfolding restore leave framesize gen_string_labels
gen_func_epilog name out st =
    gen_string_labels
      (out
        ++ restore name
        ++ leave name
        ++ data_section ∷ frame_word (framesize_name name) (framesize name) ∷ [])
      st
