-- ===== src/CodeGen.antt =====
-- Assig4/codegen.c: the stack of label numbers, the temporary registers, the string labels, and the
-- prologue and epilogue of a function. Emitted lines are appended to a list.
pub mod Stack
pub mod Registers
pub mod Line
pub mod Labels
pub mod Frame
mod Tests
