-- ===== src/OldSymbols.antt =====
-- Assig3/symboltable.c, the symbol table before code generation: symbols have no `place`, no kind is that
-- of a parameter, and delete_scope removes all symbols from a scope on. Keys, the tables and the type
-- names are those of Assig4, whose text they share.
pub mod Embed
mod Tests
use c.Base.{
  ℕ, zero, suc, ◌+◌, Bool, true, false, Option, none, some, List, [], ◌∷◌, ltb, ◌==◌, if◌then◌else◌,
  length, Text,
}
use c.Base.Run.{Run, ok, fault, dangling, assertion, ◌>>=◌}
use c.HashTable.{Table, h_init, h_insert, h_get, h_remove, ht_to_list}
use c.SymbolTable.{TypeEnum, void_ty, Ptr, null, gen_key}

pub data Kind : Type 0 where
  plain function array : Kind

-- `symtab_entry`; `plain` is the source's NONE
pub record Symbol : Type 0 where
  pub name : Text
  pub scope : ℕ
  pub type : TypeEnum
  pub kind : Kind
  pub n_param : ℕ
  pub dim : ℕ
  pub next : Ptr
  pub type_ptr : Ptr

abbrev pub Heap : Type 0
Heap = Ptr → Option Symbol

-- the global `symtab`, and the symbols that are allocated
pub record SymState : Type 0 where
  pub heap : Heap
  pub symtab : Table Ptr

unfoldable pub write : Heap → Ptr → Option Symbol → Heap
write heap p cell q = if q == p then cell else heap q

unfoldable pub load : SymState → Ptr → Run Symbol
load st p = elim (st.heap p) [ none ↦ fault dangling | some s ↦ ok s ]

unfoldable pub init_symtab : SymState → SymState
init_symtab st = record st { symtab = h_init }

unfoldable pub insert_symbol : SymState → Ptr → ℕ → Run (SymState × Bool)
unfolding load gen_key
insert_symbol st p scope = do
  s ← load st p
  let (symtab, done) = h_insert st.symtab (gen_key s.name scope) p
  ok (record st { symtab = symtab }, done)

unfoldable pub lookup_symtab : SymState → Text → ℕ → Option Ptr
unfolding gen_key
lookup_symtab st name scope = h_get st.symtab (gen_key name scope)

-- the loop from `scope` down to 0
unfoldable pub lookup_symtab_prevscope : SymState → Text → ℕ → Option Ptr
unfolding lookup_symtab
lookup_symtab_prevscope st name zero = lookup_symtab st name zero
lookup_symtab_prevscope st name (suc scope) = elim (lookup_symtab st name (suc scope)) [
  | some p ↦ some p
  | none ↦ lookup_symtab_prevscope st name scope
]

unfoldable pub create_symbol : SymState → (fresh : Ptr) → Text → ℕ → Run (SymState × Ptr)
unfolding write
create_symbol st fresh name scope =
    if ltb (length name) 257
    then ok (
      record st {
        heap = write st.heap fresh (
            some (record {
              name = name;
              scope = scope;
              type = void_ty;
              kind = plain;
              n_param = 0;
              dim = 0;
              next = null;
              type_ptr = null;
            }));
      },
      fresh,
    )
    else fault assertion

-- `free`, which is given NULL or what was allocated and not yet freed
unfoldable pub free : SymState → Option Ptr → Run SymState
unfolding load write
free st none = ok st
free st (some p) =
    if p == null then ok st else do _ ← load st p; ok (record st { heap = write st.heap p none })

-- `h_remove(symtab, gen_key(entry->name, entry->scope))`
unfoldable pub remove_symbol : SymState → Symbol → Run SymState
unfolding gen_key free
remove_symbol st s =
    let (symtab, _, freed) = h_remove st.symtab (gen_key s.name s.scope) in
    free (record st { symtab = symtab }) freed

-- one round of the loop of delete_scope
unfoldable pub delete_entry : ℕ → SymState → Ptr → Run SymState
unfolding load remove_symbol
delete_entry scope st p =
    if p == null
    then ok st
    else do s ← load st p; if ltb s.scope scope then ok st else remove_symbol st s

unfoldable pub delete_loop : ℕ → List Ptr → SymState → Run SymState
unfolding delete_entry
delete_loop scope [] st = ok st
delete_loop scope (p ∷ list) st = do st' ← delete_entry scope st p; delete_loop scope list st'

unfoldable pub delete_scope : ℕ → SymState → Run SymState
unfolding delete_loop ht_to_list
delete_scope scope st = delete_loop scope (ht_to_list st.symtab).1 st
