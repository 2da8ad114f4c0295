-- ===== src/SymbolTable.antt =====
-- Assig4/symboltable.c and the record of symboltable.h: symbols on a heap, named by their addresses,
-- in a hash table whose keys are the scope number followed by the name. `malloc` is an argument:
-- the address that it returns.
pub mod Key
pub mod Sweep
pub mod Delete
pub mod DeleteScope
pub mod Scope
pub mod Order
pub mod Change
pub mod Trace
mod Tests
use c.Base.{
  ℕ, zero, suc, ◌+◌, ◌-◌, ◌≡◌, Bool, true, false, ◌||◌, Option, none, some, List, [], ◌∷◌, ◌++◌,
  ltb, ◌==◌, if◌then◌else◌, length, take, Text, codes,
}
use c.Base.Decimal.{decimal}
use c.Base.Run.{out_of_bounds, Run, ok, fault, dangling, assertion, ◌>>=◌}
use c.HashTable.{Table, h_init, h_insert, h_get, h_remove, ht_to_list}

-- `type_enum` of common.h
pub data TypeEnum : Type 0 where
  void_ty int_ty float_ty typedef_ty struct_ty union_ty arr_int_ty arr_float_ty : TypeEnum

pub data Kind : Type 0 where
  plain function array parameter : Kind

abbrev pub Ptr : Type 0
Ptr = ℕ

abbrev pub null : Ptr
null = 0

-- ID_SIZ and SYMTAB_KEY_SIZ of common.h
abbrev pub id_siz : ℕ
id_siz = 257

abbrev pub symtab_key_siz : ℕ
symtab_key_siz = 260

-- `symtab_entry`; `plain` is the source's NONE
pub record Symbol : Type 0 where
  pub name : Text
  pub scope : ℕ
  pub type : TypeEnum
  pub kind : Kind
  pub n_param : ℕ
  pub dim : ℕ
  pub next : Ptr
  pub type_ptr : Ptr
  pub place : Text

abbrev pub Heap : Type 0
Heap = Ptr → Option Symbol

-- the global `symtab`, and the symbols that are allocated
pub record SymState : Type 0 where
  pub heap : Heap
  pub symtab : Table Ptr

unfoldable pub write : Heap → Ptr → Option Symbol → Heap
write heap p cell q = if q == p then cell else heap q

-- `*s`
unfoldable pub load : SymState → Ptr → Run Symbol
load st p = elim (st.heap p) [ none ↦ fault dangling | some s ↦ ok s ]

unfoldable pub store : SymState → Ptr → Symbol → SymState
unfolding write
store st p s = record st { heap = write st.heap p (some s) }

-- The text that is printed into the key's buffer in two steps. insert_symbol faults where it does not fit;
-- the lookups are modelled for keys that fit.
unfoldable pub gen_key : Text → ℕ → Text
gen_key name scope = decimal scope ++ name

unfoldable pub init_symtab : SymState → SymState
init_symtab st = record st { symtab = h_init }

-- the `strncpy` and the `strncat` into `s->place`
unfoldable pub default_place : Text → Text
default_place name = codes "_" ++ take (id_siz - 2) name

unfoldable pub insert_symbol : SymState → Ptr → ℕ → Run (SymState × Bool)
unfolding load store default_place gen_key
insert_symbol st p scope = do
  s ← load st p
  let named = store st p (record s { place = default_place s.name })
  if ltb (length (gen_key s.name scope)) symtab_key_siz
      then (let (symtab, done) = h_insert named.symtab (gen_key s.name scope) p in
          ok (record named { symtab = symtab }, done))
      else fault out_of_bounds

unfoldable pub lookup_symtab : SymState → Text → ℕ → Option Ptr
unfolding gen_key
lookup_symtab st name scope = h_get st.symtab (gen_key name scope)

-- the loop from `scope` down to 0
unfoldable pub lookup_symtab_prevscope : SymState → Text → ℕ → Option Ptr
unfolding gen_key
lookup_symtab_prevscope st name zero = h_get st.symtab (gen_key name zero)
lookup_symtab_prevscope st name (suc scope) = elim (h_get st.symtab (gen_key name (suc scope))) [
  | some p ↦ some p
  | none ↦ lookup_symtab_prevscope st name scope
]

unfoldable pub create_symbol : SymState → (fresh : Ptr) → Text → ℕ → Run (SymState × Ptr)
unfolding store
create_symbol st fresh name scope =
    if ltb (length name) 257
    then ok (
      store st fresh (record {
        name = name;
        scope = scope;
        type = void_ty;
        kind = plain;
        n_param = 0;
        dim = 0;
        next = null;
        type_ptr = null;
        place = [];
      }),
      fresh,
    )
    else fault assertion

-- kind, n_param, dim and place are not copied
unfoldable pub copy_symbol : SymState → (fresh : Ptr) → Ptr → Run (SymState × Ptr)
unfolding load store
copy_symbol st fresh p = do
  s ← load st p
  if ltb (length s.name) 257
      then ok (
        store st fresh (record {
          name = s.name;
          scope = s.scope;
          type = s.type;
          kind = plain;
          n_param = 0;
          dim = 0;
          next = s.next;
          type_ptr = s.type_ptr;
          place = [];
        }),
        fresh,
      )
      else fault assertion

unfoldable pub is_parameter : Kind → Bool
is_parameter parameter = true
is_parameter plain = false
is_parameter function = false
is_parameter array = false

-- the condition under which delete_scope leaves a symbol
unfoldable pub stays : ℕ → Symbol → Bool
unfolding is_parameter
stays scope s = ltb s.scope scope || is_parameter s.kind

-- `free`, which is given NULL or what was allocated and not yet freed
unfoldable pub free : SymState → Option Ptr → Run SymState
unfolding load write
free st none = ok st
free st (some p) =
    if p == null then ok st else do _ ← load st p; ok (record st { heap = write st.heap p none })

-- one round of the loop of delete_scope
unfoldable pub delete_entry : ℕ → SymState → Ptr → Run SymState
unfolding load stays gen_key free
delete_entry scope st p = if p == null then ok st else do
  s ← load st p
  if stays scope s
      then ok st
      else (let (symtab, _, freed) = h_remove st.symtab (gen_key s.name s.scope) in
          free (record st { symtab = symtab }) freed)

unfoldable pub delete_loop : ℕ → List Ptr → SymState → Run SymState
unfolding delete_entry
delete_loop scope [] st = ok st
delete_loop scope (p ∷ list) st = do st' ← delete_entry scope st p; delete_loop scope list st'

unfoldable pub delete_scope : ℕ → SymState → Run SymState
unfolding delete_loop ht_to_list
delete_scope scope st = delete_loop scope (ht_to_list st.symtab).1 st
