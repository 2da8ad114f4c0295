-- ===== src/SymbolTable/Tests.antt =====
-- The symbol table of Assig4/symboltable.c with a global `b`, and inside a function the local `a`,
-- whose keys share a bucket; and its theorems there.
use c.SymbolTable.Sweep.{is_local}
use c.Base.{
  ◌<◌, length, ℕ, ◌≡◌, refl, true, none, some, Option, [], Text, codes, arith, if◌then◌else◌, ◌==◌,
  streq,
}
use c.Base.Decimal.{decimal}
use c.Base.Run.{ok, ◌>>=◌, Returns}
use c.HashTable.{h_init, h_get, h_insert, h_remove, ht_to_list}
use c.SymbolTable.{
  symtab_key_siz, gen_key, Ptr, Heap, Symbol, SymState, int_ty, plain, init_symtab, write,
  insert_symbol, lookup_symtab_prevscope, delete_scope,
}
use c.SymbolTable.Key.{gen_key-injective}
use c.SymbolTable.DeleteScope.{ScopeDeleted, delete_scope_lem}
use c.SymbolTable.Scope.{Resolves, lookup_symtab_prevscope_lem, Inserted, insert_symbol_lem}
use c.SymbolTable.Trace.{
  outside, inside, declare, declare_local, Reach, start, next, Reach-Ordered, Reach-delete_scope,
}

abbrev variable : Text → ℕ → Symbol
variable name scope = record {
  name = name;
  scope = scope;
  type = int_ty;
  kind = plain;
  n_param = 0;
  dim = 0;
  next = 0;
  type_ptr = 0;
  place = [];
}

abbrev b : Symbol
b = variable (codes "b") 0

abbrev a : Symbol
a = variable (codes "a") 1

abbrev symbols : Heap
symbols p = if p == 1 then some b else if p == 2 then some a else none

abbrev empty : SymState
empty = init_symtab (record { heap = symbols; symtab = [] })

abbrev with_b : SymState
with_b = record {
  heap = write symbols 1 (some (record b { place = codes "_b" }));
  symtab = (h_insert h_init (codes "0b") 1).0;
}

abbrev with_a : SymState
with_a = record {
  heap = write with_b.heap 2 (some (record a { place = codes "_a" }));
  symtab = (h_insert with_b.symtab (codes "1a") 2).0;
}

with_b-Reach : Reach outside with_b
unfolding init_symtab insert_symbol is_local h_insert h_init streq write decimal
with_b-Reach = next (start symbols) (declare {done = true} 1 b refl (omega arith) refl refl refl)

with_a-Reach : Reach inside with_a
unfolding insert_symbol is_local h_insert h_init streq write decimal
with_a-Reach = next with_b-Reach (declare_local {done = true} 2 a refl (omega arith) refl refl refl)

abbrev sees : SymState → Option Ptr × Option Ptr
sees st = (lookup_symtab_prevscope st (codes "a") 1, lookup_symtab_prevscope st (codes "b") 1)

sees_in_function : sees with_a ≡ (some 2, some 1)
unfolding lookup_symtab_prevscope h_insert h_init h_get streq write decimal
sees_in_function = refl

-- at the end of the function the local is gone, and the global is still there
sees_after : (delete_scope 1 with_a >>= λ st. ok (sees st)) ≡ ok (none, some 1)
unfolding delete_scope lookup_symtab_prevscope h_insert h_init h_get h_remove ht_to_list streq write
    decimal
sees_after = refl

Reach-delete_scope_example :
    Returns (ScopeDeleted 1 (Reach-Ordered with_a-Reach).0) (delete_scope 1 with_a)
Reach-delete_scope_example = Reach-delete_scope with_a-Reach

delete_scope_lem_example :
    Returns (ScopeDeleted 1 (Reach-Ordered with_a-Reach).0) (delete_scope 1 with_a)
delete_scope_lem_example =
    delete_scope_lem 1 (Reach-Ordered with_a-Reach).0 (Reach-Ordered with_a-Reach).1

a-holds : with_b.heap 2 ≡ some a
unfolding write
a-holds = refl

a-fits : length (gen_key (codes "a") 1) < symtab_key_siz
unfolding gen_key decimal
a-fits = omega arith

insert_symbol_lem_example : Returns (Inserted with_b 2 a (codes "b") 0) (insert_symbol with_b 2 1)
insert_symbol_lem_example =
    insert_symbol_lem (Reach-Ordered with_b-Reach).0 2 a a-holds (omega arith) a-fits (codes "b") 0
      refl refl

lookup_symtab_prevscope_lem_example :
    Resolves with_a (codes "b") 1 (lookup_symtab_prevscope with_a (codes "b") 1)
lookup_symtab_prevscope_lem_example = lookup_symtab_prevscope_lem with_a (codes "b") 1

gen_key-injective_example : (codes "a" ≡ codes "a") × (◌≡◌ {A = ℕ} 12 12)
gen_key-injective_example = gen_key-injective (codes "a") (codes "a") 12 12 refl refl refl
