-- ===== src/OldSymbols/Tests.antt =====
-- Assig3/symboltable.c at a small table.
use c.Base.{ℕ, ◌≡◌, refl, none, some, Text, codes, streq, ◌==◌, if◌then◌else◌}
use c.Base.Decimal.{decimal}
use c.Base.Run.{ok, ◌>>=◌}
use c.HashTable.{hash, h_init, h_insert, h_get, h_remove}
use c.OldSymbols.{Kind, Symbol, SymState, lookup_symtab_prevscope, delete_scope}
use c.OldSymbols.Embed.{embed, embed_run, delete_scope-embed}
use c.SymbolTable
use c.SymbolTable.{gen_key}

abbrev no_symbols : SymState
no_symbols = record { heap = λ p. none; symtab = h_init }

abbrev symbol : Text → ℕ → Symbol
symbol name scope = record {
  name = name;
  scope = scope;
  type = SymbolTable.TypeEnum.int_ty;
  kind = Kind.plain;
  n_param = 0;
  dim = 0;
  next = 0;
  type_ptr = 0;
}

-- a global `x` and a local one
abbrev shadowed : SymState
shadowed = record {
  heap = λ p.
      if p == 1
      then some (symbol (codes "x") 0)
      else if p == 2
      then some (symbol (codes "x") 1)
      else none;
  symtab = (h_insert (h_insert h_init (gen_key (codes "x") 0) 1).0 (gen_key (codes "x") 1) 2).0;
}

lookup_before : lookup_symtab_prevscope shadowed (codes "x") 1 ≡ some 2
unfolding lookup_symtab_prevscope h_init h_insert h_get gen_key decimal hash streq
lookup_before = refl

lookup_after :
    (delete_scope 1 shadowed >>= λ st. ok (lookup_symtab_prevscope st (codes "x") 1)) ≡ ok (some 1)
unfolding delete_scope lookup_symtab_prevscope h_init h_insert h_get h_remove gen_key decimal hash
    streq
lookup_after = refl

delete_scope-embed_example :
    embed_run (delete_scope 1 shadowed) ≡ SymbolTable.delete_scope 1 (embed shadowed)
delete_scope-embed_example = delete_scope-embed 1 shadowed
