-- ===== src/SymbolTable/Trace.antt =====
-- The calls that Assig4/parser.y makes on the symbol table, in the order that its grammar allows:
-- outside functions and in a parameter list it inserts globals, functions and parameters, which
-- delete_scope(1) leaves; inside a function's body it inserts local variables, which it removes; at
-- the end of the function it calls delete_scope(1). In between the lexer creates symbols, and the actions
-- fill in their fields; a symbol that is in the table keeps its name and its scope, and its kind may change
-- as Change says. Left out are programs that declare an array as a struct's field under the name of a
-- parameter: its symbol, which is in the table, becomes an ARRAY (parser.y:758), which delete_scope removes.
use c.SymbolTable.Change.{change-StaysFirst, change-NoneGoes, change-IsSymtab, Changes}
use mathlib.Core.Path.{subst}
use c.Base.{◌≡◌, ◌≢◌, sym, ◌∙◌, Bool, true, false, some, [], none-ne-some}
use c.Base.Decimal.{no_digit_first}
use c.Base.Run.{Run, ok, Returns, returns}
use c.HashTable.Insert.{h_init-IsValid, h_init-h_get, slot-h_init}
use c.SymbolTable.{Ptr, null, Heap, Symbol, SymState, init_symtab, insert_symbol, delete_scope}
use c.SymbolTable.Sweep.{is_local, goes-is_local, IsSymtab}
use c.SymbolTable.DeleteScope.{ScopeDeleted, delete_scope_lem}
use c.SymbolTable.Scope.{insert_symbol_lem, insert_symbol-fits}
use c.SymbolTable.Order.{
  StaysFirst, NoneGoes, NoneGoes-StaysFirst, insert-StaysFirst, insert-NoneGoes,
  ScopeDeleted-NoneGoes,
}

-- where the parser is: outside the body of a function, or inside
pub data Phase : Type 0 where
  outside inside : Phase

pub data Step : Phase → SymState → Phase → SymState → Type 0 where
  declare :
      {st st' : SymState} {done : Bool} (p : Ptr) (s : Symbol)
      → st.heap p ≡ some s
      → p ≢ null
      → no_digit_first s.name ≡ true
      → is_local 1 s ≡ false
      → insert_symbol st p s.scope ≡ ok (st', done)
      → Step outside st outside st'
  declare_local :
      {phase : Phase} {st st' : SymState} {done : Bool} (p : Ptr) (s : Symbol)
      → st.heap p ≡ some s
      → p ≢ null
      → no_digit_first s.name ≡ true
      → is_local 1 s ≡ true
      → insert_symbol st p s.scope ≡ ok (st', done)
      → Step phase st inside st'
  leave_function :
      {phase : Phase} {st st' : SymState} → delete_scope 1 st ≡ ok st' → Step phase st outside st'
  change :
      {phase : Phase} {st : SymState} (heap' : Heap)
      → Changes st heap'
      → Step phase st phase (record st { heap = heap' })

pub data Reach : Phase → SymState → Type 0 where
  start : (heap : Heap) → Reach outside (init_symtab (record { heap = heap; symtab = [] }))
  next :
      {phase phase' : Phase} {st st' : SymState}
      → Reach phase st
      → Step phase st phase' st'
      → Reach phase' st'

-- what each phase keeps of the order of the buckets
abbrev pub Ordered : Phase → SymState → Type 0
Ordered outside st = NoneGoes 1 st
Ordered inside st = StaysFirst 1 st

pub Ordered-StaysFirst : (phase : Phase) (st : SymState) → Ordered phase st → StaysFirst 1 st
Ordered-StaysFirst outside st o = NoneGoes-StaysFirst 1 st o
Ordered-StaysFirst inside st o = o

pub init_symtab-IsSymtab : (st : SymState) → IsSymtab (init_symtab st)
unfolding init_symtab
init_symtab-IsSymtab st = record {
  valid = h_init-IsValid;
  keyed = λ q p h. absurd (none-ne-some (sym (h_init-h_get q) ∙ h));
}

init_symtab-NoneGoes : (st : SymState) → NoneGoes 1 (init_symtab st)
unfolding init_symtab
init_symtab-NoneGoes st i = rw (slot-h_init {D = Ptr} i) tt

-- a result that is known
result-Returns {ℓ κ} :
    {A : Type ℓ} {P : A → Type κ} {m : Run A} (a : A) → Returns P m → m ≡ ok a → P a
result-Returns {P} a r e = Returns-ok (subst (Returns P) e r)
  where
    Returns-ok : Returns P (ok a) → P a
    Returns-ok (returns p) = p

change-Ordered :
    (phase : Phase) {st : SymState} (symtab : IsSymtab st) (heap' : Heap)
    → Changes st heap'
    → Ordered phase st
    → Ordered phase (record st { heap = heap' })
change-Ordered outside symtab heap' changes o = change-NoneGoes symtab heap' changes o
change-Ordered inside symtab heap' changes o = change-StaysFirst symtab heap' changes o

Step-Ordered :
    {phase phase' : Phase} {st st' : SymState}
    → Step phase st phase' st'
    → IsSymtab st × Ordered phase st
    → IsSymtab st' × Ordered phase' st'
Step-Ordered (declare {st} {st'} {done} p s holds ne letter stay e) (symtab, o) = (
  (result-Returns (st', done)
      (insert_symbol_lem symtab p s holds ne (insert_symbol-fits st p s holds e) s.name s.scope
        letter letter)
      e).symtab,
  result-Returns (st', done)
      (insert-NoneGoes symtab p s holds ne (insert_symbol-fits st p s holds e) 1
        (goes-is_local st.heap 1 p s holds ∙ stay) o)
      e,
)
Step-Ordered (declare_local {phase} {st} {st'} {done} p s holds ne letter go e) (symtab, o) = (
  (result-Returns (st', done)
      (insert_symbol_lem symtab p s holds ne (insert_symbol-fits st p s holds e) s.name s.scope
        letter letter)
      e).symtab,
  result-Returns (st', done)
      (insert-StaysFirst symtab p s holds ne (insert_symbol-fits st p s holds e) 1
        (goes-is_local st.heap 1 p s holds ∙ go) (Ordered-StaysFirst phase st o))
      e,
)
Step-Ordered (change {phase} {st} heap' changes) (symtab, o) =
    (change-IsSymtab symtab heap' changes, change-Ordered phase symtab heap' changes o)
Step-Ordered (leave_function {phase} {st} {st'} e) (symtab, o) =
    let deleted =
      result-Returns st' (delete_scope_lem 1 symtab (Ordered-StaysFirst phase st o)) e in
    (deleted.symtab, ScopeDeleted-NoneGoes 1 symtab st' deleted)

pub Reach-Ordered :
    {phase : Phase} {st : SymState} → Reach phase st → IsSymtab st × Ordered phase st
Reach-Ordered (start heap) = (init_symtab-IsSymtab _, init_symtab-NoneGoes _)
Reach-Ordered (next r step) = Step-Ordered step (Reach-Ordered r)

-- In every state that the parser's order of calls reaches, in a program where no parameter's symbol has
-- become an array (as a struct's field with subscripts under the name of the parameter would make it),
-- delete_scope(1) runs without a fault. It leaves a well-formed symbol table in which the globals, the functions and the parameters read as
-- before and the local variables are gone, and it changes none of the symbols that stay.
pub Reach-delete_scope :
    {phase : Phase} {st : SymState} (r : Reach phase st)
    → Returns (ScopeDeleted 1 (Reach-Ordered r).0) (delete_scope 1 st)
Reach-delete_scope {phase} {st} r =
    let (symtab, o) = Reach-Ordered r in delete_scope_lem 1 symtab (Ordered-StaysFirst phase st o)
