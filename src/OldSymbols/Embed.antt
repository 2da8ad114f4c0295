-- ===== src/OldSymbols/Embed.antt =====
-- delete_scope of Assig3/symboltable.c against that of Assig4/symboltable.c.
use mathlib.Core.Option
use c.Base.{
  ℕ, ◌≡◌, refl, ap, ◌∙◌, Bool, true, false, ◌||◌, Option, none, some, List, [], ◌∷◌, ltb, ◌==◌,
  if◌then◌else◌, inl, inr, Bool-cases, Option-cases,
}
use c.Base.Run.{dangling, Run, ok, fault, ◌>>=◌}
use c.HashTable.{h_remove, ht_to_list}
use c.OldSymbols.{
  Kind, Symbol, Heap, SymState, write, load, free, remove_symbol, delete_entry, delete_loop,
  delete_scope,
}
use c.SymbolTable
use c.SymbolTable.{Ptr, null, gen_key}

-- the same symbol in Assig4, without a place
abbrev wide_kind : Kind → SymbolTable.Kind
wide_kind Kind.plain = SymbolTable.Kind.plain
wide_kind Kind.function = SymbolTable.Kind.function
wide_kind Kind.array = SymbolTable.Kind.array

abbrev wide : Symbol → SymbolTable.Symbol
wide s = record {
  name = s.name;
  scope = s.scope;
  type = s.type;
  kind = wide_kind s.kind;
  n_param = s.n_param;
  dim = s.dim;
  next = s.next;
  type_ptr = s.type_ptr;
  place = [];
}

abbrev pub embed : SymState → SymbolTable.SymState
embed st = record { heap = λ p. Option.map wide (st.heap p); symtab = st.symtab }

abbrev pub embed_run : Run SymState → Run SymbolTable.SymState
embed_run (ok st) = ok (embed st)
embed_run (fault e) = fault e

never_parameter : (k : Kind) → SymbolTable.is_parameter (wide_kind k) ≡ false
unfolding SymbolTable.is_parameter
never_parameter Kind.plain = refl
never_parameter Kind.function = refl
never_parameter Kind.array = refl

stays-wide : (scope : ℕ) (s : Symbol) → SymbolTable.stays scope (wide s) ≡ ltb s.scope scope
unfolding SymbolTable.stays
stays-wide scope s = rw (never_parameter s.kind) (or_false (ltb s.scope scope))
  where
    or_false : (b : Bool) → (b || false) ≡ b
    or_false true = refl
    or_false false = refl

write-wide :
    (heap : Heap) (p : Ptr)
    → (λ q. Option.map wide (write heap p none q))
      ≡ SymbolTable.write (λ q. Option.map wide (heap q)) p none
unfolding write SymbolTable.write
write-wide heap p = λ i q. at q i
  where
    at :
        (q : Ptr)
        → Option.map wide (if q == p then none else heap q)
          ≡ (if q == p then none else Option.map wide (heap q))
    at q = elim (Bool-cases (q == p)) [ inl x ↦ rw x refl | inr x ↦ rw x refl ]

free-embed :
    (st : SymState) (o : Option Ptr) → embed_run (free st o) ≡ SymbolTable.free (embed st) o
unfolding free load SymbolTable.free SymbolTable.load
free-embed st none = refl
free-embed st (some p) = elim (Bool-cases (p == null)) [
  | inl x ↦ rw x refl
  | inr x ↦ rw x (by_cell (st.heap p))
]
  where
    by_cell :
        (o : Option Symbol)
        → embed_run (
            (elim o [ none ↦ fault dangling | some s ↦ ok s ]) >>= λ (s : Symbol).
            ok (record st { heap = write st.heap p none }))
          ≡ ((elim (Option.map wide o) [ none ↦ fault dangling | some s ↦ ok s ])
              >>= λ (s : SymbolTable.Symbol). ok (record {
                heap = SymbolTable.write (λ q. Option.map wide (st.heap q)) p none;
                symtab = st.symtab;
              }))
    by_cell none = refl
    by_cell (some s) = ap (λ h. ok (record { heap = h; symtab = st.symtab })) (write-wide st.heap p)

load-embed :
    (st : SymState) (p : Ptr) (s : Symbol)
    → st.heap p ≡ some s
    → (load st p ≡ ok s) × (SymbolTable.load (embed st) p ≡ ok (wide s))
unfolding load SymbolTable.load
load-embed st p s h = (rw (load, h), rw (SymbolTable.load, h))

load-dangling :
    (st : SymState) (p : Ptr)
    → st.heap p ≡ none
    → (load st p ≡ fault dangling) × (SymbolTable.load (embed st) p ≡ fault dangling)
unfolding load SymbolTable.load
load-dangling st p h = (rw (load, h), rw (SymbolTable.load, h))

delete_entry-embed :
    (scope : ℕ) (st : SymState) (p : Ptr)
    → embed_run (delete_entry scope st p) ≡ SymbolTable.delete_entry scope (embed st) p
unfolding delete_entry SymbolTable.delete_entry remove_symbol
delete_entry-embed scope st p = elim (Bool-cases (p == null)) [
  | inl x ↦ rw x refl
  | inr x ↦ rw x (elim (Option-cases (st.heap p)) [
    | inl h ↦ let (a, b) = load-dangling st p h in rw (a, b) refl
    | inr (s, h) ↦
        let (a, b) = load-embed st p s h in
        rw (a, b, stays-wide scope s)
          (elim (Bool-cases (ltb s.scope scope)) [
            | inl y ↦ rw y refl
            | inr y ↦ rw y (
                free-embed (record st { symtab = (h_remove st.symtab (gen_key s.name s.scope)).0 })
                  (h_remove st.symtab (gen_key s.name s.scope)).2)
          ])
  ])
]

delete_loop-embed :
    (scope : ℕ) (list : List Ptr) (st : SymState)
    → embed_run (delete_loop scope list st) ≡ SymbolTable.delete_loop scope list (embed st)
unfolding delete_loop SymbolTable.delete_loop
delete_loop-embed scope [] st = refl
delete_loop-embed scope (p ∷ list) st =
    after (λ st'. delete_loop-embed scope list st') (delete_entry scope st p)
    ∙ ap (λ m. m >>= λ st'. SymbolTable.delete_loop scope list st') (delete_entry-embed scope st p)
  where
    after :
        ((st' : SymState)
          → embed_run (delete_loop scope list st') ≡ SymbolTable.delete_loop scope list (embed st'))
        → (m : Run SymState)
        → embed_run (m >>= λ st'. delete_loop scope list st')
          ≡ (embed_run m >>= λ st'. SymbolTable.delete_loop scope list st')
    after rest (ok st') = rest st'
    after rest (fault e) = refl

-- Whatever the table and the heap hold, delete_scope of Assig3 does with its symbols, none of which is
-- a parameter, just what that of Assig4 does with the same symbols, faults included.
pub delete_scope-embed :
    (scope : ℕ) (st : SymState)
    → embed_run (delete_scope scope st) ≡ SymbolTable.delete_scope scope (embed st)
unfolding delete_scope SymbolTable.delete_scope
delete_scope-embed scope st = delete_loop-embed scope (ht_to_list st.symtab).1 st
