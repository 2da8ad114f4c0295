-- ===== src/SymbolTable/Change.antt =====
-- What the actions of Assig4/parser.y do to symbols between the calls on the symbol table: they
-- allocate new ones and write their fields. A symbol that is in the table keeps its name and its scope.
-- Its kind may become FUNCTION (parser.y:138), PARAMETER (parser.y:211) or ARRAY (parser.y:758), as long
-- as delete_scope(1) would remove it as before: a global stays whatever it becomes, and a local variable may
-- become an array.
use c.Base.{refl, ◌≡◌, sym, ◌∙◌, true, some, List, [], ◌∷◌, Text, ℕ, Bool}
use c.HashTable.{Entry, entries, slot, h_get}
use c.HashTable.Chain.{All, find, All-find, All-map₂}
use c.HashTable.Slot.{InPlace, h_get-find}
use c.SymbolTable.{Ptr, Heap, Symbol, SymState}
use c.SymbolTable.Sweep.{is_variable, IsSymtab, is_local, goes, goes-is_local, KeptFirst}
use c.SymbolTable.Order.{StaysFirst, Stays, NoneGoes}

-- the symbol at `p` is still there, and the fields that the table depends on are as before
pub record Kept (heap heap' : Heap) (p : Ptr) (s : Symbol) : Type 0 where
  pub now : Symbol
  pub holds : heap' p ≡ some now
  pub name : now.name ≡ s.name
  pub scope : now.scope ≡ s.scope
  pub local : is_local 1 now ≡ is_local 1 s

-- every symbol in the table is kept
abbrev pub Changes : SymState → Heap → Type 0
Changes st heap' =
    (q : Text) (p : Ptr) (s : Symbol)
    → h_get st.symtab q ≡ some p
    → st.heap p ≡ some s
    → Kept st.heap heap' p s

-- a symbol of an outer scope stays, whatever its kind becomes
pub global_local :
    (s now : Symbol) → s.scope ≡ 0 → now.scope ≡ s.scope → is_local 1 now ≡ is_local 1 s
unfolding is_local
global_local s now outer same = rw (same, outer) refl

-- a kind that is none of a parameter's before and after makes no difference
pub variable_local :
    (s now : Symbol)
    → is_variable s.kind ≡ true
    → is_variable now.kind ≡ true
    → now.scope ≡ s.scope
    → is_local 1 now ≡ is_local 1 s
unfolding is_local
variable_local s now before after same = rw (same, before, after) refl

-- the entries of a bucket are what lookups of their keys return
All-listed :
    {st : SymState} (symtab : IsSymtab st) (i : ℕ)
    → All (λ (e : Entry Ptr). h_get st.symtab e.key ≡ some e.payload) (entries (slot st.symtab i))
All-listed {st} symtab i =
    All-map₂ (λ (e : Entry Ptr). h_get st.symtab e.key ≡ some e.payload) listed
      (entries (slot st.symtab i)) (symtab.valid.placed i)
      (All-find (entries (slot st.symtab i)) (entries (slot st.symtab i)) (symtab.valid.distinct i)
        (λ q d h. h))
  where
    listed :
        (e : Entry Ptr)
        → InPlace i e
        → find e.key (entries (slot st.symtab i)) ≡ some e.payload
        → h_get st.symtab e.key ≡ some e.payload
    listed e placed found = h_get-find st.symtab e.key ∙ rw (placed.1) found

KeptFirst-congr :
    (f g : Ptr → Bool) (es : List (Entry Ptr))
    → All (λ (e : Entry Ptr). f e.payload ≡ g e.payload) es
    → KeptFirst f es
    → KeptFirst g es
KeptFirst-congr f g [] same k = tt
KeptFirst-congr f g (e ∷ es) same k = (
  λ h.
      All-map₂ (λ (x : Entry Ptr). g x.payload ≡ true) (λ x a b. sym a ∙ b) es same.1
        (k.0 (same.0 ∙ h)),
  KeptFirst-congr f g es same.1 k.1,
)

module _ {st : SymState} (symtab : IsSymtab st) (heap' : Heap) (changes : Changes st heap') where
  goes-kept : (q : Text) (p : Ptr) → h_get st.symtab q ≡ some p → goes st.heap 1 p ≡ goes heap' 1 p
  goes-kept q p h =
      let (s, hs, _, _) = symtab.keyed q p h in
      let k = changes q p s h hs in
      goes-is_local st.heap 1 p s hs ∙ sym k.local ∙ sym (goes-is_local heap' 1 p k.now k.holds)

  same_goes :
      (i : ℕ)
      → All
          (λ (e : Entry Ptr). goes st.heap 1 e.payload ≡ goes heap' 1 e.payload)
          (entries (slot st.symtab i))
  same_goes i =
      All-map₂ (λ (e : Entry Ptr). goes st.heap 1 e.payload ≡ goes heap' 1 e.payload)
        (λ e h _. goes-kept e.key e.payload h) (entries (slot st.symtab i)) (All-listed symtab i)
        (All-listed symtab i)

  pub change-IsSymtab : IsSymtab (record st { heap = heap' })
  change-IsSymtab = record {
    valid = symtab.valid;
    keyed = λ q p h.
        let (s, hs, ks, ne) = symtab.keyed q p h in
        let k = changes q p s h hs in (k.now, k.holds, rw (k.name, k.scope) ks, ne);
  }

  pub change-StaysFirst : StaysFirst 1 st → StaysFirst 1 (record st { heap = heap' })
  change-StaysFirst first i =
      KeptFirst-congr (goes st.heap 1) (goes heap' 1) (entries (slot st.symtab i)) (same_goes i)
        (first i)

  pub change-NoneGoes : NoneGoes 1 st → NoneGoes 1 (record st { heap = heap' })
  change-NoneGoes none_goes i =
      All-map₂ (Stays heap' 1) (λ e a b. sym a ∙ b) (entries (slot st.symtab i)) (same_goes i)
        (none_goes i)
