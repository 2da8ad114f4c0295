-- ===== src/SymbolTable/Order.antt =====
-- The order in which Assig4/parser.y fills and empties the symbol table keeps, in every bucket, the
-- symbols that delete_scope removes behind those that it leaves.
use mathlib.Core.Path.{subst, fun_ext}
use c.Base.{
  ◌<◌, length, ℕ, ◌≡◌, ◌≢◌, refl, sym, ◌∙◌, inl, inr, Bool, true, false, Option, none, some, List,
  [], ◌∷◌, arith, ◌==◌, ==_iff, Bool-cases, Text, none-ne-some, false-ne-true, some-injective,
}
use c.Base.Run.{Returns, returns}
use c.HashTable.{Entry, entries, slot, link_last, h_get}
use c.HashTable.Chain.{All, find, All-find, All-map₂, All-link_last}
use c.HashTable.Slot.{InPlace, h_get-find}
use c.HashTable.Insert.{h_insert_preserves}
use c.SymbolTable.{
  symtab_key_siz, Ptr, null, Heap, Symbol, SymState, gen_key, default_place, insert_symbol,
}
use c.SymbolTable.Sweep.{is_local, goes-is_local, IsSymtab, goes, KeptFirst}
use c.SymbolTable.DeleteScope.{remaining, ScopeDeleted}
use c.SymbolTable.Scope.{named, named-p, named-other, after, insert_symbol-ok}

abbrev pub StaysFirst : ℕ → SymState → Type 0
StaysFirst scope st = (i : ℕ) → KeptFirst (goes st.heap scope) (entries (slot st.symtab i))

abbrev pub Stays : Heap → ℕ → Entry Ptr → Type 0
Stays heap scope e = goes heap scope e.payload ≡ false

-- no symbol in the table is one that delete_scope(scope) removes
abbrev pub NoneGoes : ℕ → SymState → Type 0
NoneGoes scope st = (i : ℕ) → All (Stays st.heap scope) (entries (slot st.symtab i))

module _ (going : Ptr → Bool) where
  KeptFirst-stay :
      (es : List (Entry Ptr))
      → All (λ (e : Entry Ptr). going e.payload ≡ false) es
      → KeptFirst going es
  KeptFirst-stay [] a = tt
  KeptFirst-stay (e ∷ es) a = (λ g. absurd (false-ne-true (sym a.0 ∙ g)), KeptFirst-stay es a.1)

  KeptFirst-link_last :
      (es : List (Entry Ptr)) (node : Entry Ptr)
      → going node.payload ≡ true
      → KeptFirst going es
      → KeptFirst going (link_last es node)
  unfolding link_last
  KeptFirst-link_last [] node g s = (λ _. tt, tt)
  KeptFirst-link_last (e ∷ es) node g s = (
    λ ge. All-link_last (λ x. going x.payload ≡ true) es node (s.0 ge) g,
    KeptFirst-link_last es node g s.1,
  )

pub NoneGoes-StaysFirst : (scope : ℕ) (st : SymState) → NoneGoes scope st → StaysFirst scope st
NoneGoes-StaysFirst scope st none_goes i =
    KeptFirst-stay (goes st.heap scope) (entries (slot st.symtab i)) (none_goes i)

goes-congr :
    (heap heap' : Heap) (scope : ℕ) (p : Ptr)
    → heap p ≡ heap' p
    → goes heap scope p ≡ goes heap' scope p
unfolding goes
goes-congr heap heap' scope p h = ground arith

is_local-place :
    (scope : ℕ) (s : Symbol) (place : Text)
    → is_local scope (record s { place = place }) ≡ is_local scope s
unfolding is_local
is_local-place scope s place = refl

module _ {st : SymState} (symtab : IsSymtab st) (p : Ptr) (s : Symbol) (holds : st.heap p ≡ some s)
    (ne : p ≢ null) (fits : length (gen_key s.name s.scope) < symtab_key_siz) (scope : ℕ) where
  -- writing the default place does not change which symbols go
  goes-named : (q : Ptr) → goes st.heap scope q ≡ goes (named symtab p s holds ne fits).heap scope q
  goes-named q = elim (Bool-cases (q == p)) [
    | inr other ↦
        goes-congr _ _ scope q (sym (named-other symtab p s holds ne fits q (ground arith)))
    | inl same ↦ rw ((==_iff q p).0 same) (
        goes-is_local st.heap scope p s holds
        ∙ sym (is_local-place scope s (default_place s.name))
        ∙ sym (
            goes-is_local (named symtab p s holds ne fits).heap scope p _
              (named-p symtab p s holds ne fits)))
  ]

  pub insert-StaysFirst :
      goes st.heap scope p ≡ true
      → StaysFirst scope st
      → Returns (λ (r : SymState × Bool). StaysFirst scope r.0) (insert_symbol st p s.scope)
  unfolding after
  insert-StaysFirst g first = rw (insert_symbol-ok symtab p s holds ne fits) (
      returns (
        subst (λ f. (i : ℕ) → KeptFirst f (entries (slot (after symtab p s holds ne fits).0 i)))
          (fun_ext goes-named)
          (h_insert_preserves symtab.valid (gen_key s.name s.scope) p
            (KeptFirst (goes st.heap scope)) first
            (λ a. KeptFirst-link_last (goes st.heap scope) _ _ g a))))

  pub insert-NoneGoes :
      goes st.heap scope p ≡ false
      → NoneGoes scope st
      → Returns (λ (r : SymState × Bool). NoneGoes scope r.0) (insert_symbol st p s.scope)
  unfolding after
  insert-NoneGoes g none_goes = rw (insert_symbol-ok symtab p s holds ne fits) (
      returns (
        subst
          (λ f.
            (i : ℕ)
            → All (λ (e : Entry Ptr). f e.payload ≡ false)
                (entries (slot (after symtab p s holds ne fits).0 i)))
          (fun_ext goes-named)
          (h_insert_preserves symtab.valid (gen_key s.name s.scope) p (All (Stays st.heap scope))
            none_goes (λ a. All-link_last (Stays st.heap scope) _ _ a g))))

-- after delete_scope no symbol is left that it would remove
pub ScopeDeleted-NoneGoes :
    (scope : ℕ) {st₀ : SymState} (symtab₀ : IsSymtab st₀) (st : SymState)
    → ScopeDeleted scope symtab₀ st
    → NoneGoes scope st
ScopeDeleted-NoneGoes scope {st₀} symtab₀ st deleted i =
    All-map₂ (Stays st.heap scope) left (entries (slot st.symtab i)) (deleted.symtab.valid.placed i)
      (All-find (entries (slot st.symtab i)) (entries (slot st.symtab i))
        (deleted.symtab.valid.distinct i) (λ q d h. h))
  where
    kept :
        (o : Option Ptr) (e : Entry Ptr)
        → remaining scope symtab₀ o ≡ some e.payload
        → goes st₀.heap scope e.payload ≡ false
    kept none e h = absurd (none-ne-some h)
    kept (some p) e h = elim (Bool-cases (goes st₀.heap scope p)) [
      | inl g ↦ absurd (none-ne-some (rw g at h))
      | inr g ↦ rw (← some-injective (rw g at h)) g
    ]

    left :
        (e : Entry Ptr)
        → InPlace i e
        → find e.key (entries (slot st.symtab i)) ≡ some e.payload
        → Stays st.heap scope e
    left e placed found =
        let read : h_get st.symtab e.key ≡ some e.payload =
          h_get-find st.symtab e.key ∙ rw (placed.1) found in
        let g = kept (h_get st₀.symtab e.key) e (sym (deleted.reads e.key) ∙ read) in
        goes-congr st.heap st₀.heap scope e.payload (deleted.spared e.payload g) ∙ g
