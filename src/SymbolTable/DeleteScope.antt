-- ===== src/SymbolTable/DeleteScope.antt =====
-- delete_scope of Assig4/symboltable.c, as a whole.
use c.Base.{
  false-ne-true, none-ne-some, ℕ, ◌≡◌, ◌≢◌, refl, sym, ap, ◌∙◌, inl, inr, true, false, not, Option,
  none, some, List, [], ◌∷◌, arith, if◌then◌else◌, ◌==◌, Text, Bool-cases, Option-cases,
}
use c.Base.Run
use c.Base.Run.{Run, ok, ◌>>=◌, Returns, returns}
use c.HashTable.{Entry, entries, slot, h_get, h_remove}
use c.HashTable.Chain.{All-find, All-other, All-map₂, All, find, Distinct}
use c.HashTable.Remove.{h_remove_lem}
use c.HashTable.Listing.{payloads, ht_to_list-contents}
use c.HashTable.Flatten.{all_entries, payloads-all_entries, all_entries-Distinct, h_get-all_entries}
use c.SymbolTable.{
  Ptr, null, Heap, Symbol, SymState, write, load, gen_key, stays, free, delete_entry, delete_loop,
  delete_scope,
}
use c.SymbolTable.Sweep.{IsSymtab, goes, KeptFirst}
use c.SymbolTable.Delete.{
  going, Listed, Untouched, Swept, same_key, goes-stays, pass_over, removed, take_out,
}

module _ (st : SymState) {p : Ptr} {s : Symbol} (holds : st.heap p ≡ some s) (ne : p ≢ null) where
  not_null : (p == null) ≡ false
  not_null = ground arith

  delete_entry-stays : (scope : ℕ) → stays scope s ≡ true → delete_entry scope st p ≡ ok st
  unfolding delete_entry load
  delete_entry-stays scope h = rw (not_null, holds, load, h)

  delete_entry-goes :
      (scope : ℕ)
      → stays scope s ≡ false
      → delete_entry scope st p
        ≡ free
            (record st { symtab = (h_remove st.symtab (gen_key s.name s.scope)).0 })
            (h_remove st.symtab (gen_key s.name s.scope)).2
  unfolding delete_entry load
  delete_entry-goes scope h = rw (not_null, holds, load, h)

  free_lem : free st (some p) ≡ ok (record st { heap = write st.heap p none })
  unfolding free load
  free_lem = rw (not_null, holds, load)

write-ne : (heap : Heap) (p q : Ptr) → q ≢ p → write heap p none q ≡ heap q
unfolding write
write-ne heap p q h = ground arith

module _ (scope : ℕ) {st₀ : SymState} (symtab₀ : IsSymtab st₀) where
  module _ (e : Entry Ptr) (es : List (Entry Ptr)) {st : SymState}
      (inv : Swept scope symtab₀ (e ∷ es) st) (listed : Listed scope symtab₀ e)
      (absent : find e.key es ≡ none) (listed_rest : All (Listed scope symtab₀) es) where
    others : All (λ (x : Entry Ptr). x.payload ≢ e.payload) es
    others =
        All-map₂ (λ (x : Entry Ptr). x.payload ≢ e.payload)
          (λ x ne lx same. ne (same_key scope symtab₀ x e lx listed same)) es
          (All-other e.key es absent) listed_rest

    live_rest : All (λ x. write st.heap e.payload none x.payload ≡ st₀.heap x.payload) es
    live_rest =
        All-map₂ (λ x. write st.heap e.payload none x.payload ≡ st₀.heap x.payload)
          (λ x ne live. write-ne st.heap e.payload x.payload ne ∙ live) es others inv.live.1

    spared_rest :
        going scope symtab₀ e.payload ≡ true
        → (p : Ptr) → going scope symtab₀ p ≡ false
        → write st.heap e.payload none p ≡ st₀.heap p
    spared_rest g p gp =
        write-ne st.heap e.payload p
          (λ same. false-ne-true (sym gp ∙ ap (going scope symtab₀) same ∙ g))
        ∙ inv.spared p gp

    step : Returns (Swept scope symtab₀ es) (delete_entry scope st e.payload)
    unfolding free
    step =
        let (s, hs, ks, ne) = symtab₀.keyed e.key e.payload listed in
        let holds : st.heap e.payload ≡ some s = inv.live.0 ∙ hs in
        let g = goes-stays scope symtab₀ e.payload s hs in
        elim (Bool-cases (stays scope s)) [
          | inl stay ↦
              rw (delete_entry-stays st holds ne scope stay)
                (returns (pass_over scope symtab₀ e es inv listed (g ∙ ap not stay)))
          | inr go ↦
              rw (delete_entry-goes st holds ne scope go, ks, (h_remove_lem inv.valid e.key).freed)
                (freed s holds ne (g ∙ ap not go) (h_get st.symtab e.key) refl)
        ]
      where
        freed :
            (s : Symbol)
            → st.heap e.payload ≡ some s
            → e.payload ≢ null
            → going scope symtab₀ e.payload ≡ true
            → (o : Option Ptr) → h_get st.symtab e.key ≡ o
            → Returns
                (Swept scope symtab₀ es)
                (free (record st { symtab = (h_remove st.symtab e.key).0 }) o)
        freed s holds ne g none h =
            returns (take_out scope symtab₀ e es inv listed g st.heap inv.live.1 inv.spared)
        freed s holds ne g (some p) h =
            let same = removed scope symtab₀ e es inv listed g p h in
            rw (same, free_lem (record st { symtab = (h_remove st.symtab e.key).0 }) holds ne)
              (returns (
                take_out scope symtab₀ e es inv listed g (write st.heap e.payload none) live_rest
                  (spared_rest g)))

  sweep :
      (es : List (Entry Ptr)) (st : SymState)
      → Distinct es
      → All (Listed scope symtab₀) es
      → Swept scope symtab₀ es st
      → Returns (Swept scope symtab₀ []) (delete_loop scope (payloads es) st)
  unfolding delete_loop
  sweep [] st d l inv = returns inv
  sweep (e ∷ es) st d l inv =
      Run.bind (step e es inv l.0 d.0 l.1) λ st' inv'. sweep es st' d.1 l.1 inv'

  -- the symbols that a lookup still returns
  abbrev pub remaining : Option Ptr → Option Ptr
  remaining none = none
  remaining (some p) = if going scope symtab₀ p then none else some p

  pub record ScopeDeleted (st : SymState) : Type 0 where
    pub symtab : IsSymtab st
    pub reads : (q : Text) → h_get st.symtab q ≡ remaining (h_get st₀.symtab q)
    pub spared : (p : Ptr) → goes st₀.heap scope p ≡ false → st.heap p ≡ st₀.heap p

  Swept-ScopeDeleted : (st : SymState) → Swept scope symtab₀ [] st → ScopeDeleted st
  unfolding find
  Swept-ScopeDeleted st inv = record {
    symtab = record {
      valid = inv.valid;
      keyed = λ q p h.
          let (s, hs, ks, ne) = symtab₀.keyed q p (inv.sub q p h) in
          (s, inv.spared p (stayed q p h) ∙ hs, ks, ne);
    };
    reads = reads;
    spared = inv.spared;
  }
    where
      stayed : (q : Text) (p : Ptr) → h_get st.symtab q ≡ some p → going scope symtab₀ p ≡ false
      stayed q p h = elim (Bool-cases (going scope symtab₀ p)) [
        | inl g ↦ absurd (none-ne-some (inv.ahead q p h g))
        | inr g ↦ g
      ]

      reads : (q : Text) → h_get st.symtab q ≡ remaining (h_get st₀.symtab q)
      reads q = elim (Option-cases (h_get st.symtab q)) [
        | inr (r, now) ↦ rw (inv.sub q r now, stayed q r now) now
        | inl gone ↦ elim (Option-cases (h_get st₀.symtab q)) [
          | inl never ↦ rw (gone, never)
          | inr (p, was) ↦ elim (Bool-cases (going scope symtab₀ p)) [
            | inl g ↦ rw (gone, was, g)
            | inr g ↦ absurd (none-ne-some (sym gone ∙ inv.kept q p was g))
          ]
        ]
      ]

delete_scope-payloads :
    (scope : ℕ) (st : SymState)
    → delete_scope scope st ≡ delete_loop scope (payloads (all_entries st.symtab)) st
unfolding delete_scope
delete_scope-payloads scope st =
    ap (λ (l : List Ptr). delete_loop scope l st)
      (ap (λ (r : ℕ × List Ptr × ℕ). r.1) (ht_to_list-contents st.symtab)
        ∙ sym (payloads-all_entries st.symtab))

-- In a well-formed symbol table where, within each bucket, the symbols that are to go stand behind
-- those that are to stay, delete_scope runs without touching freed memory. Afterwards a key reads
-- what it read before if that symbol stays (its scope is smaller, or it is a parameter) and NULL
-- otherwise; the table is well formed again, and no symbol that stays is changed.
pub delete_scope_lem :
    (scope : ℕ) {st : SymState} (symtab : IsSymtab st)
    → ((i : ℕ) → KeptFirst (goes st.heap scope) (entries (slot st.symtab i)))
    → Returns (ScopeDeleted scope symtab) (delete_scope scope st)
delete_scope_lem scope {st} symtab kept_first =
    let es = all_entries st.symtab in
    let distinct = all_entries-Distinct symtab.valid in
    let found = λ (q : Text). h_get-all_entries symtab.valid q in
    rw (delete_scope-payloads) (
      Run.mono
        (sweep scope symtab es st distinct (All-find_first found es distinct) (record {
          valid = symtab.valid;
          kept_first = kept_first;
          sub = λ q p h. h;
          kept = λ q p h g. h;
          ahead = λ q p h g. sym (found q) ∙ h;
          live = All-refl es;
          spared = λ p g. refl;
        }))
        (Swept-ScopeDeleted scope symtab))
  where
    All-refl : (es : List (Entry Ptr)) → All (Untouched scope symtab st) es
    All-refl [] = tt
    All-refl (e ∷ es) = (refl, All-refl es)

    All-find_first :
        ((q : Text) → h_get st.symtab q ≡ find q (all_entries st.symtab))
        → (es : List (Entry Ptr)) → Distinct (all_entries st.symtab)
        → All (Listed scope symtab) (all_entries st.symtab)
    All-find_first found es d =
        All-imp (all_entries st.symtab)
          (All-find (all_entries st.symtab) (all_entries st.symtab) d (λ q x h. h))
      where
        All-imp :
            (es : List (Entry Ptr))
            → All (λ (e : Entry Ptr). find e.key (all_entries st.symtab) ≡ some e.payload) es
            → All (Listed scope symtab) es
        All-imp [] a = tt
        All-imp (e ∷ es) a = (found e.key ∙ a.0, All-imp es a.1)
