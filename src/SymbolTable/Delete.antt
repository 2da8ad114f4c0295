-- ===== src/SymbolTable/Delete.antt =====
-- The loop of delete_scope of Assig4/symboltable.c, and what it leaves.
use c.Base.{
  refl, none-ne-some, some-injective, ℕ, ◌≡◌, sym, ap, ◌∙◌, inl, inr, Bool, true, false, not, none,
  some, List, ◌∷◌, arith, Text, streq, streq→eq, Bool-cases,
}
use c.HashTable.{Entry, entries, slot, h_get, h_remove}
use c.HashTable.Chain.{All, find}
use c.HashTable.Slot.{IsValid}
use c.HashTable.Remove.{h_remove_lem}
use c.SymbolTable.{Ptr, Heap, Symbol, SymState, gen_key, stays}
use c.SymbolTable.Sweep.{
  is_local-stays, is_local, goes-is_local, IsSymtab, goes, KeptFirst, h_remove-KeptFirst,
  removed-reads_none, removed-sub, removed-keeps,
}

module _ (scope : ℕ) {st₀ : SymState} (symtab₀ : IsSymtab st₀) where
  abbrev pub going : Ptr → Bool
  going = goes st₀.heap scope

  abbrev pub Listed : Entry Ptr → Type 0
  Listed e = h_get st₀.symtab e.key ≡ some e.payload

  abbrev pub Untouched : SymState → Entry Ptr → Type 0
  Untouched st e = st.heap e.payload ≡ st₀.heap e.payload

  -- the state while the entries `es` are still to come
  pub record Swept (es : List (Entry Ptr)) (st : SymState) : Type 0 where
    pub valid : IsValid st.symtab
    pub kept_first : (i : ℕ) → KeptFirst going (entries (slot st.symtab i))
    pub sub : (q : Text) (p : Ptr) → h_get st.symtab q ≡ some p → h_get st₀.symtab q ≡ some p
    pub kept :
        (q : Text) (p : Ptr)
        → h_get st₀.symtab q ≡ some p
        → going p ≡ false
        → h_get st.symtab q ≡ some p
    pub ahead :
        (q : Text) (p : Ptr) → h_get st.symtab q ≡ some p → going p ≡ true → find q es ≡ some p
    pub live : All (Untouched st) es
    pub spared : (p : Ptr) → going p ≡ false → st.heap p ≡ st₀.heap p

  -- two listed entries with one address have one key
  pub same_key : (e x : Entry Ptr) → Listed e → Listed x → e.payload ≡ x.payload → e.key ≡ x.key
  same_key e x le lx h =
      let (s, hs, ks, _) = symtab₀.keyed e.key e.payload le in
      let (r, hr, kr, _) = symtab₀.keyed x.key x.payload lx in
      let sr : s ≡ r = some-injective (sym hs ∙ ap st₀.heap h ∙ hr) in
      sym ks ∙ ap (λ (z : Symbol). gen_key z.name z.scope) sr ∙ kr

  not-not : (b : Bool) → not (not b) ≡ b
  not-not true = refl
  not-not false = refl

  pub goes-stays : (p : Ptr) (s : Symbol) → st₀.heap p ≡ some s → going p ≡ not (stays scope s)
  unfolding goes
  goes-stays p s h =
      goes-is_local st₀.heap scope p s h
      ∙ sym (not-not (is_local scope s))
      ∙ sym (ap not (is_local-stays scope s))

  module _ (e : Entry Ptr) (es : List (Entry Ptr)) {st : SymState} (inv : Swept (e ∷ es) st)
      (listed : Listed e) where
    -- an entry that stays is passed over
    pub pass_over : going e.payload ≡ false → Swept es st
    unfolding find
    pass_over g = record {
      valid = inv.valid;
      kept_first = inv.kept_first;
      sub = inv.sub;
      kept = inv.kept;
      ahead = λ q p h gp. elim (Bool-cases (streq e.key q)) [
        | inl same ↦ ground (arith, inv.ahead q p h gp)
        | inr other ↦ (rw other at (inv.ahead q p h gp))
      ];
      live = inv.live.1;
      spared = inv.spared;
    }

    -- an entry that goes is removed, and its symbol freed if the table still held it
    abbrev pub after : SymState
    after = record st { symtab = (h_remove st.symtab e.key).0 }

    pub removed :
        going e.payload ≡ true → (p : Ptr) → h_get st.symtab e.key ≡ some p → p ≡ e.payload
    removed g p h = some-injective (sym (inv.sub e.key p h) ∙ listed)

    pub take_out :
        going e.payload ≡ true
        → (heap : Heap) → All (λ x. heap x.payload ≡ st₀.heap x.payload) es
        → ((p : Ptr) → going p ≡ false → heap p ≡ st₀.heap p)
        → Swept es (record after { heap = heap })
    unfolding find
    take_out g heap live spared = record {
      valid = (h_remove_lem inv.valid e.key).valid;
      kept_first = h_remove-KeptFirst going inv.valid inv.kept_first e.key;
      sub = λ q p h. inv.sub q p (sub q p h);
      kept = λ q p h gp. keeps q p (inv.kept q p h gp) gp;
      ahead = λ q p h gp. elim (Bool-cases (streq e.key q)) [
        | inl same ↦
            absurd
              (none-ne-some (sym none_now ∙ ap (h_get after.symtab) (streq→eq e.key q same) ∙ h))
        | inr other ↦ (rw other at (inv.ahead q p (sub q p h) gp))
      ];
      live = live;
      spared = spared;
    }
      where
        went : (p : Ptr) → h_get st.symtab e.key ≡ some p → going p ≡ true
        went p h = ap going (removed g p h) ∙ g

        sub : (q : Text) (p : Ptr) → h_get after.symtab q ≡ some p → h_get st.symtab q ≡ some p
        sub = removed-sub going inv.valid inv.kept_first e.key went

        keeps :
            (q : Text) (p : Ptr)
            → h_get st.symtab q ≡ some p
            → going p ≡ false
            → h_get after.symtab q ≡ some p
        keeps = removed-keeps going inv.valid inv.kept_first e.key went

        none_now : h_get after.symtab e.key ≡ none
        none_now = removed-reads_none going inv.valid inv.kept_first e.key went
