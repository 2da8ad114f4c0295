-- ===== src/SymbolTable/Sweep.antt =====
-- delete_scope of Assig4/symboltable.c. It removes one symbol after another from the table that it
-- has listed, and frees each; a removal at the head of a bucket takes the rest of the bucket along.
use c.Base.{
  ◌&&◌, leb, false-ne-true, zero, suc, ℕ, ◌≡◌, ◌≢◌, refl, sym, ap, ◌∙◌, inl, inr, Bool, true, false,
  not, Option, none, some, List, [], ◌∷◌, arith, if◌then◌else◌, is_some, ◌==◌, ==_iff, Text, streq,
  streq_refl, streq→eq, Bool-cases, Option-cases,
}
use c.HashTable.{Entry, Table, hash, entries, slot, ll_search, unlink, h_get, h_remove}
use c.HashTable.Chain.{All, find, All-unlink}
use c.HashTable.Slot.{IsValid, home, home_congr, h_get-find}
use c.HashTable.Remove.{
  is_first, is_first-map-suc, is_head, is_head-is_some, is_head-is_first, Removes, h_remove_lem,
  h_remove_preserves,
}
use c.SymbolTable.{
  parameter, array, function, plain, Kind, is_parameter, Ptr, null, Heap, Symbol, SymState, gen_key,
  stays,
}

-- `p` is a live symbol whose key is `q`
abbrev pub Keyed : Heap → Text → Ptr → Type 0
Keyed heap q p = (s : Symbol) × (heap p ≡ some s) × (gen_key s.name s.scope ≡ q) × (p ≢ null)

-- the table is valid, and every symbol in it is live and stands under its own key
pub record IsSymtab (st : SymState) : Type 0 where
  pub valid : IsValid st.symtab
  pub keyed : (q : Text) (p : Ptr) → h_get st.symtab q ≡ some p → Keyed st.heap q p

abbrev pub is_variable : Kind → Bool
is_variable parameter = false
is_variable plain = true
is_variable function = true
is_variable array = true

-- what is declared in the scope or in one inside it, parameters apart
unfoldable pub is_local : ℕ → Symbol → Bool
is_local scope s = leb scope s.scope && is_variable s.kind

is_parameter-is_variable : (k : Kind) → is_parameter k ≡ not (is_variable k)
unfolding is_parameter
is_parameter-is_variable parameter = refl
is_parameter-is_variable plain = refl
is_parameter-is_variable function = refl
is_parameter-is_variable array = refl

pub is_local-stays : (scope : ℕ) (s : Symbol) → stays scope s ≡ not (is_local scope s)
unfolding stays is_local
is_local-stays scope s = ground (arith, is_parameter-is_variable s.kind)

-- delete_scope is to take the symbol out
unfoldable pub goes : Heap → ℕ → Ptr → Bool
goes heap scope p = elim (heap p) [ none ↦ false | some s ↦ is_local scope s ]

pub goes-is_local :
    (heap : Heap) (scope : ℕ) (p : Ptr) (s : Symbol)
    → heap p ≡ some s
    → goes heap scope p ≡ is_local scope s
unfolding goes
goes-is_local heap scope p s h = ground arith

module _ (going : Ptr → Bool) where
  abbrev pub AllGo : List (Entry Ptr) → Type 0
  AllGo es = All (λ (e : Entry Ptr). going e.payload ≡ true) es

  -- behind an entry that goes stand only entries that go
  abbrev pub KeptFirst : List (Entry Ptr) → Type 0
  KeptFirst [] = Unit
  KeptFirst (e ∷ es) = (going e.payload ≡ true → AllGo es) × KeptFirst es

  AllGo-find :
      (q : Text) (es : List (Entry Ptr)) (p : Ptr) → AllGo es → find q es ≡ some p → going p ≡ true
  unfolding find
  AllGo-find q [] p a h = cc
  AllGo-find q (e ∷ es) p a h = elim (Bool-cases (streq e.key q)) [
    | inl same ↦ ground (arith, a.0)
    | inr other ↦ AllGo-find q es p a.1 (rw other at h)
  ]

  -- if the first entry goes, so does the whole bucket
  head_goes :
      (k q : Text) (es : List (Entry Ptr)) (p r : Ptr)
      → KeptFirst es
      → is_first (ll_search es k) ≡ true
      → find k es ≡ some p
      → going p ≡ true
      → find q es ≡ some r
      → going r ≡ true
  unfolding find ll_search
  head_goes k q [] p r s f h g h' = cc
  head_goes k q (e ∷ es) p r s f h g h' = elim (Bool-cases (streq e.key k)) [
    | inl same ↦
        let ge : going e.payload ≡ true = ground arith in AllGo-find q (e ∷ es) r (ge, s.0 ge) h'
    | inr other ↦ absurd (false-ne-true (sym (is_first-map-suc (ll_search es k)) ∙ (rw other at f)))
  ]

module _ {t : Table Ptr} (going : Ptr → Bool) (valid : IsValid t)
    (kept_first : (i : ℕ) → KeptFirst going (entries (slot t i))) where
  KeptFirst-unlink_All :
      (es : List (Entry Ptr)) (p : ℕ) → AllGo going es → AllGo going (unlink es p)
  KeptFirst-unlink_All es p a = All-unlink (λ e. going e.payload ≡ true) es p a

  KeptFirst-unlink :
      (es : List (Entry Ptr)) (p : ℕ) → KeptFirst going es → KeptFirst going (unlink es p)
  unfolding unlink
  KeptFirst-unlink [] p s = s
  KeptFirst-unlink (e ∷ es) zero s = s.1
  KeptFirst-unlink (e ∷ es) (suc p) s =
      (λ g. KeptFirst-unlink_All es p (s.0 g), KeptFirst-unlink es p s.1)

  pub h_remove-KeptFirst : (k : Text) (i : ℕ) → KeptFirst going (entries (slot (h_remove t k).0 i))
  h_remove-KeptFirst k = h_remove_preserves (KeptFirst going) k valid tt KeptFirst-unlink kept_first

  -- removing a symbol that goes
  module _ (k : Text) (removed : (p : Ptr) → h_get t k ≡ some p → going p ≡ true) where
    removes : Removes t k (h_remove t k)
    removes = h_remove_lem valid k

    pub removed-reads_none : h_get (h_remove t k).0 k ≡ none
    removed-reads_none =
        rw (removes.reads k, streq_refl k, (==_iff (hash k) (hash k)).1 refl) (both (is_head t k))
      where
        both : (b : Bool) → ◌≡◌ {A = Option Ptr} (if b then none else none) none
        both true = refl
        both false = refl

    pub removed-sub : (q : Text) (p : Ptr) → h_get (h_remove t k).0 q ≡ some p → h_get t q ≡ some p
    removed-sub q p h = ground (arith, removes.reads q)

    pub removed-keeps :
        (q : Text) (p : Ptr)
        → h_get t q ≡ some p
        → going p ≡ false
        → h_get (h_remove t k).0 q ≡ some p
    removed-keeps q p h g = elim (Bool-cases (is_head t k)) [
      | inr later ↦
          rw (removes.reads q, later)
            (elim (Bool-cases (streq q k)) [
              | inl same ↦
                  let r = removed p (ap (h_get t) (sym (streq→eq q k same)) ∙ h) in
                  absurd (false-ne-true (sym g ∙ r))
              | inr other ↦ rw other h
            ])
      | inl first ↦
          rw (removes.reads q, first)
            (elim (Bool-cases (hash k == hash q)) [
              | inl same ↦ absurd (false-ne-true (sym g ∙ bucket_goes first same))
              | inr other ↦ rw other h
            ])
    ]
      where
        bucket_goes : is_head t k ≡ true → (hash k == hash q) ≡ true → going p ≡ true
        bucket_goes first same = elim (Option-cases (h_get t k)) [
          | inl absent ↦
              absurd (false-ne-true (sym (ap is_some absent) ∙ is_head-is_some t k first))
          | inr (r, present) ↦
              head_goes going k q (home t k) r p (kept_first (hash k))
                (sym (is_head-is_first t k) ∙ first) (sym (h_get-find t k) ∙ present)
                (removed r present) (ap (find q) (home_congr t k q same) ∙ sym (h_get-find t q) ∙ h)
        ]
