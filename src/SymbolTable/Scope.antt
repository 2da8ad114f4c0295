-- ===== src/SymbolTable/Scope.antt =====
-- Lookups through the scopes, and insert_symbol, of Assig4/symboltable.c.
use c.Base.{
  lt→ltb, false, length, ltb, false-ne-true, some-injective, ℕ, zero, suc, ◌≤◌, ◌<◌, ◌≡◌, ◌≢◌, refl,
  sym, ap, ◌∙◌, inl, inr, Bool, true, not, ◌&&◌, Option, none, some, arith, if◌then◌else◌, is_some,
  ◌==◌, ==_iff, Text, streq, streq_refl, streq→eq, Bool-cases,
}
use c.Base.Run.{out_of_bounds, fault, ok, Returns, returns}
use c.Base.Decimal.{no_digit_first}
use c.HashTable.{Table, h_get, h_insert}
use c.HashTable.Insert.{or_else, Inserts, h_insert_lem}
use c.SymbolTable.{
  symtab_key_siz, Ptr, null, Symbol, SymState, write, load, store, gen_key, default_place,
  insert_symbol, lookup_symtab, lookup_symtab_prevscope,
}
use c.SymbolTable.Key.{gen_key-injective}
use c.SymbolTable.Sweep.{Keyed, IsSymtab}

module _ (st : SymState) (name : Text) where
  -- `p` is declared under the name in scope `r`, and in no scope behind it up to `scope`
  pub record Innermost (scope : ℕ) (p : Ptr) : Type 0 where
    pub at : ℕ
    pub within : at ≤ scope
    pub declared : lookup_symtab st name at ≡ some p
    pub hidden : (r : ℕ) → at < r → r ≤ scope → lookup_symtab st name r ≡ none

  abbrev pub Resolves : ℕ → Option Ptr → Type 0
  Resolves scope none = (r : ℕ) → r ≤ scope → lookup_symtab st name r ≡ none
  Resolves scope (some p) = Innermost scope p

  outward :
      (scope : ℕ) (o : Option Ptr)
      → lookup_symtab st name (suc scope) ≡ none
      → Resolves scope o
      → Resolves (suc scope) o
  outward scope none h res = λ r le. elim (Bool-cases (r == suc scope)) [
    | inl here ↦ rw ((==_iff r (suc scope)).0 here) h
    | inr below ↦ res r (ground arith)
  ]
  outward scope (some p) h res = record {
    at = res.at;
    within = omega (arith, res.within);
    declared = res.declared;
    hidden = λ r lt le. elim (Bool-cases (r == suc scope)) [
      | inl here ↦ rw ((==_iff r (suc scope)).0 here) h
      | inr below ↦ res.hidden r lt (ground arith)
    ];
  }

  -- lookup_symtab_prevscope ends in every case. It returns the symbol of the innermost scope, at
  -- most the given one, that declares the name, and NULL only if none of these scopes does.
  pub lookup_symtab_prevscope_lem :
      (scope : ℕ) → Resolves scope (lookup_symtab_prevscope st name scope)
  unfolding lookup_symtab_prevscope lookup_symtab
  lookup_symtab_prevscope_lem zero = start (h_get st.symtab (gen_key name 0)) refl
    where
      start : (o : Option Ptr) → h_get st.symtab (gen_key name 0) ≡ o → Resolves 0 o
      start none h = λ r le. let e : r ≡ 0 = omega arith in rw e h
      start (some p) h = record {
        at = 0;
        within = omega arith;
        declared = h;
        hidden = λ r lt le. absurd (omega arith);
      }
  lookup_symtab_prevscope_lem (suc scope) =
      next (lookup_symtab_prevscope_lem scope) (h_get st.symtab (gen_key name (suc scope))) refl
    where
      next :
          Resolves scope (lookup_symtab_prevscope st name scope)
          → (o : Option Ptr) → h_get st.symtab (gen_key name (suc scope)) ≡ o
          → Resolves
              (suc scope)
              (elim o [ some p ↦ some p | none ↦ lookup_symtab_prevscope st name scope ])
      next ih none h = outward scope (lookup_symtab_prevscope st name scope) h ih
      next ih (some p) h = record {
        at = suc scope;
        within = omega arith;
        declared = h;
        hidden = λ r lt le. absurd (omega arith);
      }

-- the name and the scope are the inserted ones
abbrev pub is_same : Text → ℕ → Text → ℕ → Bool
is_same name scope n r = streq n name && r == scope

is_same-eq :
    (name : Text) (scope : ℕ) (n : Text) (r : ℕ)
    → is_same name scope n r ≡ true
    → (n ≡ name) × (r ≡ scope)
is_same-eq name scope n r h = (streq→eq n name (ground arith), ground arith)

-- what insert_symbol(p, scope) leaves, where `s` is the symbol at `p`, and what it makes of a lookup
-- of `name` in a scope
pub record Inserted (st : SymState) (p : Ptr) (s : Symbol) (name : Text) (scope : ℕ)
    (r : SymState × Bool) : Type 0 where
  pub symtab : IsSymtab r.0
  pub flag : r.1 ≡ not (is_some (lookup_symtab st s.name s.scope))
  pub reads : lookup_symtab r.0 name scope ≡ (
      if is_same s.name s.scope name scope
      then some (or_else (lookup_symtab st s.name s.scope) p)
      else lookup_symtab st name scope)
  pub placed : r.0.heap p ≡ some (record s { place = default_place s.name })
  pub spared : (q : Ptr) → q ≢ p → r.0.heap q ≡ st.heap q

module _ {st : SymState} (symtab : IsSymtab st) (p : Ptr) (s : Symbol) (holds : st.heap p ≡ some s)
    (ne : p ≢ null) (fits : length (gen_key s.name s.scope) < symtab_key_siz) where
  unfoldable pub named : SymState
  named = store st p (record s { place = default_place s.name })

  unfoldable pub after : Table Ptr × Bool
  after = h_insert st.symtab (gen_key s.name s.scope) p

  inserts : Inserts st.symtab (gen_key s.name s.scope) p after
  unfolding after
  inserts = h_insert_lem symtab.valid (gen_key s.name s.scope) p

  pub insert_symbol-ok :
      insert_symbol st p s.scope ≡ ok (record named { symtab = after.0 }, after.1)
  unfolding insert_symbol load named after
  insert_symbol-ok =
      rw (holds, load, lt→ltb (length (gen_key s.name s.scope)) symtab_key_siz fits) refl

  pub named-p : named.heap p ≡ some (record s { place = default_place s.name })
  unfolding named store write
  named-p = ground arith

  pub named-other : (q : Ptr) → q ≢ p → named.heap q ≡ st.heap q
  unfolding named store write
  named-other q h = ground arith

  named-Keyed : (q : Text) (r : Ptr) → Keyed st.heap q r → Keyed named.heap q r
  unfolding named store write
  named-Keyed q r (z, hz, kz, nz) = elim (Bool-cases (r == p)) [
    | inl same ↦
        let e : r ≡ p = (==_iff r p).0 same in
        let zs : z ≡ s = some-injective (sym hz ∙ ap st.heap e ∙ holds) in
        (
          record s { place = default_place s.name },
          rw same,
          ap (λ (y : Symbol). gen_key y.name y.scope) (sym zs) ∙ kz,
          nz,
        )
    | inr other ↦ (z, rw other hz, kz, nz)
  ]

  known :
      (q : Text) (r : Ptr)
      → q ≡ gen_key s.name s.scope
      → (o : Option Ptr) → h_get st.symtab (gen_key s.name s.scope) ≡ o
      → some (or_else o p) ≡ some r
      → Keyed named.heap q r
  known q r e none h x =
      rw (← some-injective x) (record s { place = default_place s.name }, named-p, sym e, ne)
  known q r e (some y) h x =
      rw (← some-injective x) (named-Keyed q y (rw e (symtab.keyed (gen_key s.name s.scope) y h)))

  after-Keyed : (q : Text) (r : Ptr) → h_get after.0 q ≡ some r → Keyed named.heap q r
  after-Keyed q r h = elim (Bool-cases (streq q (gen_key s.name s.scope))) [
    | inr other ↦ named-Keyed q r (symtab.keyed q r (sym (rw other at (inserts.reads q)) ∙ h))
    | inl same ↦
        known q r (streq→eq q _ same) (h_get st.symtab (gen_key s.name s.scope)) refl
          (rw same at (sym (inserts.reads q) ∙ h))
  ]

  reads_at :
      (n : Text) (r : ℕ)
      → no_digit_first s.name ≡ true
      → no_digit_first n ≡ true
      → streq (gen_key n r) (gen_key s.name s.scope) ≡ is_same s.name s.scope n r
  reads_at n r hs hn = elim (Bool-cases (streq (gen_key n r) (gen_key s.name s.scope))) [
    | inl same ↦
        let (en, er) = gen_key-injective n s.name r s.scope hn hs (streq→eq _ _ same) in
        rw same (rw (en, er, streq_refl) (ground arith))
    | inr other ↦ elim (Bool-cases (is_same s.name s.scope n r)) [
      | inr differs ↦ rw (other, differs)
      | inl both ↦
          let (en, er) = is_same-eq s.name s.scope n r both in
          absurd (false-ne-true (sym other ∙ rw (en, er) (streq_refl (gen_key s.name s.scope))))
    ]
  ]

  -- insert_symbol, called with the scope that the symbol records, does not fault where the key of the
  -- symbol fits its buffer of SYMTAB_KEY_SIZ bytes. It keeps the symbol table well formed and returns
  -- true exactly when that scope does not yet declare the name; where neither the name nor the one that
  -- is looked up begins with a digit, the lookup finds the new symbol under its name and scope, or the one
  -- that was declared there before, and every other name and scope is looked up as before. It writes the
  -- default place into the symbol, and changes no other symbol.
  pub insert_symbol_lem :
      (name : Text) (scope : ℕ)
      → no_digit_first s.name ≡ true
      → no_digit_first name ≡ true
      → Returns (Inserted st p s name scope) (insert_symbol st p s.scope)
  unfolding lookup_symtab
  insert_symbol_lem name scope hs hn = rw insert_symbol-ok (
      returns (record {
        symtab = record { valid = inserts.valid; keyed = after-Keyed };
        flag = inserts.flag;
        reads = inserts.reads (gen_key name scope) ∙ rw (reads_at name scope hs hn);
        placed = named-p;
        spared = named-other;
      }))

insert_symbol_long :
    (st : SymState) (p : Ptr) (s : Symbol)
    → st.heap p ≡ some s
    → ltb (length (gen_key s.name s.scope)) symtab_key_siz ≡ false
    → insert_symbol st p s.scope ≡ fault out_of_bounds
unfolding insert_symbol load
insert_symbol_long st p s holds x = rw (holds, load, x) refl

-- a call that does not fault has a key that fits
pub insert_symbol-fits :
    (st : SymState) {r : SymState × Bool} (p : Ptr) (s : Symbol)
    → st.heap p ≡ some s
    → insert_symbol st p s.scope ≡ ok r
    → length (gen_key s.name s.scope) < symtab_key_siz
insert_symbol-fits st {r} p s holds e =
    elim (Bool-cases (ltb (length (gen_key s.name s.scope)) symtab_key_siz)) [
      | inl x ↦ ground arith
      | inr x ↦ absurd (no_fault (sym (too_long x) ∙ e))
    ]
  where
    too_long :
        ltb (length (gen_key s.name s.scope)) symtab_key_siz ≡ false
        → insert_symbol st p s.scope ≡ fault out_of_bounds
    too_long x = insert_symbol_long st p s holds x

    no_fault : fault out_of_bounds ≡ ok r → ⊥
    no_fault e = cc
