-- ===== src/Frequency/Count.antt =====
-- The frequencies that assignment1/symboltable.c keeps against the occurrences in the input.
use c.Base.{
  ℕ, zero, suc, ◌+◌, ◌<◌, ◌≡◌, refl, sym, ap, ◌∙◌, Bool, false, Option, none, some, List, [], ◌∷◌,
  arith, if◌then◌else◌, length, inl, inr, Bool-cases, Option-cases, Text, streq, streq→eq,
  streq_refl, ◌==◌, ==_iff, get_elem?, some-injective, none-ne-some,
}
use c.Base.Run.{ok, ◌>>=◌, Returns, returns, bind}
use c.HashTable
use c.SizedTable
use c.SizedTable.{Global}
use c.SizedTable.Invariant.{IsCounted, total, h_get-HashTable}
use c.Frequency.{Symbol, Symtab, sym_name_len, add_freq, insert_id}

-- the frequency behind a pointer
abbrev pub freq_at : List Symbol → Option ℕ → ℕ
freq_at symbols none = 0
freq_at symbols (some p) = elim (get_elem? symbols p) [ none ↦ 0 | some s ↦ s.freq ]

at_freq : Option Symbol → ℕ
at_freq none = 0
at_freq (some s) = s.freq

freq_at-some :
    (symbols : List Symbol) (p : ℕ) → freq_at symbols (some p) ≡ at_freq (get_elem? symbols p)
unfolding at_freq
freq_at-some symbols p = by_cell (get_elem? symbols p)
  where
    by_cell : (o : Option Symbol) → (elim o [ none ↦ 0 | some s ↦ s.freq ]) ≡ at_freq o
    by_cell none = refl
    by_cell (some s) = refl

pub freq_some :
    (symbols : List Symbol) (p : ℕ) (s : Symbol)
    → get_elem? symbols p ≡ some s
    → freq_at symbols (some p) ≡ s.freq
unfolding at_freq
freq_some symbols p s h = freq_at-some symbols p ∙ ap at_freq h

pub freq_same :
    (symbols r : List Symbol) (p : ℕ)
    → get_elem? r p ≡ get_elem? symbols p
    → freq_at r (some p) ≡ freq_at symbols (some p)
freq_same symbols r p h = freq_at-some r p ∙ ap at_freq h ∙ sym (freq_at-some symbols p)

-- the frequency that the table holds for a name
unfoldable pub frequency : Symtab → Text → ℕ
unfolding SizedTable.h_get
frequency st q = freq_at st.symbols (SizedTable.h_get st.table q)

-- every identifier fits `name`, and the block that malloc gives for its length has a byte more
abbrev pub Short : (usable : ℕ → ℕ) → List Text → Type 0
Short usable [] = Unit
Short usable (text ∷ texts) =
    (length text < sym_name_len) × (length text < usable (length text)) × Short usable texts

-- every pointer of the table leads to the symbol of its key, and the three counters agree
pub record IsLinked (st : Symtab) : Type 0 where
  pub counted : IsCounted st.table
  pub sizes : total st.table.h_table ≡ st.table.ht_size
  pub ids : st.num_ids ≡ st.table.ht_size
  pub linked :
      (q : Text) (p : ℕ)
      → HashTable.h_get st.table.h_table q ≡ some p
      → (s : Symbol) × (get_elem? st.symbols p ≡ some s) × (s.name ≡ q)

-- the symbols after `sym->freq ++`
pub record Used (symbols : List Symbol) (p : ℕ) (s : Symbol) (r : List Symbol) : Type 0 where
  pub at : get_elem? r p ≡ some (record s { freq = s.freq + 1 })
  pub others : (i : ℕ) → (p == i) ≡ false → get_elem? r i ≡ get_elem? symbols i

pub add_freq_lem :
    (symbols : List Symbol) (p : ℕ) (s : Symbol)
    → get_elem? symbols p ≡ some s
    → Returns (Used symbols p s) (add_freq symbols p)
unfolding add_freq
add_freq_lem [] p s h = cc
add_freq_lem (x ∷ symbols) zero s h = returns (record {
  at = ap (λ (y : Symbol). some (record y { freq = y.freq + 1 })) (some-injective h);
  others = λ i. other i;
})
  where
    other :
        (i : ℕ)
        → (0 == i) ≡ false
        → get_elem? (record x { freq = x.freq + 1 } ∷ symbols) i ≡ get_elem? (x ∷ symbols) i
    other zero ne = absurd (ground arith)
    other (suc i) ne = refl
add_freq_lem (x ∷ symbols) (suc p) s h =
    bind (add_freq_lem symbols p s h)
      (λ r is. returns (record { at = is.at; others = λ i. other r is i }))
  where
    other :
        (r : List Symbol)
        → Used symbols p s r
        → (i : ℕ) → (suc p == i) ≡ false
        → get_elem? (x ∷ r) i ≡ get_elem? (x ∷ symbols) i
    other r is zero ne = refl
    other r is (suc i) ne = is.others i (ground arith)

pub frequency_lem :
    (st : Symtab) (q : Text)
    → frequency st q ≡ freq_at st.symbols (HashTable.h_get st.table.h_table q)
unfolding frequency
frequency_lem st q = ap (freq_at st.symbols) (h_get-HashTable st.table q)

-- one more occurrence of `text`
abbrev pub Counts : Symtab → Text → Symtab → Type 0
Counts st text r =
    IsLinked r × ((q : Text) → frequency r q ≡ frequency st q + (if streq text q then 1 else 0))

module _ (usable : ℕ → ℕ) (st : Symtab) (is : IsLinked st) (text : Text) where
  seen_round :
      (p : ℕ)
      → SizedTable.h_get st.table text ≡ some p
      → insert_id usable st text
        ≡ (add_freq st.symbols p >>= λ symbols. ok (record st { symbols = symbols }))
  unfolding insert_id
  seen_round p h = rw (insert_id, h)

  streq_apart :
      (q : Text) (p i : ℕ)
      → HashTable.h_get st.table.h_table text ≡ some p
      → HashTable.h_get st.table.h_table q ≡ some i
      → streq text q ≡ false
      → (p == i) ≡ false
  streq_apart q p i h h' differ = elim (Bool-cases (p == i)) [
    | inr x ↦ x
    | inl x ↦
        let (s, at, named) = is.linked text p h in
        let (s', at', named') = is.linked q i h' in
        let same : s ≡ s' =
          some-injective (sym at ∙ ap (get_elem? st.symbols) ((==_iff p i).0 x) ∙ at') in
        let eq : text ≡ q = sym named ∙ ap (λ (y : Symbol). y.name) same ∙ named' in
        absurd (
          none-ne-some (
            ap (λ (b : Bool). if b then some b else none)
              (sym differ ∙ ap (streq text) (sym eq) ∙ streq_refl text)))
  ]

  -- the symbol of each key after a use of the one at `p`
  linked-Used :
      (p : ℕ) (s : Symbol) (r : List Symbol)
      → get_elem? st.symbols p ≡ some s
      → Used st.symbols p s r
      → (q : Text) (i : ℕ) → HashTable.h_get st.table.h_table q ≡ some i
      → (s' : Symbol) × (get_elem? r i ≡ some s') × (s'.name ≡ q)
  linked-Used p s r at used q i h' =
      let (s', at', named') = is.linked q i h' in
      elim (Bool-cases (p == i)) [
        | inl x ↦
            let p-i = (==_iff p i).0 x in
            let same : s ≡ s' = some-injective (sym at ∙ ap (get_elem? st.symbols) p-i ∙ at') in
            (
              record s { freq = s.freq + 1 },
              ap (get_elem? r) (sym p-i) ∙ used.at,
              ap (λ (y : Symbol). y.name) same ∙ named',
            )
        | inr x ↦ (s', used.others i x ∙ at', named')
      ]

  reads-Used :
      (p : ℕ) (s : Symbol) (r : List Symbol)
      → HashTable.h_get st.table.h_table text ≡ some p
      → get_elem? st.symbols p ≡ some s
      → Used st.symbols p s r
      → (q : Text)
      → freq_at r (HashTable.h_get st.table.h_table q)
        ≡ freq_at st.symbols (HashTable.h_get st.table.h_table q) + (if streq text q then 1 else 0)
  reads-Used p s r h at used q = elim (Bool-cases (streq text q)) [
    | inl x ↦
        rw (x, ← streq→eq text q x, h)
          (freq_some r p _ used.at ∙ ap (λ n. n + 1) (sym (freq_some st.symbols p s at)))
    | inr x ↦ rw x (elim (Option-cases (HashTable.h_get st.table.h_table q)) [
      | inl none_q ↦ rw none_q refl
      | inr (i, h') ↦
          rw h' (freq_same st.symbols r i (used.others i (streq_apart q p i h h' x)) ∙ omega arith)
    ])
  ]

  pub seen :
      (p : ℕ)
      → HashTable.h_get st.table.h_table text ≡ some p
      → Returns (Counts st text) (insert_id usable st text)
  seen p h =
      let (s, at, named) = is.linked text p h in
      rw (seen_round p (h_get-HashTable st.table text ∙ h)) (
        bind (add_freq_lem st.symbols p s at) (λ r used. returns (
          record {
            counted = is.counted;
            sizes = is.sizes;
            ids = is.ids;
            linked = linked-Used p s r at used;
          },
          λ q. rw (frequency_lem, frequency_lem) (reads-Used p s r h at used q),
        )))
