-- ===== src/Frequency/Grow.antt =====
-- insert_id of assignment1/symboltable.c for a new name, and the scanner's calls of it.
use c.Base.{
  get_elem?-append_left, get_elem?-append_last, get_elem?-lt, streq_symm, ℕ, suc, ◌+◌, ◌<◌, ◌≡◌,
  refl, sym, ap, ◌∙◌, Bool, true, none, some, List, [], ◌∷◌, ◌++◌, arith, if◌then◌else◌, length,
  inl, inr, Bool-cases, Option-cases, Text, streq, streq→eq, streq_refl, get_elem?, lt→ltb,
  some-injective, none-ne-some,
}
use c.Base.Run.{ok, ◌>>=◌, Returns, returns, bind, mono}
use c.HashTable
use c.HashTable.Insert.{h_init-h_get, h_init-h_get, h_insert_lem}
use c.IdTable.Count.{occurrences}
use c.SizedTable
use c.SizedTable.{Global}
use c.SizedTable.Invariant.{
  h_insert-copied, total, total-h_insert, insert_copied-HashTable, h_get-HashTable,
  insert_copied-IsCounted, h_init-IsCounted,
}
use c.Frequency.{
  Symbol, Symtab, sym_name_len, new_symbol, add_freq, init_symtab, count_use, insert_id, insert_ids,
}
use c.Frequency.Count.{
  freq_at, frequency, frequency_lem, freq_some, freq_same, Short, IsLinked, Used, add_freq_lem,
  Counts, seen,
}

module _ (usable : ℕ → ℕ) (st : Symtab) (is : IsLinked st) (text : Text) where
  -- a name that is not in the table gets a new symbol behind the others
  module _ (absent : HashTable.h_get st.table.h_table text ≡ none)
      (short : length text < sym_name_len) (roomy : length text < usable (length text)) where
    place : ℕ
    place = length st.symbols

    grown : List Symbol
    grown = st.symbols ++ record { name = text; freq = 0 } ∷ []

    table' : Global ℕ
    table' = (SizedTable.insert_copied st.table text place).0

    h_table' : table'.h_table ≡ (HashTable.h_insert st.table.h_table text place).0
    unfolding table'
    h_table' =
        ap (λ (r : Global ℕ × Bool). r.0.h_table) (insert_copied-HashTable st.table text place)

    new_flag : (HashTable.h_insert st.table.h_table text place).1 ≡ true
    new_flag = (h_insert_lem is.counted.valid text place).flag ∙ rw absent

    done : (SizedTable.insert_copied st.table text place).1 ≡ true
    done =
        ap (λ (r : Global ℕ × Bool). r.1) (insert_copied-HashTable st.table text place) ∙ new_flag

    ht_size' : table'.ht_size ≡ suc st.table.ht_size
    unfolding table'
    ht_size' =
        ap (λ (r : Global ℕ × Bool). r.0.ht_size) (insert_copied-HashTable st.table text place)
        ∙ rw new_flag

    new_reads :
        (q : Text)
        → HashTable.h_get table'.h_table q
          ≡ (if streq q text then some place else HashTable.h_get st.table.h_table q)
    new_reads q =
        ap (λ t. HashTable.h_get t q) h_table'
        ∙ (h_insert_lem is.counted.valid text place).reads q
        ∙ rw absent

    added_round :
        SizedTable.h_get st.table text ≡ none
        → insert_id usable st text ≡ (
            (if (SizedTable.insert_copied st.table text place).1
              then count_use grown (SizedTable.h_get table' text)
              else ok grown)
            >>= λ symbols.
                ok (record { table = table'; symbols = symbols; num_ids = suc st.num_ids }))
    unfolding insert_id new_symbol grown place table'
    added_round h = rw (
      insert_id,
      h,
      new_symbol,
      lt→ltb (length text) sym_name_len short,
      h_insert-copied usable st.table text place roomy,
    )

    there : SizedTable.h_get table' text ≡ some place
    there = h_get-HashTable table' text ∙ new_reads text ∙ rw (streq_refl text)

    new_round : insert_id usable st text ≡ (
        add_freq grown place >>= λ symbols.
        ok (record { table = table'; symbols = symbols; num_ids = suc st.num_ids }))
    unfolding count_use
    new_round = added_round (h_get-HashTable st.table text ∙ absent) ∙ rw (done, there)

    abbrev new : Symbol
    new = record { name = text; freq = 0 }

    module _ (r : List Symbol) (used : Used grown place new r) where
      old_kept :
          (q : Text) (i : ℕ)
          → HashTable.h_get st.table.h_table q ≡ some i
          → get_elem? r i ≡ get_elem? st.symbols i
      unfolding grown place
      old_kept q i h =
          let (s, at, named) = is.linked q i h in
          let below = get_elem?-lt st.symbols i s at in
          used.others i (ground arith) ∙ get_elem?-append_left st.symbols new i below

      new_linked :
          (q : Text) (i : ℕ)
          → HashTable.h_get table'.h_table q ≡ some i
          → (s : Symbol) × (get_elem? r i ≡ some s) × (s.name ≡ q)
      new_linked q i h = elim (Bool-cases (streq q text)) [
        | inl x ↦
            let e : place ≡ i = some-injective (sym (new_reads q ∙ rw x) ∙ h) in
            (_, ap (get_elem? r) (sym e) ∙ used.at, sym (streq→eq q text x))
        | inr x ↦
            let old : HashTable.h_get st.table.h_table q ≡ some i = sym (new_reads q ∙ rw x) ∙ h in
            let (s, at, named) = is.linked q i old in (s, old_kept q i old ∙ at, named)
      ]

      new_frequency :
          (q : Text)
          → freq_at r (HashTable.h_get table'.h_table q)
            ≡ freq_at st.symbols (HashTable.h_get st.table.h_table q)
              + (if streq text q then 1 else 0)
      new_frequency q = elim (Bool-cases (streq q text)) [
        | inl x ↦
            let e = streq→eq q text x in
            rw (new_reads q, x, e, absent, streq_refl text) (freq_some r place _ used.at)
        | inr x ↦
            rw (new_reads q, x, streq_symm text q, x)
              (elim (Option-cases (HashTable.h_get st.table.h_table q)) [
                | inl h ↦ rw h refl
                | inr (i, h) ↦ rw h (freq_same st.symbols r i (old_kept q i h) ∙ omega arith)
              ])
      ]

      new_IsLinked : IsLinked (record { table = table'; symbols = r; num_ids = suc st.num_ids })
      unfolding table'
      new_IsLinked = record {
        counted = insert_copied-IsCounted text place is.counted;
        sizes =
            ap total h_table'
            ∙ total-h_insert st.table.h_table text place is.counted.valid.width
            ∙ rw new_flag (ap suc is.sizes ∙ sym ht_size');
        ids = ap suc is.ids ∙ sym ht_size';
        linked = new_linked;
      }

    last : get_elem? grown place ≡ some new
    unfolding grown place
    last = get_elem?-append_last st.symbols new

    unseen : Returns (Counts st text) (insert_id usable st text)
    unseen = rw new_round (
        bind (add_freq_lem grown place new last) (λ r used.
          returns
            (new_IsLinked r used, λ q. rw (frequency_lem, frequency_lem) (new_frequency r used q))))

insert_id_lem :
    (usable : ℕ → ℕ) (st : Symtab) (text : Text)
    → IsLinked st
    → length text < sym_name_len
    → length text < usable (length text)
    → Returns (Counts st text) (insert_id usable st text)
insert_id_lem usable st text is short roomy =
    elim (Option-cases (HashTable.h_get st.table.h_table text)) [
      | inl h ↦ unseen usable st is text h short roomy
      | inr (p, h) ↦ seen usable st is text p h
    ]

insert_ids-IsLinked :
    (usable : ℕ → ℕ) (texts : List Text) (st : Symtab)
    → IsLinked st
    → Short usable texts
    → Returns
        (λ r. IsLinked r × ((q : Text) → frequency r q ≡ frequency st q + occurrences q texts))
        (insert_ids usable texts st)
unfolding insert_ids occurrences
insert_ids-IsLinked usable [] st is short = returns (is, λ q. omega arith)
insert_ids-IsLinked usable (text ∷ texts) st is short =
    bind (insert_id_lem usable st text is short.0 short.1) λ mid counts.
      mono (insert_ids-IsLinked usable texts mid counts.0 short.2)
        λ r rest. (rest.0, λ q. omega (arith, counts.1 q, rest.1 q))

-- what init_symtab makes
init_symtab-IsLinked : (symbols : List Symbol) → IsLinked (init_symtab symbols)
unfolding init_symtab SizedTable.h_init HashTable.h_init
init_symtab-IsLinked symbols = record {
  counted = h_init-IsCounted;
  sizes = refl;
  ids = refl;
  linked = λ q p h. absurd (none-ne-some (sym (h_init-h_get q) ∙ h));
}

init_symtab-frequency : (symbols : List Symbol) (q : Text) → frequency (init_symtab symbols) q ≡ 0
unfolding init_symtab SizedTable.h_init HashTable.h_init
init_symtab-frequency symbols q = frequency_lem (init_symtab symbols) q ∙ rw (h_init-h_get q)

-- Whatever identifiers the scanner hands over, each shorter than SYM_NAME_LEN and of a length for which
-- malloc gives a block with a byte more, for the NUL of the key, insert_id does not fault: every pointer
-- of the table leads to the symbol of its key, the three counters agree, and the frequency of every name is
-- the number of its occurrences.
pub insert_ids-init_symtab :
    (usable : ℕ → ℕ) (symbols : List Symbol) (texts : List Text)
    → Short usable texts
    → Returns
        (λ r. IsLinked r × ((q : Text) → frequency r q ≡ occurrences q texts))
        (insert_ids usable texts (init_symtab symbols))
insert_ids-init_symtab usable symbols texts short =
    mono
      (insert_ids-IsLinked usable texts (init_symtab symbols) (init_symtab-IsLinked symbols) short)
      λ r h. (h.0, λ q. omega (arith, h.1 q, init_symtab-frequency symbols q))
