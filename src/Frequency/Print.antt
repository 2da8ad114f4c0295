-- ===== src/Frequency/Print.antt =====
-- print_symtab of assignment1/symboltable.c after the scanner's calls of insert_id.
use c.Base.{
  ℕ, suc, ◌≡◌, refl, sym, ap, ◌∙◌, some, List, [], ◌∷◌, if◌then◌else◌, length, get_elem?, map, inl,
  inr, Bool-cases, Text, codes,
}
use c.Base.Run.{ok, fault, out_of_bounds, ◌>>=◌, Returns, mono}
use c.HashTable
use c.HashTable.{Entry, Table}
use c.HashTable.Chain.{All, All-find, find}
use c.HashTable.Flatten.{all_entries, payloads-all_entries, all_entries-Distinct, h_get-all_entries}
use c.HashTable.Listing.{payloads, length-payloads}
use c.IdTable.Count.{occurrences}
use c.SizedTable.Listing.{collision_free, ht_to_list-collision_free}
use c.Frequency.{
  Ordering, Symbol, Symtab, load_symbols, sym_cmp, print_line, print_symtab, init_symtab,
  insert_ids,
}
use c.Frequency.Count.{frequency, frequency_lem, freq_at, freq_some, Short, IsLinked}
use c.Frequency.Grow.{insert_ids-init_symtab}

-- the names in the table, bucket after bucket
abbrev pub names : Symtab → List Text
names st = map (λ (e : Entry ℕ). e.key) (all_entries st.table.h_table)

-- a row for each name, with its frequency
abbrev pub rows : (Text → ℕ) → List Text → List Symbol
rows freq names = map (λ q. record { name = q; freq = freq q }) names

load_round :
    (symbols : List Symbol) (p : ℕ) (list : List ℕ) (s : Symbol)
    → get_elem? symbols p ≡ some s
    → load_symbols symbols (p ∷ list) ≡ (load_symbols symbols list >>= λ rest. ok (s ∷ rest))
unfolding load_symbols
load_round symbols p list s h = rw (load_symbols, h)

module _ (st : Symtab) (is : IsLinked st) where
  -- every pointer in the list leads to the symbol of its key
  load_symbols-rows :
      (es : List (Entry ℕ))
      → All (λ (e : Entry ℕ). HashTable.h_get st.table.h_table e.key ≡ some e.payload) es
      → load_symbols st.symbols (payloads es)
        ≡ ok (rows (frequency st) (map (λ (e : Entry ℕ). e.key) es))
  unfolding load_symbols
  load_symbols-rows [] found = refl
  load_symbols-rows (e ∷ es) found =
      let (s, at, named) = is.linked e.key e.payload found.0 in
      load_round st.symbols e.payload (payloads es) s at
      ∙ rw (load_symbols-rows es found.1) (
          ap (λ x. ok (x ∷ rows (frequency st) (map (λ (e : Entry ℕ). e.key) es))) (row s at named))
    where
      row :
          (s : Symbol)
          → get_elem? st.symbols e.payload ≡ some s
          → s.name ≡ e.key
          → s ≡ record { name = e.key; freq = frequency st e.key }
      row s at named =
          let f : s.freq ≡ frequency st e.key = sym (
            frequency_lem st e.key
            ∙ ap (freq_at st.symbols) found.0
            ∙ freq_some st.symbols e.payload s at) in
          ap (λ n. record { name = s.name; freq = n }) f
          ∙ ap (λ q. record { name = q; freq = frequency st e.key }) named

  All-found :
      All
        (λ (e : Entry ℕ). HashTable.h_get st.table.h_table e.key ≡ some e.payload)
        (all_entries st.table.h_table)
  All-found = by_entry (all_entries st.table.h_table) (
      All-find (all_entries st.table.h_table) (all_entries st.table.h_table)
        (all_entries-Distinct is.counted.valid) (λ q x h. h))
    where
      by_entry :
          (es : List (Entry ℕ))
          → All (λ (e : Entry ℕ). find e.key (all_entries st.table.h_table) ≡ some e.payload) es
          → All (λ (e : Entry ℕ). HashTable.h_get st.table.h_table e.key ≡ some e.payload) es
      by_entry [] a = tt
      by_entry (e ∷ es) a = (h_get-all_entries is.counted.valid e.key ∙ a.0, by_entry es a.1)

  -- what is printed after the header when the list is made
  print_symtab-rows :
      (qsort : (Symbol → Symbol → Ordering) → List Symbol → List Symbol)
      → print_symtab qsort st ≡ (
          if collision_free st.table.h_table
          then ok (
              codes ""
              ∷ codes "Frequency of identifiers"
              ∷ map print_line (qsort sym_cmp (rows (frequency st) (names st))))
          else fault out_of_bounds)
  unfolding print_symtab
  print_symtab-rows qsort =
      rw
        (
          ht_to_list-collision_free st.table is.counted.room,
          ← payloads-all_entries st.table.h_table,
        )
        (elim (Bool-cases (collision_free st.table.h_table)) [
          | inl x ↦ rw (x, load_symbols-rows (all_entries st.table.h_table) All-found) refl
          | inr x ↦ rw x refl
        ])

  -- `num_ids` is the number of names
  length-names : length (names st) ≡ st.num_ids
  length-names =
      length-keys (all_entries st.table.h_table)
      ∙ sym (length-payloads (all_entries st.table.h_table))
      ∙ ap (λ (l : List ℕ). length l) (payloads-all_entries st.table.h_table)
      ∙ is.sizes
      ∙ sym is.ids
    where
      length-keys : (es : List (Entry ℕ)) → length (map (λ (e : Entry ℕ). e.key) es) ≡ length es
      length-keys [] = refl
      length-keys (e ∷ es) = ap suc (length-keys es)

-- what print_symtab prints in a state, for a list of input
pub record Prints (qsort : (Symbol → Symbol → Ordering) → List Symbol → List Symbol)
    (texts : List Text) (st : Symtab) : Type 0 where
  pub size : length (names st) ≡ st.num_ids
  pub lines : print_symtab qsort st ≡ (
      if collision_free st.table.h_table
      then ok (
          codes ""
          ∷ codes "Frequency of identifiers"
          ∷ map print_line (qsort sym_cmp (rows (λ q. occurrences q texts) (names st))))
      else fault out_of_bounds)

rows_same :
    (f g : Text → ℕ) → ((q : Text) → f q ≡ g q) → (list : List Text) → rows f list ≡ rows g list
rows_same f g same [] = refl
rows_same f g same (q ∷ list) =
    ap (λ n. record { name = q; freq = n } ∷ rows f list) (same q)
    ∙ ap (λ l. record { name = q; freq = g q } ∷ l) (rows_same f g same list)

-- After the scanner has handed over identifiers shorter than SYM_NAME_LEN, each of a length for which
-- malloc gives a block with a byte more, for the NUL of the key, print_symtab prints a line for each of the `num_ids` names in the table, with the number of its occurrences, in the order of
-- qsort; but when two of the names share a bucket, it writes past the end of its list.
pub print_symtab-occurrences :
    (usable : ℕ → ℕ) (qsort : (Symbol → Symbol → Ordering) → List Symbol → List Symbol)
    (symbols : List Symbol) (texts : List Text)
    → Short usable texts
    → Returns (Prints qsort texts) (insert_ids usable texts (init_symtab symbols))
print_symtab-occurrences usable qsort symbols texts short =
    mono (insert_ids-init_symtab usable symbols texts short) λ st h. record {
      size = length-names st h.0;
      lines =
          print_symtab-rows st h.0 qsort
          ∙ ap
              (λ l.
                if collision_free st.table.h_table
                then ok
                    (codes "" ∷ codes "Frequency of identifiers" ∷ map print_line (qsort sym_cmp l))
                else fault out_of_bounds)
              (rows_same (frequency st) (λ q. occurrences q texts) h.1 (names st));
    }
