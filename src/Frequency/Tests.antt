-- ===== src/Frequency/Tests.antt =====
-- assignment1/symboltable.c at concrete inputs, and its theorems there.
use c.Base.{◌+◌, ◌*◌, ◌/◌, ℕ, ◌≡◌, refl, List, [], ◌∷◌, Text, codes, streq, arith}
use c.Base.Run.{ok, fault, out_of_bounds, ◌>>=◌, Returns}
use c.HashTable.{hash, payload_at}
use c.Base.Decimal.{decimal}
use c.IdTable.Count.{occurrences}
use c.SizedTable
use c.Frequency.{Ordering, Symbol, init_symtab, insert_ids, print_symtab, sym_cmp}
use c.Frequency.Count.{Short, frequency, IsLinked}
use c.Frequency.Grow.{insert_ids-init_symtab}
use c.Frequency.Print.{Prints, print_symtab-occurrences}

-- a sort by insertion
abbrev put : (Symbol → Symbol → Ordering) → Symbol → List Symbol → List Symbol
put cmp s [] = s ∷ []
put cmp s (x ∷ xs) =
    let rest = put cmp s xs in elim (cmp s x) [ Ordering.gt ↦ x ∷ rest | _ ↦ s ∷ x ∷ xs ]

abbrev insertion_sort : (Symbol → Symbol → Ordering) → List Symbol → List Symbol
insertion_sort cmp [] = []
insertion_sort cmp (s ∷ xs) = put cmp s (insertion_sort cmp xs)

abbrev input : List Text
input = codes "x" ∷ codes "main" ∷ codes "x" ∷ []

-- a malloc that gives multiples of 16 bytes
abbrev block : ℕ → ℕ
block n = (n + 15) / 16 * 16

input-Short : Short block input
input-Short = (omega arith, omega arith, (omega arith, omega arith, (omega arith, omega arith, tt)))

print_symtab-input :
    (insert_ids block input (init_symtab []) >>= λ st. print_symtab insertion_sort st)
    ≡ ok (
        codes ""
        ∷ codes "Frequency of identifiers"
        ∷ codes "main        1"
        ∷ codes "x           2"
        ∷ [])
unfolding insert_ids init_symtab print_symtab hash streq SizedTable.h_init payload_at sym_cmp
    decimal
print_symtab-input = refl

print_symtab-together :
    (insert_ids block (codes "ab" ∷ codes "ba" ∷ []) (init_symtab []) >>= λ st.
    print_symtab insertion_sort st)
    ≡ fault out_of_bounds
unfolding insert_ids init_symtab print_symtab hash streq SizedTable.h_init payload_at sym_cmp
    decimal
print_symtab-together = refl

insert_ids-init_symtab_example :
    Returns
      (λ r. IsLinked r × ((q : Text) → frequency r q ≡ occurrences q input))
      (insert_ids block input (init_symtab []))
insert_ids-init_symtab_example = insert_ids-init_symtab block [] input input-Short

print_symtab-occurrences_example :
    Returns (Prints insertion_sort input) (insert_ids block input (init_symtab []))
print_symtab-occurrences_example =
    print_symtab-occurrences block insertion_sort [] input input-Short
