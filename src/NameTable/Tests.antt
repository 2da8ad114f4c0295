-- ===== src/NameTable/Tests.antt =====
-- Assig2/table.c at concrete inputs.
use c.Base.{
  ◌*◌, ◌/◌, ◌+◌, ℕ, ◌≡◌, refl, true, false, List, [], ◌∷◌, arith, Text, codes, replicate, streq,
}
use c.Base.Run.{fault, out_of_bounds, Returns, returns}
use c.HashTable.{hash, payload_at}
use c.SizedTable.{Global}
use c.NameTable.{insert_type, is_type_exists, init, insert_types}
use c.NameTable.Names.{knows, Fit, insert_types_lem}

-- a malloc that gives multiples of 16 bytes
abbrev block : ℕ → ℕ
block n = (n + 15) / 16 * 16

abbrev two_names : List Text
two_names = codes "point" ∷ codes "line" ∷ []

two_names-Fit : Fit block two_names
two_names-Fit = (omega arith, omega arith, (omega arith, omega arith, tt))

known_names :
    Returns
      (λ g. (is_type_exists g (codes "line") ≡ true) × (is_type_exists g (codes "circle") ≡ false))
      (insert_types block init 1000 two_names)
unfolding insert_types is_type_exists init hash streq payload_at
known_names = returns (refl, refl)

-- a name of twenty characters has no room for its NUL
long_name_overruns : insert_type block init 1000 (replicate 20 97) ≡ fault out_of_bounds
unfolding insert_type
long_name_overruns = refl

insert_types_lem_example :
    Returns
      (λ (g : Global ℕ). (name : Text) → is_type_exists g name ≡ knows two_names name)
      (insert_types block init 1000 two_names)
insert_types_lem_example = insert_types_lem block 1000 two_names (omega arith) two_names-Fit
