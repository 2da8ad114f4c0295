-- ===== src/Store/Tests.antt =====
-- Assig3/hashtable.c at concrete inputs: a table in the first cells of an empty store.
use c.Base.{
  leb, ◌&&◌, set, codes, streq, ℕ, zero, suc, ◌+◌, ◌<◌, ◌≤◌, ◌≡◌, refl, sym, ◌∙◌, Bool, true, none,
  some, List, [], ◌∷◌, arith, length, get_or, Text,
}
use mathlib.Core.Path.{subst}
use c.Base.Run.{out_of_fuel, Run, ok, fault, Returns, returns}
use c.HashTable
use c.HashTable.{Entry, Table, hash, ht_siz, entries, slot}
use c.HashTable.Insert.{h_init-IsValid, h_insert-IsValid}
use c.HashTable.Slot.{IsValid}
use c.Store.{write_node, Ptr, null, Nodes, Store, h_init, h_insert, h_get, h_remove, ht_to_list}
use c.Store.Init.{h_init-IsStore}
use c.Store.Insert.{Agree, h_insert-IsStore}
use c.Store.Listing.{stored, ht_to_list-IsStore}
use c.Store.Remove.{RemoveAgrees, h_remove-IsStore}
use c.Store.Rep.{IsStore, h_get-IsStore}

-- `n` addresses from `a` on
abbrev addresses : ℕ → Ptr → List Ptr
addresses zero a = []
addresses (suc n) a = a ∷ addresses n (suc a)

get_or-addresses : (n a i : ℕ) → i < n → get_or (addresses n a) i null ≡ a + i
get_or-addresses zero a i lt = absurd (omega arith)
get_or-addresses (suc n) a zero lt = omega arith
get_or-addresses (suc n) a (suc i) lt = get_or-addresses n (suc a) i (omega arith) ∙ omega arith

addresses_apart :
    (i j : ℕ)
    → i < 100
    → j < 100
    → get_or (addresses 100 1) i null ≡ get_or (addresses 100 1) j null
    → i ≡ j
addresses_apart i j ilt jlt same =
    let x = sym (get_or-addresses 100 1 i ilt) ∙ same ∙ get_or-addresses 100 1 j jlt in omega arith

abbrev no_nodes : Nodes ℕ
no_nodes p = none

abbrev empty : Store ℕ
empty = h_init no_nodes (addresses 100 1)

empty-IsStore : IsStore empty HashTable.h_init
empty-IsStore = h_init-IsStore no_nodes (addresses 100 1) refl addresses_apart

-- the keys of a global `b` and of a local `a`: both hash to 46
abbrev global_b : Text
global_b = codes "0b"

abbrev local_a : Text
local_a = codes "1a"

abbrev one : Table ℕ
one = (HashTable.h_insert HashTable.h_init global_b 7).0

abbrev two : Table ℕ
two = (HashTable.h_insert one local_a 8).0

one-IsValid : IsValid one
one-IsValid = h_insert-IsValid h_init-IsValid global_b 7

two-IsValid : IsValid two
two-IsValid = h_insert-IsValid one-IsValid local_a 8

ok-injective : {A : Type 0} {x y : A} → ok x ≡ ok y → x ≡ y
ok-injective e = cc

value : {A : Type 0} {P : A → Type 0} {m : Run A} {a : A} → Returns P m → m ≡ ok a → P a
value {P} (returns p) h = subst P (ok-injective h) p

-- no bucket has more entries than the bound
abbrev narrow : Table ℕ → ℕ → Bool
narrow [] n = true
narrow (b ∷ t) n = leb (length (entries b)) n && narrow t n

narrow-slot : (t : Table ℕ) (n : ℕ) → narrow t n ≡ true → (i : ℕ) → length (entries (slot t i)) ≤ n
narrow-slot [] n h i = omega arith
narrow-slot (b ∷ t) n h zero = ground arith
narrow-slot (b ∷ t) n h (suc i) = narrow-slot t n (ground arith) i

h_insert-IsStore_example :
    Returns
      (Agree (HashTable.h_insert HashTable.h_init global_b 7))
      (h_insert 1 empty 200 global_b 7)
unfolding h_init hash HashTable.h_init
h_insert-IsStore_example =
    h_insert-IsStore 1 200 global_b 7 empty-IsStore h_init-IsValid refl (omega arith) (omega arith)

-- the first entry takes the place of the vacant entry 47, which is freed
abbrev single : Store ℕ
single = record {
  nodes =
      write_node
        (write_node empty.nodes 200
          (some (record { index = 46; key = global_b; payload = some 7; next = null })))
        47 none;
  h_table = set empty.h_table 46 200;
}

single_lem : h_insert 1 empty 200 global_b 7 ≡ ok (single, true)
unfolding h_insert h_init hash write_node
single_lem = refl

single-IsStore : IsStore single one
single-IsStore = (value h_insert-IsStore_example single_lem).0

-- the second entry is linked behind the first
abbrev pair : Store ℕ
pair = record single {
  nodes =
      write_node
        (write_node single.nodes 201
          (some (record { index = 46; key = local_a; payload = some 8; next = null })))
        200 (some (record { index = 46; key = global_b; payload = some 7; next = 201 }));
}

pair_lem : h_insert 1 single 201 local_a 8 ≡ ok (pair, true)
unfolding h_insert h_init hash write_node streq
pair_lem = refl

pair-IsStore : IsStore pair two
unfolding h_init hash HashTable.h_insert HashTable.h_init write_node
pair-IsStore =
    (value
      (h_insert-IsStore 1 201 local_a 8 single-IsStore one-IsValid refl (omega arith) (omega arith))
      pair_lem).0

h_get-IsStore_example : h_get 2 pair local_a ≡ ok (HashTable.h_get two local_a)
unfolding hash HashTable.h_insert HashTable.h_init streq
h_get-IsStore_example = h_get-IsStore pair-IsStore two-IsValid local_a 2 (omega arith)

h_remove-IsStore_example :
    Returns (RemoveAgrees (HashTable.h_remove two local_a)) (h_remove 2 pair local_a)
unfolding hash HashTable.h_insert HashTable.h_init streq
h_remove-IsStore_example = h_remove-IsStore 2 local_a pair-IsStore two-IsValid (omega arith)

h_get-pair : (h_get 2 pair local_a ≡ ok (some 8)) × (h_get 1 pair local_a ≡ fault out_of_fuel)
unfolding h_get h_init hash write_node streq
h_get-pair = (refl, refl)

ht_to_list-IsStore_example :
    ht_to_list 2 pair
    ≡ ok (
      (HashTable.ht_to_list two).0,
      stored (HashTable.ht_to_list two).1,
      (HashTable.ht_to_list two).2,
    )
unfolding hash HashTable.h_insert HashTable.h_init streq
ht_to_list-IsStore_example =
    ht_to_list-IsStore 2 pair-IsStore two-IsValid (λ i lt. narrow-slot two 2 refl i)
