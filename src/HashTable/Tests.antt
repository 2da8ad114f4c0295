-- ===== src/HashTable/Tests.antt =====
-- The table of Assig4/hashtable.c at keys that share a bucket, and its theorems there.
use c.Base.{ℕ, ◌≡◌, refl, none, some, Text, codes, streq, length}
use c.HashTable.{Table, hash, h_init, h_insert, h_get, h_remove, ht_to_list}
use c.HashTable.Slot.{IsValid}
use c.HashTable.Insert.{Inserts, h_init-IsValid, h_insert_lem}
use c.HashTable.Remove.{Removes, h_remove_lem}
use c.HashTable.Chain.{find}
use c.HashTable.Listing.{contents, ht_to_list-contents}
use c.HashTable.Flatten.{all_entries, h_get-all_entries}

-- the keys of a global `b` and of a local `a`: both hash to 46
abbrev global_b : Text
global_b = codes "0b"

abbrev local_a : Text
local_a = codes "1a"

abbrev one : Table ℕ
one = (h_insert h_init global_b 7).0

abbrev two : Table ℕ
two = (h_insert one local_a 8).0

one-IsValid : IsValid one
one-IsValid = (h_insert_lem h_init-IsValid global_b 7).valid

two-IsValid : IsValid two
two-IsValid = (h_insert_lem one-IsValid local_a 8).valid

hash_collision : hash global_b ≡ hash local_a
unfolding hash
hash_collision = refl

h_get_both : (h_get two global_b ≡ some 7) × (h_get two local_a ≡ some 8)
unfolding h_init h_insert h_get streq
h_get_both = (refl, refl)

-- the second entry alone is unlinked
h_remove_second :
    (h_get (h_remove two local_a).0 global_b ≡ some 7)
    × (h_get (h_remove two local_a).0 local_a ≡ none)
unfolding h_init h_insert h_get h_remove streq
h_remove_second = (refl, refl)

-- the first entry takes the second along
h_remove_first :
    (h_get (h_remove two global_b).0 global_b ≡ none)
    × (h_get (h_remove two global_b).0 local_a ≡ none)
unfolding h_init h_insert h_get h_remove streq
h_remove_first = (refl, refl)

h_insert_lem_example : Inserts one local_a 8 (h_insert one local_a 8)
h_insert_lem_example = h_insert_lem one-IsValid local_a 8

h_remove_lem_example : Removes two global_b (h_remove two global_b)
h_remove_lem_example = h_remove_lem two-IsValid global_b

ht_to_list-contents_example :
    ht_to_list two ≡ (length (contents two), contents two, length (contents two))
ht_to_list-contents_example = ht_to_list-contents two

h_get-all_entries_example : h_get two local_a ≡ find local_a (all_entries two)
h_get-all_entries_example = h_get-all_entries two-IsValid local_a
