-- ===== src/SizedTable/Tests.antt =====
-- assignment1/hashtable.c at keys that share a bucket, and its theorems there.
use c.Base.{
  ◌+◌, ◌-◌, ◌*◌, ◌/◌, arith, replicate, ltb, ℕ, ◌≡◌, refl, [], ◌∷◌, codes, streq, length,
  if◌then◌else◌,
}
use c.Base.Run.{ok, fault, out_of_bounds}
use c.HashTable.{hash}
use c.HashTable.Listing.{contents}
use c.SizedTable.{Global, h_init, insert_copied, h_insert, h_remove, ht_to_list}
use c.SizedTable.Invariant.{
  h_insert-copied, Reachable, start, inserted, removed, IsCounted, Reachable-IsCounted,
}
use c.SizedTable.Listing.{collision_free, ht_to_list-collision_free}

-- two identifiers with the same letters hash alike
abbrev apart : Global ℕ
apart = (insert_copied (insert_copied h_init (codes "ab") 1).0 (codes "cd") 2).0

abbrev together : Global ℕ
together = (insert_copied (insert_copied h_init (codes "ab") 1).0 (codes "ba") 2).0

ht_to_list-apart : ht_to_list apart ≡ ok (1 ∷ 2 ∷ [], 2)
unfolding h_init insert_copied ht_to_list hash streq
ht_to_list-apart = refl

ht_to_list-together : ht_to_list together ≡ fault out_of_bounds
unfolding h_init insert_copied ht_to_list hash streq
ht_to_list-together = refl

-- the entry that is left can be listed, in a list of two cells
ht_to_list-removed :
    (ht_to_list (h_remove together (codes "ba")).0 ≡ ok (1 ∷ [], 1))
    × ((h_remove together (codes "ba")).0.ht_size ≡ 2)
unfolding h_init insert_copied h_remove ht_to_list hash streq
ht_to_list-removed = (refl, refl)

-- glibc gives multiples of 16 less 8 bytes, and 24 at least
abbrev glibc : ℕ → ℕ
glibc n = if ltb n 25 then 24 else (n + 23) / 16 * 16 - 8

-- a key of 24 characters has no room for its NUL
long_key_overruns : h_insert {D = ℕ} glibc h_init (replicate 24 97) 1 ≡ fault out_of_bounds
unfolding h_insert
long_key_overruns = refl

together-Reachable : Reachable glibc together
together-Reachable =
    inserted (codes "ba") 2 (h_insert-copied glibc _ (codes "ba") 2 (omega arith))
      (inserted (codes "ab") 1 (h_insert-copied glibc h_init (codes "ab") 1 (omega arith)) start)

Reachable-IsCounted_example : IsCounted (h_remove together (codes "ab")).0
Reachable-IsCounted_example = Reachable-IsCounted (removed (codes "ab") together-Reachable)

ht_to_list-collision_free_example : ht_to_list together ≡ (
    if collision_free together.h_table
    then ok (contents together.h_table, length (contents together.h_table))
    else fault out_of_bounds)
ht_to_list-collision_free_example =
    ht_to_list-collision_free together (Reachable-IsCounted together-Reachable).room
