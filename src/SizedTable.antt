-- ===== src/SizedTable.antt =====
-- assignment1/hashtable.c: the table with its entries' number in the global `ht_size`, and its callers'
-- symbols in assignment1/symboltable.c. Buckets and chains are those of HashTable, whose `hash`,
-- ll_search and walk along `next` this file shares word for word. `h_table` and `ht_size` are globals:
-- here the record that each call takes and returns. `ht_size` is an `int` that counts insertions in memory,
-- so it stays far below 2^31 and is a ℕ.
pub mod Listing
pub mod Invariant
mod Tests
use c.Base.{
  ltb, ℕ, zero, suc, ◌+◌, Bool, true, false, Option, none, some, List, [], ◌∷◌, ◌++◌, if◌then◌else◌,
  is_some, length, set, replicate, Text,
}
use c.Base.Run.{Run, ok, fault, out_of_bounds, ◌>>=◌}
use c.HashTable
use c.HashTable.{
  Entry, Bucket, vacant, used, Table, hash, ht_siz, entries, slot, ll_search, link_last, deref,
  remove_found,
}

-- `h_table` and `ht_size`
pub record Global {ℓ} (D : Type ℓ) : Type ℓ where
  pub h_table : Table D
  pub ht_size : ℕ

module _ {ℓ} {D : Type ℓ} where
  -- the chain, the returned flag and `ht_size` after the call
  unfoldable pub ll_insert : Entry D → List (Entry D) → Entry D → ℕ → Bucket D × Bool × ℕ
  unfolding ll_search link_last
  ll_insert first rest node ht_size =
      if is_some (ll_search (first ∷ rest) node.key)
      then (used first rest, false, ht_size)
      else (used first (link_last rest node), true, suc ht_size)

  unfoldable pub insert_bucket : Bucket D → Entry D → ℕ → Bucket D × Bool × ℕ
  unfolding ll_insert
  insert_bucket vacant ent ht_size = (used ent [], true, suc ht_size)
  insert_bucket (used first rest) ent ht_size = ll_insert first rest ent ht_size

  unfoldable pub h_insert_entry : Global D → Entry D → Global D × Bool
  unfolding insert_bucket
  h_insert_entry g ent =
      let (b, done, n) = insert_bucket (slot g.h_table ent.index) ent g.ht_size in
      (record { h_table = set g.h_table ent.index b; ht_size = n }, done)

  -- h_insert but for the copy of the key
  unfoldable pub insert_copied : Global D → Text → D → Global D × Bool
  unfolding h_insert_entry hash
  insert_copied g key payload =
      h_insert_entry g (record { index = hash key; key = key; payload = payload })

  -- The key is copied, with its NUL, into the block that malloc gives for its length without the NUL;
  -- `usable n` is the number of bytes that the block has which malloc(n) returns.
  unfoldable pub h_insert : (usable : ℕ → ℕ) → Global D → Text → D → Run (Global D × Bool)
  unfolding insert_copied
  h_insert usable g key payload =
      if ltb (length key) (usable (length key))
      then ok (insert_copied g key payload)
      else fault out_of_bounds

  -- the position of the entry in the bucket of its hash
  unfoldable pub h_get_entry : Global D → Text → Option ℕ
  unfolding ll_search hash
  h_get_entry g key = elim (slot g.h_table (hash key)) [
    | vacant ↦ none
    | used first rest ↦ ll_search (first ∷ rest) key
  ]

  unfoldable pub h_get : Global D → Text → Option D
  unfolding h_get_entry
  h_get g key = deref (entries (slot g.h_table (hash key))) (h_get_entry g key)

  unfoldable pub h_init : Global D
  h_init = record { h_table = replicate ht_siz vacant; ht_size = 0 }

  -- `ht_size` is not counted down
  unfoldable pub h_remove : Global D → Text → Global D × Bool × Option D
  unfolding h_get_entry remove_found
  h_remove g key =
      let (t, done, freed) = remove_found g.h_table (hash key) (h_get_entry g key) in
      (record g { h_table = t }, done, freed)

  -- The do-while loop of ht_to_list over one bucket, which reads `handle = h_table[i]` again in each
  -- round; `left` cells of `list` are not written yet.
  unfoldable pub copy_loop : Entry D → List (Entry D) → (left : ℕ) → List D → Run (ℕ × List D)
  copy_loop first rest zero list = fault out_of_bounds
  copy_loop first [] (suc left) list = ok (left, list ++ first.payload ∷ [])
  copy_loop first (e ∷ es) (suc left) list =
      copy_loop first (e ∷ es) left (list ++ first.payload ∷ [])

  unfoldable pub copy_table : Table D → (left : ℕ) → List D → Run (List D)
  unfolding copy_loop
  copy_table [] left list = ok list
  copy_table (vacant ∷ t) left list = copy_table t left list
  copy_table (used first rest ∷ t) left list = do
    (left, list) ← copy_loop first rest left list
    copy_table t left list

  -- the list, of `ht_size` cells, and the size that is stored through the pointer
  unfoldable pub ht_to_list : Global D → Run (List D × ℕ)
  unfolding copy_table
  ht_to_list g = do list ← copy_table g.h_table g.ht_size []; ok (list, length list)
