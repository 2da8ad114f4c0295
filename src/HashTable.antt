-- ===== src/HashTable.antt =====
-- Assig4/hashtable.c: a table of 100 chained buckets from strings to `void *` payloads.
-- A bucket is what `h_table[i]` points to: `vacant` is an entry whose index is -1 (its other fields
-- are never read), `used e es` the entry `e` with the entries `es` that follow along `next`. So the
-- `first != NULL` that ll_search and ll_insert assert holds by construction. A pointer into a chain
-- is its position there. `void *` is the type parameter `D`, and NULL the missing result.
pub mod Chain
pub mod Slot
pub mod Insert
pub mod Remove
pub mod Listing
pub mod Flatten
mod Tests
use c.Base.{
  ℕ, zero, suc, ◌+◌, ◌-◌, ◌%◌, ◌^◌, Bool, true, false, Option, none, some, List, [], ◌∷◌, ◌++◌, ltb,
  if◌then◌else◌, is_some, length, get_elem?, get_or, set, replicate, Text, streq,
}
use mathlib.Core.Option

-- `entry_t`; the link `next` is the rest of the list that the entry stands in
pub record Entry {ℓ} (D : Type ℓ) : Type ℓ where
  pub index : ℕ
  pub key : Text
  pub payload : D

pub data Bucket {ℓ} (D : Type ℓ) : Type ℓ where
  vacant : Bucket D
  used : Entry D → List (Entry D) → Bucket D

-- HT_SIZ
abbrev pub ht_siz : ℕ
ht_siz = 100

abbrev pub Table {ℓ} : Type ℓ → Type ℓ
Table D = List (Bucket D)

-- `text[i]` as it is added to an unsigned int: a byte above 127 is a negative `char`
unfoldable pub char_to_unsigned : ℕ → ℕ
char_to_unsigned b = if ltb b 128 then b else 2 ^ 32 - 256 + b

-- the loop of hash over the bytes that are left
unfoldable pub hash_loop : Text → ℕ → ℕ
unfolding char_to_unsigned
hash_loop [] sum = sum
hash_loop (b ∷ text) sum = hash_loop text ((sum + char_to_unsigned b) % 2 ^ 32)

unfoldable pub hash : Text → ℕ
unfolding hash_loop
hash text = hash_loop text 0 % ht_siz

module _ {ℓ} {D : Type ℓ} where
  -- the entries of a bucket, in the order of the links
  abbrev pub entries : Bucket D → List (Entry D)
  entries vacant = []
  entries (used e es) = e ∷ es

  -- `h_table[i]`; `hash` stays below the table's length, so the default is never read
  abbrev pub slot : Table D → ℕ → Bucket D
  slot t i = get_or t i vacant

  -- the position of the first entry with the key, or none for NULL
  unfoldable pub ll_search : List (Entry D) → Text → Option ℕ
  ll_search [] key = none
  ll_search (e ∷ es) key = if streq e.key key then some 0 else Option.map suc (ll_search es key)

  -- the walk to the last entry and the write of its `next`
  unfoldable pub link_last : List (Entry D) → Entry D → List (Entry D)
  link_last [] node = node ∷ []
  link_last (e ∷ es) node = e ∷ link_last es node

  -- the chain after the call, and the returned flag
  unfoldable pub ll_insert : Entry D → List (Entry D) → Entry D → Bucket D × Bool
  unfolding ll_search link_last
  ll_insert first rest node =
      if is_some (ll_search (first ∷ rest) node.key)
      then (used first rest, false)
      else (used first (link_last rest node), true)

  unfoldable pub insert_bucket : Bucket D → Entry D → Bucket D × Bool
  unfolding ll_insert
  insert_bucket vacant ent = (used ent [], true)
  insert_bucket (used first rest) ent = ll_insert first rest ent

  unfoldable pub h_insert_entry : Table D → Entry D → Table D × Bool
  unfolding insert_bucket
  h_insert_entry t ent =
      let (b, done) = insert_bucket (slot t ent.index) ent in (set t ent.index b, done)

  unfoldable pub h_insert : Table D → Text → D → Table D × Bool
  unfolding h_insert_entry hash
  h_insert t key payload =
      h_insert_entry t (record { index = hash key; key = key; payload = payload })

  -- the position of the entry in the bucket of its hash
  unfoldable pub get_bucket : Bucket D → Text → Option ℕ
  unfolding ll_search
  get_bucket vacant key = none
  get_bucket (used first rest) key = ll_search (first ∷ rest) key

  unfoldable pub h_get_entry : Table D → Text → Option ℕ
  unfolding get_bucket hash
  h_get_entry t key = get_bucket (slot t (hash key)) key

  -- `found->data`
  unfoldable pub payload_at : List (Entry D) → ℕ → Option D
  payload_at es p = Option.map (λ (e : Entry D). e.payload) (get_elem? es p)

  -- `found->data`, or NULL
  abbrev pub deref : List (Entry D) → Option ℕ → Option D
  deref es none = none
  deref es (some found) = payload_at es found

  unfoldable pub h_get : Table D → Text → Option D
  unfolding h_get_entry payload_at
  h_get t key = deref (entries (slot t (hash key))) (h_get_entry t key)

  unfoldable pub h_init : Table D
  h_init = replicate ht_siz vacant

  -- `prev->next = curr->next`, where `curr` is `rounds` links behind the head `prev`
  unfoldable pub unlink : List (Entry D) → ℕ → List (Entry D)
  unlink [] p = []
  unlink (e ∷ es) zero = es
  unlink (e ∷ es) (suc p) = e ∷ unlink es p

  -- Taking out the first entry resets it to index -1 with no successor.
  unfoldable pub remove_bucket : Bucket D → ℕ → Bucket D
  unfolding unlink
  remove_bucket vacant p = vacant
  remove_bucket (used first rest) zero = vacant
  remove_bucket (used first rest) (suc p) = used first (unlink rest p)

  -- the table after the call, the returned flag, and the payload that is freed
  unfoldable pub remove_found : Table D → ℕ → Option ℕ → Table D × Bool × Option D
  unfolding payload_at remove_bucket
  remove_found t i none = (t, false, none)
  remove_found t i (some found) =
      (set t i (remove_bucket (slot t i) found), true, payload_at (entries (slot t i)) found)

  unfoldable pub h_remove : Table D → Text → Table D × Bool × Option D
  unfolding h_get_entry remove_found
  h_remove t key = remove_found t (hash key) (h_get_entry t key)

  -- the first pass of ht_to_list, over one bucket and over the table
  unfoldable pub count_bucket : Bucket D → ℕ → ℕ
  count_bucket vacant cnt = cnt
  count_bucket (used first rest) cnt = cnt + suc (length rest)

  unfoldable pub count_table : Table D → ℕ → ℕ
  unfolding count_bucket
  count_table [] cnt = cnt
  count_table (b ∷ t) cnt = count_table t (count_bucket b cnt)

  -- the second pass; `list[ind++]` appends to what has been written
  unfoldable pub copy_chain : List (Entry D) → List D → List D
  copy_chain [] list = list
  copy_chain (e ∷ es) list = copy_chain es (list ++ e.payload ∷ [])

  unfoldable pub copy_bucket : Bucket D → List D → List D
  unfolding copy_chain
  copy_bucket vacant list = list
  copy_bucket (used first rest) list = copy_chain (first ∷ rest) list

  unfoldable pub copy_table : Table D → List D → List D
  unfolding copy_bucket
  copy_table [] list = list
  copy_table (b ∷ t) list = copy_table t (copy_bucket b list)

  -- the cells that are allocated, the list, and the size that is stored through the pointer
  unfoldable pub ht_to_list : Table D → ℕ × List D × ℕ
  unfolding count_table copy_table
  ht_to_list t = let list = copy_table t [] in (count_table t 0, list, length list)
