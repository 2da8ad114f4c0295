-- ===== src/Store.antt =====
-- Assig3/hashtable.c over a store: an entry is a cell at an address, with its successor's address in
-- `next`, and `h_table` is an array of addresses. The loops that follow `next` take a number of rounds
-- as fuel. Where the code frees an entry the cell becomes empty; reading an empty cell is a fault.
pub mod Chain
pub mod Rep
pub mod Cells
pub mod Link
pub mod Insert
pub mod Walk
pub mod Remove
pub mod Listing
pub mod Init
mod Tests
use c.Base.{
  ℕ, zero, suc, ◌+◌, ◌-◌, ◌^◌, Bool, true, false, Option, none, some, List, [], ◌∷◌, ◌++◌,
  if◌then◌else◌, ◌==◌, length, get_or, set, Text, streq,
}
use c.Base.Run.{Run, ok, fault, dangling, assertion, out_of_fuel, ◌>>=◌}
use c.HashTable.{hash, ht_siz}

abbrev pub Ptr : Type 0
Ptr = ℕ

abbrev pub null : Ptr
null = 0

-- `index` of an entry that is not in use: -1 as an unsigned int
abbrev pub no_index : ℕ
no_index = 2 ^ 32 - 1

-- `entry_t`
pub record Node {ℓ} (D : Type ℓ) : Type ℓ where
  pub index : ℕ
  pub key : Text
  pub payload : Option D
  pub next : Ptr

abbrev pub Nodes {ℓ} : Type ℓ → Type ℓ
Nodes D = Ptr → Option (Node D)

-- the entries that are allocated, and `h_table`
pub record Store {ℓ} (D : Type ℓ) : Type ℓ where
  pub nodes : Nodes D
  pub h_table : List Ptr

module _ {ℓ} {D : Type ℓ} where
  unfoldable pub write_node : Nodes D → Ptr → Option (Node D) → Nodes D
  write_node nodes p cell q = if q == p then cell else nodes q

  unfoldable pub load_node : Nodes D → Ptr → Run (Node D)
  load_node nodes p = elim (nodes p) [ none ↦ fault dangling | some n ↦ ok n ]

  -- `p->next = q`
  unfoldable pub set_next : Nodes D → Ptr → Ptr → Run (Nodes D)
  unfolding load_node write_node
  set_next nodes p q = do
    n ← load_node nodes p
    ok (write_node nodes p (some (record n { next = q })))

  -- the do-while loop of ll_search
  unfoldable pub search_loop : ℕ → Nodes D → Ptr → Text → Run Ptr
  unfolding load_node
  search_loop zero nodes handle key = fault out_of_fuel
  search_loop (suc fuel) nodes handle key = do
    n ← load_node nodes handle
    elim (streq n.key key) [
      | true ↦ ok handle
      | false ↦ elim (n.next == null) [ true ↦ ok null | false ↦ search_loop fuel nodes n.next key ]
    ]

  unfoldable pub ll_search : ℕ → Nodes D → Ptr → Text → Run Ptr
  unfolding search_loop
  ll_search fuel nodes first key =
      if first == null then fault assertion else search_loop fuel nodes first key

  -- the while loop of ll_insert
  unfoldable pub last_loop : ℕ → Nodes D → Ptr → Run Ptr
  unfolding load_node
  last_loop zero nodes handle = fault out_of_fuel
  last_loop (suc fuel) nodes handle = do
    n ← load_node nodes handle
    elim (n.next == null) [ true ↦ ok handle | false ↦ last_loop fuel nodes n.next ]

  -- what ll_insert does when ll_search has returned `found`
  unfoldable pub insert_last : ℕ → Nodes D → Ptr → Ptr → Ptr → Run (Nodes D × Bool)
  unfolding last_loop set_next
  insert_last fuel nodes first node found = elim (found == null) [
    | false ↦ ok (nodes, false)
    | true ↦ do
      handle ← last_loop fuel nodes first
      nodes ← set_next nodes handle node
      ok (nodes, true)
  ]

  unfoldable pub ll_insert : ℕ → Nodes D → Ptr → Ptr → Run (Nodes D × Bool)
  unfolding ll_search insert_last load_node
  ll_insert fuel nodes first node =
      if first == null then fault assertion else if node == null then fault assertion else do
        n ← load_node nodes node
        found ← ll_search fuel nodes first n.key
        insert_last fuel nodes first node found

  unfoldable pub h_insert_entry : ℕ → Store D → Ptr → Run (Store D × Bool)
  unfolding load_node ll_insert write_node
  h_insert_entry fuel st ent = do
    e ← load_node st.nodes ent
    let head = get_or st.h_table e.index null
    h ← load_node st.nodes head
    elim (h.index == no_index) [
      | true ↦ ok (
        record { nodes = write_node st.nodes head none; h_table = set st.h_table e.index ent },
        true,
      )
      | false ↦ do
        (nodes, done) ← ll_insert fuel st.nodes head ent
        ok (record st { nodes = nodes }, done)
    ]

  -- `fresh` is the address that `malloc` returns for the entry
  unfoldable pub h_insert : ℕ → Store D → (fresh : Ptr) → Text → D → Run (Store D × Bool)
  unfolding h_insert_entry write_node
  h_insert fuel st fresh key payload =
      let entry : Node D = record {
        index = hash key;
        key = key;
        payload = some payload;
        next = null;
      } in
      h_insert_entry fuel (record st { nodes = write_node st.nodes fresh (some entry) }) fresh

  -- the entry with the key in the bucket of `head`
  unfoldable pub get_at : ℕ → Nodes D → Ptr → Text → Run Ptr
  unfolding load_node ll_search
  get_at fuel nodes head key = do
    h ← load_node nodes head
    elim (h.index == no_index) [ true ↦ ok null | false ↦ ll_search fuel nodes head key ]

  unfoldable pub h_get_entry : ℕ → Store D → Text → Run Ptr
  unfolding get_at
  h_get_entry fuel st key = get_at fuel st.nodes (get_or st.h_table (hash key) null) key

  -- `found->data`, or NULL
  unfoldable pub data_of : Nodes D → Ptr → Run (Option D)
  unfolding load_node
  data_of nodes found = elim (found == null) [
    | true ↦ ok none
    | false ↦ do n ← load_node nodes found; ok n.payload
  ]

  unfoldable pub h_get : ℕ → Store D → Text → Run (Option D)
  unfolding h_get_entry data_of
  h_get fuel st key = do found ← h_get_entry fuel st key; data_of st.nodes found

  -- the loop of h_init; `fresh` holds the addresses that `malloc` returns
  unfoldable pub init_loop : List Ptr → Store D → Store D
  unfolding write_node
  init_loop [] st = st
  init_loop (p ∷ fresh) st = init_loop fresh (record {
    nodes =
        write_node st.nodes p
          (some (record { index = no_index; key = []; payload = none; next = null }));
    h_table = st.h_table ++ p ∷ [];
  })

  unfoldable pub h_init : Nodes D → (fresh : List Ptr) → Store D
  unfolding init_loop
  h_init nodes fresh = init_loop fresh (record { nodes = nodes; h_table = [] })

  -- the loop of h_remove that looks for `found`: the entry before it, and the entry itself
  unfoldable pub remove_loop : ℕ → Nodes D → Ptr → Ptr → Ptr → Run (Ptr × Ptr)
  unfolding load_node
  remove_loop zero nodes prev curr found = fault out_of_fuel
  remove_loop (suc fuel) nodes prev curr found = elim (curr == found) [
    | true ↦ ok (prev, curr)
    | false ↦ do n ← load_node nodes curr; remove_loop fuel nodes curr n.next found
  ]

  -- the data that is freed, and the entry that is unlinked or reset
  unfoldable pub take_out : Nodes D → Ptr → Ptr → Run (Nodes D × Option D)
  unfolding load_node set_next write_node
  take_out nodes prev curr = do
    c ← load_node nodes curr
    elim (prev == null) [
      | false ↦ do nodes ← set_next nodes prev c.next; ok (nodes, c.payload)
      | true ↦
          ok (write_node nodes curr (some (record c { index = no_index; next = null })), c.payload)
    ]

  -- what h_remove does when h_get_entry has returned `found`
  unfoldable pub remove_at : ℕ → Store D → Ptr → Ptr → Run (Store D × Bool × Option D)
  unfolding remove_loop take_out
  remove_at fuel st head found = elim (found == null) [
    | true ↦ ok (st, false, none)
    | false ↦ do
      (prev, curr) ← remove_loop fuel st.nodes null head found
      (nodes, freed) ← take_out st.nodes prev curr
      ok (record st { nodes = nodes }, true, freed)
  ]

  unfoldable pub h_remove : ℕ → Store D → Text → Run (Store D × Bool × Option D)
  unfolding h_get_entry remove_at
  h_remove fuel st key = do
    found ← h_get_entry fuel st key
    remove_at fuel st (get_or st.h_table (hash key) null) found

  -- the do-while loop of the first pass of ht_to_list over one bucket
  unfoldable pub count_loop : ℕ → Nodes D → Ptr → ℕ → Run ℕ
  unfolding load_node
  count_loop zero nodes handle cnt = fault out_of_fuel
  count_loop (suc fuel) nodes handle cnt = do
    n ← load_node nodes handle
    elim (n.next == null) [ true ↦ ok (cnt + 1) | false ↦ count_loop fuel nodes n.next (cnt + 1) ]

  -- the first pass, over the buckets that are left
  unfoldable pub count_table : ℕ → Nodes D → List Ptr → ℕ → Run ℕ
  unfolding load_node count_loop
  count_table fuel nodes [] cnt = ok cnt
  count_table fuel nodes (head ∷ heads) cnt = do
    h ← load_node nodes head
    cnt ← elim (h.index == no_index) [ true ↦ ok cnt | false ↦ count_loop fuel nodes head cnt ]
    count_table fuel nodes heads cnt

  -- the do-while loop of the second pass; `list[ind++]` appends to what has been written
  unfoldable pub copy_loop : ℕ → Nodes D → Ptr → List (Option D) → Run (List (Option D))
  unfolding load_node
  copy_loop zero nodes handle list = fault out_of_fuel
  copy_loop (suc fuel) nodes handle list = do
    n ← load_node nodes handle
    elim (n.next == null) [
      | true ↦ ok (list ++ n.payload ∷ [])
      | false ↦ copy_loop fuel nodes n.next (list ++ n.payload ∷ [])
    ]

  unfoldable pub copy_table : ℕ → Nodes D → List Ptr → List (Option D) → Run (List (Option D))
  unfolding load_node copy_loop
  copy_table fuel nodes [] list = ok list
  copy_table fuel nodes (head ∷ heads) list = do
    h ← load_node nodes head
    list ← elim (h.index == no_index) [ true ↦ ok list | false ↦ copy_loop fuel nodes head list ]
    copy_table fuel nodes heads list

  -- the cells that are allocated, the list, and the size that is stored through the pointer
  unfoldable pub ht_to_list : ℕ → Store D → Run (ℕ × List (Option D) × ℕ)
  unfolding count_table copy_table
  ht_to_list fuel st = do
    cnt ← count_table fuel st.nodes st.h_table 0
    list ← copy_table fuel st.nodes st.h_table []
    ok (cnt, list, length list)
