-- ===== src/Store/Rep.antt =====
-- The store of Assig3/hashtable.c against the table of lists, and h_get on both.
use c.Base.{
  ℕ, zero, suc, ◌<◌, ◌≤◌, ◌≡◌, ◌≢◌, refl, ◌∙◌, true, false, Option, none, some, List, [], ◌∷◌,
  arith, ◌==◌, length, get_or, Text,
}
use c.Base.Run.{ok}
use c.HashTable
use c.HashTable.{
  Entry, Bucket, vacant, used, Table, hash, ht_siz, entries, slot, get_bucket, payload_at, deref,
}
use c.HashTable.Chain.{ll_search-suc, All}
use c.HashTable.Slot.{InPlace, IsValid, hash-lt, get_bucket-ll_search}
use c.Store.{
  Ptr, null, no_index, Node, Nodes, Store, load_node, ll_search, get_at, h_get_entry, data_of,
  h_get,
}
use c.Store.Chain.{cell, IsChain, nth, address, not_null, search_loop_lem, at}

pub in_use : (i n : ℕ) → n ≡ i → i < ht_siz → (n == no_index) ≡ false
in_use i n h lt = ground arith

module _ {ℓ} {D : Type ℓ} where
  -- the bucket whose first entry is at `p`
  abbrev pub IsBucket : Nodes D → Ptr → Bucket D → Type ℓ
  IsBucket nodes p vacant = (n : Node D) × (nodes p ≡ some n) × (n.index ≡ no_index)
  IsBucket nodes p (used e es) = IsChain nodes p (e ∷ es)

  abbrev pub head : Store D → ℕ → Ptr
  head st i = get_or st.h_table i null

  -- the store holds the table
  pub record IsStore (st : Store D) (t : Table D) : Type ℓ where
    pub width : length st.h_table ≡ ht_siz
    pub buckets : (i : ℕ) → i < ht_siz → IsBucket st.nodes (head st i) (slot t i)
    pub apart : (i j : ℕ) → i < ht_siz → j < ht_siz → head st i ≡ head st j → i ≡ j

  pub ll_search_lt :
      (es : List (Entry D)) (key : Text) (i : ℕ)
      → HashTable.ll_search es key ≡ some i
      → i < length es
  unfolding HashTable.ll_search
  ll_search_lt [] key i h = cc
  ll_search_lt (e ∷ es) key zero h = omega arith
  ll_search_lt (e ∷ es) key (suc i) h =
      let found = ll_search_lt es key i (ll_search-suc e es key i h).1 in omega arith

  module _ (nodes : Nodes D) (p : Ptr) where
    get_round :
        (fuel : ℕ) (n : Node D) (key : Text)
        → nodes p ≡ some n
        → get_at fuel nodes p key
          ≡ (elim (n.index == no_index) [ true ↦ ok null | false ↦ ll_search fuel nodes p key ])
    unfolding get_at
    get_round fuel n key h = rw (load_node, h)

    pub get_at_lem :
        (fuel i : ℕ) (b : Bucket D) (key : Text)
        → i < ht_siz
        → IsBucket nodes p b
        → All (InPlace i) (entries b)
        → length (entries b) ≤ fuel
        → get_at fuel nodes p key ≡ ok (address nodes p (HashTable.ll_search (entries b) key))
    unfolding ll_search HashTable.ll_search
    get_at_lem fuel i vacant key lt (n, h, free) placed enough = get_round fuel n key h ∙ rw free
    get_at_lem fuel i (used e es) key lt chain placed enough =
        let (ne, next, here, rest) = chain in
        get_round fuel (cell e next) key here
        ∙ rw (in_use i e.index placed.0.0 lt, not_null nodes p ne)
            (search_loop_lem nodes fuel p e es key chain (omega arith))

    pub data_round : (n : Node D) → p ≢ null → nodes p ≡ some n → data_of nodes p ≡ ok n.payload
    unfolding data_of
    data_round n ne h = rw (data_of, not_null nodes p ne, load_node, h)

  module _ (nodes : Nodes D) (p : Ptr) where
    -- the data at the address is the payload that the list model reads
    pub data_of_lem :
        (es : List (Entry D)) (key : Text)
        → IsChain nodes p es
        → data_of nodes (address nodes p (HashTable.ll_search es key))
          ≡ ok (deref es (HashTable.ll_search es key))
    unfolding data_of payload_at HashTable.ll_search
    data_of_lem es key chain = go (HashTable.ll_search es key) (λ i h. ll_search_lt es key i h)
      where
        go :
            (o : Option ℕ)
            → ((i : ℕ) → o ≡ some i → i < length es)
            → data_of nodes (address nodes p o) ≡ ok (deref es o)
        go none lt = refl
        go (some i) lt =
            let a = at nodes p es i chain (lt i refl) in
            data_round nodes (nth nodes p i) (cell a.entry a.next) a.live a.holds ∙ rw a.listed

  module _ {st : Store D} {t : Table D} (rep : IsStore st t) (valid : IsValid t) (key : Text) where
    -- With a round for each entry of the key's bucket, h_get follows the links without a fault and
    -- returns what the table of lists returns.
    pub h_get-IsStore :
        (fuel : ℕ)
        → length (entries (slot t (hash key))) ≤ fuel
        → h_get fuel st key ≡ ok (HashTable.h_get t key)
    unfolding h_get h_get_entry HashTable.h_get HashTable.h_get_entry
    h_get-IsStore fuel enough =
        let i = hash key in
        let b = slot t i in
        let p = head st i in
        let found =
          get_at_lem st.nodes p fuel i b key (hash-lt key) (rep.buckets i (hash-lt key))
            (valid.placed i) enough in
        rw (found, get_bucket-ll_search b key) (of_bucket b (rep.buckets i (hash-lt key)))
      where
        of_bucket :
            (b : Bucket D)
            → IsBucket st.nodes (head st (hash key)) b
            → data_of st.nodes
                (address st.nodes (head st (hash key)) (HashTable.ll_search (entries b) key))
              ≡ ok (deref (entries b) (HashTable.ll_search (entries b) key))
        of_bucket vacant is = refl
        of_bucket (used e es) is = data_of_lem st.nodes (head st (hash key)) (e ∷ es) key is
