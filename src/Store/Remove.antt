-- ===== src/Store/Remove.antt =====
-- h_remove of Assig3/hashtable.c on the store and on the table of lists.
use mathlib.Core.Option
use c.Base.{
  ℕ, zero, suc, ◌<◌, ◌≤◌, ◌≡◌, ◌≢◌, ◌⊎◌, refl, sym, ap, ◌∙◌, inl, inr, Bool, true, Option, none,
  some, List, ◌∷◌, arith, length, Text, none-ne-some, some-injective,
}
use mathlib.Core.Path.{subst}
use c.Base.Run.{ok, ◌>>=◌, Returns, returns, bind}
use c.HashTable
use c.HashTable.{
  unlink, remove_bucket, remove_found, payload_at, get_bucket, Entry, Bucket, vacant, used, Table,
  hash, ht_siz, entries, slot, link_last, insert_bucket,
}
use c.HashTable.Chain.{All, Distinct}
use c.HashTable.Slot.{get_bucket-ll_search, InPlace, IsValid, hash-lt}
use c.Store.{
  remove_loop, take_out, remove_at, h_remove, h_get_entry, remove_loop, Ptr, null, no_index, Node,
  Nodes, Store, write_node, set_next,
}
use c.Store.Chain.{cell, IsChain, nth, address, load-cell, not_null, at}
use c.Store.Link.{All-at}
use c.Store.Rep.{get_at_lem, IsBucket, head, IsStore, ll_search_lt}
use c.Store.Cells.{write_self, write_other, IsBucket-keep, IsStore-set}
use c.Store.Walk.{before, remove_loop_lem, IsChain-unlink}

module _ {ℓ} {D : Type ℓ} where
  take_unlink_round :
      (nodes : Nodes D) (prev curr : Ptr) (m x : Node D)
      → prev ≢ null
      → nodes prev ≡ some m
      → nodes curr ≡ some x
      → take_out nodes prev curr
        ≡ ok (write_node nodes prev (some (record m { next = x.next })), x.payload)
  unfolding take_out set_next
  take_unlink_round nodes prev curr m x ne at_prev at_curr =
      rw (load-cell nodes curr x at_curr, not_null nodes prev ne, load-cell nodes prev m at_prev)

  take_reset_round :
      (nodes : Nodes D) (curr : Ptr) (x : Node D)
      → nodes curr ≡ some x
      → take_out nodes null curr
        ≡ ok (write_node nodes curr (some (record x { index = no_index; next = null })), x.payload)
  unfolding take_out
  take_reset_round nodes curr x at_curr = rw (load-cell nodes curr x at_curr)

  -- what taking the entry at position `j` out does to a bucket whose entries have the index `i`
  record Removed (nodes : Nodes D) (p : Ptr) (i : ℕ) (es : Bucket D) (j : ℕ)
      (r : Nodes D × Option D) : Type ℓ where
    bucket : IsBucket r.0 p (remove_bucket es j)
    freed : r.1 ≡ payload_at (entries es) j
    same : (a : Ptr) (n : Node D) → nodes a ≡ some n → n.index ≢ i → r.0 a ≡ nodes a

  module _ (nodes : Nodes D) (p i : ℕ) (e : Entry D) (es : List (Entry D))
      (chain : IsChain nodes p (e ∷ es)) (distinct : Distinct (e ∷ es))
      (placed : All (InPlace i) (e ∷ es)) where
    written_same :
        (r : Ptr) (m : Entry D) (c : Ptr) (cell' : Option (Node D))
        → nodes r ≡ some (cell m c)
        → m.index ≡ i
        → (a : Ptr) (n : Node D) → nodes a ≡ some n
        → n.index ≢ i
        → write_node nodes r cell' a ≡ nodes a
    written_same r m c cell' at_r in_place a n here other = write_other nodes r cell' a (λ z.
        other
          (ap (λ (y : Node D). y.index) (some-injective (sym here ∙ ap nodes z ∙ at_r)) ∙ in_place))

    take_out_lem :
        (j : ℕ)
        → j < length (e ∷ es)
        → Returns
            (Removed nodes p i (used e es) j)
            (take_out nodes (before nodes null p j) (nth nodes p j))
    unfolding before nth remove_bucket payload_at
    take_out_lem zero lt =
        let (ne, next, here, rest) = chain in
        rw (take_reset_round nodes p (cell e next) here) (
          returns (record {
            bucket = (_, write_self nodes p _, refl);
            freed = refl;
            same = written_same p e next _ here placed.0.0;
          }))
    take_out_lem (suc j) lt =
        let prev = at nodes p (e ∷ es) j chain (omega arith) in
        let curr = at nodes p (e ∷ es) (suc j) chain lt in
        rw
          (take_unlink_round nodes (nth nodes p j) (nth nodes p (suc j)) (cell prev.entry prev.next)
            (cell curr.entry curr.next) prev.live prev.holds curr.holds)
          (returns (record {
            bucket =
                IsChain-unlink nodes p e es j prev.entry curr.entry prev.next curr.next chain
                  distinct (omega arith) prev.holds prev.listed curr.holds;
            freed = sym (ap (Option.map (λ (y : Entry D). y.payload)) curr.listed);
            same =
                written_same (nth nodes p j) prev.entry prev.next _ prev.holds
                  (All-at (InPlace i) (e ∷ es) j placed prev.entry prev.listed).0;
          }))

  remove_at_round :
      (fuel : ℕ) (st : Store D) (head found prev curr : Ptr)
      → found ≢ null
      → remove_loop fuel st.nodes null head found ≡ ok (prev, curr)
      → remove_at fuel st head found
        ≡ (take_out st.nodes prev curr >>= λ r. ok (record st { nodes = r.0 }, true, r.1))
  unfolding remove_at
  remove_at_round fuel st head found prev curr ne walk =
      rw (remove_at, not_null st.nodes found ne, walk)

  -- the result over the store agrees with the result over the table of lists
  abbrev pub RemoveAgrees : Table D × Bool × Option D → Store D × Bool × Option D → Type ℓ
  RemoveAgrees x r = IsStore r.0 x.0 × (r.1 ≡ x.1) × (r.2 ≡ x.2)

  module _ {st : Store D} {t : Table D} (fuel : ℕ) (key : Text) (rep : IsStore st t)
      (valid : IsValid t) (enough : length (entries (slot t (hash key))) ≤ fuel) where
    in_bucket : hash key < ht_siz
    in_bucket = hash-lt key

    first : Ptr
    first = head st (hash key)

    get_round :
        (o : Option ℕ)
        → HashTable.ll_search (entries (slot t (hash key))) key ≡ o
        → h_remove fuel st key ≡ remove_at fuel st first (address st.nodes first o)
    unfolding h_remove h_get_entry first
    get_round o h = rw (
      get_at_lem st.nodes first fuel (hash key) (slot t (hash key)) key in_bucket
          (rep.buckets (hash key) in_bucket) (valid.placed (hash key)) enough,
      h,
    )

    table_remove :
        (o : Option ℕ)
        → HashTable.ll_search (entries (slot t (hash key))) key ≡ o
        → HashTable.h_remove t key ≡ remove_found t (hash key) o
    unfolding HashTable.h_remove HashTable.h_get_entry
    table_remove o h = rw (get_bucket-ll_search (slot t (hash key)) key, h)

    remove_used :
        (e : Entry D) (es : List (Entry D)) (j : ℕ)
        → slot t (hash key) ≡ used e es
        → j < length (e ∷ es)
        → Returns
            (RemoveAgrees (remove_found t (hash key) (some j)))
            (remove_at fuel st first (nth st.nodes first j))
    unfolding remove_found first
    remove_used e es j h lt =
        let chain = subst (IsBucket st.nodes first) h (rep.buckets (hash key) in_bucket) in
        let distinct = subst (λ b. Distinct (entries b)) h (valid.distinct (hash key)) in
        let placed =
          subst (λ b. All (InPlace (hash key)) (entries b)) h (valid.placed (hash key)) in
        let a = at st.nodes first (e ∷ es) j chain lt in
        let walk =
          remove_loop_lem st.nodes fuel null first (e ∷ es) j chain distinct lt
            (omega (arith, lt, enough, ap (λ b. length (entries b)) h)) in
        rw (remove_at_round fuel st first (nth st.nodes first j) _ _ a.live walk, h)
          (bind (take_out_lem st.nodes first (hash key) e es chain distinct placed j lt)
            (λ r removed. returns (
              IsStore-set _ (hash key) (remove_bucket (used e es) j) rep valid.width in_bucket
                  rep.width removed.bucket
                  (λ i ilt ne.
                    IsBucket-keep st.nodes r.0 (head st i) i (slot t i) (valid.placed i)
                      (λ a m here why. removed.same a m here (other i m ilt ne why))
                      (rep.buckets i ilt))
                  rep.apart,
              refl,
              removed.freed,
            )))
      where
        other :
            (i : ℕ) (m : Node D) {a p : Ptr}
            → i < ht_siz
            → hash key ≢ i
            → (m.index ≡ i) ⊎ (a ≡ p) × (m.index ≡ no_index)
            → m.index ≢ hash key
        other i m lt ne (inl x) z = ne (sym z ∙ x)
        other i m lt ne (inr x) z = let y = x.1 in let lt' = in_bucket in omega arith

    absent : Returns (RemoveAgrees (remove_found t (hash key) none)) (remove_at fuel st first null)
    unfolding remove_found remove_at
    absent = returns (rep, refl, refl)

    -- With a round for each entry of the key's bucket, h_remove ends without a fault, in a store of the
    -- table that the list model returns, with its flag and the same freed data.
    pub h_remove-IsStore : Returns (RemoveAgrees (HashTable.h_remove t key)) (h_remove fuel st key)
    unfolding HashTable.ll_search
    h_remove-IsStore =
        by_bucket (slot t (hash key)) refl (HashTable.ll_search (entries (slot t (hash key))) key)
          refl
      where
        by_bucket :
            (b : Bucket D)
            → slot t (hash key) ≡ b
            → (o : Option ℕ) → HashTable.ll_search (entries (slot t (hash key))) key ≡ o
            → Returns (RemoveAgrees (HashTable.h_remove t key)) (h_remove fuel st key)
        by_bucket b h none x = rw (get_round none x, table_remove none x) absent
        by_bucket vacant h (some j) x =
            absurd (none-ne-some (ap (λ b. HashTable.ll_search (entries b) key) (sym h) ∙ x))
        by_bucket (used e es) h (some j) x =
            rw (get_round (some j) x, table_remove (some j) x)
              (remove_used e es j h (
                ll_search_lt (e ∷ es) key j
                  (ap (λ b. HashTable.ll_search (entries b) key) (sym h) ∙ x)))
