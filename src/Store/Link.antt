-- ===== src/Store/Link.antt =====
-- ll_insert of Assig3/hashtable.c on a chain of cells and on the list of its entries.
use c.Base.{
  ℕ, zero, suc, ◌<◌, ◌≡◌, ◌≢◌, refl, sym, ap, ◌∙◌, Bool, true, false, Option, none, some, List, [],
  ◌∷◌, arith, is_some, length, get_elem?, some-injective,
}
use mathlib.Core.Path.{subst}
use c.Base.Run.{ok, Returns, returns}
use c.HashTable
use c.HashTable.{
  Entry, Bucket, vacant, used, Table, hash, ht_siz, entries, slot, link_last, insert_bucket,
}
use c.HashTable.Chain.{All, find, Distinct, is_some-ll_search}
use c.HashTable.Slot.{InPlace}
use c.Store.{
  Ptr, null, Node, Nodes, write_node, load_node, set_next, ll_search, ll_insert, insert_last,
}
use c.Store.Chain.{cell, IsChain, nth, address, not_null, search_loop_lem, last_loop_lem, At, at}
use c.Store.Rep.{IsBucket, ll_search_lt}
use c.Store.Cells.{write_other, IsChain-link_last}

module _ {ℓ} {D : Type ℓ} where
  pub All-at {κ} :
      (P : Entry D → Type κ) (es : List (Entry D)) (i : ℕ)
      → All P es
      → (e : Entry D) → get_elem? es i ≡ some e
      → P e
  All-at P [] i a e h = cc
  All-at P (x ∷ es) zero a e h = subst P (some-injective h) a.0
  All-at P (x ∷ es) (suc i) a e h = All-at P es i a.1 e h

  -- what ll_insert does to a bucket whose entries have the index `i`
  pub record Linked (nodes : Nodes D) (p : Ptr) (i : ℕ) (b : Bucket D × Bool) (r : Nodes D × Bool)
      : Type ℓ where
    pub bucket : IsBucket r.0 p b.0
    pub flag : r.1 ≡ b.1
    pub same : (a : Ptr) (n : Node D) → nodes a ≡ some n → n.index ≢ i → r.0 a ≡ nodes a

  module _ (fuel : ℕ) (nodes : Nodes D) (p q i : ℕ) (e : Entry D) (es : List (Entry D))
      (new : Entry D) (chain : IsChain nodes p (e ∷ es)) (distinct : Distinct (e ∷ es))
      (placed : All (InPlace i) (e ∷ es)) (live : q ≢ null)
      (new_here : nodes q ≡ some (cell new null)) (enough : length es < fuel) where
    ll_insert_round :
        ll_insert fuel nodes p q
        ≡ insert_last fuel nodes p q (address nodes p (HashTable.ll_search (e ∷ es) new.key))
    unfolding ll_insert ll_search
    ll_insert_round = rw (
      not_null nodes p chain.0,
      not_null nodes q live,
      load_node,
      new_here,
      search_loop_lem nodes fuel p e es new.key chain enough,
    )

    found_round : (r : Ptr) → r ≢ null → insert_last fuel nodes p q r ≡ ok (nodes, false)
    unfolding insert_last
    found_round r ne = rw (insert_last, not_null nodes r ne)

    -- the cell of the last entry
    last : At nodes p (e ∷ es) (length es)
    last = at nodes p (e ∷ es) (length es) chain (omega arith)

    linked : Nodes D
    linked = write_node nodes (nth nodes p (length es)) (some (cell last.entry q))

    absent_round : insert_last fuel nodes p q null ≡ ok (linked, true)
    unfolding insert_last set_next linked
    absent_round = rw (last_loop_lem nodes fuel p e es chain enough, load_node, last.holds)

    Linked-round :
        (o : Option ℕ)
        → HashTable.ll_search (e ∷ es) new.key ≡ o
        → Returns
            (Linked nodes p i (HashTable.ll_insert e es new))
            (insert_last fuel nodes p q (address nodes p o))
    unfolding HashTable.ll_insert linked link_last
    Linked-round (some j) h =
        let a = at nodes p (e ∷ es) j chain (ll_search_lt (e ∷ es) new.key j h) in
        rw (found_round (nth nodes p j) a.live, h)
          (returns (record { bucket = chain; flag = refl; same = λ a n here other. refl }))
    Linked-round none h =
        let r = nth nodes p (length es) in
        let absent : find new.key (e ∷ es) ≡ none =
          is_none _ (sym (is_some-ll_search (e ∷ es) new.key) ∙ ap is_some h) in
        let in_place = All-at (InPlace i) (e ∷ es) (length es) placed last.entry last.listed in
        rw (absent_round, h)
          (returns (record {
            bucket =
                IsChain-link_last nodes p e es q r new last.entry last.next chain distinct absent
                  live new_here refl last.holds last.listed;
            flag = refl;
            same = λ a n here other.
                write_other nodes r (some (cell last.entry q)) a
                  (λ z. other (index_of a n z here in_place.0));
          }))
      where
        is_none : (o : Option D) → is_some o ≡ false → o ≡ none
        is_none none x = refl
        is_none (some d) x = cc

        index_of :
            (a : Ptr) (n : Node D)
            → a ≡ nth nodes p (length es)
            → nodes a ≡ some n
            → last.entry.index ≡ i
            → n.index ≡ i
        index_of a n z here x =
            let m : n ≡ cell last.entry last.next =
              some-injective (sym here ∙ ap nodes z ∙ last.holds) in
            ap (λ (y : Node D). y.index) m ∙ x

    pub ll_insert_lem :
        Returns (Linked nodes p i (HashTable.ll_insert e es new)) (ll_insert fuel nodes p q)
    ll_insert_lem = rw ll_insert_round (Linked-round (HashTable.ll_search (e ∷ es) new.key) refl)
