-- ===== src/Store/Cells.antt =====
-- Writes to the cells of a chain in the store of Assig3/hashtable.c.
use c.Base.{
  ◌⊎◌, ℕ, zero, suc, ◌<◌, ◌≡◌, ◌≢◌, refl, sym, ap, ◌∙◌, inl, inr, false, Option, none, some, List,
  [], ◌∷◌, arith, ◌==◌, ==_iff, length, get_elem?, set, Text, streq, streq_refl, Bool-cases,
  false-ne-true, none-ne-some, some-injective,
}
use c.HashTable.{Entry, Bucket, vacant, used, Table, ht_siz, entries, slot, link_last}
use c.HashTable.Chain.{All, find, Distinct}
use c.HashTable.Slot.{InPlace, slot-set}
use c.Store.{Ptr, null, no_index, Node, Nodes, Store, write_node}
use c.Store.Chain.{cell, IsChain, nth, nth-suc, frame}
use c.Store.Rep.{IsBucket, head, IsStore}

module _ {ℓ} {D : Type ℓ} where
  pub write_self : (nodes : Nodes D) (p : Ptr) (c : Option (Node D)) → write_node nodes p c p ≡ c
  unfolding write_node
  write_self nodes p c = ground arith

  pub write_other :
      (nodes : Nodes D) (p : Ptr) (c : Option (Node D)) (q : Ptr)
      → q ≢ p
      → write_node nodes p c q ≡ nodes q
  unfolding write_node
  write_other nodes p c q ne = ground arith

  -- two cells with different keys have different addresses
  pub apart_by_key :
      (nodes : Nodes D) (p q : Ptr) (n m : Node D)
      → nodes p ≡ some n
      → nodes q ≡ some m
      → streq n.key m.key ≡ false
      → p ≢ q
  apart_by_key nodes p q n m hp hq differ same =
      let e : n ≡ m = some-injective (sym hp ∙ ap nodes same ∙ hq) in
      false-ne-true (sym differ ∙ ap (λ (x : Node D). streq x.key m.key) e ∙ streq_refl m.key)

  -- a chain whose entries have other keys than the written cell is kept
  pub frame_key :
      (nodes : Nodes D) (q : Ptr) (m : Node D) (c : Option (Node D)) (p : Ptr) (es : List (Entry D))
      → nodes q ≡ some m
      → find m.key es ≡ none
      → IsChain nodes p es
      → IsChain (write_node nodes q c) p es
  unfolding find
  frame_key nodes q m c p [] hq absent chain = chain
  frame_key nodes q m c p (e ∷ es) hq absent (ne, next, here, rest) =
      elim (Bool-cases (streq e.key m.key)) [
        | inl same ↦ absurd (none-ne-some (sym (rw same at absent)))
        | inr other ↦ (
          ne,
          next,
          write_other nodes q c p (apart_by_key nodes p q (cell e next) m here hq other) ∙ here,
          frame_key nodes q m c next es hq (rw other at absent) rest,
        )
      ]

  pub absent_cons :
      (x : Entry D) (es : List (Entry D)) (k : Text)
      → find k (x ∷ es) ≡ none
      → (streq x.key k ≡ false) × (find k es ≡ none)
  unfolding find
  absent_cons x es k h = elim (Bool-cases (streq x.key k)) [
    | inl same ↦ absurd (none-ne-some (sym (rw same at h)))
    | inr other ↦ (other, rw other at h)
  ]

  pub find-at :
      (es : List (Entry D)) (k : Text) (i : ℕ) (e : Entry D)
      → find k es ≡ none
      → get_elem? es i ≡ some e
      → streq e.key k ≡ false
  find-at [] k i e absent h = cc
  find-at (x ∷ es) k zero e absent h =
      ap (λ (y : Entry D). streq y.key k) (sym (some-injective h)) ∙ (absent_cons x es k absent).0
  find-at (x ∷ es) k (suc i) e absent h = find-at es k i e (absent_cons x es k absent).1 h

  -- the last entry of a chain, at `r`, is linked to a new one
  pub IsChain-link_last :
      (nodes : Nodes D) (p : Ptr) (e : Entry D) (es : List (Entry D)) (q r : Ptr)
      (new last : Entry D) (old : Ptr)
      → IsChain nodes p (e ∷ es)
      → Distinct (e ∷ es)
      → find new.key (e ∷ es) ≡ none
      → q ≢ null
      → nodes q ≡ some (cell new null)
      → r ≡ nth nodes p (length es)
      → nodes r ≡ some (cell last old)
      → get_elem? (e ∷ es) (length es) ≡ some last
      → IsChain (write_node nodes r (some (cell last q))) p (link_last (e ∷ es) new)
  unfolding link_last nth
  IsChain-link_last nodes p e [] q r new last old (ne, next, here, rest) distinct absent live
        new_here at_r holds listed =
      let e-last : e ≡ last = some-injective listed in
      let other = (absent_cons e [] new.key absent).0 in
      let q-r : q ≢ r = λ same.
        apart_by_key nodes p q (cell e next) (cell new null) here new_here other
          (sym (same ∙ at_r)) in
      rw (← at_r, e-last)
        (
          λ z. ne (sym at_r ∙ z),
          q,
          write_self nodes r (some (cell last q)),
          (live, null, write_other nodes r (some (cell last q)) q q-r ∙ new_here, (refl, tt)),
        )
  IsChain-link_last nodes p e (e' ∷ es) q r new last old (ne, next, here, rest) distinct absent live
        new_here at_r holds listed =
      let differ = find-at (e' ∷ es) e.key (length es) last distinct.0 listed in
      let r-p : r ≢ p = apart_by_key nodes r p (cell last old) (cell e next) holds here differ in
      (
        ne,
        next,
        write_other nodes r (some (cell last q)) p (λ z. r-p (sym z)) ∙ here,
        IsChain-link_last nodes next e' es q r new last old rest distinct.1
            (absent_cons e (e' ∷ es) new.key absent).1 live new_here
            (at_r ∙ nth-suc nodes p e next (length es) here) holds listed,
      )

  -- a bucket is kept by a change that spares its first cell and the cells of its index
  pub IsBucket-keep :
      (nodes nodes' : Nodes D) (p : Ptr) (j : ℕ) (b : Bucket D)
      → All (InPlace j) (entries b)
      → ((a : Ptr) (n : Node D)
          → nodes a ≡ some n
          → (n.index ≡ j) ⊎ (a ≡ p) × (n.index ≡ no_index)
          → nodes' a ≡ nodes a)
      → IsBucket nodes p b
      → IsBucket nodes' p b
  IsBucket-keep nodes nodes' p j vacant placed same (n, here, free) =
      (n, same p n here (inr (refl, free)) ∙ here, free)
  IsBucket-keep nodes nodes' p j (used e es) placed same chain =
      frame (InPlace j) nodes nodes'
        (λ a x next in_place here. same a (cell x next) here (inl in_place.0)) p (e ∷ es) placed
        chain

  -- one bucket of the table is replaced
  pub IsStore-set :
      {st : Store D} {t : Table D} (st' : Store D) (i : ℕ) (b : Bucket D)
      → IsStore st t
      → length t ≡ ht_siz
      → i < ht_siz
      → length st'.h_table ≡ ht_siz
      → IsBucket st'.nodes (head st' i) b
      → ((j : ℕ) → j < ht_siz → i ≢ j → IsBucket st'.nodes (head st' j) (slot t j))
      → ((j k : ℕ) → j < ht_siz → k < ht_siz → head st' j ≡ head st' k → j ≡ k)
      → IsStore st' (set t i b)
  IsStore-set {st} {t} st' i b rep width lt width' at_i others apart = record {
    width = width';
    buckets = λ j jlt. rw (slot-set t i j b (omega arith)) (elim (Bool-cases (i == j)) [
      | inl same ↦ rw (same, ← (==_iff i j).0 same) at_i
      | inr other ↦ rw other (others j jlt (ground arith))
    ]);
    apart = apart;
  }
