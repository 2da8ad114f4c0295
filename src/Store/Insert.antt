-- ===== src/Store/Insert.antt =====
-- h_insert of Assig3/hashtable.c on the store and on the table of lists.
use c.Base.{
  ℕ, ◌<◌, ◌≤◌, ◌≡◌, ◌≢◌, ◌⊎◌, refl, sym, ap, ◌∙◌, inl, inr, Bool, true, false, none, some, List, [],
  arith, ◌==◌, ==_iff, length, length-set, get_or, set, get_or-set_self, get_or-set_ne, Text,
  Bool-cases, none-ne-some, some-injective,
}
use mathlib.Core.Path.{subst}
use c.Base.Run.{Run, ok, ◌>>=◌, Returns, returns, bind}
use c.HashTable
use c.HashTable.{
  Entry, Bucket, vacant, used, Table, hash, ht_siz, entries, slot, link_last, insert_bucket,
}
use c.HashTable.Chain.{All, Distinct}
use c.HashTable.Slot.{InPlace, IsValid, hash-lt}
use c.Store.{
  Ptr, null, no_index, Node, Nodes, Store, write_node, load_node, ll_insert, h_insert_entry,
  h_insert,
}
use c.Store.Chain.{cell, load-cell}
use c.Store.Link.{ll_insert_lem}
use c.Store.Rep.{in_use, IsBucket, head, IsStore}
use c.Store.Cells.{write_self, write_other, IsBucket-keep, IsStore-set}

module _ {ℓ} {D : Type ℓ} where
  -- the result over the store agrees with the result over the table of lists
  abbrev pub Agree : Table D × Bool → Store D × Bool → Type ℓ
  Agree x r = IsStore r.0 x.0 × (r.1 ≡ x.1)

  -- h_insert_entry once the two entries are read
  unfoldable at_head : ℕ → Nodes D → List Ptr → ℕ → Ptr → Node D → Run (Store D × Bool)
  at_head fuel nodes heads i ent h = elim (h.index == no_index) [
    | true ↦ ok (
      record { nodes = write_node nodes (get_or heads i null) none; h_table = set heads i ent },
      true,
    )
    | false ↦ do
      (nodes, done) ← ll_insert fuel nodes (get_or heads i null) ent
      ok (record { nodes = nodes; h_table = heads }, done)
  ]

  two_loads :
      (fuel : ℕ) (nodes : Nodes D) (heads : List Ptr) (ent : Ptr) (e h : Node D)
      → nodes ent ≡ some e
      → nodes (get_or heads e.index null) ≡ some h
      → h_insert_entry fuel (record { nodes = nodes; h_table = heads }) ent
        ≡ at_head fuel nodes heads e.index ent h
  unfolding h_insert_entry at_head
  two_loads fuel nodes heads ent e h at_ent at_h =
      ap (λ m. m >>= rest) (load-cell nodes ent e at_ent)
      ∙ ap (λ m. m >>= at_head fuel nodes heads e.index ent)
          (load-cell nodes (get_or heads e.index null) h at_h)
    where
      rest : Node D → Run (Store D × Bool)
      rest e = load_node nodes (get_or heads e.index null) >>= at_head fuel nodes heads e.index ent

  module _ {st : Store D} {t : Table D} (fuel : ℕ) (fresh : Ptr) (k : Text) (d : D)
      (rep : IsStore st t) (valid : IsValid t) (unused : st.nodes fresh ≡ none)
      (live : fresh ≢ null) (enough : length (entries (slot t (hash k))) ≤ fuel) where
    abbrev new : Entry D
    new = record { index = hash k; key = k; payload = d }

    with_new : Nodes D
    with_new = write_node st.nodes fresh (some (cell new null))

    new_here : with_new fresh ≡ some (cell new null)
    unfolding with_new
    new_here = write_self st.nodes fresh (some (cell new null))

    old_there : (a : Ptr) (n : Node D) → st.nodes a ≡ some n → with_new a ≡ some n
    unfolding with_new
    old_there a n here =
        write_other st.nodes fresh (some (cell new null)) a
          (λ z. none-ne-some (sym unused ∙ ap st.nodes (sym z) ∙ here))
        ∙ here

    IsBucket-with_new : (i : ℕ) → i < ht_siz → IsBucket with_new (head st i) (slot t i)
    IsBucket-with_new i lt =
        IsBucket-keep st.nodes with_new (head st i) i (slot t i) (valid.placed i)
          (λ a n here z. old_there a n here ∙ sym here) (rep.buckets i lt)

    in_bucket : hash k < ht_siz
    in_bucket = hash-lt k

    not_head : (j : ℕ) → j < ht_siz → head st j ≢ fresh
    not_head j lt z = allocated (slot t j) (rep.buckets j lt)
      where
        clash : (n : Node D) → st.nodes (head st j) ≡ some n → ⊥
        clash n here = none-ne-some (sym unused ∙ ap st.nodes (sym z) ∙ here)

        allocated : (b : Bucket D) → IsBucket st.nodes (head st j) b → ⊥
        allocated vacant (n, here, free) = clash n here
        allocated (used e es) (ne, next, here, rest) = clash (cell e next) here

    head_set_self : get_or (set st.h_table (hash k) fresh) (hash k) null ≡ fresh
    head_set_self =
        get_or-set_self st.h_table (hash k) fresh null (omega (arith, rep.width, in_bucket))

    head_set_other :
        (j : ℕ) → hash k ≢ j → get_or (set st.h_table (hash k) fresh) j null ≡ head st j
    head_set_other j ne = get_or-set_ne st.h_table (hash k) j fresh null ne

    heads : List Ptr
    heads = set st.h_table (hash k) fresh

    head_cases :
        (j : ℕ)
        → (hash k ≡ j) × (get_or heads j null ≡ fresh)
          ⊎ (hash k ≢ j) × (get_or heads j null ≡ head st j)
    unfolding heads
    head_cases j = elim (Bool-cases (hash k == j)) [
      | inl x ↦ inl (
        (==_iff (hash k) j).0 x,
        ap (λ y. get_or heads y null) (sym ((==_iff (hash k) j).0 x)) ∙ head_set_self,
      )
      | inr x ↦ let ne : hash k ≢ j = ground arith in inr (ne, head_set_other j ne)
    ]

    apart : (j i : ℕ) → j < ht_siz → i < ht_siz → get_or heads j null ≡ get_or heads i null → j ≡ i
    apart j i jlt ilt same = elim (head_cases j) [
      | inl x ↦ elim (head_cases i) [
        | inl y ↦ sym x.0 ∙ y.0
        | inr y ↦ absurd (not_head i ilt (sym y.1 ∙ sym same ∙ x.1))
      ]
      | inr x ↦ elim (head_cases i) [
        | inl y ↦ absurd (not_head j jlt (sym x.1 ∙ same ∙ y.1))
        | inr y ↦ rep.apart j i jlt ilt (sym x.1 ∙ same ∙ y.1)
      ]
    ]

    -- the vacant entry is freed and its place taken by the new one
    into_vacant :
        (n : Node D)
        → st.nodes (head st (hash k)) ≡ some n
        → n.index ≡ no_index
        → IsStore
            (record { nodes = write_node with_new (head st (hash k)) none; h_table = heads })
            (set t (hash k) (used new []))
    unfolding heads
    into_vacant n here free =
        IsStore-set _ (hash k) (used new []) rep valid.width in_bucket
          (length-set st.h_table (hash k) fresh ∙ rep.width)
          (rw head_set_self (
            live,
            null,
            write_other with_new (head st (hash k)) none fresh
                  (λ z. not_head (hash k) in_bucket (sym z))
                ∙ new_here,
            (refl, tt),
          ))
          (λ j lt ne. rw (head_set_other j ne) (
            IsBucket-keep st.nodes _ (head st j) j (slot t j) (valid.placed j) (spared j lt ne)
              (rep.buckets j lt)))
          apart
      where
        spared :
            (j : ℕ)
            → j < ht_siz
            → hash k ≢ j
            → (a : Ptr) (m : Node D) → st.nodes a ≡ some m
            → (m.index ≡ j) ⊎ (a ≡ head st j) × (m.index ≡ no_index)
            → write_node with_new (head st (hash k)) none a ≡ st.nodes a
        spared j lt ne a m at_a why =
            write_other with_new (head st (hash k)) none a (other why)
            ∙ old_there a m at_a
            ∙ sym at_a
          where
            other : (m.index ≡ j) ⊎ (a ≡ head st j) × (m.index ≡ no_index) → a ≢ head st (hash k)
            other (inl x) z =
                let m-n : m ≡ n = some-injective (sym at_a ∙ ap st.nodes z ∙ here) in
                let y : m.index ≡ no_index = ap (λ (w : Node D). w.index) m-n ∙ free in
                absurd (omega arith)
            other (inr x) z = ne (rep.apart (hash k) j in_bucket lt (sym z ∙ x.0))

    entry_round :
        (n : Node D)
        → st.nodes (head st (hash k)) ≡ some n
        → h_insert fuel st fresh k d ≡ at_head fuel with_new st.h_table (hash k) fresh n
    unfolding h_insert h_insert_entry with_new at_head
    entry_round n here =
        two_loads fuel with_new st.h_table fresh (cell new null) n new_here
          (old_there (head st (hash k)) n here)

    vacant_head :
        (n : Node D)
        → n.index ≡ no_index
        → at_head fuel with_new st.h_table (hash k) fresh n
          ≡ ok (
            record { nodes = write_node with_new (head st (hash k)) none; h_table = heads },
            true,
          )
    unfolding at_head heads
    vacant_head n free = rw free

    table_insert :
        (b : Bucket D)
        → slot t (hash k) ≡ b
        → HashTable.h_insert t k d
          ≡ (set t (hash k) (insert_bucket b new).0, (insert_bucket b new).1)
    unfolding HashTable.h_insert
    table_insert b h = rw (HashTable.h_insert_entry, h)

    used_head :
        (e : Entry D) (es : List (Entry D)) (n : Node D)
        → slot t (hash k) ≡ used e es
        → (n.index == no_index) ≡ false
        → Returns
            (Agree
              (set t (hash k) (HashTable.ll_insert e es new).0, (HashTable.ll_insert e es new).1))
            (at_head fuel with_new st.h_table (hash k) fresh n)
    unfolding at_head
    used_head e es n h busy =
        rw (at_head, busy)
          (bind
            (ll_insert_lem fuel with_new (head st (hash k)) fresh (hash k) e es new
              (subst (IsBucket with_new (head st (hash k))) h
                (IsBucket-with_new (hash k) in_bucket))
              (subst (λ b. Distinct (entries b)) h (valid.distinct (hash k)))
              (subst (λ b. All (InPlace (hash k)) (entries b)) h (valid.placed (hash k))) live
              new_here (omega (arith, enough, ap (λ b. length (entries b)) h)))
            (λ r linked. returns (
              IsStore-set _ (hash k) (HashTable.ll_insert e es new).0 rep valid.width in_bucket
                  rep.width linked.bucket
                  (λ j lt ne.
                    IsBucket-keep with_new r.0 (head st j) j (slot t j) (valid.placed j)
                      (λ a m here why. linked.same a m here (other j m lt ne why))
                      (IsBucket-with_new j lt))
                  rep.apart,
              linked.flag,
            )))
      where
        other :
            (j : ℕ) (m : Node D) {a p : Ptr}
            → j < ht_siz
            → hash k ≢ j
            → (m.index ≡ j) ⊎ (a ≡ p) × (m.index ≡ no_index)
            → m.index ≢ hash k
        other j m lt ne (inl x) z = ne (sym z ∙ x)
        other j m lt ne (inr x) z = let y = x.1 in let lt' = in_bucket in omega arith

    -- With a round for each entry of the key's bucket, h_insert with the address of a cell that is not
    -- in use ends without a fault, in a store of the table that the list model returns, with its flag.
    pub h_insert-IsStore : Returns (Agree (HashTable.h_insert t k d)) (h_insert fuel st fresh k d)
    unfolding insert_bucket
    h_insert-IsStore = by_bucket (slot t (hash k)) refl
      where
        by_bucket :
            (b : Bucket D)
            → slot t (hash k) ≡ b
            → Returns (Agree (HashTable.h_insert t k d)) (h_insert fuel st fresh k d)
        by_bucket vacant h =
            let (n, here, free) =
              subst (IsBucket st.nodes (head st (hash k))) h (rep.buckets (hash k) in_bucket) in
            rw (entry_round n here, vacant_head n free, table_insert vacant h)
              (returns (into_vacant n here free, refl))
        by_bucket (used e es) h =
            let (ne, next, here, rest) =
              subst (IsBucket st.nodes (head st (hash k))) h (rep.buckets (hash k) in_bucket) in
            let placed =
              subst (λ b. All (InPlace (hash k)) (entries b)) h (valid.placed (hash k)) in
            rw (entry_round (cell e next) here, table_insert (used e es) h)
              (used_head e es (cell e next) h (in_use (hash k) e.index placed.0.0 in_bucket))
