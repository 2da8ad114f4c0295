-- ===== src/Store/Listing.antt =====
-- h_init and ht_to_list of Assig3/hashtable.c on the store and on the table of lists.
use c.Base.{
  ℕ, zero, suc, ◌+◌, ◌<◌, ◌≤◌, ◌≡◌, refl, sym, ap, ◌∙◌, true, false, Option, some, List, [], ◌∷◌,
  ◌++◌, arith, map, ◌==◌, length, get_or,
}
use c.Base.Run.{ok, ◌>>=◌}
use c.HashTable
use c.HashTable.{
  Entry, Bucket, vacant, used, Table, hash, ht_siz, entries, slot, count_bucket, copy_bucket,
  copy_chain,
}
use c.HashTable.Chain.{All}
use c.HashTable.Slot.{InPlace, IsValid}
use c.Store.{
  Ptr, null, no_index, Node, Nodes, Store, load_node, count_loop, count_table, copy_loop,
  copy_table, ht_to_list,
}
use c.Store.Chain.{cell, IsChain, load-cell, not_null, is_null}
use c.Store.Rep.{IsBucket, head, IsStore, in_use}

module _ {ℓ} {D : Type ℓ} where
  -- a data pointer of the code: NULL is the missing payload
  unfoldable pub stored : List D → List (Option D)
  stored list = map (λ (d : D). some d) list

  stored-append : (list : List D) (d : D) → stored list ++ some d ∷ [] ≡ stored (list ++ d ∷ [])
  unfolding stored
  stored-append [] d = refl
  stored-append (x ∷ list) d = ap (λ l. some x ∷ l) (stored-append list d)

  length-stored : (list : List D) → length (stored list) ≡ length list
  unfolding stored
  length-stored [] = refl
  length-stored (x ∷ list) = ap suc (length-stored list)

  module _ (nodes : Nodes D) where
    count_round :
        (fuel : ℕ) (p cnt : ℕ) (n : Node D)
        → nodes p ≡ some n
        → count_loop (suc fuel) nodes p cnt ≡ (elim (n.next == null) [
          | true ↦ ok (cnt + 1)
          | false ↦ count_loop fuel nodes n.next (cnt + 1)
        ])
    unfolding count_loop
    count_round fuel p cnt n h = rw (load_node, h)

    copy_round :
        (fuel : ℕ) (p : Ptr) (list : List (Option D)) (n : Node D)
        → nodes p ≡ some n
        → copy_loop (suc fuel) nodes p list ≡ (elim (n.next == null) [
          | true ↦ ok (list ++ n.payload ∷ [])
          | false ↦ copy_loop fuel nodes n.next (list ++ n.payload ∷ [])
        ])
    unfolding copy_loop
    copy_round fuel p list n h = rw (load_node, h)

    count_loop_lem :
        (fuel p cnt : ℕ) (e : Entry D) (es : List (Entry D))
        → IsChain nodes p (e ∷ es)
        → length es < fuel
        → count_loop fuel nodes p cnt ≡ ok (cnt + suc (length es))
    count_loop_lem zero p cnt e es chain enough = absurd (omega arith)
    count_loop_lem (suc fuel) p cnt e [] (ne, next, here, rest) enough =
        count_round fuel p cnt (cell e next) here ∙ rw (is_null nodes next rest)
    count_loop_lem (suc fuel) p cnt e (e' ∷ es) (ne, next, here, rest) enough =
        count_round fuel p cnt (cell e next) here
        ∙ rw (not_null nodes next rest.0)
            (count_loop_lem fuel next (cnt + 1) e' es rest (omega arith) ∙ ap ok (omega arith))

    copy_loop_lem :
        (fuel : ℕ) (p : Ptr) (list : List D) (e : Entry D) (es : List (Entry D))
        → IsChain nodes p (e ∷ es)
        → length es < fuel
        → copy_loop fuel nodes p (stored list) ≡ ok (stored (copy_chain (e ∷ es) list))
    unfolding copy_chain
    copy_loop_lem zero p list e es chain enough = absurd (omega arith)
    copy_loop_lem (suc fuel) p list e [] (ne, next, here, rest) enough =
        copy_round fuel p (stored list) (cell e next) here
        ∙ rw (is_null nodes next rest) (ap ok (stored-append list e.payload))
    copy_loop_lem (suc fuel) p list e (e' ∷ es) (ne, next, here, rest) enough =
        copy_round fuel p (stored list) (cell e next) here
        ∙ rw (not_null nodes next rest.0, stored-append list e.payload)
            (copy_loop_lem fuel next (list ++ e.payload ∷ []) e' es rest (omega arith))

    -- a bucket in the store whose first entry is in use and which a given number of rounds walk
    record IsRow (fuel : ℕ) (p : Ptr) (b : Bucket D) : Type ℓ where
      bucket : IsBucket nodes p b
      busy : All (λ e. (e.index == no_index) ≡ false) (entries b)
      enough : length (entries b) ≤ fuel

    count_head :
        (fuel : ℕ) (p : Ptr) (heads : List Ptr) (cnt : ℕ) (n : Node D)
        → nodes p ≡ some n
        → count_table fuel nodes (p ∷ heads) cnt ≡ (
            (elim (n.index == no_index) [ true ↦ ok cnt | false ↦ count_loop fuel nodes p cnt ])
            >>= λ cnt. count_table fuel nodes heads cnt)
    unfolding count_table
    count_head fuel p heads cnt n h = rw (load-cell nodes p n h)

    copy_head :
        (fuel : ℕ) (p : Ptr) (heads : List Ptr) (list : List (Option D)) (n : Node D)
        → nodes p ≡ some n
        → copy_table fuel nodes (p ∷ heads) list ≡ (
            (elim (n.index == no_index) [ true ↦ ok list | false ↦ copy_loop fuel nodes p list ])
            >>= λ list. copy_table fuel nodes heads list)
    unfolding copy_table
    copy_head fuel p heads list n h = rw (load-cell nodes p n h)

    count_table_lem :
        (fuel : ℕ) (heads : List Ptr) (t : Table D) (cnt : ℕ)
        → length heads ≡ length t
        → ((i : ℕ) → i < length t → IsRow fuel (get_or heads i null) (slot t i))
        → count_table fuel nodes heads cnt ≡ ok (HashTable.count_table t cnt)
    unfolding count_table HashTable.count_table count_bucket
    count_table_lem fuel [] [] cnt same rows = refl
    count_table_lem fuel [] (b ∷ t) cnt same rows = absurd (omega arith)
    count_table_lem fuel (p ∷ heads) [] cnt same rows = absurd (omega arith)
    count_table_lem fuel (p ∷ heads) (vacant ∷ t) cnt same rows =
        let (n, here, free) = (rows 0 (omega arith)).bucket in
        count_head fuel p heads cnt n here
        ∙ rw free
            (count_table_lem fuel heads t cnt (omega arith) (λ i lt. rows (suc i) (omega arith)))
    count_table_lem fuel (p ∷ heads) (used e es ∷ t) cnt same rows =
        let row = rows 0 (omega arith) in
        let (ne, next, here, rest) = row.bucket in
        let enough = row.enough in
        count_head fuel p heads cnt (cell e next) here
        ∙ rw (row.busy.0, count_loop_lem fuel p cnt e es row.bucket (omega arith))
            (count_table_lem fuel heads t (cnt + suc (length es)) (omega arith)
              (λ i lt. rows (suc i) (omega arith)))

    copy_table_lem :
        (fuel : ℕ) (heads : List Ptr) (t : Table D) (list : List D)
        → length heads ≡ length t
        → ((i : ℕ) → i < length t → IsRow fuel (get_or heads i null) (slot t i))
        → copy_table fuel nodes heads (stored list) ≡ ok (stored (HashTable.copy_table t list))
    unfolding copy_table HashTable.copy_table copy_bucket
    copy_table_lem fuel [] [] list same rows = refl
    copy_table_lem fuel [] (b ∷ t) list same rows = absurd (omega arith)
    copy_table_lem fuel (p ∷ heads) [] list same rows = absurd (omega arith)
    copy_table_lem fuel (p ∷ heads) (vacant ∷ t) list same rows =
        let (n, here, free) = (rows 0 (omega arith)).bucket in
        copy_head fuel p heads (stored list) n here
        ∙ rw free
            (copy_table_lem fuel heads t list (omega arith) (λ i lt. rows (suc i) (omega arith)))
    copy_table_lem fuel (p ∷ heads) (used e es ∷ t) list same rows =
        let row = rows 0 (omega arith) in
        let (ne, next, here, rest) = row.bucket in
        let enough = row.enough in
        copy_head fuel p heads (stored list) (cell e next) here
        ∙ rw (row.busy.0, copy_loop_lem fuel p list e es row.bucket (omega arith))
            (copy_table_lem fuel heads t (copy_chain (e ∷ es) list) (omega arith)
              (λ i lt. rows (suc i) (omega arith)))

  All-busy :
      (i : ℕ) (es : List (Entry D))
      → i < ht_siz
      → All (InPlace i) es
      → All (λ e. (e.index == no_index) ≡ false) es
  All-busy i [] lt placed = tt
  All-busy i (e ∷ es) lt placed = (in_use i e.index placed.0.0 lt, All-busy i es lt placed.1)

  -- With a round for each entry of the longest bucket, ht_to_list ends without a fault and returns what
  -- the table of lists returns: the number of cells it allocates, the data pointers and the size.
  pub ht_to_list-IsStore :
      {st : Store D} {t : Table D} (fuel : ℕ)
      → IsStore st t
      → IsValid t
      → ((i : ℕ) → i < ht_siz → length (entries (slot t i)) ≤ fuel)
      → ht_to_list fuel st
        ≡ ok (
          (HashTable.ht_to_list t).0,
          stored (HashTable.ht_to_list t).1,
          (HashTable.ht_to_list t).2,
        )
  unfolding ht_to_list HashTable.ht_to_list stored
  ht_to_list-IsStore {st} {t} fuel rep valid enough =
      rw
        (
          count_table_lem st.nodes fuel st.h_table t 0 same rows,
          copy_table_lem st.nodes fuel st.h_table t [] same rows,
        )
        (ap (λ n. ok (HashTable.count_table t 0, stored (HashTable.copy_table t []), n))
          (length-stored (HashTable.copy_table t [])))
    where
      same : length st.h_table ≡ length t
      same = rep.width ∙ sym valid.width

      rows : (i : ℕ) → i < length t → IsRow st.nodes fuel (head st i) (slot t i)
      rows i lt =
          let lt' : i < ht_siz = omega (arith, lt, valid.width) in
          record {
            bucket = rep.buckets i lt';
            busy = All-busy i (entries (slot t i)) lt' (valid.placed i);
            enough = enough i lt';
          }
