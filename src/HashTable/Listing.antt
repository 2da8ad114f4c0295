-- ===== src/HashTable/Listing.antt =====
-- ht_to_list of Assig4/hashtable.c: its two passes over the table.
use mathlib.Core.List.{append-nil, append_assoc}
use c.Base.{
  ℕ, suc, ◌+◌, ◌≡◌, refl, sym, ap, ◌∙◌, List, [], ◌∷◌, ◌++◌, arith, map, length, length-append,
}
use c.HashTable.{
  Entry, Bucket, vacant, used, Table, entries, count_bucket, count_table, copy_bucket, copy_table,
  ht_to_list,
}
use c.HashTable.Chain.{copy_chain-append}

module _ {ℓ} {D : Type ℓ} where
  abbrev pub payloads : List (Entry D) → List D
  payloads es = map (λ (e : Entry D). e.payload) es

  -- the payloads of a table, bucket by bucket
  abbrev pub contents : Table D → List D
  contents [] = []
  contents (b ∷ t) = payloads (entries b) ++ contents t

  pub length-payloads : (es : List (Entry D)) → length (payloads es) ≡ length es
  length-payloads [] = refl
  length-payloads (e ∷ es) = ap suc (length-payloads es)

  copy_bucket-append :
      (b : Bucket D) (list : List D) → copy_bucket b list ≡ list ++ payloads (entries b)
  unfolding copy_bucket
  copy_bucket-append vacant list = sym (append-nil list)
  copy_bucket-append (used e es) list = copy_chain-append (e ∷ es) list

  copy_table-append : (t : Table D) (list : List D) → copy_table t list ≡ list ++ contents t
  unfolding copy_table
  copy_table-append [] list = sym (append-nil list)
  copy_table-append (b ∷ t) list =
      copy_table-append t (copy_bucket b list)
      ∙ rw (copy_bucket-append b list) (append_assoc list (payloads (entries b)) (contents t))

  count_table-length : (t : Table D) (n : ℕ) → count_table t n ≡ n + length (contents t)
  unfolding count_table count_bucket
  count_table-length [] n = omega arith
  count_table-length (vacant ∷ t) n = count_table-length t n
  count_table-length (used e es ∷ t) n =
      count_table-length t (n + suc (length es))
      ∙ rw (length-append (payloads es) (contents t), length-payloads) (omega arith)

  -- ht_to_list lists the payloads of all entries, bucket after bucket and each chain in its order;
  -- the size that it stores is the list's length, and the first pass allocates just as many cells,
  -- so that the second never writes past them.
  pub ht_to_list-contents :
      (t : Table D) → ht_to_list t ≡ (length (contents t), contents t, length (contents t))
  unfolding ht_to_list
  ht_to_list-contents t =
      rw (copy_table-append t [], count_table-length t 0)
        (ap (λ n. (n, contents t, length (contents t))) (omega arith))
