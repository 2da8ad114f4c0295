-- ===== src/SizedTable/Listing.antt =====
-- ht_to_list of assignment1/hashtable.c: its loop never leaves a bucket of two entries.
use mathlib.Core.List.{append-nil, append_assoc}
use c.Base.{
  ℕ, zero, suc, ◌≤◌, ◌≡◌, refl, sym, ap, ◌∙◌, Bool, true, false, List, [], ◌∷◌, ◌++◌, arith,
  if◌then◌else◌, length, inl, inr, Bool-cases,
}
use c.Base.Run.{ok, fault, out_of_bounds}
use c.HashTable.{Entry, vacant, used, Table}
use c.HashTable.Listing.{contents}
use c.SizedTable.{Global, copy_loop, copy_table, ht_to_list}

module _ {ℓ} {D : Type ℓ} where
  -- no bucket holds two entries
  abbrev pub collision_free : Table D → Bool
  collision_free [] = true
  collision_free (vacant ∷ t) = collision_free t
  collision_free (used first [] ∷ t) = collision_free t
  collision_free (used first (e ∷ es) ∷ t) = false

  -- the loop writes past any list
  copy_loop-overrun :
      (first e : Entry D) (es : List (Entry D)) (left : ℕ) (list : List D)
      → copy_loop first (e ∷ es) left list ≡ fault out_of_bounds
  unfolding copy_loop
  copy_loop-overrun first e es zero list = refl
  copy_loop-overrun first e es (suc left) list =
      copy_loop-overrun first e es left (list ++ first.payload ∷ [])

  copy_table_lem :
      (t : Table D) (left : ℕ) (list : List D)
      → length (contents t) ≤ left
      → copy_table t left list
        ≡ (if collision_free t then ok (list ++ contents t) else fault out_of_bounds)
  unfolding copy_table copy_loop
  copy_table_lem [] left list room = ap ok (sym (append-nil list))
  copy_table_lem (vacant ∷ t) left list room = copy_table_lem t left list room
  copy_table_lem (used first [] ∷ t) zero list room = absurd (omega arith)
  copy_table_lem (used first [] ∷ t) (suc left) list room =
      copy_table_lem t left (list ++ first.payload ∷ []) (omega arith)
      ∙ ap (λ l. if collision_free t then ok l else fault out_of_bounds)
          (append_assoc list (first.payload ∷ []) (contents t))
  copy_table_lem (used first (e ∷ es) ∷ t) left list room =
      rw (copy_loop-overrun first e es left list)

  -- When `ht_size` is at least the number of entries, ht_to_list returns every payload, with their
  -- number, if no bucket holds two entries. If one does, the loop never leaves it and writes past the
  -- end of the list.
  pub ht_to_list-collision_free :
      (g : Global D)
      → length (contents g.h_table) ≤ g.ht_size
      → ht_to_list g ≡ (
          if collision_free g.h_table
          then ok (contents g.h_table, length (contents g.h_table))
          else fault out_of_bounds)
  unfolding ht_to_list
  ht_to_list-collision_free g room =
      rw (copy_table_lem g.h_table g.ht_size [] room)
        (elim (Bool-cases (collision_free g.h_table)) [ inl x ↦ rw x | inr x ↦ rw x ])
