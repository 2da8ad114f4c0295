-- ===== src/Store/Init.antt =====
-- h_init of Assig3/hashtable.c on the store and on the table of lists.
use c.Base.{
  ℕ, zero, suc, ◌<◌, ◌≡◌, refl, sym, ap, ◌∙◌, inl, inr, none, some, List, [], ◌∷◌, ◌++◌, arith,
  ◌==◌, length, get_or, Bool-cases,
}
use mathlib.Core.List.{append_assoc, append-nil}
use c.HashTable
use c.HashTable.{Entry, Bucket, vacant, used, Table, hash, ht_siz, entries, slot}
use c.HashTable.Insert.{slot-h_init}
use c.Store.{Ptr, null, no_index, Node, Nodes, Store, write_node, init_loop, h_init}
use c.Store.Rep.{IsStore}
use c.Store.Cells.{write_self}

module _ {ℓ} {D : Type ℓ} where
  -- an entry that is not in use
  abbrev blank : Node D
  blank = record { index = no_index; key = []; payload = none; next = null }

  init_loop-h_table :
      (fresh : List Ptr) (st : Store D) → (init_loop fresh st).h_table ≡ st.h_table ++ fresh
  unfolding init_loop
  init_loop-h_table [] st = sym (append-nil st.h_table)
  init_loop-h_table (p ∷ fresh) st =
      init_loop-h_table fresh
        (record { nodes = write_node st.nodes p (some blank); h_table = st.h_table ++ p ∷ [] })
      ∙ append_assoc st.h_table (p ∷ []) fresh

  -- a cell that is blank stays so
  init_loop-keeps :
      (fresh : List Ptr) (st : Store D) (a : Ptr)
      → st.nodes a ≡ some blank
      → (init_loop fresh st).nodes a ≡ some blank
  unfolding init_loop write_node
  init_loop-keeps [] st a h = h
  init_loop-keeps (p ∷ fresh) st a h =
      init_loop-keeps fresh
        (record { nodes = write_node st.nodes p (some blank); h_table = st.h_table ++ p ∷ [] }) a
        (elim (Bool-cases (a == p)) [ inl x ↦ rw x | inr x ↦ rw x h ])

  init_loop-blank :
      (fresh : List Ptr) (st : Store D) (i : ℕ)
      → i < length fresh
      → (init_loop fresh st).nodes (get_or fresh i null) ≡ some blank
  unfolding init_loop
  init_loop-blank [] st i lt = absurd (omega arith)
  init_loop-blank (p ∷ fresh) st zero lt =
      init_loop-keeps fresh
        (record { nodes = write_node st.nodes p (some blank); h_table = st.h_table ++ p ∷ [] }) p
        (write_self st.nodes p (some blank))
  init_loop-blank (p ∷ fresh) st (suc i) lt =
      init_loop-blank fresh
        (record { nodes = write_node st.nodes p (some blank); h_table = st.h_table ++ p ∷ [] }) i
        (omega arith)

  -- When malloc returns 100 addresses, no two of them equal, h_init makes a store of the empty table.
  pub h_init-IsStore :
      (nodes : Nodes D) (fresh : List Ptr)
      → length fresh ≡ ht_siz
      → ((i j : ℕ) → i < ht_siz → j < ht_siz → get_or fresh i null ≡ get_or fresh j null → i ≡ j)
      → IsStore (h_init nodes fresh) HashTable.h_init
  unfolding h_init
  h_init-IsStore nodes fresh width apart =
      let table : (h_init nodes fresh).h_table ≡ fresh =
        init_loop-h_table fresh (record { nodes = nodes; h_table = [] }) in
      record {
        width = ap (λ h. length h) table ∙ width;
        buckets = λ i lt.
            rw (table, slot-h_init {D = D} i)
              (
                blank,
                init_loop-blank fresh (record { nodes = nodes; h_table = [] }) i (omega arith),
                refl,
              );
        apart = λ i j ilt jlt same.
            apart i j ilt jlt
              (ap (λ h. get_or h i null) (sym table) ∙ same ∙ ap (λ h. get_or h j null) table);
      }
