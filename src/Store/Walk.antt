-- ===== src/Store/Walk.antt =====
-- The loop and the unlinking of h_remove of Assig3/hashtable.c on a chain of cells.
use c.Base.{
  ℕ, zero, suc, ◌<◌, ◌≡◌, ◌≢◌, refl, sym, ap, ◌∙◌, inl, inr, false, none, some, List, [], ◌∷◌,
  arith, ◌==◌, ==_iff, length, get_elem?, Bool-cases, some-injective,
}
use mathlib.Core.Path.{subst}
use c.Base.Run.{ok}
use c.HashTable.{unlink, Entry}
use c.HashTable.Chain.{find, Distinct}
use c.Store.{remove_loop, remove_loop, Ptr, Node, Nodes, write_node, load_node}
use c.Store.Chain.{nth-suc, nth-suc, cell, IsChain, nth, at}
use c.Store.Cells.{
  absent_cons, frame_key, apart_by_key, find-at, find-at, apart_by_key, write_self, write_other,
}

module _ {ℓ} {D : Type ℓ} where
  -- the cell before the one at a position, for a walk that starts at `p` with `prev`
  unfoldable pub before : Nodes D → Ptr → Ptr → ℕ → Ptr
  unfolding nth
  before nodes prev p zero = prev
  before nodes prev p (suc i) = nth nodes p i

  module _ (nodes : Nodes D) where
    remove_round :
        (fuel : ℕ) (prev curr found : Ptr) (n : Node D)
        → nodes curr ≡ some n
        → (curr == found) ≡ false
        → remove_loop (suc fuel) nodes prev curr found ≡ remove_loop fuel nodes curr n.next found
    unfolding remove_loop
    remove_round fuel prev curr found n here ne = rw (remove_loop, ne, load_node, here)

    last_remove_round :
        (fuel : ℕ) (prev curr found : Ptr)
        → curr ≡ found
        → remove_loop (suc fuel) nodes prev curr found ≡ ok (prev, curr)
    unfolding remove_loop
    last_remove_round fuel prev curr found same = rw (remove_loop, (==_iff curr found).1 same)

    -- an entry that comes later in the chain has another address
    later_apart :
        (p : Ptr) (e : Entry D) (next : Ptr) (es : List (Entry D)) (i : ℕ)
        → nodes p ≡ some (cell e next)
        → IsChain nodes next es
        → find e.key es ≡ none
        → i < length es
        → p ≢ nth nodes next i
    later_apart p e next es i here rest absent lt same =
        let a = at nodes next es i rest lt in
        apart_by_key nodes (nth nodes next i) p (cell a.entry a.next) (cell e next) a.holds here
          (find-at es e.key i a.entry absent a.listed) (sym same)

    -- the loop of h_remove ends at the entry that it looks for
    pub remove_loop_lem :
        (fuel : ℕ) (prev p : Ptr) (es : List (Entry D)) (i : ℕ)
        → IsChain nodes p es
        → Distinct es
        → i < length es
        → i < fuel
        → remove_loop fuel nodes prev p (nth nodes p i) ≡ ok (before nodes prev p i, nth nodes p i)
    unfolding before nth
    remove_loop_lem zero prev p es i chain distinct lt enough = absurd (omega arith)
    remove_loop_lem (suc fuel) prev p [] i chain distinct lt enough = absurd (omega arith)
    remove_loop_lem (suc fuel) prev p (e ∷ es) zero chain distinct lt enough =
        last_remove_round fuel prev p p refl
    remove_loop_lem (suc fuel) prev p (e ∷ es) (suc i) (ne, next, here, rest) distinct lt enough =
        let apart = later_apart p e next es i here rest distinct.0 (omega arith) in
        let step = nth-suc nodes p e next i here in
        remove_round fuel prev p (nth nodes p (suc i)) (cell e next) here
          (elim (Bool-cases (p == nth nodes p (suc i))) [
            | inl x ↦ absurd (apart ((==_iff p (nth nodes p (suc i))).0 x ∙ step))
            | inr x ↦ x
          ])
        ∙ ap (remove_loop fuel nodes p next) step
        ∙ remove_loop_lem fuel p next es i rest distinct.1 (omega arith) (omega arith)
        ∙ ap ok (λ j. (shift i j, sym step j))
      where
        shift : (i : ℕ) → before nodes p next i ≡ nth nodes p i
        shift zero = refl
        shift (suc i) = sym (nth-suc nodes p e next i here)

  -- the successor of the cell that is taken out is written into the cell before it
  pub IsChain-unlink :
      (nodes : Nodes D) (p : Ptr) (e : Entry D) (es : List (Entry D)) (i : ℕ) (m x : Entry D)
      (c next : Ptr)
      → IsChain nodes p (e ∷ es)
      → Distinct (e ∷ es)
      → i < length es
      → nodes (nth nodes p i) ≡ some (cell m c)
      → get_elem? (e ∷ es) i ≡ some m
      → nodes (nth nodes p (suc i)) ≡ some (cell x next)
      → IsChain (write_node nodes (nth nodes p i) (some (cell m next))) p (e ∷ unlink es i)
  unfolding unlink nth
  IsChain-unlink nodes p e [] i m x c next chain distinct lt prev listed curr = absurd (omega arith)
  IsChain-unlink nodes p e (e' ∷ es) zero m x c next (ne, h, here, (ne', h', here', rest)) distinct
        lt prev listed curr =
      let e-m : e ≡ m = some-injective listed in
      let at_h : nodes h ≡ some (cell x next) =
        ap nodes (sym (nth-suc nodes p e h 0 here)) ∙ curr in
      let same : h' ≡ next = ap (λ (n : Node D). n.next) (some-injective (sym here' ∙ at_h)) in
      rw e-m (
        ne,
        next,
        write_self nodes p (some (cell m next)),
        frame_key nodes p (cell e h) (some (cell m next)) next es here
            (absent_cons e' es e.key distinct.0).1 (subst (λ q. IsChain nodes q es) same rest),
      )
  IsChain-unlink nodes p e (e' ∷ es) (suc i) m x c next (ne, h, here, rest) distinct lt prev listed
        curr =
      let step = λ (j : ℕ). nth-suc nodes p e h j here in
      let apart = later_apart nodes p e h (e' ∷ es) i here rest distinct.0 (omega arith) in
      subst (λ r. IsChain (write_node nodes r (some (cell m next))) p (e ∷ e' ∷ unlink es i))
        (sym (step i))
        (
          ne,
          h,
          write_other nodes (nth nodes h i) (some (cell m next)) p apart ∙ here,
          IsChain-unlink nodes h e' es i m x c next rest distinct.1 (omega arith)
              (ap nodes (sym (step i)) ∙ prev) listed (ap nodes (sym (step (suc i))) ∙ curr),
        )
