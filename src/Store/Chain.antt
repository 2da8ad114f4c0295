-- ===== src/Store/Chain.antt =====
-- A chain of entries in the store of Assig3/hashtable.c against the list of its entries.
use mathlib.Core.Option
use c.Base.{
  ℕ, zero, suc, ◌<◌, ◌≡◌, ◌≢◌, refl, sym, ap, ◌∙◌, inl, inr, true, false, Option, none, some, List,
  [], ◌∷◌, arith, ◌==◌, length, get_elem?, Text, streq, Bool-cases,
}
use c.Base.Run.{ok}
use c.HashTable
use c.HashTable.{Entry}
use c.HashTable.Chain.{All}
use c.Store.{Ptr, null, Node, Nodes, load_node, search_loop, last_loop}

module _ {ℓ} {D : Type ℓ} where
  abbrev pub cell : Entry D → Ptr → Node D
  cell e next = record { index = e.index; key = e.key; payload = some e.payload; next = next }

  -- from `p` the `next` pointers lead through the entries to NULL
  abbrev pub IsChain : Nodes D → Ptr → List (Entry D) → Type ℓ
  IsChain nodes p [] = (p ≡ null) × Unit {ℓ}
  IsChain nodes p (e ∷ es) =
      (p ≢ null) × (next : Ptr) × (nodes p ≡ some (cell e next)) × IsChain nodes next es

  -- the address after `i` steps along `next`
  unfoldable pub nth : Nodes D → Ptr → ℕ → Ptr
  nth nodes p zero = p
  nth nodes p (suc i) = elim (nodes p) [ none ↦ null | some n ↦ nth nodes n.next i ]

  -- the address for the position that the list model returns
  abbrev pub address : Nodes D → Ptr → Option ℕ → Ptr
  address nodes p none = null
  address nodes p (some i) = nth nodes p i

  module _ (nodes : Nodes D) where
    pub nth-suc :
        (p : Ptr) (e : Entry D) (next i : ℕ)
        → nodes p ≡ some (cell e next)
        → nth nodes p (suc i) ≡ nth nodes next i
    unfolding nth
    nth-suc p e next i h = rw (nth, h)

    pub load-cell : (p : Ptr) (n : Node D) → nodes p ≡ some n → load_node nodes p ≡ ok n
    unfolding load_node
    load-cell p n h = rw (load_node, h)

    pub is_null : (p : Ptr) → IsChain nodes p [] → (p == null) ≡ true
    is_null p h = ground arith

    pub not_null : (p : Ptr) → p ≢ null → (p == null) ≡ false
    not_null p h = ground arith

    search_round :
        (fuel : ℕ) (p : Ptr) (n : Node D) (key : Text)
        → nodes p ≡ some n
        → search_loop (suc fuel) nodes p key ≡ (elim (streq n.key key) [
          | true ↦ ok p
          | false ↦ elim (n.next == null) [
            | true ↦ ok null
            | false ↦ search_loop fuel nodes n.next key
          ]
        ])
    unfolding search_loop
    search_round fuel p n key h = rw (load_node, h)

    last_round :
        (fuel : ℕ) (p : Ptr) (n : Node D)
        → nodes p ≡ some n
        → last_loop (suc fuel) nodes p
          ≡ (elim (n.next == null) [ true ↦ ok p | false ↦ last_loop fuel nodes n.next ])
    unfolding last_loop
    last_round fuel p n h = rw (load_node, h)

    -- with a round for each entry, ll_search returns the address of the entry that the list model finds
    pub search_loop_lem :
        (fuel : ℕ) (p : Ptr) (e : Entry D) (es : List (Entry D)) (key : Text)
        → IsChain nodes p (e ∷ es)
        → length es < fuel
        → search_loop fuel nodes p key ≡ ok (address nodes p (HashTable.ll_search (e ∷ es) key))
    unfolding HashTable.ll_search nth
    search_loop_lem zero p e es key chain enough = absurd (omega arith)
    search_loop_lem (suc fuel) p e [] key (ne, next, here, rest) enough =
        search_round fuel p (cell e next) key here ∙ elim (Bool-cases (streq e.key key)) [
          | inl same ↦ rw same
          | inr other ↦ rw (other, is_null next rest)
        ]
    search_loop_lem (suc fuel) p e (e' ∷ es) key (ne, next, here, rest) enough =
        search_round fuel p (cell e next) key here ∙ elim (Bool-cases (streq e.key key)) [
          | inl same ↦ rw same
          | inr other ↦
              rw (other, not_null next rest.0)
                (search_loop_lem fuel next e' es key rest (omega arith)
                  ∙ ap ok (step (HashTable.ll_search (e' ∷ es) key)))
        ]
      where
        step : (o : Option ℕ) → address nodes next o ≡ address nodes p (Option.map suc o)
        step none = refl
        step (some i) = sym (nth-suc p e next i here)

    -- the last entry's address is found with a round for each entry
    pub last_loop_lem :
        (fuel : ℕ) (p : Ptr) (e : Entry D) (es : List (Entry D))
        → IsChain nodes p (e ∷ es)
        → length es < fuel
        → last_loop fuel nodes p ≡ ok (nth nodes p (length es))
    unfolding nth
    last_loop_lem zero p e es chain enough = absurd (omega arith)
    last_loop_lem (suc fuel) p e [] (ne, next, here, rest) enough =
        last_round fuel p (cell e next) here ∙ rw (is_null next rest)
    last_loop_lem (suc fuel) p e (e' ∷ es) (ne, next, here, rest) enough =
        last_round fuel p (cell e next) here
        ∙ rw (not_null next rest.0) (
            last_loop_lem fuel next e' es rest (omega arith)
            ∙ ap ok (sym (nth-suc p e next (length es) here)))

    -- the cell at a position of the chain
    pub record At (p : Ptr) (es : List (Entry D)) (i : ℕ) : Type ℓ where
      pub entry : Entry D
      pub next : Ptr
      pub listed : get_elem? es i ≡ some entry
      pub holds : nodes (nth nodes p i) ≡ some (cell entry next)
      pub live : nth nodes p i ≢ null
      pub follows : nth nodes p (suc i) ≡ next

    pub at :
        (p : Ptr) (es : List (Entry D)) (i : ℕ) → IsChain nodes p es → i < length es → At p es i
    unfolding nth
    at p [] i chain h = absurd (omega arith)
    at p (e ∷ es) zero (ne, next, here, rest) h = record {
      entry = e;
      next = next;
      listed = refl;
      holds = here;
      live = ne;
      follows = rw (nth, here);
    }
    at p (e ∷ es) (suc i) (ne, next, here, rest) h =
        let a = at next es i rest (omega arith) in
        record {
          entry = a.entry;
          next = a.next;
          listed = a.listed;
          holds = ap nodes (nth-suc p e next i here) ∙ a.holds;
          live = λ z. a.live (sym (nth-suc p e next i here) ∙ z);
          follows = nth-suc p e next (suc i) here ∙ a.follows;
        }

  -- a change of the store that spares the cells of a chain's entries keeps the chain
  pub frame {κ} :
      (P : Entry D → Type κ) (nodes nodes' : Nodes D)
      → ((p : Ptr) (e : Entry D) (next : Ptr)
          → P e
          → nodes p ≡ some (cell e next)
          → nodes' p ≡ nodes p)
      → (p : Ptr) (es : List (Entry D)) → All P es
      → IsChain nodes p es
      → IsChain nodes' p es
  frame P nodes nodes' same p [] a chain = chain
  frame P nodes nodes' same p (e ∷ es) a (ne, next, here, rest) =
      (ne, next, same p e next a.0 here ∙ here, frame P nodes nodes' same next es a.1 rest)
