-- ===== src/HashTable/Chain.antt =====
-- One chain of Assig4/hashtable.c: ll_search, the append of ll_insert and the unlinking of h_remove
-- against the association list that the chain stands for.
use mathlib.Core.List.{append-nil, append_assoc}
use mathlib.Core.Option
use c.Base.{
  ℕ, zero, suc, ◌≡◌, refl, sym, ◌∙◌, inl, inr, true, false, Option, none, some, List, [], ◌∷◌, ◌++◌,
  arith, if◌then◌else◌, is_some, Text, streq, streq_symm, streq→eq, streq_refl, ◌≢◌, none-ne-some,
  false-ne-true, Bool-cases, map, ap,
}
use c.HashTable.{Entry, ll_search, link_last, payload_at, deref, unlink, copy_chain}

pub streq_congr_left : (a b k : Text) → streq a b ≡ true → streq a k ≡ streq b k
streq_congr_left a b k e = rw (streq→eq a b e)

abbrev pub All {ℓ κ} : {A : Type ℓ} → (A → Type κ) → List A → Type κ
All P [] = Unit
All P (x ∷ xs) = P x × All P xs

module _ {ℓ} {D : Type ℓ} where
  -- the association list that a chain stands for
  unfoldable pub find : Text → List (Entry D) → Option D
  find q [] = none
  find q (e ∷ es) = if streq e.key q then some e.payload else find q es

  -- no key occurs twice
  abbrev pub Distinct : List (Entry D) → Type ℓ
  Distinct [] = Unit
  Distinct (e ∷ es) = (find e.key es ≡ none) × Distinct es

  -- following the pointer that ll_search returns gives the payload of the first entry with the key
  pub deref-ll_search : (es : List (Entry D)) (q : Text) → deref es (ll_search es q) ≡ find q es
  unfolding ll_search find payload_at
  deref-ll_search [] q = refl
  deref-ll_search (e ∷ es) q = elim (Bool-cases (streq e.key q)) [
    | inl h ↦ rw h
    | inr h ↦ rw h (deref_suc (ll_search es q) ∙ deref-ll_search es q)
  ]
    where
      deref_suc : (o : Option ℕ) → deref (e ∷ es) (Option.map suc o) ≡ deref es o
      deref_suc none = refl
      deref_suc (some p) = refl

  -- ll_search returns NULL exactly for the keys that are absent
  pub is_some-ll_search :
      (es : List (Entry D)) (q : Text) → is_some (ll_search es q) ≡ is_some (find q es)
  unfolding ll_search find
  is_some-ll_search [] q = refl
  is_some-ll_search (e ∷ es) q = ground (arith, is_some-ll_search es q)

  pub find-congr : (q k : Text) (es : List (Entry D)) → streq q k ≡ true → find q es ≡ find k es
  find-congr q k es h = rw (streq→eq q k h)

  -- appending a node whose key is absent
  pub find-link_last :
      (q : Text) (es : List (Entry D)) (node : Entry D)
      → find node.key es ≡ none
      → find q (link_last es node) ≡ (if streq q node.key then some node.payload else find q es)
  unfolding find link_last
  find-link_last q [] node h = rw (streq_symm node.key q)
  find-link_last q (e ∷ es) node h = ground (
    arith,
    find-link_last q es node,
    streq_congr_left q node.key e.key,
    streq_symm q e.key,
    streq_symm node.key e.key,
  )

  pub Distinct-link_last :
      (es : List (Entry D)) (node : Entry D)
      → Distinct es
      → find node.key es ≡ none
      → Distinct (link_last es node)
  unfolding find link_last
  Distinct-link_last [] node d h = (refl, tt)
  Distinct-link_last (e ∷ es) node d h = elim (Bool-cases (streq e.key node.key)) [
    | inl same ↦ ground arith
    | inr other ↦
        let h' : find node.key es ≡ none = rw other at h in
        (find-link_last e.key es node h' ∙ rw other d.0, Distinct-link_last es node d.1 h')
  ]

  pub All-link_last {κ} :
      (P : Entry D → Type κ) (es : List (Entry D)) (node : Entry D)
      → All P es
      → P node
      → All P (link_last es node)
  unfolding link_last
  All-link_last P [] node a p = (p, tt)
  All-link_last P (e ∷ es) node a p = (a.0, All-link_last P es node a.1 p)

  pub ll_search-zero :
      (e : Entry D) (es : List (Entry D)) (k : Text)
      → ll_search (e ∷ es) k ≡ some 0
      → streq e.key k ≡ true
  unfolding ll_search
  ll_search-zero e es k h = elim (Bool-cases (streq e.key k)) [
    | inl same ↦ same
    | inr other ↦ absurd (map_suc-ne-zero (ll_search es k) (rw other at h))
  ]
    where
      map_suc-ne-zero : (o : Option ℕ) → Option.map suc o ≡ some 0 → ⊥
      map_suc-ne-zero none x = cc
      map_suc-ne-zero (some p) x = ground arith

  pub ll_search-suc :
      (e : Entry D) (es : List (Entry D)) (k : Text) (p : ℕ)
      → ll_search (e ∷ es) k ≡ some (suc p)
      → (streq e.key k ≡ false) × (ll_search es k ≡ some p)
  unfolding ll_search
  ll_search-suc e es k p h = elim (Bool-cases (streq e.key k)) [
    | inl same ↦ absurd (zero-ne-suc (rw same at h))
    | inr other ↦ (other, below (ll_search es k) (rw other at h))
  ]
    where
      zero-ne-suc : some 0 ≡ some (suc p) → ⊥
      zero-ne-suc x = ground arith

      below : (o : Option ℕ) → Option.map suc o ≡ some (suc p) → o ≡ some p
      below none x = cc
      below (some r) x = ground arith

  -- unlinking the node that ll_search found takes out that key and no other
  pub find-unlink :
      (q k : Text) (es : List (Entry D)) (p : ℕ)
      → Distinct es
      → ll_search es k ≡ some p
      → find q (unlink es p) ≡ (if streq q k then none else find q es)
  unfolding find unlink ll_search
  find-unlink q k [] p d h = cc
  find-unlink q k (e ∷ es) zero d h = ground (
    arith,
    ll_search-zero e es k h,
    streq→eq e.key k,
    find-congr q e.key es,
    streq_symm e.key q,
    streq_congr_left e.key k q,
    streq_symm k q,
  )
  find-unlink q k (e ∷ es) (suc p) d h =
      let (other, h') = ll_search-suc e es k p h in
      ground (
        arith,
        find-unlink q k es p d.1 h',
        other,
        streq_congr_left q k e.key,
        streq_symm q e.key,
        streq_symm k e.key,
      )

  pub find-unlink-none :
      (q : Text) (es : List (Entry D)) (p : ℕ) → find q es ≡ none → find q (unlink es p) ≡ none
  unfolding find unlink
  find-unlink-none q [] p h = refl
  find-unlink-none q (e ∷ es) zero h = ground arith
  find-unlink-none q (e ∷ es) (suc p) h = ground (arith, find-unlink-none q es p)

  pub Distinct-unlink : (es : List (Entry D)) (p : ℕ) → Distinct es → Distinct (unlink es p)
  unfolding unlink
  Distinct-unlink [] p d = d
  Distinct-unlink (e ∷ es) zero d = d.1
  Distinct-unlink (e ∷ es) (suc p) d = (find-unlink-none e.key es p d.0, Distinct-unlink es p d.1)

  pub All-unlink {κ} :
      (P : Entry D → Type κ) (es : List (Entry D)) (p : ℕ) → All P es → All P (unlink es p)
  unfolding unlink
  All-unlink P [] p a = a
  All-unlink P (e ∷ es) zero a = a.1
  All-unlink P (e ∷ es) (suc p) a = (a.0, All-unlink P es p a.1)

  pub copy_chain-append :
      (es : List (Entry D)) (list : List D)
      → copy_chain es list ≡ list ++ map (λ (e : Entry D). e.payload) es
  unfolding copy_chain
  copy_chain-append [] list = sym (append-nil list)
  copy_chain-append (e ∷ es) list =
      copy_chain-append es (list ++ e.payload ∷ []) ∙ append_assoc list (e.payload ∷ []) _

  -- an entry of a chain with distinct keys is what its key finds
  pub All-find :
      (es fs : List (Entry D))
      → Distinct es
      → ((q : Text) (d : D) → find q es ≡ some d → find q fs ≡ some d)
      → All (λ (e : Entry D). find e.key fs ≡ some e.payload) es
  unfolding find
  All-find [] fs d sub = tt
  All-find (e ∷ es) fs d sub = (
    sub e.key e.payload (rw (streq_refl e.key)),
    All-find es fs d.1 λ q x h. sub q x (elim (Bool-cases (streq e.key q)) [
      | inl same ↦ absurd (none-ne-some (sym d.0 ∙ ap (λ k. find k es) (streq→eq e.key q same) ∙ h))
      | inr other ↦ rw other h
    ]),
  )

  -- a key that is absent differs from every key of the chain
  pub All-other :
      (k : Text) (es : List (Entry D)) → find k es ≡ none → All (λ (e : Entry D). e.key ≢ k) es
  unfolding find
  All-other k [] h = tt
  All-other k (e ∷ es) h = elim (Bool-cases (streq e.key k)) [
    | inl same ↦ absurd (none-ne-some (sym (rw same at h)))
    | inr other ↦
        (λ same. false-ne-true (sym other ∙ rw same (streq_refl k)), All-other k es (rw other at h))
  ]

  pub All-map₂ {κ μ ν} :
      {P : Entry D → Type κ} {Q : Entry D → Type μ} (R : Entry D → Type ν)
      → ((e : Entry D) → P e → Q e → R e)
      → (es : List (Entry D)) → All P es
      → All Q es
      → All R es
  All-map₂ R f [] p q = tt
  All-map₂ R f (e ∷ es) p q = (f e p.0 q.0, All-map₂ R f es p.1 q.1)
