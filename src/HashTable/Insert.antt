-- ===== src/HashTable/Insert.antt =====
-- h_init and h_insert of Assig4/hashtable.c against a finite map with insert-if-absent.
use c.Base.{
  ℕ, List, ◌≡◌, refl, ◌∙◌, inl, inr, Bool, false, not, Option, none, some, arith, if◌then◌else◌,
  is_some, length-replicate, get_or-replicate, Text, ◌==◌, streq, Bool-cases, Option-cases,
}
use c.HashTable.{
  Entry, Bucket, vacant, Table, ht_siz, hash, entries, slot, link_last, insert_bucket, h_get,
  h_init, h_insert,
}
use c.HashTable.Chain.{
  All, find, Distinct, find-congr, find-link_last, Distinct-link_last, All-link_last,
}
use c.HashTable.Slot.{
  slot-set, hash-lt, entries-insert_bucket, insert_bucket_flag, InPlace, IsValid, home, h_get-find,
  set-IsValid, h_get-set, home_congr, same_hash,
}

module _ {ℓ} {D : Type ℓ} where
  pub slot-h_init : (i : ℕ) → slot (h_init {D = D}) i ≡ vacant
  unfolding h_init
  slot-h_init i = get_or-replicate {A = Bucket D} ht_siz i vacant

  pub h_init-IsValid : IsValid (h_init {D = D})
  unfolding h_init
  h_init-IsValid = record {
    width = length-replicate {A = Bucket D} ht_siz vacant;
    placed = λ i. rw (get_or-replicate {A = Bucket D} ht_siz i vacant) tt;
    distinct = λ i. rw (get_or-replicate {A = Bucket D} ht_siz i vacant) tt;
  }

  pub h_init-h_get : (q : Text) → h_get (h_init {D = D}) q ≡ none
  unfolding h_init find
  h_init-h_get q = rw (h_get-find, get_or-replicate {A = Bucket D} ht_siz (hash q) vacant)

  abbrev pub or_else : Option D → D → D
  or_else none d = d
  or_else (some x) d = x

  -- what a caller sees of `h_insert(t, k, d)`: the returned pair is `r`
  pub record Inserts (t : Table D) (k : Text) (d : D) (r : Table D × Bool) : Type ℓ where
    pub valid : IsValid r.0
    pub flag : r.1 ≡ not (is_some (h_get t k))
    pub reads :
        (q : Text) → h_get r.0 q ≡ (if streq q k then some (or_else (h_get t k) d) else h_get t q)

  module _ {t : Table D} (valid : IsValid t) (k : Text) (d : D) where
    node : Entry D
    node = record { index = hash k; key = k; payload = d }

    new_entries :
        entries (insert_bucket (slot t (hash k)) node).0
        ≡ (if is_some (find k (home t k)) then home t k else link_last (home t k) node)
    unfolding node
    new_entries = entries-insert_bucket (slot t (hash k)) node

    new_placed : All (InPlace (hash k)) (entries (insert_bucket (slot t (hash k)) node).0)
    unfolding node
    new_placed = rw new_entries (elim (Bool-cases (is_some (find k (home t k)))) [
      | inl old ↦ rw old (valid.placed (hash k))
      | inr new ↦
          rw new
            (All-link_last (InPlace (hash k)) (home t k) node (valid.placed (hash k)) (refl, refl))
    ])

    absent : is_some (find k (home t k)) ≡ false → find k (home t k) ≡ none
    absent h = elim (Option-cases (find k (home t k))) [ inl e ↦ e | inr (x, e) ↦ cc ]

    new-Distinct : Distinct (entries (insert_bucket (slot t (hash k)) node).0)
    unfolding node
    new-Distinct = rw new_entries (elim (Bool-cases (is_some (find k (home t k)))) [
      | inl old ↦ rw old (valid.distinct (hash k))
      | inr new ↦ rw new (Distinct-link_last (home t k) node (valid.distinct (hash k)) (absent new))
    ])

    pub h_insert-IsValid : IsValid (h_insert t k d).0
    unfolding h_insert node
    h_insert-IsValid = set-IsValid (hash k) _ valid (hash-lt k) new_placed new-Distinct

    find-new :
        (q : Text)
        → find q (entries (insert_bucket (slot t (hash k)) node).0)
          ≡ (if streq q k then some (or_else (find k (home t k)) d) else find q (home t k))
    unfolding node
    find-new q = rw new_entries (elim (Option-cases (find k (home t k))) [
      | inl e ↦ rw (e) (find-link_last q (home t k) node e)
      | inr (x, e) ↦ rw (e) (ground (arith, find-congr q k (home t k)))
    ])

    -- In a valid table h_insert keeps the table valid, returns true exactly when the key was
    -- absent, and then makes the key read the new payload; a present key keeps its payload, and
    -- every other key reads as before.
    pub h_insert_lem : Inserts t k d (h_insert t k d)
    unfolding h_insert node
    h_insert_lem = record {
      valid = h_insert-IsValid;
      flag = rw (insert_bucket_flag (slot t (hash k)) node, h_get-find t k);
      reads = λ q.
          rw
            (
              h_get-set t (hash k) (insert_bucket (slot t (hash k)) node).0 q valid.width
                  (hash-lt k),
              h_get-find t k,
            )
            (elim (Bool-cases (hash k == hash q)) [
              | inl same ↦ rw (same) (find-new q ∙ rw (home_congr t k q same, ← h_get-find t q))
              | inr other ↦ rw other (ground (arith, same_hash q k))
            ]);
    }

    -- what a chain has and an appended new node keeps, every bucket has after h_insert
    pub h_insert_preserves {κ} :
        (P : List (Entry D) → Type κ)
        → ((i : ℕ) → P (entries (slot t i)))
        → (P (home t k)
            → P (link_last (home t k) (record { index = hash k; key = k; payload = d })))
        → (i : ℕ) → P (entries (slot (h_insert t k d).0 i))
    unfolding h_insert node
    h_insert_preserves P all grow i =
        rw
          (slot-set t (hash k) i (insert_bucket (slot t (hash k)) node).0
            (omega (arith, valid.width, hash-lt k)))
          (elim (Bool-cases (hash k == i)) [
            | inr other ↦ rw other (all i)
            | inl same ↦
                rw (same, new_entries)
                  (elim (Bool-cases (is_some (find k (home t k)))) [
                    | inl old ↦ rw old (all (hash k))
                    | inr new ↦ rw new (grow (all (hash k)))
                  ])
          ])
