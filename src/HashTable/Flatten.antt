-- ===== src/HashTable/Flatten.antt =====
-- A table of Assig4/hashtable.c read as one association list, bucket after bucket.
use mathlib.Core.List.{map-append}
use mathlib.Core.Option.{or_else}
use c.Base.{
  ℕ, zero, suc, ◌+◌, ◌<◌, ◌≡◌, refl, sym, ap, ◌∙◌, ◌≢◌, inl, inr, Option, none, some, List, [], ◌∷◌,
  ◌++◌, arith, Text, streq, streq→eq, Bool-cases,
}
use c.HashTable.{Entry, Bucket, Table, hash, entries, slot, h_get}
use c.HashTable.Chain.{All, find, Distinct}
use c.HashTable.Slot.{InPlace, IsValid, h_get-find}
use c.HashTable.Listing.{payloads, contents}

module _ {ℓ} {D : Type ℓ} where
  abbrev pub all_entries : Table D → List (Entry D)
  all_entries [] = []
  all_entries (b ∷ t) = entries b ++ all_entries t

  pub payloads-all_entries : (t : Table D) → payloads (all_entries t) ≡ contents t
  payloads-all_entries [] = refl
  payloads-all_entries (b ∷ t) =
      map-append (λ (e : Entry D). e.payload) (entries b) (all_entries t)
      ∙ ap (λ l. payloads (entries b) ++ l) (payloads-all_entries t)

  -- the buckets from number `i` on hold entries of their own hashes, each key once
  PlacedFrom : ℕ → Table D → Type ℓ
  PlacedFrom i t =
      (j : ℕ) → All (InPlace (i + j)) (entries (slot t j)) × Distinct (entries (slot t j))

  PlacedFrom-tail :
      (i : ℕ) (b : Bucket D) (t : Table D) → PlacedFrom i (b ∷ t) → PlacedFrom (suc i) t
  unfolding PlacedFrom
  PlacedFrom-tail i b t h j =
      let e : i + suc j ≡ suc i + j = omega arith in (rw e at (h (suc j)).0, (h (suc j)).1)

  find_elsewhere :
      (q : Text) (i : ℕ) (es : List (Entry D)) → All (InPlace i) es → hash q ≢ i → find q es ≡ none
  unfolding find
  find_elsewhere q i [] a h = refl
  find_elsewhere q i (e ∷ es) a h = elim (Bool-cases (streq e.key q)) [
    | inl same ↦ absurd (h (sym (ap hash (streq→eq e.key q same)) ∙ a.0.1))
    | inr other ↦ rw other (find_elsewhere q i es a.1 h)
  ]

  find-append :
      (q : Text) (es fs : List (Entry D)) → find q (es ++ fs) ≡ or_else (find q es) (find q fs)
  unfolding find or_else
  find-append q [] fs = refl
  find-append q (e ∷ es) fs = rw (find-append q es fs) (ground arith)

  find_below :
      (q : Text) (i : ℕ) (t : Table D) → PlacedFrom i t → hash q < i → find q (all_entries t) ≡ none
  unfolding PlacedFrom find or_else
  find_below q i [] p h = refl
  find_below q i (b ∷ t) p h =
      rw
        (
          find-append q (entries b) (all_entries t),
          find_elsewhere q (i + 0) (entries b) (p 0).0 (omega arith),
        )
        (find_below q (suc i) t (PlacedFrom-tail i b t p) (omega arith))

  find-all_entries :
      (q : Text) (i j : ℕ) (t : Table D)
      → PlacedFrom i t
      → hash q ≡ i + j
      → find q (all_entries t) ≡ find q (entries (slot t j))
  unfolding PlacedFrom find or_else
  find-all_entries q i j [] p h = refl
  find-all_entries q i zero (b ∷ t) p h =
      rw
        (
          find-append q (entries b) (all_entries t),
          find_below q (suc i) t (PlacedFrom-tail i b t p) (omega arith),
        )
        (or_else-none (find q (entries b)))
    where
      or_else-none : (o : Option D) → or_else o none ≡ o
      or_else-none none = refl
      or_else-none (some x) = refl
  find-all_entries q i (suc j) (b ∷ t) p h =
      rw
        (
          find-append q (entries b) (all_entries t),
          find_elsewhere q (i + 0) (entries b) (p 0).0 (omega arith),
        )
        (find-all_entries q (suc i) j t (PlacedFrom-tail i b t p) (omega arith))

  Distinct-append :
      (es fs : List (Entry D))
      → Distinct es
      → Distinct fs
      → All (λ (e : Entry D). find e.key fs ≡ none) es
      → Distinct (es ++ fs)
  unfolding or_else
  Distinct-append [] fs d g a = g
  Distinct-append (e ∷ es) fs d g a =
      (rw (find-append e.key es fs, d.0) a.0, Distinct-append es fs d.1 g a.1)

  Distinct-all_entries : (i : ℕ) (t : Table D) → PlacedFrom i t → Distinct (all_entries t)
  unfolding PlacedFrom
  Distinct-all_entries i [] p = tt
  Distinct-all_entries i (b ∷ t) p =
      Distinct-append (entries b) (all_entries t) (p 0).1
        (Distinct-all_entries (suc i) t (PlacedFrom-tail i b t p)) (below (entries b) (p 0).0)
    where
      below :
          (es : List (Entry D))
          → All (InPlace (i + 0)) es
          → All (λ (e : Entry D). find e.key (all_entries t) ≡ none) es
      below [] a = tt
      below (e ∷ es) a = (
        find_below e.key (suc i) t (PlacedFrom-tail i b t p) (omega (arith, a.0.1)),
        below es a.1,
      )

  module _ {t : Table D} (valid : IsValid t) where
    placed_from : PlacedFrom 0 t
    unfolding PlacedFrom
    placed_from j = let e : 0 + j ≡ j = omega arith in (rw e (valid.placed j), valid.distinct j)

    pub all_entries-Distinct : Distinct (all_entries t)
    all_entries-Distinct = Distinct-all_entries 0 t placed_from

    -- In a valid table h_get reads the association list of all entries.
    pub h_get-all_entries : (q : Text) → h_get t q ≡ find q (all_entries t)
    h_get-all_entries q =
        h_get-find t q ∙ sym (find-all_entries q 0 (hash q) t placed_from (omega arith))
