-- ===== src/HashTable/Remove.antt =====
-- h_remove of Assig4/hashtable.c. Taking out a later entry of a chain unlinks it; taking out the
-- first entry resets the bucket, and the rest of the chain goes with it.
use mathlib.Core.Option
use c.Base.{
  false, suc, set, List, [], ℕ, zero, suc, ◌≡◌, refl, sym, ap, ◌∙◌, inl, inr, Bool, true, false,
  Option, none, some, arith, if◌then◌else◌, is_some, Text, ◌==◌, streq, streq→eq, Bool-cases,
}
use c.HashTable.{
  Bucket, entries, unlink, Entry, h_get_entry, vacant, Table, hash, slot, ll_search, deref,
  remove_bucket, remove_found, h_get, h_remove,
}
use c.HashTable.Chain.{
  find, find-unlink, Distinct-unlink, All-unlink, deref-ll_search, is_some-ll_search,
}
use c.HashTable.Slot.{
  slot-set, hash-lt, InPlace, IsValid, home, h_get-find, set-IsValid, h_get-set, home_congr,
  same_hash, get_bucket-ll_search, entries-remove_bucket-suc, remove_bucket-zero,
}

-- the key's entry is the first of its bucket
abbrev pub is_first : Option ℕ → Bool
is_first none = false
is_first (some zero) = true
is_first (some (suc p)) = false

pub is_first-map-suc : (o : Option ℕ) → is_first (Option.map suc o) ≡ false
is_first-map-suc none = refl
is_first-map-suc (some p) = refl

module _ {ℓ} {D : Type ℓ} where
  pub is_head : Table D → Text → Bool
  is_head t k = is_first (ll_search (home t k) k)

  pub is_head-is_some : (t : Table D) (k : Text) → is_head t k ≡ true → is_some (h_get t k) ≡ true
  unfolding is_head
  is_head-is_some t k h =
      rw (h_get-find t k, ← is_some-ll_search (home t k) k) (first_some (ll_search (home t k) k) h)
    where
      first_some : (o : Option ℕ) → is_first o ≡ true → is_some o ≡ true
      first_some none x = cc
      first_some (some p) x = refl

  pub is_head-is_first : (t : Table D) (k : Text) → is_head t k ≡ is_first (ll_search (home t k) k)
  unfolding is_head
  is_head-is_first t k = refl

  -- what a caller sees of `h_remove(t, k)`: the returned triple is `r`
  pub record Removes (t : Table D) (k : Text) (r : Table D × Bool × Option D) : Type ℓ where
    pub valid : IsValid r.0
    pub flag : r.1 ≡ is_some (h_get t k)
    pub freed : r.2 ≡ h_get t k
    pub reads :
        (q : Text)
        → h_get r.0 q ≡ (
            if is_head t k
            then (if hash k == hash q then none else h_get t q)
            else (if streq q k then none else h_get t q))

  module _ {t : Table D} (valid : IsValid t) (k : Text) where
    found : (o : Option ℕ) → ll_search (home t k) k ≡ o → h_get t k ≡ deref (home t k) o
    found o x = h_get-find t k ∙ sym (deref-ll_search (home t k) k) ∙ ap (deref (home t k)) x

    flag_of : is_some (h_get t k) ≡ is_some (ll_search (home t k) k)
    flag_of = ap is_some (h_get-find t k) ∙ sym (is_some-ll_search (home t k) k)

    remove-absent : ll_search (home t k) k ≡ none → Removes t k (t, false, none)
    unfolding is_head
    remove-absent x = record {
      valid = valid;
      flag = rw (found none x);
      freed = sym (found none x);
      reads = λ q. rw x (elim (Bool-cases (streq q k)) [
        | inl same ↦ rw same (ap (h_get t) (streq→eq q k same) ∙ found none x)
        | inr other ↦ rw other
      ]);
    }

    remove-zero : ll_search (home t k) k ≡ some 0 → Removes t k (remove_found t (hash k) (some 0))
    unfolding is_head remove_found find
    remove-zero x = record {
      valid = rw remove_bucket-zero (set-IsValid (hash k) vacant valid (hash-lt k) tt tt);
      flag = sym (flag_of ∙ ap is_some x);
      freed = sym (found _ x);
      reads =
          λ q. rw (remove_bucket-zero, x) (h_get-set t (hash k) vacant q valid.width (hash-lt k));
    }

    remove-suc :
        (p : ℕ)
        → ll_search (home t k) k ≡ some (suc p)
        → Removes t k (remove_found t (hash k) (some (suc p)))
    unfolding is_head remove_found
    remove-suc p x =
        let e = entries-remove_bucket-suc (slot t (hash k)) p in
        record {
          valid =
              set-IsValid (hash k) _ valid (hash-lt k)
                (rw e (All-unlink (InPlace (hash k)) (home t k) (suc p) (valid.placed (hash k))))
                (rw e (Distinct-unlink (home t k) (suc p) (valid.distinct (hash k))));
          flag = sym (flag_of ∙ ap is_some x);
          freed = sym (found _ x);
          reads = λ q.
              rw
                (
                  h_get-set t (hash k) (remove_bucket (slot t (hash k)) (suc p)) q valid.width
                      (hash-lt k),
                  e,
                  x,
                )
                (elim (Bool-cases (hash k == hash q)) [
                  | inl same ↦ rw (
                    same,
                    find-unlink q k (home t k) (suc p) (valid.distinct (hash k)) x,
                    h_get-find t q,
                    home_congr t k q same,
                  )
                  | inr other ↦ rw other (ground (arith, same_hash q k))
                ]);
        }

    -- In a valid table h_remove keeps the table valid, returns true exactly when the key is present,
    -- and frees the payload that the key read. If the key's entry is not the first of its bucket,
    -- that key alone reads NULL afterwards; if it is, every key of the bucket does.
    pub h_remove_lem : Removes t k (h_remove t k)
    unfolding h_remove
    h_remove_lem = rw (get_bucket-ll_search (slot t (hash k)) k) (go (ll_search (home t k) k) refl)
      where
        go : (o : Option ℕ) → ll_search (home t k) k ≡ o → Removes t k (remove_found t (hash k) o)
        go none x = remove-absent x
        go (some zero) x = remove-zero x
        go (some (suc p)) x = remove-suc p x

  -- what holds of the empty chain and survives unlinking holds of every bucket after h_remove
  pub h_remove_preserves {κ} :
      (P : List (Entry D) → Type κ) {t : Table D} (k : Text)
      → IsValid t
      → P []
      → ((es : List (Entry D)) (p : ℕ) → P es → P (unlink es p))
      → ((i : ℕ) → P (entries (slot t i)))
      → (i : ℕ) → P (entries (slot (h_remove t k).0 i))
  unfolding h_remove
  h_remove_preserves P {t} k valid empty keep all i = go (h_get_entry t k)
    where
      written : (b : Bucket D) → P (entries b) → P (entries (slot (set t (hash k) b) i))
      written b pb =
          rw (slot-set t (hash k) i b (omega (arith, valid.width, hash-lt k)))
            (elim (Bool-cases (hash k == i)) [
              | inl same ↦ rw same pb
              | inr other ↦ rw other (all i)
            ])

      go : (o : Option ℕ) → P (entries (slot (remove_found t (hash k) o).0 i))
      go none = all i
      go (some zero) = written _ (rw remove_bucket-zero empty)
      go (some (suc p)) =
          written _
            (rw entries-remove_bucket-suc (keep (entries (slot t (hash k))) (suc p) (all (hash k))))
