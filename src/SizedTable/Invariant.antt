-- ===== src/SizedTable/Invariant.antt =====
-- The globals that the calls of assignment1/hashtable.c can reach, and what `ht_size` counts there.
use c.Base.{
  false, ◌∙◌, ltb, lt→ltb, sym, ℕ, zero, suc, ◌+◌, ◌≤◌, ◌<◌, ◌≡◌, refl, ap, Bool, Option, none,
  some, List, [], ◌∷◌, arith, if◌then◌else◌, is_some, set, length, length-append, inl, inr,
  Bool-cases, Text,
}
use c.HashTable
use c.HashTable.{
  Entry, Bucket, vacant, used, Table, hash, ht_siz, entries, slot, ll_search, link_last, unlink,
  remove_bucket, remove_found,
}
use c.HashTable.Insert.{h_init-IsValid, h_insert-IsValid}
use c.HashTable.Listing.{payloads, contents, length-payloads}
use c.HashTable.Remove.{h_remove_lem}
use c.HashTable.Slot.{IsValid, hash-lt}
use c.SizedTable.{
  Run, out_of_bounds, ok, fault, Global, ll_insert, insert_bucket, h_insert_entry, insert_copied,
  h_insert, h_get_entry, h_get, h_init, h_remove,
}

module _ {ℓ} {D : Type ℓ} where
  -- a global that the calls lead to
  pub data Reachable (usable : ℕ → ℕ) : Global D → Type ℓ where
    start : Reachable usable h_init
    inserted :
        {g : Global D} {r : Global D × Bool} (key : Text) (payload : D)
        → h_insert usable g key payload ≡ ok r
        → Reachable usable g
        → Reachable usable r.0
    removed : {g : Global D} (key : Text) → Reachable usable g → Reachable usable (h_remove g key).0

  -- where the block of the key has a byte more than was asked for, the copy is in bounds
  pub h_insert-copied :
      (usable : ℕ → ℕ) (g : Global D) (key : Text) (payload : D)
      → length key < usable (length key)
      → h_insert usable g key payload ≡ ok (insert_copied g key payload)
  unfolding h_insert
  h_insert-copied usable g key payload roomy =
      rw (h_insert, lt→ltb (length key) (usable (length key)) roomy) refl

  -- else it leaves the block, as it does for every key where malloc gives no more than was asked for
  pub h_insert_overruns :
      (usable : ℕ → ℕ) (g : Global D) (key : Text) (payload : D)
      → usable (length key) ≤ length key
      → h_insert usable g key payload ≡ fault out_of_bounds
  unfolding h_insert
  h_insert_overruns usable g key payload tight = rw (h_insert, small) refl
    where
      small : ltb (length key) (usable (length key)) ≡ false
      small = ground arith

  h_insert_result :
      (usable : ℕ → ℕ) (g : Global D) (key : Text) (payload : D) (r : Global D × Bool)
      → h_insert usable g key payload ≡ ok r
      → insert_copied g key payload ≡ r
  h_insert_result usable g key payload r e =
      elim (Bool-cases (ltb (length key) (usable (length key)))) [
        | inl x ↦ value (sym (h_insert-copied usable g key payload (ground arith)) ∙ e)
        | inr x ↦
            absurd (no_fault (sym (h_insert_overruns usable g key payload (ground arith)) ∙ e))
      ]
    where
      value : {a b : Global D × Bool} → ok a ≡ ok b → a ≡ b
      value {a} {b} e = ap (λ (m : Run (Global D × Bool)). elim m [ ok x ↦ x | fault f ↦ a ]) e

      no_fault : fault out_of_bounds ≡ ok r → ⊥
      no_fault e = cc

  -- `ht_size` and the table on their own
  insert_bucket-HashTable :
      (b : Bucket D) (ent : Entry D) (n : ℕ)
      → insert_bucket b ent n ≡ (
        (HashTable.insert_bucket b ent).0,
        (HashTable.insert_bucket b ent).1,
        (if (HashTable.insert_bucket b ent).1 then suc n else n),
      )
  unfolding insert_bucket ll_insert HashTable.insert_bucket HashTable.ll_insert
  insert_bucket-HashTable vacant ent n = refl
  insert_bucket-HashTable (used e es) ent n =
      elim (Bool-cases (is_some (ll_search (e ∷ es) ent.key))) [ inl x ↦ rw x | inr x ↦ rw x ]

  pub insert_copied-HashTable :
      (g : Global D) (k : Text) (d : D)
      → insert_copied g k d ≡ (
        record {
          h_table = (HashTable.h_insert g.h_table k d).0;
          ht_size = if (HashTable.h_insert g.h_table k d).1 then suc g.ht_size else g.ht_size;
        },
        (HashTable.h_insert g.h_table k d).1,
      )
  unfolding insert_copied h_insert_entry HashTable.h_insert HashTable.h_insert_entry
  insert_copied-HashTable g k d =
      let node : Entry D = record { index = hash k; key = k; payload = d } in
      ap
        (λ (r : Bucket D × Bool × ℕ).
          (record { h_table = set g.h_table (hash k) r.0; ht_size = r.2 }, r.1))
        (insert_bucket-HashTable (slot g.h_table (hash k)) node g.ht_size)

  get_bucket-HashTable :
      (g : Global D) (k : Text) → h_get_entry g k ≡ HashTable.h_get_entry g.h_table k
  unfolding h_get_entry HashTable.h_get_entry HashTable.get_bucket
  get_bucket-HashTable g k = by_bucket (slot g.h_table (hash k))
    where
      by_bucket :
          (b : Bucket D)
          → (elim b [ vacant ↦ none | used first rest ↦ ll_search (first ∷ rest) k ])
            ≡ HashTable.get_bucket b k
      by_bucket vacant = refl
      by_bucket (used e es) = refl

  pub h_get-HashTable : (g : Global D) (k : Text) → h_get g k ≡ HashTable.h_get g.h_table k
  unfolding h_get HashTable.h_get
  h_get-HashTable g k = rw (get_bucket-HashTable g k)

  pub h_remove-HashTable :
      (g : Global D) (k : Text)
      → h_remove g k ≡ (
        record { h_table = (HashTable.h_remove g.h_table k).0; ht_size = g.ht_size },
        (HashTable.h_remove g.h_table k).1,
        (HashTable.h_remove g.h_table k).2,
      )
  unfolding h_remove HashTable.h_remove
  h_remove-HashTable g k = rw (get_bucket-HashTable g k)

  -- the number of entries
  abbrev pub total : Table D → ℕ
  total t = length (contents t)

  total-set :
      (t : Table D) (i : ℕ) (b : Bucket D)
      → i < length t
      → total (set t i b) + length (entries (slot t i)) ≡ total t + length (entries b)
  total-set [] i b lt = absurd (omega arith)
  total-set (x ∷ t) zero b lt =
      rw
        (
          length-append (payloads (entries b)) (contents t),
          length-append (payloads (entries x)) (contents t),
          length-payloads (entries b),
          length-payloads (entries x),
        )
        (omega arith)
  total-set (x ∷ t) (suc i) b lt =
      let rest = total-set t i b (omega arith) in
      rw
        (
          length-append (payloads (entries x)) (contents (set t i b)),
          length-append (payloads (entries x)) (contents t),
        )
        (omega arith)

  length-link_last : (es : List (Entry D)) (e : Entry D) → length (link_last es e) ≡ suc (length es)
  unfolding link_last
  length-link_last [] e = refl
  length-link_last (x ∷ es) e = ap suc (length-link_last es e)

  length-unlink : (es : List (Entry D)) (p : ℕ) → length (unlink es p) ≤ length es
  unfolding unlink
  length-unlink [] p = omega arith
  length-unlink (e ∷ es) zero = omega arith
  length-unlink (e ∷ es) (suc p) = let rest = length-unlink es p in omega arith

  length-insert_bucket :
      (b : Bucket D) (ent : Entry D)
      → length (entries (HashTable.insert_bucket b ent).0) ≡ (
          if (HashTable.insert_bucket b ent).1
          then suc (length (entries b))
          else length (entries b))
  unfolding HashTable.insert_bucket HashTable.ll_insert
  length-insert_bucket vacant ent = refl
  length-insert_bucket (used e es) ent = elim (Bool-cases (is_some (ll_search (e ∷ es) ent.key))) [
    | inl x ↦ rw x
    | inr x ↦ rw x (ap suc (length-link_last es ent))
  ]

  length-remove_bucket :
      (b : Bucket D) (p : ℕ) → length (entries (remove_bucket b p)) ≤ length (entries b)
  unfolding remove_bucket
  length-remove_bucket vacant p = omega arith
  length-remove_bucket (used e es) zero = omega arith
  length-remove_bucket (used e es) (suc p) = let rest = length-unlink es p in omega arith

  pub total-h_insert :
      (t : Table D) (k : Text) (d : D)
      → length t ≡ ht_siz
      → total (HashTable.h_insert t k d).0
        ≡ (if (HashTable.h_insert t k d).1 then suc (total t) else total t)
  unfolding HashTable.h_insert HashTable.h_insert_entry
  total-h_insert t k d width =
      let node : Entry D = record { index = hash k; key = k; payload = d } in
      let b = HashTable.insert_bucket (slot t (hash k)) node in
      let here = total-set t (hash k) b.0 (omega (arith, width, hash-lt k)) in
      let longer = length-insert_bucket (slot t (hash k)) node in
      elim (Bool-cases b.1) [
        | inl x ↦ rw x (omega (arith, here, rw x at longer))
        | inr x ↦ rw x (omega (arith, here, rw x at longer))
      ]

  total-h_remove :
      (t : Table D) (k : Text) → length t ≡ ht_siz → total (HashTable.h_remove t k).0 ≤ total t
  unfolding HashTable.h_remove
  total-h_remove t k width = by_position (HashTable.h_get_entry t k)
    where
      by_position : (o : Option ℕ) → total (remove_found t (hash k) o).0 ≤ total t
      by_position none = omega arith
      by_position (some p) =
          let here =
            total-set t (hash k) (remove_bucket (slot t (hash k)) p)
              (omega (arith, width, hash-lt k)) in
          let shorter = length-remove_bucket (slot t (hash k)) p in omega arith

  -- the table is valid and `ht_size` is at least the number of its entries
  pub record IsCounted (g : Global D) : Type ℓ where
    pub valid : IsValid g.h_table
    pub room : total g.h_table ≤ g.ht_size

  pub h_init-IsCounted : IsCounted (h_init {D = D})
  unfolding h_init HashTable.h_init
  h_init-IsCounted = record { valid = h_init-IsValid; room = omega arith }

  pub insert_copied-IsCounted :
      {g : Global D} (k : Text) (d : D) → IsCounted g → IsCounted (insert_copied g k d).0
  insert_copied-IsCounted {g} k d is =
      let grows = total-h_insert g.h_table k d is.valid.width in
      let room = is.room in
      rw (insert_copied-HashTable g k d)
        (record { valid = h_insert-IsValid is.valid k d; room = ground arith })

  pub h_remove-IsCounted : {g : Global D} (k : Text) → IsCounted g → IsCounted (h_remove g k).0
  h_remove-IsCounted {g} k is =
      let shrinks = total-h_remove g.h_table k is.valid.width in
      let room = is.room in
      rw (h_remove-HashTable g k)
        (record { valid = (h_remove_lem is.valid k).valid; room = omega arith })

  -- Whatever calls of h_insert and h_remove follow h_init, for as long as no copy of a key leaves the block
  -- that malloc has given for it, the table stays valid, with each entry in its own bucket and each key
  -- once, and `ht_size` never falls below the number of entries.
  pub Reachable-IsCounted : {usable : ℕ → ℕ} {g : Global D} → Reachable usable g → IsCounted g
  Reachable-IsCounted start = h_init-IsCounted
  Reachable-IsCounted {usable} (inserted {g} {r} key payload e reach) =
      rw (sym (ap (λ (q : Global D × Bool). q.0) (h_insert_result usable g key payload r e)))
        (insert_copied-IsCounted key payload (Reachable-IsCounted reach))
  Reachable-IsCounted (removed key r) = h_remove-IsCounted key (Reachable-IsCounted r)
