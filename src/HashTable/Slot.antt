-- ===== src/HashTable/Slot.antt =====
-- One bucket of Assig4/hashtable.c, and where the entries of a table stand.
use c.Base.{
  true, sym, ap, streq, streq→eq, ℕ, suc, ◌<◌, ◌≡◌, refl, ◌∙◌, inl, inr, not, List, ◌∷◌, arith,
  if◌then◌else◌, is_some, length, length-set, set, get_or-set_self, get_or-set_ne, Text, ==_iff,
  ◌==◌, Bool-cases,
}
use c.HashTable.{
  Entry, Bucket, vacant, used, Table, ht_siz, hash, entries, slot, ll_search, link_last,
  insert_bucket, get_bucket, h_get_entry, h_get, unlink, remove_bucket,
}
use c.HashTable.Chain.{All, find, Distinct, deref-ll_search, is_some-ll_search}

-- every string has its bucket: `hash` is an index of the table
pub hash-lt : (text : Text) → hash text < ht_siz
unfolding hash
hash-lt text = omega arith

pub same_hash : (q k : Text) → streq q k ≡ true → (hash k == hash q) ≡ true
same_hash q k h = (==_iff (hash k) (hash q)).1 (sym (ap hash (streq→eq q k h)))

module _ {ℓ} {D : Type ℓ} where
  pub get_bucket-ll_search : (b : Bucket D) (k : Text) → get_bucket b k ≡ ll_search (entries b) k
  unfolding get_bucket ll_search
  get_bucket-ll_search vacant k = refl
  get_bucket-ll_search (used e es) k = refl

  pub entries-insert_bucket :
      (b : Bucket D) (ent : Entry D)
      → entries (insert_bucket b ent).0
        ≡ (if is_some (find ent.key (entries b)) then entries b else link_last (entries b) ent)
  unfolding insert_bucket find link_last
  entries-insert_bucket vacant ent = refl
  entries-insert_bucket (used e es) ent = ground (arith, is_some-ll_search (e ∷ es) ent.key)

  -- the flag says that the key was new
  pub insert_bucket_flag :
      (b : Bucket D) (ent : Entry D)
      → (insert_bucket b ent).1 ≡ not (is_some (find ent.key (entries b)))
  unfolding insert_bucket find
  insert_bucket_flag vacant ent = refl
  insert_bucket_flag (used e es) ent = ground (arith, is_some-ll_search (e ∷ es) ent.key)

  pub entries-remove_bucket-suc :
      (b : Bucket D) (p : ℕ) → entries (remove_bucket b (suc p)) ≡ unlink (entries b) (suc p)
  unfolding remove_bucket unlink
  entries-remove_bucket-suc vacant p = refl
  entries-remove_bucket-suc (used e es) p = refl

  pub remove_bucket-zero : (b : Bucket D) → remove_bucket b 0 ≡ vacant
  unfolding remove_bucket
  remove_bucket-zero vacant = refl
  remove_bucket-zero (used e es) = refl

  -- a bucket is vacant or holds entries of its own hash, each key once
  abbrev pub InPlace : ℕ → Entry D → Type 0
  InPlace i e = (e.index ≡ i) × (hash e.key ≡ i)

  pub record IsValid (t : Table D) : Type ℓ where
    pub width : length t ≡ ht_siz
    pub placed : (i : ℕ) → All (InPlace i) (entries (slot t i))
    pub distinct : (i : ℕ) → Distinct (entries (slot t i))

  -- the entries that h_get sees for a key
  abbrev pub home : Table D → Text → List (Entry D)
  home t k = entries (slot t (hash k))

  pub home_congr : (t : Table D) (k q : Text) → (hash k == hash q) ≡ true → home t k ≡ home t q
  home_congr t k q h = ap (λ i. entries (slot t i)) ((==_iff (hash k) (hash q)).0 h)

  -- h_get reads the association list of the key's bucket
  pub h_get-find : (t : Table D) (k : Text) → h_get t k ≡ find k (home t k)
  unfolding h_get h_get_entry
  h_get-find t k = rw (get_bucket-ll_search (slot t (hash k)) k) (deref-ll_search (home t k) k)

  -- a write to one bucket, read through a key
  pub slot-set :
      (t : Table D) (i j : ℕ) (b : Bucket D)
      → i < length t
      → slot (set t i b) j ≡ (if i == j then b else slot t j)
  slot-set t i j b h = elim (Bool-cases (i == j)) [
    | inl same ↦ rw (same, ← (==_iff i j).0 same) (get_or-set_self t i b vacant h)
    | inr other ↦ rw other (get_or-set_ne t i j b vacant (ground arith))
  ]

  -- a bucket whose new contents are in place keeps the table valid
  pub set-IsValid :
      {t : Table D} (i : ℕ) (b : Bucket D)
      → IsValid t
      → i < ht_siz
      → All (InPlace i) (entries b)
      → Distinct (entries b)
      → IsValid (set t i b)
  set-IsValid {t} i b v h a d = record {
    width = length-set t i b ∙ v.width;
    placed = λ j. rw (slot-set t i j b (omega (arith, v.width))) (elim (Bool-cases (i == j)) [
      | inl same ↦ rw (same, ← (==_iff i j).0 same) a
      | inr other ↦ rw other (v.placed j)
    ]);
    distinct = λ j.
        rw (slot-set t i j b (omega (arith, v.width))) (elim (Bool-cases (i == j)) [
          | inl same ↦ rw same d
          | inr other ↦ rw other (v.distinct j)
        ]);
  }

  -- what a key reads after a write to one bucket
  pub h_get-set :
      (t : Table D) (i : ℕ) (b : Bucket D) (q : Text)
      → length t ≡ ht_siz
      → i < ht_siz
      → h_get (set t i b) q ≡ (if i == hash q then find q (entries b) else h_get t q)
  h_get-set t i b q w h =
      rw (h_get-find (set t i b) q, h_get-find t q, slot-set t i (hash q) b (omega arith))
        (elim (Bool-cases (i == hash q)) [ inl same ↦ rw same | inr other ↦ rw other ])
