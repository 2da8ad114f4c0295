-- ===== src/IdTable/Count.antt =====
-- The frequencies that Assig1/symboltable.c keeps against the number of occurrences in the input.
use c.Base.{
  false-ne-true, ℕ, zero, suc, ◌+◌, ◌≤◌, ◌<◌, ◌≡◌, refl, sym, ap, ◌∙◌, inl, inr, true, false, none,
  some, List, [], ◌∷◌, ◌++◌, arith, lt→ltb, if◌then◌else◌, length, length-snoc, Text, streq,
  streq→eq, Bool-cases, Option-cases,
}
use c.Base.Run
use c.Base.Run.{Run, ok, fault, out_of_bounds, ◌>>=◌, Returns, returns}
use c.IdTable.{IdInfo, find_id, add_freq, insert_id, insert_ids, max_id_num, max_id_size}

-- the frequency that the table holds for a name
unfoldable pub freq : List IdInfo → Text → ℕ
freq [] q = 0
freq (x ∷ symtab) q = if streq x.id_name q then x.id_freq else freq symtab q

-- how often a name stands in the input
unfoldable pub occurrences : Text → List Text → ℕ
occurrences q [] = 0
occurrences q (text ∷ texts) = (if streq text q then 1 else 0) + occurrences q texts

-- what find_id says of the first cell and of the others
not_first :
    (x : IdInfo) (symtab : List IdInfo) (text : Text)
    → find_id (x ∷ symtab) text ≡ none
    → (streq x.id_name text ≡ false) × (find_id symtab text ≡ none)
unfolding find_id
not_first x symtab text h = ground (arith, Option-cases (find_id symtab text))

is_first :
    (x : IdInfo) (symtab : List IdInfo) (text : Text)
    → find_id (x ∷ symtab) text ≡ some 0
    → streq x.id_name text ≡ true
unfolding find_id
is_first x symtab text h = ground (arith, Option-cases (find_id symtab text))

is_later :
    (x : IdInfo) (symtab : List IdInfo) (text : Text) (pos : ℕ)
    → find_id (x ∷ symtab) text ≡ some (suc pos)
    → (streq x.id_name text ≡ false) × (find_id symtab text ≡ some pos)
unfolding find_id
is_later x symtab text pos h = ground (arith, Option-cases (find_id symtab text))

other_name : (a t q : Text) → streq a t ≡ false → streq a q ≡ true → streq t q ≡ false
other_name a t q differ same = elim (Bool-cases (streq t q)) [
  | inr no_match ↦ no_match
  | inl match ↦ absurd (false-ne-true (sym differ ∙ ap (streq a) (streq→eq t q match) ∙ same))
]

-- a cell of another name in front changes nothing
freq_front :
    (x : IdInfo) (symtab symtab' : List IdInfo) (text q : Text)
    → streq x.id_name text ≡ false
    → freq symtab' q ≡ freq symtab q + (if streq text q then 1 else 0)
    → freq (x ∷ symtab') q ≡ freq (x ∷ symtab) q + (if streq text q then 1 else 0)
unfolding freq
freq_front x symtab symtab' text q differ rest = elim (Bool-cases (streq x.id_name q)) [
  | inl same ↦ rw (same, other_name x.id_name text q differ same) (omega arith)
  | inr other ↦ rw other rest
]

freq_snoc :
    (symtab : List IdInfo) (text q : Text)
    → find_id symtab text ≡ none
    → freq (symtab ++ record { id_name = text; id_freq = 1 } ∷ []) q
      ≡ freq symtab q + (if streq text q then 1 else 0)
unfolding freq
freq_snoc [] text q h = ground arith
freq_snoc (x ∷ symtab) text q h =
    let (differ, rest) = not_first x symtab text h in
    freq_front x symtab _ text q differ (freq_snoc symtab text q rest)

freq-add_freq :
    (symtab : List IdInfo) (text q : Text) (pos : ℕ)
    → find_id symtab text ≡ some pos
    → freq (add_freq symtab pos) q ≡ freq symtab q + (if streq text q then 1 else 0)
unfolding freq find_id add_freq
freq-add_freq [] text q pos h = cc
freq-add_freq (x ∷ symtab) text q zero h =
    rw (← streq→eq x.id_name text (is_first x symtab text h)) (ground arith)
freq-add_freq (x ∷ symtab) text q (suc pos) h =
    let (differ, rest) = is_later x symtab text pos h in
    freq_front x symtab _ text q differ (freq-add_freq symtab text q pos rest)

length-add_freq : (symtab : List IdInfo) (pos : ℕ) → length (add_freq symtab pos) ≡ length symtab
unfolding add_freq
length-add_freq [] pos = refl
length-add_freq (x ∷ symtab) zero = refl
length-add_freq (x ∷ symtab) (suc pos) = ap suc (length-add_freq symtab pos)

-- the table after one more occurrence of `text`
pub record Counted (symtab : List IdInfo) (text : Text) (r : List IdInfo) : Type 0 where
  pub size : length r ≤ length symtab + 1
  pub reads : (q : Text) → freq r q ≡ freq symtab q + (if streq text q then 1 else 0)

insert_id_lem :
    (symtab : List IdInfo) (text : Text)
    → length symtab < max_id_num
    → length text < max_id_size
    → Returns (Counted symtab text) (insert_id symtab text)
unfolding insert_id
insert_id_lem symtab text room short = elim (Option-cases (find_id symtab text)) [
  | inr (pos, h) ↦
      rw (insert_id, h)
        (returns (record {
          size = omega (arith, length-add_freq symtab pos);
          reads = λ q. freq-add_freq symtab text q pos h;
        }))
  | inl h ↦
      rw
        (
          insert_id,
          h,
          lt→ltb (length symtab) max_id_num room,
          lt→ltb (length text) max_id_size short,
        )
        (returns (record {
          size = omega (arith, length-snoc symtab (record { id_name = text; id_freq = 1 }));
          reads = λ q. freq_snoc symtab text q h;
        }))
]

-- every identifier fits its cell
abbrev pub Short : List Text → Type 0
Short [] = Unit
Short (text ∷ texts) = (length text < max_id_size) × Short texts

-- For an input of identifiers that fit their cells, no more than there are free cells, insert_id does
-- not fault, and afterwards the frequency of every name has grown by its number of occurrences.
pub insert_ids_lem :
    (texts : List Text) (symtab : List IdInfo)
    → length symtab + length texts ≤ max_id_num
    → Short texts
    → Returns
        (λ r. (q : Text) → freq r q ≡ freq symtab q + occurrences q texts)
        (insert_ids texts symtab)
unfolding insert_ids occurrences
insert_ids_lem [] symtab room short = returns (λ q. omega arith)
insert_ids_lem (text ∷ texts) symtab room short =
    Run.bind (insert_id_lem symtab text (omega arith) short.0) λ mid counted.
      Run.mono (insert_ids_lem texts mid (omega (arith, counted.size)) short.1)
        λ r reads q. reads q ∙ omega (arith, counted.reads q)
