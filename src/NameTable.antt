-- ===== src/NameTable.antt =====
-- Assig2/table.c: the names of types in the hash table of Assig2/hashtable.c, which has the text of
-- assignment1/hashtable.c, so that SizedTable is used. What h_insert stores is the address of the local
-- variable `t`, which is in no frame any more when the call has returned; is_type_exists compares it
-- with NULL (here 0) and does not follow it.
mod Tests
pub mod Names
use c.Base.{
  ℕ, Bool, true, false, not, none, some, ltb, ◌==◌, if◌then◌else◌, length, List, [], ◌∷◌, Text,
}
use c.Base.Run.{Run, ok, fault, out_of_bounds, ◌>>=◌}
use c.SizedTable.{Global, h_init, h_insert, h_get}

-- `char name[20]`
abbrev pub name_siz : ℕ
name_siz = 20

-- `usable` is the size of the blocks of malloc as in SizedTable, `here` is the address of `t` in the frame of the call
unfoldable pub insert_type :
    (usable : ℕ → ℕ) → Global ℕ → (here : ℕ) → (name : Text) → Run (Global ℕ)
unfolding h_insert
insert_type usable g here name =
    if ltb (length name) name_siz
    then (h_insert usable g name here >>= λ r. ok r.0)
    else fault out_of_bounds

unfoldable pub is_type_exists : Global ℕ → Text → Bool
unfolding h_get
is_type_exists g name = elim (h_get g name) [ none ↦ false | some stored ↦ not (stored == 0) ]

unfoldable pub init : Global ℕ
unfolding h_init
init = h_init

-- a run of calls of insert_type from one place, so that `t` is at the same address in all of them
unfoldable pub insert_types : (usable : ℕ → ℕ) → Global ℕ → (here : ℕ) → List Text → Run (Global ℕ)
unfolding insert_type
insert_types usable g here [] = ok g
insert_types usable g here (name ∷ names) = do
  g ← insert_type usable g here name
  insert_types usable g here names
