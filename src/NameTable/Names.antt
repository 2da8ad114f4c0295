-- ===== src/NameTable/Names.antt =====
-- The names that Assig2/table.c knows.
use c.Base.{
  lt→ltb, if◌then◌else◌, ℕ, ◌<◌, ◌≡◌, refl, sym, ap, ◌∙◌, Bool, true, false, ◌||◌, not, Option,
  none, some, List, [], ◌∷◌, ◌==◌, arith, Text, length, streq,
}
use c.Base.Run
use c.Base.Run.{Run, ok, ◌>>=◌, Returns, returns}
use c.HashTable
use c.HashTable.Insert.{or_else, or_else, h_insert_lem, h_init-h_get, h_init-IsValid}
use c.HashTable.Slot.{IsValid}
use c.SizedTable.{insert_copied, Global, h_get}
use c.SizedTable.Invariant.{h_insert-copied, insert_copied-HashTable, h_get-HashTable}
use c.NameTable.{insert_type, is_type_exists, init, insert_types}

-- a name is among others
abbrev pub knows : List Text → Text → Bool
knows [] type = false
knows (name ∷ names) type = streq type name || knows names type

-- every name fits its array, and the block that malloc gives for its length has a byte more
abbrev pub Fit : (usable : ℕ → ℕ) → List Text → Type 0
Fit usable [] = Unit
Fit usable (name ∷ names) =
    (length name < 20) × (length name < usable (length name)) × Fit usable names

-- the keys of the table are the names that the test holds of, and all lead to the one address
record IsNames (here : ℕ) (known : Text → Bool) (g : Global ℕ) : Type 0 where
  valid : IsValid g.h_table
  reads : (q : Text) → h_get g q ≡ (if known q then some here else none)

insert_type-IsNames :
    (here : ℕ) (known : Text → Bool) (g : Global ℕ) (type : Text)
    → IsNames here known g
    → IsNames here (λ q. known q || streq q type) (insert_copied g type here).0
insert_type-IsNames here known g type names =
    let inserted = h_insert_lem names.valid type here in
    rw (insert_copied-HashTable g type here) (record {
      valid = inserted.valid;
      reads = λ q. h_get-HashTable _ q ∙ inserted.reads q ∙ by_name q;
    })
  where
    stored : or_else (HashTable.h_get g.h_table type) here ≡ here
    stored = rw (sym (h_get-HashTable g type) ∙ names.reads type) (by_known (known type))
      where
        by_known : (k : Bool) → or_else (if k then some here else none) here ≡ here
        by_known true = refl
        by_known false = refl

    by_name :
        (q : Text)
        → (if streq q type
            then some (or_else (HashTable.h_get g.h_table type) here)
            else HashTable.h_get g.h_table q)
          ≡ (if known q || streq q type then some here else none)
    by_name q =
        rw (stored, sym (h_get-HashTable g q) ∙ names.reads q) (by_tests (streq q type) (known q))
      where
        by_tests :
            (a b : Bool)
            → (if a then some here else (if b then some here else none))
              ≡ (if b || a then some here else none)
        by_tests true true = refl
        by_tests true false = refl
        by_tests false true = refl
        by_tests false false = refl

insert_type_round :
    (usable : ℕ → ℕ) (here : ℕ) (g : Global ℕ) (type : Text)
    → length type < 20
    → length type < usable (length type)
    → insert_type usable g here type ≡ ok (insert_copied g type here).0
unfolding insert_type
insert_type_round usable here g type fit roomy =
    rw (insert_type, lt→ltb (length type) 20 fit, h_insert-copied usable g type here roomy) refl

or_assoc : (a b c : Bool) → ((a || b) || c) ≡ (a || (b || c))
or_assoc true b c = refl
or_assoc false b c = refl

init-IsNames : (here : ℕ) → IsNames here (λ q. false) init
unfolding init HashTable.h_init
init-IsNames here = record {
  valid = h_init-IsValid;
  reads = λ q. h_get-HashTable init q ∙ h_init-h_get q;
}

IsNames-same :
    (here : ℕ) (f h : Text → Bool) (g : Global ℕ)
    → ((q : Text) → f q ≡ h q)
    → IsNames here f g
    → IsNames here h g
IsNames-same here f h g same names = record {
  valid = names.valid;
  reads = λ q. names.reads q ∙ ap (λ (k : Bool). if k then some here else none) (same q);
}

insert_types-IsNames :
    (usable : ℕ → ℕ) (here : ℕ) (known : Text → Bool) (g : Global ℕ) (types : List Text)
    → IsNames here known g
    → Fit usable types
    → Returns (IsNames here (λ q. known q || knows types q)) (insert_types usable g here types)
unfolding insert_types
insert_types-IsNames usable here known g [] names fit =
    returns (IsNames-same here known _ g (λ q. ground arith) names)
insert_types-IsNames usable here known g (type ∷ types) names fit =
    rw (insert_type_round usable here g type fit.0 fit.1) (
      Run.mono
        (insert_types-IsNames usable here (λ q. known q || streq q type)
          (insert_copied g type here).0 types (insert_type-IsNames here known g type names) fit.2)
        λ r. IsNames-same here _ _ r λ q. or_assoc (known q) (streq q type) (knows types q))

-- From the empty table, where every name fits its array, where malloc gives a block with a byte more for
-- the length of each, for the NUL of the key, and where `t` has an address that is not NULL, insert_type
-- of one name after the other returns, and then is_type_exists holds of these names and of no other.
pub insert_types_lem :
    (usable : ℕ → ℕ) (here : ℕ) (types : List Text)
    → 0 < here
    → Fit usable types
    → Returns
        (λ g. (name : Text) → is_type_exists g name ≡ knows types name)
        (insert_types usable init here types)
unfolding is_type_exists
insert_types_lem usable here types pos fit =
    Run.mono (insert_types-IsNames usable here (λ q. false) init types (init-IsNames here) fit)
      λ g names name.
        ap (λ (o : Option ℕ). elim o [ none ↦ false | some stored ↦ not (stored == 0) ])
          (names.reads name)
        ∙ not_null (knows types name)
  where
    not_null :
        (k : Bool)
        → (elim (if k then some here else none) [ none ↦ false | some stored ↦ not (stored == 0) ])
          ≡ k
    not_null true = ground arith
    not_null false = refl
