-- ===== src/TypeTable/Laws.antt =====
-- The type table of Assig4/typetable.c as a map from names to types, in which the first definition
-- of a name counts.
use c.Base.{
  some-injective, ◌⊎◌, ==_iff, none-ne-some, ◌<◌, ◌≡◌, refl, sym, ap, ◌∙◌, inl, inr, Bool, true,
  false, ◌&&◌, ◌||◌, not, Option, none, some, [], arith, if◌then◌else◌, ◌==◌, lt→ltb, length,
  is_some, Text, streq, streq→eq, Bool-cases, Option-cases,
}
use c.Base.Run.{ok, fault, dangling, Returns, returns}
use c.HashTable.{h_get, h_insert}
use c.HashTable.Slot.{IsValid}
use c.HashTable.Insert.{or_else, Inserts, h_insert_lem}
use c.SymbolTable.{TypeEnum, int_ty, Ptr, id_siz}
use c.TypeTable.{
  MyType, TypeState, put_object, insert_type, is_type_exists, load_object, type_of_found, get_type,
  get_type_obj,
}

-- the table is valid, and every name leads to an allocated type object
pub record IsTypetab (st : TypeState) : Type 0 where
  pub valid : IsValid st.typetab
  pub live :
      (q : Text) (p : Ptr) → h_get st.typetab q ≡ some p → (t : MyType) × (st.objects p ≡ some t)

pub record TypeInserted (st : TypeState) (fresh : Ptr) (name : Text) (type : TypeEnum)
    (r : TypeState × Ptr) : Type 0 where
  pub typetab : IsTypetab r.0
  pub object :
      (r.1 ≡ fresh) × (r.0.objects fresh ≡ some (record { name = name; type = type; head = [] }))
  pub exists : (q : Text) → is_type_exists r.0 q ≡ (is_type_exists st q || streq q name)
  pub types :
      (q : Text)
      → get_type r.0 q
        ≡ (if streq q name && not (is_type_exists st name) then ok type else get_type st q)

module _ {st : TypeState} (typetab : IsTypetab st) (fresh : Ptr) (unused : st.objects fresh ≡ none)
    (name : Text) (type : TypeEnum) where
  inserts : Inserts st.typetab name fresh (h_insert st.typetab name fresh)
  inserts = h_insert_lem typetab.valid name fresh

  abbrev object : MyType
  object = record { name = name; type = type; head = [] }

  abbrev objects : Ptr → Option MyType
  objects = put_object st.objects fresh object

  objects-fresh : objects fresh ≡ some object
  unfolding put_object
  objects-fresh = ground arith

  objects-old : (p : Ptr) (t : MyType) → st.objects p ≡ some t → objects p ≡ some t
  unfolding put_object
  objects-old p t h = elim (Bool-cases (p == fresh)) [
    | inl same ↦
        absurd (none-ne-some (sym unused ∙ ap st.objects (sym ((==_iff p fresh).0 same)) ∙ h))
    | inr other ↦ rw other h
  ]

  result : TypeState
  result = record { objects = objects; typetab = (h_insert st.typetab name fresh).0 }

  -- a pointer that the old table returns is read the same in the new state
  type_of_found-result :
      (o : Option Ptr)
      → ((p : Ptr) → o ≡ some p → (t : MyType) × (st.objects p ≡ some t))
      → type_of_found result o ≡ type_of_found st o
  unfolding type_of_found result
  type_of_found-result none live = refl
  type_of_found-result (some p) live =
      let (t, ht) = live p refl in rw (load_object, objects-old p t ht, ht)

  load-result : type_of_found result (some fresh) ≡ ok type
  unfolding type_of_found result
  load-result = rw (load_object, objects-fresh)

  types :
      (q : Text)
      → get_type result q
        ≡ (if streq q name && not (is_type_exists st name) then ok type else get_type st q)
  unfolding get_type is_type_exists result
  types q = elim (Bool-cases (streq q name)) [
    | inr other ↦
        rw (inserts.reads q, other) (type_of_found-result (h_get st.typetab q) (typetab.live q))
    | inl same ↦ elim (Option-cases (h_get st.typetab name)) [
      | inl absent ↦ rw (inserts.reads q, same, absent) load-result
      | inr (y, present) ↦
          rw (inserts.reads q, same, streq→eq q name same, present)
            (type_of_found-result (some y) (λ p e. typetab.live name p (present ∙ e)))
    ]
  ]

  exists : (q : Text) → is_type_exists result q ≡ (is_type_exists st q || streq q name)
  unfolding is_type_exists result
  exists q = elim (Bool-cases (streq q name)) [
    | inr other ↦ rw (inserts.reads q, other) (sym (or-false (is_some (h_get st.typetab q))))
    | inl same ↦ rw (inserts.reads q, same) (sym (or-true (is_some (h_get st.typetab q))))
  ]
    where
      or-false : (b : Bool) → (b || false) ≡ b
      or-false true = refl
      or-false false = refl

      or-true : (b : Bool) → (b || true) ≡ true
      or-true true = refl
      or-true false = refl

  live :
      (q : Text) (p : Ptr)
      → h_get result.typetab q ≡ some p
      → (t : MyType) × (result.objects p ≡ some t)
  unfolding result
  live q p h = elim (Bool-cases (streq q name)) [
    | inr other ↦
        let (t, ht) = typetab.live q p (sym (rw other at (inserts.reads q)) ∙ h) in
        (t, objects-old p t ht)
    | inl same ↦
        known (h_get st.typetab name) refl (some-injective (sym (rw same at (inserts.reads q)) ∙ h))
  ]
    where
      known :
          (o : Option Ptr)
          → h_get st.typetab name ≡ o
          → or_else (h_get st.typetab name) fresh ≡ p
          → (t : MyType) × (objects p ≡ some t)
      known none e h = (object, rw (← h, e) objects-fresh)
      known (some y) e h =
          let (t, ht) = typetab.live name y e in (t, rw (← h, e) (objects-old y t ht))

  -- In a valid type table, with a fresh address and a name that fits its buffer, insert_type does
  -- not fault. It returns the new object, holding the name and the type. The name then exists; if it
  -- is new it has the given type, and if it existed it keeps the type that it had. All other names
  -- are as before, and the table is valid again.
  pub insert_type_lem :
      length name < id_siz
      → Returns (TypeInserted st fresh name type) (insert_type st fresh name type)
  unfolding insert_type result
  insert_type_lem fits = rw (lt→ltb (length name) id_siz fits) (
      returns (record {
        typetab = record { valid = inserts.valid; live = live };
        object = (refl, objects-fresh);
        exists = exists;
        types = types;
      }))

-- the type that a lookup of the name yields, and its object
pub record KnownType (st : TypeState) (q : Text) : Type 0 where
  pub address : Ptr
  pub object : MyType
  pub allocated : st.objects address ≡ some object
  pub type_read : get_type st q ≡ ok object.type
  pub object_read : get_type_obj st q ≡ ok address

-- In a valid type table get_type never faults: a name that exists has the type of its object, which
-- get_type_obj returns; any other name counts as int, and get_type_obj reads through NULL.
pub get_type_lem :
    {st : TypeState} (q : Text)
    → IsTypetab st
    → (is_type_exists st q ≡ true) × KnownType st q
      ⊎ (is_type_exists st q ≡ false)
        × (get_type st q ≡ ok int_ty)
        × (get_type_obj st q ≡ fault dangling)
unfolding is_type_exists get_type get_type_obj
get_type_lem {st} q typetab = elim (Option-cases (h_get st.typetab q)) [
  | inl absent ↦ inr (rw absent, rw absent, rw absent)
  | inr (p, present) ↦
      let (t, ht) = typetab.live q p present in
      inl (
        rw present,
        record {
          address = p;
          object = t;
          allocated = ht;
          type_read = rw (present, load_object, ht);
          object_read = rw (present, load_object, ht);
        },
      )
]
