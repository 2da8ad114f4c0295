-- ===== src/TypeTable.antt =====
-- Assig4/typetable.c: user-defined types and the field lists of structures. A type object and a
-- field list are addressed by numbers; `malloc` is an argument, the address that it returns. The
-- fixed buffers `name` and `f_name` of 257 bytes hold every identifier that the lexer passes on
-- through create_symbol.
pub mod Laws
mod Tests
use c.Base.{
  ℕ, ◌≡◌, Bool, true, false, Option, none, some, List, [], ◌∷◌, if◌then◌else◌, ◌==◌, ltb, length,
  is_some, Text,
}
use c.Base.Run.{Run, ok, fault, dangling, out_of_bounds, ◌>>=◌}
use c.HashTable.{Table, h_init, h_insert, h_get}
use c.SymbolTable.{TypeEnum, int_ty, Ptr, id_siz}

-- `struct_field`, its `next` the rest of the list
pub record StructField : Type 0 where
  pub f_type : TypeEnum
  pub f_name : Text

-- `mytype_t`
pub record MyType : Type 0 where
  pub name : Text
  pub type : TypeEnum
  pub head : List StructField

-- the global `typetab`, and the type objects that are allocated
pub record TypeState : Type 0 where
  pub objects : Ptr → Option MyType
  pub typetab : Table Ptr

unfoldable pub put_object : (Ptr → Option MyType) → Ptr → MyType → Ptr → Option MyType
put_object objects p t q = if q == p then some t else objects q

unfoldable pub init_typetab : TypeState → TypeState
init_typetab st = record st { typetab = h_init }

-- h_insert's result is ignored, and the new object is returned also if the name was taken
unfoldable pub insert_type : TypeState → (fresh : Ptr) → Text → TypeEnum → Run (TypeState × Ptr)
unfolding put_object
insert_type st fresh name type =
    if ltb (length name) id_siz
    then ok (
      record {
        objects = put_object st.objects fresh (record { name = name; type = type; head = [] });
        typetab = (h_insert st.typetab name fresh).0;
      },
      fresh,
    )
    else fault out_of_bounds

unfoldable pub is_type_exists : TypeState → Text → Bool
is_type_exists st type = is_some (h_get st.typetab type)

unfoldable pub load_object : TypeState → Ptr → Run MyType
load_object st p = elim (st.objects p) [ none ↦ fault dangling | some t ↦ ok t ]

unfoldable pub type_of_found : TypeState → Option Ptr → Run TypeEnum
unfolding load_object
type_of_found st none = ok int_ty
type_of_found st (some p) = do t ← load_object st p; ok t.type

unfoldable pub get_type : TypeState → Text → Run TypeEnum
unfolding type_of_found
get_type st type = type_of_found st (h_get st.typetab type)

-- `t->head` is read before `t` is returned, so that an unknown name is a fault
unfoldable pub object_of_found : TypeState → Option Ptr → Run Ptr
unfolding load_object
object_of_found st none = fault dangling
object_of_found st (some p) = do _ ← load_object st p; ok p

unfoldable pub get_type_obj : TypeState → Text → Run Ptr
unfolding object_of_found
get_type_obj st type = object_of_found st (h_get st.typetab type)

unfoldable pub create_field : Text → TypeEnum → Run StructField
create_field name type =
    if ltb (length name) id_siz
    then ok (record { f_type = type; f_name = name })
    else fault out_of_bounds
