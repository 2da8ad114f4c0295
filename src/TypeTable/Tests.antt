-- ===== src/TypeTable/Tests.antt =====
-- The type table of Assig4/typetable.c, empty and with one structure.
use c.Base.{◌≡◌, refl, sym, ◌∙◌, none, [], Text, codes, arith, none-ne-some, streq}
use c.Base.Run.{ok, ◌>>=◌, Returns}
use c.HashTable.{h_init, h_get, h_insert}
use c.HashTable.Insert.{h_init-IsValid, h_init-h_get}
use c.SymbolTable.{struct_ty, typedef_ty}
use c.TypeTable.{TypeState, init_typetab, insert_type, get_type}
use c.TypeTable.Laws.{IsTypetab, TypeInserted, insert_type_lem}

abbrev empty : TypeState
empty = init_typetab (record { objects = λ _. none; typetab = [] })

empty-IsTypetab : IsTypetab empty
unfolding init_typetab
empty-IsTypetab = record {
  valid = h_init-IsValid;
  live = λ q p h. absurd (none-ne-some (sym (h_init-h_get q) ∙ h));
}

abbrev point : Text
point = codes "point"

-- a second definition of a name does not change its type
declared_twice :
    (do
      (st, _) ← insert_type empty 1 point struct_ty
      (st, _) ← insert_type st 2 point typedef_ty
      get_type st point)
    ≡ ok struct_ty
unfolding init_typetab insert_type get_type h_init h_get h_insert streq
declared_twice = refl

insert_type_lem_example :
    Returns (TypeInserted empty 1 point struct_ty) (insert_type empty 1 point struct_ty)
unfolding init_typetab
insert_type_lem_example = insert_type_lem empty-IsTypetab 1 refl point struct_ty (omega arith)
