-- ===== src/SymbolTable/Key.antt =====
-- gen_key of Assig4/symboltable.c: scopes and names are told apart by the keys, and the buffers of
-- the key and of `place` are large enough.
use c.Base.{
  ℕ, ◌+◌, ◌-◌, ◌≤◌, ◌<◌, ◌≡◌, sym, ap, ◌∙◌, true, arith, length, length-append, take,
  length-take-le, Text, codes,
}
use c.Base.Decimal.{
  decimal, no_digit_first, value, after_digits, value-decimal, after_digits-decimal, length-decimal,
}
use c.SymbolTable.{gen_key, default_place, id_siz, symtab_key_siz}

-- For names that do not begin with a digit, as the lexer's ID, equal keys have equal names and equal
-- scopes: a symbol is never found under another scope or another name.
pub gen_key-injective :
    (m n : Text) (s r : ℕ)
    → no_digit_first m ≡ true
    → no_digit_first n ≡ true
    → gen_key m s ≡ gen_key n r
    → (m ≡ n) × (s ≡ r)
unfolding gen_key
gen_key-injective m n s r hm hn e = (
  sym (after_digits-decimal s m hm) ∙ ap after_digits e ∙ after_digits-decimal r n hn,
  sym (value-decimal s m hm) ∙ ap (value 0) e ∙ value-decimal r n hn,
)

-- With a name that fits `symtab_entry.name` and a scope of at most three digits, the key and its
-- closing NUL fit the buffer that myitoa allocates.
pub length-gen_key :
    (name : Text) (scope : ℕ)
    → length name < id_siz
    → scope < 1000
    → length (gen_key name scope) + 1 ≤ symtab_key_siz
unfolding gen_key
length-gen_key name scope h k =
    omega (arith, length-append (decimal scope) name, length-decimal 2 scope k)

-- The text that insert_symbol puts into `place` and its closing NUL fit the field.
pub length-default_place : (name : Text) → length (default_place name) < id_siz
unfolding default_place
length-default_place name =
    omega
      (arith, length-append (codes "_") (take (id_siz - 2) name), length-take-le (id_siz - 2) name)
