-- ===== src/Frequency.antt =====
-- assignment1/symboltable.c: the identifiers with their frequencies, in the table of
-- assignment1/hashtable.c, and the comments. A symbol that new_symbol allocates is at a position of
-- `symbols`, and that position is the pointer to it, which is the table's payload; so `sym->freq ++` is
-- seen through every copy of the pointer. Of `comments_arr` the cells below `num_comments` are kept.
-- qsort is the C library's: a parameter.
pub mod Count
pub mod Grow
pub mod Print
mod Tests
use c.Base.{
  strcmp, ℕ, zero, suc, ◌+◌, ◌-◌, ◌&&◌, Bool, Option, none, some, List, [], ◌∷◌, ◌++◌, map, ltb,
  if◌then◌else◌, length, replicate, get_elem?, Text, codes, streq,
}
use c.Base.Decimal.{decimal}
use c.Base.Run.{Run, ok, fault, out_of_bounds, dangling, ◌>>=◌}
use c.SizedTable
use c.SizedTable.{Global, h_get, h_insert, h_init, ht_to_list}
use Prim.Native.Nat.{Ordering, compare}
use mathlib.Core.Option

-- SYM_NAME_LEN
abbrev pub sym_name_len : ℕ
sym_name_len = 256

-- `symbol_t`
pub record Symbol : Type 0 where
  pub name : Text
  pub freq : ℕ

-- the table, the symbols and `num_ids`
pub record Symtab : Type 0 where
  pub table : Global ℕ
  pub symbols : List Symbol
  pub num_ids : ℕ

-- the symbols, and the pointer to the new one; a longer name is copied past the end of `name`
unfoldable pub new_symbol : List Symbol → Text → Run (List Symbol × ℕ)
new_symbol symbols name =
    if ltb (length name) sym_name_len
    then ok (symbols ++ record { name = name; freq = 0 } ∷ [], length symbols)
    else fault out_of_bounds

-- `sym->freq ++`
unfoldable pub add_freq : List Symbol → ℕ → Run (List Symbol)
add_freq [] sym = fault dangling
add_freq (s ∷ symbols) zero = ok (record s { freq = s.freq + 1 } ∷ symbols)
add_freq (s ∷ symbols) (suc sym) = do symbols ← add_freq symbols sym; ok (s ∷ symbols)

unfoldable pub init_symtab : List Symbol → Symtab
unfolding SizedTable.h_init
init_symtab symbols = record { table = SizedTable.h_init; symbols = symbols; num_ids = 0 }

-- nothing calls it
unfoldable pub insert_symbol : (usable : ℕ → ℕ) → Symtab → (symbol : ℕ) → Run (Symtab × Bool)
unfolding SizedTable.h_insert
insert_symbol usable st symbol = elim (get_elem? st.symbols symbol) [
  | none ↦ fault dangling
  | some s ↦ do
    (table, done) ← SizedTable.h_insert usable st.table s.name symbol
    ok (record st { table = table }, done)
]

-- `sym->freq ++` where `sym` may be NULL
unfoldable pub count_use : List Symbol → Option ℕ → Run (List Symbol)
unfolding add_freq
count_use symbols none = fault dangling
count_use symbols (some sym) = add_freq symbols sym

-- `usable` is the size of the blocks of malloc as in SizedTable
unfoldable pub insert_id : (usable : ℕ → ℕ) → Symtab → Text → Run Symtab
unfolding SizedTable.h_get SizedTable.h_insert new_symbol count_use
insert_id usable st text = elim (SizedTable.h_get st.table text) [
  | some sym ↦ do symbols ← add_freq st.symbols sym; ok (record st { symbols = symbols })
  | none ↦ do
    (symbols, sym) ← new_symbol st.symbols text
    (table, done) ← SizedTable.h_insert usable st.table text sym
    symbols ← if done then count_use symbols (SizedTable.h_get table text) else ok symbols
    ok (record { table = table; symbols = symbols; num_ids = suc st.num_ids })
]

-- the scanner's calls of insert_id
unfoldable pub insert_ids : (usable : ℕ → ℕ) → List Text → Symtab → Run Symtab
unfolding insert_id
insert_ids usable [] st = ok st
insert_ids usable (text ∷ texts) st = do st ← insert_id usable st text; insert_ids usable texts st

unfoldable pub sym_cmp : Symbol → Symbol → Ordering
unfolding strcmp
sym_cmp s1 s2 = strcmp s1.name s2.name

-- the symbols behind the pointers of a list
unfoldable pub load_symbols : List Symbol → List ℕ → Run (List Symbol)
load_symbols symbols [] = ok []
load_symbols symbols (sym ∷ list) = elim (get_elem? symbols sym) [
  | none ↦ fault dangling
  | some s ↦ do rest ← load_symbols symbols list; ok (s ∷ rest)
]

-- `printf("%-10s %2d\n", …)`, the line without its end
unfoldable pub print_line : Symbol → Text
print_line s =
    let n = decimal s.freq in
    (s.name ++ replicate (10 - length s.name) 32) ++ codes " " ++ (replicate (2 - length n) 32 ++ n)

-- the lines that are printed
unfoldable pub print_symtab :
    ((Symbol → Symbol → Ordering) → List Symbol → List Symbol) → Symtab → Run (List Text)
unfolding SizedTable.ht_to_list load_symbols sym_cmp print_line
print_symtab qsort st = do
  (list, size) ← SizedTable.ht_to_list st.table
  sym_list ← load_symbols st.symbols list
  ok (codes "" ∷ codes "Frequency of identifiers" ∷ map print_line (qsort sym_cmp sym_list))

unfoldable pub cleanup_symtab : Symtab → Symtab
cleanup_symtab st = record st { num_ids = 0 }

-- MAX_COMMENT_SIZE and MAX_COMMENTS_NUM
abbrev pub max_comment_size : ℕ
max_comment_size = 100

abbrev pub max_comments_num : ℕ
max_comments_num = 100

unfoldable pub init_comtab : List Text
init_comtab = []

unfoldable pub insert_comment : List Text → Text → Run (List Text)
insert_comment comments comment =
    if ltb (length comments) max_comments_num && ltb (length comment) max_comment_size
    then ok (comments ++ comment ∷ [])
    else fault out_of_bounds

-- the lines that are printed
unfoldable pub print_comtab : List Text → List Text
print_comtab comments = comments

unfoldable pub cleanup_comtab : List Text → List Text
cleanup_comtab comments = []
