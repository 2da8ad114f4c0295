-- ===== src/IdTable.antt =====
-- Assig1/symboltable.c: the identifiers of a source file with their frequencies, and its comments. Of
-- the arrays `symtab` and `comments_arr` the cells below `num_ids` and `num_comments` are kept; the
-- others are never read.
pub mod Count
mod Tests
use Prim.Native.Nat.{Ordering}
use c.Base.{
  strcmp, ℕ, zero, suc, ◌+◌, ◌&&◌, Option, none, some, List, [], ◌∷◌, ◌++◌, map, ltb, if◌then◌else◌,
  length, Text, codes, streq,
}
use c.Base.Decimal.{decimal}
use c.Base.Run.{Run, ok, fault, out_of_bounds, ◌>>=◌}
use mathlib.Core.Option

-- MAX_ID_SIZE and MAX_ID_NUM
abbrev pub max_id_size : ℕ
max_id_size = 256

abbrev pub max_id_num : ℕ
max_id_num = 100

-- MAX_COMMENT_SIZE and MAX_COMMENTS_NUM
abbrev pub max_comment_size : ℕ
max_comment_size = 100

abbrev pub max_comments_num : ℕ
max_comments_num = 100

-- `id_info`
pub record IdInfo : Type 0 where
  pub id_name : Text
  pub id_freq : ℕ

unfoldable pub init_ids : List IdInfo
init_ids = []

-- the first cell with the name, or none for -1
unfoldable pub find_id : List IdInfo → Text → Option ℕ
find_id [] text = none
find_id (x ∷ symtab) text =
    if streq x.id_name text then some 0 else Option.map suc (find_id symtab text)

-- `symtab[pos].id_freq++`
unfoldable pub add_freq : List IdInfo → ℕ → List IdInfo
add_freq [] pos = []
add_freq (x ∷ symtab) zero = record x { id_freq = x.id_freq + 1 } ∷ symtab
add_freq (x ∷ symtab) (suc pos) = x ∷ add_freq symtab pos

-- a new cell is written behind the last
unfoldable pub insert_id : List IdInfo → Text → Run (List IdInfo)
unfolding find_id add_freq
insert_id symtab text = elim (find_id symtab text) [
  | some pos ↦ ok (add_freq symtab pos)
  | none ↦
      if ltb (length symtab) max_id_num && ltb (length text) max_id_size
      then ok (symtab ++ record { id_name = text; id_freq = 1 } ∷ [])
      else fault out_of_bounds
]

-- the scanner's calls of insert_id
unfoldable pub insert_ids : List Text → List IdInfo → Run (List IdInfo)
unfolding insert_id
insert_ids [] symtab = ok symtab
insert_ids (text ∷ texts) symtab = do symtab ← insert_id symtab text; insert_ids texts symtab

-- the lines that are printed
unfoldable pub print_ids : List IdInfo → List Text
print_ids symtab = map (λ (x : IdInfo). x.id_name ++ codes " " ++ decimal x.id_freq) symtab

unfoldable pub insert_comment : List Text → Text → Run (List Text)
insert_comment comments comment =
    if ltb (length comments) max_comments_num && ltb (length comment) max_comment_size
    then ok (comments ++ comment ∷ [])
    else fault out_of_bounds

unfoldable pub id_info_cmp : IdInfo → IdInfo → Ordering
unfolding strcmp
id_info_cmp id1 id2 = strcmp id1.id_name id2.id_name

unfoldable pub cleanup_ids : List IdInfo → List IdInfo
cleanup_ids symtab = []

unfoldable pub init_comments : List Text
init_comments = []

-- the lines that are printed
unfoldable pub print_comments : List Text → List Text
print_comments comments = comments

unfoldable pub cleanup_comments : List Text → List Text
cleanup_comments comments = []
