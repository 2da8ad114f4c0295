-- ===== src/Scanner/TooSmall.antt =====
-- The arrays of Assig1/lex.yy.c and Assig1/symboltable.c that an identifier or a comment may overrun.
use c.Base.{
  ℕ, ◌+◌, ◌≤◌, ◌≡◌, refl, Bool, false, Option, none, some, List, [], ◌∷◌, ◌++◌, ◌&&◌, ltb, arith,
  if◌then◌else◌, inl, inr, Bool-cases, Text, length, take, codes, ◌⊎◌,
}
use c.Base.Run.{ok, fault, out_of_bounds}
use c.IdTable.{find_id, add_freq, max_id_num, max_id_size, IdInfo, insert_id, insert_comment}
use c.Scanner.Actions.{comment_done, Scan, Eaten, comment_action}
use c.Scanner.Longest.{IsText}
use c.Scanner.Ends.{Finishes, finished, overrun, bind, Left, Fitting, eat_comment_lem, ends}

-- one of two bounds is reached
not_both : (a m b n : ℕ) → (ltb a m && ltb b n) ≡ false → (m ≤ a) ⊎ (n ≤ b)
not_both a m b n h = elim (Bool-cases (ltb a m)) [
  | inl x ↦ inr (ground arith)
  | inr x ↦ inl (ground arith)
]

-- a new identifier finds the table full or is too long for its cell
abbrev pub NoRoom : List IdInfo → Text → Type 0
NoRoom symtab text =
    (find_id symtab text ≡ none) × ((max_id_num ≤ length symtab) ⊎ (max_id_size ≤ length text))

pub insert_id-Finishes :
    (symtab : List IdInfo) (text : Text)
    → Finishes (NoRoom symtab text) (λ x. Unit {0}) (insert_id symtab text)
unfolding insert_id
insert_id-Finishes symtab text = by_place (find_id symtab text) refl
  where
    by_place :
        (o : Option ℕ)
        → find_id symtab text ≡ o
        → Finishes
            (NoRoom symtab text)
            (λ x. Unit {0})
            (elim o [
              | some pos ↦ ok (add_freq symtab pos)
              | none ↦
                  if ltb (length symtab) max_id_num && ltb (length text) max_id_size
                  then ok (symtab ++ record { id_name = text; id_freq = 1 } ∷ [])
                  else fault out_of_bounds
            ])
    by_place (some pos) e = finished tt
    by_place none e =
        elim (Bool-cases (ltb (length symtab) max_id_num && ltb (length text) max_id_size)) [
          | inl x ↦ rw x (finished tt)
          | inr x ↦
              rw x (overrun (e, not_both (length symtab) max_id_num (length text) max_id_size x))
        ]

insert_comment-Finishes :
    (comments : List Text) (comment : Text)
    → Finishes
        ((100 ≤ length comments) ⊎ (100 ≤ length comment))
        (λ x. Unit {0})
        (insert_comment comments comment)
unfolding insert_comment
insert_comment-Finishes comments comment =
    elim (Bool-cases (ltb (length comments) 100 && ltb (length comment) 100)) [
      | inl x ↦ rw x (finished tt)
      | inr x ↦ rw x (overrun (not_both (length comments) 100 (length comment) 100 x))
    ]

-- The token `yytext`, on which the scanner acts by rule `act`, with `text` behind it, needs more than an
-- array of fixed size has: a new identifier finds 100 in the table or has 256 characters or more, a
-- comment finds 100 or does not end in the next 97 characters.
pub data TooSmall (act : ℕ) (yytext text : Text) (st : Scan) : Type 0 where
  new_name : act ≡ 8 → NoRoom st.symtab yytext → TooSmall act yytext text st
  full_comments : act ≡ 9 → 100 ≤ length st.comments_arr → TooSmall act yytext text st
  long_comment : act ≡ 9 → ends false (take 97 text) ≡ false → TooSmall act yytext text st

-- what an action leaves of the text; it counts one token at most
abbrev pub Acted : Text → Scan → Scan × Text → Type 0
Acted text st r = Left text r.1 × (r.0.tokens ≤ st.tokens + 1)

comment_done-Finishes :
    (comment : Text) (lines : ℕ) (closed : Bool) (st : Scan)
    → Finishes
        ((100 ≤ length st.comments_arr) ⊎ (100 ≤ length comment))
        (λ (r : Scan). r.tokens ≤ st.tokens + 1)
        (comment_done comment lines closed st)
unfolding comment_done
comment_done-Finishes comment lines closed st =
    bind (λ why. why) (insert_comment-Finishes st.comments_arr comment)
      λ c e h. finished (omega arith)

too_small :
    (text : Text) (st : Scan) (e : Eaten)
    → Fitting false 97 text e
    → (100 ≤ length st.comments_arr) ⊎ (100 ≤ length e.comment)
    → TooSmall 9 (codes "/*") text st
too_small text st e fit (inl h) = full_comments refl h
too_small text st e fit (inr h) = elim (Bool-cases (ends false (take 97 text))) [
  | inl x ↦ let lt = fit.1 x in absurd (omega arith)
  | inr x ↦ long_comment refl x
]

pub comment_action-Finishes :
    (text : Text) (st : Scan)
    → IsText text
    → Finishes (TooSmall 9 (codes "/*") text st) (Acted text st) (comment_action text st)
unfolding comment_action
comment_action-Finishes text st bytes =
    bind (long_comment refl) (eat_comment_lem 97 false text (codes "/*") st.linenumber bytes refl)
      λ e is fit.
        bind (too_small text st e fit) (comment_done-Finishes e.comment e.linenumber e.closed st)
          λ done same h. finished (fit.0, h)

pub same_comment :
    (act : ℕ) (yytext text : Text) (st : Scan)
    → act ≡ 9
    → TooSmall 9 (codes "/*") text st
    → TooSmall act yytext text st
same_comment act yytext text st is (new_name nine room) = absurd (omega arith)
same_comment act yytext text st is (full_comments nine full) = full_comments is full
same_comment act yytext text st is (long_comment nine long) = long_comment is long
