-- ===== src/IdTable/Tests.antt =====
-- Assig1/symboltable.c on three identifiers.
use c.Base.{◌≡◌, ◌+◌, refl, [], ◌∷◌, List, Text, codes, arith, streq}
use c.Base.Decimal.{decimal}
use c.Base.Run.{ok, ◌>>=◌, Returns}
use c.IdTable.{init_ids, insert_ids, print_ids, insert_comment}
use c.IdTable.Count.{freq, occurrences, insert_ids_lem}

abbrev input : List Text
input = codes "x" ∷ codes "y" ∷ codes "x" ∷ []

printed :
    (insert_ids input init_ids >>= λ t. ok (print_ids t)) ≡ ok (codes "x 2" ∷ codes "y 1" ∷ [])
unfolding insert_ids init_ids print_ids streq decimal
printed = refl

two_comments :
    (insert_comment [] (codes "/* a */") >>= λ t. insert_comment t (codes "/* b */"))
    ≡ ok (codes "/* a */" ∷ codes "/* b */" ∷ [])
unfolding insert_comment
two_comments = refl

insert_ids_lem_example :
    Returns
      (λ r. (q : Text) → freq r q ≡ freq init_ids q + occurrences q input)
      (insert_ids input init_ids)
unfolding init_ids
insert_ids_lem_example =
    insert_ids_lem input init_ids (omega arith) (omega arith, (omega arith, (omega arith, tt)))
