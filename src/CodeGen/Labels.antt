-- ===== src/CodeGen/Labels.antt =====
-- The string labels of Assig4/codegen.c.
use mathlib.Core.List.{append-nil, append_assoc}
use c.Base.{
  inr, false-ne-true, inl, Bool, Bool-cases, ◌≢◌, true, get_or-set_snoc, length-snoc, length-set,
  drop, lt→ltb, ◌⊎◌, length-append, ℕ, zero, suc, ◌+◌, ◌^◌, ◌≤◌, ◌<◌, ◌≡◌, refl, sym, ap, ◌∙◌, ◌&&◌,
  List, [], ◌∷◌, ◌++◌, arith, if◌then◌else◌, ltb, ◌==◌, length, get_or, set, map, Text, codes,
}
use c.Base.Decimal.{decimal, value, value-decimal, length-decimal}
use c.Base.Run.{Run, ok, fault, out_of_bounds, Returns, returns}
use c.CodeGen.Line.{Line, word, asciiz}
use c.CodeGen.Registers.{byte_at}

-- LABEL_SIZE, and the sizes of `slabel_arr` and of its field `str`
abbrev pub label_size : ℕ
label_size = 20

abbrev pub slabel_count : ℕ
slabel_count = 100

abbrev pub str_size : ℕ
str_size = 100

-- `stringlabel`
pub record StringLabel : Type 0 where
  pub label : Text
  pub str : Text

abbrev pub no_slabel : StringLabel
no_slabel = record { label = []; str = [] }

-- `slabel_arr`, `sconst_label_counter` and `sconst_label_gen`
pub record Labels : Type 0 where
  pub slabel_arr : List StringLabel
  pub counter : ℕ
  pub gen : ℕ

unfoldable pub slabel_name : ℕ → Text
slabel_name gen = codes "_slabel" ++ decimal gen

-- The prints and copies fault where they would leave the label, the array or the field.
unfoldable pub push_string_label : Labels → Text → Run (Labels × Text)
unfolding slabel_name
push_string_label st str =
    let label = slabel_name st.gen in
    if ltb (length label) label_size && (ltb st.counter slabel_count && ltb (length str) str_size)
    then ok (
      record {
        slabel_arr = set st.slabel_arr st.counter (record { label = label; str = str });
        counter = st.counter + 1;
        gen = st.gen + 1;
      },
      label,
    )
    else fault out_of_bounds

-- four underscores mark a global variable
unfoldable pub declare : StringLabel → Line
declare s =
    if byte_at s.str 0 == b'_'
      && (byte_at s.str 1 == b'_' && (byte_at s.str 2 == b'_' && byte_at s.str 3 == b'_'))
    then word s.str 0
    else asciiz s.label s.str

-- the loop of gen_string_labels, from number `i` on for `rounds` rounds
unfoldable pub declare_loop : List StringLabel → ℕ → ℕ → List Line → List Line
unfolding declare
declare_loop arr zero i out = out
declare_loop arr (suc rounds) i out =
    declare_loop arr rounds (i + 1) (out ++ declare (get_or arr i no_slabel) ∷ [])

unfoldable pub gen_string_labels : List Line → Labels → List Line × Labels
unfolding declare_loop
gen_string_labels out st = (declare_loop st.slabel_arr st.counter 0 out, record st { counter = 0 })

-- the pending labels are `xs`, in the order in which they were pushed
pub record Pending (st : Labels) (xs : List StringLabel) : Type 0 where
  pub cells : length st.slabel_arr ≡ slabel_count
  pub counter : st.counter ≡ length xs
  pub fits : length xs ≤ slabel_count
  pub reads : (i : ℕ) → i < length xs → get_or st.slabel_arr i no_slabel ≡ get_or xs i no_slabel

abbrev pub new_label : Labels → Text → StringLabel
new_label st str = record { label = slabel_name st.gen; str = str }

-- what push_string_label does with `str`
pub record Pushed (st : Labels) (xs : List StringLabel) (str : Text) (r : Labels × Text)
    : Type 0 where
  pub pending : Pending r.0 (xs ++ new_label st str ∷ [])
  pub named : r.1 ≡ slabel_name st.gen
  pub next : r.0.gen ≡ st.gen + 1

length-slabel_name : (gen : ℕ) → gen < 2 ^ 31 → length (slabel_name gen) < label_size
unfolding slabel_name
length-slabel_name gen h =
    omega (arith, length-append (codes "_slabel") (decimal gen), length-decimal 9 gen (omega arith))

-- two generated labels are equal only if they have the same number
pub slabel_name-injective : (g h : ℕ) → slabel_name g ≡ slabel_name h → g ≡ h
unfolding slabel_name
slabel_name-injective g h e = sym (number g) ∙ ap (λ t. value 0 (drop 7 t)) e ∙ number h
  where
    number : (n : ℕ) → value 0 (decimal n) ≡ n
    number n = rw (append-nil (decimal n)) at (value-decimal n [] refl)

module _ {st : Labels} {xs : List StringLabel} (pending : Pending st xs) where
  -- With room for one more label, a string that fits its field and fewer than 2^31 labels so far,
  -- push_string_label appends the string under a label with the next number.
  pub push_string_label_lem :
      (str : Text)
      → length xs < slabel_count
      → length str < str_size
      → st.gen < 2 ^ 31
      → Returns (Pushed st xs str) (push_string_label st str)
  unfolding push_string_label
  push_string_label_lem str room short few =
      rw
        (
          lt→ltb (length (slabel_name st.gen)) label_size (length-slabel_name st.gen few),
          lt→ltb st.counter slabel_count (omega (arith, pending.counter)),
          lt→ltb (length str) str_size short,
        )
        (returns (record {
          pending = record {
            cells = length-set st.slabel_arr st.counter (new_label st str) ∙ pending.cells;
            counter = omega (arith, pending.counter, length-snoc xs (new_label st str));
            fits = omega (arith, length-snoc xs (new_label st str));
            reads = rw pending.counter (
                get_or-set_snoc st.slabel_arr xs (new_label st str) no_slabel
                  (omega (arith, pending.cells)) pending.reads);
          };
          named = refl;
          next = refl;
        }))

  -- When 100 labels are pending, or the string does not fit, push_string_label writes out of bounds.
  pub push_string_label_full :
      (str : Text)
      → (length xs ≡ slabel_count) ⊎ (str_size ≤ length str)
      → push_string_label st str ≡ fault out_of_bounds
  unfolding push_string_label
  push_string_label_full str h = ground (arith, pending.counter)

-- reading the array from `i` on gives what is left of the list
declare_loop-map :
    (arr xs ys : List StringLabel) (out : List Line) (i : ℕ)
    → ((j : ℕ) → j < length ys → get_or arr (i + j) no_slabel ≡ get_or ys j no_slabel)
    → declare_loop arr (length ys) i out ≡ out ++ map declare ys
unfolding declare_loop
declare_loop-map arr xs [] out i h = sym (append-nil out)
declare_loop-map arr xs (y ∷ ys) out i h =
    let e : i + 0 ≡ i = omega arith in
    let here : get_or arr i no_slabel ≡ y = rw e at (h 0 (omega arith)) in
    let rest =
      declare_loop-map arr xs ys (out ++ declare y ∷ []) (i + 1) (λ j lt.
        let f : i + suc j ≡ i + 1 + j = omega arith in rw f at (h (suc j) (omega arith))) in
    ap (λ d. declare_loop arr (length ys) (i + 1) (out ++ declare d ∷ [])) here
    ∙ rest
    ∙ append_assoc out (declare y ∷ []) (map declare ys)

-- the line for a pending string: a global variable's name begins with four underscores
pub data Declaration (s : StringLabel) : Line → Type 0 where
  variable : (rest : Text) → s.str ≡ codes "____" ++ rest → Declaration s (word s.str 0)
  constant : ((rest : Text) → s.str ≢ codes "____" ++ rest) → Declaration s (asciiz s.label s.str)

-- a line for each string, in the same order
pub data Declared : List StringLabel → List Line → Type 0 where
  nothing : Declared [] []
  one_more :
      {s : StringLabel} {xs : List StringLabel} {line : Line} {lines : List Line}
      → Declaration s line
      → Declared xs lines
      → Declared (s ∷ xs) (line ∷ lines)

abbrev four_underscores : Text → Bool
four_underscores str =
    byte_at str 0 == b'_'
    && (byte_at str 1 == b'_' && (byte_at str 2 == b'_' && byte_at str 3 == b'_'))

underscores_first :
    (str : Text) → four_underscores str ≡ true → (rest : Text) × (str ≡ codes "____" ++ rest)
underscores_first [] h = absurd (false-ne-true h)
underscores_first (a ∷ []) h = absurd (false-ne-true (ground arith))
underscores_first (a ∷ b ∷ []) h = absurd (false-ne-true (ground arith))
underscores_first (a ∷ b ∷ c ∷ []) h = absurd (false-ne-true (ground arith))
underscores_first (a ∷ b ∷ c ∷ d ∷ rest) h =
    let ea : a ≡ 95 = ground arith in
    let eb : b ≡ 95 = ground arith in
    let ec : c ≡ 95 = ground arith in
    let ed : d ≡ 95 = ground arith in (rest, rw (ea, eb, ec, ed) refl)

declare_lem : (s : StringLabel) → Declaration s (declare s)
unfolding declare
declare_lem s = elim (Bool-cases (four_underscores s.str)) [
  | inl x ↦ let (rest, e) = underscores_first s.str x in rw x (variable rest e)
  | inr x ↦ rw x (constant λ rest e. false-ne-true (sym x ∙ ap four_underscores e))
]

map-declare : (xs : List StringLabel) → Declared xs (map declare xs)
map-declare [] = nothing
map-declare (s ∷ xs) = one_more (declare_lem s) (map-declare xs)

-- gen_string_labels adds a line for each pending string, in the order in which they were pushed: a word
-- of its own name for a string that begins with four underscores, and for any other the string under its
-- label. It leaves none pending, and it does not reset the numbers of the labels.
pub gen_string_labels_lem :
    {st : Labels} {xs : List StringLabel}
    → Pending st xs
    → (out : List Line)
    → ((lines : List Line) × ((gen_string_labels out st).0 ≡ out ++ lines) × Declared xs lines)
      × Pending (gen_string_labels out st).1 []
      × ((gen_string_labels out st).1.gen ≡ st.gen)
unfolding gen_string_labels
gen_string_labels_lem {st} {xs} pending out = (
  (
    map declare xs,
    rw pending.counter (
        declare_loop-map st.slabel_arr xs xs out 0
          (λ j lt. let e : 0 + j ≡ j = omega arith in rw e (pending.reads j lt))),
    map-declare xs,
  ),
  record {
    cells = pending.cells;
    counter = refl;
    fits = omega arith;
    reads = λ i lt. absurd (omega arith);
  },
  refl,
)
