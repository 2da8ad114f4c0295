-- ===== src/Scanner/Ends.antt =====
-- The loop of the comment action of Assig1/lex.yy.c comes to the end of the comment, unless this_comment is
-- too small for it.
use c.Base.{
  length-append, ℕ, zero, suc, ◌+◌, ◌<◌, ◌≤◌, ◌≡◌, refl, Bool, true, false, [], ◌∷◌, ◌++◌, ◌==◌,
  ◌||◌, ◌&&◌, ltb, arith, if◌then◌else◌, inl, inr, Bool-cases, Text, length, take, sym, ◌∙◌,
  false-ne-true,
}
use c.Base.Run.{Run, ok, fault, out_of_bounds, ◌>>=◌, Returns, returns}
use c.Scanner.Actions.{eat_end, Eaten, put_char, eat_comment}
use c.Scanner.Longest.{IsText}

-- the call returns such a result, or for the reason `Why` it writes past the end of an array
pub data Finishes {ℓ κ} {A : Type ℓ} (Why : Type 0) (P : A → Type κ) : Run A → Type (ℓ ⊔ κ) where
  finished : {a : A} → P a → Finishes Why P (ok a)
  overrun : Why → Finishes Why P (fault out_of_bounds)

pub bind {ℓ κ μ ν} :
    {A : Type ℓ} {B : Type κ} {Why Why' : Type 0} {P : A → Type μ} {Q : B → Type ν} {m : Run A}
    {f : A → Run B}
    → (Why → Why')
    → Finishes Why P m
    → ((a : A) → m ≡ ok a → P a → Finishes Why' Q (f a))
    → Finishes Why' Q (m >>= f)
bind because (finished p) next = next _ refl p
bind because (overrun why) next = overrun (because why)

pub bind_returns {ℓ κ μ ν} :
    {A : Type ℓ} {B : Type κ} {Why : Type 0} {P : A → Type μ} {Q : B → Type ν} {m : Run A}
    {f : A → Run B}
    → Returns P m
    → ((a : A) → m ≡ ok a → P a → Finishes Why Q (f a))
    → Finishes Why Q (m >>= f)
bind_returns (returns p) next = next _ refl p

pub map_result {ℓ κ μ} :
    {A : Type ℓ} {Why Why' : Type 0} {P : A → Type κ} {Q : A → Type μ} {m : Run A}
    → (Why → Why')
    → ((a : A) → P a → Q a)
    → Finishes Why P m
    → Finishes Why' Q m
map_result because result (finished p) = finished (result _ p)
map_result because result (overrun why) = overrun (because why)

-- some of a text is left
abbrev pub Left : Text → Text → Type 0
Left text rest = IsText rest × (length rest ≤ length text)

put_char-Finishes :
    (comment : Text) (c : ℕ) → Finishes (Unit {0}) (λ x. Unit {0}) (put_char comment c)
unfolding put_char
put_char-Finishes comment c = elim (Bool-cases (ltb (length comment) 100)) [
  | inl x ↦ rw x (finished tt)
  | inr x ↦ rw x (overrun tt)
]

further :
    (c : ℕ) (text : Text) {m : Run Eaten}
    → Finishes (Unit {0}) (λ e. Left text e.rest) m
    → Finishes (Unit {0}) (λ e. Left (c ∷ text) e.rest) m
further c text = map_result (λ u. u) λ e left. (left.0, omega (arith, left.1))

-- behind the last character the comment is filled until it is full
pub eat_end_lem :
    (rounds : ℕ) (comment : Text)
    → 0 < rounds
    → 100 < rounds + length comment
    → eat_end rounds comment ≡ fault out_of_bounds
unfolding eat_end put_char
eat_end_lem zero comment some_left h = absurd (omega arith)
eat_end_lem (suc rounds) comment some_left h = elim (Bool-cases (ltb (length comment) 100)) [
  | inl x ↦
      rw (eat_end, put_char, x)
        (eat_end_lem rounds (comment ++ 0 ∷ []) (places x)
          (omega (arith, h, length-append comment (0 ∷ []))))
  | inr x ↦ rw (eat_end, put_char, x) refl
]
  where
    places : ltb (length comment) 100 ≡ true → 0 < rounds
    places x = ground arith

eat_comment-Finishes :
    (star : Bool) (text comment : Text) (lines : ℕ)
    → IsText text
    → Finishes (Unit {0}) (λ e. Left text e.rest) (eat_comment star text comment lines)
unfolding eat_comment
eat_comment-Finishes star [] comment lines bytes =
    rw (eat_end_lem 101 comment (omega arith) (omega arith)) (overrun tt)
eat_comment-Finishes false (c ∷ text) comment lines bytes = elim (Bool-cases (c == 42)) [
  | inl x ↦
      rw (eat_comment, x)
        (bind (λ u. u) (put_char-Finishes comment c)
          λ y e h. further c text (eat_comment-Finishes true text y lines bytes.1))
  | inr x ↦ elim (Bool-cases (c == 255)) [
    | inl y ↦ rw (eat_comment, x, y) (finished (bytes.1, omega arith))
    | inr y ↦
        rw (eat_comment, x, y)
          (bind (λ u. u) (put_char-Finishes comment c)
            λ z e h.
              further c text
                (eat_comment-Finishes false text z (if c == 10 then lines + 1 else lines) bytes.1))
  ]
]
eat_comment-Finishes true (c ∷ text) comment lines bytes =
    bind (λ u. u) (put_char-Finishes comment c)
      λ y e h. elim (Bool-cases (c == 42)) [
        | inl x ↦ rw x (further c text (eat_comment-Finishes true text y lines bytes.1))
        | inr x ↦ elim (Bool-cases (c == 47 || c == 255)) [
          | inl z ↦ rw (x, z) (finished (bytes.1, omega arith))
          | inr z ↦ rw (x, z) (further c text (eat_comment-Finishes false text y lines bytes.1))
        ]
      ]

-- The comment ends in this text, by the closing mark or by the byte 255, which the action takes for EOF;
-- `star` says that a `*` stands in front of the text.
unfoldable pub ends : (star : Bool) → Text → Bool
ends star [] = false
ends star (c ∷ text) = c == 255 || ((star && c == 47) || ends (c == 42) text)

-- what the loop leaves; a comment that ends in the next `k` characters fits
abbrev pub Fitting : Bool → ℕ → Text → Eaten → Type 0
Fitting star k text e = Left text e.rest × (ends star (take k text) ≡ true → length e.comment < 100)

put_char_room :
    (comment : Text) (c k : ℕ)
    → length comment + suc k ≡ 99
    → put_char comment c ≡ ok (comment ++ c ∷ [])
unfolding put_char
put_char_room comment c k h = let x : ltb (length comment) 100 ≡ true = ground arith in rw x refl

nothing_ends : (star : Bool) → ends star [] ≡ false
unfolding ends
nothing_ends star = refl

passes :
    (star : Bool) (c k : ℕ) (text : Text) (next : Bool) {m : Run Eaten}
    → (c == 42) ≡ next
    → (c == 255) ≡ false
    → (star && c == 47) ≡ false
    → Finishes (ends next (take k text) ≡ false) (Fitting next k text) m
    → Finishes (ends star (take (suc k) (c ∷ text)) ≡ false) (Fitting star (suc k) (c ∷ text)) m
unfolding ends
passes star c k text next w x y =
    let same : ends star (c ∷ take k text) ≡ ends next (take k text) = rw (x, y, w) refl in
    map_result (λ no. same ∙ no)
      λ e fit. ((fit.0.0, omega (arith, fit.0.1)), λ h. fit.1 (sym same ∙ h))

pub eat_comment_lem :
    (k : ℕ) (star : Bool) (text comment : Text) (lines : ℕ)
    → IsText text
    → length comment + k ≡ 99
    → Finishes
        (ends star (take k text) ≡ false)
        (Fitting star k text)
        (eat_comment star text comment lines)
unfolding eat_comment
eat_comment_lem zero star text comment lines bytes room =
    map_result (λ u. nothing_ends star)
      (λ e left. (left, λ h. absurd (false-ne-true (sym (nothing_ends star) ∙ h))))
      (eat_comment-Finishes star text comment lines bytes)
eat_comment_lem (suc k) star [] comment lines bytes room =
    rw (eat_comment, eat_end_lem 101 comment (omega arith) (omega arith))
      (overrun (nothing_ends star))
eat_comment_lem (suc k) false (c ∷ text) comment lines bytes room =
    let next : length (comment ++ c ∷ []) + k ≡ 99 =
      omega (arith, room, length-append comment (c ∷ [])) in
    let put = put_char_room comment c k room in
    elim (Bool-cases (c == 42)) [
      | inl x ↦ passes false c k text true x (ground arith) refl (
          rw (eat_comment, x, put)
            (eat_comment_lem k true text (comment ++ c ∷ []) lines bytes.1 next))
      | inr x ↦ elim (Bool-cases (c == 255)) [
        | inl y ↦
            rw (eat_comment, x, y) (finished ((bytes.1, omega arith), λ h. omega (arith, room)))
        | inr y ↦ passes false c k text false x y refl (
            rw (eat_comment, x, y, put)
              (eat_comment_lem k false text (comment ++ c ∷ [])
                (if c == 10 then lines + 1 else lines) bytes.1 next))
      ]
    ]
eat_comment_lem (suc k) true (c ∷ text) comment lines bytes room =
    let next : length (comment ++ c ∷ []) + k ≡ 99 =
      omega (arith, room, length-append comment (c ∷ [])) in
    let put = put_char_room comment c k room in
    elim (Bool-cases (c == 42)) [
      | inl x ↦ passes true c k text true x (ground arith) (ground arith) (
          rw (eat_comment, put, x)
            (eat_comment_lem k true text (comment ++ c ∷ []) lines bytes.1 next))
      | inr x ↦ elim (Bool-cases (c == 47 || c == 255)) [
        | inl z ↦
            rw (eat_comment, put, x, z)
              (finished ((bytes.1, omega arith), λ h. omega (arith, next)))
        | inr z ↦ passes true c k text false x (ground arith) (ground arith) (
            rw (eat_comment, put, x, z)
              (eat_comment_lem k false text (comment ++ c ∷ []) lines bytes.1 next))
      ]
    ]
