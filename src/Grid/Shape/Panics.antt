-- ===== src/Grid/Shape/Panics.antt =====
-- internal/vt/grid: the ways in which an operation can panic or leave the screen.
use gozellij.Prelude.{
  ℕ, ◌≤◌, ◌<◌, ◌≡◌, refl, ap, ◌⊎◌, inl, inr, Bool, false, ◌||◌, Option, some, List, [], ◌∷◌, arith,
  ltb, ◌==◌, Bool-cases, if_elim,
}
use gozellij.Grid.Term.{Term}
use gozellij.Grid.Shape.Narrow.{narrow_lines, reflow_to_total}
use gozellij.Grid.Ops.{
  Op, step, puts, leaves_alt, resizes, restores_1048, inserts_chars, deletes_chars,
}
use gozellij.Grid.Shape.{WellFormed}
use gozellij.Grid.Paragraphs.{logical_lines}
use gozellij.Grid.Reflow.{reflow_to}
use gozellij.Grid.Resize.{swap_back, leave_alt, resize, settle, resize_on_alt, left, come_back}
use gozellij.Grid.Draw.{put, combine}
use gozellij.Grid.Shape.Steps.{step-WellFormed, BringsBack}
use gozellij.Grid.Shape.Editing.{
  Edited, Overflows, insert_chars-WellFormed, delete_chars-WellFormed,
}
use gozellij.Grid.Shape.Drawing.{put_string_lem}

-- The terminal whose primary screen a return from the alternate screen lays out anew.
abbrev pub returning : Term → Term
returning t = record (swap_back t) { alt_pending = false }

-- What takes an operation out of range: a character, in hand or on the screen or in the scrollback,
-- that is wider than the screen; a position saved by mode 1048 that is off the screen; and a count
-- of characters that takes the column past the largest `int`.
abbrev pub OutOfRange : Term → Op → Type 0
OutOfRange t (puts rune width) = t.cols < width
OutOfRange t (resizes cols rows) = narrow_lines cols (logical_lines t) ≡ false
OutOfRange t (leaves_alt restore) = narrow_lines t.cols (logical_lines (returning t)) ≡ false
OutOfRange t restores_1048 = (t.rows ≤ t.alt_saved.row) ⊎ (t.cols ≤ t.alt_saved.col)
OutOfRange t (inserts_chars n) = Overflows t n
OutOfRange t (deletes_chars n) = Overflows t n
OutOfRange t _ = ⊥

resize_cases :
    (t : Term) (cols rows : ℕ)
    → ((u : Term) × (resize t cols rows ≡ some u)) ⊎ (narrow_lines cols (logical_lines t) ≡ false)
unfolding resize
resize_cases t cols rows = elim (Bool-cases (narrow_lines cols (logical_lines t))) [
  | inr wide ↦ inr wide
  | inl n ↦
      let (u, e) = reflow_to_total t cols rows n in
      inl (
        if_elim (λ o. (w : Term) × (o ≡ some w)) (ltb cols 1 || ltb rows 1) (some t) _
          (λ _. (t, refl))
          (λ _.
            if_elim (λ o. (w : Term) × (o ≡ some w)) t.on_alt (some (resize_on_alt t cols rows)) _
              (λ _. (resize_on_alt t cols rows, refl)) (λ _. (u, e))))
]

leave_alt_cases :
    (t : Term) (restore : Bool)
    → ((u : Term) × (leave_alt t restore ≡ some u))
      ⊎ (narrow_lines t.cols (logical_lines (returning t)) ≡ false)
unfolding leave_alt settle swap_back
leave_alt_cases t restore = elim (Bool-cases (narrow_lines t.cols (logical_lines (returning t)))) [
  | inr wide ↦ inr wide
  | inl n ↦
      let (u, e) = reflow_to_total (returning t) t.cols t.rows n in
      inl (
        if_elim (λ o. (w : Term) × (o ≡ some w)) t.on_alt (left restore (settle (swap_back t)))
          (some t)
          (λ _.
            if_elim (λ o. (w : Term) × (left restore o ≡ some w)) (swap_back t).alt_pending
              (reflow_to (returning t) (swap_back t).cols (swap_back t).rows) (some (swap_back t))
              (λ _. (come_back restore u, ap (left restore) e))
              (λ _. (come_back restore (swap_back t), refl)))
          (λ _. (t, refl)))
]

pub put_cases :
    (t : Term) (rune width : ℕ)
    → WellFormed t
    → ((u : Term) × (put t rune width ≡ some u)) ⊎ (t.cols < width)
unfolding put
put_cases t rune width v = elim (put_string_lem t (rune ∷ []) width v) [
  | inr (wide, _) ↦ inr wide
  | inl (_, u, e, _) ↦ inl (
      if_elim (λ o. (w : Term) × (o ≡ some w)) (width == 0) (some (combine t rune)) _
        (λ _. (combine t rune, refl)) (λ _. (u, e)))
]

with_unit : {A B : Type 0} → A ⊎ B → (A × Unit {0}) ⊎ B
with_unit (inl a) = inl (a, tt)
with_unit (inr b) = inr b

restore_1048_cases : (t : Term) → BringsBack t restores_1048 ⊎ OutOfRange t restores_1048
restore_1048_cases t = elim (Bool-cases (ltb t.alt_saved.row t.rows)) [
  | inr low ↦ inr (inl (ground arith))
  | inl high ↦ elim (Bool-cases (ltb t.alt_saved.col t.cols)) [
    | inr far ↦ inr (inr (ground arith))
    | inl near ↦ inl (ground arith, ground arith)
  ]
]

edit_cases :
    (t : Term) (n : ℕ) (o : Option Term)
    → Edited t n o
    → ((u : Term) × (o ≡ some u)) ⊎ Overflows t n
edit_cases t n o (inl (u, e, v)) = inl (u, e)
edit_cases t n o (inr (e, over)) = inr over

-- An operation has a result, or a reason not to have one.
step_cases :
    (t : Term) (op : Op)
    → WellFormed t
    → (((u : Term) × (step t op ≡ some u)) × BringsBack t op) ⊎ OutOfRange t op
unfolding step
step_cases t (puts rune width) v = with_unit (put_cases t rune width v)
step_cases t (resizes cols rows) v = with_unit (resize_cases t cols rows)
step_cases t (leaves_alt restore) v = with_unit (leave_alt_cases t restore)
step_cases t (inserts_chars n) v = with_unit (edit_cases t n _ (insert_chars-WellFormed t n v))
step_cases t (deletes_chars n) v = with_unit (edit_cases t n _ (delete_chars-WellFormed t n v))
step_cases t restores_1048 v = elim (restore_1048_cases t) [
  | inl on ↦ inl ((_, refl), on)
  | inr off ↦ inr off
]
step_cases t op v = inl ((_, refl), tt)

-- On a well-formed terminal an operation of the parser does not panic and leaves a well-formed
-- terminal, unless something takes it out of range.
pub step_lem :
    (t : Term) (op : Op)
    → WellFormed t
    → ((u : Term) × (step t op ≡ some u) × WellFormed u) ⊎ OutOfRange t op
step_lem t op v = elim (step_cases t op v) [
  | inl ((u, e), on) ↦ inl (u, e, step-WellFormed t u op v on e)
  | inr out ↦ inr out
]

-- Some operation of a sequence is taken out of range.
abbrev pub Blocked : Term → List Op → Type 0
Blocked t [] = ⊥
Blocked t (op ∷ ops) = OutOfRange t op ⊎ ((u : Term) × (step t op ≡ some u) × Blocked u ops)
