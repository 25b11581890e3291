-- ===== src/Grid/History/Pushing.antt =====
-- internal/vt/grid/history.go: where each line of the ring stands after a push.
use gozellij.Prelude.{
  ℕ, zero, suc, ◌+◌, ◌-◌, ◌%◌, ◌≤◌, ◌<◌, min, ◌≡◌, refl, sym, ap, ◌∙◌, ◌⊎◌, inl, inr, [], ◌∷◌, ◌++◌,
  arith, ltb, if◌then◌else◌, Bool-cases, length, get_or, set, get_or-append_left,
  get_or-append_right, get_or-set_self, get_or-set_ne, length-set, mod_cases, mod_small,
  length-append,
}
use native.Mathlib.Nat.{mod-eq_of_lt, mod-add-mod}
use native.Mathlib.Decide.{dec_lt}
use gozellij.Grid.History.{HistLine, HistRing, no_line, line_at, push, lines_from, scrollback}

-- The ring grows to its limit before it goes round, and every place in it is taken.
pub record IsValid (h : HistRing) : Type 0 where
  pub full : h.n ≡ length h.lines
  pub within : length h.lines ≤ h.limit
  pub round : (h.start ≡ 0) ⊎ ((h.start < h.limit) × (length h.lines ≡ h.limit))

pub length-lines_from : (h : HistRing) (i k : ℕ) → length (lines_from h i k) ≡ k
unfolding lines_from
length-lines_from h i zero = refl
length-lines_from h i (suc k) = ap suc (length-lines_from h (i + 1) k)

pub get_or-lines_from :
    (h : HistRing) (i k j : ℕ) → j < k → get_or (lines_from h i k) j no_line ≡ line_at h (i + j)
unfolding lines_from
get_or-lines_from h i zero j l = elim l [ ]
get_or-lines_from h i (suc k) zero l = ap (line_at h) {x = i} (omega arith)
get_or-lines_from h i (suc k) (suc j) l =
    get_or-lines_from h (i + 1) k j (omega arith) ∙ ap (line_at h) (omega arith)

pub length-scrollback : (h : HistRing) → length (scrollback h) ≡ h.n
unfolding scrollback
length-scrollback h = length-lines_from h 0 h.n

pub get_or-scrollback :
    (h : HistRing) (j : ℕ) → j < h.n → get_or (scrollback h) j no_line ≡ line_at h j
unfolding scrollback
get_or-scrollback h j l = get_or-lines_from h 0 h.n j l ∙ ap (line_at h) {x = 0 + j} (omega arith)

pub push-IsValid : (h : HistRing) (line : HistLine) → IsValid h → IsValid (push h line)
unfolding push
push-IsValid h line v = ground (
  arith,
  length-append h.lines (line ∷ []),
  length-set h.lines h.start line,
  mod_small (h.start + 1) h.limit,
)

pub line_at_below :
    (h : HistRing) (j : ℕ)
    → IsValid h
    → h.start ≡ 0
    → j < length h.lines
    → line_at h j ≡ get_or h.lines j no_line
unfolding line_at
line_at_below h j v e l =
    ap (λ k. get_or h.lines k no_line) {x = (h.start + j) % length h.lines}
      (ap (λ k. k % length h.lines) {x = h.start + j} {y = j} (omega arith) ∙ mod-eq_of_lt l)

push_grow :
    (h : HistRing) (line : HistLine)
    → length h.lines < h.limit
    → push h line ≡ record h { lines = h.lines ++ line ∷ []; n = length h.lines + 1 }
unfolding push
push_grow h line g = ground arith

push_full :
    (h : HistRing) (line : HistLine)
    → 0 < h.limit
    → length h.lines ≡ h.limit
    → push h line ≡ record {
      lines = set h.lines h.start line;
      start = (h.start + 1) % h.limit;
      n = h.limit;
      limit = h.limit;
    }
unfolding push
push_full h line p f = ground arith

start_zero : {h : HistRing} → IsValid h → length h.lines < h.limit → h.start ≡ 0
start_zero v l = ground arith

-- The line of age `j` after a push, while the ring still grows.
line_at-push_grow :
    (h : HistRing) (line : HistLine) (j : ℕ)
    → IsValid h
    → length h.lines < h.limit
    → j ≤ length h.lines
    → line_at (push h line) j ≡ get_or (scrollback h ++ line ∷ []) j no_line
line_at-push_grow h line j v g l =
    line_at_below (push h line) j (push-IsValid h line v) (rw (push_grow h line g) (start_zero v g))
      (rw (push_grow h line g) grown)
    ∙ rw (push_grow h line g) (elim (dec_lt j (length h.lines)) [
      | yes old ↦
          get_or-append_left h.lines (line ∷ []) j no_line old
          ∙ sym (line_at_below h j v (start_zero v g) old)
          ∙ sym (get_or-scrollback h j (omega (arith, v.full)))
          ∙ sym (
              get_or-append_left (scrollback h) (line ∷ []) j no_line
                (omega (arith, v.full, length-scrollback h)))
      | no new ↦
          get_or-append_right h.lines (line ∷ []) j no_line (omega arith)
          ∙ ap (λ k. get_or (line ∷ []) k no_line) {y = j - length (scrollback h)}
              (omega (arith, v.full, length-scrollback h))
          ∙ sym (
              get_or-append_right (scrollback h) (line ∷ []) j no_line
                (omega (arith, v.full, length-scrollback h)))
    ])
  where
    grown : j < length (h.lines ++ line ∷ [])
    grown = omega (arith, length-append h.lines (line ∷ []))

-- A full ring goes round: the line of age `j` is the one that had age `j + 1`, or the new one.
line_at_full :
    (h : HistRing) (line : HistLine) (j : ℕ)
    → h.start < h.limit
    → length h.lines ≡ h.limit
    → j < h.limit
    → get_or (set h.lines h.start line) (((h.start + 1) % h.limit + j) % h.limit) no_line ≡ (
        if ltb (j + 1) h.limit
        then get_or h.lines ((h.start + (j + 1)) % h.limit) no_line
        else line)
line_at_full h line j s f l =
    ap (λ k. get_or (set h.lines h.start line) k no_line)
      (mod-add-mod (h.start + 1) h.limit j
        ∙ ap (λ k. k % h.limit) {y = h.start + (j + 1)} (omega arith))
    ∙ ground (
      arith,
      mod_cases (h.start + (j + 1)) h.limit (omega arith),
      get_or-set_self h.lines h.start line no_line (omega arith),
      get_or-set_ne h.lines h.start ((h.start + (j + 1)) % h.limit) line no_line,
      ap (λ k. get_or (set h.lines h.start line) k no_line) {x = (h.start + (j + 1)) % h.limit}
          {y = h.start},
    )

old_line :
    (h : HistRing) (line : HistLine) (k : ℕ)
    → k < h.n
    → get_or (scrollback h ++ line ∷ []) k no_line ≡ line_at h k
old_line h line k l =
    get_or-append_left (scrollback h) (line ∷ []) k no_line (omega (arith, length-scrollback h))
    ∙ get_or-scrollback h k l

new_line :
    (h : HistRing) (line : HistLine) (k : ℕ)
    → k ≡ h.n
    → get_or (scrollback h ++ line ∷ []) k no_line ≡ line
new_line h line k e =
    get_or-append_right (scrollback h) (line ∷ []) k no_line (omega (arith, length-scrollback h))
    ∙ ap (λ m. get_or (line ∷ []) m no_line) {y = 0} (omega (arith, length-scrollback h))

line_at-push_full :
    (h : HistRing) (line : HistLine) (j : ℕ)
    → IsValid h
    → 0 < h.limit
    → length h.lines ≡ h.limit
    → j < h.limit
    → line_at (push h line) j ≡ get_or (scrollback h ++ line ∷ []) (j + 1) no_line
unfolding line_at
line_at-push_full h line j v p f l = rw (push_full h line p f) (
    ap (λ m. get_or (set h.lines h.start line) (((h.start + 1) % h.limit + j) % m) no_line)
      (length-set h.lines h.start line ∙ f)
    ∙ line_at_full h line j (ground arith) f l
    ∙ elim (Bool-cases (ltb (j + 1) h.limit)) [
      | inl old ↦ rw old (
          ap (λ m. get_or h.lines ((h.start + (j + 1)) % m) no_line) (sym f)
          ∙ sym (old_line h line (j + 1) (ground (arith, v.full))))
      | inr new ↦ rw new (sym (new_line h line (j + 1) (ground (arith, v.full))))
    ])

pub n-push : (h : HistRing) (line : HistLine) → IsValid h → (push h line).n ≡ min h.limit (h.n + 1)
unfolding push
n-push h line v = ground arith

limit-push : (h : HistRing) (line : HistLine) → (push h line).limit ≡ h.limit
unfolding push
limit-push h line = ground arith

pub push_at :
    (h : HistRing) (line : HistLine) (j : ℕ)
    → IsValid h
    → j < min h.limit (h.n + 1)
    → line_at (push h line) j
      ≡ get_or (scrollback h ++ line ∷ []) (h.n + 1 - min h.limit (h.n + 1) + j) no_line
push_at h line j v l = elim (dec_lt (length h.lines) h.limit) [
  | yes grow ↦
      line_at-push_grow h line j v grow (omega (arith, v.full))
      ∙ ap (λ k. get_or (scrollback h ++ line ∷ []) k no_line) (omega (arith, v.full))
  | no full ↦
      line_at-push_full h line j v (omega arith) (omega (arith, v.within)) (omega arith)
      ∙ ap (λ k. get_or (scrollback h ++ line ∷ []) k no_line) (omega (arith, v.full, v.within))
]
