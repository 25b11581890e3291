-- ===== src/Grid/History/Refine.antt =====
-- internal/vt/grid/history.go: the ring behaves as the list of the last lines.
use gozellij.Prelude.{
  ℕ, ◌+◌, ◌-◌, ◌<◌, min, ◌≡◌, sym, ap, ◌∙◌, ◌≢◌, [], ◌∷◌, ◌++◌, arith, length, get_or, drop,
  get_or-drop, get_or_ext, keep_last, length-append, length-drop,
}
use native.Mathlib.Decide.{ℕ_discrete}
use gozellij.Grid.History.{
  HistLine, HistRing, no_line, line_at, push, lines_from, set_limit, scrollback,
}
use gozellij.Grid.History.Pushing.{
  IsValid, length-lines_from, get_or-lines_from, length-scrollback, get_or-scrollback,
  line_at_below, n-push, push_at,
}

-- After a line scrolls off, the scrollback is the last lines, as many as its limit, of what it was
-- followed by that line; a limit of 0 keeps nothing.
pub scrollback-push :
    (h : HistRing) (line : HistLine)
    → IsValid h
    → scrollback (push h line) ≡ keep_last h.limit (scrollback h ++ line ∷ [])
scrollback-push h line v =
    get_or_ext no_line (scrollback (push h line)) (keep_last h.limit (scrollback h ++ line ∷ []))
      (omega (
        arith,
        length-scrollback (push h line),
        n-push h line v,
        length-drop (length (scrollback h ++ line ∷ []) - h.limit) (scrollback h ++ line ∷ []),
        size,
      ))
      λ j l.
        get_or-scrollback (push h line) j (omega (arith, length-scrollback (push h line)))
        ∙ push_at h line j v (omega (arith, length-scrollback (push h line), n-push h line v))
        ∙ ap (λ k. get_or (scrollback h ++ line ∷ []) k no_line)
            {y = length (scrollback h ++ line ∷ []) - h.limit + j} (omega (arith, size))
        ∙ sym (
            get_or-drop (length (scrollback h ++ line ∷ []) - h.limit) (scrollback h ++ line ∷ []) j
              no_line)
  where
    size : length (scrollback h ++ line ∷ []) ≡ h.n + 1
    size = omega (arith, length-append (scrollback h) (line ∷ []), length-scrollback h)

pub set_limit-IsValid : (h : HistRing) (n : ℕ) → IsValid h → IsValid (set_limit h n)
unfolding set_limit
set_limit-IsValid h n v = ground (arith, length-lines_from h (h.n - min n h.n) (min n h.n))

set_limit_same : (h : HistRing) (n : ℕ) → n ≡ h.limit → set_limit h n ≡ h
unfolding set_limit
set_limit_same h n e = ground arith

set_limit_other :
    (h : HistRing) (n : ℕ)
    → n ≢ h.limit
    → set_limit h n ≡ record {
      lines = lines_from h (h.n - min n h.n) (min n h.n);
      start = 0;
      n = min n h.n;
      limit = n;
    }
unfolding set_limit
set_limit_other h n e = ground arith

n-set_limit : (h : HistRing) (n : ℕ) → IsValid h → (set_limit h n).n ≡ min n h.n
unfolding set_limit
n-set_limit h n v = ground arith

set_limit_at :
    (h : HistRing) (n j : ℕ)
    → IsValid h
    → n ≢ h.limit
    → j < min n h.n
    → line_at (set_limit h n) j ≡ line_at h (h.n - n + j)
set_limit_at h n j v e l =
    line_at_below (set_limit h n) j (set_limit-IsValid h n v) (rw (set_limit_other h n e)) (
      rw (set_limit_other h n e) (omega (arith, length-lines_from h (h.n - min n h.n) (min n h.n))))
    ∙ rw (set_limit_other h n e) (get_or-lines_from h (h.n - min n h.n) (min n h.n) j l)
    ∙ ap (line_at h) {x = h.n - min n h.n + j} {y = h.n - n + j} (omega arith)

-- Changing the limit keeps the newest lines, as many as the new limit allows, in their order.
pub scrollback-set_limit :
    (h : HistRing) (n : ℕ) → IsValid h → scrollback (set_limit h n) ≡ keep_last n (scrollback h)
scrollback-set_limit h n v = elim (ℕ_discrete n h.limit) [
  | yes e ↦
      ap scrollback (set_limit_same h n e)
      ∙ ap (λ k. drop k (scrollback h)) {x = 0}
          (omega (arith, v.full, v.within, length-scrollback h))
  | no e ↦
      get_or_ext no_line (scrollback (set_limit h n)) (keep_last n (scrollback h))
        (omega (
          arith,
          length-scrollback (set_limit h n),
          n-set_limit h n v,
          length-drop (length (scrollback h) - n) (scrollback h),
          length-scrollback h,
        ))
        λ j l.
          get_or-scrollback (set_limit h n) j (omega (arith, length-scrollback (set_limit h n)))
          ∙ set_limit_at h n j v e
              (omega (arith, length-scrollback (set_limit h n), n-set_limit h n v))
          ∙ sym (
              get_or-scrollback h (h.n - n + j)
                (omega (arith, length-scrollback (set_limit h n), n-set_limit h n v)))
          ∙ ap (λ k. get_or (scrollback h) k no_line) {x = h.n - n + j}
              {y = length (scrollback h) - n + j} (omega (arith, length-scrollback h))
          ∙ sym (get_or-drop (length (scrollback h) - n) (scrollback h) j no_line)
]
