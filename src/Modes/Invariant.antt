-- ===== src/Modes/Invariant.antt =====
-- internal/fabric/termmodes.go: the map holds only what differs from a terminal's defaults.
use gozellij.Prelude.{
  List-cases, map_get, map_set, map_delete, map_get-map_set, map_get-map_delete, ℕ, zero, suc, ◌≡◌,
  refl, ap, subst, ◌∙◌, ◌⊎◌, inl, inr, Bool, true, false, not, ◌||◌, Option, none, some, List, [],
  ◌∷◌, ◌++◌, arith, leb, ◌==◌, Bool-cases, Option-cases, length, drop,
}
use gozellij.Modes.{
  TermModes, atoi, switch, switch_all, private_mode, escape_csi, escape, scan, feed, keep_carry,
  tracked_modes, Escape, cut, read, same_flag, from_esc, params, split_fields,
}

-- Each mode in the map is a followed one, switched away from its default.
pub record IsFollowed (on : List (ℕ × Bool)) : Type 0 where
  pub followed : (n : ℕ) (b : Bool) → map_get on n ≡ some b → tracked_modes n ≡ some (not b)

other_flag : (b c : Bool) → same_flag b c ≡ false → c ≡ not b
other_flag true c h = ground arith
other_flag false c h = ground arith

deleted-IsFollowed : (on : List (ℕ × Bool)) (n : ℕ) → IsFollowed on → IsFollowed (map_delete on n)
deleted-IsFollowed on n f = record {
  followed = λ k b h. ground (arith, map_get-map_delete on n k, f.followed k b);
}

set-IsFollowed :
    (on : List (ℕ × Bool)) (n : ℕ) (b : Bool)
    → tracked_modes n ≡ some (not b)
    → IsFollowed on
    → IsFollowed (map_set on n b)
set-IsFollowed on n b e f = record {
  followed = λ k c h. ground (arith, map_get-map_set on n b k, f.followed k c);
}

switch-IsFollowed :
    (on : List (ℕ × Bool)) (b : Bool) (o : Option ℕ) → IsFollowed on → IsFollowed (switch on b o)
unfolding switch
switch-IsFollowed on b none f = f
switch-IsFollowed on b (some n) f = elim (Option-cases (tracked_modes n)) [
  | inl e ↦ rw (e, switch) f
  | inr (def, e) ↦ elim (Bool-cases (same_flag b def)) [
    | inl default ↦ rw (e, switch) (rw default (deleted-IsFollowed on n f))
    | inr other ↦
        rw (e, switch) (rw other (set-IsFollowed on n b (e ∙ ap some (other_flag b def other)) f))
  ]
]

switch_all-IsFollowed :
    (on : List (ℕ × Bool)) (b : Bool) (fs : List (List ℕ))
    → IsFollowed on
    → IsFollowed (switch_all on b fs)
unfolding switch_all
switch_all-IsFollowed on b [] f = f
switch_all-IsFollowed on b (x ∷ fs) f =
    switch_all-IsFollowed (switch on b (atoi x)) b fs (switch-IsFollowed on b (atoi x) f)

-- What a sequence that was read leaves.
abbrev Leaves : Escape → Type 0
Leaves cut = Unit {0}
Leaves (read t n) = IsFollowed t.on

private_mode-Leaves :
    (t : TermModes) (ps rest : List ℕ) → IsFollowed t.on → Leaves (private_mode t (ps, rest))
unfolding private_mode
private_mode-Leaves t ps [] f = tt
private_mode-Leaves t ps (final ∷ rest) f = elim (Bool-cases ((final == b'h') || (final == b'l'))) [
  | inl e ↦ rw e (switch_all-IsFollowed t.on _ (split_fields ps) f)
  | inr e ↦ rw e f
]

escape_csi-Leaves : (t : TermModes) (p : List ℕ) → IsFollowed t.on → Leaves (escape_csi t p)
unfolding escape_csi
escape_csi-Leaves t [] f = tt
escape_csi-Leaves t (c ∷ p) f = elim (Bool-cases (c == b'?')) [
  | inl e ↦ rw e (private_mode-Leaves t (params p).0 (params p).1 f)
  | inr e ↦ rw e f
]

escape-Leaves : (t : TermModes) (p : List ℕ) → IsFollowed t.on → Leaves (escape t p)
unfolding escape
escape-Leaves t [] f = tt
escape-Leaves t (e ∷ []) f = tt
escape-Leaves t (e ∷ c ∷ p) f = elim (Bool-cases (c == b'=')) [
  | inl e ↦ rw e f
  | inr e ↦ rw e (elim (Bool-cases (c == b'>')) [
    | inl e' ↦ rw e' f
    | inr e' ↦ rw e' (elim (Bool-cases (c == b'[')) [
      | inl e'' ↦ rw e'' (escape_csi-Leaves t p f)
      | inr e'' ↦ rw e'' f
    ])
  ])
]

keep_carry-IsFollowed :
    (t : TermModes) (p : List ℕ) → IsFollowed t.on → IsFollowed (keep_carry t p).on
unfolding keep_carry
keep_carry-IsFollowed t p f = elim (Bool-cases (leb (length p) 64)) [
  | inl e ↦ rw e f
  | inr e ↦ rw e f
]

pub Escape-cases : (e : Escape) → (e ≡ cut) ⊎ ((t : TermModes) × (n : ℕ) × (e ≡ read t n))
Escape-cases cut = inl refl
Escape-cases (read t n) = inr (t, n, refl)

scan-IsFollowed :
    (fuel : ℕ) (t : TermModes) (p : List ℕ) → IsFollowed t.on → IsFollowed (scan fuel t p).on
unfolding scan
scan-IsFollowed zero t p f = f
scan-IsFollowed (suc fuel) t p f = elim (List-cases (from_esc p)) [
  | inl e ↦ rw (e, scan) f
  | inr (c, q, e) ↦ elim (Escape-cases (escape t (c ∷ q))) [
    | inl h ↦ rw (e, scan) (rw (h, scan) (keep_carry-IsFollowed t (c ∷ q) f))
    | inr (t', n, h) ↦
        rw (e, scan)
          (rw (h, scan)
            (scan-IsFollowed fuel t' (drop n (c ∷ q)) (subst Leaves h (escape-Leaves t (c ∷ q) f))))
  ]
]

-- Whatever bytes are fed, the table of modes stays one that records only modes that are followed,
-- each only while it differs from its power-on default, if it was such a table.
pub feed-IsFollowed : (t : TermModes) (p : List ℕ) → IsFollowed t.on → IsFollowed (feed t p).on
unfolding feed
feed-IsFollowed t p f = scan-IsFollowed _ (record t { carry = [] }) (t.carry ++ p) f
