-- ===== src/Modes/Replay.antt =====
-- internal/fabric/termmodes.go: what the preamble and the reset do to a follower of modes.
use gozellij.Prelude.{
  map_get, map_delete, map_get-map_delete, ℕ, suc, ◌+◌, ◌-◌, ◌≡◌, refl, ap, ◌∙◌, inl, inr, Bool,
  true, false, not, ◌&&◌, ◌||◌, none, some, List, [], ◌∷◌, ◌++◌, reverse, arith, if◌then◌else◌,
  Option-cases, length, length-append,
}
use mathlib.Core.List.{reverse-cons}
use gozellij.Modes.{
  TermModes, switch, scan, mode_seqs, sorted, tracked_modes, is_on, same_flag, from_esc, feed,
  preamble, escape, esc, fresh, default_of, reset,
}
use gozellij.Modes.Invariant.{IsFollowed}
use gozellij.Modes.Keys.{
  switches, AllSmall, scan-mode_seqs, has, has-sorted, AllDiffer, tracked_small, AllDiffer-AllSmall,
  sorted-AllDiffer, map_get-switches, length-mode_seqs, scan-nil,
}

-- What is fed to the follower `t`: the sequences, then the keypad's.
feed-mode_seqs :
    (t : TermModes) (value : ℕ → Bool) (ks tail : List ℕ)
    → t.carry ≡ []
    → AllSmall ks
    → (fuel : ℕ) × (feed t (mode_seqs value ks ++ tail)
        ≡ scan
            (suc fuel)
            (record { on = switches t.on value ks; keypad = t.keypad; carry = [] })
            tail)
unfolding feed
feed-mode_seqs t value ks tail e a = (
  spare,
  rw e (
      ap (λ k. scan k (record t { carry = [] }) all) {x = suc (length all)}
        {y = length ks + suc spare}
        (omega (arith, length-append (mode_seqs value ks) tail, length-mode_seqs value ks))
      ∙ scan-mode_seqs ks (suc spare) (record t { carry = [] }) value tail a),
)
  where
    all : List ℕ
    all = mode_seqs value ks ++ tail

    spare : ℕ
    spare = length all - length ks

scan-keypad :
    (fuel : ℕ) (t : TermModes) (b : Bool)
    → scan (suc fuel) t (if b then esc ∷ b'=' ∷ [] else []) ≡ record t { keypad = b || t.keypad }
unfolding scan from_esc escape
scan-keypad fuel t true = scan-nil fuel _
scan-keypad fuel t false = refl

scan-keypad_off :
    (fuel : ℕ) (t : TermModes) (b : Bool)
    → scan (suc fuel) t (if b then esc ∷ b'>' ∷ [] else [])
      ≡ record t { keypad = not b && t.keypad }
unfolding scan from_esc escape
scan-keypad_off fuel t true = scan-nil fuel _
scan-keypad_off fuel t false = refl

-- What `Preamble` writes for a stream, followed by a fresh follower of modes, makes it record what
-- the follower of the stream recorded: the same value of every private mode, the same keypad mode,
-- and no sequence left unread.
pub feed-preamble :
    (t : TermModes)
    → IsFollowed t.on
    → let u = feed fresh (preamble t) in
      ((n : ℕ) → map_get u.on n ≡ map_get t.on n) × (u.keypad ≡ t.keypad) × (u.carry ≡ [])
unfolding preamble
feed-preamble t f =
    rw (sent.1 ∙ scan-keypad sent.0 _ t.keypad) (
      (λ n. map_get-switches (sorted t.on) [] (is_on t) n differ ∙ read_back n),
      ground arith,
      refl,
    )
  where
    differ : AllDiffer (is_on t) (sorted t.on)
    differ = sorted-AllDiffer t f

    sent :
        (fuel : ℕ) × (feed fresh
            (mode_seqs (is_on t) (sorted t.on) ++ (if t.keypad then esc ∷ b'=' ∷ [] else []))
          ≡ scan
              (suc fuel)
              (record { on = switches [] (is_on t) (sorted t.on); keypad = false; carry = [] })
              (if t.keypad then esc ∷ b'=' ∷ [] else []))
    sent = feed-mode_seqs fresh (is_on t) (sorted t.on) _ refl (AllDiffer-AllSmall _ _ differ)

    read_back :
        (n : ℕ)
        → (if has (sorted t.on) n then some (is_on t n) else map_get {V = Bool} [] n)
          ≡ map_get t.on n
    read_back n = unfold is_on map_get in ground (arith, has-sorted t.on n)

-- Each mode of a list is a followed one, and `value` is its default.
abbrev AllDefault : (ℕ → Bool) → List ℕ → Type 0
AllDefault value [] = Unit {0}
AllDefault value (n ∷ ks) = (tracked_modes n ≡ some (value n)) × AllDefault value ks

AllDefault-AllSmall : (value : ℕ → Bool) (ks : List ℕ) → AllDefault value ks → AllSmall ks
AllDefault-AllSmall value [] d = tt
AllDefault-AllSmall value (n ∷ ks) d =
    (tracked_small n (value n) d.0, AllDefault-AllSmall value ks d.1)

default_of_tracked :
    (n : ℕ) → (b : Bool) × (tracked_modes n ≡ some b) → tracked_modes n ≡ some (default_of n)
default_of_tracked n (b, e) = ground arith

AllDefault-of_has :
    (ks : List ℕ)
    → ((n : ℕ) → has ks n ≡ true → (b : Bool) × (tracked_modes n ≡ some b))
    → AllDefault default_of ks
unfolding has
AllDefault-of_has [] h = tt
AllDefault-of_has (k ∷ ks) h =
    (default_of_tracked k (h k (ground arith)), AllDefault-of_has ks λ n m. h n (ground arith))

has-append : (xs ys : List ℕ) (n : ℕ) → has (xs ++ ys) n ≡ (has xs n || has ys n)
unfolding has
has-append [] ys n = refl
has-append (x ∷ xs) ys n = ground (arith, has-append xs ys n)

has-reverse : (ks : List ℕ) (n : ℕ) → has (reverse ks) n ≡ has ks n
unfolding has
has-reverse [] n = refl
has-reverse (k ∷ ks) n =
    ap (λ u. has u n) (reverse-cons k ks)
    ∙ has-append (reverse ks) (k ∷ []) n
    ∙ ground (arith, has-reverse ks n)

same : (b : Bool) → same_flag b b ≡ true
same true = refl
same false = refl

map_get-switches_default :
    (ks : List ℕ) (on : List (ℕ × Bool)) (value : ℕ → Bool) (n : ℕ)
    → AllDefault value ks
    → map_get (switches on value ks) n ≡ (if has ks n then none else map_get on n)
unfolding switches has
map_get-switches_default [] on value n d = refl
map_get-switches_default (k ∷ ks) on value n d =
    map_get-switches_default ks (switch on (value k) (some k)) value n d.1
    ∙ ground (arith, delete_step, map_get-map_delete on k n)
  where
    delete_step : switch on (value k) (some k) ≡ map_delete on k
    delete_step = unfold switch in rw (d.0, switch) (rw (same (value k)))

-- What `Reset` writes takes a follower of the modes that a stream left back to its defaults: no
-- private mode differs from its default any more, and the keypad mode is off.
pub feed-reset :
    (t : TermModes)
    → IsFollowed t.on
    → let u = feed (record t { carry = [] }) (reset t).1 in
      ((n : ℕ) → map_get u.on n ≡ none) × (u.keypad ≡ false) × (u.carry ≡ [])
unfolding reset
feed-reset t f =
    rw (sent.1 ∙ scan-keypad_off sent.0 _ t.keypad)
      ((λ n. map_get-switches_default keys t.on default_of n default ∙ gone n), ground arith, refl)
  where
    keys : List ℕ
    keys = reverse (sorted t.on)

    default : AllDefault default_of keys
    default = AllDefault-of_has keys λ n h. elim (Option-cases (map_get t.on n)) [
      | inl e ↦ ground (arith, has-sorted t.on n, has-reverse (sorted t.on) n)
      | inr (b, e) ↦ (not b, f.followed n b e)
    ]

    tail : List ℕ
    tail = if t.keypad then esc ∷ b'>' ∷ [] else []

    sent :
        (fuel : ℕ) × (feed (record t { carry = [] }) (mode_seqs default_of keys ++ tail)
          ≡ scan
              (suc fuel)
              (record { on = switches t.on default_of keys; keypad = t.keypad; carry = [] })
              tail)
    sent = feed-mode_seqs _ default_of keys tail refl (AllDefault-AllSmall _ _ default)

    gone : (n : ℕ) → (if has keys n then none else map_get t.on n) ≡ none
    gone n = ground (arith, has-sorted t.on n, has-reverse (sorted t.on) n)
