-- ===== src/Parser/Lookahead.antt =====
-- internal/vt/grid/parser.go: the look-ahead of `ground` for the bytes of a character that
-- are in the same write already.
use gozellij.Prelude.{
  ℕ, zero, suc, ◌+◌, ◌≤◌, ◌<◌, ◌≡◌, refl, sym, ap, ◌∙◌, ◌≢◌, inl, inr, Bool, true, false, not, ◌||◌,
  Option, none, some, List, [], ◌∷◌, ◌++◌, arith, ltb, leb, if◌then◌else◌, Bool-cases, length,
  length-append, ==_ne,
}
use gozellij.Parser.Utf8.{full_rune, announced, could_complete, utf_max, is_continuation}
use gozellij.Parser.Feed.{
  absorb, settle_rune, step, feed_from, feed, draw_byte, control_or_draw, cut_rune, draw_pending,
  in_sequence, is_ground,
}
use gozellij.Parser.Feed
use gozellij.Parser.State.{Machine, Parser, State}
use gozellij.Modes.{esc}
use gozellij.Parser.Control.{control}
use gozellij.Grid.Term.{Term}

-- Four bytes are always full; bytes that are not full may become a character.
pub four_full : (u : List ℕ) → 4 ≤ length u → full_rune u ≡ true
unfolding full_rune
four_full [] h = ground arith
four_full (a ∷ []) h = ground arith
four_full (a ∷ b ∷ []) h = ground arith
four_full (a ∷ b ∷ c ∷ []) h = ground arith
four_full (a ∷ b ∷ c ∷ d ∷ u) h = refl

pub waits :
    (u : List ℕ) → full_rune u ≡ false → (leb utf_max (length u) || not (could_complete u)) ≡ false
unfolding full_rune announced could_complete
waits [] h = refl
waits (a ∷ []) h = ground arith
waits (a ∷ b ∷ []) h = ground arith
waits (a ∷ b ∷ c ∷ []) h = ground arith
waits (a ∷ b ∷ c ∷ d ∷ u) h = ground arith

pub absorb-full : (k : ℕ) (u b : List ℕ) → full_rune u ≡ true → absorb k u b ≡ (0, u)
unfolding absorb
absorb-full zero u b h = refl
absorb-full (suc k) u [] h = refl
absorb-full (suc k) u (next ∷ b) h = rw h refl

absorb-∷ :
    (k : ℕ) (u b : List ℕ) (next : ℕ)
    → absorb (suc k) u (next ∷ b) ≡ (
        if full_rune u || not (is_continuation next)
        then (0, u)
        else (suc (absorb k (u ++ next ∷ []) b).0, (absorb k (u ++ next ∷ []) b).1))
unfolding absorb
absorb-∷ k u b next = refl

-- The look-ahead ends at a full character, not at its third byte.
pub absorb_enough :
    (k n : ℕ) (u b : List ℕ) → 4 ≤ length u + k → 4 ≤ length u + n → absorb k u b ≡ absorb n u b
unfolding absorb
absorb_enough zero n u b h l = sym (absorb-full n u b (four_full u (omega (arith, h))))
absorb_enough (suc k) zero u b h l = absorb-full (suc k) u b (four_full u (omega (arith, l)))
absorb_enough (suc k) (suc n) u [] h l = refl
absorb_enough (suc k) (suc n) u (next ∷ b) h l =
    ap
      (λ (more : ℕ × List ℕ).
        if full_rune u || not (is_continuation next) then (0, u) else (suc more.0, more.1))
      (absorb_enough k n (u ++ next ∷ []) b (omega (arith, length-append u (next ∷ [])))
        (omega (arith, length-append u (next ∷ []))))

pub control-none : (t : Term) (c : ℕ) → leb 0x80 c ≡ true → control t c ≡ none
unfolding control
control-none t c h = ground arith

not_esc : (c : ℕ) → leb 0x80 c ≡ true → c ≢ esc
not_esc c h = ground arith

-- A machine that keeps these bytes of a character for later.
abbrev waiting : Machine → List ℕ → Machine
waiting m u = record m { parser = record (m.parser) { utf8 = u } }

-- A machine in the ground state that owes no replacement.
abbrev pub IsReady : Machine → Type 0
IsReady m = (m.parser.state ≡ State.ground) × (m.parser.invalid ≡ false)

-- One write without what follows in it.
unfoldable pub alone : Option (Machine × ℕ) → Option Machine
alone none = none
alone (some (m, extra)) = some m

module _ (combining : ℕ → Bool) where
  pub settle_waits :
      (m : Machine) (u : List ℕ)
      → full_rune u ≡ false
      → settle_rune combining m u ≡ some (waiting m u)
  unfolding settle_rune
  settle_waits m u h = rw h (rw (waits u h) refl)

  settle_again :
      (m : Machine) (u v : List ℕ)
      → settle_rune combining (waiting m u) v ≡ settle_rune combining m v
  unfolding settle_rune
  settle_again m u v = refl

  pub step-ground :
      (m : Machine) (c : ℕ) (b : List ℕ)
      → m.parser.state ≡ State.ground
      → step combining m c b ≡ Feed.ground combining m c b
  unfolding step
  step-ground m c b g = rw g refl

  cut_rune-continuation : (p : Parser) (c : ℕ) → is_continuation c ≡ true → cut_rune p c ≡ p
  unfolding cut_rune
  cut_rune-continuation p c h =
      rw h (elim (Bool-cases (ltb 0 (length p.utf8))) [ inl e ↦ rw e refl | inr e ↦ rw e refl ])

  draw_pending-clean : (m : Machine) → m.parser.invalid ≡ false → draw_pending m ≡ some m
  unfolding draw_pending
  draw_pending-clean m h = rw h refl

  control_or_draw-high :
      (m : Machine) (c : ℕ) (b : List ℕ)
      → leb 0x80 c ≡ true
      → control_or_draw combining m c b ≡ draw_byte combining m c b
  unfolding control_or_draw
  control_or_draw-high m c b h =
      ap
        (λ x. elim x [
          | some t ↦ some (record m { term = t }, 0)
          | none ↦ draw_byte combining m c b
        ])
        (control-none m.term c h)

  ground-high :
      (m : Machine) (c : ℕ) (b : List ℕ)
      → leb 0x80 c ≡ true
      → cut_rune m.parser c ≡ m.parser
      → m.parser.invalid ≡ false
      → Feed.ground combining m c b ≡ control_or_draw combining m c b
  unfolding Feed.ground
  ground-high m c b h e i = rw (==_ne c esc (not_esc c h)) (rw e (rw (draw_pending-clean m i) refl))

  step-waiting :
      (m : Machine) (u b : List ℕ) (next : ℕ)
      → IsReady m
      → is_continuation next ≡ true
      → step combining (waiting m u) next b ≡ draw_byte combining (waiting m u) next b
  step-waiting m u b next (g, i) h =
      step-ground (waiting m u) next b g
      ∙ ground-high (waiting m u) next b (ground arith)
          (cut_rune-continuation (waiting m u).parser next h) i
      ∙ control_or_draw-high (waiting m u) next b (ground arith)

  -- A machine with a number of bytes that it passes over.
  unfoldable pub went_on : Option (Machine × ℕ) → List ℕ → Option Machine
  went_on none b = none
  went_on (some (m, extra)) b = feed_from combining extra m b

  unfoldable pub passing : ℕ → Option Machine → List ℕ → Option Machine
  passing n none b = none
  passing n (some m) b = feed_from combining n m b

  -- What comes of a character whose bytes so far are known, the bytes that were taken passed over.
  unfoldable pub fed : Machine → ℕ × List ℕ → List ℕ → Option Machine
  fed m (n, u) b = passing n (settle_rune combining m u) b

  fed_again :
      (m : Machine) (u : List ℕ) (x : ℕ × List ℕ) (b : List ℕ) → fed (waiting m u) x b ≡ fed m x b
  unfolding fed settle_rune
  fed_again m u x b = refl

  went_on-extra :
      (o : Option Machine) (n : ℕ) (b : List ℕ)
      → went_on (elim o [ none ↦ none | some m' ↦ some (m', n) ]) b ≡ passing n o b
  unfolding went_on passing
  went_on-extra none n b = refl
  went_on-extra (some m) n b = refl

  pub went_on-draw_byte :
      (m : Machine) (c : ℕ) (b : List ℕ)
      → ltb c 0x80 ≡ false
      → went_on (draw_byte combining m c b) b ≡ fed m (absorb 3 (m.parser.utf8 ++ c ∷ []) b) b
  unfolding draw_byte fed
  went_on-draw_byte m c b h = rw h (
      went_on-extra (settle_rune combining m (absorb 3 (m.parser.utf8 ++ c ∷ []) b).1)
        (absorb 3 (m.parser.utf8 ++ c ∷ []) b).0 b)

  elim-went_on :
      (x : Option (Machine × ℕ)) (b : List ℕ)
      → elim x [ none ↦ none | some (m', extra) ↦ feed_from combining extra m' b ] ≡ went_on x b
  unfolding went_on
  elim-went_on none b = refl
  elim-went_on (some (m, extra)) b = refl

  pub feed_from-went_on :
      (m : Machine) (c : ℕ) (b : List ℕ)
      → feed_from combining 0 m (c ∷ b) ≡ went_on (step combining m c b) b
  unfolding feed_from
  feed_from-went_on m c b = elim-went_on (step combining m c b) b

  -- A byte more, of a character that is not full.
  feed_from-waiting :
      (m : Machine) (u b : List ℕ) (next : ℕ)
      → IsReady m
      → is_continuation next ≡ true
      → feed_from combining 0 (waiting m u) (next ∷ b) ≡ fed m (absorb 3 (u ++ next ∷ []) b) b
  feed_from-waiting m u b next r c =
      feed_from-went_on (waiting m u) next b
      ∙ ap (λ x. went_on x b) (step-waiting m u b next r c)
      ∙ went_on-draw_byte (waiting m u) next b (ground arith)
      ∙ fed_again m u (absorb 3 (u ++ next ∷ []) b) b

  fed_more :
      (m : Machine) (u b : List ℕ) (next : ℕ)
      → IsReady m
      → 0 < length u
      → full_rune u ≡ false
      → is_continuation next ≡ true
      → fed m (absorb 2 (u ++ next ∷ []) b) b ≡ fed m (0, u) (next ∷ b)
  unfolding fed passing
  fed_more m u b next r h f c =
      ap (λ x. fed m x b)
        (absorb_enough 2 3 (u ++ next ∷ []) b (omega (arith, length-append u (next ∷ [])))
          (omega (arith, length-append u (next ∷ []))))
      ∙ sym (feed_from-waiting m u b next r c)
      ∙ sym (ap (λ x. passing 0 x (next ∷ b)) (settle_waits m u f))

  passing-suc :
      (n : ℕ) (o : Option Machine) (c : ℕ) (b : List ℕ) → passing (suc n) o (c ∷ b) ≡ passing n o b
  unfolding passing feed_from
  passing-suc n none c b = refl
  passing-suc n (some m) c b = refl

  fed_taken :
      (m : Machine) (u b : List ℕ) (next n : ℕ) (v : List ℕ)
      → fed m (suc n, v) (next ∷ b) ≡ fed m (n, v) b
  unfolding fed
  fed_taken m u b next n v = passing-suc n (settle_rune combining m v) next b

  pub fed_absorbed :
      (m : Machine) (u b : List ℕ)
      → IsReady m
      → 0 < length u
      → fed m (absorb 3 u b) b ≡ fed m (0, u) b
  unfolding absorb
  fed_absorbed m u [] r h = refl
  fed_absorbed m u (next ∷ b) r h = elim (Bool-cases (full_rune u || not (is_continuation next))) [
    | inl e ↦ rw (absorb-∷ 2 u b next) (rw e refl)
    | inr e ↦ rw (absorb-∷ 2 u b next) (
        rw e (
          fed_taken m u b next (absorb 2 (u ++ next ∷ []) b).0 (absorb 2 (u ++ next ∷ []) b).1
          ∙ fed_more m u b next r h (ground arith) (ground arith)))
  ]
