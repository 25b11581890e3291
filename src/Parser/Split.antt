-- ===== src/Parser/Split.antt =====
-- internal/vt/grid/parser.go: a stream gives one screen, however it is cut into writes.
use gozellij.Prelude.{
  ℕ, ◌≡◌, refl, sym, ap, ◌∙◌, ◌⊎◌, inl, inr, Bool, true, false, Option, none, some, List, [], ◌∷◌,
  ◌++◌, arith, ltb, ◌==◌, Bool-cases, if_elim, Option-cases, length-append,
}
use gozellij.Parser.State
use gozellij.Parser.Feed.{
  absorb, settle_rune, step, feed_from, feed, draw_byte, control_or_draw, cut_rune, draw_pending,
  in_sequence, is_ground,
}
use gozellij.Parser.Feed
use gozellij.Parser.State.{Machine, Parser, State}
use gozellij.Modes.{esc}
use gozellij.Parser.Lookahead.{
  IsReady, alone, went_on, passing, fed, fed_absorbed, went_on-draw_byte, feed_from-went_on,
}
use gozellij.Grid.Draw.{put}
use gozellij.Parser.Utf8.{rune_error}
use gozellij.Parser.Control.{control}
use gozellij.Grid.Term.{Term}

module _ (combining : ℕ → Bool) where
  -- Each byte by itself, as if it were the only one of a write.
  unfoldable pub feed_each : Machine → List ℕ → Option Machine
  feed_each m [] = some m
  feed_each m (c ∷ b) = elim (alone (step combining m c [])) [
    | none ↦ none
    | some m' ↦ feed_each m' b
  ]

  with_term-IsReady :
      (p : Parser) (o : Option Term)
      → p.state ≡ State.ground
      → p.invalid ≡ false
      → (State.with_term p o ≡ none) ⊎ ((m : Machine) × (State.with_term p o ≡ some m) × IsReady m)
  with_term-IsReady p none g i = inl refl
  with_term-IsReady p (some t) g i = inr (record { term = t; parser = p }, refl, (g, i))

  draw_pending-IsReady :
      (m : Machine)
      → m.parser.state ≡ State.ground
      → (draw_pending m ≡ none) ⊎ ((m' : Machine) × (draw_pending m ≡ some m') × IsReady m')
  unfolding draw_pending
  draw_pending-IsReady m g =
      if_elim (λ x. (x ≡ none) ⊎ ((m' : Machine) × (x ≡ some m') × IsReady m')) m.parser.invalid _ _
        (λ i.
          with_term-IsReady (record (m.parser) { invalid = false }) (put m.term rune_error 1) g
            refl)
        (λ i. inr (m, refl, (g, i)))

  -- A byte's effect and the rest of the write come to the same as the byte alone and then the rest.
  abbrev Splits : (List ℕ → Option (Machine × ℕ)) → Type 0
  Splits f = (b : List ℕ) → went_on combining (f b) b ≡ passing combining 0 (alone (f [])) b

  nothing_taken : (o : Option Machine) → Splits (λ b. elim o [ none ↦ none | some m ↦ some (m, 0) ])
  unfolding went_on passing alone
  nothing_taken none b = refl
  nothing_taken (some m) b = refl

  alone-some :
      (o : Option Machine) (n : ℕ) (b : List ℕ)
      → passing combining 0 o b
        ≡ passing combining 0 (alone (elim o [ none ↦ none | some m ↦ some (m, n) ])) b
  unfolding alone
  alone-some none n b = refl
  alone-some (some m) n b = refl

  draw_byte-Splits : (m : Machine) (c : ℕ) → IsReady m → Splits (draw_byte combining m c)
  unfolding draw_byte fed absorb
  draw_byte-Splits m c r b = elim (Bool-cases (ltb c 0x80)) [
    | inl e ↦ rw e (nothing_taken (State.with_term m.parser (Feed.draw_ascii combining m.term c)) b)
    | inr e ↦
        went_on-draw_byte combining m c b e
        ∙ fed_absorbed combining m (m.parser.utf8 ++ c ∷ []) b r
            (omega (arith, length-append m.parser.utf8 (c ∷ [])))
        ∙ rw e (alone-some (settle_rune combining m (m.parser.utf8 ++ c ∷ [])) 0 b)
  ]

  control_or_draw-Splits :
      (m : Machine) (c : ℕ) → IsReady m → Splits (control_or_draw combining m c)
  unfolding control_or_draw
  control_or_draw-Splits m c r b = elim (Option-cases (control m.term c)) [
    | inl e ↦ rw (control_or_draw, e) (draw_byte-Splits m c r b)
    | inr (t, e) ↦ rw (control_or_draw, e) (nothing_taken (some (record m { term = t })) b)
  ]

  cut_rune_state : (p : Parser) (c : ℕ) → (cut_rune p c).state ≡ p.state
  unfolding cut_rune
  cut_rune_state p c = ground arith

  ground-Splits :
      (m : Machine) (c : ℕ) → m.parser.state ≡ State.ground → Splits (Feed.ground combining m c)
  unfolding Feed.ground
  ground-Splits m c g b = elim (Bool-cases (c == esc)) [
    | inl e ↦ rw e (
        nothing_taken
          (some (record m {
            parser = State.to_state State.escape (State.clear_params (cut_rune m.parser c));
          }))
          b)
    | inr e ↦
        elim (draw_pending-IsReady (record m { parser = cut_rune m.parser c })
          (cut_rune_state m.parser c ∙ g)) [
            | inl d ↦ rw (e, d) (nothing_taken none b)
            | inr (m', d, r) ↦ rw (e, d) (control_or_draw-Splits m' c r b)
          ]
  ]

  is_ground_iff : (s : State) → is_ground s ≡ true → s ≡ State.ground
  is_ground_iff State.ground h = refl
  is_ground_iff State.escape h = ground arith
  is_ground_iff State.csi h = ground arith
  is_ground_iff State.osc h = ground arith
  is_ground_iff State.charset_select h = ground arith
  is_ground_iff State.str h = ground arith

  step-Splits : (m : Machine) (c : ℕ) → Splits (step combining m c)
  unfolding step
  step-Splits m c b = elim (Bool-cases (is_ground m.parser.state)) [
    | inl e ↦ rw e (ground-Splits m c (is_ground_iff m.parser.state e) b)
    | inr e ↦ rw e (nothing_taken (in_sequence combining m.parser.state m c) b)
  ]

  feed_from_each : (b : List ℕ) (m : Machine) → feed_from combining 0 m b ≡ feed_each m b
  unfolding feed_from feed_each passing
  feed_from_each [] m = refl
  feed_from_each (c ∷ b) m =
      feed_from-went_on combining m c b
      ∙ step-Splits m c b
      ∙ elim (Option-cases (alone (step combining m c []))) [
        | inl e ↦ rw (feed_each, e) refl
        | inr (m', e) ↦ rw (feed_each, e) (feed_from_each b m')
      ]

  -- Feeding a write gives the machine, or the panic, that its bytes give one by one.
  pub feed_each_lem : (m : Machine) (b : List ℕ) → feed combining m b ≡ feed_each m b
  unfolding feed
  feed_each_lem m b = feed_from_each b m

  feed_each-append :
      (a b : List ℕ) (m : Machine)
      → feed_each m (a ++ b) ≡ elim (feed_each m a) [ none ↦ none | some m' ↦ feed combining m' b ]
  unfolding feed_each
  feed_each-append [] b m = sym (feed_each_lem m b)
  feed_each-append (c ∷ a) b m = elim (Option-cases (alone (step combining m c []))) [
    | inl e ↦ rw (feed_each, e) refl
    | inr (m', e) ↦ rw (feed_each, e) (feed_each-append a b m')
  ]

  -- Two writes one behind the other give what one write with the bytes of both gives, from any state of the
  -- parser and wherever the cut falls, inside a character or a sequence too.
  pub feed-append :
      (m : Machine) (a b : List ℕ)
      → feed combining m (a ++ b)
        ≡ elim (feed combining m a) [ none ↦ none | some m' ↦ feed combining m' b ]
  feed-append m a b =
      feed_each_lem m (a ++ b)
      ∙ feed_each-append a b m
      ∙ ap (λ x. elim x [ none ↦ none | some m' ↦ feed combining m' b ]) (sym (feed_each_lem m a))
