-- ===== src/Watchers/Wakeups.antt =====
-- internal/fabric/watch.go: what the operations on the watchers of a service keep.
use gozellij.Prelude.{
  All, map_get, map_set, map_delete, map_get-map_set, map_get-map_delete, ℕ, ◌<◌, ◌≡◌, refl, sym,
  subst, ◌∙◌, ◌≢◌, ◌⊎◌, inl, inr, Bool, true, false, Option, none, some, List, [], ◌∷◌, arith, ◌==◌,
  Bool-cases, Option-cases, ==_iff, ==_ne,
}
use gozellij.Watchers.{
  StatusWatchers, Event, watches, notifies, unwatches, receives, run, happen, wake, notify, watch,
  unwatch, take_wakeup, is_closed, any_closed, new_status_watchers,
}

-- Every number is below the next one, and a channel that is still watched is not closed.
pub record Sound (w : StatusWatchers) : Type 0 where
  pub fine : w.faulted ≡ false
  pub fresh : (i : ℕ) (held : Bool) → map_get w.chans i ≡ some held → i < w.next
  pub open_still :
      (i : ℕ) (held : Bool) → map_get w.chans i ≡ some held → is_closed w.closed i ≡ false
  pub past : (i : ℕ) → is_closed w.closed i ≡ true → i < w.next

-- A wakeup where there is a channel.
awake : Option Bool → Option Bool
awake none = none
awake (some held) = some true

map_get-wake : (m : List (ℕ × Bool)) (i : ℕ) → map_get (wake m) i ≡ awake (map_get m i)
unfolding map_get wake awake
map_get-wake [] i = refl
map_get-wake ((k, held) ∷ m) i = elim (Bool-cases (k == i)) [
  | inl e ↦ rw e refl
  | inr e ↦ rw e (map_get-wake m i)
]

was_there : (o : Option Bool) (held : Bool) → awake o ≡ some held → (b : Bool) × (o ≡ some b)
unfolding awake
was_there none held h = absurd (ground arith)
was_there (some b) held h = (b, refl)

any_closed_lem :
    (m : List (ℕ × Bool)) (ks : List ℕ)
    → ((i : ℕ) (held : Bool) → map_get m i ≡ some held → is_closed ks i ≡ false)
    → any_closed ks m ≡ false
unfolding any_closed map_get
any_closed_lem [] ks h = refl
any_closed_lem ((k, held) ∷ m) ks h = rw (h k held (ground arith)) (any_closed_lem m ks later)
  where
    later : (i : ℕ) (b : Bool) → map_get m i ≡ some b → is_closed ks i ≡ false
    later i b e = elim (Bool-cases (k == i)) [
      | inl f ↦ h i held (rw f refl)
      | inr f ↦ h i b (rw f e)
    ]

lt_ne : {i n : ℕ} → n ≡ i → i < n → ⊥
lt_ne e l = omega (arith, e, l)

set_cases :
    (m : List (ℕ × Bool)) (i : ℕ) (b : Bool) (k : ℕ) (held : Bool)
    → map_get (map_set m i b) k ≡ some held
    → (i ≡ k) ⊎ (map_get m k ≡ some held)
set_cases m i b k held h = elim (Bool-cases (i == k)) [
  | inl e ↦ inl (ground arith)
  | inr e ↦ inr (sym (map_get-map_set m i b k ∙ rw e refl) ∙ h)
]

delete_cases :
    (m : List (ℕ × Bool)) (i k : ℕ) (held : Bool)
    → map_get (map_delete m i) k ≡ some held
    → ((i == k) ≡ false) × (map_get m k ≡ some held)
delete_cases m i k held h = elim (Bool-cases (i == k)) [
  | inl e ↦ absurd (nothing (sym (map_get-map_delete m i k ∙ rw e refl) ∙ h))
  | inr e ↦ (e, sym (map_get-map_delete m i k ∙ rw e refl) ∙ h)
]
  where
    nothing : ◌≡◌ {A = Option Bool} none (some held) → ⊥
    nothing h = ground arith

closed_before :
    (ks : List ℕ) (i k : ℕ) → (i == k) ≡ false → is_closed (i ∷ ks) k ≡ true → is_closed ks k ≡ true
unfolding is_closed
closed_before ks i k e h = sym (rw e refl) ∙ h

watch-Sound : (w : StatusWatchers) → Sound w → Sound (watch w).0
unfolding watch
watch-Sound w v = record {
  fine = v.fine;
  fresh = λ i held h. elim (set_cases w.chans w.next false i held h) [
    | inl e ↦ omega (arith, e)
    | inr e ↦ omega (arith, v.fresh i held e)
  ];
  open_still = λ i held h. elim (set_cases w.chans w.next false i held h) [
    | inl e ↦ elim (Bool-cases (is_closed w.closed i)) [
      | inl c ↦ absurd (omega (arith, e, v.past i c))
      | inr c ↦ c
    ]
    | inr e ↦ v.open_still i held e
  ];
  past = λ i h. omega (arith, v.past i h);
}

notify-Sound : (w : StatusWatchers) → Sound w → Sound (notify w)
unfolding notify
notify-Sound w v = record {
  fine = rw v.fine (any_closed_lem w.chans w.closed v.open_still);
  fresh = λ i held h.
      let (b, e) = was_there (map_get w.chans i) held (sym (map_get-wake w.chans i) ∙ h) in
      v.fresh i b e;
  open_still = λ i held h.
      let (b, e) = was_there (map_get w.chans i) held (sym (map_get-wake w.chans i) ∙ h) in
      v.open_still i b e;
  past = v.past;
}

unwatch-Sound : (w : StatusWatchers) (i : ℕ) → Sound w → Sound (unwatch w i)
unfolding unwatch
unwatch-Sound w i v = elim (Option-cases (map_get w.chans i)) [
  | inl e ↦ rw (unwatch, e) v
  | inr (held, e) ↦
      rw (unwatch, e)
        (record {
          fine = rw (v.fine, v.open_still i held e) refl;
          fresh = λ k b h. v.fresh k b (delete_cases w.chans i k b h).1;
          open_still = λ k b h.
              unfold is_closed in
              rw
                (
                  (delete_cases w.chans i k b h).0,
                  v.open_still k b (delete_cases w.chans i k b h).1,
                )
                refl;
          past = λ k h. elim (Bool-cases (i == k)) [
            | inl f ↦ omega (arith, v.fresh i held e, (==_iff i k).0 f)
            | inr f ↦ v.past k (closed_before w.closed i k f h)
          ];
        })
]

take_wakeup-Sound : (w : StatusWatchers) (i : ℕ) → Sound w → Sound (take_wakeup w i)
unfolding take_wakeup
take_wakeup-Sound w i v = elim (Option-cases (map_get w.chans i)) [
  | inl e ↦ rw (take_wakeup, e) v
  | inr (held, e) ↦
      rw (take_wakeup, e)
        (record {
          fine = v.fine;
          fresh = λ k b h. elim (set_cases w.chans i false k b h) [
            | inl f ↦ omega (arith, f, v.fresh i held e)
            | inr f ↦ v.fresh k b f
          ];
          open_still = λ k b h. elim (set_cases w.chans i false k b h) [
            | inl f ↦ subst (λ x. is_closed w.closed x ≡ false) f (v.open_still i held e)
            | inr f ↦ v.open_still k b f
          ];
          past = v.past;
        })
]

happen-Sound : (w : StatusWatchers) (e : Event) → Sound w → Sound (happen w e)
unfolding happen
happen-Sound w watches v = watch-Sound w v
happen-Sound w notifies v = notify-Sound w v
happen-Sound w (unwatches i) v = unwatch-Sound w i v
happen-Sound w (receives i) v = take_wakeup-Sound w i v

run-Sound : (es : List Event) (w : StatusWatchers) → Sound w → Sound (run w es)
unfolding run
run-Sound [] w v = v
run-Sound (e ∷ es) w v = run-Sound es (happen w e) (happen-Sound w e v)

new-Sound : Sound new_status_watchers
new-Sound = record {
  fine = refl;
  fresh = λ i held h. absurd (unfold map_get in ground arith);
  open_still = λ i held h. unfold is_closed in refl;
  past = λ i h. absurd (unfold is_closed in ground arith);
}

-- Whatever is watched, told, taken and given up, and in whatever order, no channel is closed twice
-- and none is sent to once it is closed.
pub run-faulted : (es : List Event) → (run new_status_watchers es).faulted ≡ false
run-faulted es = (run-Sound es new_status_watchers new-Sound).fine

-- Events in which one watcher neither takes its wakeup nor stops watching.
abbrev pub Leaves : ℕ → Event → Type 0
Leaves i (unwatches k) = k ≢ i
Leaves i (receives k) = k ≢ i
Leaves i e = Unit

happen-kept :
    (i : ℕ) (w : StatusWatchers) (e : Event)
    → Sound w
    → Leaves i e
    → map_get w.chans i ≡ some true
    → map_get (happen w e).chans i ≡ some true
unfolding happen unwatch take_wakeup map_get
happen-kept i w watches v l h =
    unfold watch in
    map_get-map_set w.chans w.next false i ∙ rw (==_ne w.next i (λ e. lt_ne e (v.fresh i true h))) h
happen-kept i w notifies v l h = unfold notify awake in map_get-wake w.chans i ∙ rw h refl
happen-kept i w (unwatches k) v l h = elim (Option-cases (map_get w.chans k)) [
  | inl e ↦ rw (unwatch, e) h
  | inr (held, e) ↦ rw (unwatch, e) (map_get-map_delete w.chans k i ∙ rw (==_ne k i l) h)
]
happen-kept i w (receives k) v l h = elim (Option-cases (map_get w.chans k)) [
  | inl e ↦ rw (take_wakeup, e) h
  | inr (held, e) ↦ rw (take_wakeup, e) (map_get-map_set w.chans k false i ∙ rw (==_ne k i l) h)
]

run-kept :
    (i : ℕ) (es : List Event) (w : StatusWatchers)
    → Sound w
    → All (Leaves i) es
    → map_get w.chans i ≡ some true
    → map_get (run w es).chans i ≡ some true
unfolding run
run-kept i [] w v l h = h
run-kept i (e ∷ es) w v (l, ls) h =
    run-kept i es (happen w e) (happen-Sound w e v) ls (happen-kept i w e v l h)

-- No wakeup is lost: in a state that operations reached, a watcher that is told and then neither
-- takes its wakeup nor stops watching still has one, whatever the others do.
pub run-notify :
    (before after : List Event) (i : ℕ) (held : Bool)
    → map_get (run new_status_watchers before).chans i ≡ some held
    → All (Leaves i) after
    → map_get (run (notify (run new_status_watchers before)) after).chans i ≡ some true
run-notify before after i held h l =
    run-kept i after (notify w) (notify-Sound w v) l
      (unfold notify awake in map_get-wake w.chans i ∙ rw h refl)
  where
    w : StatusWatchers
    w = run new_status_watchers before

    v : Sound w
    v = run-Sound before new_status_watchers new-Sound
