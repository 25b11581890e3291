-- ===== src/Supervisor/Stopping.antt =====
-- internal/fabric/supervisor.go: a loop that is told to stop ends.
use gozellij.Prelude.{
  ℕ, suc, ◌+◌, ◌≤◌, ◌<◌, ◌≡◌, refl, sym, subst, ◌∙◌, ◌≢◌, ◌⊎◌, inl, inr, true, not, none, some, [],
  arith, if_elim,
}
use gozellij.Supervisor.{
  State, Status, Supervisor, Process, Point, Service, new_supervisor, Exit, should_restart,
}
use gozellij.Supervisor
use gozellij.Supervisor.Steps.{Loop, Call, Reach, Unaided}
use gozellij.Supervisor.Steps

-- How many steps a cancelled loop has left, at most.
abbrev pub steps_left : Point → ℕ
steps_left Point.not_started = 0
steps_left Point.finished = 0
steps_left Point.returning = 1
steps_left Point.turning = 2
steps_left (Point.reaped e ran) = 2
steps_left (Point.waiting d) = 3
steps_left (Point.collecting p) = 3
steps_left (Point.stopping p) = 4
steps_left (Point.watching p) = 5
steps_left (Point.announcing d r) = 4
steps_left (Point.spawned p) = 6
steps_left Point.spawn_failed = 5
steps_left (Point.taken p) = 7

Advances : Supervisor → Supervisor → Type 0
Advances s u = (u.cancelled ≡ true) × (steps_left u.at < steps_left s.at)

closer_at :
    (s u : Supervisor) (a b : Point)
    → u.cancelled ≡ true
    → s.at ≡ a
    → u.at ≡ b
    → steps_left b < steps_left a
    → Advances s u
unfolding Advances
closer_at s u a b c e f h = (
  c,
  subst (λ x. steps_left u.at < steps_left x) (sym e)
      (subst (λ y. steps_left y < steps_left a) (sym f) h),
)

turn-Advances :
    (s : Supervisor) → s.at ≡ Point.turning → s.cancelled ≡ true → Advances s (Supervisor.turn s)
unfolding Supervisor.turn
turn-Advances s e c =
    if_elim (Advances s) s.cancelled _ _
      (λ _. closer_at s _ Point.turning Point.returning c e refl (omega arith))
      (λ going. absurd (ground arith))

after_failure-Advances :
    (s : Supervisor) (now : ℕ)
    → s.at ≡ Point.spawn_failed
    → s.cancelled ≡ true
    → Advances s (Supervisor.after_failure s now)
unfolding Supervisor.after_failure Supervisor.back_off Supervisor.next_backoff
after_failure-Advances s now e c =
    if_elim (Advances s) (not (Supervisor.is_always s.svc.restart)) _ _
      (λ _. closer_at s _ Point.spawn_failed Point.returning c e refl (omega arith))
      (λ _. closer_at s _ Point.spawn_failed (Point.announcing _ _) c e refl (omega arith))

settle_exit-Advances :
    (s : Supervisor) (x : Exit) (ran now : ℕ)
    → s.at ≡ Point.reaped x ran
    → s.cancelled ≡ true
    → Advances s (Supervisor.settle_exit s x ran now)
unfolding Supervisor.settle_exit
settle_exit-Advances s x ran now e c =
    if_elim (Advances s) s.cancelled _ _
      (λ _. closer_at s _ (Point.reaped x ran) Point.returning c e refl (omega arith))
      (λ going. absurd (ground arith))

Loop-Advances : {s u : Supervisor} → Loop s u → s.cancelled ≡ true → Advances s u
unfolding Supervisor.turn Supervisor.hold Supervisor.fail_spawn Supervisor.publish_running
    Supervisor.let_go Supervisor.wait_on Supervisor.turn_again Supervisor.interrupt
    Supervisor.finish Supervisor.fail_notice Supervisor.collect Supervisor.stop_process
Loop-Advances (Steps.turns s e) c = turn-Advances s e c
Loop-Advances (Steps.adopts s p e) c =
    closer_at s _ (Point.taken (some p)) (Point.spawned p) c e refl (omega arith)
Loop-Advances (Steps.spawns s p e) c =
    closer_at s _ (Point.taken none) (Point.spawned p) c e refl (omega arith)
Loop-Advances (Steps.misses s err e) c =
    closer_at s _ (Point.taken none) Point.spawn_failed c e refl (omega arith)
Loop-Advances (Steps.recovers s now e) c = after_failure-Advances s now e c
Loop-Advances (Steps.publishes s p e) c =
    closer_at s _ (Point.spawned p) (Point.watching p) c e refl (omega arith)
Loop-Advances (Steps.exits s p e) c =
    closer_at s _ (Point.watching p) (Point.collecting p) c e refl (omega arith)
Loop-Advances (Steps.heeds s p e k) c =
    closer_at s _ (Point.watching p) (Point.stopping p) c e refl (omega arith)
Loop-Advances (Steps.dies s p e) c =
    closer_at s _ (Point.stopping p) (Point.collecting p) c e refl (omega arith)
Loop-Advances (Steps.reaps s p x ran e) c =
    closer_at s _ (Point.collecting p) (Point.reaped x ran) c e refl (omega arith)
Loop-Advances (Steps.settles s x ran now e) c = settle_exit-Advances s x ran now e c
Loop-Advances (Steps.notifies s d r e) c =
    closer_at s _ (Point.announcing d r) (Point.waiting d) c e refl (omega arith)
Loop-Advances (Steps.unheard s d r err e) c =
    closer_at s _ (Point.announcing d r) Point.returning c e refl (omega arith)
Loop-Advances (Steps.elapses s d e) c =
    closer_at s _ (Point.waiting d) Point.turning c e refl (omega arith)
Loop-Advances (Steps.interrupts s d e k) c =
    closer_at s _ (Point.waiting d) Point.returning c e refl (omega arith)
Loop-Advances (Steps.finishes s e) c =
    closer_at s _ Point.returning Point.finished c e refl (omega arith)

busy : (s : Supervisor) (a : Point) → s.at ≡ a → 0 < steps_left a → 0 < steps_left s.at
busy s a e h = subst (λ x. 0 < steps_left x) (sym e) h

-- The loop steps neither before its start nor behind its end.
pub Loop-busy : {s u : Supervisor} → Loop s u → 0 < steps_left s.at
Loop-busy (Steps.turns s e) = busy s (Point.turning) e (omega arith)
Loop-busy (Steps.adopts s p e) = busy s (Point.taken (some p)) e (omega arith)
Loop-busy (Steps.spawns s p e) = busy s (Point.taken none) e (omega arith)
Loop-busy (Steps.misses s err e) = busy s (Point.taken none) e (omega arith)
Loop-busy (Steps.recovers s now e) = busy s (Point.spawn_failed) e (omega arith)
Loop-busy (Steps.publishes s p e) = busy s (Point.spawned p) e (omega arith)
Loop-busy (Steps.exits s p e) = busy s (Point.watching p) e (omega arith)
Loop-busy (Steps.heeds s p e k) = busy s (Point.watching p) e (omega arith)
Loop-busy (Steps.dies s p e) = busy s (Point.stopping p) e (omega arith)
Loop-busy (Steps.reaps s p x ran e) = busy s (Point.collecting p) e (omega arith)
Loop-busy (Steps.settles s x ran now e) = busy s (Point.reaped x ran) e (omega arith)
Loop-busy (Steps.notifies s d r e) = busy s (Point.announcing d r) e (omega arith)
Loop-busy (Steps.unheard s d r err e) = busy s (Point.announcing d r) e (omega arith)
Loop-busy (Steps.elapses s d e) = busy s (Point.waiting d) e (omega arith)
Loop-busy (Steps.interrupts s d e k) = busy s (Point.waiting d) e (omega arith)
Loop-busy (Steps.finishes s e) = busy s (Point.returning) e (omega arith)

-- A next step of the loop's own.
abbrev pub GoesOn : Supervisor → Type 0
GoesOn s = (u : Supervisor) × (l : Loop s u) × Unaided l

-- Where a cancelled loop has steps left it has a next one of its own.
next_step : (s : Supervisor) → s.cancelled ≡ true → 0 < steps_left s.at → GoesOn s
next_step s c h = from s.at refl h
  where
    from : (a : Point) → s.at ≡ a → 0 < steps_left a → GoesOn s
    from Point.not_started e k = absurd (omega (arith, k))
    from Point.finished e k = absurd (omega (arith, k))
    from Point.returning e k = (_, Steps.finishes s e, tt)
    from Point.turning e k = (_, Steps.turns s e, tt)
    from (Point.reaped x ran) e k = (_, Steps.settles s x ran 0 e, tt)
    from (Point.waiting d) e k = (_, Steps.interrupts s d e c, tt)
    from (Point.collecting p) e k = (_, Steps.reaps s p Supervisor.no_exit 0 e, tt)
    from (Point.stopping p) e k = (_, Steps.dies s p e, tt)
    from (Point.watching p) e k = (_, Steps.heeds s p e c, tt)
    from (Point.announcing d r) e k = (_, Steps.notifies s d r e, tt)
    from (Point.spawned p) e k = (_, Steps.publishes s p e, tt)
    from Point.spawn_failed e k = (_, Steps.recovers s 0 e, tt)
    from (Point.taken none) e k = (_, Steps.misses s [] e, tt)
    from (Point.taken (some p)) e k = (_, Steps.adopts s p e, tt)

-- A number of steps of the loop.
pub data LoopSteps : ℕ → Supervisor → Supervisor → Type 0 where
  stays : {s : Supervisor} → LoopSteps 0 s s
  goes : {n : ℕ} {s t u : Supervisor} → Loop s t → LoopSteps n t u → LoopSteps (suc n) s u

LoopSteps-cancelled :
    {n : ℕ} {s u : Supervisor} → LoopSteps n s u → s.cancelled ≡ true → u.cancelled ≡ true
unfolding Advances
LoopSteps-cancelled stays c = c
LoopSteps-cancelled (goes l ls) c = LoopSteps-cancelled ls (Loop-Advances l c).0

LoopSteps-Advances :
    {n : ℕ} {s u : Supervisor}
    → LoopSteps n s u
    → s.cancelled ≡ true
    → n + steps_left u.at ≤ steps_left s.at
unfolding Advances
LoopSteps-Advances stays c = omega arith
LoopSteps-Advances (goes l ls) c =
    let (c', closer) = Loop-Advances l c in omega (arith, closer, LoopSteps-Advances ls c')

-- No step leads back to before the start.
went : (u : Supervisor) (b : Point) → u.at ≡ b → b ≢ Point.not_started → u.at ≢ Point.not_started
went u b e n h = n (sym e ∙ h)

Loop-went : {s u : Supervisor} → Loop s u → u.at ≢ Point.not_started
unfolding Supervisor.turn Supervisor.hold Supervisor.fail_spawn Supervisor.publish_running
    Supervisor.let_go Supervisor.wait_on Supervisor.turn_again Supervisor.interrupt
    Supervisor.finish Supervisor.fail_notice Supervisor.after_failure Supervisor.back_off
    Supervisor.next_backoff Supervisor.settle_exit Supervisor.collect Supervisor.stop_process
Loop-went (Steps.turns s e) =
    if_elim (λ (x : Supervisor). x.at ≢ Point.not_started) s.cancelled _ _ (λ _ h. ground arith)
      (λ _ h. ground arith)
Loop-went (Steps.recovers s now e) =
    if_elim (λ (x : Supervisor). x.at ≢ Point.not_started)
      (not (Supervisor.is_always s.svc.restart)) _ _ (λ _ h. ground arith) (λ _ h. ground arith)
Loop-went (Steps.settles s x ran now e) =
    if_elim (λ (y : Supervisor). y.at ≢ Point.not_started) s.cancelled _ _ (λ _ h. ground arith)
      (λ _.
        if_elim (λ (y : Supervisor). y.at ≢ Point.not_started)
          (not (should_restart s.svc.restart x)) _ _ (λ _ h. ground arith) (λ _ h. ground arith))
Loop-went l = λ h. ground arith

LoopSteps-went :
    {n : ℕ} {s u : Supervisor}
    → LoopSteps n s u
    → s.at ≢ Point.not_started
    → u.at ≢ Point.not_started
LoopSteps-went stays h = h
LoopSteps-went (goes l ls) h = LoopSteps-went ls (Loop-went l)

finished_or_busy : (a : Point) → a ≢ Point.not_started → (a ≡ Point.finished) ⊎ (0 < steps_left a)
finished_or_busy Point.not_started h = absurd (h refl)
finished_or_busy Point.finished h = inl refl
finished_or_busy a h = inr (omega arith)

steps_left-le : (a : Point) → steps_left a ≤ 7
steps_left-le (Point.taken p) = omega arith
steps_left-le a = omega arith

cancelled_ends :
    {n : ℕ} {s u : Supervisor}
    → LoopSteps n s u
    → s.cancelled ≡ true
    → s.at ≢ Point.not_started
    → (n ≤ 7) × ((u.at ≡ Point.finished) ⊎ GoesOn u)
cancelled_ends {n} {s} {u} ls c h = (
  omega (arith, LoopSteps-Advances ls c, steps_left-le s.at),
  elim (finished_or_busy u.at (LoopSteps-went ls h)) [
    | inl over ↦ inl over
    | inr left ↦ inr (next_step u (LoopSteps-cancelled ls c) left)
  ],
)

stop_lem :
    (s : Supervisor)
    → s.started ≡ true
    → ((Supervisor.stop s).cancelled ≡ true) × ((Supervisor.stop s).at ≡ s.at)
unfolding Supervisor.stop
stop_lem s h =
    if_elim (λ (x : Supervisor). (x.cancelled ≡ true) × (x.at ≡ s.at)) s.started _ _
      (λ _. (refl, refl)) (λ fresh. absurd (ground arith))

-- After a stop the loop of a supervisor that was started ends, whatever the outcomes of its spawns,
-- exits and waits: any run of it has at most seven steps, and a run that has not finished goes on by
-- itself, without the end of a wait and without an exit of the process that nobody asked for, as
-- long as a spawn, a write to the output and `p.Stop()` return.
pub LoopSteps-stop :
    (n : ℕ) (s u : Supervisor)
    → s.started ≡ true
    → s.at ≢ Point.not_started
    → LoopSteps n (Supervisor.stop s) u
    → (n ≤ 7) × ((u.at ≡ Point.finished) ⊎ GoesOn u)
LoopSteps-stop n s u started launched ls =
    let (c, same) = stop_lem s started in cancelled_ends ls c (λ h. launched (sym same ∙ h))
