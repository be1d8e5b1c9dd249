-- ===== src/Worker/Entry/Stands.antt =====
-- What stands at each phase of the worker process, and that every event keeps it.
use nexus_queue.Prelude.{
  ℕ, ◌≡◌, refl, subst, ◌∙◌, Bool, true, false, Option, none, some, [], ◌∷◌, arith,
}
use nexus_queue.Prelude.Tests.{◌==◌, ==_refl, if◌then◌else◌}
use nexus_queue.Worker.Timers.{
  TimerEvent, start, stop, ended, fires, Scheduler, stop_scheduler, step_scheduler, Janitor,
  stop_janitor, step_janitor, on_interval, is_live,
}
use nexus_queue.Worker.Timers.InFlight.{
  OneTimer, stop-NoTimer, some-P, when-P, unless-P, step-OneTimer,
}
use nexus_queue.Worker.Loop.{
  LoopState, LoopPoint, StopPoint, not_called, updating, joining, deregistering, stopped, started,
}
use nexus_queue.Worker.Loop.Ended.{LoopEnded, Over, step-Over, WorkerOff, step-WorkerOff}
use nexus_queue.Worker.Loop
use nexus_queue.Worker.Entry.{
  Phase, running, draining, closing, exited, Process, Event, signal, closed, scheduled, watched,
  worked, stop_if, on_signal, phase_after, may_work, may_time, set_worker, set_scheduler,
  set_janitor, watch, on_closed, step,
}

-- No interval of the scheduler or of the janitor is left.
abbrev pub NoInterval : Option Janitor → Type 0
NoInterval none = Unit
NoInterval (some j) = j.live ≡ []

-- An enabled janitor, with one interval, or none that is not enabled.
abbrev pub OneInterval : Bool → Option Janitor → Type 0
OneInterval enabled none = enabled ≡ false
OneInterval enabled (some j) =
    (enabled ≡ true) × (n : ℕ) × (j.interval ≡ some n) × (j.live ≡ n ∷ [])

abbrev pub TimersOff : Process → Type 0
TimersOff p = (p.scheduler.live ≡ []) × NoInterval p.janitor

module _ (enabled : Bool) where
  -- What stands at a phase: one interval each, then none, and from the end of `worker.stop` on the loop
  -- has ended.
  abbrev pub Stands : Phase → Process → Type 0
  Stands running p = OneTimer p.scheduler × OneInterval enabled p.janitor × Over p.worker
  Stands draining p = TimersOff p × Over p.worker
  Stands closing p = TimersOff p × WorkerOff p.worker
  Stands exited p = TimersOff p × WorkerOff p.worker

  stop_if-NoInterval : (o : Option Janitor) → OneInterval enabled o → NoInterval (stop_if o)
  unfolding stop_janitor
  stop_if-NoInterval none i = tt
  stop_if-NoInterval (some j) (on, n, e, l) = rw e (rw l (rw (==_refl n) refl))

  signal-Stands :
      (x : Phase) (p q : Process) → Stands x p → on_signal x p ≡ some q → Stands q.phase q
  signal-Stands running p q (o, i, v) h = called (Loop.step p.worker Loop.stop) refl h
    where
      called :
          (w : Option LoopState)
          → Loop.step p.worker Loop.stop ≡ w
          → (elim w [
            | none ↦ none
            | some w ↦ some (record {
              scheduler = stop_scheduler p.scheduler;
              janitor = stop_if p.janitor;
              worker = w;
              phase = draining;
            })
          ])
            ≡ some q
          → Stands q.phase q
      called none e h = cc
      called (some w) e h =
          some-P (λ q. Stands q.phase q) _ q
            (
              ((stop-NoTimer p.scheduler o).2, stop_if-NoInterval p.janitor i),
              step-Over p.worker w Loop.stop v e,
            )
            h
  signal-Stands draining p q i h = cc
  signal-Stands closing p q i h = cc
  signal-Stands exited p q i h = cc

  closed-Stands :
      (x : Phase) (p q : Process) → Stands x p → on_closed x p ≡ some q → Stands q.phase q
  closed-Stands closing p q i h = some-P (λ q. Stands q.phase q) (record p { phase = exited }) q i h
  closed-Stands running p q i h = cc
  closed-Stands draining p q i h = cc
  closed-Stands exited p q i h = cc

  no_start : (x : Phase) → may_time x start ≡ false
  no_start running = refl
  no_start draining = refl
  no_start closing = refl
  no_start exited = refl

  no_stop : (x : Phase) → may_time x stop ≡ false
  no_stop running = refl
  no_stop draining = refl
  no_stop closing = refl
  no_stop exited = refl

  clash : {b : Bool} → b ≡ true → b ≡ false → ⊥
  clash t f = cc

  -- A timer event that is allowed changes no interval.
  scheduler-kept :
      (x : Phase) (s t : Scheduler) (e : TimerEvent)
      → may_time x e ≡ true
      → step_scheduler s e ≡ some t
      → t.live ≡ s.live
  unfolding step_scheduler
  scheduler-kept x s t start m h = absurd (clash m (no_start x))
  scheduler-kept x s t stop m h = absurd (clash m (no_stop x))
  scheduler-kept x s t (fires n) m h = when-P (λ t. t.live ≡ s.live) (is_live n s.live) _ t refl h
  scheduler-kept x s t ended m h = unless-P (λ t. t.live ≡ s.live) (s.ticks == 0) _ t (λ n. refl) h

  abbrev SameInterval : Janitor → Janitor → Type 0
  SameInterval j k = (k.interval ≡ j.interval) × (k.live ≡ j.live)

  interval-kept : (j : Janitor) → SameInterval j (on_interval j)
  interval-kept j = (ground arith, ground arith)

  janitor-kept :
      (x : Phase) (j k : Janitor) (e : TimerEvent)
      → may_time x e ≡ true
      → step_janitor j e ≡ some k
      → SameInterval j k
  unfolding step_janitor
  janitor-kept x j k start m h = absurd (clash m (no_start x))
  janitor-kept x j k stop m h = absurd (clash m (no_stop x))
  janitor-kept x j k (fires n) m h =
      when-P (SameInterval j) (is_live n j.live) (on_interval j) k (interval-kept j) h
  janitor-kept x j k ended m h = unless-P (SameInterval j) (j.ticks == 0) _ k (λ n. (refl, refl)) h

  scheduled-Stands :
      (x : Phase) (p : Process) (s : Scheduler) (e : TimerEvent)
      → Stands x p
      → may_time x e ≡ true
      → step_scheduler p.scheduler e ≡ some s
      → Stands x (record p { scheduler = s })
  scheduled-Stands running p s e (o, i, v) m h = (step-OneTimer p.scheduler s e o h, i, v)
  scheduled-Stands draining p s e ((l, n), v) m h =
      ((scheduler-kept draining p.scheduler s e m h ∙ l, n), v)
  scheduled-Stands closing p s e ((l, n), v) m h =
      ((scheduler-kept closing p.scheduler s e m h ∙ l, n), v)
  scheduled-Stands exited p s e i m h = cc

  watched-Stands :
      (x : Phase) (p : Process) (o : Option Janitor) (k : Janitor) (e : TimerEvent)
      → p.janitor ≡ o
      → Stands x p
      → may_time x e ≡ true
      → watch o e ≡ some k
      → Stands x (record p { janitor = some k })
  watched-Stands x p none k e same i m h = cc
  watched-Stands running p (some j) k e same (o, i, v) m h =
      let (on, n, f, l) = subst (OneInterval enabled) same i in
      let (a, b) = janitor-kept running j k e m h in (o, (on, n, a ∙ f, b ∙ l), v)
  watched-Stands draining p (some j) k e same ((l, n), v) m h =
      ((l, (janitor-kept draining j k e m h).1 ∙ subst NoInterval same n), v)
  watched-Stands closing p (some j) k e same ((l, n), v) m h =
      ((l, (janitor-kept closing j k e m h).1 ∙ subst NoInterval same n), v)
  watched-Stands exited p (some j) k e same i m h = cc

  -- The worker goes on.
  drained :
      (p : Process) (w : LoopState) (y : StopPoint) (z : Phase)
      → TimersOff p
      → w.stop_at ≡ y
      → Over w
      → Stands (phase_after draining y) (record p { worker = w; phase = z })
  drained p w stopped z off e v = (off, (e, subst (λ y. LoopEnded y w.at) e v))
  drained p w not_called z off e v = (off, v)
  drained p w updating z off e v = (off, v)
  drained p w joining z off e v = (off, v)
  drained p w deregistering z off e v = (off, v)
  drained p w (Loop.draining ps) z off e v = (off, v)

  worked-Stands :
      (x : Phase) (p : Process) (w : LoopState) (e : Loop.Event) (z : Phase)
      → Stands x p
      → may_work x e ≡ true
      → Loop.step p.worker e ≡ some w
      → Stands (phase_after x w.stop_at) (record p { worker = w; phase = z })
  worked-Stands running p w e z (o, i, v) m h = (o, i, step-Over p.worker w e v h)
  worked-Stands draining p w e z (off, v) m h =
      drained p w w.stop_at z off refl (step-Over p.worker w e v h)
  worked-Stands closing p w e z (off, v) m h = (off, step-WorkerOff p.worker w e v h)
  worked-Stands exited p w e z i m h = cc

  set_scheduler-Stands :
      (p q : Process) (e : TimerEvent) (c : Bool) (o : Option Scheduler)
      → Stands p.phase p
      → may_time p.phase e ≡ c
      → step_scheduler p.scheduler e ≡ o
      → (if c then set_scheduler o p else none) ≡ some q
      → Stands q.phase q
  set_scheduler-Stands p q e true (some s) i m g h =
      some-P (λ q. Stands q.phase q) (record p { scheduler = s }) q
        (scheduled-Stands p.phase p s e i m g) h
  set_scheduler-Stands p q e true none i m g h = cc
  set_scheduler-Stands p q e false o i m g h = cc

  set_janitor-Stands :
      (p q : Process) (e : TimerEvent) (c : Bool) (o : Option Janitor)
      → Stands p.phase p
      → may_time p.phase e ≡ c
      → watch p.janitor e ≡ o
      → (if c then set_janitor o p else none) ≡ some q
      → Stands q.phase q
  set_janitor-Stands p q e true (some k) i m g h =
      some-P (λ q. Stands q.phase q) (record p { janitor = some k }) q
        (watched-Stands p.phase p p.janitor k e refl i m g) h
  set_janitor-Stands p q e true none i m g h = cc
  set_janitor-Stands p q e false o i m g h = cc

  set_worker-Stands :
      (p q : Process) (e : Loop.Event) (c : Bool) (o : Option LoopState)
      → Stands p.phase p
      → may_work p.phase e ≡ c
      → Loop.step p.worker e ≡ o
      → (if c then set_worker o p else none) ≡ some q
      → Stands q.phase q
  set_worker-Stands p q e true (some w) i m g h =
      some-P (λ q. Stands q.phase q)
        (record p { worker = w; phase = phase_after p.phase w.stop_at }) q
        (worked-Stands p.phase p w e (phase_after p.phase w.stop_at) i m g) h
  set_worker-Stands p q e true none i m g h = cc
  set_worker-Stands p q e false o i m g h = cc

  pub step-Stands :
      (p q : Process) (e : Event) → Stands p.phase p → step p e ≡ some q → Stands q.phase q
  unfolding step
  step-Stands p q signal i h = signal-Stands p.phase p q i h
  step-Stands p q closed i h = closed-Stands p.phase p q i h
  step-Stands p q (scheduled e) i h =
      set_scheduler-Stands p q e (may_time p.phase e) (step_scheduler p.scheduler e) i refl refl h
  step-Stands p q (watched e) i h =
      set_janitor-Stands p q e (may_time p.phase e) (watch p.janitor e) i refl refl h
  step-Stands p q (worked e) i h =
      set_worker-Stands p q e (may_work p.phase e) (Loop.step p.worker e) i refl refl h
