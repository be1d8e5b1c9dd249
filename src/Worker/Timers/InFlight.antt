-- ===== src/Worker/Timers/InFlight.antt =====
-- How many ticks run at once.
use nexus_queue.Prelude.{
  ℕ, zero, suc, ◌-◌, ◌≡◌, refl, ap, subst, Bool, true, false, ◌⊎◌, inl, inr, Option, none, some, [],
  ◌∷◌, arith,
}
use nexus_queue.Prelude.Tests.{◌==◌, ==_refl, if◌then◌else◌, or_else}
use nexus_queue.Worker.Timers.{
  TimerEvent, start, stop, ended, fires, Scheduler, new_scheduler, start_scheduler, stop_scheduler,
  step_scheduler, Janitor, new_janitor, start_janitor, stop_janitor, step_janitor, on_interval,
  is_live, clear_own,
}

-- The states of either after any events in any order.
pub data SchedulerReach : Scheduler → Type 0 where
  first : SchedulerReach new_scheduler
  then_scheduler :
      {s t : Scheduler} (e : TimerEvent)
      → SchedulerReach s
      → step_scheduler s e ≡ some t
      → SchedulerReach t

pub data JanitorReach : Janitor → Type 0 where
  made_janitor : JanitorReach new_janitor
  then_janitor :
      {j k : Janitor} (e : TimerEvent) → JanitorReach j → step_janitor j e ≡ some k → JanitorReach k

-- No tick, or one tick and the flag.
abbrev pub Alone : Janitor → Type 0
Alone j = ((j.ticks ≡ 0) × (j.ticking ≡ false)) ⊎ ((j.ticks ≡ 1) × (j.ticking ≡ true))

-- One interval while it runs, and else none.
abbrev pub OneTimer : Scheduler → Type 0
OneTimer s =
    ((n : ℕ) × (s.running ≡ true) × (s.timer ≡ some n) × (s.live ≡ n ∷ []))
    ⊎ ((s.running ≡ false) × (s.timer ≡ none) × (s.live ≡ []))

pub some-P {ℓ} : {A : Type 0} (P : A → Type ℓ) (x y : A) → P x → some x ≡ some y → P y
some-P P x y p h = subst P (ap (λ o. or_else o x) h) p

pub when-P {ℓ} :
    {A : Type 0} (P : A → Type ℓ) (c : Bool) (x y : A)
    → P x
    → (if c then some x else none) ≡ some y
    → P y
when-P P true x y p h = some-P P x y p h
when-P P false x y p h = cc

pub unless-P {ℓ} :
    {A : Type 0} (P : A → Type ℓ) (c : Bool) (x y : A)
    → (c ≡ false → P x)
    → (if c then none else some x) ≡ some y
    → P y
unless-P P true x y p h = cc
unless-P P false x y p h = some-P P x y (p refl) h

interval-Alone : (j : Janitor) → Alone j → Alone (on_interval j)
interval-Alone j (inl (n, t)) = rw t (inr (omega arith, refl))
interval-Alone j (inr (n, t)) = rw t (inr (n, refl))

clear-Alone : (o : Option ℕ) (j : Janitor) → Alone j → Alone (clear_own o j)
clear-Alone none j a = a
clear-Alone (some n) j a = a

step-Alone : (j k : Janitor) (e : TimerEvent) → Alone j → step_janitor j e ≡ some k → Alone k
unfolding step_janitor start_janitor stop_janitor
step-Alone j k start a h = some-P Alone (start_janitor j) k a h
step-Alone j k stop a h = some-P Alone (stop_janitor j) k (clear-Alone j.interval j a) h
step-Alone j k (fires n) a h =
    when-P Alone (is_live n j.live) (on_interval j) k (interval-Alone j a) h
step-Alone j k ended a h =
    unless-P Alone (j.ticks == 0) (record j { ticks = j.ticks - 1; ticking = false }) k
      (λ n. inl (ground arith, refl)) h

JanitorReach-Alone : {j : Janitor} → JanitorReach j → Alone j
JanitorReach-Alone made_janitor = inl (refl, refl)
JanitorReach-Alone {j} (then_janitor {j = i} e r h) = step-Alone i j e (JanitorReach-Alone r) h

pub start-OneTimer : (s : Scheduler) → OneTimer s → OneTimer (start_scheduler s)
unfolding start_scheduler
start-OneTimer s (inl (n, r, t, l)) = rw r (inl (n, refl, t, l))
start-OneTimer s (inr (r, t, l)) = rw r (inl (s.made, refl, refl, ap (λ ns. s.made ∷ ns) l))

pub stop-NoTimer :
    (s : Scheduler)
    → OneTimer s
    → ((stop_scheduler s).running ≡ false)
      × ((stop_scheduler s).timer ≡ none)
      × ((stop_scheduler s).live ≡ [])
unfolding stop_scheduler
stop-NoTimer s (inl (n, r, t, l)) = rw t (refl, refl, rw l (rw (==_refl n) refl))
stop-NoTimer s (inr (r, t, l)) = rw t (refl, refl, l)

pub step-OneTimer :
    (s t : Scheduler) (e : TimerEvent) → OneTimer s → step_scheduler s e ≡ some t → OneTimer t
unfolding step_scheduler
step-OneTimer s t start o h = some-P OneTimer (start_scheduler s) t (start-OneTimer s o) h
step-OneTimer s t stop o h = some-P OneTimer (stop_scheduler s) t (inr (stop-NoTimer s o)) h
step-OneTimer s t (fires n) o h = when-P OneTimer (is_live n s.live) _ t o h
step-OneTimer s t ended o h = unless-P OneTimer (s.ticks == 0) _ t (λ n. o) h

SchedulerReach-OneTimer : {s : Scheduler} → SchedulerReach s → OneTimer s
SchedulerReach-OneTimer first = inr (refl, refl, refl)
SchedulerReach-OneTimer {s} (then_scheduler {s = r} e x h) =
    step-OneTimer r s e (SchedulerReach-OneTimer x) h

-- The scheduler that was started and whose interval has fired, with no tick ended.
abbrev pub piled : ℕ → Scheduler
piled n = record { timer = some 0; running = true; live = 0 ∷ []; made = 1; ticks = n }

piled-Reach : (n : ℕ) → SchedulerReach (piled n)
unfolding step_scheduler start_scheduler
piled-Reach zero = then_scheduler start first refl
piled-Reach (suc n) =
    then_scheduler (fires 0) (piled-Reach n) (ap (λ k. some (piled k)) (omega arith))

-- Whatever is called, fires and ends, in whatever order: at most one tick of the janitor runs, and
-- its flag tells whether one does; the scheduler has exactly one interval while it runs and none
-- otherwise; but its ticks do not wait for each other: any number of them can run at once.
pub ticks_in_flight :
    (n : ℕ) {j : Janitor} {s : Scheduler}
    → JanitorReach j
    → SchedulerReach s
    → Alone j × OneTimer s × SchedulerReach (piled n)
ticks_in_flight n r x = (JanitorReach-Alone r, SchedulerReach-OneTimer x, piled-Reach n)
