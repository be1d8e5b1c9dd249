-- ===== src/Worker/Entry/Shutdown.antt =====
-- What holds when the worker process ends.
use nexus_queue.Prelude.{ℕ, zero, suc, ◌+◌, ◌≡◌, refl, ap, Bool, true, false, some, inl, arith}
use nexus_queue.Prelude.Decimal.{Number}
use nexus_queue.Worker.Timers.{
  fires, start_scheduler, stop_scheduler, step_scheduler, start_janitor,
}
use nexus_queue.Worker.Timers.InFlight.{piled}
use nexus_queue.Worker.Loop.{
  LoopState, LoopPoint, StopPoint, not_called, updating, joining, deregistering, stopped, started,
}
use nexus_queue.Worker.Loop
use nexus_queue.Worker.Entry.{
  Phase, running, draining, closing, exited, Process, main, Event, signal, closed, scheduled,
  worked, stop_if, step,
}
use nexus_queue.Worker.Entry.Stands.{Stands, step-Stands}

-- The states of the process after any events in any order.
pub data Reach (janitor_enabled : Bool) (concurrency : Number) : Process → Type 0 where
  at_start : Reach janitor_enabled concurrency (main janitor_enabled concurrency)
  after :
      {p q : Process} (e : Event)
      → Reach janitor_enabled concurrency p
      → step p e ≡ some q
      → Reach janitor_enabled concurrency q

main-Stands : (c : Number) (enabled : Bool) → Stands enabled running (main enabled c)
unfolding main start_scheduler start_janitor
main-Stands c true = (inl (0, refl, refl, refl), (refl, 0, refl, refl), tt)
main-Stands c false = (inl (0, refl, refl, refl), refl, tt)

Reach-Stands :
    {enabled : Bool} {c : Number} {p : Process} → Reach enabled c p → Stands enabled p.phase p
unfolding main
Reach-Stands {enabled} {c} at_start = main-Stands c enabled
Reach-Stands {enabled} {p = q} (after {p} e r h) = step-Stands enabled p q e (Reach-Stands r) h

module _ (enabled : Bool) (c : Number) where
  -- With ticks of the scheduler that have not ended: before the signal, and then in each phase.
  abbrev ticking : ℕ → Process
  ticking n = record (main enabled c) { scheduler = piled n }

  ticking-Reach : (n : ℕ) → Reach enabled c (ticking n)
  unfolding step step_scheduler main start_scheduler
  ticking-Reach zero = at_start
  ticking-Reach (suc n) =
      after (scheduled (fires 0)) (ticking-Reach n)
        (ap (λ k. some (ticking k)) {x = n + 1} {y = suc n} (omega arith))

  abbrev stopping : ℕ → StopPoint → LoopPoint → Phase → Process
  stopping n x a z = record {
    scheduler = stop_scheduler (piled n);
    janitor = stop_if (main enabled c).janitor;
    worker = record (started c) { stop_requested = true; stop_at = x; at = a };
    phase = z;
  }

  signalled : (n : ℕ) → Reach enabled c (stopping n updating Loop.testing draining)
  unfolding step Loop.step main
  signalled n = after signal (ticking-Reach n) refl

  over : (n : ℕ) → Reach enabled c (stopping n stopped Loop.ended closing)
  unfolding step Loop.step
  over n =
      after (worked Loop.stop)
        (after (worked Loop.stop)
          (after (worked Loop.stop)
            (after (worked Loop.stop) (after (worked Loop.go_on) (signalled n) refl) refl) refl)
          refl)
        refl

  cut_off :
      (n : ℕ) → (q : Process) × Reach enabled c q × (q.phase ≡ exited) × (q.scheduler.ticks ≡ n)
  unfolding step stop_scheduler
  cut_off n = (stopping n stopped Loop.ended exited, after closed (over n) refl, refl, refl)

-- Whatever happens, in whatever order: until the first signal the scheduler and an enabled janitor
-- have one interval each, from then on none; and the connections are closed, and the process exits,
-- only after the worker's `stop` is at its end and its loop has ended. But the exit does not wait for
-- the scheduler: any number of its ticks can be under way then, and are cut off.
pub shutdown_order :
    (n : ℕ) {enabled : Bool} {c : Number} {p : Process}
    → Reach enabled c p
    → Stands enabled p.phase p
      × ((q : Process) × Reach enabled c q × (q.phase ≡ exited) × (q.scheduler.ticks ≡ n))
shutdown_order n {enabled} {c} r = (Reach-Stands r, cut_off enabled c n)
