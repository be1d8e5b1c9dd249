-- ===== src/Tests/Process.antt =====
-- The theorems on the worker's timers and its shutdown at concrete inputs.
use nexus_queue.Prelude.{◌≡◌, refl, true, some, [], ◌∷◌}
use nexus_queue.Prelude.Decimal.{int}
use nexus_queue.Worker.Timers.{
  start, fires, Janitor, new_janitor, stop_scheduler, start_scheduler, new_scheduler, stop_janitor,
  start_janitor, step_janitor, step_scheduler,
}
use nexus_queue.Worker.Timers.InFlight.{
  JanitorReach, made_janitor, then_janitor, SchedulerReach, first, then_scheduler, Alone, OneTimer,
  piled, ticks_in_flight,
}
use nexus_queue.Worker.Loop.{updating, started}
use nexus_queue.Worker.Loop
use nexus_queue.Worker.Entry.{draining, exited, Process, main, signal, step}
use nexus_queue.Worker.Entry.Shutdown.{Reach, at_start, after, shutdown_order}
use nexus_queue.Worker.Entry.Stands.{Stands}

-- The interval has fired twice, and the first tick goes on.
abbrev busy : Janitor
busy = record { interval = some 0; ticking = true; live = 0 ∷ []; made = 1; ticks = 1 }

busy-Reach : JanitorReach busy
unfolding step_janitor start_janitor
busy-Reach =
    then_janitor (fires 0) (then_janitor (fires 0) (then_janitor start made_janitor refl) refl) refl

one_tick : SchedulerReach (piled 1)
unfolding step_scheduler start_scheduler
one_tick = then_scheduler (fires 0) (then_scheduler start first refl) refl

ticks_in_flight_example : Alone busy × OneTimer (piled 1) × SchedulerReach (piled 5)
ticks_in_flight_example = ticks_in_flight 5 busy-Reach one_tick

abbrev told : Process
told = record {
  scheduler = stop_scheduler (start_scheduler new_scheduler);
  janitor = some (stop_janitor (start_janitor new_janitor));
  worker = record (started (int 2)) { stop_requested = true; stop_at = updating };
  phase = draining;
}

told-Reach : Reach true (int 2) told
unfolding step Loop.step main
told-Reach = after signal at_start refl

shutdown_order_example :
    Stands true draining told
    × ((q : Process) × Reach true (int 2) q × (q.phase ≡ exited) × (q.scheduler.ticks ≡ 3))
shutdown_order_example = shutdown_order 3 told-Reach
