-- ===== src/Worker/Entry.antt =====
-- worker/src/index.ts: the worker process with its scheduler and its janitor, from the start of its
-- parts to the exit, as a state machine. Only the first signal is an event.
pub mod Stands
pub mod Shutdown
use nexus_queue.Prelude.{ℕ, Bool, true, false, Option, none, some}
use nexus_queue.Prelude.Tests.{if◌then◌else◌}
use nexus_queue.Prelude.Decimal.{Number}
use nexus_queue.Worker.Timers.{
  TimerEvent, start, stop, ended, fires, Scheduler, new_scheduler, start_scheduler, stop_scheduler,
  step_scheduler, Janitor, new_janitor, start_janitor, stop_janitor, step_janitor,
}
use nexus_queue.Worker.Loop.{LoopState, StopPoint, not_called, stopped, started}
use nexus_queue.Worker.Loop

-- Before a signal, at the `await` of `worker.stop`, at that of `quit` and `end`, and after `exit`.
pub data Phase : Type 0 where
  running draining closing exited : Phase

pub record Process : Type 0 where
  pub scheduler : Scheduler
  pub janitor : Option Janitor
  pub worker : LoopState
  pub phase : Phase

-- The parts, started; the janitor only if it is enabled.
unfoldable pub main : Bool → Number → Process
main janitor_enabled concurrency = record {
  scheduler = start_scheduler new_scheduler;
  janitor = if janitor_enabled then some (start_janitor new_janitor) else none;
  worker = started concurrency;
  phase = running;
}

-- A signal, a timer of the scheduler or the janitor, a step of the worker, or the end of the
-- connections.
pub data Event : Type 0 where
  signal closed : Event
  scheduled watched : TimerEvent → Event
  worked : Loop.Event → Event

-- `if (janitor) janitor.stop()`
abbrev stop_if : Option Janitor → Option Janitor
stop_if none = none
stop_if (some j) = some (stop_janitor j)

-- `shutdown`, up to its first `await`.
abbrev pub shutdown : Process → Option Process
shutdown p = elim (Loop.step p.worker Loop.stop) [
  | none ↦ none
  | some w ↦ some (record {
    scheduler = stop_scheduler p.scheduler;
    janitor = stop_if p.janitor;
    worker = w;
    phase = draining;
  })
]

abbrev pub on_signal : Phase → Process → Option Process
on_signal running p = shutdown p
on_signal _ p = none

-- After the end of `worker.stop`, the connections are told to close.
abbrev pub phase_after : Phase → StopPoint → Phase
phase_after draining stopped = closing
phase_after x s = x

-- Nobody but `shutdown` calls `worker.stop`.
abbrev pub may_work : Phase → Loop.Event → Bool
may_work running Loop.stop = false
may_work exited e = false
may_work _ e = true

-- Nobody but `main` and `shutdown` starts or stops a timer.
abbrev pub may_time : Phase → TimerEvent → Bool
may_time exited e = false
may_time x start = false
may_time x stop = false
may_time x e = true

abbrev pub set_worker : Option LoopState → Process → Option Process
set_worker none p = none
set_worker (some w) p = some (record p { worker = w; phase = phase_after p.phase w.stop_at })

abbrev pub set_scheduler : Option Scheduler → Process → Option Process
set_scheduler none p = none
set_scheduler (some s) p = some (record p { scheduler = s })

abbrev pub set_janitor : Option Janitor → Process → Option Process
set_janitor none p = none
set_janitor (some j) p = some (record p { janitor = some j })

abbrev pub watch : Option Janitor → TimerEvent → Option Janitor
watch none e = none
watch (some j) e = step_janitor j e

abbrev pub on_closed : Phase → Process → Option Process
on_closed closing p = some (record p { phase = exited })
on_closed _ p = none

-- `none` where the event cannot happen.
unfoldable pub step : Process → Event → Option Process
step p signal = on_signal p.phase p
step p closed = on_closed p.phase p
step p (scheduled e) =
    if may_time p.phase e then set_scheduler (step_scheduler p.scheduler e) p else none
step p (watched e) = if may_time p.phase e then set_janitor (watch p.janitor e) p else none
step p (worked e) = if may_work p.phase e then set_worker (Loop.step p.worker e) p else none
