-- ===== src/Worker/Timers.antt =====
-- The intervals of worker/src/scheduler.ts and worker/src/janitor.ts, as state machines. Intervals
-- are numbered in the order in which they are made; `live` are those that still fire, and `ticks` is
-- the number of calls of `tick` that have not ended.
pub mod InFlight
use nexus_queue.Prelude.{ℕ, ◌+◌, ◌-◌, Bool, true, false, ◌||◌, Option, none, some, List, [], ◌∷◌}
use nexus_queue.Prelude.Tests.{◌==◌, if◌then◌else◌}

abbrev pub is_live : ℕ → List ℕ → Bool
is_live n [] = false
is_live n (m ∷ ms) = (m == n) || is_live n ms

-- `clearInterval`
abbrev pub clear_interval : ℕ → List ℕ → List ℕ
clear_interval n [] = []
clear_interval n (m ∷ ms) = let rest = clear_interval n ms in if m == n then ms else m ∷ rest

-- A call of `start` or `stop`, an interval that fires, or the end of a tick.
pub data TimerEvent : Type 0 where
  start stop ended : TimerEvent
  fires : ℕ → TimerEvent

pub record Scheduler : Type 0 where
  pub timer : Option ℕ
  pub running : Bool
  pub live : List ℕ
  pub made : ℕ
  pub ticks : ℕ

abbrev pub new_scheduler : Scheduler
new_scheduler = record { timer = none; running = false; live = []; made = 0; ticks = 0 }

unfoldable pub start_scheduler : Scheduler → Scheduler
start_scheduler s =
    if s.running
    then s
    else record s { running = true; timer = some s.made; live = s.made ∷ s.live; made = s.made + 1 }

abbrev pub clear_timer : Option ℕ → Scheduler → Scheduler
clear_timer none s = s
clear_timer (some n) s = record s { live = clear_interval n s.live; timer = none }

unfoldable pub stop_scheduler : Scheduler → Scheduler
stop_scheduler s = clear_timer s.timer (record s { running = false })

-- `none` where the event cannot happen.
unfoldable pub step_scheduler : Scheduler → TimerEvent → Option Scheduler
unfolding start_scheduler stop_scheduler
step_scheduler s start = some (start_scheduler s)
step_scheduler s stop = some (stop_scheduler s)
step_scheduler s (fires n) =
    if is_live n s.live then some (record s { ticks = s.ticks + 1 }) else none
step_scheduler s ended = if s.ticks == 0 then none else some (record s { ticks = s.ticks - 1 })

pub record Janitor : Type 0 where
  pub interval : Option ℕ
  pub ticking : Bool
  pub live : List ℕ
  pub made : ℕ
  pub ticks : ℕ

abbrev pub new_janitor : Janitor
new_janitor = record { interval = none; ticking = false; live = []; made = 0; ticks = 0 }

-- Without a look at whether it runs.
unfoldable pub start_janitor : Janitor → Janitor
start_janitor j = record j { interval = some j.made; live = j.made ∷ j.live; made = j.made + 1 }

abbrev pub clear_own : Option ℕ → Janitor → Janitor
clear_own none j = j
clear_own (some n) j = record j { live = clear_interval n j.live; interval = none }

unfoldable pub stop_janitor : Janitor → Janitor
stop_janitor j = clear_own j.interval j

-- The callback of the interval.
abbrev pub on_interval : Janitor → Janitor
on_interval j = if j.ticking then j else record j { ticking = true; ticks = j.ticks + 1 }

unfoldable pub step_janitor : Janitor → TimerEvent → Option Janitor
unfolding start_janitor stop_janitor
step_janitor j start = some (start_janitor j)
step_janitor j stop = some (stop_janitor j)
step_janitor j (fires n) = if is_live n j.live then some (on_interval j) else none
step_janitor j ended =
    if j.ticks == 0 then none else some (record j { ticks = j.ticks - 1; ticking = false })
