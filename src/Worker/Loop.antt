-- ===== src/Worker/Loop.antt =====
-- worker/src/worker.ts: the pull loop of a worker and its shutdown, as a state machine. Each event is
-- what lets a method go on after an `await`; the code up to its next `await` runs at once.
pub mod Bounds
pub mod Shutdown
pub mod Ended
use nexus_queue.Prelude.{
  ℕ, ◌+◌, ◌≡◌, Bool, true, false, not, ◌&&◌, ◌||◌, Option, none, some, List, [], ◌∷◌,
}
use nexus_queue.Prelude.Tests.{◌==◌, if◌then◌else◌}
use nexus_queue.Prelude.Texts.{Text, is_empty}
use nexus_queue.Prelude.Lists.{length}
use nexus_queue.Prelude.Decimal.{Number, int, number_ge}

-- A job promise, by the count of those before it, and the job's id.
pub record Promise : Type 0 where
  pub number : ℕ
  pub job_id : Text

-- Where `loop` stands: at its test, or at one of its `await`s.
pub data LoopPoint : Type 0 where
  testing pulling backing_off ended : LoopPoint
  racing : List Promise → LoopPoint

-- Where `stop` stands: not called, at one of its `await`s, or at its end.
pub data StopPoint : Type 0 where
  not_called updating joining deregistering stopped : StopPoint
  draining : List Promise → StopPoint

pub record LoopState : Type 0 where
  pub concurrency : Number
  pub stop_requested : Bool
  pub active_jobs : List Promise
  pub launched : ℕ
  pub at : LoopPoint
  pub stop_at : StopPoint

-- `pulled none` is a pull with no job, and `pull_failed` one that throws; `settled` is the end of
-- the job promise with that number.
pub data Event : Type 0 where
  go_on pull_failed stop timeout : Event
  pulled : Option Text → Event
  settled : ℕ → Event

abbrev pub is_active : ℕ → List Promise → Bool
is_active n [] = false
is_active n (p ∷ ps) = (p.number == n) || is_active n ps

abbrev pub drop_promise : ℕ → List Promise → List Promise
drop_promise n [] = []
drop_promise n (p ∷ ps) = let rest = drop_promise n ps in if p.number == n then ps else p ∷ rest

-- `Promise.race`: one of these has ended.
abbrev pub any_ended : List Promise → List Promise → Bool
any_ended [] active = false
any_ended (p ∷ ps) active = not (is_active p.number active) || any_ended ps active

-- `Promise.allSettled`: all of these have ended.
abbrev pub all_ended : List Promise → List Promise → Bool
all_ended [] active = true
all_ended (p ∷ ps) active = not (is_active p.number active) && all_ended ps active

-- The loop's test, and what it does up to its next `await`.
abbrev test_loop : LoopState → LoopState
test_loop s =
    if s.stop_requested
    then record s { at = ended }
    else if number_ge (int (length s.active_jobs)) s.concurrency
    then record s { at = racing s.active_jobs }
    else record s { at = pulling }

abbrev launch : Text → LoopState → LoopState
launch job_id s = record s {
  active_jobs = record { number = s.launched; job_id = job_id } ∷ s.active_jobs;
  launched = s.launched + 1;
}

-- `loop` goes on from where it stands.
abbrev pub loop_on : LoopPoint → LoopState → Option LoopState
loop_on testing s = some (test_loop s)
loop_on (racing ps) s = if any_ended ps s.active_jobs then some (test_loop s) else none
loop_on backing_off s = some (test_loop s)
loop_on _ s = none

-- A pull has ended: a job is launched, and the loop tests again.
abbrev pull_on : LoopPoint → Option Text → LoopState → Option LoopState
pull_on pulling none s = some (test_loop s)
pull_on pulling (some job_id) s = some (test_loop (if is_empty job_id then s else launch job_id s))
pull_on _ r s = none

abbrev fail_on : LoopPoint → LoopState → Option LoopState
fail_on pulling s = some (record s { at = backing_off })
fail_on _ s = none

-- `stop` is called, or goes on. It waits for the jobs of that moment, for at most 30 seconds, then
-- for the loop, and then takes the worker's keys away.
abbrev pub stop_on : StopPoint → LoopState → Option LoopState
stop_on not_called s = some (record s { stop_requested = true; stop_at = updating })
stop_on updating s = some (record s { stop_at = draining s.active_jobs })
stop_on (draining ps) s =
    if all_ended ps s.active_jobs then some (record s { stop_at = joining }) else none
stop_on joining s = elim s.at [ ended ↦ some (record s { stop_at = deregistering }) | _ ↦ none ]
stop_on deregistering s = some (record s { stop_at = stopped })
stop_on stopped s = none

abbrev timeout_on : StopPoint → LoopState → Option LoopState
timeout_on (draining ps) s = some (record s { stop_at = joining })
timeout_on _ s = none

-- What an event makes of the state; `none` when it cannot happen there.
unfoldable pub step : LoopState → Event → Option LoopState
step s go_on = loop_on s.at s
step s pull_failed = fail_on s.at s
step s (pulled r) = pull_on s.at r s
step s (settled n) =
    if is_active n s.active_jobs
    then some (record s { active_jobs = drop_promise n s.active_jobs })
    else none
step s stop = stop_on s.stop_at s
step s timeout = timeout_on s.stop_at s

-- `start` with no job at hand.
abbrev pub started : Number → LoopState
started concurrency = record {
  concurrency = concurrency;
  stop_requested = false;
  active_jobs = [];
  launched = 0;
  at = testing;
  stop_at = not_called;
}

-- The states that a worker can reach, by any events in any order.
pub data Reach (c : Number) : LoopState → Type 0 where
  start : Reach c (started c)
  next : {s t : LoopState} (e : Event) → Reach c s → step s e ≡ some t → Reach c t
