-- ===== src/Dashboard/JobTable.antt =====
-- dashboard/src/components/JobTable.tsx: the window of the latest events, and its filters.
pub mod Window
use nexus_queue.Prelude.{ℕ, Bool, true, false, ◌&&◌, ◌||◌, not, List, [], ◌∷◌, map}
use nexus_queue.Prelude.Tests.{if◌then◌else◌}
use nexus_queue.Prelude.Texts.{Text, same, is_empty}
use nexus_queue.Prelude.Lists.{take, has}
use nexus_queue.Services.Redis.{JobEvent}

pub record JobTable : Type 0 where
  pub events : List JobEvent
  pub filter_queue : Text
  pub filter_status : Text

abbrev pub initial : JobTable
initial = record { events = []; filter_queue = []; filter_status = [] }

-- The listener of the effect.
unfoldable pub on_event : JobEvent → JobTable → JobTable
on_event e t = record t { events = take 100 (e ∷ t.events) }

-- `[...new Set(xs)]`: what stood before is not put in again.
abbrev pub distinct_after : List Text → List Text → List Text
distinct_after seen [] = []
distinct_after seen (x ∷ xs) =
    let rest = distinct_after (x ∷ seen) xs in if has x seen then rest else x ∷ rest

abbrev pub distinct : List Text → List Text
distinct xs = distinct_after [] xs

abbrev pub queues : JobTable → List Text
queues t = distinct (map (λ e. e.queue_name) t.events)

abbrev pub statuses : JobTable → List Text
statuses t = distinct (map (λ e. e.type) t.events)

-- Whether an event passes the filters; an empty filter passes all.
abbrev pub passes : JobTable → JobEvent → Bool
passes t e =
    if not (is_empty t.filter_queue) && not (same e.queue_name t.filter_queue)
    then false
    else not (not (is_empty t.filter_status) && not (same e.type t.filter_status))

abbrev pub keep : (JobEvent → Bool) → List JobEvent → List JobEvent
keep p [] = []
keep p (e ∷ es) = let rest = keep p es in if p e then e ∷ rest else rest

unfoldable pub filtered : JobTable → List JobEvent
filtered t = keep (passes t) t.events
