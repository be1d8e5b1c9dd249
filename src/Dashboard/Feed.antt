-- ===== src/Dashboard/Feed.antt =====
-- dashboard/src/ws.ts: the messages of the socket and its listeners, which on the page Dashboard are
-- those of JobTable.tsx and ThroughputChart.tsx.
pub mod Delivery
use nexus_queue.Prelude.{Option, none, some, List, [], ◌∷◌}
use nexus_queue.Prelude.Texts.{Text}
use nexus_queue.Services.Redis.{JobEvent}
use nexus_queue.Dashboard.JobTable.{JobTable, on_event}
use nexus_queue.Dashboard.JobTable
use nexus_queue.Dashboard.ThroughputChart.{Chart, event, react}
use nexus_queue.Dashboard.ThroughputChart

pub record Live : Type 0 where
  pub table : JobTable
  pub chart : Chart

abbrev pub mounted : Live
mounted = record { table = JobTable.initial; chart = ThroughputChart.initial }

-- The listeners, in the order in which they subscribed.
unfoldable pub notify : JobEvent → Live → Live
notify e v = record { table = on_event e v.table; chart = react v.chart (event e.type) }

module _ (parse : Text → Option JobEvent) where
  abbrev pub notified : Option JobEvent → Live → Live
  notified none v = v
  notified (some e) v = notify e v

  -- `onmessage`: a message that cannot be parsed is left out.
  unfoldable pub on_message : Text → Live → Live
  unfolding notify
  on_message message v = notified (parse message) v

  abbrev pub on_messages : List Text → Live → Live
  on_messages [] v = v
  on_messages (m ∷ ms) v = on_messages ms (on_message m v)
