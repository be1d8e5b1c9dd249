-- ===== src/Dashboard/Feed/Delivery.antt =====
-- From the events that are published to what a dashboard shows.
use nexus_queue.Prelude.{true, false, Option, List, map}
use nexus_queue.Prelude.Texts.{Text}
use nexus_queue.Services.Redis.{JobEvent}
use nexus_queue.Server.EventBus.{Client}
use nexus_queue.Server.EventBus
use nexus_queue.Dashboard.ThroughputChart.{Signal, event}
use nexus_queue.Dashboard.Feed.{Live, mounted, on_messages}

-- An open client, and one that is not.
abbrev pub open_client : List Text → Client
open_client ms = record { is_open = true; sent = ms }

abbrev pub shut_client : List Text → Client
shut_client ms = record { is_open = false; sent = ms }

-- The signals of the chart.
abbrev pub signals : List JobEvent → List Signal
signals es = map (λ e. event e.type) es

-- What a dashboard shows whose socket was sent these messages.
abbrev pub seen : (Text → Option JobEvent) → Client → Live
seen parse c = on_messages parse c.sent mounted
