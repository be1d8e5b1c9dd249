-- ===== src/Server/EventBus.antt =====
-- server/src/websocket.ts: the messages of the event channel go on to the sockets. A client is its
-- ready state and what was sent to it, in order; the server is subscribed, and Redis gives it each
-- message.
use nexus_queue.Prelude.{Bool, List, [], ◌∷◌, ◌++◌, map}
use nexus_queue.Prelude.Tests.{if◌then◌else◌}
use nexus_queue.Prelude.Texts.{Text}
use nexus_queue.Services.Redis.{JobEvent}

pub record Client : Type 0 where
  pub is_open : Bool
  pub sent : List Text

abbrev send_if_open : Text → Client → Client
send_if_open message c = if c.is_open then record c { sent = c.sent ++ message ∷ [] } else c

-- The handler of the subscriber's messages.
unfoldable pub on_message : Text → List Client → List Client
on_message message clients = map (send_if_open message) clients

module _ (stringify : JobEvent → Text) where
  -- What is published reaches the handler.
  unfoldable pub publish : JobEvent → List Client → List Client
  unfolding on_message
  publish e clients = on_message (stringify e) clients

  abbrev pub publish_all : List JobEvent → List Client → List Client
  publish_all [] clients = clients
  publish_all (e ∷ es) clients = publish_all es (publish e clients)
