-- ===== src/Dashboard/Socket.antt =====
-- dashboard/src/ws.ts: the socket that the dashboard shares, as a state machine. Sockets are numbered
-- in the order in which they are made.
pub mod Single
use nexus_queue.Prelude.{
  ℕ, ◌+◌, ◌*◌, ◌-◌, ◌≡◌, min, Bool, true, false, ◌||◌, Option, none, some, List, [], ◌∷◌,
}
use nexus_queue.Prelude.Tests.{◌==◌, if◌then◌else◌}

-- `sockets` are those that can still call back, `timers` the reconnects that are due.
pub record WebSocketManager : Type 0 where
  pub ws : Option ℕ
  pub reconnect_delay : ℕ
  pub should_reconnect : Bool
  pub made : ℕ
  pub sockets : List ℕ
  pub timers : ℕ

abbrev max_reconnect_delay : ℕ
max_reconnect_delay = 30000

abbrev pub initial : WebSocketManager
initial = record {
  ws = none;
  reconnect_delay = 1000;
  should_reconnect = true;
  made = 0;
  sockets = [];
  timers = 0;
}

-- `new WebSocket` returns a socket, or throws.
pub data Opening : Type 0 where
  returns throws : Opening

-- What the browser or a component of the dashboard does.
pub data Event : Type 0 where
  disconnected : Event
  subscribed timer : Opening → Event
  opened closed failed : ℕ → Event

abbrev retry_later : WebSocketManager → WebSocketManager
retry_later m =
    if m.should_reconnect
    then record m {
      timers = m.timers + 1;
      reconnect_delay = min (m.reconnect_delay * 2) max_reconnect_delay;
    }
    else m

abbrev open_socket : Opening → WebSocketManager → WebSocketManager
open_socket returns m = record m {
  ws = some m.made;
  made = m.made + 1;
  sockets = m.made ∷ m.sockets;
}
open_socket throws m = retry_later (record m { ws = none })

abbrev connect_from : Option ℕ → Opening → WebSocketManager → WebSocketManager
connect_from (some n) o m = m
connect_from none o m = open_socket o (record m { should_reconnect = true })

unfoldable pub connect : Opening → WebSocketManager → WebSocketManager
connect o m = connect_from m.ws o m

abbrev pub is_open : ℕ → List ℕ → Bool
is_open n [] = false
is_open n (m ∷ ms) = (m == n) || is_open n ms

abbrev pub drop_socket : ℕ → List ℕ → List ℕ
drop_socket n [] = []
drop_socket n (m ∷ ms) = let rest = drop_socket n ms in if m == n then ms else m ∷ rest

unfoldable pub disconnect : WebSocketManager → WebSocketManager
disconnect m = record m { should_reconnect = false; ws = none }

-- `subscribe` connects when there is no socket.
abbrev subscribe : Opening → WebSocketManager → WebSocketManager
subscribe o m = connect o m

abbrev on_open : WebSocketManager → WebSocketManager
on_open m = record m { reconnect_delay = 1000 }

abbrev pub on_close : ℕ → WebSocketManager → WebSocketManager
on_close n m = retry_later (record m { ws = none; sockets = drop_socket n m.sockets })

-- `none` where the event cannot happen. An error only asks for the close that follows it.
unfoldable pub step : WebSocketManager → Event → Option WebSocketManager
unfolding connect disconnect
step m disconnected = some (disconnect m)
step m (subscribed o) = some (subscribe o m)
step m (timer o) =
    if m.timers == 0 then none else some (connect o (record m { timers = m.timers - 1 }))
step m (opened n) = if is_open n m.sockets then some (on_open m) else none
step m (closed n) = if is_open n m.sockets then some (on_close n m) else none
step m (failed n) = if is_open n m.sockets then some m else none

-- A sequence of events.
abbrev pub steps : List Event → WebSocketManager → Option WebSocketManager
steps [] m = some m
steps (e ∷ es) m = elim (step m e) [ none ↦ none | some m' ↦ steps es m' ]
