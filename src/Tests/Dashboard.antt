-- ===== src/Tests/Dashboard.antt =====
-- The theorems on the dashboard's socket at concrete inputs.
use nexus_queue.Prelude.{◌≤◌, refl}
use nexus_queue.Dashboard.Socket.{
  WebSocketManager, initial, returns, throws, closed, timer, connect, step,
}
use nexus_queue.Dashboard.Socket.Single.{Reach, first, next, Kept, one_socket}

-- The second reconnect waits, for four seconds after it.
abbrev waiting : WebSocketManager
waiting = record initial { reconnect_delay = 4000; made = 1; timers = 1 }

-- The socket closes, and the first reconnect fails.
waits : Reach waiting
unfolding step connect
waits = next (timer throws) (next (closed 0) (first returns) (λ e. cc) refl) (λ e. cc) refl

one_socket_example :
    Kept waiting × (1000 ≤ waiting.reconnect_delay) × (waiting.reconnect_delay ≤ 30000)
one_socket_example = one_socket waits
