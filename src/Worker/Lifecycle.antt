-- ===== src/Worker/Lifecycle.antt =====
-- worker/src/worker.ts: what a worker writes about itself when it starts, lives and stops.
pub mod Heartbeat
use nexus_queue.Prelude.{ℕ, Bool, true, false, List, [], ◌∷◌}
use nexus_queue.Prelude.Tests.{if◌then◌else◌}
use nexus_queue.Prelude.Texts.{Text, text, same}
use nexus_queue.Prelude.Decimal.{to_string}
use nexus_queue.Shared.Types.{RateLimitConfig}
use nexus_queue.Shared.Keys
use nexus_queue.Services.Reply.{Field}
use nexus_queue.Services.Redis.{sadd, srem, set_ex, hset, del}
use nexus_queue.Program.{Prog, ret, throw, ◌>>=◌, ◌>>◌, command, now}
use nexus_queue.Worker.Handlers.{Runtime}
use nexus_queue.Worker.Pulling.{Worker}

-- `Map.set`: in place of the entry with this key, or at the end.
abbrev pub map_set {ℓ} : {V : Type ℓ} → List (Text × V) → Text → V → List (Text × V)
map_set [] k v = (k, v) ∷ []
map_set ((j, u) ∷ m) k v =
    let rest = map_set m k v in if same j k then (j, v) ∷ m else (j, u) ∷ rest

module _ (rt : Runtime) where
  unfoldable pub set_rate_limit : Worker rt → Text → RateLimitConfig → Worker rt
  set_rate_limit w queue config = record w { rate_limits = map_set w.rate_limits queue config }

  -- The key that tells that the worker lives, for 15 seconds.
  unfoldable pub beat : Worker rt → Prog (Unit {0})
  beat w = do time ← now; command (set_ex (Keys.heartbeat w.worker_id) (to_string time) 15)

  unfoldable pub write_heartbeat : Worker rt → ℕ → Prog (Unit {0})
  unfolding beat
  write_heartbeat w active_jobs = do
    beat w
    command (hset (Keys.worker_meta w.worker_id) ((Field.current_jobs, to_string active_jobs) ∷ []))

  -- `start` up to its timer and its loop; its second argument is the field `running`.
  unfoldable pub start : Worker rt → Bool → Prog (Unit {0})
  unfolding beat
  start w running = if running then throw (text "worker already started") else do
    command (sadd Keys.worker_registry w.worker_id)
    beat w
    time ← now
    command (
        hset (Keys.worker_meta w.worker_id) (
          (Field.status, text "active")
          ∷ (Field.queue, w.queue)
          ∷ (Field.started_at, rt.iso time)
          ∷ (Field.current_jobs, text "0")
          ∷ []))

  -- The start of `stop`, and its end when the jobs and the loop are done.
  unfoldable pub drain : Worker rt → Prog (Unit {0})
  drain w = command (hset (Keys.worker_meta w.worker_id) ((Field.status, text "draining") ∷ []))

  unfoldable pub deregister : Worker rt → Prog (Unit {0})
  deregister w = do
    command (srem Keys.worker_registry w.worker_id)
    command (del (Keys.heartbeat w.worker_id))
    command (del (Keys.worker_meta w.worker_id))
