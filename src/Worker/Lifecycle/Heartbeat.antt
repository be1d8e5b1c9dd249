-- ===== src/Worker/Lifecycle/Heartbeat.antt =====
-- The heartbeat and the janitor: worker/src/worker.ts and worker/src/janitor.ts.
use nexus_queue.Prelude.{
  ℕ, ◌+◌, ◌*◌, ◌<◌, ◌≡◌, refl, ap, ◌∙◌, true, false, Option, none, some, [], arith,
}
use nexus_queue.Prelude.Tests.{ltb, ◌==◌, if◌then◌else◌}
use nexus_queue.Prelude.Texts.{Text, same, same_refl}
use nexus_queue.Prelude.Decimal.{to_string}
use nexus_queue.Shared.Keys.{keys}
use nexus_queue.Shared.Keys
use nexus_queue.Services.Reply.{integer}
use nexus_queue.Services.Redis.{execute, exists, live}
use nexus_queue.Program.{ret, as_number, ◌>>=◌}
use nexus_queue.Program.Steps.{calm_step}
use nexus_queue.Program.Transfer.{view, view_result, run-view}
use nexus_queue.Program.World.{Backend, World, ok, documented, run, after, calm, state}
use nexus_queue.Worker.Handlers.{Runtime}
use nexus_queue.Worker.Pulling.{Worker}
use nexus_queue.Worker.Lifecycle.{start, write_heartbeat}
use nexus_queue.Worker.Janitor.{check_worker, recover_worker}

meta-ne-heartbeat : (a b : Text) → same (Keys.worker_meta a) (Keys.heartbeat b) ≡ false
unfolding keys
meta-ne-heartbeat a b = refl

module _ (uuid : ℕ → Text) (id : Text) (w : World (documented uuid)) where
  exists-live :
      (e : Option Text)
      → live w.clock (w.redis_state.strings (Keys.heartbeat id)) ≡ e
      → execute (exists (Keys.heartbeat id)) w.clock w.redis_state
        ≡ (w.redis_state, elim e [ none ↦ integer 0 | some v ↦ integer 1 ])
  unfolding execute
  exists-live e h = rw h refl

  spared :
      (v : Text)
      → live w.clock (w.redis_state.strings (Keys.heartbeat id)) ≡ some v
      → run (documented uuid) (check_worker id) (calm w) ≡ (ok tt, calm w)
  unfolding check_worker
  spared v h =
      calm_step uuid _
        (λ r. as_number r >>= λ alive. if alive == 0 then recover_worker id else ret tt) w _ _
        (exists-live (some v) h)

module _ (uuid : ℕ → Text) (rt : Runtime) (worker : Worker rt) (w : World (documented uuid)) where
  -- The worker is known to live until 15 seconds from the world's clock.
  abbrev Beating : World (documented uuid) → Type 0
  Beating v =
      (v.redis_state.strings (Keys.heartbeat worker.worker_id)
        ≡ some (record { value = to_string w.clock; expires = w.clock + 15 * 1000 }))
      × (v.clock ≡ w.clock)

  start-Beating : Beating (after (documented uuid) (start rt worker false) (calm w))
  unfolding start execute
  start-Beating = (rw (same_refl (Keys.heartbeat worker.worker_id)) refl, refl)

  write_heartbeat-Beating :
      (n : ℕ) → Beating (after (documented uuid) (write_heartbeat rt worker n) (calm w))
  unfolding write_heartbeat execute
  write_heartbeat-Beating n = (rw (same_refl (Keys.heartbeat worker.worker_id)) refl, refl)

  known_alive :
      (v : World (documented uuid)) (d : ℕ)
      → Beating v
      → d < 15000
      → live (v.clock + d) (v.redis_state.strings (Keys.heartbeat worker.worker_id))
        ≡ some (to_string w.clock)
  known_alive v d (e, c) lt =
      rw (e, c) (ap (λ b. if b then some (to_string w.clock) else none) (in_time w.clock d lt))
    where
      in_time : (t d : ℕ) → d < 15000 → ltb (t + d) (t + 15 * 1000) ≡ true
      in_time t d lt = ground arith

-- With nothing failing and nobody interfering: after a worker has started, and again after each of
-- its heartbeats, a check of that worker by the janitor less than 15 seconds later changes nothing.
pub heartbeat_protects :
    (b : Backend) (rt : Runtime) (worker : Worker rt) (active_jobs d : ℕ) (w : World b)
    → d < 15000
    → let started = after b (start rt worker false) (calm w) in
      let beaten = after b (write_heartbeat rt worker active_jobs) (calm w) in
      let later1 = record started { clock = started.clock + d; plan = [] } in
      let later2 = record beaten { clock = beaten.clock + d; plan = [] } in
      (view_result b (run b (check_worker worker.worker_id) later1) ≡ (ok tt, view later1))
      × (view_result b (run b (check_worker worker.worker_id) later2) ≡ (ok tt, view later2))
heartbeat_protects b rt worker n d w lt = (
  check (after b (start rt worker false) (calm w)) (
      ap (λ x. live (x.1.clock + d) (x.1.redis_state.strings (Keys.heartbeat worker.worker_id)))
        (run-view b (start rt worker false) (calm w))
      ∙ known_alive b.uuid rt worker (view w)
          (after (documented b.uuid) (start rt worker false) (calm (view w))) d
          (start-Beating b.uuid rt worker (view w)) lt),
  check (after b (write_heartbeat rt worker n) (calm w)) (
      ap (λ x. live (x.1.clock + d) (x.1.redis_state.strings (Keys.heartbeat worker.worker_id)))
        (run-view b (write_heartbeat rt worker n) (calm w))
      ∙ known_alive b.uuid rt worker (view w)
          (after (documented b.uuid) (write_heartbeat rt worker n) (calm (view w))) d
          (write_heartbeat-Beating b.uuid rt worker (view w) n) lt),
)
  where
    check :
        (v : World b)
        → live (v.clock + d) ((state v).strings (Keys.heartbeat worker.worker_id))
          ≡ some (to_string w.clock)
        → view_result b
            (run b (check_worker worker.worker_id) (record v { clock = v.clock + d; plan = [] }))
          ≡ (ok tt, view (record v { clock = v.clock + d; plan = [] }))
    check v e =
        run-view b (check_worker worker.worker_id) (record v { clock = v.clock + d; plan = [] })
        ∙ spared b.uuid worker.worker_id (view (record v { clock = v.clock + d; plan = [] })) _ e
