-- ===== src/Program/Steps.antt =====
-- A single request when nothing fails and nobody interferes.
use nexus_queue.Prelude.{ℕ, ◌≡◌, ap}
use nexus_queue.Prelude.Texts.{Text}
use nexus_queue.Services.Reply.{Reply}
use nexus_queue.Services.Redis.{Keyspace, Command, execute}
use nexus_queue.Program.{Prog, redis, call}
use nexus_queue.Program.World.{World, documented, run, calm}

module _ (uuid : ℕ → Text) {A : Type 0} where
  -- One Redis command whose effect and reply are known.
  pub calm_step :
      (c : Command) (k : Reply → Prog A) (w : World (documented uuid)) (s : Keyspace) (r : Reply)
      → execute c w.clock w.redis_state ≡ (s, r)
      → run (documented uuid) (call (redis c) k) (calm w)
        ≡ run (documented uuid) (k r) (calm (record w { redis_state = s }))
  calm_step c k w s r e =
      ap (λ x. run (documented uuid) (k x.1) (record (calm w) { redis_state = x.0 })) e
