-- ===== src/Worker/Janitor.antt =====
-- worker/src/janitor.ts: recovering the jobs of dead workers.
use nexus_queue.Prelude.{[], ◌∷◌}
use nexus_queue.Prelude.Tests.{◌==◌, if◌then◌else◌, or_else}
use nexus_queue.Prelude.Texts.{Text, text}
use nexus_queue.Shared.Types.{Status, status_text}
use nexus_queue.Shared.Keys
use nexus_queue.Shared.Db.{mark_job_pending_for_retry}
use nexus_queue.Services.Reply.{Field, Hash}
use nexus_queue.Services.Redis.{lpush, lrange_all, hset, srem, smembers, exists, del}
use nexus_queue.Program.{Prog, ret, ◌>>=◌, ◌>>◌, for_each, command, ask_texts, ask_number, hgetall}

-- An orphaned job back to its queue, by its hash.
unfoldable pub put_back : Text → Hash → Prog (Unit {0})
put_back job_id h = do
  let queue_name = or_else (h Field.queue_name) (text "default")
  let priority = or_else (h Field.priority) (text "normal")
  command (lpush (Keys.target_list queue_name priority) job_id)
  command (
      hset (Keys.job job_id) (
        (Field.status, status_text Status.pending)
        ∷ (Field.started_at, [])
        ∷ (Field.completed_at, [])
        ∷ []))
  mark_job_pending_for_retry job_id

-- One orphaned job goes back to its queue.
unfoldable pub requeue_orphan : Text → Prog (Unit {0})
unfolding put_back
requeue_orphan job_id = do h ← hgetall (Keys.job job_id); put_back job_id h

-- A dead worker: its jobs first, then its keys.
unfoldable pub recover_worker : Text → Prog (Unit {0})
unfolding requeue_orphan
recover_worker worker_id = do
  orphans ← ask_texts (lrange_all (Keys.processing worker_id))
  for_each requeue_orphan orphans
  command (del (Keys.processing worker_id))
  command (srem Keys.worker_registry worker_id)
  command (del (Keys.worker_meta worker_id))

unfoldable pub check_worker : Text → Prog (Unit {0})
unfolding recover_worker
check_worker worker_id = do
  alive ← ask_number (exists (Keys.heartbeat worker_id))
  if alive == 0 then recover_worker worker_id else ret tt

unfoldable pub tick : Prog (Unit {0})
unfolding check_worker
tick = do worker_ids ← ask_texts (smembers Keys.worker_registry); for_each check_worker worker_ids
