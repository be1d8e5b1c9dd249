-- ===== src/Worker/Scheduler.antt =====
-- worker/src/scheduler.ts: promoting delayed jobs and firing cron jobs.
use nexus_queue.Prelude.{ℕ, [], ◌∷◌}
use nexus_queue.Prelude.Tests.{◌==◌, if◌then◌else◌, or_else}
use nexus_queue.Prelude.Texts.{Text, text}
use nexus_queue.Shared.Types.{Status, status_text}
use nexus_queue.Shared.Keys
use nexus_queue.Services.Reply.{Field}
use nexus_queue.Services.Redis.{lpush, hset, hget, zrem, zrange_until, smembers}
use nexus_queue.Program.{
  Prog, ret, ◌>>=◌, ◌>>◌, for_each, command, ask_text, ask_texts, ask_number, now,
}

-- One due job: only the scheduler whose ZREM removed it goes on.
abbrev pub promote_rest : Text → Text → Prog (Unit {0})
promote_rest queue_name job_id = do
  p ← ask_text (hget (Keys.job job_id) Field.priority)
  command (lpush (Keys.target_list queue_name (or_else p (text "normal"))) job_id)
  command (hset (Keys.job job_id) ((Field.status, status_text Status.pending) ∷ []))

unfoldable pub promote_job : Text → Text → Prog (Unit {0})
promote_job queue_name job_id = do
  removed ← ask_number (zrem (Keys.delayed queue_name) job_id)
  if removed == 0 then ret tt else promote_rest queue_name job_id

unfoldable pub promote_queue : ℕ → Text → Prog (Unit {0})
unfolding promote_job
promote_queue time queue_name = do
  due_jobs ← ask_texts (zrange_until (Keys.delayed queue_name) time)
  for_each (promote_job queue_name) due_jobs

unfoldable pub promote_delayed_jobs : Prog (Unit {0})
unfolding promote_queue
promote_delayed_jobs = do
  queues ← ask_texts (smembers Keys.queue_registry)
  time ← now
  for_each (promote_queue time) queues
