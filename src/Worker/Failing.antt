-- ===== src/Worker/Failing.antt =====
-- Where a failed job goes: worker/src/worker.ts.
use nexus_queue.Prelude.{ℕ, ◌+◌, ◌≡◌, refl, none, some, [], ◌∷◌, map}
use nexus_queue.Prelude.Tests.{if◌then◌else◌}
use nexus_queue.Prelude.Texts.{Text, text, same, update}
use nexus_queue.Prelude.Decimal.{Number, int}
use nexus_queue.Prelude.Lists.{remove_n}
use nexus_queue.Shared.Keys.{keys}
use nexus_queue.Shared.Keys
use nexus_queue.Shared.Db.{db}
use nexus_queue.Shared.Types.{Status, status_text}
use nexus_queue.Services.Reply.{Field, Hash}
use nexus_queue.Services.Redis.{Keyspace, execute, put_fields, zset_insert, zset_remove}
use nexus_queue.Services.Postgres.{query}
use nexus_queue.Program.World.{World, ok, documented, run}
use nexus_queue.Worker.Handlers.{Runtime, get}
use nexus_queue.Worker.Pulling.{Worker}
use nexus_queue.Worker.Process.{
  number_text, next_attempt, dead_letter, dispatch, start_job, proceed, process_one, backoff,
  retry_later, settle_failure, handle_failure,
}

module _ (uuid : ℕ → Text) (rt : Runtime) (worker : Worker rt) (id : Text)
    (w : World (documented uuid)) where
  abbrev pub quiet : World (documented uuid)
  quiet = record w { plan = [] }

  abbrev pub s : Keyspace
  s = w.redis_state

  abbrev pub job_hash : Hash
  job_hash = s.hashes (Keys.job id)

  -- After a failure that is retried.
  unfoldable pub retried : Text → ℕ → World (documented uuid)
  retried queue_name a = record quiet {
    redis_state = record s {
      hashes = update s.hashes (Keys.job id) (
          put_fields job_hash (
            (Field.status, status_text Status.delayed)
            ∷ (Field.started_at, [])
            ∷ (Field.completed_at, [])
            ∷ (Field.error_message, [])
            ∷ []));
      zsets = update s.zsets (Keys.delayed queue_name) (
          zset_insert id (backoff a + w.clock)
            (zset_remove id (s.zsets (Keys.delayed queue_name))));
      lists =
          update s.lists (Keys.processing worker.worker_id)
            (remove_n 1 id (s.lists (Keys.processing worker.worker_id)));
    };
    postgres_state =
        map
          (λ r.
            if same r.id id
            then record r { status = Status.delayed; started_at = none; completed_at = none }
            else r)
          w.postgres_state;
  }

  pub retry_later-run :
      (queue_name : Text) (a : ℕ)
      → run (documented uuid) (retry_later rt worker id (int a) queue_name) quiet
        ≡ (ok tt, retried queue_name a)
  unfolding retry_later execute query db retried
  retry_later-run queue_name a = refl

  pub handle_failure-run :
      (message : Text)
      → run (documented uuid) (handle_failure rt worker id message) quiet
        ≡ run (documented uuid) (settle_failure rt worker id message job_hash) quiet
  unfolding handle_failure execute
  handle_failure-run message = refl

  -- After a failure with no attempt left.
  unfoldable pub buried : Text → Text → Text → World (documented uuid)
  buried queue_name job_name message = record quiet {
    redis_state = record s {
      hashes = update s.hashes (Keys.job id) (
          put_fields job_hash (
            (Field.status, status_text Status.dlq)
            ∷ (Field.completed_at, rt.iso w.clock)
            ∷ (Field.error_message, message)
            ∷ []));
      lists =
          let pushed = update s.lists (Keys.dlq queue_name) (id ∷ s.lists (Keys.dlq queue_name)) in
          update pushed (Keys.processing worker.worker_id)
            (remove_n 1 id (pushed (Keys.processing worker.worker_id)));
      channel =
          record {
            type = text "job.dlq";
            job_id = id;
            job_name = job_name;
            queue_name = queue_name;
            timestamp = w.clock;
            error_message = some message;
          }
          ∷ s.channel;
    };
    postgres_state =
        map
          (λ r.
            if same r.id id
            then record r {
              status = Status.dlq;
              completed_at = some w.clock;
              error_message = some message;
            }
            else r)
          w.postgres_state;
  }

  pub dead_letter-run :
      (queue_name job_name message : Text)
      → run (documented uuid) (dead_letter rt worker id message queue_name job_name) quiet
        ≡ (ok tt, buried queue_name job_name message)
  unfolding dead_letter execute query db buried
  dead_letter-run queue_name job_name message = refl

  -- When the job has become active.
  unfoldable pub begun : Text → Text → Number → World (documented uuid)
  begun job_name queue_name attempts = record quiet {
    redis_state = record s {
      hashes = update s.hashes (Keys.job id) (
          put_fields job_hash (
            (Field.status, status_text Status.active)
            ∷ (Field.started_at, rt.iso w.clock)
            ∷ (Field.attempts, number_text attempts)
            ∷ []));
      channel =
          record {
            type = text "job.started";
            job_id = id;
            job_name = job_name;
            queue_name = queue_name;
            timestamp = w.clock;
            error_message = none;
          }
          ∷ s.channel;
    };
    postgres_state =
        map
          (λ r.
            if same r.id id
            then record r {
              status = Status.active;
              started_at = some w.clock;
              attempts = r.attempts + 1;
            }
            else r)
          w.postgres_state;
  }

  pub start_job-run :
      (job_name queue_name : Text)
      → run (documented uuid) (start_job rt worker id job_name queue_name job_hash) quiet
        ≡ run
            (documented uuid)
            (dispatch rt worker id job_name
              (next_attempt rt worker job_hash)
              (job_hash Field.payload)
              (get rt worker.handlers job_name))
            (begun job_name queue_name (next_attempt rt worker job_hash))
  unfolding start_job execute query db begun
  start_job-run job_name queue_name = refl

  pub process_one-run :
      run (documented uuid) (process_one rt worker id) quiet
      ≡ run (documented uuid) (proceed rt worker id job_hash) quiet
  unfolding process_one execute
  process_one-run = refl
