-- ===== src/Server/Routes.antt =====
-- server/src/routes.ts: retrying jobs, and putting dead-lettered jobs back.
pub mod Requeue
pub mod Emptying
pub mod Retry
use nexus_queue.Prelude.{ℕ, ◌+◌, Bool, true, false, Option, none, some, List, [], ◌∷◌}
use nexus_queue.Prelude.Tests.{if◌then◌else◌, or_else}
use nexus_queue.Prelude.Texts.{Text, text}
use nexus_queue.Shared.Types.{Status, status_text}
use nexus_queue.Shared.Keys
use nexus_queue.Shared.Db.{get_job, mark_job_pending_for_retry}
use nexus_queue.Services.Reply.{Field, Row}
use nexus_queue.Services.Redis.{lpush, lrem, lrange_all, hset, publish}
use nexus_queue.Program.{Prog, ret, ◌>>=◌, ◌>>◌, try_catch, command, ask_texts, hgetall, now}

-- The body of a requeue request.
pub record RequeueBody : Type 0 where
  pub job_ids : Option (List Text)
  pub all : Bool

-- What a retry request is answered.
pub data RetryAnswer : Type 0 where
  not_found not_retriable success : RetryAnswer

pub data RequeueAnswer : Type 0 where
  invalid_request : RequeueAnswer
  counted : ℕ → ℕ → RequeueAnswer

-- The fields of a job that starts over.
abbrev pub fresh : List (Field × Text)
fresh =
    (Field.status, status_text Status.pending)
    ∷ (Field.attempts, text "0")
    ∷ (Field.started_at, [])
    ∷ (Field.completed_at, [])
    ∷ (Field.error_message, [])
    ∷ []

abbrev pub retriable : Status → Bool
retriable Status.failed = true
retriable Status.dlq = true
retriable _ = false

-- `has_bus` tells whether an event bus was given.
module _ (has_bus : Bool) where
  abbrev tell : Text → Text → Text → Prog (Unit {0})
  tell id job_name queue_name =
      if has_bus
      then (now >>= λ time. command (
          publish (record {
            type = text "job.retried";
            job_id = id;
            job_name = job_name;
            queue_name = queue_name;
            timestamp = time;
            error_message = none;
          })))
      else ret tt

  -- `POST /jobs/:id/retry`, for a job that failed or is dead-lettered.
  unfoldable pub retry_found : Text → Row → Prog RetryAnswer
  retry_found id job = do
    mark_job_pending_for_retry id
    command (hset (Keys.job id) fresh)
    command (lrem (Keys.dlq job.queue_name) 0 id)
    h ← hgetall (Keys.job id)
    command
        (lpush (Keys.target_list job.queue_name (or_else (h Field.priority) (text "normal"))) id)
    tell id job.job_name job.queue_name
    ret success

  abbrev pub retry_row : Text → Option Row → Prog RetryAnswer
  retry_row id none = ret not_found
  retry_row id (some job) = if retriable job.status then retry_found id job else ret not_retriable

  unfoldable pub retry : Text → Prog RetryAnswer
  unfolding retry_found
  retry id = do job ← get_job id; retry_row id job

  -- One job of `POST /queues/:name/dlq/requeue`, inside its `try`.
  unfoldable pub requeue_one : Text → Text → Prog (Unit {0})
  requeue_one name id = do
    mark_job_pending_for_retry id
    command (hset (Keys.job id) fresh)
    command (lrem (Keys.dlq name) 1 id)
    h ← hgetall (Keys.job id)
    command (lpush (Keys.target_list name (or_else (h Field.priority) (text "normal"))) id)
    tell id (or_else (h Field.job_name) []) name

  -- The loop, with the counts of requeued and failed jobs.
  unfoldable pub requeue_all : Text → List Text → ℕ → ℕ → Prog RequeueAnswer
  unfolding requeue_one
  requeue_all name [] requeued failed = ret (counted requeued failed)
  requeue_all name (id ∷ ids) requeued failed = do
    done ← try_catch (requeue_one name id >> ret true) (λ message. ret false)
    elim done [
      | true ↦ requeue_all name ids (requeued + 1) failed
      | false ↦ requeue_all name ids requeued (failed + 1)
    ]

  abbrev requeue_some : Text → Option (List Text) → Prog RequeueAnswer
  requeue_some name none = ret invalid_request
  requeue_some name (some ids) = requeue_all name ids 0 0

  unfoldable pub requeue : Text → RequeueBody → Prog RequeueAnswer
  unfolding requeue_all
  requeue name body =
      if body.all
      then (ask_texts (lrange_all (Keys.dlq name)) >>= λ ids. requeue_all name ids 0 0)
      else requeue_some name body.job_ids
