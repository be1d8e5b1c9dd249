-- ===== src/Server/Producer.antt =====
-- server/src/producer.ts.
pub mod Created
pub mod Enqueue
pub mod NoPayload
pub mod Stores
use nexus_queue.Prelude.{ℕ, ◌+◌, Bool, Option, none, some, [], ◌∷◌}
use nexus_queue.Prelude.Tests.{ltb, if◌then◌else◌, or_else}
use nexus_queue.Prelude.Texts.{Text, text, is_empty}
use nexus_queue.Prelude.Decimal.{int, to_string}
use nexus_queue.Shared.Types.{Status, status_text, Priority, priority_text, EnqueueOptions}
use nexus_queue.Shared.Keys
use nexus_queue.Shared.Db.{insert_pending_job, insert_delayed_job}
use nexus_queue.Services.Redis.{lpush, hset, zadd, sadd, get, set_ex, publish}
use nexus_queue.Program.{
  Prog, ret, throw, multi, ◌>>=◌, ◌>>◌, request, command, ask_text, now, fresh_id,
}
use nexus_queue.Worker.Handlers.{Runtime}
use nexus_queue.Worker.Cron.{job_fields}

abbrev default_queue : Text
default_queue = text "default"

abbrev default_max_attempts : ℕ
default_max_attempts = 3

-- An empty key is no key.
abbrev pub given : Option Text → Option Text
given none = none
given (some t) = if is_empty t then none else some t

abbrev pub delay_of : Option ℕ → ℕ
delay_of o = or_else o 0

-- `has_bus` tells whether an event bus was given.
module _ (rt : Runtime) (has_bus : Bool) where
  abbrev pub queue_of : EnqueueOptions → Text
  queue_of o = or_else o.queue default_queue

  abbrev pub attempts_of : EnqueueOptions → ℕ
  attempts_of o = or_else o.max_attempts default_max_attempts

  abbrev pub priority_of : EnqueueOptions → Text
  priority_of o = priority_text (or_else o.priority Priority.normal)

  -- The delayed path: the row, then the hash and the sorted set.
  unfoldable pub store_delayed : Text → Text → rt.Json → EnqueueOptions → ℕ → ℕ → Prog (Unit {0})
  store_delayed id job_name payload o created delay = do
    time ← now
    let due_at = time + delay
    insert_delayed_job (record {
      id = id;
      queue_name = queue_of o;
      job_name = job_name;
      payload = rt.stringify payload;
      max_attempts = int (attempts_of o);
      delayed_until = due_at;
      priority = some (priority_of o);
    })
    request (
        multi (
          sadd Keys.queue_registry (queue_of o)
          ∷ hset (Keys.job id) (
              job_fields rt id (queue_of o) job_name (rt.stringify payload)
                (status_text Status.delayed) (to_string (attempts_of o)) (priority_of o) created)
          ∷ zadd (Keys.delayed (queue_of o)) (int due_at) id
          ∷ []))

  -- The immediate path: the row, then the hash and the queue.
  unfoldable pub store_pending : Text → Text → rt.Json → EnqueueOptions → ℕ → Prog (Unit {0})
  store_pending id job_name payload o created = do
    insert_pending_job (record {
      id = id;
      queue_name = queue_of o;
      job_name = job_name;
      payload = rt.stringify payload;
      max_attempts = int (attempts_of o);
      idempotency_key = given o.idempotency_key;
    })
    request (
        multi (
          sadd Keys.queue_registry (queue_of o)
          ∷ hset (Keys.job id) (
              job_fields rt id (queue_of o) job_name (rt.stringify payload)
                (status_text Status.pending) (to_string (attempts_of o)) (priority_of o) created)
          ∷ lpush (Keys.target_list (queue_of o) (priority_of o)) id
          ∷ []))

  abbrev remember : Option Text → Text → Prog (Unit {0})
  remember none id = ret tt
  remember (some key) id = command (set_ex (Keys.idempotency key) id 86400)

  abbrev emit : Text → Text → Text → Prog (Unit {0})
  emit id job_name queue_name = do
    time ← now
    command (
        publish (record {
          type = text "job.created";
          job_id = id;
          job_name = job_name;
          queue_name = queue_name;
          timestamp = time;
          error_message = none;
        }))

  -- What follows when the job is stored.
  unfoldable pub finish : Option Text → Text → Text → Text → Prog Text
  finish key id job_name queue_name = do
    remember key id
    if has_bus then emit id job_name queue_name else ret tt
    ret id

  -- A new job, after the idempotency check.
  unfoldable pub create : Text → rt.Json → EnqueueOptions → Prog Text
  unfolding store_delayed store_pending finish
  create job_name payload o = do
    id ← fresh_id
    created ← now
    if ltb 0 (delay_of o.delay)
        then store_delayed id job_name payload o created (delay_of o.delay)
        else store_pending id job_name payload o created
    finish (given o.idempotency_key) id job_name (queue_of o)

  -- The id that an idempotency key already stands for.
  abbrev pub existing : Option Text → Prog (Option Text)
  existing none = ret none
  existing (some key) = ask_text (get (Keys.idempotency key))

  abbrev pub return_or_create : Text → rt.Json → EnqueueOptions → Option Text → Prog Text
  return_or_create job_name payload o none = create job_name payload o
  return_or_create job_name payload o (some id) = ret id

  unfoldable pub enqueue : Text → rt.Json → EnqueueOptions → Prog Text
  unfolding create
  enqueue job_name payload o =
      if is_empty job_name
      then throw (text "enqueue: jobName must be a non-empty string")
      else (existing (given o.idempotency_key) >>= λ found.
          return_or_create job_name payload o (given found))
