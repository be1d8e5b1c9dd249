-- ===== src/Worker/Process.antt =====
-- worker/src/worker.ts: running a job and settling its outcome.
use nexus_queue.Prelude.{ℕ, zero, suc, ◌*◌, ◌^◌, min, Option, none, some, [], ◌∷◌, ◌++◌}
use nexus_queue.Prelude.Tests.{if◌then◌else◌, or_else}
use nexus_queue.Prelude.Texts.{Text, text, is_empty}
use nexus_queue.Prelude.Decimal.{Number, nan, int, number_ge, number_add, to_string, to_number}
use nexus_queue.Shared.Types.{Status, status_text, RateLimitConfig}
use nexus_queue.Shared.Keys
use nexus_queue.Shared.Db.{mark_job_active, mark_job_completed, mark_job_dlq, mark_job_delayed}
use nexus_queue.Services.Reply.{Field, Hash}
use nexus_queue.Services.Redis.{JobEvent, lpush, lrem, hset, zadd, publish}
use nexus_queue.Program.{
  Prog, ret, throw, multi, sleep, handling, ◌>>=◌, ◌>>◌, try_catch, ignore_errors, request, command,
  hgetall, now,
}
use nexus_queue.Worker.Handlers.{Runtime, JobHandler, get}
use nexus_queue.Worker.RateLimiter.{Delay, ms, unbounded, check_limit_fallback}
use nexus_queue.Worker.Pulling.{
  truthy, map_get, Worker, priority_order, get_priority_order, try_priorities, pull_job,
}

-- `number` as text: `String(n)` of a number that may be NaN.
abbrev pub number_text : Number → Text
number_text nan = text "NaN"
number_text (int n) = to_string n

-- `Math.min(1000 * Math.pow(2, attempts - 1), 30000)`: half of 1000 when no attempt is counted.
unfoldable pub backoff : ℕ → ℕ
backoff zero = min 500 30000
backoff (suc n) = min (1000 * 2 ^ n) 30000

abbrev backoff_number : Number → Number
backoff_number nan = nan
backoff_number (int n) = int (backoff n)

abbrev due_at : ℕ → Number → Number
due_at time d = number_add d time

module _ (rt : Runtime) (w : Worker rt) where
  abbrev pub event : Text → Text → Text → Text → Option Text → ℕ → JobEvent
  event type job_id job_name queue_name message time = record {
    type = type;
    job_id = job_id;
    job_name = job_name;
    queue_name = queue_name;
    timestamp = time;
    error_message = message;
  }

  -- `publish(...).catch(() => {})`: the time of the event is read outside the `catch`.
  abbrev pub announce : (ℕ → JobEvent) → Prog (Unit {0})
  announce e = do time ← now; ignore_errors (command (publish (e time)))

  -- ACK: the job leaves the worker's processing list.
  abbrev acknowledge : Text → Prog (Unit {0})
  acknowledge job_id = command (lrem (Keys.processing w.worker_id) 1 job_id)

  unfoldable pub complete : Text → Prog (Unit {0})
  complete job_id = do
    mark_job_completed job_id
    time ← now
    command (
        hset (Keys.job job_id) (
          (Field.status, status_text Status.completed)
          ∷ (Field.completed_at, rt.iso time)
          ∷ (Field.error_message, [])
          ∷ []))
    acknowledge job_id
    h ← hgetall (Keys.job job_id)
    announce (
        event (text "job.completed") job_id (or_else (h Field.job_name) [])
          (or_else (h Field.queue_name) w.queue) none)

  -- The DLQ path of `handleFailure`.
  unfoldable pub dead_letter : Text → Text → Text → Text → Prog (Unit {0})
  dead_letter job_id message queue_name job_name = do
    mark_job_dlq job_id message
    time ← now
    command (
        hset (Keys.job job_id) (
          (Field.status, status_text Status.dlq)
          ∷ (Field.completed_at, rt.iso time)
          ∷ (Field.error_message, message)
          ∷ []))
    command (lpush (Keys.dlq queue_name) job_id)
    acknowledge job_id
    announce (event (text "job.dlq") job_id job_name queue_name (some message))

  -- The retry path of `handleFailure`.
  unfoldable pub retry_later : Text → Number → Text → Prog (Unit {0})
  retry_later job_id attempts queue_name = do
    time ← now
    mark_job_delayed job_id
    command (
        hset (Keys.job job_id) (
          (Field.status, status_text Status.delayed)
          ∷ (Field.started_at, [])
          ∷ (Field.completed_at, [])
          ∷ (Field.error_message, [])
          ∷ []))
    command (zadd (Keys.delayed queue_name) (due_at time (backoff_number attempts)) job_id)
    acknowledge job_id

  abbrev counted : Option Text → Text → Number
  counted o d = to_number (or_else o d)

  -- `handleFailure`, once the hash is read.
  unfoldable pub settle_failure : Text → Text → Hash → Prog (Unit {0})
  settle_failure job_id message h =
      let attempts = counted (h Field.attempts) (text "0") in
      let max_attempts = counted (h Field.max_attempts) (text "3") in
      let queue_name = or_else (h Field.queue_name) (text "default") in
      if number_ge attempts max_attempts
      then dead_letter job_id message queue_name (or_else (h Field.job_name) [])
      else retry_later job_id attempts queue_name

  unfoldable pub handle_failure : Text → Text → Prog (Unit {0})
  handle_failure job_id message = do h ← hgetall (Keys.job job_id); settle_failure job_id message h

  -- The handler runs while other processes go on; it throws its own message.
  abbrev pub await_handler : Option Text → Prog (Unit {0})
  await_handler outcome = do
    request handling
    elim outcome [ none ↦ ret tt | some message ↦ throw message ]

  abbrev pub parsed : Option Text → Option rt.Json
  parsed none = some rt.empty_object
  parsed (some t) = if is_empty t then some rt.empty_object else rt.parse t

  abbrev execute_handler : Text → Text → Number → JobHandler rt → rt.Json → Prog (Unit {0})
  execute_handler job_id job_name attempt handler payload =
      try_catch
        (do
          await_handler (
              handler payload (record {
                job_id = job_id;
                job_name = job_name;
                attempt = attempt;
                worker_id = w.worker_id;
              }))
          complete job_id)
        (λ message. handle_failure job_id message)

  unfoldable pub run_handler :
      Text → Text → Number → JobHandler rt → Option rt.Json → Prog (Unit {0})
  run_handler job_id job_name attempt handler none =
      handle_failure job_id (text "payload JSON parse error")
  run_handler job_id job_name attempt handler (some payload) =
      execute_handler job_id job_name attempt handler payload

  -- From the lookup of the handler on.
  unfoldable pub dispatch :
      Text → Text → Number → Option Text → Option (JobHandler rt) → Prog (Unit {0})
  dispatch job_id job_name attempt payload none =
      handle_failure job_id (text "no handler registered for jobName=\"" ++ (job_name ++ text "\""))
  dispatch job_id job_name attempt payload (some handler) =
      run_handler job_id job_name attempt handler (parsed payload)

  abbrev pub next_attempt : Hash → Number
  next_attempt h = number_add (counted (h Field.attempts) (text "0")) 1

  -- The transition to 'active' in both stores, and what follows.
  unfoldable pub start_job : Text → Text → Text → Hash → Prog (Unit {0})
  start_job job_id job_name queue_name h = do
    mark_job_active job_id
    time ← now
    command (
        hset (Keys.job job_id) (
          (Field.status, status_text Status.active)
          ∷ (Field.started_at, rt.iso time)
          ∷ (Field.attempts, number_text (next_attempt h))
          ∷ []))
    announce (event (text "job.started") job_id job_name queue_name none)
    dispatch job_id job_name (next_attempt h) (h Field.payload) (get rt w.handlers job_name)

  abbrev wait : Delay → Prog (Unit {0})
  wait (ms n) = request (sleep n)
  wait unbounded = request (sleep 1)

  -- A denied job goes back to its queue in one transaction, and the slot sleeps.
  unfoldable pub give_back : Text → Text → Hash → Delay → Prog (Unit {0})
  give_back job_id queue_name h delay = do
    request (
        multi (
          lrem (Keys.processing w.worker_id) 1 job_id
          ∷ lpush (Keys.target_list queue_name (or_else (h Field.priority) (text "normal"))) job_id
          ∷ []))
    wait delay

  abbrev pub gate : Text → Text → Text → Hash → Option RateLimitConfig → Prog (Unit {0})
  gate job_id job_name queue_name h none = start_job job_id job_name queue_name h
  gate job_id job_name queue_name h (some config) = do
    limit ← check_limit_fallback queue_name config
    if limit.allowed
        then start_job job_id job_name queue_name h
        else give_back job_id queue_name h limit.retry_after

  -- Once the hash is read; a hash with no job name is skipped.
  unfoldable pub proceed : Text → Hash → Prog (Unit {0})
  proceed job_id h =
      let queue_name = or_else (h Field.queue_name) w.queue in
      if truthy (h Field.job_name)
      then gate job_id (or_else (h Field.job_name) []) queue_name h
          (map_get w.rate_limits queue_name)
      else ret tt

  unfoldable pub process_one : Text → Prog (Unit {0})
  process_one job_id = do h ← hgetall (Keys.job job_id); proceed job_id h

-- Opens the whole worker.
unfoldable pub worker_code : Unit {0}
unfolding backoff priority_order get_priority_order try_priorities pull_job complete dead_letter
    retry_later settle_failure handle_failure run_handler dispatch start_job give_back proceed
    process_one check_limit_fallback get
worker_code = tt
