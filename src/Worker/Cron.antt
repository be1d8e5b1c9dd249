-- ===== src/Worker/Cron.antt =====
-- worker/src/cron.ts, and the firing of cron jobs of worker/src/scheduler.ts.
pub mod Definitions
pub mod Fired
pub mod Firing
use nexus_queue.Prelude.{ℕ, ◌||◌, Option, none, some, List, [], ◌∷◌}
use nexus_queue.Prelude.Tests.{◌==◌, if◌then◌else◌, or_else}
use nexus_queue.Prelude.Texts.{Text, text, is_empty}
use nexus_queue.Prelude.Decimal.{Number, int, to_number}
use nexus_queue.Shared.Types.{Status, status_text}
use nexus_queue.Shared.Keys
use nexus_queue.Services.Reply.{Field, Hash}
use nexus_queue.Services.Redis.{lpush, hset, zadd, zrem, zrange_until, zrange_all, sadd, del}
use nexus_queue.Services.Postgres.{NewRow, insert}
use nexus_queue.Program.{
  Prog, ret, throw, multi, sql, ◌>>=◌, ◌>>◌, for_each, request, command, ask_texts, ask_number,
  hgetall, now, fresh_id,
}
use nexus_queue.Worker.Handlers.{Runtime}
use nexus_queue.Worker.Pulling.{truthy}
use nexus_queue.Worker.Process.{number_text}
use nexus_queue.Worker.Scheduler.{promote_delayed_jobs}

-- A library call that throws when it has no result.
abbrev pub or_throw : {A : Type 0} → Option A → Text → Prog A
or_throw none e = throw e
or_throw (some a) e = ret a

module _ (rt : Runtime) where
  -- A payload of `none` is one that is missing or null, which `payload ?? {}` does not tell apart.
  pub record CronJobDef : Type 0 where
    pub cron_id : Text
    pub job_name : Text
    pub payload : Option rt.Json
    pub cron_expression : Text
    pub queue : Option Text
    pub max_attempts : Option Number
    pub priority : Option Text

  -- The hash of a new job.
  abbrev pub job_fields : Text → Text → Text → Text → Text → Text → Text → ℕ → List (Field × Text)
  job_fields id queue_name job_name payload status max_attempts priority time =
      (Field.id, id)
      ∷ (Field.queue_name, queue_name)
      ∷ (Field.job_name, job_name)
      ∷ (Field.payload, payload)
      ∷ (Field.status, status)
      ∷ (Field.attempts, text "0")
      ∷ (Field.max_attempts, max_attempts)
      ∷ (Field.priority, priority)
      ∷ (Field.error_message, [])
      ∷ (Field.created_at, rt.iso time)
      ∷ (Field.started_at, [])
      ∷ (Field.completed_at, [])
      ∷ []

-- `next_run` is the package cron-parser: the next time that an expression names after a time, or
-- nothing when it throws.
module _ (rt : Runtime) (next_run : Text → ℕ → Option ℕ) where
  abbrev pub definition_fields : CronJobDef rt → List (Field × Text)
  definition_fields d =
      (Field.cron_id, d.cron_id)
      ∷ (Field.job_name, d.job_name)
      ∷ (Field.payload, rt.stringify (or_else d.payload rt.empty_object))
      ∷ (Field.cron_expression, d.cron_expression)
      ∷ (Field.queue, or_else d.queue (text "default"))
      ∷ (Field.max_attempts, number_text (or_else d.max_attempts (int 3)))
      ∷ (Field.priority, or_else d.priority (text "normal"))
      ∷ []

  unfoldable pub add_job : CronJobDef rt → Prog (Unit {0})
  add_job d = do
    time ← now
    next ← or_throw (next_run d.cron_expression time) (text "invalid cron expression")
    command (hset (Keys.cron_def d.cron_id) (definition_fields d))
    command (zadd Keys.cron_schedule (int next) d.cron_id)

  unfoldable pub remove_job : Text → Prog (Unit {0})
  remove_job cron_id = do
    command (del (Keys.cron_def cron_id))
    command (zrem Keys.cron_schedule cron_id)

  abbrev pub parsed_payload : Option Text → Option rt.Json
  parsed_payload none = some rt.empty_object
  parsed_payload (some t) = if is_empty t then some rt.empty_object else rt.parse t

  abbrev given_text : Option Text → Option Text
  given_text none = none
  given_text (some t) = if is_empty t then none else some t

  -- The options of a stored definition are there when one of them is.
  abbrev listed_attempts : Option Text → Option Text → Option Number
  listed_attempts a p =
      if truthy a then some (to_number (or_else a [])) else if truthy p then some (int 3) else none

  abbrev listed_priority : Option Text → Option Text → Option Text
  listed_priority a p = if truthy a || truthy p then some (or_else p (text "normal")) else none

  abbrev listed : Hash → rt.Json → CronJobDef rt
  listed h payload = record {
    cron_id = or_else (h Field.cron_id) [];
    job_name = or_else (h Field.job_name) [];
    payload = some payload;
    cron_expression = or_else (h Field.cron_expression) [];
    queue = given_text (h Field.queue);
    max_attempts = listed_attempts (h Field.max_attempts) (h Field.priority);
    priority = listed_priority (h Field.max_attempts) (h Field.priority);
  }

  abbrev pub read_fields : Hash → Prog (Option (CronJobDef rt))
  read_fields h =
      if truthy (h Field.cron_id)
      then (or_throw (parsed_payload (h Field.payload)) (text "SyntaxError") >>= λ payload.
          ret (some (listed h payload)))
      else ret none

  -- The definition that the loop of `listJobs` reads for an id.
  unfoldable pub read_definition : Text → Prog (Option (CronJobDef rt))
  read_definition cron_id = do h ← hgetall (Keys.cron_def cron_id); read_fields h

  abbrev keep_some : Option (CronJobDef rt) → List (CronJobDef rt) → List (CronJobDef rt)
  keep_some none ds = ds
  keep_some (some d) ds = d ∷ ds

  abbrev read_all : List Text → Prog (List (CronJobDef rt))
  read_all [] = ret []
  read_all (cron_id ∷ cron_ids) =
      read_definition cron_id >>= λ d. read_all cron_ids >>= λ ds. ret (keep_some d ds)

  unfoldable pub list_jobs : Prog (List (CronJobDef rt))
  unfolding read_definition
  list_jobs = do cron_ids ← ask_texts (zrange_all Keys.cron_schedule); read_all cron_ids

  abbrev pub fired_row : Text → Text → Text → Text → Text → Text → NewRow
  fired_row id queue_name job_name payload max_attempts priority = record {
    id = id;
    queue_name = queue_name;
    job_name = job_name;
    payload = payload;
    status = Status.pending;
    max_attempts = to_number max_attempts;
    idempotency_key = none;
    priority = some priority;
    delayed_until = none;
  }

  -- A new job in both stores.
  abbrev pub store_fired : Text → Hash → rt.Json → Prog (Unit {0})
  store_fired cron_id h payload = do
    let queue_name = or_else (h Field.queue) (text "default")
    let job_name = or_else (h Field.job_name) cron_id
    id ← fresh_id
    time ← now
    let max_attempts = or_else (h Field.max_attempts) (text "3")
    let priority = or_else (h Field.priority) (text "normal")
    request (
        sql
          (insert (fired_row id queue_name job_name (rt.stringify payload) max_attempts priority)))
    request (
        multi (
          sadd Keys.queue_registry queue_name
          ∷ hset (Keys.job id) (
              job_fields rt id queue_name job_name (rt.stringify payload)
                (status_text Status.pending) max_attempts priority time)
          ∷ lpush (Keys.target_list queue_name priority) id
          ∷ []))

  abbrev pub reschedule : Text → Hash → ℕ → Prog (Unit {0})
  reschedule cron_id h next = do
    command (zadd Keys.cron_schedule (int next) cron_id)
    payload ← or_throw (parsed_payload (h Field.payload)) (text "payload JSON parse error")
    store_fired cron_id h payload

  abbrev pub fire_defined : Text → Hash → Prog (Unit {0})
  fire_defined cron_id h = do
    time ← now
    next ←
        or_throw (next_run (or_else (h Field.cron_expression) []) time)
          (text "invalid cron expression")
    reschedule cron_id h next

  abbrev pub fire_rest : Text → Prog (Unit {0})
  fire_rest cron_id = do
    h ← hgetall (Keys.cron_def cron_id)
    if truthy (h Field.cron_expression) then fire_defined cron_id h else ret tt

  unfoldable pub fire_entry : Text → Prog (Unit {0})
  fire_entry cron_id = do
    removed ← ask_number (zrem Keys.cron_schedule cron_id)
    if removed == 0 then ret tt else fire_rest cron_id

  unfoldable pub fire_cron_jobs : Prog (Unit {0})
  unfolding fire_entry
  fire_cron_jobs = do
    time ← now
    due_entries ← ask_texts (zrange_until Keys.cron_schedule time)
    for_each fire_entry due_entries

  -- One tick of the scheduler.
  unfoldable pub tick : Prog (Unit {0})
  unfolding fire_cron_jobs promote_delayed_jobs
  tick = do promote_delayed_jobs; fire_cron_jobs
