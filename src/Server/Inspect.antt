-- ===== src/Server/Inspect.antt =====
-- server/src/routes.ts: the routes that read dead letters and workers. `Promise.all` asks one after
-- the other.
pub mod Limits
use nexus_queue.Prelude.{ℕ, zero, ◌+◌, Bool, true, false, Option, none, some, List, [], ◌∷◌, map}
use nexus_queue.Prelude.Tests.{if◌then◌else◌, or_else}
use nexus_queue.Prelude.Texts.{Text, text, same, is_empty}
use nexus_queue.Prelude.Decimal.{Number, int, to_number}
use nexus_queue.Prelude.Int.{ℤ, pos, negsuc, ◌+ℤ◌, leb_ℤ, to_int}
use nexus_queue.Shared.Types.{Status, status_text}
use nexus_queue.Shared.Keys
use nexus_queue.Shared.Db.{get_job}
use nexus_queue.Services.Reply.{Field, Hash, Row}
use nexus_queue.Services.Redis.{llen, lrange, smembers, get}
use nexus_queue.Services.Postgres.{count_rows, page_rows, count_statuses}
use nexus_queue.Program.{
  Prog, ret, throw, sql, call, ◌>>=◌, map_each, ask_number, ask_text, ask_texts, as_number, as_rows,
  as_counts, hgetall,
}
use nexus_queue.Worker.Handlers.{Runtime}
use nexus_queue.Server.Reads.{limit_of, offset_of}

module _ (rt : Runtime) where
  -- A dead-lettered job as the inspector shows it, from its hash.
  pub record DlqJob : Type 0 where
    pub id : Text
    pub queue_name : Text
    pub job_name : Text
    pub payload : Option rt.Json
    pub status : Text
    pub attempts : Number
    pub max_attempts : Number
    pub error_message : Option Text
    pub created_at : Option Text
    pub started_at : Option Text
    pub completed_at : Option Text

  abbrev number_field : Option Text → Number
  number_field none = int 0
  number_field (some t) = to_number t

  -- `value || null`
  abbrev set_or_null : Option Text → Option Text
  set_or_null none = none
  set_or_null (some t) = if is_empty t then none else some t

  abbrev pub dlq_job : Text → Text → Hash → Option rt.Json → DlqJob
  dlq_job name id h payload = record {
    id = or_else (h Field.id) id;
    queue_name = or_else (h Field.queue_name) name;
    job_name = or_else (h Field.job_name) [];
    payload = payload;
    status = or_else (h Field.status) (text "dlq");
    attempts = number_field (h Field.attempts);
    max_attempts = number_field (h Field.max_attempts);
    error_message = set_or_null (h Field.error_message);
    created_at = h Field.created_at;
    started_at = set_or_null (h Field.started_at);
    completed_at = set_or_null (h Field.completed_at);
  }

  -- `payload ? JSON.parse(payload) : null`
  abbrev parse_or_throw : Option rt.Json → Prog (Option rt.Json)
  parse_or_throw none = throw (text "SyntaxError")
  parse_or_throw (some v) = ret (some v)

  abbrev pub parse_payload : Option Text → Prog (Option rt.Json)
  parse_payload none = ret none
  parse_payload (some t) = if is_empty t then ret none else parse_or_throw (rt.parse t)

  unfoldable pub show_dlq_job : Text → Text → Prog DlqJob
  show_dlq_job name id = do
    h ← hgetall (Keys.job id)
    payload ← parse_payload (h Field.payload)
    ret (dlq_job name id h payload)

  -- `GET /queues/:name/dlq`
  unfoldable pub list_dlq : Text → Option Text → Option Text → Prog (List DlqJob × ℕ)
  unfolding show_dlq_job ◌+ℤ◌
  list_dlq name limit offset = do
    total ← ask_number (llen (Keys.dlq name))
    job_ids ←
        ask_texts (
          lrange (Keys.dlq name) (offset_of offset)
            (offset_of offset +ℤ limit_of limit +ℤ negsuc 0))
    jobs ← map_each (show_dlq_job name) job_ids
    ret (jobs, total)

pub record WorkerInfo : Type 0 where
  pub id : Text
  pub status : Text
  pub queue : Text
  pub started_at : Option Text
  pub current_jobs : Number
  pub last_heartbeat : Option Number

abbrev heartbeat_number : Option Text → Option Number
heartbeat_number none = none
heartbeat_number (some t) = if is_empty t then none else some (to_number t)

unfoldable pub worker_info : Text → Prog WorkerInfo
worker_info id = do
  meta ← hgetall (Keys.worker_meta id)
  heartbeat ← ask_text (get (Keys.heartbeat id))
  ret (record {
    id = id;
    status = or_else (meta Field.status) (text "unknown");
    queue = or_else (meta Field.queue) [];
    started_at = meta Field.started_at;
    current_jobs = to_number (or_else (meta Field.current_jobs) (text "0"));
    last_heartbeat = heartbeat_number heartbeat;
  })

-- `GET /workers`
unfoldable pub list_workers : Prog (List WorkerInfo)
unfolding worker_info
list_workers = do
  worker_ids ← ask_texts (smembers Keys.worker_registry)
  map_each worker_info worker_ids
