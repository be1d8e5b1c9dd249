-- ===== src/Server/Reads.antt =====
-- server/src/routes.ts: the routes that read queues and jobs. `Promise.all` asks one after the other.
pub mod Paging
pub mod Counting
use nexus_queue.Prelude.{ℕ, zero, ◌+◌, Bool, true, false, Option, none, some, List, [], ◌∷◌, map}
use nexus_queue.Prelude.Tests.{if◌then◌else◌, or_else}
use nexus_queue.Prelude.Texts.{Text, text, same, is_empty}
use nexus_queue.Prelude.Decimal.{Number, int, to_number}
use nexus_queue.Prelude.Int.{ℤ, pos, negsuc, ◌+ℤ◌, leb_ℤ, to_int}
use nexus_queue.Shared.Types.{Status, status_text}
use nexus_queue.Shared.Keys
use nexus_queue.Shared.Db.{get_job}
use nexus_queue.Services.Reply.{Field, Hash, Row}
use nexus_queue.Services.Redis.{llen, lrange, smembers, get}
use nexus_queue.Services.Postgres.{count_rows, page_rows, count_statuses}
use nexus_queue.Program.{
  Prog, ret, throw, sql, call, ◌>>=◌, map_each, ask_number, ask_text, ask_texts, as_number, as_rows,
  as_counts, hgetall,
}
use nexus_queue.Worker.Handlers.{Runtime}

pub record QueueStats : Type 0 where
  pub name : Text
  pub pending : ℕ
  pub active : ℕ
  pub completed : ℕ
  pub failed : ℕ
  pub dlq : ℕ

-- The loop over the rows of the grouped counts.
abbrev pub put_count : Status × ℕ → QueueStats → QueueStats
put_count (Status.completed, n) q = record q { completed = n }
put_count (Status.failed, n) q = record q { failed = n }
put_count (Status.dlq, n) q = record q { dlq = n }
put_count (s, n) q = q

abbrev pub put_counts : List (Status × ℕ) → QueueStats → QueueStats
put_counts [] q = q
put_counts (c ∷ cs) q = put_counts cs (put_count c q)

abbrev pub counted_statuses : List Status
counted_statuses = Status.completed ∷ Status.failed ∷ Status.dlq ∷ []

unfoldable pub queue_stats : Text → Prog QueueStats
queue_stats name = do
  normal_len ← ask_number (llen (Keys.queue name))
  high_len ← ask_number (llen (Keys.queue_priority name (text "high")))
  low_len ← ask_number (llen (Keys.queue_priority name (text "low")))
  active ← call (sql (count_rows name (some Status.active))) as_number
  found ← call (sql (count_statuses name counted_statuses)) as_counts
  ret (
      put_counts found (record {
        name = name;
        pending = normal_len + high_len + low_len;
        active = active;
        completed = 0;
        failed = 0;
        dlq = 0;
      }))

-- `GET /queues`
unfoldable pub list_queues : Prog (List QueueStats)
unfolding queue_stats
list_queues = do
  queue_names ← ask_texts (smembers Keys.queue_registry)
  map_each queue_stats queue_names

-- `Number(value) || fallback`, for a value that is a whole number or no number.
abbrev number_or : ℕ → Option ℤ → ℤ
number_or fallback none = pos fallback
number_or fallback (some (pos zero)) = pos fallback
number_or fallback (some n) = n

abbrev query_number : ℕ → Option Text → ℤ
query_number fallback none = pos fallback
query_number fallback (some t) = number_or fallback (to_int t)

-- `Math.min(Number(limit) || 50, 200)`
abbrev pub limit_of : Option Text → ℤ
limit_of q = let n = query_number 50 q in if leb_ℤ n (pos 200) then n else pos 200

abbrev pub offset_of : Option Text → ℤ
offset_of q = query_number 0 q

-- The status of a query, if it is one of the six.
abbrev status_in : Text → List Status → Option Status
status_in t [] = none
status_in t (s ∷ ss) = if same t (status_text s) then some s else status_in t ss

abbrev valid_statuses : List Status
valid_statuses =
    Status.pending ∷ Status.active ∷ Status.completed ∷ Status.failed ∷ Status.dlq ∷ Status.delayed
    ∷ []

-- What a query's status asks for: nothing, one status, or an invalid one.
pub data Filter : Type 0 where
  by : Option Status → Filter
  invalid : Filter

abbrev of_status : Option Status → Filter
of_status none = invalid
of_status (some s) = by (some s)

abbrev pub filter_of : Option Text → Filter
filter_of none = by none
filter_of (some t) = if is_empty t then by none else of_status (status_in t valid_statuses)

module _ (rt : Runtime) where
  -- A job as the routes show it.
  pub record JobView : Type 0 where
    pub id : Text
    pub queue_name : Text
    pub job_name : Text
    pub payload : Text
    pub status : Status
    pub attempts : ℕ
    pub max_attempts : ℕ
    pub error_message : Option Text
    pub created_at : Text
    pub started_at : Option Text
    pub completed_at : Option Text

  abbrev iso_or_null : Option ℕ → Option Text
  iso_or_null none = none
  iso_or_null (some t) = some (rt.iso t)

  abbrev pub view_row : Row → JobView
  view_row r = record {
    id = r.id;
    queue_name = r.queue_name;
    job_name = r.job_name;
    payload = r.payload;
    status = r.status;
    attempts = r.attempts;
    max_attempts = r.max_attempts;
    error_message = r.error_message;
    created_at = rt.iso r.created_at;
    started_at = iso_or_null r.started_at;
    completed_at = iso_or_null r.completed_at;
  }

  pub data JobsAnswer : Type 0 where
    invalid_status : JobsAnswer
    page : List JobView → ℕ → JobsAnswer

  -- `GET /queues/:name/jobs`, once its status is read.
  unfoldable pub list_page : Text → Option Status → ℤ → ℤ → Prog JobsAnswer
  list_page name status limit offset = do
    total ← call (sql (count_rows name status)) as_number
    rows ← call (sql (page_rows name status limit offset)) as_rows
    ret (page (map view_row rows) total)

  abbrev pub filtered : Text → Filter → ℤ → ℤ → Prog JobsAnswer
  filtered name invalid limit offset = ret invalid_status
  filtered name (by status) limit offset = list_page name status limit offset

  unfoldable pub list_jobs : Text → Option Text → Option Text → Option Text → Prog JobsAnswer
  unfolding list_page
  list_jobs name status limit offset =
      filtered name (filter_of status) (limit_of limit) (offset_of offset)

  pub data JobAnswer : Type 0 where
    missing_id not_found : JobAnswer
    found : JobView → JobAnswer

  abbrev pub show_row : Option Row → JobAnswer
  show_row none = not_found
  show_row (some r) = found (view_row r)

  -- `GET /jobs/:id`
  unfoldable pub read_job : Text → Prog JobAnswer
  read_job id = if is_empty id then ret missing_id else (get_job id >>= λ r. ret (show_row r))
