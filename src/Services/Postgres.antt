-- ===== src/Services/Postgres.antt =====
-- The SQL statements that the program sends, and their documented effect on the table `jobs` of
-- infra/postgres/001_init.sql to 003_scheduling.sql.
use nexus_queue.Prelude.{
  ℕ, ◌+◌, Bool, true, false, ◌&&◌, ◌||◌, Option, none, some, List, [], ◌∷◌, map,
}
use nexus_queue.Prelude.Tests.{leb, ◌==◌, if◌then◌else◌, or_else}
use nexus_queue.Prelude.Texts.{Text, text, same}
use nexus_queue.Prelude.Decimal.{Number, nan, int}
use nexus_queue.Prelude.Int.{ℤ, pos, negsuc}
use nexus_queue.Prelude.Lists.{length, take, drop}
use nexus_queue.Shared.Types.{Status, status_text}
use nexus_queue.Services.Reply.{Row, Reply, done, row, rows, integer, counts, failure}

-- The columns that an INSERT gives; the others take their defaults.
pub record NewRow : Type 0 where
  pub id : Text
  pub queue_name : Text
  pub job_name : Text
  pub payload : Text
  pub status : Status
  pub max_attempts : Number
  pub idempotency_key : Option Text
  pub priority : Option Text
  pub delayed_until : Option ℕ

-- One assignment of an UPDATE's SET list.
pub data Assignment : Type 0 where
  status_is : Status → Assignment
  started_at_now started_at_null completed_at_now completed_at_null : Assignment
  attempts_plus_one error_message_null : Assignment
  error_message_is : Text → Assignment

pub data Statement : Type 0 where
  insert : NewRow → Statement
  -- an INSERT whose payload is NULL
  insert_null_payload : Statement
  update_row : Text → List Assignment → Statement
  select : Text → Statement
  -- the rows of a queue, all or of one status: how many, and a page from the newest on
  count_rows : Text → Option Status → Statement
  page_rows : Text → Option Status → ℤ → ℤ → Statement
  count_statuses : Text → List Status → Statement

abbrev pub assign : ℕ → Assignment → Row → Row
assign now (status_is s) r = record r { status = s }
assign now started_at_now r = record r { started_at = some now }
assign now started_at_null r = record r { started_at = none }
assign now completed_at_now r = record r { completed_at = some now }
assign now completed_at_null r = record r { completed_at = none }
assign now attempts_plus_one r = record r { attempts = r.attempts + 1 }
assign now error_message_null r = record r { error_message = none }
assign now (error_message_is m) r = record r { error_message = some m }

abbrev pub assign_all : ℕ → List Assignment → Row → Row
assign_all now [] r = r
assign_all now (a ∷ as') r = assign_all now as' (assign now a r)

abbrev pub find_row : Text → List Row → Option Row
find_row id [] = none
find_row id (r ∷ rs) = if same r.id id then some r else find_row id rs

abbrev pub same_status : Status → Status → Bool
same_status a b = same (status_text a) (status_text b)

abbrev pub status_fits : Option Status → Status → Bool
status_fits none s = true
status_fits (some t) s = same_status t s

abbrev pub rows_of : Text → Option Status → List Row → List Row
rows_of name status [] = []
rows_of name status (r ∷ rs) =
    let rest = rows_of name status rs in
    if same r.queue_name name && status_fits status r.status then r ∷ rest else rest

-- `ORDER BY created_at DESC`
abbrev pub insert_newest : Row → List Row → List Row
insert_newest r [] = r ∷ []
insert_newest r (x ∷ xs) =
    let rest = insert_newest r xs in if leb x.created_at r.created_at then r ∷ x ∷ xs else x ∷ rest

abbrev pub newest_first : List Row → List Row
newest_first [] = []
newest_first (r ∷ rs) = insert_newest r (newest_first rs)

abbrev page_of : ℤ → ℤ → List Row → Reply
page_of (pos limit) (pos offset) rs = rows (take limit (drop offset rs))
page_of (negsuc l) o rs = failure (text "LIMIT must not be negative")
page_of l (negsuc o) rs = failure (text "OFFSET must not be negative")

-- `GROUP BY status`: a status with no row is left out.
abbrev pub status_counts : Text → List Status → List Row → List (Status × ℕ)
status_counts name [] rs = []
status_counts name (s ∷ ss) rs =
    let rest = status_counts name ss rs in
    let n = length (rows_of name (some s) rs) in if n == 0 then rest else (s, n) ∷ rest

abbrev same_key : Option Text → Option Text → Bool
same_key none k = false
same_key (some j) none = false
same_key (some j) (some k) = same j k

-- A row with this primary key, or with this idempotency key if there is one.
abbrev pub clashes : Text → Option Text → List Row → Bool
clashes id key [] = false
clashes id key (r ∷ rs) = (same r.id id || same_key key r.idempotency_key) || clashes id key rs

abbrev pub fill : ℕ → ℕ → NewRow → Row
fill now max n = record {
  id = n.id;
  queue_name = n.queue_name;
  job_name = n.job_name;
  payload = n.payload;
  status = n.status;
  attempts = 0;
  max_attempts = max;
  error_message = none;
  created_at = now;
  started_at = none;
  completed_at = none;
  idempotency_key = n.idempotency_key;
  priority = or_else n.priority (text "normal");
  delayed_until = n.delayed_until;
}

abbrev insert_row : Number → ℕ → NewRow → List Row → List Row × Reply
insert_row nan now n rs = (rs, failure (text "invalid input syntax for type integer"))
insert_row (int max) now n rs =
    if clashes n.id n.idempotency_key rs
    then (rs, failure (text "duplicate key value violates unique constraint"))
    else (fill now max n ∷ rs, done)

unfoldable pub query : Statement → ℕ → List Row → List Row × Reply
query (insert n) now rs = insert_row n.max_attempts now n rs
query insert_null_payload now rs = (
  rs,
  failure
      (text "null value in column \"payload\" of relation \"jobs\" violates not-null constraint"),
)
query (update_row id as') now rs =
    (map (λ r. if same r.id id then assign_all now as' r else r) rs, done)
query (select id) now rs = (rs, row (find_row id rs))
query (count_rows name status) now rs = (rs, integer (length (rows_of name status rs)))
query (page_rows name status limit offset) now rs =
    (rs, page_of limit offset (newest_first (rows_of name status rs)))
query (count_statuses name statuses) now rs = (rs, counts (status_counts name statuses rs))
