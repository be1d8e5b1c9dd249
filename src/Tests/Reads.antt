-- ===== src/Tests/Reads.antt =====
-- The theorems on the reading routes at concrete inputs.
use nexus_queue.Prelude.{◌≤◌, ◌≡◌, refl, none, some, List, [], ◌∷◌}
use nexus_queue.Prelude.Texts.{Text, text, same}
use nexus_queue.Prelude.Tests.{if◌then◌else◌}
use nexus_queue.Prelude.Decimal.{int, to_number}
use nexus_queue.Prelude.Int.{to_int}
use nexus_queue.Prelude.Lists.{length}
use nexus_queue.Shared.Keys.{keys}
use nexus_queue.Shared.Keys
use nexus_queue.Shared.Types.{Status}
use nexus_queue.Services.Reply.{Row}
use nexus_queue.Services.Redis.{empty}
use nexus_queue.Services.Postgres.{fill, rows_of, query}
use nexus_queue.Program.Transfer.{view, view_result}
use nexus_queue.Program.World.{World, documented, run, calm, state, rows, ok}
use nexus_queue.Server.Reads.{QueueStats, queue_stats, view_row, list_jobs}
use nexus_queue.Server.Reads.Counting.{Counted, queue_stats_count}
use nexus_queue.Server.Reads.Paging.{answer_capped}
use nexus_queue.Tests.{plain, uuid, world_of}

abbrev pub row_of : Text → Status → Row
row_of id status = fill 0 3 (record {
  id = id;
  queue_name = text "mail";
  job_name = text "send";
  payload = text "{}";
  status = status;
  max_attempts = int 3;
  idempotency_key = none;
  priority = none;
  delayed_until = none;
})

-- Three jobs of the queue mail, the newest first; one waits, one is done, one is dead-lettered.
abbrev pub table : List Row
table =
    record (row_of (text "a") Status.completed) { created_at = 30 }
    ∷ record (row_of (text "b") Status.pending) { created_at = 20 }
    ∷ record (row_of (text "c") Status.dlq) { created_at = 10 }
    ∷ []

abbrev pub mail : World (documented uuid)
mail =
    record (world_of (record empty {
      lists = λ k.
          if same k (Keys.dlq (text "mail"))
          then text "c" ∷ text "d" ∷ []
          else if same k (Keys.queue (text "mail"))
          then text "b" ∷ []
          else [];
    })) { postgres_state = table }

queue_stats_count_example :
    (q : QueueStats) × (view_result
        (documented uuid)
        (run (documented uuid) (queue_stats (text "mail")) (calm mail))
      ≡ (ok q, view (calm mail)))
    × Counted (text "mail") (state mail) (rows mail) q
queue_stats_count_example = queue_stats_count (documented uuid) (text "mail") mail

answer_capped_example :
    (length (view_row plain (record (row_of (text "c") Status.dlq) { created_at = 10 }) ∷ []) ≤ 200)
    × (1 ≡ length (rows_of (text "mail") (some Status.dlq) table))
unfolding list_jobs query to_int to_number keys
answer_capped_example =
    answer_capped (documented uuid) plain (text "mail") (some (text "dlq")) (some (text "500")) none
      mail (some Status.dlq)
      (view_row plain (record (row_of (text "c") Status.dlq) { created_at = 10 }) ∷ []) 1 refl refl
