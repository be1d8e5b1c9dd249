-- ===== src/Server/Reads/Counting.antt =====
-- What the routes count: server/src/routes.ts.
use nexus_queue.Prelude.{ℕ, ◌+◌, ◌≤◌, ◌≡◌, refl, ap, ◌∙◌, ◌&&◌, none, some, List, [], ◌∷◌, arith}
use nexus_queue.Prelude.Tests.{if◌then◌else◌}
use nexus_queue.Prelude.Texts.{Text, text, same}
use nexus_queue.Prelude.Lists.{length}
use nexus_queue.Shared.Types.{Status}
use nexus_queue.Shared.Keys.{keys}
use nexus_queue.Shared.Keys
use nexus_queue.Services.Reply.{Row}
use nexus_queue.Services.Redis.{Keyspace, execute}
use nexus_queue.Services.Postgres.{query, same_status, rows_of, status_counts}
use nexus_queue.Program.Transfer.{view, view_result, run-view}
use nexus_queue.Program.World.{Backend, World, ok, documented, run, calm, state, rows}
use nexus_queue.Server.Reads.{QueueStats, put_counts, counted_statuses, queue_stats}

-- The rows of a queue with a status.
abbrev pub with_status : Text → Status → List Row → ℕ
with_status name s rs = length (rows_of name (some s) rs)

counts_put :
    (name : Text) (rs : List Row) (q : QueueStats)
    → q.completed ≡ 0
    → q.failed ≡ 0
    → q.dlq ≡ 0
    → put_counts (status_counts name counted_statuses rs) q ≡ record q {
      completed = with_status name Status.completed rs;
      failed = with_status name Status.failed rs;
      dlq = with_status name Status.dlq rs;
    }
counts_put name rs q hc hf hd = ground arith

-- How a row counts towards a status.
abbrev share : Text → Status → Row → ℕ
share name s r = if same r.queue_name name && same_status s r.status then 1 else 0

with_status-cons :
    (name : Text) (s : Status) (r : Row) (rs : List Row)
    → with_status name s (r ∷ rs) ≡ share name s r + with_status name s rs
with_status-cons name s r rs = ground arith

shares :
    (name : Text) (r : Row) (s : Status)
    → r.status ≡ s
    → share name Status.active r
        + share name Status.completed r
        + share name Status.failed r
        + share name Status.dlq r
      ≤ (if same r.queue_name name then 1 else 0)
shares name r Status.pending e = rw e (ground arith)
shares name r Status.active e = rw e (ground arith)
shares name r Status.completed e = rw e (ground arith)
shares name r Status.failed e = rw e (ground arith)
shares name r Status.delayed e = rw e (ground arith)
shares name r Status.dlq e = rw e (ground arith)

all-cons :
    (name : Text) (r : Row) (rs : List Row)
    → length (rows_of name none (r ∷ rs))
      ≡ (if same r.queue_name name then 1 else 0) + length (rows_of name none rs)
all-cons name r rs = ground arith

stats_disjoint :
    (name : Text) (rs : List Row)
    → with_status name Status.active rs
        + with_status name Status.completed rs
        + with_status name Status.failed rs
        + with_status name Status.dlq rs
      ≤ length (rows_of name none rs)
stats_disjoint name [] = omega arith
stats_disjoint name (r ∷ rs) = omega (
  arith,
  stats_disjoint name rs,
  shares name r r.status refl,
  all-cons name r rs,
  with_status-cons name Status.active r rs,
  with_status-cons name Status.completed r rs,
  with_status-cons name Status.failed r rs,
  with_status-cons name Status.dlq r rs,
)

-- What the stats of a queue say.
abbrev pub Counted : Text → Keyspace → List Row → QueueStats → Type 0
Counted name s rs q =
    (q.pending
      ≡ length (s.lists (Keys.queue name))
        + length (s.lists (Keys.queue_priority name (text "high")))
        + length (s.lists (Keys.queue_priority name (text "low"))))
    × (q.active ≡ with_status name Status.active rs)
    × (q.completed ≡ with_status name Status.completed rs)
    × (q.failed ≡ with_status name Status.failed rs)
    × (q.dlq ≡ with_status name Status.dlq rs)
    × (q.active + q.completed + q.failed + q.dlq ≤ length (rows_of name none rs))

module _ (uuid : ℕ → Text) (name : Text) (w : World (documented uuid)) where
  counts_of : QueueStats
  counts_of = record {
    name = name;
    pending =
        length (w.redis_state.lists (Keys.queue name))
        + length (w.redis_state.lists (Keys.queue_priority name (text "high")))
        + length (w.redis_state.lists (Keys.queue_priority name (text "low")));
    active = with_status name Status.active w.postgres_state;
    completed = with_status name Status.completed w.postgres_state;
    failed = with_status name Status.failed w.postgres_state;
    dlq = with_status name Status.dlq w.postgres_state;
  }

  queue_stats-run : run (documented uuid) (queue_stats name) (calm w) ≡ (ok counts_of, calm w)
  unfolding queue_stats execute query counts_of
  queue_stats-run =
      ap (λ q. (ok q, calm w))
        (counts_put name w.postgres_state (record counts_of { completed = 0; failed = 0; dlq = 0 })
          refl refl refl)

-- When nothing fails and nobody interferes, the stats of a queue say how many ids its three lists
-- hold, and how many rows of the queue are active, completed, failed and dead-lettered; these four
-- together are no more than the rows of the queue. Asking changes nothing.
pub queue_stats_count :
    (b : Backend) (name : Text) (w : World b)
    → (q : QueueStats) × (view_result b (run b (queue_stats name) (calm w)) ≡ (ok q, view (calm w)))
      × Counted name (state w) (rows w) q
unfolding counts_of
queue_stats_count b name w = (
  counts_of b.uuid name (view w),
  run-view b (queue_stats name) (calm w) ∙ queue_stats-run b.uuid name (view w),
  (refl, refl, refl, refl, refl, stats_disjoint name (rows w)),
)
