-- ===== src/Shared/Keys.antt =====
-- shared/src/keys.ts: the names of all Redis keys.
pub mod Apart
use nexus_queue.Prelude.{◌++◌}
use nexus_queue.Prelude.Tests.{if◌then◌else◌}
use nexus_queue.Prelude.Texts.{Text, text, same}

abbrev prefix : Text
prefix = text "nexus"

unfoldable pub queue : Text → Text
queue name = prefix ++ (text ":queue:" ++ name)

unfoldable pub queue_priority : Text → Text → Text
queue_priority name priority = prefix ++ (text ":queue:" ++ (name ++ (text ":" ++ priority)))

unfoldable pub job : Text → Text
job id = prefix ++ (text ":job:" ++ id)

unfoldable pub queue_registry : Text
queue_registry = prefix ++ text ":queues"

unfoldable pub processing : Text → Text
processing worker_id = prefix ++ (text ":processing:" ++ worker_id)

unfoldable pub dlq : Text → Text
dlq queue_name = prefix ++ (text ":dlq:" ++ queue_name)

unfoldable pub idempotency : Text → Text
idempotency key = prefix ++ (text ":idem:" ++ key)

unfoldable pub delayed : Text → Text
delayed queue_name = prefix ++ (text ":delayed:" ++ queue_name)

unfoldable pub cron_schedule : Text
cron_schedule = prefix ++ text ":cron:schedule"

unfoldable pub cron_def : Text → Text
cron_def cron_id = prefix ++ (text ":cron:def:" ++ cron_id)

unfoldable pub rate_limit : Text → Text
rate_limit queue_name = prefix ++ (text ":ratelimit:" ++ queue_name)

unfoldable pub heartbeat : Text → Text
heartbeat worker_id = prefix ++ (text ":heartbeat:" ++ worker_id)

unfoldable pub worker_meta : Text → Text
worker_meta worker_id = prefix ++ (text ":worker:" ++ worker_id)

unfoldable pub worker_registry : Text
worker_registry = prefix ++ text ":workers"

-- The list of a queue for a priority, as every component writes it:
-- `priority === 'normal' ? queue(name) : queuePriority(name, priority)`.
unfoldable pub target_list : Text → Text → Text
target_list name priority =
    if same priority (text "normal") then queue name else queue_priority name priority

-- Opens every key.
unfoldable pub keys : Unit {0}
unfolding queue queue_priority job queue_registry processing dlq idempotency delayed cron_schedule
    cron_def rate_limit heartbeat worker_meta worker_registry
keys = tt
