-- ===== src/Tests.antt =====
-- Runs of the program at concrete inputs, and the theorems applied to them.
mod Server
mod Loop
mod Reads
mod Dashboard
mod Panels
mod Process
mod Queues
use nexus_queue.Prelude.{
  ℕ, ◌≡◌, refl, ◌+◌, ◌*◌, ◌≤◌, min, true, false, Option, none, some, List, [], ◌∷◌, arith,
}
use nexus_queue.Prelude.Texts.{Text, text, same}
use nexus_queue.Prelude.Tests.{if◌then◌else◌}
use nexus_queue.Prelude.Decimal.{to_string, to_number}
use nexus_queue.Prelude.Int.{int_to_string, to_int, ◌+ℤ◌}
use nexus_queue.Shared.Keys.{keys, target_list}
use nexus_queue.Shared.Keys
use nexus_queue.Shared.Keys.Apart.{target_list-injective, queue_lists_collide}
use nexus_queue.Shared.Types.{Priority, RateLimitConfig}
use nexus_queue.Services.Reply.{Field}
use nexus_queue.Services.Redis.{Keyspace, execute, empty, lpush, zset_has}
use nexus_queue.Services.Postgres.{query}
use nexus_queue.Shared.Db.{db}
use nexus_queue.Program.{redis}
use nexus_queue.Program.World.{
  World, Turn, documented, after, run, calm, state, fine, lost, dropped, ok, err, answer,
}
use nexus_queue.Program.Transfer.{view, view_result}
use nexus_queue.Program.Triple
use nexus_queue.Program.Triple.{Undisturbed, Somewhere}
use nexus_queue.Program.Places.{Carries-lpush_any}
use nexus_queue.Worker.Handlers.{Runtime, JobHandler, get, Fails}
use nexus_queue.Worker.RateLimiter.{ms, check_limit_fallback}
use nexus_queue.Worker.Pulling.{Worker, priority_order, source_list}
use nexus_queue.Worker.Process.{backoff, process_one, worker_code}
use nexus_queue.Worker.Safety.{process_one_never_loses}
use nexus_queue.Worker.Attempts.{Attempted, process_one_counts_attempts}
use nexus_queue.Worker.Backoff.{backoff_bounds}
use nexus_queue.Worker.Pull.{tried_first, pull_fairness}
use nexus_queue.Worker.Limits.{sum, allowed_count, check_after, limit_respected}
use nexus_queue.Worker.Scheduler.{promote_job}
use nexus_queue.Worker.Promotion.{Promoted, crash_plan, promote_once, promote_may_lose}
use nexus_queue.Worker.Janitor.{recover_worker, check_worker}
use nexus_queue.Worker.Lifecycle
use nexus_queue.Worker.Lifecycle.Heartbeat.{heartbeat_protects}
use nexus_queue.Worker.Recovery.{recover_worker_never_loses}

abbrev plain : Runtime
plain = record {
  Json = Text;
  empty_object = text "{}";
  parse = λ t. some t;
  stringify = λ t. t;
  iso = to_string;
  parse-stringify = λ t. refl;
}

abbrev uuid : ℕ → Text
uuid n = to_string n

-- Job j in the hands of worker w, after one attempt of three.
abbrev job_j : Field → Option Text
job_j Field.job_name = some (text "email")
job_j Field.attempts = some (text "1")
job_j Field.max_attempts = some (text "3")
job_j _ = none

abbrev start : Keyspace
start = record empty {
  lists = λ k. if same k (Keys.processing (text "w")) then text "j" ∷ [] else [];
  hashes = λ k f. if same k (Keys.job (text "j")) then job_j f else none;
}

abbrev world_of : Keyspace → World (documented uuid)
world_of s = record { redis_state = s; postgres_state = []; clock = 1000; drawn = 0; plan = [] }

abbrev boom : JobHandler plain
boom v c = some (text "smtp down")

abbrev worker : Worker plain
worker = record {
  queue = text "default";
  worker_id = text "w";
  concurrency = 5;
  handlers = (text "email", boom) ∷ [];
  rate_limits = [];
  pull_index = 0;
}

only_boom :
    (name : Text) (f : JobHandler plain) → get plain worker.handlers name ≡ some f → Fails plain f
unfolding get
only_boom name f e v c = (text "smtp down", ground arith)

failed_attempt_delays :
    (after
        (documented uuid)
        (process_one plain worker (text "j"))
        (world_of start)).redis_state.zsets
      (Keys.delayed (text "default"))
    ≡ (text "j", 3000) ∷ []
unfolding worker_code execute query db keys to_string to_number
failed_attempt_delays = refl

-- Another producer's push before the first request, a lost reply and a dropped request.
abbrev storm : List Turn
storm =
    record { others = redis (lpush (Keys.queue (text "default")) (text "k")) ∷ []; fault = fine }
    ∷ record { others = []; fault = lost (text "ECONNRESET") }
    ∷ record { others = []; fault = dropped (text "ETIMEDOUT") }
    ∷ []

storm-Undisturbed : Undisturbed uuid (text "j") storm
storm-Undisturbed = (
  λ p w h.
      Triple.stays uuid (text "j") p
        (answer (documented uuid) (redis (lpush (Keys.queue (text "default")) (text "k"))) w)
        ((Carries-lpush_any uuid (text "j") p (Keys.queue (text "default")) (text "k")).at w h),
  (λ p w h. h, (λ p w h. h, tt)),
)

abbrev stormy : World (documented uuid)
stormy = record (world_of start) { plan = storm }

process_one_never_loses_example :
    Somewhere uuid
      (text "j")
      (view (after (documented uuid) (process_one plain worker (text "j")) stormy))
unfolding keys
process_one_never_loses_example =
    process_one_never_loses (documented uuid) plain worker (text "j") stormy only_boom
      storm-Undisturbed refl

recover_worker_never_loses_example :
    Somewhere uuid (text "j") (view (after (documented uuid) (recover_worker (text "w")) stormy))
unfolding keys
recover_worker_never_loses_example =
    recover_worker_never_loses (documented uuid) (text "w") (text "j") stormy storm-Undisturbed refl

process_one_counts_attempts_example :
    Attempted plain worker (text "j") false 2 1000 start (
      state (after (documented uuid) (process_one plain worker (text "j")) (calm (world_of start))))
unfolding keys to_string
process_one_counts_attempts_example =
    process_one_counts_attempts (documented uuid) plain worker (text "j") (text "email") 1 3
      (world_of start) refl refl refl refl refl (only_boom (text "email"))

abbrev two_per_burst : RateLimitConfig
two_per_burst = record { max_tokens = 2; refill_rate = 1 }

limit_respected_example :
    1000
      * allowed_count
          (documented uuid)
          (text "default")
          two_per_burst
          (0 ∷ 0 ∷ 500 ∷ [])
          (world_of start)
    ≤ 2 * 1000 + sum (0 ∷ 0 ∷ 500 ∷ []) * 1
unfolding keys
limit_respected_example =
    limit_respected (documented uuid) (text "default") two_per_burst (world_of start)
      (0 ∷ 0 ∷ 500 ∷ []) refl

-- An empty bucket, filled last right now.
abbrev spent : Keyspace
spent = record empty {
  hashes = λ k f. if same k (Keys.rate_limit (text "default")) then bucket_hash f else none;
}
  where
    bucket_hash : Field → Option Text
    bucket_hash Field.tokens = some (text "0")
    bucket_hash Field.last_refill = some (text "1000")
    bucket_hash _ = none

-- Job j waits in the delayed set.
abbrev waiting : Keyspace
waiting = record empty {
  zsets = λ k. if same (Keys.delayed (text "default")) k then (text "j", 500) ∷ [] else [];
}

promote_once_example :
    let w1 =
      after (documented uuid) (promote_job (text "default") (text "j")) (calm (world_of waiting)) in
    let w2 = after (documented uuid) (promote_job (text "default") (text "j")) (calm w1) in
    Promoted uuid (text "default") (text "j") (view (world_of waiting)) (state w1)
    × ((state w2).lists ≡ (state w1).lists)
    × ((state w2).hashes ≡ (state w1).hashes)
unfolding keys
promote_once_example =
    promote_once (documented uuid) (text "default") (text "j") (world_of waiting) refl

elsewhere :
    (k : Text)
    → same (Keys.delayed (text "default")) k ≡ false
    → zset_has (text "j") (waiting.zsets k) ≡ false
elsewhere k e = rw e refl

promote_may_lose_example :
    let out =
      run
        (documented uuid)
        (promote_job (text "default") (text "j"))
        (record (world_of waiting) { plan = crash_plan (text "ECONNRESET") }) in
    (out.0 ≡ err (text "ECONNRESET")) × (¬ Somewhere uuid (text "j") (view out.1))
unfolding keys
promote_may_lose_example =
    promote_may_lose (documented uuid) (text "default") (text "j") (text "ECONNRESET")
      (world_of waiting) refl (λ k. refl) elsewhere

heartbeat_protects_example :
    let started =
      after (documented uuid) (Lifecycle.start plain worker false) (calm (world_of empty)) in
    let beaten =
      after (documented uuid) (Lifecycle.write_heartbeat plain worker 2) (calm (world_of empty)) in
    let later1 = record started { clock = started.clock + 9000; plan = [] } in
    let later2 = record beaten { clock = beaten.clock + 9000; plan = [] } in
    (view_result (documented uuid) (run (documented uuid) (check_worker (text "w")) later1)
      ≡ (ok tt, view later1))
    × (view_result (documented uuid) (run (documented uuid) (check_worker (text "w")) later2)
        ≡ (ok tt, view later2))
heartbeat_protects_example =
    heartbeat_protects (documented uuid) plain worker 2 9000 (world_of empty) (omega arith)
