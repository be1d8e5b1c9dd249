-- ===== src/Tests/Loop.antt =====
-- The theorems on the worker's loop, its configuration and cron at concrete inputs.
use nexus_queue.Prelude.{
  ℕ, ◌+◌, ◌≤◌, ◌<◌, ◌≡◌, refl, true, false, Option, none, some, [], ◌∷◌, map, arith,
}
use nexus_queue.Prelude.Tests.{if◌then◌else◌}
use nexus_queue.Prelude.Texts.{Text, text, same}
use nexus_queue.Prelude.Decimal.{int, to_string, to_number}
use nexus_queue.Prelude.Numeric.{read_number, slots}
use nexus_queue.Prelude.Lists.{length}
use nexus_queue.Shared.Env.{Env}
use nexus_queue.Shared.Keys.{keys}
use nexus_queue.Shared.Keys
use nexus_queue.Shared.Types.{Status}
use nexus_queue.Services.Reply.{Field}
use nexus_queue.Services.Redis.{Keyspace, empty, zset_has}
use nexus_queue.Program.World.{documented, run, after, calm, state, rows, ok}
use nexus_queue.Worker.Config.{WorkerConfig, load_worker_config}
use nexus_queue.Worker.Config.Loading.{bad_concurrency_unbounds}
use nexus_queue.Worker.Cron.{CronJobDef, add_job, remove_job, read_definition, fire_entry}
use nexus_queue.Worker.Cron.Definitions.{filled, definition_kept}
use nexus_queue.Worker.Cron.Firing.{summary, cron_may_fire_twice}
use nexus_queue.Worker.Cron.Fired.{fired_list}
use nexus_queue.Worker.Loop.{
  pulling, ended, LoopState, stopped, go_on, pulled, stop, step, started, Reach, start, next,
}
use nexus_queue.Worker.Loop.Bounds.{concurrency_respected}
use nexus_queue.Worker.Loop.Shutdown.{at_once, then_waits, stop_leaves_no_job, stop_may_strand}
use nexus_queue.Worker.Completion.{Completed, row_completed, process_one_completes}
use nexus_queue.Worker.Handlers.{JobHandler}
use nexus_queue.Worker.Handlers
use nexus_queue.Worker.Process.{process_one}
use nexus_queue.Worker.Pulling.{Worker}
use nexus_queue.Tests
use nexus_queue.Tests.{plain, uuid, world_of, worker}

abbrev one_at_hand : LoopState
one_at_hand = record (started (int 2)) {
  active_jobs = record { number = 0; job_id = text "j" } ∷ [];
  launched = 1;
  at = pulling;
}

-- A worker with two slots that has pulled job j and pulls again.
busy : Reach (int 2) one_at_hand
unfolding step
busy = next (pulled (some (text "j"))) (next go_on start refl) refl

concurrency_respected_example :
    (length one_at_hand.active_jobs ≤ 2)
    × (one_at_hand.at ≡ pulling → length one_at_hand.active_jobs < 2)
concurrency_respected_example = concurrency_respected busy

abbrev told : LoopState
told = record one_at_hand { stop_requested = true }

-- A worker that is told to stop before it has pulled anything.
stop_leaves_no_job_example :
    (record (started (int 2)) { stop_requested = true; at = ended; stop_at = stopped }).active_jobs
    ≡ []
unfolding step
stop_leaves_no_job_example =
    stop_leaves_no_job (started (int 2)) (λ e. cc) refl refl
      (then_waits stop
        (then_waits stop
          (then_waits go_on
            (then_waits stop (then_waits stop at_once (λ e. cc) refl) (λ e. cc) refl) (λ e. cc)
            refl)
          (λ e. cc) refl)
        (λ e. cc) refl)
      refl

stop_may_strand_example :
    (s : LoopState) × Reach (int 2) s
    × (s.stop_at ≡ stopped)
    × (s.active_jobs ≡ record { number = 0; job_id = text "j" } ∷ [])
stop_may_strand_example = stop_may_strand 2 (text "j") (omega arith) refl

abbrev two_urls : Env
two_urls name =
    if same name (text "REDIS_URL")
    then some (text "redis://r")
    else if same name (text "DATABASE_URL")
    then some (text "postgres://p")
    else if same name (text "WORKER_CONCURRENCY")
    then some (text "many")
    else none

bad_concurrency_unbounds_example :
    (cfg : WorkerConfig) × (load_worker_config 7 two_urls ≡ ok cfg)
    × (s : LoopState) × Reach (slots cfg.concurrency) s
    × (length s.active_jobs ≡ 100)
unfolding read_number
bad_concurrency_unbounds_example =
    bad_concurrency_unbounds 7 two_urls (text "redis://r") (text "postgres://p") (text "many")
      (text "j") 100 refl refl refl refl refl refl refl

abbrev each_minute : Text → ℕ → Option ℕ
each_minute expression time =
    if same expression (text "* * * * *") then some (time + 60000) else none

abbrev nightly : CronJobDef plain
nightly = record {
  cron_id = text "c";
  job_name = text "report";
  payload = none;
  cron_expression = text "* * * * *";
  queue = none;
  max_attempts = none;
  priority = some (text "high");
}

definition_kept_example :
    let added = run (documented uuid) (add_job plain each_minute nightly) (calm (world_of empty)) in
    let gone = after (documented uuid) (remove_job plain each_minute (text "c")) (calm added.1) in
    (added.0 ≡ ok tt)
    × ((run (documented uuid) (read_definition plain each_minute (text "c")) (calm added.1)).0
        ≡ ok (some (filled plain nightly 3)))
    × (zset_has (text "c") ((state added.1).zsets Keys.cron_schedule) ≡ true)
    × ((run (documented uuid) (read_definition plain each_minute (text "c")) (calm gone)).0
        ≡ ok none)
    × (zset_has (text "c") ((state gone).zsets Keys.cron_schedule) ≡ false)
definition_kept_example =
    definition_kept (documented uuid) plain each_minute nightly 3 61000 (world_of empty) refl refl
      refl refl refl

abbrev minutely : Field → Option Text
minutely Field.cron_id = some (text "c")
minutely Field.job_name = some (text "report")
minutely Field.cron_expression = some (text "* * * * *")
minutely _ = none

abbrev scheduled : Keyspace
scheduled = record empty {
  hashes = λ k. if same k (Keys.cron_def (text "c")) then minutely else (λ f. none);
  zsets = λ k. if same k Keys.cron_schedule then (text "c", 900) ∷ [] else [];
}

cron_may_fire_twice_example :
    let h = scheduled.hashes (Keys.cron_def (text "c")) in
    let first =
      run (documented uuid) (fire_entry plain each_minute (text "c")) (calm (world_of scheduled)) in
    let second = run (documented uuid) (fire_entry plain each_minute (text "c")) (calm first.1) in
    (first.0 ≡ ok tt)
    × ((state first.1).lists (fired_list h) ≡ uuid 0 ∷ scheduled.lists (fired_list h))
    × (zset_has (text "c") ((state first.1).zsets Keys.cron_schedule) ≡ true)
    × (map summary (rows first.1) ≡ (uuid 0, Status.pending) ∷ map summary [])
    × (second.0 ≡ ok tt)
    × ((state second.1).lists (fired_list h) ≡ uuid 1 ∷ uuid 0 ∷ scheduled.lists (fired_list h))
unfolding keys to_number to_string
cron_may_fire_twice_example =
    cron_may_fire_twice (documented uuid) plain each_minute (text "c") 61000 3 (text "{}")
      (world_of scheduled) refl refl refl refl refl refl refl refl

abbrev fine_handler : JobHandler plain
fine_handler v c = none

abbrev able : Worker plain
able = record worker { handlers = (text "email", fine_handler) ∷ [] }

process_one_completes_example :
    let out =
      run (documented uuid) (process_one plain able (text "j")) (calm (world_of Tests.start)) in
    (out.0 ≡ ok tt)
    × Completed plain able
        (text "j")
        (text "email")
        (text "default")
        2
        1000
        Tests.start
        (state out.1)
    × (rows out.1
        ≡ map (row_completed plain able (text "j") (text "email") (text "default") 1000) [])
unfolding keys to_string Handlers.get
process_one_completes_example =
    process_one_completes (documented uuid) plain able (text "j") (text "email") 1 fine_handler
      (text "{}") (world_of Tests.start) refl refl refl refl refl refl refl
