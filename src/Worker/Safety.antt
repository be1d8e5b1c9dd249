-- ===== src/Worker/Safety.antt =====
-- A job that a worker holds is never lost by it, whatever fails: worker/src/worker.ts.
use nexus_queue.Prelude.{ℕ, ◌≡◌, refl, true, false, Option, none, some}
use nexus_queue.Prelude.Texts.{Text, same}
use nexus_queue.Prelude.Decimal.{Number}
use nexus_queue.Shared.Keys.{keys}
use nexus_queue.Shared.Keys
use nexus_queue.Shared.Db.{db}
use nexus_queue.Shared.Types.{RateLimitConfig}
use nexus_queue.Services.Reply.{Hash, Reply, failure}
use nexus_queue.Program.{ret, throw, try_catch, ◌>>=◌}
use nexus_queue.Program.Triple.{
  Place, Somewhere, Undisturbed, in_list, in_zset, Triple, Triple-ret, Triple-bind, Triple-request,
  Carries-sql, Carries-handling, Carries-sleep,
}
use nexus_queue.Program.Transfer.{view}
use nexus_queue.Program.World.{Backend, World, after}
use nexus_queue.Prelude.Lists.{has}
use nexus_queue.Program.Places.{
  Carries-hset, Carries-lpush, Carries-zadd, Carries-lrem_list, Carries-lrem_zset, Carries-move,
}
use nexus_queue.Program.Keeps.{
  Keeps, Keeps-after, Keeps-bind, Keeps-ret, Keeps-if, Keeps-step, Keeps-call, Keeps-hgetall,
  Keeps-now, Keeps-ignore, Keeps-request,
}
use nexus_queue.Program.Replies.{Triple-now, Triple-hgetall, Keeps-announce}
use nexus_queue.Worker.Handlers.{Runtime, JobHandler, get, Fails}
use nexus_queue.Worker.RateLimiter.{Delay, ms, unbounded, check_limit_fallback}
use nexus_queue.Worker.Pulling.{Worker}
use nexus_queue.Worker.Process.{
  gate, run_handler, complete, dead_letter, retry_later, settle_failure, handle_failure, dispatch,
  start_job, give_back, proceed, process_one,
}

dlq-ne-processing : (q w : Text) → same (Keys.processing w) (Keys.dlq q) ≡ false
unfolding keys
dlq-ne-processing q w = refl

module _ (uuid : ℕ → Text) (id : Text) (rt : Runtime) (w : Worker rt) where
  abbrev held : Place
  held = in_list (Keys.processing w.worker_id)

  dead_letter-Keeps :
      (message queue_name job_name : Text)
      → Keeps uuid id held (dead_letter rt w id message queue_name job_name)
  unfolding dead_letter db
  dead_letter-Keeps message queue_name job_name =
      Keeps-step uuid id _ (Carries-sql uuid id held _) (
        Keeps-now uuid id λ time. Keeps-step uuid id _ (Carries-hset uuid id held _ _) (
          Keeps-step uuid id _ (Carries-lpush uuid id held (Keys.dlq queue_name)) (
            Keeps-step uuid id _
              (Carries-lrem_list uuid id _ _ 1 id (dlq-ne-processing queue_name w.worker_id))
              (Keeps-now uuid id λ later. Keeps-ignore uuid id _))))

  retry_later-Keeps :
      (attempts : Number) (queue_name : Text)
      → Keeps uuid id held (retry_later rt w id attempts queue_name)
  unfolding retry_later db
  retry_later-Keeps attempts queue_name = Keeps-now uuid id λ time.
      Keeps-step uuid id _ (Carries-sql uuid id held _) (
        Keeps-step uuid id _ (Carries-hset uuid id held _ _) (
          Keeps-step uuid id _ (Carries-zadd uuid id held (Keys.delayed queue_name) _) (
            Keeps-request uuid id (in_zset (Keys.delayed queue_name)) _
              (Carries-lrem_zset uuid id _ _ 1 id))))

  handle_failure-Keeps : (message : Text) → Keeps uuid id held (handle_failure rt w id message)
  unfolding handle_failure settle_failure
  handle_failure-Keeps message =
      Keeps-hgetall uuid id _
        λ h. Keeps-if uuid id _ (dead_letter-Keeps message _ _) (retry_later-Keeps _ _)

  -- The handler's `await`, whatever it is told, then its message.
  after_wait :
      (m : Text) (reply : Reply)
      → Keeps uuid id held (
          try_catch
            (◌>>=◌ {A = Unit {0}}
              (◌>>=◌ {A = Unit {0}}
                (elim reply [ failure e ↦ throw e | _ ↦ ret tt ])
                (λ _. throw m))
              (λ _. complete rt w id))
            (λ message. handle_failure rt w id message))
  after_wait m (failure e) = handle_failure-Keeps e
  after_wait m reply = handle_failure-Keeps m

  run_handler-Keeps :
      (job_name : Text) (attempt : Number) (h : JobHandler rt) (payload : Option rt.Json)
      → Fails rt h
      → Keeps uuid id held (run_handler rt w id job_name attempt h payload)
  unfolding run_handler
  run_handler-Keeps job_name attempt h none fails = handle_failure-Keeps _
  run_handler-Keeps job_name attempt h (some v) fails =
      let (m, e) =
        fails v (record {
          job_id = id;
          job_name = job_name;
          attempt = attempt;
          worker_id = w.worker_id;
        }) in
      rw e (Keeps-call uuid id _ _ (Carries-handling uuid id held) (after_wait m))

  dispatch-Keeps :
      (job_name : Text) (attempt : Number) (payload : Option Text)
      (handler : Option (JobHandler rt))
      → ((h : JobHandler rt) → handler ≡ some h → Fails rt h)
      → Keeps uuid id held (dispatch rt w id job_name attempt payload handler)
  unfolding dispatch
  dispatch-Keeps job_name attempt payload none fails = handle_failure-Keeps _
  dispatch-Keeps job_name attempt payload (some h) fails =
      run_handler-Keeps job_name attempt h _ (fails h refl)

  start_job-Keeps :
      (job_name queue_name : Text) (h : Hash)
      → ((f : JobHandler rt) → get rt w.handlers job_name ≡ some f → Fails rt f)
      → Keeps uuid id held (start_job rt w id job_name queue_name h)
  unfolding start_job db
  start_job-Keeps job_name queue_name h fails = Keeps-step uuid id _ (Carries-sql uuid id held _) (
      Keeps-now uuid id λ time.
        Keeps-step uuid id _ (Carries-hset uuid id held _ _)
          (Keeps-announce uuid id _ (dispatch-Keeps job_name _ _ _ fails)))

  give_back-Keeps :
      (queue_name : Text) (h : Hash) (d : Delay)
      → Keeps uuid id held (give_back rt w id queue_name h d)
  unfolding give_back
  give_back-Keeps queue_name h (ms n) =
      Keeps-step uuid id _ (Carries-move uuid id held _ _ id 1)
        (Keeps-request uuid id _ _ (Carries-sleep uuid id _ n))
  give_back-Keeps queue_name h unbounded =
      Keeps-step uuid id _ (Carries-move uuid id held _ _ id 1)
        (Keeps-request uuid id _ _ (Carries-sleep uuid id _ 1))

  check_limit_fallback-held :
      (queue_name : Text) (config : RateLimitConfig)
      → Triple uuid id held (check_limit_fallback queue_name config) held
  unfolding check_limit_fallback
  check_limit_fallback-held queue_name config = Triple-now uuid id λ time.
      Triple-hgetall uuid id _ λ h.
        Triple-bind uuid id (Triple-request uuid id _ (Carries-hset uuid id held _ _))
          (λ _. Triple-ret uuid id _)

  gate-Keeps :
      (job_name queue_name : Text) (h : Hash) (limit : Option RateLimitConfig)
      → ((f : JobHandler rt) → get rt w.handlers job_name ≡ some f → Fails rt f)
      → Keeps uuid id held (gate rt w id job_name queue_name h limit)
  gate-Keeps job_name queue_name h none fails = start_job-Keeps job_name queue_name h fails
  gate-Keeps job_name queue_name h (some config) fails =
      Keeps-bind uuid id (check_limit_fallback-held queue_name config) λ limit.
        Keeps-if uuid id _ (start_job-Keeps job_name queue_name h fails)
          (give_back-Keeps queue_name h _)

  -- The whole of `processOne` for a job whose handler throws.
  process_one-Keeps :
      ((name : Text) (f : JobHandler rt) → get rt w.handlers name ≡ some f → Fails rt f)
      → Keeps uuid id held (process_one rt w id)
  unfolding process_one proceed
  process_one-Keeps fails =
      Keeps-hgetall uuid id _
        λ h. Keeps-if uuid id _ (gate-Keeps _ _ h _ (fails _)) (Keeps-ret uuid id tt)

-- Take any services that behave as documented, a job id in this worker's processing list, and
-- handlers of this worker that always throw. Let any requests to the services be dropped or lose
-- their replies, and let other processes send anything between two requests that takes the id out
-- of no list and no sorted set. When `processOne` has ended, by returning or by throwing, the id
-- stands in a list or in a sorted set.
pub process_one_never_loses :
    (b : Backend) (rt : Runtime) (worker : Worker rt) (id : Text) (w : World b)
    → ((name : Text) (f : JobHandler rt) → get rt worker.handlers name ≡ some f → Fails rt f)
    → Undisturbed b.uuid id w.plan
    → has id ((b.keyspace w.redis_state).lists (Keys.processing worker.worker_id)) ≡ true
    → Somewhere b.uuid id (view (after b (process_one rt worker id) w))
process_one_never_loses b rt worker id w fails u h =
    Keeps-after b (in_list (Keys.processing worker.worker_id)) id (process_one rt worker id) w
      (process_one-Keeps b.uuid id rt worker fails) u h
