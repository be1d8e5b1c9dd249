-- ===== src/Worker/Completion.antt =====
-- A job whose handler resolves: `processOne` and `complete` of worker/src/worker.ts.
use nexus_queue.Prelude.{ℕ, ◌+◌, ◌≡◌, refl, sym, ap, subst, ◌∙◌, false, none, some, ◌∷◌, map, arith}
use nexus_queue.Prelude.Tests.{if◌then◌else◌, or_else}
use nexus_queue.Prelude.Texts.{Text, text, same, same_refl, update, is_empty}
use nexus_queue.Prelude.Decimal.{int, to_string}
use nexus_queue.Prelude.Lists.{remove_n}
use nexus_queue.Shared.Keys.{keys}
use nexus_queue.Shared.Keys
use nexus_queue.Shared.Types.{Status, status_text}
use nexus_queue.Services.Reply.{Field, Row}
use nexus_queue.Services.Redis.{Keyspace}
use nexus_queue.Program.World.{Backend, World, ok, documented, run, calm, state, rows}
use nexus_queue.Program.Transfer.{view, run-view}
use nexus_queue.Worker.Handlers.{Runtime, JobHandler, get}
use nexus_queue.Worker.Pulling.{Worker, map_get}
use nexus_queue.Worker.Process.{event, parsed, process_one}
use nexus_queue.Worker.Failing.{begun}
use nexus_queue.Worker.Attempts.{to_dispatch}
use nexus_queue.Worker.Completing.{completed, dispatch-completes, map_twice}

-- The job after its `n`-th attempt, which succeeds at time `t`.
module _ (rt : Runtime) (worker : Worker rt) (id job_name queue_name : Text) where
  abbrev pub Completed : ℕ → ℕ → Keyspace → Keyspace → Type 0
  Completed n t s s' =
      (s'.hashes (Keys.job id) Field.status ≡ some (status_text Status.completed))
      × (s'.hashes (Keys.job id) Field.attempts ≡ some (to_string n))
      × (s'.hashes (Keys.job id) Field.completed_at ≡ some (rt.iso t))
      × (s'.lists
          ≡ update s.lists (Keys.processing worker.worker_id)
              (remove_n 1 id (s.lists (Keys.processing worker.worker_id))))
      × (s'.zsets ≡ s.zsets)
      × (s'.channel
          ≡ event rt worker (text "job.completed") id job_name queue_name none t
            ∷ event rt worker (text "job.started") id job_name queue_name none t
            ∷ s.channel)

  -- The row of the job.
  abbrev pub row_completed : ℕ → Row → Row
  row_completed t r =
      if same r.id id
      then record r {
        status = Status.completed;
        attempts = r.attempts + 1;
        started_at = some t;
        completed_at = some t;
        error_message = none;
      }
      else r

module _ (uuid : ℕ → Text) (rt : Runtime) (worker : Worker rt) (id : Text)
    (w : World (documented uuid)) (job_name : Text) (n : ℕ) where
  abbrev queue_name : Text
  queue_name = or_else (w.redis_state.hashes (Keys.job id) Field.queue_name) worker.queue

  abbrev v : World (documented uuid)
  v = begun uuid rt worker id w job_name queue_name (int n)

  begun-Completed :
      w.redis_state.hashes (Keys.job id) Field.job_name ≡ some job_name
      → Completed rt worker id job_name queue_name n w.clock w.redis_state
          (completed uuid rt worker id v).redis_state
  unfolding begun keys
  begun-Completed en =
      (simp same_refl, simp same_refl, simp same_refl, refl, refl, simp (same_refl, en))

  begun-row :
      (r : Row)
      → let r' =
          if same r.id id
          then record r {
            status = Status.active;
            started_at = some w.clock;
            attempts = r.attempts + 1;
          }
          else r in
        (if same r'.id id
          then record r' {
            status = Status.completed;
            completed_at = some w.clock;
            error_message = none;
          }
          else r')
        ≡ row_completed rt worker id job_name queue_name w.clock r
  begun-row r = ground arith

  begun-rows :
      (completed uuid rt worker id v).postgres_state
      ≡ map (row_completed rt worker id job_name queue_name w.clock) w.postgres_state
  unfolding begun
  begun-rows = map_twice _ _ _ begun-row w.postgres_state

-- With nothing failing and nobody interfering, take a job whose hash has a name and counts `a`
-- attempts, whose queue has no rate limit, whose payload can be read, and whose handler is
-- registered and resolves. Then `processOne` succeeds: the hash says completed, with one attempt more
-- and the time, one occurrence of the id leaves the worker's processing list and no other list or
-- set changes, the row says completed with one attempt more, both times and no error, no other row
-- changes, and the events of the start and the completion are published in this order.
pub process_one_completes :
    (b : Backend) (rt : Runtime) (worker : Worker rt) (id job_name : Text) (a : ℕ)
    (f : JobHandler rt) (value : rt.Json) (w : World b)
    → let h = (state w).hashes (Keys.job id) in
      let queue_name = or_else (h Field.queue_name) worker.queue in
      h Field.job_name ≡ some job_name
      → is_empty job_name ≡ false
      → h Field.attempts ≡ some (to_string a)
      → map_get worker.rate_limits queue_name ≡ none
      → get rt worker.handlers job_name ≡ some f
      → parsed rt worker (h Field.payload) ≡ some value
      → f value (record {
        job_id = id;
        job_name = job_name;
        attempt = int (a + 1);
        worker_id = worker.worker_id;
      })
        ≡ none
      → let out = run b (process_one rt worker id) (calm w) in
        (out.0 ≡ ok tt)
        × Completed rt worker id job_name queue_name (a + 1) w.clock (state w) (state out.1)
        × (rows out.1 ≡ map (row_completed rt worker id job_name queue_name w.clock) (rows w))
unfolding begun
process_one_completes b rt worker id job_name a f value w en ee ea el hg hp hf =
    let queue_name = or_else ((state w).hashes (Keys.job id) Field.queue_name) worker.queue in
    let e =
      run-view b (process_one rt worker id) (calm w)
      ∙ to_dispatch b.uuid rt worker id (view w) job_name a ea en ee el
      ∙ dispatch-completes b.uuid rt worker id
          (begun b.uuid rt worker id (view w) job_name queue_name (int (a + 1))) job_name (a + 1) _
          _ f value hg hp hf in
    (
      ap (λ x. x.0) e,
      subst
          (λ x.
            Completed rt worker id job_name queue_name (a + 1) w.clock (state w) x.1.redis_state)
          (sym e) (begun-Completed b.uuid rt worker id (view w) job_name (a + 1) en),
      ap (λ x. x.1.postgres_state) e ∙ begun-rows b.uuid rt worker id (view w) job_name (a + 1),
    )
