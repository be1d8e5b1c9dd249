-- ===== src/Server/Producer/Created.antt =====
-- What the steps of an enqueue do: server/src/producer.ts.
use nexus_queue.Prelude.{ℕ, ◌+◌, ◌≡◌, refl, Bool, true, false, Option, none, some, List, [], ◌∷◌}
use nexus_queue.Prelude.Texts.{Text, text}
use nexus_queue.Prelude.Decimal.{int, to_string}
use nexus_queue.Shared.Keys.{keys, target_list}
use nexus_queue.Shared.Keys
use nexus_queue.Shared.Db.{db}
use nexus_queue.Shared.Types.{Status, status_text, EnqueueOptions}
use nexus_queue.Services.Reply.{Row, Reply, done, failure}
use nexus_queue.Services.Redis.{execute, lpush, hset, sadd, set_ex, publish}
use nexus_queue.Services.Postgres.{NewRow, query, insert, clashes, fill}
use nexus_queue.Program.{Prog, ret, throw, call, ◌>>=◌, redis, multi}
use nexus_queue.Program.World.{World, Result, ok, documented, answer, run, calm}
use nexus_queue.Worker.Handlers.{Runtime}
use nexus_queue.Worker.Cron.{job_fields}
use nexus_queue.Server.Producer.{given, queue_of, attempts_of, priority_of, store_pending, finish}

module _ (uuid : ℕ → Text) (rt : Runtime) (has_bus : Bool) (job_name : Text) (payload : rt.Json)
    (o : EnqueueOptions) (w : World (documented uuid)) where
  abbrev pub new_id : Text
  new_id = uuid w.drawn

  abbrev pub new_row : NewRow
  new_row = record {
    id = new_id;
    queue_name = queue_of rt has_bus o;
    job_name = job_name;
    payload = rt.stringify payload;
    status = Status.pending;
    max_attempts = int (attempts_of rt has_bus o);
    idempotency_key = given o.idempotency_key;
    priority = none;
    delayed_until = none;
  }

  -- An id is drawn.
  abbrev pub drawn : World (documented uuid)
  drawn = record (calm w) { drawn = w.drawn + 1 }

  -- The row is stored, and then the hash and the id.
  abbrev pub stored : World (documented uuid)
  stored =
      (answer (documented uuid)
        (multi (
          sadd Keys.queue_registry (queue_of rt has_bus o)
          ∷ hset (Keys.job new_id) (
              job_fields rt new_id (queue_of rt has_bus o) job_name (rt.stringify payload)
                (status_text Status.pending) (to_string (attempts_of rt has_bus o))
                (priority_of rt has_bus o) w.clock)
          ∷ lpush (Keys.target_list (queue_of rt has_bus o) (priority_of rt has_bus o)) new_id
          ∷ []))
        (record drawn {
          postgres_state = fill w.clock (attempts_of rt has_bus o) new_row ∷ w.postgres_state;
        })).0

  abbrev pub store : Prog (Unit {0})
  store = store_pending rt has_bus new_id job_name payload o w.clock

  abbrev pub inserted : List Row × Reply → Result (Unit {0}) × World (documented uuid)
  inserted (rs, r) =
      run (documented uuid)
        (elim r [ failure e ↦ throw e | _ ↦ ret tt ] >>= λ _.
          call
            (multi (
              sadd Keys.queue_registry (queue_of rt has_bus o)
              ∷ hset (Keys.job new_id) (
                  job_fields rt new_id (queue_of rt has_bus o) job_name (rt.stringify payload)
                    (status_text Status.pending) (to_string (attempts_of rt has_bus o))
                    (priority_of rt has_bus o) w.clock)
              ∷ lpush (Keys.target_list (queue_of rt has_bus o) (priority_of rt has_bus o)) new_id
              ∷ []))
            (λ r. elim r [ failure e ↦ throw e | _ ↦ ret tt ]))
        (record drawn { postgres_state = rs })

  pub store-inserted :
      run (documented uuid) store drawn ≡ inserted (query (insert new_row) w.clock w.postgres_state)
  unfolding store_pending db
  store-inserted = refl

  pub query-fresh :
      clashes new_id (given o.idempotency_key) w.postgres_state ≡ false
      → query (insert new_row) w.clock w.postgres_state
        ≡ (fill w.clock (attempts_of rt has_bus o) new_row ∷ w.postgres_state, done)
  unfolding query
  query-fresh h = rw h refl

  pub query-clash :
      clashes new_id (given o.idempotency_key) w.postgres_state ≡ true
      → query (insert new_row) w.clock w.postgres_state
        ≡ (w.postgres_state, failure (text "duplicate key value violates unique constraint"))
  unfolding query
  query-clash h = rw h refl

  -- The key stands for the id for a day, and the event is published.
  abbrev pub remembered : Option Text → World (documented uuid) → World (documented uuid)
  remembered none v = v
  remembered (some key) v =
      (answer (documented uuid) (redis (set_ex (Keys.idempotency key) new_id 86400)) v).0

  abbrev pub told : Bool → World (documented uuid) → World (documented uuid)
  told false v = v
  told true v =
      (answer (documented uuid)
        (redis (
          publish (record {
            type = text "job.created";
            job_id = new_id;
            job_name = job_name;
            queue_name = queue_of rt has_bus o;
            timestamp = v.clock;
            error_message = none;
          })))
        v).0

  abbrev pub enqueued : World (documented uuid)
  enqueued = told has_bus (remembered (given o.idempotency_key) stored)

module _ (uuid : ℕ → Text) (rt : Runtime) where
  pub finish-told :
      (has_bus : Bool) (key : Option Text) (job_name : Text) (payload : rt.Json)
      (o : EnqueueOptions) (w v : World (documented uuid))
      → run
          (documented uuid)
          (finish rt has_bus key (uuid w.drawn) job_name (queue_of rt has_bus o))
          (calm v)
        ≡ (
          ok (uuid w.drawn),
          told uuid rt has_bus job_name payload o w has_bus
              (remembered uuid rt has_bus job_name payload o w key (calm v)),
        )
  unfolding finish execute
  finish-told true none job_name payload o w v = refl
  finish-told true (some k) job_name payload o w v = refl
  finish-told false none job_name payload o w v = refl
  finish-told false (some k) job_name payload o w v = refl
