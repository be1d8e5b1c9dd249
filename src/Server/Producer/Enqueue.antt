-- ===== src/Server/Producer/Enqueue.antt =====
-- What `enqueue` does on each of its paths: server/src/producer.ts.
use nexus_queue.Prelude.{ℕ, ◌≡◌, refl, ap, ◌∙◌, Bool, true, false, Option, none, some}
use nexus_queue.Prelude.Tests.{ltb, if◌then◌else◌}
use nexus_queue.Prelude.Texts.{Text, text, is_empty}
use nexus_queue.Shared.Keys.{keys, target_list}
use nexus_queue.Shared.Keys
use nexus_queue.Shared.Types.{EnqueueOptions}
use nexus_queue.Services.Redis.{Keyspace, execute, live, of_option}
use nexus_queue.Services.Postgres.{query, insert, clashes}
use nexus_queue.Program.{Prog, throw, ◌>>=◌, as_text}
use nexus_queue.Program.Triple.{run-bind, continue}
use nexus_queue.Program.Transfer.{view, view_result, run-view}
use nexus_queue.Program.World.{Backend, World, ok, err, documented, run, calm, state, rows}
use nexus_queue.Worker.Handlers.{Runtime}
use nexus_queue.Server.Producer.{
  given, delay_of, queue_of, store_delayed, finish, create, existing, return_or_create, enqueue,
}
use nexus_queue.Server.Producer.Created.{
  new_row, drawn, stored, store, inserted, store-inserted, query-fresh, query-clash, enqueued,
  finish-told,
}

module _ (uuid : ℕ → Text) (rt : Runtime) (has_bus : Bool) (job_name : Text) (payload : rt.Json)
    (o : EnqueueOptions) (w : World (documented uuid)) where
  abbrev finishing : Unit {0} → Prog Text
  finishing u =
      finish rt has_bus (given o.idempotency_key) (uuid w.drawn) job_name (queue_of rt has_bus o)

  create-immediate :
      ltb 0 (delay_of o.delay) ≡ false
      → run (documented uuid) (create rt has_bus job_name payload o) (calm w)
        ≡ continue uuid (uuid 0) finishing (
            inserted uuid rt has_bus job_name payload o w (
              query
                (insert (new_row uuid rt has_bus job_name payload o w))
                w.clock
                w.postgres_state))
  unfolding create
  create-immediate e =
      ap
        (λ b.
          run (documented uuid)
            ((if b
                then store_delayed rt has_bus (uuid w.drawn) job_name payload o w.clock
                    (delay_of o.delay)
                else store uuid rt has_bus job_name payload o w)
              >>= finishing)
            (drawn uuid rt has_bus job_name payload o w))
        e
      ∙ run-bind uuid (uuid 0) (store uuid rt has_bus job_name payload o w) finishing
          (drawn uuid rt has_bus job_name payload o w)
      ∙ ap (continue uuid (uuid 0) finishing) (store-inserted uuid rt has_bus job_name payload o w)

  pub create-fresh :
      ltb 0 (delay_of o.delay) ≡ false
      → clashes (uuid w.drawn) (given o.idempotency_key) w.postgres_state ≡ false
      → run (documented uuid) (create rt has_bus job_name payload o) (calm w)
        ≡ (ok (uuid w.drawn), enqueued uuid rt has_bus job_name payload o w)
  create-fresh e h =
      create-immediate e
      ∙ ap (λ x. continue uuid (uuid 0) finishing (inserted uuid rt has_bus job_name payload o w x))
          (query-fresh uuid rt has_bus job_name payload o w h)
      ∙ finish-told uuid rt has_bus (given o.idempotency_key) job_name payload o w
          (stored uuid rt has_bus job_name payload o w)

  create-clash :
      ltb 0 (delay_of o.delay) ≡ false
      → clashes (uuid w.drawn) (given o.idempotency_key) w.postgres_state ≡ true
      → run (documented uuid) (create rt has_bus job_name payload o) (calm w) ≡ (
        err (text "duplicate key value violates unique constraint"),
        drawn uuid rt has_bus job_name payload o w,
      )
  create-clash e h =
      create-immediate e
      ∙ ap (λ x. continue uuid (uuid 0) finishing (inserted uuid rt has_bus job_name payload o w x))
          (query-clash uuid rt has_bus job_name payload o w h)

-- The id that the options' key stands for.
abbrev pub found_id : Option Text → ℕ → Keyspace → Option Text
found_id none time s = none
found_id (some key) time s = live time (s.strings (Keys.idempotency key))

abbrev pub known_id : EnqueueOptions → ℕ → Keyspace → Option Text
known_id o time s = given (found_id (given o.idempotency_key) time s)

module _ (uuid : ℕ → Text) (rt : Runtime) (has_bus : Bool) (w : World (documented uuid)) where
  answered :
      (f : Option Text → Prog Text) (r : Option Text)
      → run (documented uuid) (as_text (of_option r) >>= f) (calm w)
        ≡ run (documented uuid) (f r) (calm w)
  answered f none = refl
  answered f (some t) = refl

  pub looked_up :
      (f : Option Text → Prog Text) (key : Option Text)
      → run (documented uuid) (existing rt has_bus key >>= f) (calm w)
        ≡ run (documented uuid) (f (found_id key w.clock w.redis_state)) (calm w)
  unfolding execute
  looked_up f none = refl
  looked_up f (some key) = answered f (live w.clock (w.redis_state.strings (Keys.idempotency key)))

  pub enqueue-known :
      (job_name : Text) (payload : rt.Json) (o : EnqueueOptions)
      → is_empty job_name ≡ false
      → run (documented uuid) (enqueue rt has_bus job_name payload o) (calm w)
        ≡ run
            (documented uuid)
            (return_or_create rt has_bus job_name payload o (known_id o w.clock w.redis_state))
            (calm w)
  unfolding enqueue
  enqueue-known job_name payload o e =
      ap
        (λ b.
          run (documented uuid)
            (if b
              then throw (text "enqueue: jobName must be a non-empty string")
              else (existing rt has_bus (given o.idempotency_key) >>= λ found.
                  return_or_create rt has_bus job_name payload o (given found)))
            (calm w))
        e
      ∙ looked_up (λ found. return_or_create rt has_bus job_name payload o (given found))
          (given o.idempotency_key)

-- With nothing failing and nobody interfering: while the options' idempotency key stands for a
-- job, `enqueue` with a non-empty job name returns the id of that job, whatever name and payload it
-- is called with, and changes nothing in Redis and Postgres.
pub enqueue_repeats :
    (b : Backend) (rt : Runtime) (has_bus : Bool) (job_name : Text) (payload : rt.Json)
    (o : EnqueueOptions) (id : Text) (w : World b)
    → is_empty job_name ≡ false
    → known_id o w.clock (state w) ≡ some id
    → view_result b (run b (enqueue rt has_bus job_name payload o) (calm w))
      ≡ (ok id, view (calm w))
enqueue_repeats b rt has_bus job_name payload o id w e k =
    run-view b (enqueue rt has_bus job_name payload o) (calm w)
    ∙ enqueue-known b.uuid rt has_bus (view w) job_name payload o e
    ∙ ap
        (λ x.
          run (documented b.uuid) (return_or_create rt has_bus job_name payload o x)
            (calm (view w)))
        k

-- With nothing failing and nobody interfering: when Redis knows no job for the options, the job is
-- not delayed, and a row of the table already has the idempotency key or the drawn id, `enqueue`
-- throws, and Redis and the table are as before.
pub enqueue_refuses_duplicates :
    (b : Backend) (rt : Runtime) (has_bus : Bool) (job_name : Text) (payload : rt.Json)
    (o : EnqueueOptions) (w : World b)
    → is_empty job_name ≡ false
    → known_id o w.clock (state w) ≡ none
    → ltb 0 (delay_of o.delay) ≡ false
    → clashes (b.uuid w.drawn) (given o.idempotency_key) (rows w) ≡ true
    → let out = run b (enqueue rt has_bus job_name payload o) (calm w) in
      (out.0 ≡ err (text "duplicate key value violates unique constraint"))
      × (state out.1 ≡ state w)
      × (rows out.1 ≡ rows w)
enqueue_refuses_duplicates b rt has_bus job_name payload o w e k d c =
    let q =
      run-view b (enqueue rt has_bus job_name payload o) (calm w)
      ∙ enqueue-known b.uuid rt has_bus (view w) job_name payload o e
      ∙ ap
          (λ x.
            run (documented b.uuid) (return_or_create rt has_bus job_name payload o x)
              (calm (view w)))
          k
      ∙ create-clash b.uuid rt has_bus job_name payload o (view w) d c in
    (ap (λ x. x.0) q, ap (λ x. x.1.redis_state) q, ap (λ x. x.1.postgres_state) q)
