-- ===== src/Server/Producer/NoPayload.antt =====
-- `enqueue` of server/src/producer.ts when the payload is undefined.
use nexus_queue.Prelude.{ℕ, ◌+◌, ◌≡◌, refl, ap, ◌∙◌, Bool, true, false, Option, none, some}
use nexus_queue.Prelude.Tests.{ltb, if◌then◌else◌}
use nexus_queue.Prelude.Texts.{Text, text, is_empty}
use nexus_queue.Shared.Types.{EnqueueOptions}
use nexus_queue.Shared.Db.{insert_without_payload}
use nexus_queue.Services.Postgres.{query}
use nexus_queue.Program.{Prog, ret, throw, ◌>>=◌, ◌>>◌, now, fresh_id}
use nexus_queue.Program.World.{World, err, documented, run, calm}
use nexus_queue.Worker.Handlers.{Runtime}
use nexus_queue.Server.Producer.{given, delay_of, existing}
use nexus_queue.Server.Producer.Enqueue.{known_id, looked_up}

-- A new job as far as its INSERT, before which the delayed path reads the clock once more.
abbrev pub create_without_payload : Bool → Prog Text
create_without_payload delayed = do
  id ← fresh_id
  created ← now
  if delayed then (now >>= λ due. ret tt) else ret tt
  insert_without_payload

module _ (rt : Runtime) (has_bus : Bool) where
  abbrev pub return_or_fail : EnqueueOptions → Option Text → Prog Text
  return_or_fail o none = create_without_payload (ltb 0 (delay_of o.delay))
  return_or_fail o (some id) = ret id

  unfoldable pub enqueue_without_payload : Text → EnqueueOptions → Prog Text
  enqueue_without_payload job_name o =
      if is_empty job_name
      then throw (text "enqueue: jobName must be a non-empty string")
      else (existing rt has_bus (given o.idempotency_key) >>= λ found.
          return_or_fail o (given found))

module _ (uuid : ℕ → Text) (w : World (documented uuid)) where
  -- Only an id is drawn.
  abbrev pub unpaid : World (documented uuid)
  unpaid = record (calm w) { drawn = w.drawn + 1 }

  create-fails :
      (delayed : Bool)
      → run (documented uuid) (create_without_payload delayed) (calm w) ≡ (
        err (
            text
              "null value in column \"payload\" of relation \"jobs\" violates not-null constraint"),
        unpaid,
      )
  unfolding query
  create-fails true = refl
  create-fails false = refl

  pub enqueue-fails :
      (rt : Runtime) (has_bus : Bool) (job_name : Text) (o : EnqueueOptions)
      → is_empty job_name ≡ false
      → known_id o w.clock w.redis_state ≡ none
      → run (documented uuid) (enqueue_without_payload rt has_bus job_name o) (calm w) ≡ (
        err (
            text
              "null value in column \"payload\" of relation \"jobs\" violates not-null constraint"),
        unpaid,
      )
  unfolding enqueue_without_payload
  enqueue-fails rt has_bus job_name o e unknown =
      ap
        (λ b.
          run (documented uuid)
            (if b
              then throw (text "enqueue: jobName must be a non-empty string")
              else (existing rt has_bus (given o.idempotency_key) >>= λ found.
                  return_or_fail rt has_bus o (given found)))
            (calm w))
        e
      ∙ looked_up uuid rt has_bus w (λ found. return_or_fail rt has_bus o (given found))
          (given o.idempotency_key)
      ∙ ap (λ x. run (documented uuid) (return_or_fail rt has_bus o x) (calm w)) unknown
      ∙ create-fails (ltb 0 (delay_of o.delay))
