-- ===== src/Server/Producer/Stores.antt =====
-- What a new immediate job leaves in Redis and Postgres: server/src/producer.ts.
use nexus_queue.Prelude.{
  ℕ, ◌+◌, ◌*◌, ◌<◌, ◌≡◌, refl, sym, ap, subst, ◌∙◌, Bool, true, false, Option, none, some, List, [],
  ◌∷◌, arith,
}
use nexus_queue.Prelude.Tests.{ltb, if◌then◌else◌}
use nexus_queue.Prelude.Texts.{Text, text, same_refl, is_empty}
use nexus_queue.Prelude.Decimal.{to_string}
use nexus_queue.Shared.Keys
use nexus_queue.Shared.Types.{Status, status_text, EnqueueOptions}
use nexus_queue.Services.Reply.{Field, Row}
use nexus_queue.Services.Redis.{Keyspace, execute, live}
use nexus_queue.Services.Postgres.{clashes, fill}
use nexus_queue.Program.Transfer.{view, view_result, run-view}
use nexus_queue.Program.World.{Backend, World, ok, documented, run, calm, state, rows}
use nexus_queue.Worker.Handlers.{Runtime}
use nexus_queue.Server.Producer.{
  given, delay_of, queue_of, attempts_of, priority_of, return_or_create, enqueue,
}
use nexus_queue.Server.Producer.Enqueue.{
  known_id, found_id, create-fresh, enqueue-known, enqueue_repeats,
}
use nexus_queue.Server.Producer.Created.{new_row, stored, remembered, told, enqueued}

module _ (uuid : ℕ → Text) (rt : Runtime) (has_bus : Bool) (job_name : Text) (payload : rt.Json)
    (o : EnqueueOptions) (w : World (documented uuid)) where
  -- Once the job is stored only the key of its idempotency and the channel change.
  pub bookkeeping :
      (bus : Bool) (key : Option Text) (v : World (documented uuid))
      → let v' =
          told uuid rt has_bus job_name payload o w bus
            (remembered uuid rt has_bus job_name payload o w key v) in
        (v'.redis_state.lists ≡ v.redis_state.lists)
        × (v'.redis_state.hashes ≡ v.redis_state.hashes)
        × (v'.redis_state.zsets ≡ v.redis_state.zsets)
        × (v'.postgres_state ≡ v.postgres_state)
        × (v'.drawn ≡ v.drawn)
        × (v'.clock ≡ v.clock)
  unfolding execute
  bookkeeping true none v = (refl, refl, refl, refl, refl, refl)
  bookkeeping true (some k) v = (refl, refl, refl, refl, refl, refl)
  bookkeeping false none v = (refl, refl, refl, refl, refl, refl)
  bookkeeping false (some k) v = (refl, refl, refl, refl, refl, refl)

  key_kept :
      (bus : Bool) (key : Text) (v : World (documented uuid))
      → (told uuid rt has_bus job_name payload o w bus
            (remembered uuid rt has_bus job_name payload o w (some key) v)).redis_state.strings
          (Keys.idempotency key)
        ≡ some (record { value = uuid w.drawn; expires = v.clock + 86400 * 1000 })
  unfolding execute
  key_kept true key v = rw (same_refl (Keys.idempotency key)) refl
  key_kept false key v = rw (same_refl (Keys.idempotency key)) refl

  -- The job in both stores.
  abbrev pub Stored : Keyspace → List Row → Type 0
  Stored s rs =
      let target = Keys.target_list (queue_of rt has_bus o) (priority_of rt has_bus o) in
      let job = Keys.job (uuid w.drawn) in
      (s.lists target ≡ uuid w.drawn ∷ w.redis_state.lists target)
      × (s.zsets ≡ w.redis_state.zsets)
      × (s.hashes job Field.job_name ≡ some job_name)
      × (s.hashes job Field.queue_name ≡ some (queue_of rt has_bus o))
      × (s.hashes job Field.priority ≡ some (priority_of rt has_bus o))
      × (s.hashes job Field.payload ≡ some (rt.stringify payload))
      × (s.hashes job Field.status ≡ some (status_text Status.pending))
      × (s.hashes job Field.attempts ≡ some (text "0"))
      × (s.hashes job Field.max_attempts ≡ some (to_string (attempts_of rt has_bus o)))
      × (rs
          ≡ fill w.clock (attempts_of rt has_bus o) (new_row uuid rt has_bus job_name payload o w)
            ∷ w.postgres_state)

  stored-Stored :
      Stored
        (stored uuid rt has_bus job_name payload o w).redis_state
        (stored uuid rt has_bus job_name payload o w).postgres_state
  unfolding execute
  stored-Stored = (
    simp same_refl,
    refl,
    simp same_refl,
    simp same_refl,
    simp same_refl,
    simp same_refl,
    simp same_refl,
    simp same_refl,
    simp same_refl,
    refl,
  )

  enqueued-Stored :
      let v = enqueued uuid rt has_bus job_name payload o w in Stored v.redis_state v.postgres_state
  enqueued-Stored =
      let (lists, hashes, zsets, table, drawn, clock) =
        bookkeeping has_bus (given o.idempotency_key)
          (stored uuid rt has_bus job_name payload o w) in
      let (l, z, n, q, p, v, t, a, m, r) = stored-Stored in
      let job = Keys.job (uuid w.drawn) in
      (
        ap (λ x. x (Keys.target_list (queue_of rt has_bus o) (priority_of rt has_bus o))) lists ∙ l,
        zsets ∙ z,
        ap (λ x. x job Field.job_name) hashes ∙ n,
        ap (λ x. x job Field.queue_name) hashes ∙ q,
        ap (λ x. x job Field.priority) hashes ∙ p,
        ap (λ x. x job Field.payload) hashes ∙ v,
        ap (λ x. x job Field.status) hashes ∙ t,
        ap (λ x. x job Field.attempts) hashes ∙ a,
        ap (λ x. x job Field.max_attempts) hashes ∙ m,
        table ∙ r,
      )

module _ (b : Backend) (rt : Runtime) (has_bus : Bool) (job_name : Text) (payload : rt.Json)
    (o : EnqueueOptions) (w : World b) where
  pub enqueue-enqueued :
      is_empty job_name ≡ false
      → known_id o w.clock (state w) ≡ none
      → ltb 0 (delay_of o.delay) ≡ false
      → clashes (b.uuid w.drawn) (given o.idempotency_key) (rows w) ≡ false
      → view_result b (run b (enqueue rt has_bus job_name payload o) (calm w))
        ≡ (ok (b.uuid w.drawn), enqueued b.uuid rt has_bus job_name payload o (view w))
  enqueue-enqueued e k d c =
      run-view b (enqueue rt has_bus job_name payload o) (calm w)
      ∙ enqueue-known b.uuid rt has_bus (view w) job_name payload o e
      ∙ ap
          (λ x.
            run (documented b.uuid) (return_or_create rt has_bus job_name payload o x)
              (calm (view w)))
          k
      ∙ create-fresh b.uuid rt has_bus job_name payload o (view w) d c

  -- With nothing failing and nobody interfering: when Redis knows no job for the options, the job
  -- is not delayed, and no row has the idempotency key or the drawn id, `enqueue` with a non-empty
  -- job name returns the drawn id. It stands once more, at the head, in the list of the queue and
  -- priority, no delayed set changes, the job's hash has the name, queue, priority,
  -- payload, status, attempts and most attempts of the options or their defaults, and the table
  -- has one row more.
  pub enqueue_stores :
      is_empty job_name ≡ false
      → known_id o w.clock (state w) ≡ none
      → ltb 0 (delay_of o.delay) ≡ false
      → clashes (b.uuid w.drawn) (given o.idempotency_key) (rows w) ≡ false
      → let out = run b (enqueue rt has_bus job_name payload o) (calm w) in
        (out.0 ≡ ok (b.uuid w.drawn))
        × Stored b.uuid rt has_bus job_name payload o (view w) (state out.1) (rows out.1)
  enqueue_stores e k d c =
      let q = enqueue-enqueued e k d c in
      (
        ap (λ x. x.0) q,
        subst
            (λ x.
              Stored b.uuid rt has_bus job_name payload o (view w) x.1.redis_state
                x.1.postgres_state)
            (sym q) (enqueued-Stored b.uuid rt has_bus job_name payload o (view w)),
      )

given-some : (o : Option Text) (t : Text) → o ≡ some t → is_empty t ≡ false → given o ≡ some t
given-some o t e h = rw e (rw h refl)

known_for_a_day :
    (o : EnqueueOptions) (s : Keyspace) (key id : Text) (t d : ℕ)
    → given o.idempotency_key ≡ some key
    → s.strings (Keys.idempotency key) ≡ some (record { value = id; expires = t + 86400 * 1000 })
    → is_empty id ≡ false
    → d < 86400000
    → known_id o (t + d) s ≡ some id
known_for_a_day o s key id t d k e h lt =
    ap (λ x. given (found_id x (t + d) s)) k
    ∙ ap (λ x. given (live (t + d) x)) e
    ∙ ap (λ c. given (if c then some id else none)) (in_time t d lt)
    ∙ given-some (some id) id refl h
  where
    in_time : (t d : ℕ) → d < 86400000 → ltb (t + d) (t + 86400 * 1000) ≡ true
    in_time t d lt = ground arith

-- With nothing failing and nobody interfering: when Redis knows no job for the options, the job is
-- not delayed and no row clashes, an `enqueue` with an idempotency key, and a second one less than
-- a day later with the same key, with any name that is not empty, any payload and any other
-- options, return the same id, and the second changes nothing in Redis and Postgres.
pub enqueue_twice :
    (b : Backend) (rt : Runtime) (has_bus : Bool) (job_name job_name' key : Text)
    (payload payload' : rt.Json) (o o' : EnqueueOptions) (w : World b) (d : ℕ)
    → is_empty job_name ≡ false
    → is_empty job_name' ≡ false
    → is_empty key ≡ false
    → o.idempotency_key ≡ some key
    → o'.idempotency_key ≡ some key
    → known_id o w.clock (state w) ≡ none
    → ltb 0 (delay_of o.delay) ≡ false
    → clashes (b.uuid w.drawn) (given o.idempotency_key) (rows w) ≡ false
    → is_empty (b.uuid w.drawn) ≡ false
    → d < 86400000
    → let first = run b (enqueue rt has_bus job_name payload o) (calm w) in
      let later = record first.1 { clock = first.1.clock + d; plan = [] } in
      (first.0 ≡ ok (b.uuid w.drawn))
      × (view_result b (run b (enqueue rt has_bus job_name' payload' o') later)
          ≡ (ok (b.uuid w.drawn), view later))
enqueue_twice b rt has_bus job_name job_name' key payload payload' o o' w d e e' hk k k' known delay
      fresh hid lt =
    let first = run b (enqueue rt has_bus job_name payload o) (calm w) in
    let q = enqueue-enqueued b rt has_bus job_name payload o w e known delay fresh in
    let kept =
      ap (λ x. x.1.redis_state.strings (Keys.idempotency key)) q
      ∙ ap
          (λ x.
            (told b.uuid rt has_bus job_name payload o (view w) has_bus (
                remembered b.uuid rt has_bus job_name payload o (view w) x
                  (stored b.uuid rt has_bus job_name payload o (view w)))).redis_state.strings
              (Keys.idempotency key))
          (given-some o.idempotency_key key k hk)
      ∙ key_kept b.uuid rt has_bus job_name payload o (view w) has_bus key
          (stored b.uuid rt has_bus job_name payload o (view w)) in
    let (lists, hashes, zsets, table, drawn, clock) =
      bookkeeping b.uuid rt has_bus job_name payload o (view w) has_bus (given o.idempotency_key)
        (stored b.uuid rt has_bus job_name payload o (view w)) in
    let same_time = ap (λ x. x.1.clock) q ∙ clock in
    (
      ap (λ x. x.0) q,
      enqueue_repeats b rt has_bus job_name' payload' o' (b.uuid w.drawn)
          (record first.1 { clock = first.1.clock + d }) e'
          (ap (λ t. known_id o' (t + d) (state first.1)) same_time
            ∙ known_for_a_day o' (state first.1) key (b.uuid w.drawn) w.clock d
                (given-some o'.idempotency_key key k' hk) kept hid lt),
    )
