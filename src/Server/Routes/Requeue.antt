-- ===== src/Server/Routes/Requeue.antt =====
-- Where a dead-lettered job goes when it is put back: server/src/routes.ts.
use nexus_queue.Prelude.{
  ℕ, ◌≡◌, refl, sym, ap, subst, ◌∙◌, Bool, true, false, some, List, [], ◌∷◌, arith,
}
use nexus_queue.Prelude.Tests.{or_else}
use nexus_queue.Prelude.Texts.{Text, text, same, same_refl, update}
use nexus_queue.Prelude.Lists.{has, remove_n}
use nexus_queue.Shared.Keys.{keys, target_list}
use nexus_queue.Shared.Keys
use nexus_queue.Shared.Db.{db}
use nexus_queue.Shared.Types.{Status, status_text}
use nexus_queue.Services.Reply.{Field}
use nexus_queue.Services.Redis.{Keyspace, execute, zset_has}
use nexus_queue.Services.Postgres.{query}
use nexus_queue.Program.Triple.{in_list, in_zset, Somewhere}
use nexus_queue.Program.Transfer.{view, run-view}
use nexus_queue.Program.World.{
  Backend, World, Turn, fine, dropped, ok, documented, run, after, calm, state,
}
use nexus_queue.Server.Routes.{requeue_one, requeue_all, counted}

pub target-ne-dlq : (q p n : Text) → same (Keys.target_list q p) (Keys.dlq n) ≡ false
unfolding keys target_list
target-ne-dlq q p n = ground arith

pub dlq-ne-target : (q p n : Text) → same (Keys.dlq n) (Keys.target_list q p) ≡ false
unfolding keys target_list
dlq-ne-target q p n = ground arith

module _ (name id : Text) (s : Keyspace) where
  abbrev target : Text
  target = Keys.target_list name (or_else (s.hashes (Keys.job id) Field.priority) (text "normal"))

  -- The id at the head of its queue, once less in the dead-letter list, and starting over.
  abbrev pub Requeued : Keyspace → Type 0
  Requeued s' =
      (s'.lists target ≡ id ∷ s.lists target)
      × (s'.lists (Keys.dlq name) ≡ remove_n 1 id (s.lists (Keys.dlq name)))
      × (s'.hashes (Keys.job id) Field.status ≡ some (status_text Status.pending))
      × (s'.hashes (Keys.job id) Field.attempts ≡ some (text "0"))
      × (s'.zsets ≡ s.zsets)

module _ (uuid : ℕ → Text) (name id : Text) (w : World (documented uuid)) where
  requeued :
      (has_bus : Bool)
      → ((run (documented uuid) (requeue_all has_bus name (id ∷ []) 0 0) (calm w)).0
          ≡ ok (counted 1 0))
        × Requeued name id w.redis_state
            (after (documented uuid) (requeue_all has_bus name (id ∷ []) 0 0) (calm w)).redis_state
  unfolding requeue_all requeue_one execute query db
  requeued true = (
    refl,
    (
      simp (same_refl, dlq-ne-target),
      simp (same_refl, target-ne-dlq),
      simp same_refl,
      simp same_refl,
      refl,
    ),
  )
  requeued false = (
    refl,
    (
      simp (same_refl, dlq-ne-target),
      simp (same_refl, target-ne-dlq),
      simp same_refl,
      simp same_refl,
      refl,
    ),
  )

-- When nothing fails and nobody interferes, putting one job back counts it as requeued, pushes its
-- id once on the list of the queue and of the priority of its hash, takes it once out of the
-- queue's dead-letter list, sets its status to pending and its attempts to 0, and leaves the
-- delayed sets alone.
pub requeue_moves :
    (b : Backend) (has_bus : Bool) (name id : Text) (w : World b)
    → let out = run b (requeue_all has_bus name (id ∷ []) 0 0) (calm w) in
      (out.0 ≡ ok (counted 1 0)) × Requeued name id (state w) (state out.1)
requeue_moves b has_bus name id w =
    let e = run-view b (requeue_all has_bus name (id ∷ []) 0 0) (calm w) in
    let (answered, moved) = requeued b.uuid name id (view w) has_bus in
    (
      ap (λ x. x.0) e ∙ answered,
      subst (λ x. Requeued name id (state w) x.1.redis_state) (sym e) moved,
    )

-- The connection to Redis fails right after the removal from the dead-letter list.
abbrev pub after_removal : Text → List Turn
after_removal e =
    record { others = []; fault = fine }
    ∷ record { others = []; fault = fine }
    ∷ record { others = []; fault = fine }
    ∷ record { others = []; fault = dropped e }
    ∷ []

module _ (uuid : ℕ → Text) (has_bus : Bool) (name id e : Text) (w : World (documented uuid)) where
  abbrev cut_off : World (documented uuid)
  cut_off =
      after (documented uuid) (requeue_all has_bus name (id ∷ []) 0 0)
        (record w { plan = after_removal e })

  cut_off-answer :
      (run
        (documented uuid)
        (requeue_all has_bus name (id ∷ []) 0 0)
        (record w { plan = after_removal e })).0
      ≡ ok (counted 0 1)
  unfolding requeue_all requeue_one execute query db
  cut_off-answer = refl

  cut_off-lists :
      cut_off.redis_state.lists
      ≡ update w.redis_state.lists
          (Keys.dlq name)
          (remove_n 1 id (w.redis_state.lists (Keys.dlq name)))
  unfolding requeue_all requeue_one execute query db
  cut_off-lists = refl

  cut_off-zsets : cut_off.redis_state.zsets ≡ w.redis_state.zsets
  unfolding requeue_all requeue_one execute query db
  cut_off-zsets = refl

  not_in_lists :
      (k : Text) (b : Bool)
      → same (Keys.dlq name) k ≡ b
      → has id (remove_n 1 id (w.redis_state.lists (Keys.dlq name))) ≡ false
      → (b ≡ false → has id (w.redis_state.lists k) ≡ false)
      → has id (cut_off.redis_state.lists k) ≡ false
  not_in_lists k true e once others = rw cut_off-lists (rw e once)
  not_in_lists k false e once others = rw cut_off-lists (rw e (others refl))

  cut_off-nowhere :
      has id (remove_n 1 id (w.redis_state.lists (Keys.dlq name))) ≡ false
      → ((k : Text) → same (Keys.dlq name) k ≡ false → has id (w.redis_state.lists k) ≡ false)
      → ((k : Text) → zset_has id (w.redis_state.zsets k) ≡ false)
      → ¬ Somewhere uuid id cut_off
  cut_off-nowhere once others zsets (in_list k, h) =
      cc (not_in_lists k (same (Keys.dlq name) k) refl once (others k))
  cut_off-nowhere once others zsets (in_zset k, h) =
      cc (zsets k, ap (λ z. zset_has id (z k)) cut_off-zsets)

-- A dead-lettered job can be lost: if the id stands once in the queue's dead-letter list, and in no
-- other list and no sorted set, and the connection fails right after the LREM, then the request
-- counts one failed job, and the id stands in no list and no sorted set.
pub requeue_may_lose :
    (b : Backend) (has_bus : Bool) (name id e : Text) (w : World b)
    → has id (remove_n 1 id ((state w).lists (Keys.dlq name))) ≡ false
    → ((k : Text) → same (Keys.dlq name) k ≡ false → has id ((state w).lists k) ≡ false)
    → ((k : Text) → zset_has id ((state w).zsets k) ≡ false)
    → let out =
        run b (requeue_all has_bus name (id ∷ []) 0 0) (record w { plan = after_removal e }) in
      (out.0 ≡ ok (counted 0 1)) × (¬ Somewhere b.uuid id (view out.1))
requeue_may_lose b has_bus name id e w once others zsets =
    let q =
      run-view b (requeue_all has_bus name (id ∷ []) 0 0) (record w { plan = after_removal e }) in
    (
      ap (λ x. x.0) q ∙ cut_off-answer b.uuid has_bus name id e (view w),
      subst (λ x. ¬ Somewhere b.uuid id x.1) (sym q)
          (cut_off-nowhere b.uuid has_bus name id e (view w) once others zsets),
    )
