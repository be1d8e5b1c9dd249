-- ===== src/Worker/Promotion.antt =====
-- Promoting delayed jobs: worker/src/scheduler.ts.
use nexus_queue.Prelude.{
  ℕ, ◌≡◌, refl, sym, ap, subst, ◌∙◌, Bool, true, false, inl, inr, Option, none, some, List, [], ◌∷◌,
  arith,
}
use nexus_queue.Prelude.Tests.{◌==◌, if◌then◌else◌, or_else, Bool-cases}
use nexus_queue.Prelude.Texts.{Text, text, same, same_refl, update}
use nexus_queue.Prelude.Lists.{has}
use nexus_queue.Shared.Keys.{keys}
use nexus_queue.Shared.Keys
use nexus_queue.Shared.Types.{Status, status_text}
use nexus_queue.Services.Reply.{Field, same_field, Reply}
use nexus_queue.Services.Redis.{
  Keyspace, execute, put_fields, of_option, zset_has, zset_remove, of_bool, zrem, lpush, hset,
}
use nexus_queue.Program.{Prog, ret, as_number, as_text, command, ◌>>=◌, ◌>>◌}
use nexus_queue.Program.Steps.{calm_step}
use nexus_queue.Program.Triple.{in_list, in_zset, Somewhere}
use nexus_queue.Program.Transfer.{view, run-view}
use nexus_queue.Program.World.{
  Backend, World, Turn, fine, dropped, ok, err, documented, run, after, calm, state,
}
use nexus_queue.Worker.Scheduler.{promote_job, promote_rest}

pub zset_has-remove : (m : Text) (z : List (Text × ℕ)) → zset_has m (zset_remove m z) ≡ false
zset_has-remove m [] = refl
zset_has-remove m ((x, t) ∷ z) = ground (arith, zset_has-remove m z)

zset_remove_absent : (m : Text) (z : List (Text × ℕ)) → zset_has m z ≡ false → zset_remove m z ≡ z
zset_remove_absent m [] h = refl
zset_remove_absent m ((x, t) ∷ z) h = ground (arith, zset_remove_absent m z)

module _ (uuid : ℕ → Text) (queue_name id : Text) (w : World (documented uuid)) where
  abbrev due_set : List (Text × ℕ)
  due_set = w.redis_state.zsets (Keys.delayed queue_name)

  abbrev priority : Text
  priority = or_else (w.redis_state.hashes (Keys.job id) Field.priority) (text "normal")

  -- With the id out of the delayed set.
  abbrev removed : Keyspace
  removed = record w.redis_state {
    zsets = update w.redis_state.zsets (Keys.delayed queue_name) (zset_remove id due_set);
  }

  -- With the id in its queue, for this priority.
  abbrev promoted : Text → World (documented uuid)
  promoted p = record (calm w) {
    redis_state = record removed {
      lists =
          let target = Keys.target_list queue_name p in
          update removed.lists target (id ∷ removed.lists target);
      hashes = update removed.hashes (Keys.job id) (
          put_fields (removed.hashes (Keys.job id))
            ((Field.status, status_text Status.pending) ∷ []));
    };
  }

  abbrev promote_next : Reply → Prog (Unit {0})
  promote_next r = as_number r >>= λ n. if n == 0 then ret tt else promote_rest queue_name id

  abbrev push_next : Reply → Prog (Unit {0})
  push_next r = as_text r >>= λ p.
      (command (lpush (Keys.target_list queue_name (or_else p (text "normal"))) id)
        >> command (hset (Keys.job id) ((Field.status, status_text Status.pending) ∷ [])))

  push_run :
      (o : Option Text)
      → run (documented uuid) (push_next (of_option o)) (calm (record w { redis_state = removed }))
        ≡ (ok tt, promoted (or_else o (text "normal")))
  unfolding execute
  push_run none = refl
  push_run (some p) = refl

  promote_rest-run :
      run (documented uuid) (promote_rest queue_name id) (calm (record w { redis_state = removed }))
      ≡ (ok tt, promoted priority)
  unfolding execute
  promote_rest-run = push_run (w.redis_state.hashes (Keys.job id) Field.priority)

  zrem-run :
      (present : Bool)
      → zset_has id due_set ≡ present
      → execute (zrem (Keys.delayed queue_name) id) w.clock w.redis_state
        ≡ (removed, of_bool present)
  unfolding execute
  zrem-run present e = rw e

  promote_present :
      zset_has id due_set ≡ true
      → run (documented uuid) (promote_job queue_name id) (calm w) ≡ (ok tt, promoted priority)
  unfolding promote_job
  promote_present e = calm_step uuid _ promote_next w _ _ (zrem-run true e) ∙ promote_rest-run

  promote_absent :
      zset_has id due_set ≡ false
      → run (documented uuid) (promote_job queue_name id) (calm w)
        ≡ (ok tt, calm (record w { redis_state = removed }))
  unfolding promote_job
  promote_absent e = calm_step uuid _ promote_next w _ _ (zrem-run false e)

  promoted_set :
      zset_has id ((promoted priority).redis_state.zsets (Keys.delayed queue_name)) ≡ false
  promoted_set = rw (same_refl (Keys.delayed queue_name)) (zset_has-remove id due_set)

  -- What one scheduler makes of a due job.
  abbrev pub Promoted : Keyspace → Type 0
  Promoted s' =
      let target = Keys.target_list queue_name priority in
      (s'.lists target ≡ id ∷ w.redis_state.lists target)
      × (zset_has id (s'.zsets (Keys.delayed queue_name)) ≡ false)
      × (s'.hashes (Keys.job id) Field.status ≡ some (status_text Status.pending))
      × ((f : Field)
          → same_field Field.status f ≡ false
          → s'.hashes (Keys.job id) f ≡ w.redis_state.hashes (Keys.job id) f)
      × ((k : Text) → same target k ≡ false → s'.lists k ≡ w.redis_state.lists k)

  promoted-Promoted : Promoted (promoted priority).redis_state
  promoted-Promoted = (
    simp same_refl,
    promoted_set,
    simp same_refl,
    λ f e. rw (same_refl (Keys.job id), e) refl,
    λ k e. rw e refl,
  )

-- When nothing fails and nobody interferes, and the id stands in the queue's delayed set: a
-- scheduler that promotes it takes it out of that set, pushes it once on the list of the queue
-- and the priority of its hash, and sets its status to pending; no other list and no other field of
-- the hash changes. A second scheduler that read the
-- same due list and promotes it again changes no list and no hash.
pub promote_once :
    (b : Backend) (queue_name id : Text) (w : World b)
    → zset_has id ((state w).zsets (Keys.delayed queue_name)) ≡ true
    → let w1 = after b (promote_job queue_name id) (calm w) in
      let w2 = after b (promote_job queue_name id) (calm w1) in
      Promoted b.uuid queue_name id (view w) (state w1)
      × ((state w2).lists ≡ (state w1).lists)
      × ((state w2).hashes ≡ (state w1).hashes)
promote_once b queue_name id w e =
    let w1 : World b = after b (promote_job queue_name id) (calm w) in
    let first =
      ap (λ x. x.1.redis_state) (run-view b (promote_job queue_name id) (calm w))
      ∙ ap (λ x. x.1.redis_state) (promote_present b.uuid queue_name id (view w) e) in
    let absent =
      ap (λ s. zset_has id (s.zsets (Keys.delayed queue_name))) first
      ∙ promoted_set b.uuid queue_name id (view w) in
    let second =
      ap (λ x. x.1.redis_state) (run-view b (promote_job queue_name id) (calm w1))
      ∙ ap (λ x. x.1.redis_state) (promote_absent b.uuid queue_name id (view w1) absent) in
    (
      subst (Promoted b.uuid queue_name id (view w)) (sym first)
          (promoted-Promoted b.uuid queue_name id (view w)),
      ap (λ s. s.lists) second,
      ap (λ s. s.hashes) second,
    )

-- A crash right after the ZREM: every later request is dropped.
abbrev pub crash_plan : Text → List Turn
crash_plan e = record { others = []; fault = fine } ∷ record { others = []; fault = dropped e } ∷ []

module _ (uuid : ℕ → Text) (queue_name id e : Text) (w : World (documented uuid)) where
  crash_run :
      zset_has id (w.redis_state.zsets (Keys.delayed queue_name)) ≡ true
      → run (documented uuid) (promote_job queue_name id) (record w { plan = crash_plan e })
        ≡ (err e, calm (record w { redis_state = removed uuid queue_name id w }))
  unfolding promote_job execute
  crash_run h =
      ap
        (λ x.
          run (documented uuid) (promote_next uuid queue_name id w x.1)
            (record w { redis_state = x.0; plan = record { others = []; fault = dropped e } ∷ [] }))
        (zrem-run uuid queue_name id w true h)

  nowhere :
      ((k : Text) → has id (w.redis_state.lists k) ≡ false)
      → ((k : Text)
          → same (Keys.delayed queue_name) k ≡ false
          → zset_has id (w.redis_state.zsets k) ≡ false)
      → ¬ Somewhere uuid id (calm (record w { redis_state = removed uuid queue_name id w }))
  nowhere lists zsets (in_list k, h) = cc (lists k)
  nowhere lists zsets (in_zset k, h) = elim (Bool-cases (same (Keys.delayed queue_name) k)) [
    | inl e ↦ absurd (here k e h)
    | inr e ↦ absurd (there k e h)
  ]
    where
      here :
          (k : Text)
          → same (Keys.delayed queue_name) k ≡ true
          → zset_has id (
              update w.redis_state.zsets
                (Keys.delayed queue_name)
                (zset_remove id (w.redis_state.zsets (Keys.delayed queue_name)))
                k)
            ≡ true
          → ⊥
      here k e h =
          ground (arith, zset_has-remove id (w.redis_state.zsets (Keys.delayed queue_name)))

      there :
          (k : Text)
          → same (Keys.delayed queue_name) k ≡ false
          → zset_has id (
              update w.redis_state.zsets
                (Keys.delayed queue_name)
                (zset_remove id (w.redis_state.zsets (Keys.delayed queue_name)))
                k)
            ≡ true
          → ⊥
      there k e h = ground (arith, zsets k)

-- A delayed job can be lost: if the id stands in the queue's delayed set, and in no other sorted
-- set and no list, and the scheduler's connection fails right after its ZREM, then `promote_job`
-- throws and the id stands in no list and no sorted set.
pub promote_may_lose :
    (b : Backend) (queue_name id e : Text) (w : World b)
    → zset_has id ((state w).zsets (Keys.delayed queue_name)) ≡ true
    → ((k : Text) → has id ((state w).lists k) ≡ false)
    → ((k : Text)
        → same (Keys.delayed queue_name) k ≡ false
        → zset_has id ((state w).zsets k) ≡ false)
    → let out = run b (promote_job queue_name id) (record w { plan = crash_plan e }) in
      (out.0 ≡ err e) × (¬ Somewhere b.uuid id (view out.1))
promote_may_lose b queue_name id e w present lists zsets =
    let q =
      run-view b (promote_job queue_name id) (record w { plan = crash_plan e })
      ∙ crash_run b.uuid queue_name id e (view w) present in
    (
      ap (λ x. x.0) q,
      subst (λ x. ¬ Somewhere b.uuid id x.1) (sym q)
          (nowhere b.uuid queue_name id e (view w) lists zsets),
    )
