-- ===== src/Server/Routes/Retry.antt =====
-- What the retry of a job does: server/src/routes.ts.
use nexus_queue.Prelude.{
  ℕ, ◌≡◌, ◌≢◌, refl, sym, ap, subst, ◌∙◌, Bool, true, false, Option, none, some, ◌∷◌,
}
use nexus_queue.Prelude.Tests.{if◌then◌else◌, or_else}
use nexus_queue.Prelude.Texts.{Text, text, same_refl}
use nexus_queue.Prelude.Lists.{remove_all}
use nexus_queue.Shared.Keys
use nexus_queue.Shared.Db.{db}
use nexus_queue.Shared.Types.{Status, status_text}
use nexus_queue.Services.Reply.{Field, Row, row}
use nexus_queue.Services.Redis.{Keyspace, execute}
use nexus_queue.Services.Postgres.{query, find_row}
use nexus_queue.Program.{ret, as_row, ◌>>=◌}
use nexus_queue.Program.Transfer.{view, view_result, run-view}
use nexus_queue.Program.World.{Backend, World, ok, documented, run, after, calm, state, rows}
use nexus_queue.Server.Routes.{
  not_found, not_retriable, success, retriable, retry_row, retry_found, retry,
}
use nexus_queue.Server.Routes.Requeue.{target-ne-dlq, dlq-ne-target}

module _ (id queue_name : Text) (s : Keyspace) where
  abbrev target : Text
  target =
      Keys.target_list queue_name (or_else (s.hashes (Keys.job id) Field.priority) (text "normal"))

  -- The id at the head of its queue, no more in the dead-letter list, and starting over.
  abbrev pub Retried : Keyspace → Type 0
  Retried s' =
      (s'.lists target ≡ id ∷ s.lists target)
      × (s'.lists (Keys.dlq queue_name) ≡ remove_all id (s.lists (Keys.dlq queue_name)))
      × (s'.hashes (Keys.job id) Field.status ≡ some (status_text Status.pending))
      × (s'.hashes (Keys.job id) Field.attempts ≡ some (text "0"))
      × (s'.zsets ≡ s.zsets)

module _ (uuid : ℕ → Text) (id : Text) (w : World (documented uuid)) where
  retry-row :
      (has_bus : Bool) (found : Option Row)
      → find_row id w.postgres_state ≡ found
      → run (documented uuid) (retry has_bus id) (calm w)
        ≡ run (documented uuid) (retry_row has_bus id found) (calm w)
  unfolding retry query db
  retry-row has_bus found e =
      ap (λ r. run (documented uuid) (as_row (row r) >>= retry_row has_bus id) (calm w)) e

  retry_found-Retried :
      (has_bus : Bool) (job : Row)
      → ((run (documented uuid) (retry_found has_bus id job) (calm w)).0 ≡ ok success)
        × Retried id job.queue_name w.redis_state
            (after (documented uuid) (retry_found has_bus id job) (calm w)).redis_state
  unfolding retry_found execute query db
  retry_found-Retried true job = (
    refl,
    (
      simp (same_refl, dlq-ne-target),
      simp (same_refl, target-ne-dlq),
      simp same_refl,
      simp same_refl,
      refl,
    ),
  )
  retry_found-Retried false job = (
    refl,
    (
      simp (same_refl, dlq-ne-target),
      simp (same_refl, target-ne-dlq),
      simp same_refl,
      simp same_refl,
      refl,
    ),
  )

  pub retry-retriable :
      (has_bus : Bool) (job : Row)
      → find_row id w.postgres_state ≡ some job
      → retriable job.status ≡ true
      → run (documented uuid) (retry has_bus id) (calm w)
        ≡ run (documented uuid) (retry_found has_bus id job) (calm w)
  retry-retriable has_bus job e h =
      retry-row has_bus (some job) e
      ∙ ap
          (λ b.
            run (documented uuid) (if b then retry_found has_bus id job else ret not_retriable)
              (calm w))
          h

  retry-refused :
      (has_bus : Bool) (job : Row)
      → find_row id w.postgres_state ≡ some job
      → retriable job.status ≡ false
      → run (documented uuid) (retry has_bus id) (calm w) ≡ (ok not_retriable, calm w)
  retry-refused has_bus job e h =
      retry-row has_bus (some job) e
      ∙ ap
          (λ b.
            run (documented uuid) (if b then retry_found has_bus id job else ret not_retriable)
              (calm w))
          h

-- When nothing fails and nobody interferes, and the job's row is failed or dead-lettered: the retry
-- succeeds, pushes the id once on the list of the row's queue and of the priority of the job's
-- hash, takes it out of that queue's dead-letter list, sets the status to pending and the attempts
-- to 0, and leaves the delayed sets alone.
pub retry_moves :
    (b : Backend) (has_bus : Bool) (id : Text) (job : Row) (w : World b)
    → find_row id (rows w) ≡ some job
    → retriable job.status ≡ true
    → let out = run b (retry has_bus id) (calm w) in
      (out.0 ≡ ok success) × Retried id job.queue_name (state w) (state out.1)
retry_moves b has_bus id job w e h =
    let q =
      run-view b (retry has_bus id) (calm w) ∙ retry-retriable b.uuid id (view w) has_bus job e h in
    let (answered, moved) = retry_found-Retried b.uuid id (view w) has_bus job in
    (
      ap (λ x. x.0) q ∙ answered,
      subst (λ x. Retried id job.queue_name (state w) x.1.redis_state) (sym q) moved,
    )

-- When nothing fails and nobody interferes: the retry of a job whose row has another status than
-- failed and dlq, and the retry of an id that has no row, are refused and change nothing.
pub retry_refuses :
    (b : Backend) (has_bus : Bool) (id other : Text) (job : Row) (w : World b)
    → find_row id (rows w) ≡ some job
    → job.status ≢ Status.failed
    → job.status ≢ Status.dlq
    → find_row other (rows w) ≡ none
    → (view_result b (run b (retry has_bus id) (calm w)) ≡ (ok not_retriable, view (calm w)))
      × (view_result b (run b (retry has_bus other) (calm w)) ≡ (ok not_found, view (calm w)))
retry_refuses b has_bus id other job w e alive undead absent = (
  run-view b (retry has_bus id) (calm w)
      ∙ retry-refused b.uuid id (view w) has_bus job e (refusable job.status alive undead),
  run-view b (retry has_bus other) (calm w) ∙ retry-row b.uuid other (view w) has_bus none absent,
)
  where
    refusable : (s : Status) → s ≢ Status.failed → s ≢ Status.dlq → retriable s ≡ false
    refusable Status.failed f d = absurd (f refl)
    refusable Status.dlq f d = absurd (d refl)
    refusable Status.pending f d = refl
    refusable Status.active f d = refl
    refusable Status.completed f d = refl
    refusable Status.delayed f d = refl
