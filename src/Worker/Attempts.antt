-- ===== src/Worker/Attempts.antt =====
-- One failed attempt of a job: worker/src/worker.ts.
use nexus_queue.Prelude.{
  ℕ, ◌+◌, ◌≡◌, refl, sym, ap, ap₂, subst, ◌∙◌, Bool, true, false, none, some, [], ◌∷◌,
}
use nexus_queue.Prelude.Tests.{leb, if◌then◌else◌, or_else}
use nexus_queue.Prelude.Texts.{Text, text, same_refl, is_empty}
use nexus_queue.Prelude.Decimal.{int, to_string, to_number-to_string}
use nexus_queue.Prelude.Lists.{remove_n}
use nexus_queue.Shared.Keys.{keys}
use nexus_queue.Shared.Keys
use nexus_queue.Shared.Types.{Status, status_text}
use nexus_queue.Services.Reply.{Field, Hash}
use nexus_queue.Services.Redis.{Keyspace, put_fields, zset_insert, zset_remove}
use nexus_queue.Program.World.{Backend, World, documented, run, after, state, calm}
use nexus_queue.Program.Transfer.{view, run-view}
use nexus_queue.Worker.Handlers.{Runtime, JobHandler, get, Fails}
use nexus_queue.Worker.Pulling.{Worker, map_get}
use nexus_queue.Worker.Process.{next_attempt, backoff, dispatch, process_one}
use nexus_queue.Worker.Outcomes.{failed, proceed-start, dispatch-Fails, handle_failure-failed}
use nexus_queue.Worker.Failing.{begun, buried, retried, job_hash, process_one-run, start_job-run}

-- What no attempt changes in the hash of a job.
abbrev pub SameJob : Hash → Hash → Type 0
SameJob h h' =
    (h' Field.job_name ≡ h Field.job_name)
    × (h' Field.queue_name ≡ h Field.queue_name)
    × (h' Field.max_attempts ≡ h Field.max_attempts)

-- The job's id in Redis after a failed attempt, the `n`-th, at time `t`, the last one
-- or not.
module _ (rt : Runtime) (worker : Worker rt) (id : Text) where
  abbrev pub Attempted : Bool → ℕ → ℕ → Keyspace → Keyspace → Type 0
  Attempted last n t s s' =
      let queue_name = or_else (s.hashes (Keys.job id) Field.queue_name) (text "default") in
      (s'.hashes (Keys.job id) Field.status
        ≡ some (status_text (if last then Status.dlq else Status.delayed)))
      × (s'.hashes (Keys.job id) Field.attempts ≡ some (to_string n))
      × (s'.lists (Keys.processing worker.worker_id)
          ≡ remove_n 1 id (s.lists (Keys.processing worker.worker_id)))
      × (s'.lists (Keys.dlq queue_name)
          ≡ (if last then id ∷ s.lists (Keys.dlq queue_name) else s.lists (Keys.dlq queue_name)))
      × (s'.zsets (Keys.delayed queue_name) ≡ (
          if last
          then s.zsets (Keys.delayed queue_name)
          else zset_insert id (backoff n + t) (zset_remove id (s.zsets (Keys.delayed queue_name)))))
      × SameJob (s.hashes (Keys.job id)) (s'.hashes (Keys.job id))

module _ (uuid : ℕ → Text) (rt : Runtime) (worker : Worker rt) (id : Text)
    (w : World (documented uuid)) where
  abbrev now_begun : Text → Text → ℕ → World (documented uuid)
  now_begun job_name queue_name n = begun uuid rt worker id w job_name queue_name (int n)

  pub begun-hash :
      (job_name queue_name : Text) (n : ℕ) (f : Field)
      → job_hash uuid rt worker id (now_begun job_name queue_name n) f
        ≡ put_fields
            (w.redis_state.hashes (Keys.job id))
            ((Field.status, status_text Status.active)
              ∷ (Field.started_at, rt.iso w.clock)
              ∷ (Field.attempts, to_string n)
              ∷ [])
            f
  unfolding begun
  begun-hash job_name queue_name n f = rw (same_refl (Keys.job id))

  failed-Attempted :
      (last : Bool) (job_name queue_name message : Text) (n : ℕ)
      → let q = or_else (w.redis_state.hashes (Keys.job id) Field.queue_name) (text "default") in
        Attempted rt worker id last n w.clock w.redis_state
          (failed uuid rt worker id
            (now_begun job_name queue_name n)
            last
            q
            job_name
            message
            n).redis_state
  unfolding begun buried retried keys
  failed-Attempted true job_name queue_name message n = (
    simp same_refl,
    simp same_refl,
    simp same_refl,
    simp same_refl,
    refl,
    (simp same_refl, simp same_refl, simp same_refl),
  )
  failed-Attempted false job_name queue_name message n = (
    simp same_refl,
    simp same_refl,
    simp same_refl,
    refl,
    simp same_refl,
    (simp same_refl, simp same_refl, simp same_refl),
  )

  number_text-next_attempt :
      (a : ℕ)
      → w.redis_state.hashes (Keys.job id) Field.attempts ≡ some (to_string a)
      → next_attempt rt worker (w.redis_state.hashes (Keys.job id)) ≡ int (a + 1)
  number_text-next_attempt a ea = rw (ea, to_number-to_string a)

  module _ (job_name : Text) (a : ℕ)
      (ea : w.redis_state.hashes (Keys.job id) Field.attempts ≡ some (to_string a))
      (en : w.redis_state.hashes (Keys.job id) Field.job_name ≡ some job_name)
      (ee : is_empty job_name ≡ false)
      (el : map_get worker.rate_limits
          (or_else (w.redis_state.hashes (Keys.job id) Field.queue_name) worker.queue)
        ≡ none) where
    abbrev pub started : World (documented uuid)
    started =
        now_begun job_name
          (or_else (w.redis_state.hashes (Keys.job id) Field.queue_name) worker.queue) (a + 1)

    pub to_dispatch :
        run (documented uuid) (process_one rt worker id) (calm w)
        ≡ run
            (documented uuid)
            (dispatch rt worker id job_name
              (int (a + 1))
              (w.redis_state.hashes (Keys.job id) Field.payload)
              (get rt worker.handlers job_name))
            started
    to_dispatch =
        process_one-run uuid rt worker id w
        ∙ ap (λ p. run (documented uuid) p (calm w))
            (proceed-start rt worker id (w.redis_state.hashes (Keys.job id)) job_name en ee el)
        ∙ start_job-run uuid rt worker id w job_name _
        ∙ ap
            (λ n.
              run (documented uuid)
                (dispatch rt worker id job_name n (w.redis_state.hashes (Keys.job id) Field.payload)
                  (get rt worker.handlers job_name))
                (begun uuid rt worker id w job_name
                  (or_else (w.redis_state.hashes (Keys.job id) Field.queue_name) worker.queue) n))
            (number_text-next_attempt a ea)

    started_attempts : job_hash uuid rt worker id started Field.attempts ≡ some (to_string (a + 1))
    started_attempts = begun-hash job_name _ (a + 1) Field.attempts

    started_max :
        (m : ℕ)
        → w.redis_state.hashes (Keys.job id) Field.max_attempts ≡ some (to_string m)
        → job_hash uuid rt worker id started Field.max_attempts ≡ some (to_string m)
    started_max m em = begun-hash job_name _ (a + 1) Field.max_attempts ∙ em

    pub started_name : or_else (job_hash uuid rt worker id started Field.job_name) [] ≡ job_name
    started_name = ap (λ o. or_else o []) (begun-hash job_name _ (a + 1) Field.job_name ∙ en)

    started_queue :
        or_else (job_hash uuid rt worker id started Field.queue_name) (text "default")
        ≡ or_else (w.redis_state.hashes (Keys.job id) Field.queue_name) (text "default")
    started_queue =
        ap (λ o. or_else o (text "default")) (begun-hash job_name _ (a + 1) Field.queue_name)

    process_one-Attempted :
        (m : ℕ)
        → w.redis_state.hashes (Keys.job id) Field.max_attempts ≡ some (to_string m)
        → ((f : JobHandler rt) → get rt worker.handlers job_name ≡ some f → Fails rt f)
        → Attempted rt worker id
            (leb m (a + 1))
            (a + 1)
            w.clock
            w.redis_state
            (after (documented uuid) (process_one rt worker id) (calm w)).redis_state
    unfolding begun
    process_one-Attempted m em fails =
        let (message, e) =
          dispatch-Fails uuid rt worker id started job_name (int (a + 1)) _ _ fails in
        subst
          (λ x. Attempted rt worker id (leb m (a + 1)) (a + 1) w.clock w.redis_state x.redis_state)
          (sym (
            ap (λ x. x.1) (to_dispatch ∙ e)
            ∙ handle_failure-failed uuid rt worker id started message (a + 1) m started_attempts
                (started_max m em)
            ∙ ap₂ (λ q n. failed uuid rt worker id started (leb m (a + 1)) q n message (a + 1))
                started_queue started_name))
          (failed-Attempted (leb m (a + 1)) job_name _ message (a + 1))

-- With nothing failing and nobody interfering, take a job whose hash counts `a` attempts of at
-- most `m`, whose queue has no rate limit, and whose handler, if there is one, always throws.
-- Then `processOne` counts one attempt more, takes one occurrence of the id out of the worker's
-- processing list, and: if that attempt was the last, sets the status to dlq and pushes the id on
-- the queue's dead-letter list, leaving its delayed set alone; if not, sets the status to delayed
-- and puts the id into the delayed set, due `backoff` milliseconds from now, leaving the
-- dead-letter list alone. The hash keeps the job's name, queue and most attempts.
pub process_one_counts_attempts :
    (b : Backend) (rt : Runtime) (worker : Worker rt) (id job_name : Text) (a m : ℕ) (w : World b)
    → (state w).hashes (Keys.job id) Field.attempts ≡ some (to_string a)
    → (state w).hashes (Keys.job id) Field.max_attempts ≡ some (to_string m)
    → (state w).hashes (Keys.job id) Field.job_name ≡ some job_name
    → is_empty job_name ≡ false
    → map_get worker.rate_limits
        (or_else ((state w).hashes (Keys.job id) Field.queue_name) worker.queue)
      ≡ none
    → ((f : JobHandler rt) → get rt worker.handlers job_name ≡ some f → Fails rt f)
    → Attempted rt worker id
        (leb m (a + 1))
        (a + 1)
        w.clock
        (state w)
        (state (after b (process_one rt worker id) (calm w)))
process_one_counts_attempts b rt worker id job_name a m w ea em en ee el fails =
    subst (λ x. Attempted rt worker id (leb m (a + 1)) (a + 1) w.clock (state w) x.1.redis_state)
      (sym (run-view b (process_one rt worker id) (calm w)))
      (process_one-Attempted b.uuid rt worker id (view w) job_name a ea en ee el m em fails)
