-- ===== src/Worker/Rounds.antt =====
-- The life of a job that always fails: `processOne` of worker/src/worker.ts and the promotion of
-- worker/src/scheduler.ts in turns.
use nexus_queue.Prelude.{
  ℕ, zero, suc, ◌+◌, ◌≤◌, ◌<◌, ◌≡◌, refl, ap, subst, ◌∙◌, Bool, true, false, none, some, List, ◌∷◌,
  arith,
}
use nexus_queue.Prelude.Tests.{leb, if◌then◌else◌, or_else}
use nexus_queue.Prelude.Texts.{Text, text, same, is_empty}
use nexus_queue.Prelude.Decimal.{to_string}
use nexus_queue.Shared.Keys.{keys}
use nexus_queue.Shared.Keys
use nexus_queue.Shared.Types.{Status, status_text}
use nexus_queue.Services.Reply.{Field}
use nexus_queue.Services.Redis.{Keyspace, zset_has, zset_remove}
use nexus_queue.Program.Places.{zset_has-insert}
use nexus_queue.Program.Transfer.{view}
use nexus_queue.Program.World.{Backend, World, documented, after, calm, state}
use nexus_queue.Worker.Handlers.{Runtime, JobHandler, get, Fails}
use nexus_queue.Worker.Pulling.{Worker, map_get}
use nexus_queue.Worker.Process.{backoff, process_one}
use nexus_queue.Worker.Attempts.{Attempted, process_one_counts_attempts}
use nexus_queue.Worker.Scheduler.{promote_job}
use nexus_queue.Worker.Promotion.{Promoted, promote_once}

dlq-apart : (q p : Text) → same (Keys.target_list q p) (Keys.dlq q) ≡ false
unfolding keys Keys.target_list
dlq-apart q p = apart (same p (text "normal"))
  where
    apart :
        (c : Bool) → same (if c then Keys.queue q else Keys.queue_priority q p) (Keys.dlq q) ≡ false
    apart true = refl
    apart false = refl

leb-below : (k m : ℕ) → k + 1 < m → leb m (k + 1) ≡ false
leb-below k m lt = ground arith

leb-last : (m : ℕ) → leb (m + 1) (m + 1) ≡ true
leb-last m = ground arith

-- A job of the queue `q` with `k` attempts of `m`.
abbrev Tried : Text → Text → Text → ℕ → ℕ → List Text → Keyspace → Type 0
Tried id job_name q m k dead s =
    (s.hashes (Keys.job id) Field.attempts ≡ some (to_string k))
    × (s.hashes (Keys.job id) Field.max_attempts ≡ some (to_string m))
    × (s.hashes (Keys.job id) Field.job_name ≡ some job_name)
    × (s.hashes (Keys.job id) Field.queue_name ≡ some q)
    × (s.lists (Keys.dlq q) ≡ dead)

module _ (rt : Runtime) (worker : Worker rt) (id job_name q : Text) (m k t : ℕ) (dead : List Text)
    (s s' : Keyspace) where
  -- A failed attempt that is not the last.
  retried-Tried :
      Tried id job_name q m k dead s
      → Attempted rt worker id false (k + 1) t s s'
      → Tried id job_name q m (k + 1) dead s' × (zset_has id (s'.zsets (Keys.delayed q)) ≡ true)
  retried-Tried (ea, em, en, eq, ed)
        (status, attempts, processing, dlq, delayed, (same_name, same_queue, same_max)) =
      (
        (
          attempts,
          same_max ∙ em,
          same_name ∙ en,
          same_queue ∙ eq,
          subst
                (λ o.
                  s'.lists (Keys.dlq (or_else o (text "default")))
                  ≡ s.lists (Keys.dlq (or_else o (text "default"))))
                eq dlq
              ∙ ed,
        ),
        subst (λ o. zset_has id (s'.zsets (Keys.delayed (or_else o (text "default")))) ≡ true) eq
            (ap (zset_has id) delayed
              ∙ zset_has-insert id (backoff (k + 1) + t) (
                  zset_remove id (
                    s.zsets (
                      Keys.delayed
                        (or_else (s.hashes (Keys.job id) Field.queue_name) (text "default")))))),
      )

  -- The last one.
  buried-list :
      Tried id job_name q m k dead s
      → Attempted rt worker id true (k + 1) t s s'
      → s'.lists (Keys.dlq q) ≡ id ∷ dead
  buried-list (ea, em, en, eq, ed) (status, attempts, processing, dlq, delayed, kept) =
      subst
        (λ o.
          s'.lists (Keys.dlq (or_else o (text "default")))
          ≡ id ∷ s.lists (Keys.dlq (or_else o (text "default"))))
        eq dlq
      ∙ ap (λ ids. id ∷ ids) ed

Promoted-Tried :
    (uuid : ℕ → Text) (id job_name q : Text) (m k : ℕ) (dead : List Text)
    (v : World (documented uuid)) (s' : Keyspace)
    → Tried id job_name q m k dead v.redis_state
    → Promoted uuid q id v s'
    → Tried id job_name q m k dead s'
Promoted-Tried uuid id job_name q m k dead v s' (ea, em, en, eq, ed)
      (list, gone, status, fields, lists) =
    (
      fields Field.attempts refl ∙ ea,
      fields Field.max_attempts refl ∙ em,
      fields Field.job_name refl ∙ en,
      fields Field.queue_name refl ∙ eq,
      lists (Keys.dlq q) (dlq-apart q _) ∙ ed,
    )

module _ (b : Backend) (rt : Runtime) (worker : Worker rt) (id job_name q : Text) (pause : ℕ) where
  -- An attempt, and the promotion of the job after a pause.
  abbrev pub round : World b → World b
  round w =
      let tried = after b (process_one rt worker id) (calm w) in
      after b (promote_job q id) (calm (record tried { clock = tried.clock + pause }))

  abbrev pub rounds : ℕ → World b → World b
  rounds zero w = w
  rounds (suc k) w = round (rounds k w)

  module _ (m : ℕ) (dead : List Text) (ee : is_empty job_name ≡ false)
      (el : map_get worker.rate_limits q ≡ none)
      (fails : (f : JobHandler rt) → get rt worker.handlers job_name ≡ some f → Fails rt f) where
    attempt :
        (k : ℕ) (w : World b)
        → Tried id job_name q m k dead (state w)
        → Attempted rt worker id
            (leb m (k + 1))
            (k + 1)
            w.clock
            (state w)
            (state (after b (process_one rt worker id) (calm w)))
    attempt k w (ea, em, en, eq, ed) =
        process_one_counts_attempts b rt worker id job_name k m w ea em en ee
          (ap (λ o. map_get worker.rate_limits (or_else o worker.queue)) eq ∙ el) fails

    round-Tried :
        (k : ℕ) (w : World b)
        → k + 1 < m
        → Tried id job_name q m k dead (state w)
        → Tried id job_name q m (k + 1) dead (state (round w))
    round-Tried k w lt h =
        let tried = after b (process_one rt worker id) (calm w) in
        let (h', waits) =
          retried-Tried rt worker id job_name q m k w.clock dead (state w) (state tried) h (
            subst (λ last. Attempted rt worker id last (k + 1) w.clock (state w) (state tried))
              (leb-below k m lt) (attempt k w h)) in
        Promoted-Tried b.uuid id job_name q m (k + 1) dead
          (view (record tried { clock = tried.clock + pause })) (state (round w)) h'
          (promote_once b q id (record tried { clock = tried.clock + pause }) waits).0

    rounds-Tried :
        (k : ℕ) (w : World b)
        → k < m
        → Tried id job_name q m 0 dead (state w)
        → Tried id job_name q m k dead (state (rounds k w))
    rounds-Tried zero w lt h = h
    rounds-Tried (suc k) w lt h =
        subst (λ n. Tried id job_name q m n dead (state (rounds (suc k) w))) (omega arith)
          (round-Tried k (rounds k w) (omega (arith, lt)) (rounds-Tried k w (omega (arith, lt)) h))

-- With nothing failing and nobody interfering, a job with no attempt and at most `m + 1` of them,
-- whose queue has no rate limit, and whose handler, if there is one, always throws, ends: as long as
-- attempts and promotions by the scheduler follow each other, whatever the pause between them, the
-- first `m` rounds leave it out of the dead-letter list, with one attempt counted for each, and
-- the attempt after them, the last, puts it there, once, with the status dlq and all attempts counted.
pub failing_job_ends :
    (b : Backend) (rt : Runtime) (worker : Worker rt) (id job_name q : Text) (pause m : ℕ)
    (w : World b)
    → let h = (state w).hashes (Keys.job id) in
      h Field.attempts ≡ some (to_string 0)
      → h Field.max_attempts ≡ some (to_string (m + 1))
      → h Field.job_name ≡ some job_name
      → h Field.queue_name ≡ some q
      → is_empty job_name ≡ false
      → map_get worker.rate_limits q ≡ none
      → ((f : JobHandler rt) → get rt worker.handlers job_name ≡ some f → Fails rt f)
      → let dead = (state w).lists (Keys.dlq q) in
        let last = state (
          after b (process_one rt worker id) (calm (rounds b rt worker id job_name q pause m w))) in
        ((k : ℕ)
          → k ≤ m
          → ((state (rounds b rt worker id job_name q pause k w)).hashes
                (Keys.job id)
                Field.attempts
              ≡ some (to_string k))
            × ((state (rounds b rt worker id job_name q pause k w)).lists (Keys.dlq q) ≡ dead))
        × (last.hashes (Keys.job id) Field.status ≡ some (status_text Status.dlq))
        × (last.hashes (Keys.job id) Field.attempts ≡ some (to_string (m + 1)))
        × (last.lists (Keys.dlq q) ≡ id ∷ dead)
failing_job_ends b rt worker id job_name q pause m w ea em en eq ee el fails =
    let dead = (state w).lists (Keys.dlq q) in
    let along = λ (k : ℕ) (le : k ≤ m).
      rounds-Tried b rt worker id job_name q pause (m + 1) dead ee el fails k w (omega (arith, le))
        (ea, em, en, eq, refl) in
    let v = rounds b rt worker id job_name q pause m w in
    let h = along m (omega arith) in
    let s' = state (after b (process_one rt worker id) (calm v)) in
    let a =
      subst (λ last. Attempted rt worker id last (m + 1) v.clock (state v) s') (leb-last m)
        (attempt b rt worker id job_name q pause (m + 1) dead ee el fails m v h) in
    (
      λ k le. ((along k le).0, (along k le).4),
      a.0,
      a.1,
      buried-list rt worker id job_name q (m + 1) m v.clock dead (state v) s' h a,
    )
