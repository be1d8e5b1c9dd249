-- ===== src/Dashboard/JobDetail/Retrying.antt =====
-- What a click on Retry does, from the panel to the table of jobs and back.
use nexus_queue.Prelude.{
  ℕ, ◌≡◌, refl, sym, ap, subst, ◌∙◌, Bool, true, false, Option, none, some, List, [], ◌∷◌, map, inl,
  inr,
}
use nexus_queue.Prelude.Tests.{if◌then◌else◌, Bool-cases}
use nexus_queue.Prelude.Texts.{Text, same, is_empty}
use nexus_queue.Shared.Types.{Status}
use nexus_queue.Shared.Db.{db}
use nexus_queue.Services.Reply.{Row, row}
use nexus_queue.Services.Redis.{execute}
use nexus_queue.Services.Postgres.{query, find_row}
use nexus_queue.Program.{ret, as_row, ◌>>=◌}
use nexus_queue.Program.World.{Backend, World, ok, documented, run, after, calm, state, rows}
use nexus_queue.Program.Transfer.{view, run-view}
use nexus_queue.Worker.Handlers.{Runtime}
use nexus_queue.Server.Auth.{Jwt, jwt_middleware}
use nexus_queue.Server.Reads.{view_row, missing_id, found, show_row, read_job}
use nexus_queue.Server.Routes.{retriable, retry, retry_found}
use nexus_queue.Server.Routes.Retry.{Retried, retry_moves, retry-retriable}
use nexus_queue.Dashboard.Api.{checked, get_job, retry_job, job_response, retry_response}
use nexus_queue.Server.Routes
use nexus_queue.Prelude.Texts.{text}
use nexus_queue.Prelude.{◌||◌}
use nexus_queue.Shared.Types.{status_text}
use nexus_queue.Dashboard.JobDetail.{
  Detail, job_of, can_retry, shown, receive, after_retry, handle_retry,
}

-- A row that waits again. Its attempts and its error message stay.
abbrev pub waiting : Row → Row
waiting r = record r { status = Status.pending; started_at = none; completed_at = none }

abbrev waiting_at : Text → Row → Row
waiting_at id r = if same r.id id then waiting r else r

find_row-waiting :
    (id : Text) (job : Row) (rs : List Row)
    → find_row id rs ≡ some job
    → find_row id (map (waiting_at id) rs) ≡ some (waiting job)
find_row-waiting id job [] h = cc
find_row-waiting id job (r ∷ rs) h = elim (Bool-cases (same r.id id)) [
  | inl e ↦ rw e (rw e (ap waiting_of (sym (ap (λ b. if b then some r else find_row id rs) e) ∙ h)))
  | inr ne ↦ rw ne (
      rw ne
        (find_row-waiting id job rs (sym (ap (λ b. if b then some r else find_row id rs) ne) ∙ h)))
]
  where
    waiting_of : Option Row → Option Row
    waiting_of none = none
    waiting_of (some r) = some (waiting r)

module _ (uuid : ℕ → Text) (id : Text) (w : World (documented uuid)) where
  retry_found-rows :
      (has_bus : Bool) (job : Row)
      → (after (documented uuid) (retry_found has_bus id job) (calm w)).postgres_state
        ≡ map (waiting_at id) w.postgres_state
  unfolding retry_found execute query db
  retry_found-rows true job = refl
  retry_found-rows false job = refl

  read_job-run :
      (rt : Runtime) (job : Row)
      → is_empty id ≡ false
      → find_row id w.postgres_state ≡ some job
      → (run (documented uuid) (read_job rt id) (calm w)).0 ≡ ok (found (view_row rt job))
  unfolding read_job query db
  read_job-run rt job e h =
      ap
        (λ c.
          (run (documented uuid)
            (if c
              then ret missing_id
              else (nexus_queue.Shared.Db.get_job id >>= λ r. ret (show_row rt r)))
            (calm w)).0)
        e
      ∙ ap (λ r. (run (documented uuid) (as_row (row r) >>= λ r. ret (show_row rt r)) (calm w)).0) h

module _ (jwt : Jwt) (b : Backend) (rt : Runtime) (has_bus : Bool) (id : Text) (job : Row)
    (w : World b) where
  abbrev retried : World b
  retried = after b (retry has_bus id) (calm w)

  retry_job-run :
      (run b (retry has_bus id) (calm w)).0 ≡ ok Routes.success
      → retry_job jwt none b rt has_bus id w ≡ (ok true, retried)
  unfolding retry_job jwt_middleware
  retry_job-run e = ap (λ x. (checked (text "retry job") (retry_response x), retried)) e

  rows-retried :
      find_row id (rows w) ≡ some job
      → retriable job.status ≡ true
      → rows retried ≡ map (waiting_at id) (rows w)
  rows-retried e h =
      ap (λ x. x.1.postgres_state)
        (run-view b (retry has_bus id) (calm w)
          ∙ retry-retriable b.uuid id (view w) has_bus job e h)
      ∙ retry_found-rows b.uuid id (view w) has_bus job

  get_job-run :
      (w : World b) (job : Row)
      → is_empty id ≡ false
      → find_row id (rows w) ≡ some job
      → get_job jwt none b rt id w ≡ ok (view_row rt job)
  unfolding get_job jwt_middleware
  get_job-run w job e h =
      ap (λ x. checked (text "fetch job") (job_response rt x.0))
        (run-view b (read_job rt id) (calm w))
      ∙ ap (λ x. checked (text "fetch job") (job_response rt x))
          (read_job-run b.uuid id (view w) rt job e h)

-- The panel that has loaded a job.
abbrev pub loaded : (rt : Runtime) → Row → Detail rt
loaded rt job = record { job = some (view_row rt job); error = none; retrying = false }

can_retry-retriable : (rt : Runtime) (r : Row) → can_retry rt (view_row rt r) ≡ retriable r.status
can_retry-retriable rt r = go r.status
  where
    go :
        (s : Status)
        → (same (status_text s) (text "failed") || same (status_text s) (text "dlq")) ≡ retriable s
    go Status.pending = refl
    go Status.active = refl
    go Status.completed = refl
    go Status.failed = refl
    go Status.delayed = refl
    go Status.dlq = refl

-- The panel of a job offers the retry exactly when the server accepts it. On a server without
-- JWT_SECRET, when nothing fails and nobody interferes, a click on it for a job whose row is failed
-- or dead-lettered moves the job from the dead-letter list to the head of its queue, and then the
-- panel shows the job as pending, with no times of start and end and no button, but with the
-- attempts and the error message it had.
pub retry_click_shows :
    (jwt : Jwt) (b : Backend) (rt : Runtime) (has_bus : Bool) (id : Text) (job other : Row)
    (w : World b)
    → is_empty id ≡ false
    → find_row id (rows w) ≡ some job
    → retriable job.status ≡ true
    → let out = handle_retry rt jwt none b has_bus id (loaded rt job) w in
      (shown rt (loaded rt other) ≡ job_of (view_row rt other) (retriable other.status) false)
      × (shown rt out.0 ≡ job_of (view_row rt (waiting job)) false false)
      × Retried id job.queue_name (state w) (state out.1)
unfolding shown handle_retry
retry_click_shows jwt b rt has_bus id job other w e f h =
    let (answered, moved) = retry_moves b has_bus id job w f h in
    let sent = retry_job-run jwt b rt has_bus id job w answered in
    let seen =
      get_job-run jwt b rt has_bus id job w (retried jwt b rt has_bus id job w) (waiting job) e (
        subst (λ rs. find_row id rs ≡ some (waiting job))
          (sym (rows-retried jwt b rt has_bus id job w f h))
          (find_row-waiting id job (rows w) f)) in
    (
      ap (λ c. job_of (view_row rt other) c false) (can_retry-retriable rt other),
      ap (λ x. shown rt (after_retry rt jwt none b id x (loaded rt job)).0) sent
          ∙ ap (λ x. shown rt (receive rt x (loaded rt job))) seen,
      subst
          (λ x.
            Retried id job.queue_name (state w)
              (state (after_retry rt jwt none b id x (loaded rt job)).1))
          (sym sent) moved,
    )
