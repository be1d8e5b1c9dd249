-- ===== src/Dashboard/Api.antt =====
-- dashboard/src/api.ts: the requests of the dashboard, and what the server answers to them: the guard
-- of server/src/auth.ts, the statuses of server/src/routes.ts, and the error handler of
-- server/src/index.ts. The browser's encoding of a URL and Express' decoding are taken together: a
-- query is the list of its pairs.
use nexus_queue.Prelude.{ℕ, Bool, true, false, Option, none, some, List, [], ◌∷◌, ◌++◌}
use nexus_queue.Prelude.Tests.{if◌then◌else◌}
use nexus_queue.Prelude.Texts.{Text, text, same, is_empty}
use nexus_queue.Prelude.Decimal.{to_string}
use nexus_queue.Program.World.{Backend, World, Result, ok, err, run, calm}
use nexus_queue.Worker.Handlers.{Runtime}
use nexus_queue.Server.Auth.{Outcome, next, reject, Headers, Jwt, jwt_middleware}
use nexus_queue.Server.Reads.{
  JobView, JobsAnswer, invalid_status, page, list_jobs, JobAnswer, missing_id, not_found, found,
  read_job,
}
use nexus_queue.Server.Inspect.{DlqJob, list_dlq}
use nexus_queue.Server.Routes.{
  RequeueBody, RetryAnswer, success, not_retriable, retry, RequeueAnswer, invalid_request, counted,
  requeue,
}
use nexus_queue.Server.Routes

abbrev pub Params : Type 0
Params = List (Text × Text)

-- The parameters of `getQueueJobs`: what is left out, or empty, is not sent.
abbrev set_status : Option Text → Params → Params
set_status none ps = ps
set_status (some t) ps = if is_empty t then ps else (text "status", t) ∷ ps

abbrev set_number : Text → Option ℕ → Params → Params
set_number name none ps = ps
set_number name (some n) ps = (name, to_string n) ∷ ps

unfoldable pub jobs_params : Option Text → Option ℕ → Option ℕ → Params
jobs_params status limit offset =
    set_status status (set_number (text "limit") limit (set_number (text "offset") offset []))

-- The body of `requeueDlq`.
abbrev pub requeue_body : Option (List Text) → RequeueBody
requeue_body (some ids) = record { job_ids = some ids; all = false }
requeue_body none = record { job_ids = none; all = true }

-- `req.query[name]`
abbrev pub param : Text → Params → Option Text
param name [] = none
param name ((n, t) ∷ ps) = let rest = param name ps in if same n name then some t else rest

-- What `fetch` gives: a body with a status that is ok, or a status that is not.
pub data Response (A : Type 0) : Type 0 where
  json : A → Response A
  status : ℕ → Response A

-- `if (!res.ok) throw new Error(...)`
abbrev pub checked : {A : Type 0} → Text → Response A → Result A
checked what (json a) = ok a
checked what (status n) = err (text "Failed to " ++ what ++ text ": " ++ to_string n)

-- The dashboard sends no header that a guard reads.
abbrev pub no_headers : Headers
no_headers = record { authorization = none; x_api_key = none }

abbrev pub guarded : {A : Type 0} → Outcome → Response A → Response A
guarded next r = r
guarded (reject n e m) r = status n

module _ (rt : Runtime) where
  abbrev pub jobs_response : Result (JobsAnswer rt) → Response (List (JobView rt) × ℕ)
  jobs_response (ok (page jobs total)) = json (jobs, total)
  jobs_response (ok invalid_status) = status 400
  jobs_response (err e) = status 500

  abbrev pub job_response : Result (JobAnswer rt) → Response (JobView rt)
  job_response (ok (found job)) = json job
  job_response (ok missing_id) = status 400
  job_response (ok not_found) = status 404
  job_response (err e) = status 500

abbrev pub retry_response : Result RetryAnswer → Response Bool
retry_response (ok success) = json true
retry_response (ok not_retriable) = status 400
retry_response (ok Routes.not_found) = status 404
retry_response (err e) = status 500

abbrev pub requeue_response : Result RequeueAnswer → Response ℕ
requeue_response (ok (counted requeued failed)) = json requeued
requeue_response (ok invalid_request) = status 400
requeue_response (err e) = status 500

abbrev pub dlq_response : {A : Type 0} → Result (List A × ℕ) → Response (List A)
dlq_response (ok (jobs, total)) = json jobs
dlq_response (err e) = status 500

module _ (jwt : Jwt) (secret : Option Text) (b : Backend) (rt : Runtime) where
  -- What the guard lets through.
  abbrev pub guard : {A : Type 0} → ℕ → Response A → Response A
  guard time r = guarded (jwt_middleware jwt secret no_headers time) r

  -- The requests, on a server that nothing disturbs.
  unfoldable pub get_queue_jobs : Text → Params → World b → Result (List (JobView rt) × ℕ)
  get_queue_jobs name ps w = checked (text "fetch jobs") (
      guard w.clock (
        jobs_response rt
          (run b
            (list_jobs rt name (param (text "status") ps) (param (text "limit") ps)
              (param (text "offset") ps))
            (calm w)).0))

  unfoldable pub get_job : Text → World b → Result (JobView rt)
  get_job id w =
      checked (text "fetch job")
        (guard w.clock (job_response rt (run b (read_job rt id) (calm w)).0))

  -- A request that the guard turns away does nothing.
  abbrev pub behind : {A : Type 0} → Outcome → World b → Response A × World b → Response A × World b
  behind next w out = out
  behind (reject n e m) w out = (status n, w)

  -- The answer, as the dashboard reads it.
  abbrev pub read_answer : {A : Type 0} → Text → Response A × World b → Result A × World b
  read_answer what (r, w) = (checked what r, w)

  abbrev pub responded :
      {A C : Type 0} → (Result A → Response C) → Result A × World b → Response C × World b
  responded f (r, w) = (f r, w)

  unfoldable pub retry_job : Bool → Text → World b → Result Bool × World b
  retry_job has_bus id w = read_answer (text "retry job") (
      behind (jwt_middleware jwt secret no_headers w.clock) w
        (responded retry_response (run b (retry has_bus id) (calm w))))

  unfoldable pub get_dlq_jobs : Text → World b → Result (List (DlqJob rt))
  get_dlq_jobs name w =
      checked (text "fetch DLQ jobs")
        (guard w.clock (dlq_response (run b (list_dlq rt name none none) (calm w)).0))

  unfoldable pub requeue_dlq : Bool → Text → Option (List Text) → World b → Result ℕ × World b
  requeue_dlq has_bus name job_ids w = read_answer (text "requeue DLQ jobs") (
      behind (jwt_middleware jwt secret no_headers w.clock) w
        (responded requeue_response (run b (requeue has_bus name (requeue_body job_ids)) (calm w))))
