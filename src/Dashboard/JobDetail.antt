-- ===== src/Dashboard/JobDetail.antt =====
-- dashboard/src/components/JobDetail.tsx: the panel of one job.
pub mod Retrying
use nexus_queue.Prelude.{Bool, true, false, ◌||◌, Option, none, some}
use nexus_queue.Prelude.Texts.{Text, text, same}
use nexus_queue.Shared.Types.{status_text}
use nexus_queue.Program.World.{Backend, World, Result, ok, err}
use nexus_queue.Worker.Handlers.{Runtime}
use nexus_queue.Server.Auth.{Jwt}
use nexus_queue.Server.Reads.{JobView}
use nexus_queue.Dashboard.Api.{get_job, retry_job}

module _ (rt : Runtime) where
  pub record Detail : Type 0 where
    pub job : Option (JobView rt)
    pub error : Option Text
    pub retrying : Bool

  -- What is shown: an error, that the job loads, or the job with a button that may be missing and
  -- may be disabled.
  pub data Shown : Type 0 where
    failed : Text → Shown
    loading : Shown
    job_of : JobView rt → Bool → Bool → Shown

  abbrev pub can_retry : JobView rt → Bool
  can_retry job =
      same (status_text job.status) (text "failed") || same (status_text job.status) (text "dlq")

  abbrev show : Option Text → Option (JobView rt) → Bool → Shown
  show (some message) job busy = failed message
  show none none busy = loading
  show none (some job) busy = job_of job (can_retry job) busy

  unfoldable pub shown : Detail → Shown
  shown d = show d.error d.job d.retrying

  -- The body of the `then`, or of the `catch`.
  abbrev pub receive : Result (JobView rt) → Detail → Detail
  receive (ok job) d = record d { job = some job }
  receive (err message) d = record d { error = some message }

  module _ (jwt : Jwt) (secret : Option Text) (b : Backend) where
    -- The effect, with its answer.
    abbrev pub opened : Text → World b → Detail → Detail
    opened id w d = receive (get_job jwt secret b rt id w) (record d { error = none })

    abbrev pub after_retry : Text → Result Bool × World b → Detail → Detail × World b
    after_retry id (ok done, w) d =
        (receive (get_job jwt secret b rt id w) (record d { retrying = false }), w)
    after_retry id (err message, w) d = (record d { error = some message; retrying = false }, w)

    unfoldable pub handle_retry : Bool → Text → Detail → World b → Detail × World b
    handle_retry has_bus id d w = after_retry id (retry_job jwt secret b rt has_bus id w) d
