-- ===== src/Dashboard/DlqInspector.antt =====
-- dashboard/src/components/DlqInspector.tsx: the list of a queue's dead-lettered jobs.
pub mod Emptying
use nexus_queue.Prelude.{ℕ, Bool, true, false, Option, none, some, List, []}
use nexus_queue.Prelude.Texts.{Text}
use nexus_queue.Program.World.{Backend, World, Result, ok, err}
use nexus_queue.Worker.Handlers.{Runtime}
use nexus_queue.Server.Auth.{Jwt}
use nexus_queue.Server.Inspect.{DlqJob}
use nexus_queue.Dashboard.Api.{get_dlq_jobs, requeue_dlq, retry_job}

module _ (rt : Runtime) where
  pub record Inspector : Type 0 where
    pub jobs : List (DlqJob rt)
    pub loading : Bool
    pub error : Option Text

  abbrev pub initial : Inspector
  initial = record { jobs = []; loading = true; error = none }

  -- `try`, `catch` and `finally` of `fetchJobs`.
  abbrev pub receive : Result (List (DlqJob rt)) → Inspector → Inspector
  receive (ok js) p = record p { jobs = js; error = none; loading = false }
  receive (err message) p = record p { error = some message; loading = false }

  module _ (jwt : Jwt) (secret : Option Text) (b : Backend) (has_bus : Bool)
      (queue_name : Text) where
    unfoldable pub fetch_jobs : World b → Inspector → Inspector
    fetch_jobs w p = receive (get_dlq_jobs jwt secret b rt queue_name w) p

    -- What follows a request that changes jobs.
    abbrev pub refresh : {A : Type 0} → Result A × World b → Inspector → Inspector × World b
    refresh (ok a, w) p = (receive (get_dlq_jobs jwt secret b rt queue_name w) p, w)
    refresh (err message, w) p = (record p { error = some message }, w)

    unfoldable pub handle_requeue_all : Inspector → World b → Inspector × World b
    handle_requeue_all p w = refresh (requeue_dlq jwt secret b rt has_bus queue_name none w) p

    unfoldable pub handle_retry : Text → Inspector → World b → Inspector × World b
    handle_retry id p w = refresh (retry_job jwt secret b rt has_bus id w) p
