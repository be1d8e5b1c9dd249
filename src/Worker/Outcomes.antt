-- ===== src/Worker/Outcomes.antt =====
-- What becomes of a job when nothing fails and nobody interferes: worker/src/worker.ts.
use nexus_queue.Prelude.{ℕ, ◌≡◌, refl, ap, ◌∙◌, Bool, true, false, Option, none, some, []}
use nexus_queue.Prelude.Tests.{leb, if◌then◌else◌, or_else}
use nexus_queue.Prelude.Texts.{Text, text, is_empty}
use nexus_queue.Prelude.Decimal.{Number, int, to_string, to_number-to_string}
use nexus_queue.Services.Reply.{Field, Hash}
use nexus_queue.Program.World.{World, documented, run, after}
use nexus_queue.Worker.Handlers.{Runtime, JobHandler, HandlerContext, Fails}
use nexus_queue.Worker.Pulling.{Worker, map_get}
use nexus_queue.Worker.Process.{
  dead_letter, dispatch, start_job, proceed, parsed, run_handler, retry_later, settle_failure,
  handle_failure,
}
use nexus_queue.Worker.Failing.{
  quiet, job_hash, retried, retry_later-run, handle_failure-run, buried, dead_letter-run,
}

module _ (rt : Runtime) (worker : Worker rt) (id : Text) where
  pub proceed-start :
      (h : Hash) (job_name : Text)
      → h Field.job_name ≡ some job_name
      → is_empty job_name ≡ false
      → map_get worker.rate_limits (or_else (h Field.queue_name) worker.queue) ≡ none
      → proceed rt worker id h
        ≡ start_job rt worker id job_name (or_else (h Field.queue_name) worker.queue) h
  unfolding proceed
  proceed-start h job_name en ee el = rw (en, ee, el)

  settle_failure-retry :
      (message : Text) (h : Hash) (a m : ℕ)
      → h Field.attempts ≡ some (to_string a)
      → h Field.max_attempts ≡ some (to_string m)
      → settle_failure rt worker id message h ≡ (
          if leb m a
          then dead_letter rt worker id message
              (or_else (h Field.queue_name) (text "default"))
              (or_else (h Field.job_name) [])
          else retry_later rt worker id (int a) (or_else (h Field.queue_name) (text "default")))
  unfolding settle_failure
  settle_failure-retry message h a m ea em =
      rw (ea, em, to_number-to_string a, to_number-to_string m)

module _ (uuid : ℕ → Text) (rt : Runtime) (worker : Worker rt) (id : Text) where
  -- When the handler throws, what is left is `handleFailure` with some message.
  pub dispatch-Fails :
      (w : World (documented uuid)) (job_name : Text) (attempt : Number) (payload : Option Text)
      (handler : Option (JobHandler rt))
      → ((f : JobHandler rt) → handler ≡ some f → Fails rt f)
      → (message : Text) × (run
            (documented uuid)
            (dispatch rt worker id job_name attempt payload handler)
            (quiet uuid rt worker id w)
          ≡ run (documented uuid) (handle_failure rt worker id message) (quiet uuid rt worker id w))
  unfolding dispatch run_handler
  dispatch-Fails w job_name attempt payload none fails = (_, refl)
  dispatch-Fails w job_name attempt payload (some f) fails = runs (parsed rt worker payload)
    where
      context : HandlerContext
      context = record {
        job_id = id;
        job_name = job_name;
        attempt = attempt;
        worker_id = worker.worker_id;
      }

      runs :
          (value : Option rt.Json)
          → (message : Text) × (run
                (documented uuid)
                (run_handler rt worker id job_name attempt f value)
                (quiet uuid rt worker id w)
              ≡ run
                  (documented uuid)
                  (handle_failure rt worker id message)
                  (quiet uuid rt worker id w))
      runs none = (_, refl)
      runs (some v) = let (m, e) = fails f refl v context in (m, rw e refl)

  module _ (w : World (documented uuid)) where
    -- What a failed attempt leaves, the `a`-th, if it was the last or not.
    abbrev pub failed : Bool → Text → Text → Text → ℕ → World (documented uuid)
    failed last queue_name job_name message a =
        if last
        then buried uuid rt worker id w queue_name job_name message
        else retried uuid rt worker id w queue_name a

    settle-failed :
        (last : Bool) (queue_name job_name message : Text) (a : ℕ)
        → after
            (documented uuid)
            (if last
              then dead_letter rt worker id message queue_name job_name
              else retry_later rt worker id (int a) queue_name)
            (quiet uuid rt worker id w)
          ≡ failed last queue_name job_name message a
    settle-failed true queue_name job_name message a =
        ap (λ x. x.1) (dead_letter-run uuid rt worker id w queue_name job_name message)
    settle-failed false queue_name job_name message a =
        ap (λ x. x.1) (retry_later-run uuid rt worker id w queue_name a)

    pub handle_failure-failed :
        (message : Text) (a m : ℕ)
        → job_hash uuid rt worker id w Field.attempts ≡ some (to_string a)
        → job_hash uuid rt worker id w Field.max_attempts ≡ some (to_string m)
        → after (documented uuid) (handle_failure rt worker id message) (quiet uuid rt worker id w)
          ≡ failed
              (leb m a)
              (or_else (job_hash uuid rt worker id w Field.queue_name) (text "default"))
              (or_else (job_hash uuid rt worker id w Field.job_name) [])
              message
              a
    handle_failure-failed message a m ea em =
        ap (λ x. x.1) (handle_failure-run uuid rt worker id w message)
        ∙ ap (λ p. after (documented uuid) p (quiet uuid rt worker id w))
            (settle_failure-retry rt worker id message (job_hash uuid rt worker id w) a m ea em)
        ∙ settle-failed (leb m a) _ _ message a
