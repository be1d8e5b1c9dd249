-- ===== src/Worker/Completing.antt =====
-- What the completion of a job does: worker/src/worker.ts.
use nexus_queue.Prelude.{ℕ, ◌≡◌, refl, ap, ap₂, ◌∙◌, Option, none, some, List, [], ◌∷◌, map}
use nexus_queue.Prelude.Tests.{if◌then◌else◌, or_else}
use nexus_queue.Prelude.Texts.{Text, text, same, update, update_self}
use nexus_queue.Prelude.Decimal.{int}
use nexus_queue.Prelude.Lists.{remove_n}
use nexus_queue.Shared.Keys.{keys}
use nexus_queue.Shared.Keys
use nexus_queue.Shared.Db.{db}
use nexus_queue.Shared.Types.{Status, status_text}
use nexus_queue.Services.Reply.{Field, Hash}
use nexus_queue.Services.Redis.{execute, put_fields}
use nexus_queue.Services.Postgres.{query}
use nexus_queue.Program.{try_catch, ◌>>◌}
use nexus_queue.Program.World.{World, ok, documented, run, calm}
use nexus_queue.Worker.Handlers.{Runtime, JobHandler}
use nexus_queue.Worker.Pulling.{Worker}
use nexus_queue.Worker.Process.{
  announce, await_handler, event, complete, handle_failure, dispatch, run_handler, parsed,
}

module _ (uuid : ℕ → Text) (rt : Runtime) (worker : Worker rt) (id : Text)
    (w : World (documented uuid)) where
  abbrev done_hash : Hash
  done_hash = put_fields (w.redis_state.hashes (Keys.job id)) (
      (Field.status, status_text Status.completed)
      ∷ (Field.completed_at, rt.iso w.clock)
      ∷ (Field.error_message, [])
      ∷ [])

  -- Both stores before the event.
  abbrev settled : World (documented uuid)
  settled = record (calm w) {
    redis_state = record w.redis_state {
      hashes = update w.redis_state.hashes (Keys.job id) done_hash;
      lists =
          update w.redis_state.lists (Keys.processing worker.worker_id)
            (remove_n 1 id (w.redis_state.lists (Keys.processing worker.worker_id)));
    };
    postgres_state =
        map
          (λ r.
            if same r.id id
            then record r {
              status = Status.completed;
              completed_at = some w.clock;
              error_message = none;
            }
            else r)
          w.postgres_state;
  }

  abbrev pub completed : World (documented uuid)
  completed = record settled {
    redis_state = record settled.redis_state {
      channel =
          event rt worker (text "job.completed") id
            (or_else (w.redis_state.hashes (Keys.job id) Field.job_name) [])
            (or_else (w.redis_state.hashes (Keys.job id) Field.queue_name) worker.queue) none
            w.clock
          ∷ w.redis_state.channel;
    };
  }

  -- Inside the `try` of the handler.
  complete-run :
      run
        (documented uuid)
        (try_catch (complete rt worker id) (λ message. handle_failure rt worker id message))
        (calm w)
      ≡ (ok tt, completed)
  unfolding complete execute query db
  complete-run =
      ap
        (λ h.
          run (documented uuid)
            (try_catch
              (announce rt worker (
                event rt worker (text "job.completed") id (or_else (h Field.job_name) [])
                  (or_else (h Field.queue_name) worker.queue) none))
              (λ message. handle_failure rt worker id message))
            settled)
        (update_self w.redis_state.hashes (Keys.job id) done_hash)

  pub dispatch-completes :
      (job_name : Text) (a : ℕ) (payload : Option Text) (handler : Option (JobHandler rt))
      (f : JobHandler rt) (v : rt.Json)
      → handler ≡ some f
      → parsed rt worker payload ≡ some v
      → f v (record {
        job_id = id;
        job_name = job_name;
        attempt = int a;
        worker_id = worker.worker_id;
      })
        ≡ none
      → run (documented uuid) (dispatch rt worker id job_name (int a) payload handler) (calm w)
        ≡ (ok tt, completed)
  unfolding dispatch run_handler
  dispatch-completes job_name a payload handler f v hh hp hf =
      ap (λ x. run (documented uuid) (dispatch rt worker id job_name (int a) payload x) (calm w)) hh
      ∙ ap (λ x. run (documented uuid) (run_handler rt worker id job_name (int a) f x) (calm w)) hp
      ∙ ap
          (λ o.
            run (documented uuid)
              (try_catch (await_handler rt worker o >> complete rt worker id)
                (λ message. handle_failure rt worker id message))
              (calm w))
          hf
      ∙ complete-run

pub map_twice :
    {A : Type 0} (f g h : A → A)
    → ((x : A) → f (g x) ≡ h x)
    → (xs : List A) → map f (map g xs) ≡ map h xs
map_twice f g h e [] = refl
map_twice f g h e (x ∷ xs) = ap₂ (λ y ys. y ∷ ys) (e x) (map_twice f g h e xs)
