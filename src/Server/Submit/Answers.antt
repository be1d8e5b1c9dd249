-- ===== src/Server/Submit/Answers.antt =====
-- What `POST /jobs` of server/src/routes.ts answers.
use nexus_queue.Prelude.{◌≡◌, refl, ap, ◌∙◌, subst, sym, Bool, false, Option, none, some, arith}
use nexus_queue.Prelude.Tests.{ltb, or_else}
use nexus_queue.Prelude.Texts.{Text, text, is_empty}
use nexus_queue.Shared.Types.{Priority, priority_text}
use nexus_queue.Services.Postgres.{clashes}
use nexus_queue.Program.{Prog, ret, throw, call, ◌>>=◌, try_catch}
use nexus_queue.Program.Transfer.{view}
use nexus_queue.Program.World.{Backend, World, Result, ok, err, run, calm, state, rows}
use nexus_queue.Worker.Handlers.{Runtime}
use nexus_queue.Server.Producer.{given, delay_of, enqueue}
use nexus_queue.Server.Producer.Enqueue.{known_id}
use nexus_queue.Server.Producer.Stores.{Stored, enqueue_stores}
use nexus_queue.Server.Submit.{
  Counters, increment_enqueued, RequestBody, EnqueueBody, enqueue_body_schema, invalid_request,
  created, failed, enqueue_payload, submit_checked, submit_job,
}

-- `try { return f(await p) } catch (e) { return h(e) }`
abbrev settled : {A B : Type 0} → (A → B) → (Text → B) → Result A → Result B
settled f h (ok a) = ok (f a)
settled f h (err e) = ok (h e)

run-try_catch :
    (b : Backend) {A B : Type 0} (p : Prog A) (f : A → B) (h : Text → B) (w : World b)
    → run b (try_catch (p >>= λ a. ret (f a)) (λ e. ret (h e))) w
      ≡ (settled f h (run b p w).0, (run b p w).1)
run-try_catch b (ret a) f h w = refl
run-try_catch b (throw e) f h w = refl
run-try_catch b (call q k) f h w = run-try_catch b (k _) f h _

-- A body that the schema accepts has a name.
accepted_name :
    (rt : Runtime) (body : RequestBody rt) (e : EnqueueBody rt)
    → enqueue_body_schema rt body ≡ some e
    → is_empty e.job_name ≡ false
unfolding enqueue_body_schema
accepted_name rt body e h = ground arith

-- The counter after a job is created.
abbrev pub counted : {rt : Runtime} → EnqueueBody rt → Counters → Counters
counted e c =
    increment_enqueued (or_else e.options.queue (text "default"))
      (priority_text (or_else e.options.priority Priority.normal)) c

module _ (b : Backend) (rt : Runtime) (has_bus : Bool) (c : Counters) (body : RequestBody rt)
    (e : EnqueueBody rt) (accepted : enqueue_body_schema rt body ≡ some e) where
  abbrev enqueued : World b → Result Text × World b
  enqueued w = run b (enqueue_payload rt has_bus e.job_name e.payload e.options) w

  submit_job-run :
      (w : World b)
      → run b (submit_job rt has_bus c body) w ≡ (
        settled (λ id. (created id, counted e c)) (λ m. (failed m, c)) (enqueued w).0,
        (enqueued w).1,
      )
  unfolding submit_job
  submit_job-run w =
      ap (λ x. run b (submit_checked rt has_bus c x) w) accepted
      ∙ run-try_catch b (enqueue_payload rt has_bus e.job_name e.payload e.options)
          (λ id. (created id, counted e c)) (λ m. (failed m, c)) w

  -- The same when it is known what the enqueue does.
  submitted :
      (payload : Option rt.Json) (w : World b) (out : Result Text × World b)
      → e.payload ≡ payload
      → run b (enqueue_payload rt has_bus e.job_name payload e.options) w ≡ out
      → run b (submit_job rt has_bus c body) w
        ≡ (settled (λ id. (created id, counted e c)) (λ m. (failed m, c)) out.0, out.1)
  submitted payload w out p h =
      submit_job-run w
      ∙ ap (λ x. (settled (λ id. (created id, counted e c)) (λ m. (failed m, c)) x.0, x.1))
          (ap (λ x. run b (enqueue_payload rt has_bus e.job_name x e.options) w) p ∙ h)

-- `POST /jobs`, for a body that the schema accepts and that has a payload: when nothing fails and
-- nobody interferes, Redis knows no job for the options, the job is not delayed and no row clashes,
-- the answer is the drawn id, the counter of the queue and the priority is one more, and the job
-- stands in both stores; in a world, of whatever faults and interference, where `enqueue` throws,
-- its message is passed on and the counters stay. A body that the schema does not accept is refused
-- in any world, and changes nothing.
pub submit_answers :
    (b : Backend) (rt : Runtime) (has_bus : Bool) (c : Counters) (body body' : RequestBody rt)
    (e : EnqueueBody rt) (payload : rt.Json) (w w' w'' : World b) (message : Text)
    → enqueue_body_schema rt body ≡ some e
    → e.payload ≡ some payload
    → enqueue_body_schema rt body' ≡ none
    → known_id e.options w.clock (state w) ≡ none
    → ltb 0 (delay_of e.options.delay) ≡ false
    → clashes (b.uuid w.drawn) (given e.options.idempotency_key) (rows w) ≡ false
    → (run b (enqueue rt has_bus e.job_name payload e.options) w').0 ≡ err message
    → let out = run b (submit_job rt has_bus c body) (calm w) in
      (out.0 ≡ ok (created (b.uuid w.drawn), counted e c))
      × Stored b.uuid rt has_bus e.job_name payload e.options (view w) (state out.1) (rows out.1)
      × ((run b (submit_job rt has_bus c body) w').0 ≡ ok (failed message, c))
      × (run b (submit_job rt has_bus c body') w'' ≡ (ok (invalid_request, c), w''))
unfolding submit_job
submit_answers b rt has_bus c body body' e payload w w' w'' message accepted paid refused known
      undelayed fresh throws =
    let counts = counted e c in
    let ran = submitted b rt has_bus c body e accepted (some payload) (calm w) _ paid refl in
    let (answer, kept) =
      enqueue_stores b rt has_bus e.job_name payload e.options w (accepted_name rt body e accepted)
        known undelayed fresh in
    (
      ap (λ x. x.0) ran ∙ ap (settled (λ id. (created id, counts)) (λ m. (failed m, c))) answer,
      subst
          (λ x.
            Stored b.uuid rt has_bus e.job_name payload e.options (view w) (state x.1) (rows x.1))
          (sym ran) kept,
      ap (λ x. x.0) (submitted b rt has_bus c body e accepted (some payload) w' _ paid refl)
          ∙ ap (settled (λ id. (created id, counts)) (λ m. (failed m, c))) throws,
      ap (λ x. run b (submit_checked rt has_bus c x) w'') refused,
    )
