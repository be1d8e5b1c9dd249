-- ===== src/Dashboard/QueueDetail/Guarded.antt =====
-- What the page of a queue, a retry and a requeue come to on a server with JWT_SECRET.
use nexus_queue.Prelude.{
  ℕ, ◌+◌, ◌-◌, arith, ◌≡◌, refl, sym, ap, ◌∙◌, Bool, true, false, Option, none, some, List, [], ◌∷◌,
}
use nexus_queue.Prelude.Tests.{if◌then◌else◌, or_else}
use nexus_queue.Prelude.Texts.{Text, text, is_empty}
use nexus_queue.Prelude.Decimal.{to_string}
use nexus_queue.Prelude.Lists.{has}
use nexus_queue.Program.World.{Backend, World, err}
use nexus_queue.Worker.Handlers.{Runtime}
use nexus_queue.Server.Auth.{Outcome, reject, Jwt, jwt_middleware}
use nexus_queue.Server.Reads.{JobView}
use nexus_queue.Dashboard.Api.{Params, no_headers, get_queue_jobs, retry_job, requeue_dlq}
use nexus_queue.Dashboard.QueueDetail.{
  statuses, Page, receive, Event, chose, previous, close, select, answered, first_render, render,
  take_answer, without, can_go_back, can_go_on, page_size, step,
}
use nexus_queue.Dashboard.QueueDetail

abbrev pub unauthorized : Text
unauthorized = text "unauthorized"

abbrev turned_away : Outcome
turned_away = reject 401 unauthorized (text "Missing or invalid token")

no_token :
    (jwt : Jwt) (secret : Text) (time : ℕ)
    → is_empty secret ≡ false
    → jwt_middleware jwt (some secret) no_headers time ≡ turned_away
unfolding jwt_middleware
no_token jwt [] time e = cc
no_token jwt (c ∷ cs) time e = refl

module _ (jwt : Jwt) (secret : Text) (b : Backend) (rt : Runtime) where
  pub no_jobs :
      (name : Text) (ps : Params) (w : World b)
      → is_empty secret ≡ false
      → get_queue_jobs jwt (some secret) b rt name ps w ≡ err (text "Failed to fetch jobs: 401")
  unfolding get_queue_jobs to_string
  no_jobs name ps w e = rw (no_token jwt secret w.clock e) refl

  no_retry :
      (has_bus : Bool) (id : Text) (w : World b)
      → is_empty secret ≡ false
      → retry_job jwt (some secret) b rt has_bus id w ≡ (err (text "Failed to retry job: 401"), w)
  unfolding retry_job to_string
  no_retry has_bus id w e = rw (no_token jwt secret w.clock e) refl

  no_requeue :
      (has_bus : Bool) (name : Text) (ids : Option (List Text)) (w : World b)
      → is_empty secret ≡ false
      → requeue_dlq jwt (some secret) b rt has_bus name ids w
        ≡ (err (text "Failed to requeue DLQ jobs: 401"), w)
  unfolding requeue_dlq to_string
  no_requeue has_bus name ids w e = rw (no_token jwt secret w.clock e) refl

  module _ (name : Text) where
    -- The answers to a page are the server's, each at some moment.
    abbrev pub FromServer : Event (JobView rt) → Type 0
    FromServer (answered n r) =
        (ps : Params) × (w : World b) × (r ≡ get_queue_jobs jwt (some secret) b rt name ps w)
    FromServer e = Unit

    pub data Served : Page (JobView rt) → Type 0 where
      opened : Served (first_render (JobView rt))
      after :
          {p q : Page (JobView rt)} (e : Event (JobView rt))
          → Served p
          → FromServer e
          → step (JobView rt) p e ≡ some q
          → Served q

module _ (Job : Type 0) where
  -- No job is shown.
  abbrev pub Bare : Page Job → Type 0
  Bare p = (p.jobs ≡ []) × (p.total ≡ 0)

  render-Bare : (s : Text) (o : ℕ) (p : Page Job) → Bare p → Bare (render Job s o p)
  render-Bare s o p (e, f) = (ground (arith, e), ground (arith, f))

  some-Bare : (p q : Page Job) → Bare p → some p ≡ some q → Bare q
  some-Bare p q (e, f) h =
      (sym (ap (λ o. (or_else o p).jobs) h) ∙ e, sym (ap (λ o. (or_else o p).total) h) ∙ f)

  when-Bare : (c : Bool) (p q : Page Job) → Bare p → (if c then some p else none) ≡ some q → Bare q
  when-Bare true p q k h = some-Bare p q k h
  when-Bare false p q k h = cc

  refused-Bare :
      (e : Text) (rest : Option (List Params)) (p q : Page Job)
      → Bare p
      → take_answer Job (err e) rest p ≡ some q
      → Bare q
  refused-Bare e none p q k h = cc
  refused-Bare e (some qs) p q k h = some-Bare (record p { requests = qs }) q k h

module _ (jwt : Jwt) (secret : Text) (b : Backend) (rt : Runtime) (name : Text) where
  step-Bare :
      (p q : Page (JobView rt)) (e : Event (JobView rt))
      → is_empty secret ≡ false
      → FromServer jwt secret b rt name e
      → Bare (JobView rt) p
      → step (JobView rt) p e ≡ some q
      → Bare (JobView rt) q
  unfolding step
  step-Bare p q (chose s) ne f k h =
      when-Bare (JobView rt) (has s statuses) _ q (render-Bare (JobView rt) s 0 p k) h
  step-Bare p q previous ne f k h =
      when-Bare (JobView rt) (can_go_back (JobView rt) p) _ q
        (render-Bare (JobView rt) p.status (p.offset - 20) p k) h
  step-Bare p q QueueDetail.next ne f k h =
      when-Bare (JobView rt) (can_go_on (JobView rt) p) _ q
        (render-Bare (JobView rt) p.status (p.offset + 20) p k) h
  step-Bare p q (select id) ne f k h = some-Bare (JobView rt) _ q k h
  step-Bare p q close ne f k h = some-Bare (JobView rt) _ q k h
  step-Bare p q (answered n r) ne (ps, w, e) k h =
      refused-Bare (JobView rt) (text "Failed to fetch jobs: 401")
        (without (JobView rt) n p.requests) p q k
        (sym (
            ap (λ x. take_answer (JobView rt) x (without (JobView rt) n p.requests) p)
              (e ∙ no_jobs jwt secret b rt name ps w ne))
          ∙ h)

  Served-Bare :
      {p : Page (JobView rt)}
      → is_empty secret ≡ false
      → Served jwt secret b rt name p
      → Bare (JobView rt) p
  Served-Bare ne opened = (refl, refl)
  Served-Bare {p} ne (after {p = l} e s f h) = step-Bare l p e ne f (Served-Bare ne s) h

-- On a server with JWT_SECRET, whatever the user clicks and whenever the server answers, the page of
-- a queue shows no job; and a click that retries a job or puts dead-lettered jobs back fails with the
-- status 401 and changes nothing.
pub guarded_shows_nothing :
    (jwt : Jwt) (secret : Text) (b : Backend) (rt : Runtime) (has_bus : Bool) (name id : Text)
    (ids : Option (List Text)) (w : World b) {p : Page (JobView rt)}
    → is_empty secret ≡ false
    → Served jwt secret b rt name p
    → Bare (JobView rt) p
      × (retry_job jwt (some secret) b rt has_bus id w ≡ (err (text "Failed to retry job: 401"), w))
      × (requeue_dlq jwt (some secret) b rt has_bus name ids w
          ≡ (err (text "Failed to requeue DLQ jobs: 401"), w))
guarded_shows_nothing jwt secret b rt has_bus name id ids w ne s = (
  Served-Bare jwt secret b rt name ne s,
  no_retry jwt secret b rt has_bus id w ne,
  no_requeue jwt secret b rt has_bus name ids w ne,
)
