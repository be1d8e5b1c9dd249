-- ===== src/Fifo.antt =====
-- The producer (server/src/producer.ts) and the pulls of a worker (worker/src/worker.ts) together,
-- and the queues that they are to be: one first-in-first-out queue for each priority.
pub mod Apart
pub mod Arrivals
pub mod Refinement
use nexus_queue.Prelude.{ℕ, ◌+◌, Bool, Option, none, some, List, [], ◌∷◌, ◌++◌}
use nexus_queue.Prelude.Tests.{if◌then◌else◌}
use nexus_queue.Prelude.Texts.{Text}
use nexus_queue.Shared.Keys
use nexus_queue.Shared.Types.{Priority, EnqueueOptions}
use nexus_queue.Program.World.{Backend, World, Result, ok, err, run, calm}
use nexus_queue.Worker.Handlers.{Runtime}
use nexus_queue.Worker.Pull.{same_priority}
use nexus_queue.Worker.Pulling.{Worker, priority_order, pull_job}
use nexus_queue.Server.Producer.{enqueue}

-- What can be asked of the program: a job with a name and a payload at a priority, or the next job.
pub data Operation (Json : Type 0) : Type 0 where
  submit : Text → Json → Priority → Operation Json
  pull : Operation Json

abbrev pub put : (Priority → List Text) → Priority → List Text → Priority → List Text
put waiting p ids q = if same_priority p q then ids else waiting q

-- The ids that wait, the oldest first, the count of pulls, and that of ids drawn.
pub record Queues : Type 0 where
  pub waiting : Priority → List Text
  pub turn : ℕ
  pub fresh : ℕ

abbrev pub serve_from :
    Priority
    → (Priority → List Text)
    → List Text
    → Option Text × (Priority → List Text)
    → Option Text × (Priority → List Text)
serve_from p waiting [] later = later
serve_from p waiting (id ∷ rest) later = (some id, put waiting p rest)

-- The oldest id of the first queue that is not empty.
abbrev pub served : List Priority → (Priority → List Text) → Option Text × (Priority → List Text)
served [] waiting = (none, waiting)
served (p ∷ ps) waiting = let later = served ps waiting in serve_from p waiting (waiting p) later

module _ (uuid : ℕ → Text) {Json : Type 0} where
  abbrev pub answered : Operation Json → Queues → Result (Option Text) × Queues
  answered (submit name payload p) q = (
    ok (some (uuid q.fresh)),
    record q { waiting = put q.waiting p (q.waiting p ++ uuid q.fresh ∷ []); fresh = q.fresh + 1 },
  )
  answered pull q =
      let (id, waiting) = served (priority_order q.turn) q.waiting in
      (ok id, record q { waiting = waiting; turn = q.turn + 1 })

  -- What the queues answer to a sequence of operations.
  abbrev pub fifo : List (Operation Json) → Queues → List (Result (Option Text))
  fifo [] q = []
  fifo (op ∷ ops) q = let (a, q') = answered op q in a ∷ fifo ops q'

abbrev pub at_priority : Text → Priority → EnqueueOptions
at_priority queue_name p = record {
  queue = some queue_name;
  max_attempts = none;
  idempotency_key = none;
  delay = none;
  priority = some p;
}

abbrev pub some_id : Result Text → Result (Option Text)
some_id (ok id) = ok (some id)
some_id (err e) = err e

module _ (b : Backend) (rt : Runtime) (has_bus : Bool) where
  -- One operation of the program, with what it leaves.
  abbrev pub performed :
      Operation rt.Json → World b → Worker rt → (Result (Option Text) × World b) × Worker rt
  performed (submit name payload p) w worker =
      let out = run b (enqueue rt has_bus name payload (at_priority worker.queue p)) (calm w) in
      ((some_id out.0, out.1), worker)
  performed pull w worker =
      let (program, worker') = pull_job rt worker (Keys.processing worker.worker_id) in
      (run b program (calm w), worker')

  abbrev pub observed : List (Operation rt.Json) → World b → Worker rt → List (Result (Option Text))
  observed [] w worker = []
  observed (op ∷ ops) w worker =
      let ((a, w'), worker') = performed op w worker in a ∷ observed ops w' worker'
