-- ===== src/Worker/Pulling.antt =====
-- worker/src/worker.ts: the worker, and how it pulls the next job.
use nexus_queue.Prelude.{ℕ, ◌+◌, ◌%◌, Bool, true, false, Option, none, some, List, [], ◌∷◌}
use nexus_queue.Prelude.Tests.{leb, if◌then◌else◌}
use nexus_queue.Prelude.Texts.{Text, same, is_empty}
use nexus_queue.Shared.Types.{Priority, priority_text, RateLimitConfig}
use nexus_queue.Shared.Keys
use nexus_queue.Services.Redis.{rpoplpush, blmove}
use nexus_queue.Program.{Prog, ret, ◌>>=◌, ask_text}
use nexus_queue.Worker.Handlers.{Runtime, HandlerRegistry}

abbrev pub truthy : Option Text → Bool
truthy none = false
truthy (some t) = if is_empty t then false else true

abbrev pub map_get {ℓ} : {V : Type ℓ} → List (Text × V) → Text → Option V
map_get [] k = none
map_get ((j, v) ∷ m) k = if same j k then some v else map_get m k

module _ (rt : Runtime) where
  pub record Worker : Type 0 where
    pub queue : Text
    pub worker_id : Text
    pub concurrency : ℕ
    pub handlers : HandlerRegistry rt
    pub rate_limits : List (Text × RateLimitConfig)
    pub pull_index : ℕ

-- The order in which the queues of a pull are tried, by the count of pulls.
unfoldable pub priority_order : ℕ → List Priority
priority_order pull_index =
    let idx = pull_index % 10 in
    if leb idx 5
    then Priority.high ∷ Priority.normal ∷ Priority.low ∷ []
    else if leb idx 8
    then Priority.normal ∷ Priority.high ∷ Priority.low ∷ []
    else Priority.low ∷ Priority.high ∷ Priority.normal ∷ []

module _ {rt : Runtime} where
  unfoldable pub get_priority_order : Worker rt → List Priority × Worker rt
  get_priority_order w = (priority_order w.pull_index, record w { pull_index = w.pull_index + 1 })

abbrev pub source_list : Text → Priority → Text
source_list queue_name Priority.normal = Keys.queue queue_name
source_list queue_name Priority.high = Keys.queue_priority queue_name (priority_text Priority.high)
source_list queue_name Priority.low = Keys.queue_priority queue_name (priority_text Priority.low)

-- The loop over the priorities, with its early return.
unfoldable pub try_priorities : Text → Text → List Priority → Prog (Option Text)
try_priorities queue_name processing_key [] = ret none
try_priorities queue_name processing_key (p ∷ ps) = do
  job_id ← ask_text (rpoplpush (source_list queue_name p) processing_key)
  elim (truthy job_id) [ true ↦ ret job_id | false ↦ try_priorities queue_name processing_key ps ]

module _ (rt : Runtime) (w : Worker rt) where
  unfoldable pub pull_job : Text → Prog (Option Text) × Worker rt
  unfolding get_priority_order try_priorities
  pull_job processing_key =
      let (order, w') = get_priority_order w in
      (
        do
          job_id ← try_priorities w.queue processing_key order
          elim (truthy job_id) [
            | true ↦ ret job_id
            | false ↦ ask_text (blmove (Keys.queue w.queue) processing_key)
          ],
        w',
      )
