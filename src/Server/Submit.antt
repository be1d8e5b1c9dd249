-- ===== src/Server/Submit.antt =====
-- server/src/routes.ts: `POST /jobs`, with the schema of its body and its counter of metrics.ts. A
-- body holds values of the schema's types, and whole numbers.
pub mod Answers
use nexus_queue.Prelude.{
  ℕ, zero, suc, ◌+◌, Bool, true, false, not, ◌&&◌, Option, none, some, List, [], ◌∷◌,
}
use nexus_queue.Prelude.Tests.{if◌then◌else◌, or_else}
use nexus_queue.Prelude.Texts.{Text, text, same, is_empty}
use nexus_queue.Prelude.Int.{ℤ, pos, negsuc}
use nexus_queue.Shared.Types.{Priority, priority_text, EnqueueOptions}
use nexus_queue.Program.{Prog, ret, ◌>>=◌, try_catch}
use nexus_queue.Worker.Handlers.{Runtime}
use nexus_queue.Server.Producer.{enqueue}
use nexus_queue.Server.Producer.NoPayload.{enqueue_without_payload}

-- `jobsEnqueuedTotal`, by its labels.
abbrev pub Counters : Type 0
Counters = Text → Text → ℕ

unfoldable pub increment_enqueued : Text → Text → Counters → Counters
increment_enqueued queue priority c q p =
    if same q queue && same p priority then c q p + 1 else c q p

-- `.string().min(1).optional()`
abbrev not_blank : Option Text → Bool
not_blank none = true
not_blank (some t) = not (is_empty t)

-- `.number().int().positive().optional()`
abbrev positive : Option ℤ → Option (Option ℕ)
positive none = some none
positive (some (pos (suc n))) = some (some (suc n))
positive (some n) = none

-- `.number().int().nonnegative().optional()`
abbrev nonnegative : Option ℤ → Option (Option ℕ)
nonnegative none = some none
nonnegative (some (pos n)) = some (some n)
nonnegative (some (negsuc n)) = none

abbrev priority_in : Text → List Priority → Option Priority
priority_in t [] = none
priority_in t (p ∷ ps) = if same t (priority_text p) then some p else priority_in t ps

abbrev some_priority : Option Priority → Option (Option Priority)
some_priority none = none
some_priority (some p) = some (some p)

-- `.enum(['high', 'normal', 'low']).optional()`
abbrev known_priority : Option Text → Option (Option Priority)
known_priority none = some none
known_priority (some t) =
    some_priority (priority_in t (Priority.high ∷ Priority.normal ∷ Priority.low ∷ []))

module _ (rt : Runtime) where
  pub record RequestBody : Type 0 where
    pub job_name : Option Text
    pub payload : Option rt.Json
    pub queue : Option Text
    pub max_attempts : Option ℤ
    pub idempotency_key : Option Text
    pub delay : Option ℤ
    pub priority : Option Text

  -- What the schema makes of a body.
  pub record EnqueueBody : Type 0 where
    pub job_name : Text
    pub payload : Option rt.Json
    pub options : EnqueueOptions

  abbrev with_numbers :
      RequestBody
      → Text
      → Option (Option ℕ)
      → Option (Option ℕ)
      → Option (Option Priority)
      → Option EnqueueBody
  with_numbers body job_name (some max_attempts) (some delay) (some priority) = some (record {
    job_name = job_name;
    payload = body.payload;
    options = record {
      queue = body.queue;
      max_attempts = max_attempts;
      idempotency_key = body.idempotency_key;
      delay = delay;
      priority = priority;
    };
  })
  with_numbers body job_name _ _ _ = none

  -- `none` is a ZodError.
  unfoldable pub enqueue_body_schema : RequestBody → Option EnqueueBody
  enqueue_body_schema body =
      if not (is_empty (or_else body.job_name []))
        && not_blank body.queue
        && not_blank body.idempotency_key
      then with_numbers body (or_else body.job_name []) (positive body.max_attempts)
          (nonnegative body.delay) (known_priority body.priority)
      else none

  pub data SubmitAnswer : Type 0 where
    invalid_request : SubmitAnswer
    created failed : Text → SubmitAnswer

  -- `z.unknown()` accepts a body without a payload.
  abbrev pub enqueue_payload : Bool → Text → Option rt.Json → EnqueueOptions → Prog Text
  enqueue_payload has_bus job_name (some payload) o = enqueue rt has_bus job_name payload o
  enqueue_payload has_bus job_name none o = enqueue_without_payload rt has_bus job_name o

  -- Once the body is checked. `failed` is what `next` is given.
  abbrev pub submit_checked : Bool → Counters → Option EnqueueBody → Prog (SubmitAnswer × Counters)
  submit_checked has_bus c none = ret (invalid_request, c)
  submit_checked has_bus c (some body) =
      try_catch
        (enqueue_payload has_bus body.job_name body.payload body.options >>= λ job_id. ret (
          created job_id,
          increment_enqueued (or_else body.options.queue (text "default"))
              (priority_text (or_else body.options.priority Priority.normal)) c,
        ))
        (λ e. ret (failed e, c))

  unfoldable pub submit_job : Bool → Counters → RequestBody → Prog (SubmitAnswer × Counters)
  submit_job has_bus c body = submit_checked has_bus c (enqueue_body_schema body)
