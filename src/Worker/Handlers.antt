-- ===== src/Worker/Handlers.antt =====
-- worker/src/handlers.ts, and what the worker takes from its JavaScript runtime.
use nexus_queue.Prelude.{ℕ, ◌≡◌, Bool, true, false, Option, none, some, List, [], ◌∷◌, ◌++◌, map}
use nexus_queue.Prelude.Tests.{if◌then◌else◌}
use nexus_queue.Prelude.Texts.{Text, text, same}
use nexus_queue.Prelude.Decimal.{Number}
use nexus_queue.Program.World.{Result, ok, err}

-- JSON values with `JSON.parse` and `JSON.stringify`, and `toISOString`.
pub record Runtime : Type 1 where
  pub Json : Type 0
  pub empty_object : Json
  pub parse : Text → Option Json
  pub stringify : Json → Text
  pub iso : ℕ → Text
  pub parse-stringify : (j : Json) → parse (stringify j) ≡ some j

pub record HandlerContext : Type 0 where
  pub job_id : Text
  pub job_name : Text
  pub attempt : Number
  pub worker_id : Text

module _ (rt : Runtime) where
  -- `none` when the handler's promise resolves, or the message that it throws.
  abbrev pub JobHandler : Type 0
  JobHandler = rt.Json → HandlerContext → Option Text

  abbrev pub HandlerRegistry : Type 0
  HandlerRegistry = List (Text × JobHandler)

  unfoldable pub get : HandlerRegistry → Text → Option JobHandler
  get [] job_name = none
  get ((name, handler) ∷ rest) job_name =
      if same name job_name then some handler else get rest job_name

  abbrev has_handler : Option JobHandler → Bool
  has_handler none = false
  has_handler (some h) = true

  unfoldable pub register : HandlerRegistry → Text → JobHandler → Result HandlerRegistry
  unfolding get
  register handlers job_name handler =
      if has_handler (get handlers job_name)
      then err (text "handler already registered for jobName=\"" ++ (job_name ++ text "\""))
      else ok (handlers ++ (job_name, handler) ∷ [])

  unfoldable pub list : HandlerRegistry → List Text
  list handlers = map (λ e. e.0) handlers

  -- A handler that never resolves.
  abbrev pub Fails : JobHandler → Type 0
  Fails f = (v : rt.Json) (c : HandlerContext) → (m : Text) × (f v c ≡ some m)
