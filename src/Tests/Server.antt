-- ===== src/Tests/Server.antt =====
-- The server's theorems at concrete inputs.
use nexus_queue.Prelude.{
  ℕ, ◌+◌, ◌≤◌, ◌<◌, ◌≡◌, refl, Bool, true, false, ◌&&◌, none, some, [], ◌∷◌, ◌++◌, arith,
}
use nexus_queue.Prelude.Tests.{ltb, leb, if◌then◌else◌}
use nexus_queue.Prelude.Texts.{Text, text, same}
use nexus_queue.Prelude.Decimal.{Number, nan, int, to_string, to_number, to_number-to_string}
use nexus_queue.Prelude.Lists.{has}
use nexus_queue.Shared.Keys.{keys}
use nexus_queue.Shared.Keys
use nexus_queue.Shared.Types.{Status, Priority, EnqueueOptions}
use nexus_queue.Services.Redis.{empty}
use nexus_queue.Services.Postgres.{NewRow, fill}
use nexus_queue.Program.Triple.{Somewhere}
use nexus_queue.Program.Transfer.{view, view_result}
use nexus_queue.Program.World.{World, documented, run, calm, state, rows, ok, err}
use nexus_queue.Server.Auth.{
  next, Headers, presented, api_key_middleware, Jwt, token, login_handler, jwt_middleware,
}
use nexus_queue.Server.Auth.Access.{
  lets_in, one_of, configured, api_key_decides, login_opens, login_guards,
}
use nexus_queue.Server.Producer.{enqueue}
use nexus_queue.Server.Producer.Enqueue.{enqueue_refuses_duplicates}
use nexus_queue.Server.Producer.Stores.{Stored, enqueue_stores, enqueue_twice}
use nexus_queue.Services.Reply.{Row}
use nexus_queue.Server.Routes.Retry.{retry_refuses}
use nexus_queue.Server.Routes.{retry, success, not_found, not_retriable, requeue_all}
use nexus_queue.Server.Routes
use nexus_queue.Server.Routes.Requeue.{after_removal, requeue_may_lose}
use nexus_queue.Prelude.Int.{pos}
use nexus_queue.Server.Submit.{
  Counters, RequestBody, EnqueueBody, enqueue_body_schema, invalid_request, created, failed,
  submit_job,
}
use nexus_queue.Server.Submit.Answers.{counted, submit_answers}
use nexus_queue.Tests.{plain, uuid, world_of}

abbrev keyed : EnqueueOptions
keyed = record {
  queue = none;
  max_attempts = none;
  idempotency_key = some (text "k");
  delay = none;
  priority = some Priority.high;
}

abbrev fresh_world : World (documented uuid)
fresh_world = world_of empty

enqueue_stores_example :
    let out =
      run
        (documented uuid)
        (enqueue plain true (text "email") (text "{}") keyed)
        (calm fresh_world) in
    (out.0 ≡ ok (text "0"))
    × Stored uuid plain true (text "email") (text "{}") keyed fresh_world (state out.1) (rows out.1)
unfolding to_string
enqueue_stores_example =
    enqueue_stores (documented uuid) plain true (text "email") (text "{}") keyed fresh_world refl
      refl refl refl

enqueue_twice_example :
    let first =
      run
        (documented uuid)
        (enqueue plain true (text "email") (text "{}") keyed)
        (calm fresh_world) in
    let later = record first.1 { clock = first.1.clock + 5000; plan = [] } in
    (first.0 ≡ ok (text "0"))
    × (view_result
          (documented uuid)
          (run (documented uuid) (enqueue plain true (text "sms") (text "[]") keyed) later)
        ≡ (ok (text "0"), view later))
unfolding to_string
enqueue_twice_example =
    enqueue_twice (documented uuid) plain true (text "email") (text "sms") (text "k") (text "{}")
      (text "[]") keyed keyed fresh_world 5000 refl refl refl refl refl refl refl refl refl
      (omega arith)

-- A row with the key k.
abbrev old_row : NewRow
old_row = record {
  id = text "j";
  queue_name = text "default";
  job_name = text "email";
  payload = text "{}";
  status = Status.completed;
  max_attempts = int 3;
  idempotency_key = some (text "k");
  priority = none;
  delayed_until = none;
}

abbrev taken : World (documented uuid)
taken = record fresh_world { postgres_state = fill 0 3 old_row ∷ [] }

enqueue_refuses_duplicates_example :
    let out =
      run (documented uuid) (enqueue plain true (text "email") (text "{}") keyed) (calm taken) in
    (out.0 ≡ err (text "duplicate key value violates unique constraint"))
    × (state out.1 ≡ state taken)
    × (rows out.1 ≡ rows taken)
unfolding to_string
enqueue_refuses_duplicates_example =
    enqueue_refuses_duplicates (documented uuid) plain true (text "email") (text "{}") keyed taken
      refl refl refl refl

-- Job j is dead-lettered.
abbrev dead : World (documented uuid)
dead =
    world_of (record empty {
      lists = λ k. if same (Keys.dlq (text "default")) k then text "j" ∷ [] else [];
    })

elsewhere :
    (k : Text)
    → same (Keys.dlq (text "default")) k ≡ false
    → has (text "j") (dead.redis_state.lists k) ≡ false
elsewhere k e = rw e refl

requeue_may_lose_example :
    let out =
      run
        (documented uuid)
        (requeue_all true (text "default") (text "j" ∷ []) 0 0)
        (record dead { plan = after_removal (text "ECONNRESET") }) in
    (out.0 ≡ ok (Routes.counted 0 1)) × (¬ Somewhere uuid (text "j") (view out.1))
unfolding keys
requeue_may_lose_example =
    requeue_may_lose (documented uuid) true (text "default") (text "j") (text "ECONNRESET") dead
      refl elsewhere (λ k. refl)

abbrev with_key : Headers
with_key = record { authorization = none; x_api_key = some (text "beta") }

api_key_decides_example :
    lets_in (api_key_middleware (some (text "alpha,beta")) with_key)
    ≡ one_of (text "alpha" ∷ text "beta" ∷ []) (presented with_key)
api_key_decides_example =
    api_key_decides (text "alpha") (text "beta" ∷ []) with_key
      ((refl, refl, refl), ((refl, refl, refl), tt))

abbrev in_window : Number → ℕ → Bool
in_window nan time = false
in_window (int issued) time = leb issued time && ltb time (issued + 86400)

pub in_window-stamp :
    (issued time : ℕ)
    → issued ≤ time
    → time < issued + 86400
    → in_window (to_number (to_string issued)) time ≡ true
in_window-stamp issued time le lt = rw (to_number-to_string issued) (ground arith)

-- A token that is the second of its issue.
abbrev pub stamps : Jwt
stamps = record {
  sign = λ secret sub issued. to_string issued;
  verify = λ secret t time. in_window (to_number t) time;
  verify-sign = λ secret sub issued time h le lt. in_window-stamp issued time le lt;
}

login_opens_example :
    (t : Text) × (login_handler stamps
        (configured stamps (text "s") (text "admin") (text "pw"))
        (record { username = some (text "admin"); password = some (text "pw") })
        100
      ≡ token t)
    × (jwt_middleware stamps
          (some (text "s"))
          (record { authorization = some (text "Bearer " ++ t); x_api_key = none })
          200
        ≡ next)
login_opens_example =
    login_opens stamps (text "s") (text "admin") (text "pw") 100 200 none refl refl refl
      (omega arith) (omega arith)

login_guards_example :
    (some (text "admin") ≡ some (text "admin")) × (some (text "pw") ≡ some (text "pw"))
unfolding login_handler to_string
login_guards_example =
    login_guards stamps (text "s") (text "admin") (text "pw")
      (record { username = some (text "admin"); password = some (text "pw") }) 100 (text "100") refl
      refl refl refl

abbrev dead_row : Row
dead_row = fill 0 3 (record old_row { status = Status.dlq })

abbrev dead_with_row : World (documented uuid)
dead_with_row = record dead { postgres_state = dead_row ∷ [] }

-- A pending row, and an id that no row has.
abbrev known_uuid : Text
known_uuid = text "0b9f7c52-6f0e-4d6c-9a57-2f3f3a3f9d11"

abbrev unknown_uuid : Text
unknown_uuid = text "c1d4e7aa-8a8b-4f42-8f0a-5b7a0c6d2e33"

abbrev pending_row : Row
pending_row = fill 0 3 (record old_row { id = known_uuid })

abbrev with_pending : World (documented uuid)
with_pending = record fresh_world { postgres_state = pending_row ∷ [] }

retry_refuses_example :
    (view_result
        (documented uuid)
        (run (documented uuid) (retry true known_uuid) (calm with_pending))
      ≡ (ok not_retriable, view (calm with_pending)))
    × (view_result
          (documented uuid)
          (run (documented uuid) (retry true unknown_uuid) (calm with_pending))
        ≡ (ok not_found, view (calm with_pending)))
retry_refuses_example =
    retry_refuses (documented uuid) true known_uuid unknown_uuid pending_row with_pending refl
      (λ e. cc) (λ e. cc) refl

-- A body with the options above, and one that asks for no attempt.
abbrev body : RequestBody plain
body = record {
  job_name = some (text "email");
  payload = some (text "{}");
  queue = none;
  max_attempts = none;
  idempotency_key = some (text "k");
  delay = none;
  priority = some (text "high");
}

abbrev no_attempt : RequestBody plain
no_attempt = record body { max_attempts = some (pos 0) }

abbrev checked : EnqueueBody plain
checked = record { job_name = text "email"; payload = some (text "{}"); options = keyed }

abbrev none_counted : Counters
none_counted q p = 0

submit_answers_example :
    let out = run (documented uuid) (submit_job plain true none_counted body) (calm fresh_world) in
    (out.0 ≡ ok (created (text "0"), counted checked none_counted))
    × Stored uuid plain true (text "email") (text "{}") keyed fresh_world (state out.1) (rows out.1)
    × ((run (documented uuid) (submit_job plain true none_counted body) (calm taken)).0
        ≡ ok (failed (text "duplicate key value violates unique constraint"), none_counted))
    × (run (documented uuid) (submit_job plain true none_counted no_attempt) (calm dead)
        ≡ (ok (invalid_request, none_counted), calm dead))
unfolding to_string enqueue_body_schema
submit_answers_example =
    submit_answers (documented uuid) plain true none_counted body no_attempt checked (text "{}")
      fresh_world (calm taken) (calm dead) (text "duplicate key value violates unique constraint")
      refl refl refl refl refl refl enqueue_refuses_duplicates_example.0

abbrev unpaid_body : RequestBody plain
unpaid_body = record body { payload = none; delay = some (pos 5000) }

abbrev unpaid : EnqueueBody plain
unpaid = record checked { payload = none; options = record keyed { delay = some 5000 } }
