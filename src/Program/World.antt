-- ===== src/Program/World.antt =====
-- The services and the other processes, and how a program runs among them. Between two requests
-- the others may send any requests of their own, and any request to a service may fail before
-- or after the service has done its part. Reading the clock and drawing an id is immediate.
use nexus_queue.Prelude.{ℕ, ◌+◌, ◌≡◌, List, [], ◌∷◌}
use nexus_queue.Prelude.Texts.{Text}
use nexus_queue.Services.Reply.{Row, Reply, done, integer, bulk, failure}
use nexus_queue.Services.Redis.{Keyspace, Command, execute}
use nexus_queue.Services.Postgres.{Statement, query}
use nexus_queue.Program.{
  Request, redis, multi, sql, date_now, uuid_v4, sleep, handling, Prog, ret, throw, call,
}

-- The services that the program relies on, with their documented behaviour as laws.
pub record Backend : Type 1 where
  pub RedisState : Type 0
  pub PostgresState : Type 0
  pub keyspace : RedisState → Keyspace
  pub table : PostgresState → List Row
  pub send : Command → ℕ → RedisState → RedisState × Reply
  pub run_sql : Statement → ℕ → PostgresState → PostgresState × Reply
  pub uuid : ℕ → Text
  pub keyspace-send :
      (c : Command) (t : ℕ) (d : RedisState)
      → keyspace (send c t d).0 ≡ (execute c t (keyspace d)).0
  pub reply-send :
      (c : Command) (t : ℕ) (d : RedisState) → (send c t d).1 ≡ (execute c t (keyspace d)).1
  pub table-run_sql :
      (q : Statement) (t : ℕ) (d : PostgresState)
      → table (run_sql q t d).0 ≡ (query q t (table d)).0
  pub reply-run_sql :
      (q : Statement) (t : ℕ) (d : PostgresState) → (run_sql q t d).1 ≡ (query q t (table d)).1

-- A request that is dropped has no effect; one whose reply is lost has it, and throws all the same.
pub data Fault : Type 0 where
  fine : Fault
  dropped lost : Text → Fault

-- What happens at one request: the requests of other processes before it, and whether it fails.
pub record Turn : Type 0 where
  pub others : List Request
  pub fault : Fault

-- `drawn` counts the ids that were drawn. Past the end of the plan nothing interferes.
pub record World (b : Backend) : Type 0 where
  pub redis_state : b.RedisState
  pub postgres_state : b.PostgresState
  pub clock : ℕ
  pub drawn : ℕ
  pub plan : List Turn

pub data Result (A : Type 0) : Type 0 where
  ok : A → Result A
  err : Text → Result A

module _ (b : Backend) where
  abbrev pub send_all : List Command → ℕ → b.RedisState → b.RedisState
  send_all [] t d = d
  send_all (c ∷ cs) t d = send_all cs t (b.send c t d).0

  -- MULTI/EXEC: all commands without interruption; the program reads none of their replies.
  abbrev pub answer : Request → World b → World b × Reply
  answer (redis c) w = (
    record w { redis_state = (b.send c w.clock w.redis_state).0 },
    (b.send c w.clock w.redis_state).1,
  )
  answer (multi cs) w = (record w { redis_state = send_all cs w.clock w.redis_state }, done)
  answer (sql q) w = (
    record w { postgres_state = (b.run_sql q w.clock w.postgres_state).0 },
    (b.run_sql q w.clock w.postgres_state).1,
  )
  answer date_now w = (w, integer w.clock)
  answer uuid_v4 w = (record w { drawn = w.drawn + 1 }, bulk (b.uuid w.drawn))
  answer (sleep ms) w = (record w { clock = w.clock + ms }, done)
  answer handling w = (w, done)

  abbrev pub interfere : List Request → World b → World b
  interfere [] w = w
  interfere (q ∷ qs) w = interfere qs (answer q w).0

  abbrev pub face : Fault → Request → World b → World b × Reply
  face fine q w = answer q w
  face (dropped e) q w = (w, failure e)
  face (lost e) q w = ((answer q w).0, failure e)

  abbrev pub serve_next : List Turn → Request → World b → World b × Reply
  serve_next [] q w = answer q w
  serve_next (t ∷ ts) q w = face t.fault q (interfere t.others (record w { plan = ts }))

  -- A timer and a handler take time, but do not fail as requests.
  abbrev pub elapse : List Turn → Request → World b → World b × Reply
  elapse [] q w = answer q w
  elapse (t ∷ ts) q w = answer q (interfere t.others (record w { plan = ts }))

  abbrev pub serve : Request → World b → World b × Reply
  serve date_now w = answer date_now w
  serve uuid_v4 w = answer uuid_v4 w
  serve (sleep ms) w = elapse w.plan (sleep ms) w
  serve handling w = elapse w.plan handling w
  serve (redis c) w = serve_next w.plan (redis c) w
  serve (multi cs) w = serve_next w.plan (multi cs) w
  serve (sql q) w = serve_next w.plan (sql q) w

  abbrev pub run : {A : Type 0} → Prog A → World b → Result A × World b
  run (ret a) w = (ok a, w)
  run (throw e) w = (err e, w)
  run (call q k) w = run (k (serve q w).1) (serve q w).0

  abbrev pub after : {A : Type 0} → Prog A → World b → World b
  after p w = (run p w).1

module _ {b : Backend} where
  abbrev pub state : World b → Keyspace
  state w = b.keyspace w.redis_state

  abbrev pub rows : World b → List Row
  rows w = b.table w.postgres_state

  -- Nothing fails, and nobody interferes.
  abbrev pub calm : World b → World b
  calm w = record w { plan = [] }

-- The services that are exactly as documented, with ids that `uuid` gives.
abbrev pub documented : (ℕ → Text) → Backend
documented uuid = record {
  RedisState = Keyspace;
  PostgresState = List Row;
  keyspace = λ s. s;
  table = λ rs. rs;
  send = execute;
  run_sql = query;
  uuid = uuid;
  keyspace-send = λ c t d. mathlib.Core.Path.refl;
  reply-send = λ c t d. mathlib.Core.Path.refl;
  table-run_sql = λ q t d. mathlib.Core.Path.refl;
  reply-run_sql = λ q t d. mathlib.Core.Path.refl;
}
