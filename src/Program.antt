-- ===== src/Program.antt =====
-- An asynchronous function of the program, as the tree of its requests to the services. It ends by
-- returning or by throwing, and what it does next depends on the replies.
pub mod World
pub mod Transfer
pub mod Triple
pub mod Places
pub mod Keeps
pub mod Replies
pub mod Steps
pub mod Reads
use nexus_queue.Prelude.{ℕ, Option, none, some, List, [], ◌∷◌}
use nexus_queue.Prelude.Texts.{Text, text}
use nexus_queue.Shared.Types.{Status}
use nexus_queue.Services.Reply.{
  Field, Hash, Row, Reply, integer, bulk, texts, hash, row, rows, counts, failure,
}
use nexus_queue.Services.Reply
use nexus_queue.Services.Redis.{Command, JobEvent}
use nexus_queue.Services.Redis
use nexus_queue.Services.Postgres.{Statement}
use nexus_queue.Services.Postgres

pub data Request : Type 0 where
  redis : Command → Request
  multi : List Command → Request
  sql : Statement → Request
  date_now uuid_v4 : Request
  -- a timer, and the time while a job's handler runs
  sleep : ℕ → Request
  handling : Request

pub data Prog (A : Type 0) : Type 0 where
  ret : A → Prog A
  throw : Text → Prog A
  call : Request → (Reply → Prog A) → Prog A

module _ {A B : Type 0} where
  infixl 5 ◌>>=◌
  abbrev pub ◌>>=◌ : Prog A → (A → Prog B) → Prog B
  ret a >>= f = f a
  throw e >>= f = throw e
  call q k >>= f = call q (λ r. k r >>= f)

infixl 5 ◌>>◌
abbrev pub ◌>>◌ : {B : Type 0} → Prog (Unit {0}) → Prog B → Prog B
p >> k = p >>= λ _. k

-- `try { p } catch (e) { handler(e) }`
abbrev pub try_catch : {A : Type 0} → Prog A → (Text → Prog A) → Prog A
try_catch (ret a) handler = ret a
try_catch (throw e) handler = handler e
try_catch (call q k) handler = call q (λ r. try_catch (k r) handler)

-- `p.catch(() => {})`
abbrev pub ignore_errors : Prog (Unit {0}) → Prog (Unit {0})
ignore_errors p = try_catch p (λ _. ret tt)

-- `for (const x of xs) body(x)`
abbrev pub for_each : {A : Type 0} → (A → Prog (Unit {0})) → List A → Prog (Unit {0})
for_each body [] = ret tt
for_each body (x ∷ xs) = body x >> for_each body xs

-- `Promise.all(xs.map(f))`, one after the other.
abbrev pub map_each : {A B : Type 0} → (A → Prog B) → List A → Prog (List B)
map_each f [] = ret []
map_each f (x ∷ xs) = f x >>= λ y. map_each f xs >>= λ ys. ret (y ∷ ys)

abbrev pub unexpected : {A : Type 0} → Prog A
unexpected = throw (text "unexpected reply")

-- A rejected request throws; what else it answers is not read.
abbrev pub request : Request → Prog (Unit {0})
request q = call q (λ r. elim r [ failure e ↦ throw e | _ ↦ ret tt ])

abbrev pub command : Command → Prog (Unit {0})
command c = request (redis c)

abbrev pub as_number : Reply → Prog ℕ
as_number (integer n) = ret n
as_number (failure e) = throw e
as_number _ = unexpected

-- `nil` is `null`.
abbrev pub as_text : Reply → Prog (Option Text)
as_text (bulk t) = ret (some t)
as_text Reply.nil = ret none
as_text (failure e) = throw e
as_text _ = unexpected

abbrev pub as_texts : Reply → Prog (List Text)
as_texts (texts ts) = ret ts
as_texts (failure e) = throw e
as_texts _ = unexpected

abbrev pub as_hash : Reply → Prog Hash
as_hash (hash h) = ret h
as_hash (failure e) = throw e
as_hash _ = unexpected

abbrev pub as_rows : Reply → Prog (List Row)
as_rows (rows rs) = ret rs
as_rows (failure e) = throw e
as_rows _ = unexpected

abbrev pub as_counts : Reply → Prog (List (Status × ℕ))
as_counts (counts cs) = ret cs
as_counts (failure e) = throw e
as_counts _ = unexpected

abbrev pub as_row : Reply → Prog (Option Row)
as_row (row r) = ret r
as_row (failure e) = throw e
as_row _ = unexpected

abbrev pub ask_text : Command → Prog (Option Text)
ask_text c = call (redis c) as_text

abbrev pub ask_texts : Command → Prog (List Text)
ask_texts c = call (redis c) as_texts

abbrev pub ask_number : Command → Prog ℕ
ask_number c = call (redis c) as_number

abbrev pub hgetall : Text → Prog Hash
hgetall k = call (redis (Redis.hgetall k)) as_hash

-- `Date.now()`
abbrev pub now : Prog ℕ
now = call date_now as_number

-- `uuidv4()`
abbrev pub fresh_id : Prog Text
fresh_id = call uuid_v4 (λ r. elim r [ bulk t ↦ ret t | failure e ↦ throw e | _ ↦ unexpected ])
