-- ===== src/Services/Redis.antt =====
-- The Redis commands that the program sends, and their documented effect on a keyspace. Keys of
-- different types never meet, so a keyspace has one store for each type.
use nexus_queue.Prelude.{
  ℕ, suc, ◌+◌, ◌-◌, ◌*◌, Bool, true, false, ◌&&◌, ◌||◌, Option, none, some, List, [], ◌∷◌, map,
}
use nexus_queue.Prelude.Tests.{ltb, leb, ◌==◌, if◌then◌else◌}
use nexus_queue.Prelude.Texts.{Text, text, same, update}
use nexus_queue.Prelude.Decimal.{Number, nan, int}
use nexus_queue.Prelude.Int.{ℤ, pos, negsuc}
use nexus_queue.Prelude.Lists.{length, take, drop, has, split_last, remove_n, remove_all}
use nexus_queue.Services.Reply.{
  Field, same_field, Hash, Reply, done, nil, integer, bulk, texts, hash, failure,
}

-- What the program publishes as JSON on the channel `nexus:events`.
pub record JobEvent : Type 0 where
  pub type : Text
  pub job_id : Text
  pub job_name : Text
  pub queue_name : Text
  pub timestamp : ℕ
  pub error_message : Option Text

-- A string with its time to live, as the moment at which it is gone.
pub record Entry : Type 0 where
  pub value : Text
  pub expires : ℕ

pub record Keyspace : Type 0 where
  pub lists : Text → List Text
  pub hashes : Text → Hash
  pub zsets : Text → List (Text × ℕ)
  pub sets : Text → List Text
  pub strings : Text → Option Entry
  pub channel : List JobEvent

abbrev pub no_hash : Hash
no_hash f = none

abbrev pub empty : Keyspace
empty = record {
  lists = λ k. [];
  hashes = λ k. no_hash;
  zsets = λ k. [];
  sets = λ k. [];
  strings = λ k. none;
  channel = [];
}

pub data Command : Type 0 where
  lpush : Text → Text → Command
  lrem : Text → ℕ → Text → Command
  rpoplpush blmove : Text → Text → Command
  lrange_all llen : Text → Command
  lrange : Text → ℤ → ℤ → Command
  hset : Text → List (Field × Text) → Command
  hgetall : Text → Command
  hget : Text → Field → Command
  zadd : Text → Number → Text → Command
  zrem : Text → Text → Command
  zrange_until : Text → ℕ → Command
  zrange_all : Text → Command
  sadd srem : Text → Text → Command
  smembers : Text → Command
  set_ex : Text → Text → ℕ → Command
  get exists del : Text → Command
  publish : JobEvent → Command

-- LRANGE: an index that is negative counts from the end, and the stop is included.
abbrev range_start : ℕ → ℤ → ℕ
range_start n (pos i) = i
range_start n (negsuc i) = n - suc i

abbrev range_end : ℕ → ℤ → ℕ
range_end n (pos i) = i + 1
range_end n (negsuc i) = n - i

abbrev pub range_list : ℤ → ℤ → List Text → List Text
range_list start stop xs =
    let from = range_start (length xs) start in
    take (range_end (length xs) stop - from) (drop from xs)

-- LREM: the first `n` occurrences from the head, or all of them when `n` is 0.
abbrev pub lrem_list : ℕ → Text → List Text → List Text
lrem_list n v xs = if n == 0 then remove_all v xs else remove_n n v xs

abbrev pub put_field : Hash → Field × Text → Hash
put_field h (f, v) g = if same_field f g then some v else h g

abbrev pub put_fields : Hash → List (Field × Text) → Hash
put_fields h [] = h
put_fields h (e ∷ es) = put_fields (put_field h e) es

-- Code-unit order, by which a sorted set breaks ties.
abbrev pub text_le : Text → Text → Bool
text_le [] ys = true
text_le (x ∷ xs) [] = false
text_le (x ∷ xs) (y ∷ ys) = ltb x y || (x == y && text_le xs ys)

abbrev pub zset_remove : Text → List (Text × ℕ) → List (Text × ℕ)
zset_remove m [] = []
zset_remove m ((x, s) ∷ z) = let rest = zset_remove m z in if same x m then rest else (x, s) ∷ rest

abbrev pub zset_insert : Text → ℕ → List (Text × ℕ) → List (Text × ℕ)
zset_insert m s [] = (m, s) ∷ []
zset_insert m s ((x, t) ∷ z) =
    let rest = zset_insert m s z in
    if ltb s t || (s == t && text_le m x) then (m, s) ∷ (x, t) ∷ z else (x, t) ∷ rest

abbrev pub zset_has : Text → List (Text × ℕ) → Bool
zset_has m [] = false
zset_has m ((x, s) ∷ z) = if same x m then true else zset_has m z

-- The members with a score of at most `top`, in order.
abbrev pub zset_until : ℕ → List (Text × ℕ) → List Text
zset_until top [] = []
zset_until top ((x, s) ∷ z) = let rest = zset_until top z in if leb s top then x ∷ rest else rest

-- A string that has not expired at `now`.
abbrev pub live : ℕ → Option Entry → Option Text
live now none = none
live now (some e) = if ltb now e.expires then some e.value else none

abbrev pub of_bool : Bool → Reply
of_bool b = if b then integer 1 else integer 0

abbrev pub of_option : Option Text → Reply
of_option none = nil
of_option (some v) = bulk v

-- The last element of one list goes to the head of another.
abbrev pub move : Text → Text → Keyspace → Option (Text × List Text) → Keyspace × Reply
move source target s none = (s, nil)
move source target s (some (v, rest)) =
    let taken = update s.lists source rest in
    (record s { lists = update taken target (v ∷ taken target) }, bulk v)

unfoldable pub execute : Command → ℕ → Keyspace → Keyspace × Reply
execute (lpush k v) now s =
    (record s { lists = update s.lists k (v ∷ s.lists k) }, integer (length (s.lists k) + 1))
execute (lrem k n v) now s =
    (record s { lists = update s.lists k (lrem_list n v (s.lists k)) }, done)
execute (rpoplpush source target) now s = move source target s (split_last (s.lists source))
execute (blmove source target) now s = move source target s (split_last (s.lists source))
execute (lrange_all k) now s = (s, texts (s.lists k))
execute (llen k) now s = (s, integer (length (s.lists k)))
execute (lrange k start stop) now s = (s, texts (range_list start stop (s.lists k)))
execute (hset k fields) now s =
    (record s { hashes = update s.hashes k (put_fields (s.hashes k) fields) }, done)
execute (hgetall k) now s = (s, hash (s.hashes k))
execute (hget k f) now s = (s, of_option (s.hashes k f))
execute (zadd k nan m) now s = (s, failure (text "ERR value is not a valid float"))
execute (zadd k (int score) m) now s =
    (record s { zsets = update s.zsets k (zset_insert m score (zset_remove m (s.zsets k))) }, done)
execute (zrem k m) now s = (
  record s { zsets = update s.zsets k (zset_remove m (s.zsets k)) },
  of_bool (zset_has m (s.zsets k)),
)
execute (zrange_until k top) now s = (s, texts (zset_until top (s.zsets k)))
execute (zrange_all k) now s = (s, texts (map (λ e. e.0) (s.zsets k)))
execute (sadd k m) now s = (
  record s { sets = update s.sets k (if has m (s.sets k) then s.sets k else m ∷ s.sets k) },
  done,
)
execute (srem k m) now s = (record s { sets = update s.sets k (remove_all m (s.sets k)) }, done)
execute (smembers k) now s = (s, texts (s.sets k))
execute (set_ex k v seconds) now s = (
  record s {
    strings = update s.strings k (some (record { value = v; expires = now + seconds * 1000 }));
  },
  done,
)
execute (get k) now s = (s, of_option (live now (s.strings k)))
execute (exists k) now s =
    (s, elim (live now (s.strings k)) [ none ↦ integer 0 | some v ↦ integer 1 ])
execute (del k) now s = (
  record {
    lists = update s.lists k [];
    hashes = update s.hashes k no_hash;
    zsets = update s.zsets k [];
    sets = update s.sets k [];
    strings = update s.strings k none;
    channel = s.channel;
  },
  done,
)
execute (publish e) now s = (record s { channel = e ∷ s.channel }, done)
