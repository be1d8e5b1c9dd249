-- ===== src/Server/Routes/Emptying.antt =====
-- The whole dead-letter queue is put back: server/src/routes.ts.
use nexus_queue.Prelude.{
  ℕ, ◌+◌, ◌≡◌, refl, sym, ap, subst, ◌∙◌, Bool, true, false, List, [], ◌∷◌, inl, inr, arith,
}
use nexus_queue.Prelude.Tests.{or_else, Bool-cases}
use nexus_queue.Prelude.Texts.{Text, text, same, same_refl, same→eq, update}
use nexus_queue.Prelude.Lists.{All, length, has, remove_n}
use nexus_queue.Shared.Keys
use nexus_queue.Shared.Db.{db}
use nexus_queue.Services.Reply.{Field}
use nexus_queue.Services.Redis.{Keyspace, execute, put_fields}
use nexus_queue.Services.Postgres.{query}
use nexus_queue.Program.Transfer.{view, run-view}
use nexus_queue.Program.World.{Backend, World, Result, ok, documented, run, after, calm, state}
use nexus_queue.Server.Routes.{
  RequeueBody, fresh, requeue_one, requeue_all, requeue, counted, RequeueAnswer,
}
use nexus_queue.Server.Routes.Requeue.{target-ne-dlq, dlq-ne-target}

-- The list of the queue for the priority in a job's hash.
abbrev pub home : Text → Keyspace → Text → Text
home name s id =
    Keys.target_list name (or_else (s.hashes (Keys.job id) Field.priority) (text "normal"))

-- No list but the dead-letter list has lost an id.
abbrev pub Kept : Text → Keyspace → Keyspace → Type 0
Kept name s s' =
    (k x : Text)
    → same (Keys.dlq name) k ≡ false
    → has x (s.lists k) ≡ true
    → has x (s'.lists k) ≡ true

abbrev pub Emptied : Text → List Text → Keyspace → Keyspace → Type 0
Emptied name ids s s' =
    (s'.lists (Keys.dlq name) ≡ [])
    × All (λ x. has x (s'.lists (home name s x)) ≡ true) ids
    × Kept name s s'

has-cons : (x y : Text) (ys : List Text) → has x ys ≡ true → has x (y ∷ ys) ≡ true
has-cons x y ys h = ground arith

All-map {ℓ κ} :
    {A : Type ℓ} {P Q : A → Type κ} (xs : List A) → ((x : A) → P x → Q x) → All P xs → All Q xs
All-map [] f ps = tt
All-map (x ∷ xs) f (p, ps) = (f x p, All-map xs f ps)

module _ (name id : Text) (s : Keyspace) where
  abbrev restarted : Keyspace
  restarted = record s {
    lists = update s.lists (Keys.dlq name) (remove_n 1 id (s.lists (Keys.dlq name)));
    hashes = update s.hashes (Keys.job id) (put_fields (s.hashes (Keys.job id)) fresh);
  }

  -- What one requeue does to the keys.
  abbrev put_back : Keyspace
  put_back = record restarted {
    lists =
        update restarted.lists (home name restarted id)
          (id ∷ restarted.lists (home name restarted id));
  }

  priority-put_back :
      (x : Text)
      → put_back.hashes (Keys.job x) Field.priority ≡ s.hashes (Keys.job x) Field.priority
  priority-put_back x = elim (Bool-cases (same (Keys.job id) (Keys.job x))) [
    | inl e ↦ rw e (ap (λ k. s.hashes k Field.priority) (same→eq (Keys.job id) (Keys.job x) e))
    | inr ne ↦ rw ne refl
  ]

  home-put_back : (x : Text) → home name put_back x ≡ home name s x
  home-put_back x =
      ap (λ p. Keys.target_list name (or_else p (text "normal"))) (priority-put_back x)

  dlq-put_back : put_back.lists (Keys.dlq name) ≡ remove_n 1 id (s.lists (Keys.dlq name))
  dlq-put_back = simp (same_refl, target-ne-dlq)

  at_home : has id (put_back.lists (home name s id)) ≡ true
  at_home = subst (λ k. has id (put_back.lists k) ≡ true) (home-put_back id) (simp same_refl)

  Kept-put_back : Kept name s put_back
  Kept-put_back k x away h = elim (Bool-cases (same (home name restarted id) k)) [
    | inl e ↦ rw e (
        has-cons x id (restarted.lists (home name restarted id)) (
          subst (λ j. has x (restarted.lists j) ≡ true) (sym (same→eq (home name restarted id) k e))
            (rw away h)))
    | inr ne ↦ rw ne (rw away h)
  ]

remove_first : (id : Text) (ids : List Text) → remove_n 1 id (id ∷ ids) ≡ ids
remove_first id ids = rw (same_refl id) refl

module _ (uuid : ℕ → Text) (has_bus : Bool) (name : Text) where
  abbrev requeued : Text → World (documented uuid) → World (documented uuid)
  requeued id w = after (documented uuid) (requeue_one has_bus name id) (calm w)

  abbrev all_requeued :
      List Text → ℕ → World (documented uuid) → Result RequeueAnswer × World (documented uuid)
  all_requeued ids n w = run (documented uuid) (requeue_all has_bus name ids n 0) (calm w)

module _ (uuid : ℕ → Text) (name : Text) where
  redis-requeued :
      (has_bus : Bool) (id : Text) (w : World (documented uuid))
      → (requeued uuid has_bus name id w).redis_state ≡ record (put_back name id w.redis_state) {
        channel = (requeued uuid has_bus name id w).redis_state.channel;
      }
  unfolding requeue_one execute query db
  redis-requeued true id w = refl
  redis-requeued false id w = refl

  all_requeued-cons :
      (has_bus : Bool) (id : Text) (ids : List Text) (n : ℕ) (w : World (documented uuid))
      → all_requeued uuid has_bus name (id ∷ ids) n w
        ≡ all_requeued uuid has_bus name ids (n + 1) (requeued uuid has_bus name id w)
  unfolding requeue_all requeue_one execute query db
  all_requeued-cons true id ids n w = refl
  all_requeued-cons false id ids n w = refl

-- After the first id, the others.
Emptied-cons :
    (name id : Text) (ids : List Text) (s s' : Keyspace)
    → Emptied name ids (put_back name id s) s'
    → Emptied name (id ∷ ids) s s'
Emptied-cons name id ids s s' (empty, homes, kept) = (
  empty,
  (
    kept (home name s id) id (dlq-ne-target name _ name) (at_home name id s),
    All-map ids (λ x p. subst (λ k. has x (s'.lists k) ≡ true) (home-put_back name id s x) p) homes,
  ),
  λ k x away h. kept k x away (Kept-put_back name id s k x away h),
)

all_requeued-Emptied :
    (uuid : ℕ → Text) (has_bus : Bool) (name : Text) (ids : List Text) (n : ℕ)
    (w : World (documented uuid))
    → w.redis_state.lists (Keys.dlq name) ≡ ids
    → let out = all_requeued uuid has_bus name ids n w in
      (out.0 ≡ ok (counted (n + length ids) 0)) × Emptied name ids w.redis_state out.1.redis_state
unfolding requeue_all
all_requeued-Emptied uuid has_bus name [] n w e =
    (ap (λ m. ok (counted m 0)) (omega arith), (e, tt, λ k x away h. h))
all_requeued-Emptied uuid has_bus name (id ∷ ids) n w e =
    let w' = requeued uuid has_bus name id w in
    let r = redis-requeued uuid name has_bus id w in
    let (answered, emptied) = all_requeued-Emptied uuid has_bus name ids (n + 1) w' (
      ap (λ s. s.lists (Keys.dlq name)) r
      ∙ dlq-put_back name id w.redis_state
      ∙ ap (remove_n 1 id) e
      ∙ remove_first id ids) in
    subst
      (λ out.
        (out.0 ≡ ok (counted (n + length (id ∷ ids)) 0))
        × Emptied name (id ∷ ids) w.redis_state out.1.redis_state)
      (sym (all_requeued-cons uuid name has_bus id ids n w))
      (
        answered ∙ ap (λ m. ok (counted m 0)) {y = n + length (id ∷ ids)} (omega arith),
        Emptied-cons name id ids w.redis_state
            (all_requeued uuid has_bus name ids (n + 1) w').1.redis_state
            (subst
              (λ s.
                Emptied name ids s (all_requeued uuid has_bus name ids (n + 1) w').1.redis_state)
              r emptied),
      )

requeue-all :
    (uuid : ℕ → Text) (has_bus : Bool) (name : Text) (body : RequeueBody)
    (w : World (documented uuid))
    → body.all ≡ true
    → run (documented uuid) (requeue has_bus name body) (calm w)
      ≡ all_requeued uuid has_bus name (w.redis_state.lists (Keys.dlq name)) 0 w
unfolding requeue execute
requeue-all uuid has_bus name body w e = rw e refl

-- When nothing fails and nobody interferes, a request to put all dead-lettered jobs back counts each
-- id of the dead-letter list as requeued and none as failed, and leaves that list empty; each id then
-- stands in the list of the queue for the priority in its hash, and no other list has lost an id.
pub requeue_empties :
    (b : Backend) (has_bus : Bool) (name : Text) (body : RequeueBody) (w : World b)
    → body.all ≡ true
    → let ids = (state w).lists (Keys.dlq name) in
      let out = run b (requeue has_bus name body) (calm w) in
      (out.0 ≡ ok (counted (length ids) 0)) × Emptied name ids (state w) (state out.1)
requeue_empties b has_bus name body w e =
    let ids = (state w).lists (Keys.dlq name) in
    let q =
      run-view b (requeue has_bus name body) (calm w)
      ∙ requeue-all b.uuid has_bus name body (view w) e in
    let (answered, emptied) = all_requeued-Emptied b.uuid has_bus name ids 0 (view w) refl in
    (
      ap (λ x. x.0) q ∙ answered ∙ ap (λ m. ok (counted m 0)) {y = length ids} (omega arith),
      subst (λ x. Emptied name ids (state w) x.1.redis_state) (sym q) emptied,
    )
