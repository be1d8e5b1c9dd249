-- ===== src/Worker/Recovery.antt =====
-- The janitor loses no job of a dead worker: worker/src/janitor.ts.
use nexus_queue.Prelude.{
  ℕ, ◌≡◌, refl, sym, ap, subst, fun_ext, true, false, inl, inr, List, [], ◌∷◌, arith,
}
use nexus_queue.Prelude.Tests.{or_else, Bool-cases}
use nexus_queue.Prelude.Texts.{Text, text, same, same→eq}
use nexus_queue.Prelude.Lists.{has}
use nexus_queue.Shared.Keys.{keys, target_list}
use nexus_queue.Shared.Keys
use nexus_queue.Shared.Db.{db}
use nexus_queue.Services.Reply.{Field, Hash}
use nexus_queue.Services.Redis.{execute, del, srem}
use nexus_queue.Program.{Prog, ret, throw, call, redis, command, hgetall, for_each, ◌>>=◌, ◌>>◌}
use nexus_queue.Program.Triple.{
  Place, in_list, Somewhere, Undisturbed, Carries, Triple, Triple-ret, Triple-bind, Triple-request,
  Carries-sql,
}
use nexus_queue.Program.Places.{Carries-hset, Carries-lpush, Carries-lpush_any}
use nexus_queue.Program.Keeps.{
  Keeps, Keeps-after, Keeps-bind, Keeps-step, Keeps-request, Keeps-hgetall,
}
use nexus_queue.Program.Replies.{Triple-hgetall}
use nexus_queue.Program.Reads.{Keeps-lrange_all}
use nexus_queue.Program.Transfer.{view}
use nexus_queue.Program.World.{Backend, World, after}
use nexus_queue.Worker.Janitor.{put_back, requeue_orphan, recover_worker}

target-ne-processing : (w q p : Text) → same (Keys.processing w) (Keys.target_list q p) ≡ false
unfolding keys target_list
target-ne-processing w q p = ground arith

target-ne-meta : (w q p : Text) → same (Keys.worker_meta w) (Keys.target_list q p) ≡ false
unfolding keys target_list
target-ne-meta w q p = ground arith

-- What follows a loop follows its last round.
bind_assoc :
    {A B C : Type 0} (m : Prog A) (f : A → Prog B) (g : B → Prog C)
    → (m >>= f) >>= g ≡ (m >>= λ a. f a >>= g)
bind_assoc (ret a) f g = refl
bind_assoc (throw e) f g = refl
bind_assoc (call q k) f g = ap (call q) (fun_ext λ r. bind_assoc (k r) f g)

module _ (uuid : ℕ → Text) (id : Text) where
  Carries-del :
      (j k : Text) → same k j ≡ false → Carries uuid id (in_list j) (redis (del k)) (in_list j)
  unfolding execute
  Carries-del j k e = record { at = λ w h. inl (rw e h) }

  Carries-srem : (j k m : Text) → Carries uuid id (in_list j) (redis (srem k m)) (in_list j)
  unfolding execute
  Carries-srem j k m = record { at = λ w h. inl h }

  -- Another job's turn leaves the id in its list.
  requeue_orphan-stays :
      (j other : Text) → Triple uuid id (in_list j) (requeue_orphan other) (in_list j)
  unfolding requeue_orphan db
  requeue_orphan-stays j other = Triple-hgetall uuid id _ λ h.
      Triple-bind uuid id (Triple-request uuid id _ (Carries-lpush_any uuid id (in_list j) _ other))
        λ _.
          Triple-bind uuid id (Triple-request uuid id _ (Carries-hset uuid id (in_list j) _ _))
            λ _. Triple-request uuid id _ (Carries-sql uuid id (in_list j) _)

  requeue_all-stay :
      (j : Text) (ts : List Text)
      → Triple uuid id (in_list j) (for_each requeue_orphan ts) (in_list j)
  requeue_all-stay j [] = Triple-ret uuid id tt
  requeue_all-stay j (t ∷ ts) =
      Triple-bind uuid id (requeue_orphan-stays j t) (λ _. requeue_all-stay j ts)

  -- The id's own turn brings it to the list of its queue and priority.
  put_back-moves :
      {j : Text} (h : Hash)
      → let queue_name = or_else (h Field.queue_name) (text "default") in
        let priority = or_else (h Field.priority) (text "normal") in
        Triple uuid id (in_list j) (put_back id h) (in_list (Keys.target_list queue_name priority))
  unfolding put_back db
  put_back-moves h = Triple-bind uuid id (Triple-request uuid id _ (Carries-lpush uuid id _ _)) λ _.
      Triple-bind uuid id (Triple-request uuid id _ (Carries-hset uuid id _ _ _))
        λ _. Triple-request uuid id _ (Carries-sql uuid id _ _)

  requeue_orphan-moves :
      {j : Text} (f : Unit {0} → Prog (Unit {0}))
      → ((q p : Text) → Keeps uuid id (in_list (Keys.target_list q p)) (f tt))
      → Keeps uuid id (in_list j) (requeue_orphan id >>= f)
  unfolding requeue_orphan
  requeue_orphan-moves {j} f k =
      subst (Keeps uuid id (in_list j)) (sym (bind_assoc (hgetall (Keys.job id)) (put_back id) f))
        (Keeps-hgetall uuid id _ λ h. Keeps-bind uuid id (put_back-moves h) (λ _. k _ _))

  module _ (dead : Text) where
    abbrev dead_list : Place
    dead_list = in_list (Keys.processing dead)

    abbrev clean_up : Prog (Unit {0})
    clean_up =
        command (del (Keys.processing dead))
        >> (command (srem Keys.worker_registry dead) >> command (del (Keys.worker_meta dead)))

    clean_up-Keeps : (q p : Text) → Keeps uuid id (in_list (Keys.target_list q p)) clean_up
    clean_up-Keeps q p = Keeps-step uuid id _ (Carries-del _ _ (target-ne-processing dead q p)) (
        Keeps-step uuid id _ (Carries-srem _ _ dead)
          (Keeps-request uuid id _ _ (Carries-del _ _ (target-ne-meta dead q p))))

    requeue_all-Keeps :
        (ts : List Text)
        → has id ts ≡ true
        → Keeps uuid id dead_list (for_each requeue_orphan ts >>= λ _. clean_up)
    requeue_all-Keeps [] h = cc
    requeue_all-Keeps (t ∷ ts) h =
        subst (Keeps uuid id dead_list) (sym (bind_assoc (requeue_orphan t) _ _))
          (elim (Bool-cases (same t id)) [
            | inl e ↦
                subst
                  (λ x.
                    Keeps uuid id dead_list
                      (requeue_orphan x >>= λ _. for_each requeue_orphan ts >>= λ _. clean_up))
                  (sym (same→eq t id e))
                  (requeue_orphan-moves _
                    λ q p. Keeps-bind uuid id (requeue_all-stay _ ts) (λ _. clean_up-Keeps q p))
            | inr e ↦
                Keeps-bind uuid id (requeue_orphan-stays _ t)
                  (λ _. requeue_all-Keeps ts (ground arith))
          ])

    recover_worker-Keeps : Keeps uuid id dead_list (recover_worker dead)
    unfolding recover_worker
    recover_worker-Keeps = Keeps-lrange_all uuid id _ requeue_all-Keeps

-- Take any services that behave as documented, and a job id in the processing list of a dead
-- worker. Let any requests be dropped or lose their replies, and let other processes send anything
-- between two requests that takes the id out of no list and no sorted set. When the janitor has
-- ended the recovery of that worker, by returning or by throwing, the id stands in a list or in a
-- sorted set.
pub recover_worker_never_loses :
    (b : Backend) (dead id : Text) (w : World b)
    → Undisturbed b.uuid id w.plan
    → has id ((b.keyspace w.redis_state).lists (Keys.processing dead)) ≡ true
    → Somewhere b.uuid id (view (after b (recover_worker dead) w))
recover_worker_never_loses b dead id w u h =
    Keeps-after b (in_list (Keys.processing dead)) id (recover_worker dead) w
      (recover_worker-Keeps b.uuid id dead) u h
