-- ===== src/Program/Places.antt =====
-- How the Redis commands move an id between lists and sorted sets.
use nexus_queue.Prelude.{ℕ, ◌≡◌, refl, true, false, List, [], ◌∷◌, inl, inr, arith}
use nexus_queue.Prelude.Texts.{Text, same, same_refl, same→eq}
use nexus_queue.Prelude.Decimal.{Number, nan, int}
use nexus_queue.Services.Reply.{Field}
use nexus_queue.Services.Redis.{
  JobEvent, execute, zset_has, zset_insert, zset_remove, lpush, lrem, hset, hgetall, zadd, publish,
}
use nexus_queue.Program.{redis, multi}
use nexus_queue.Program.Triple.{Place, in_list, in_zset, Carries}

pub zset_has-insert :
    (m : Text) (score : ℕ) (z : List (Text × ℕ)) → zset_has m (zset_insert m score z) ≡ true
zset_has-insert m score [] = rw (same_refl m)
zset_has-insert m score ((x, t) ∷ z) = ground (arith, same_refl m, zset_has-insert m score z)

zset_has-insert_ne :
    (a m : Text) (score : ℕ) (z : List (Text × ℕ))
    → zset_has a z ≡ true
    → zset_has a (zset_insert m score z) ≡ true
zset_has-insert_ne a m score [] h = cc
zset_has-insert_ne a m score ((x, t) ∷ z) h = ground (arith, zset_has-insert_ne a m score z)

zset_has-remove_ne :
    (a m : Text) (z : List (Text × ℕ))
    → same m a ≡ false
    → zset_has a (zset_remove m z) ≡ zset_has a z
zset_has-remove_ne a m [] h = refl
zset_has-remove_ne a m ((x, t) ∷ z) h =
    ground (arith, same→eq x m, same→eq x a, zset_has-remove_ne a m z h)

module _ (uuid : ℕ → Text) (id : Text) where
  pub Carries-hset :
      (p : Place) (k : Text) (fs : List (Field × Text)) → Carries uuid id p (redis (hset k fs)) p
  unfolding execute
  Carries-hset (in_list j) k fs = record { at = λ w h. inl h }
  Carries-hset (in_zset j) k fs = record { at = λ w h. inl h }

  pub Carries-hgetall : (p : Place) (k : Text) → Carries uuid id p (redis (hgetall k)) p
  unfolding execute
  Carries-hgetall p k = record { at = λ w h. inl h }

  pub Carries-publish : (p : Place) (e : JobEvent) → Carries uuid id p (redis (publish e)) p
  unfolding execute
  Carries-publish (in_list j) e = record { at = λ w h. inl h }
  Carries-publish (in_zset j) e = record { at = λ w h. inl h }

  pub Carries-lpush : (p : Place) (k : Text) → Carries uuid id p (redis (lpush k id)) (in_list k)
  unfolding execute
  Carries-lpush p k = record { at = λ w h. inl (rw (same_refl k) (rw (same_refl id) refl)) }

  pub Carries-lpush_any : (p : Place) (k v : Text) → Carries uuid id p (redis (lpush k v)) p
  unfolding execute
  Carries-lpush_any (in_list j) k v = record { at = λ w h. inl (ground (arith, same→eq k j)) }
  Carries-lpush_any (in_zset j) k v = record { at = λ w h. inl h }

  pub Carries-zadd :
      (p : Place) (k : Text) (score : Number)
      → Carries uuid id p (redis (zadd k score id)) (in_zset k)
  unfolding execute
  Carries-zadd p k nan = record { at = λ w h. inr (_, refl, h) }
  Carries-zadd p k (int n) = record { at = λ w h. inl (rw (same_refl k) (zset_has-insert id n _)) }

  -- A removal from one list leaves the others, and the sorted sets, as they are.
  pub Carries-lrem_list :
      (j k : Text) (n : ℕ) (v : Text)
      → same k j ≡ false
      → Carries uuid id (in_list j) (redis (lrem k n v)) (in_list j)
  unfolding execute
  Carries-lrem_list j k n v e = record { at = λ w h. inl (rw e h) }

  pub Carries-lrem_zset :
      (j k : Text) (n : ℕ) (v : Text) → Carries uuid id (in_zset j) (redis (lrem k n v)) (in_zset j)
  unfolding execute
  Carries-lrem_zset j k n v = record { at = λ w h. inl h }

  -- Out of one list and into another in one transaction.
  pub Carries-move :
      (p : Place) (k j v : Text) (n : ℕ)
      → Carries uuid id p (multi (lrem k n v ∷ lpush j id ∷ [])) (in_list j)
  unfolding execute
  Carries-move p k j v n = record { at = λ w h. inl (rw (same_refl j) (rw (same_refl id) refl)) }
