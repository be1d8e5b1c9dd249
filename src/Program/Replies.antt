-- ===== src/Program/Replies.antt =====
-- Triples for the questions that a program asks: the clock, a hash, an announcement.
use nexus_queue.Prelude.{ℕ}
use nexus_queue.Prelude.Texts.{Text}
use nexus_queue.Services.Reply.{Hash, Reply, hash, integer, failure}
use nexus_queue.Services.Redis.{JobEvent, publish}
use nexus_queue.Program.{
  Prog, redis, ◌>>=◌, as_hash, as_number, hgetall, now, ignore_errors, request,
}
use nexus_queue.Program.Triple.{
  Place, Triple, Triple-throw, Triple-call, Triple-ignore_errors, Carries-date_now,
}
use nexus_queue.Program.Places.{Carries-hgetall, Carries-publish}
use nexus_queue.Program.Keeps.{Keeps, Keeps-bind}

module _ (uuid : ℕ → Text) (id : Text) {A : Type 0} {p q : Place} where
  pub Triple-now :
      {f : ℕ → Prog A} → ((t : ℕ) → Triple uuid id p (f t) q) → Triple uuid id p (now >>= f) q
  Triple-now {f} t = Triple-call uuid id _ _ (Carries-date_now uuid id p) by_reply
    where
      by_reply : (reply : Reply) → Triple uuid id p (as_number reply >>= f) q
      by_reply (integer n) = t n
      by_reply (failure e) = Triple-throw uuid id e
      by_reply reply = Triple-throw uuid id _

  pub Triple-hgetall :
      (k : Text) {f : Hash → Prog A}
      → ((h : Hash) → Triple uuid id p (f h) q)
      → Triple uuid id p (hgetall k >>= f) q
  Triple-hgetall k {f} t = Triple-call uuid id _ _ (Carries-hgetall uuid id p k) by_reply
    where
      by_reply : (reply : Reply) → Triple uuid id p (as_hash reply >>= f) q
      by_reply (hash h) = t h
      by_reply (failure e) = Triple-throw uuid id e
      by_reply reply = Triple-throw uuid id _

module _ (uuid : ℕ → Text) (id : Text) {A : Type 0} {p : Place} where
  -- An event with the time at which it is published, and what follows.
  pub Keeps-announce :
      (e : ℕ → JobEvent) {f : Unit {0} → Prog A}
      → Keeps uuid id p (f tt)
      → Keeps uuid id p ((now >>= λ t. ignore_errors (request (redis (publish (e t))))) >>= f)
  Keeps-announce e k =
      Keeps-bind uuid id
        (Triple-now uuid id λ t. Triple-ignore_errors uuid id _ (Carries-publish uuid id p (e t)))
        (λ _. k)
