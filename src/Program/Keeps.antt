-- ===== src/Program/Keeps.antt =====
-- Programs that never let go of an id: one rule for each way to build a program.
use nexus_queue.Prelude.{ℕ, sym, subst, Bool, true, false}
use nexus_queue.Prelude.Tests.{if◌then◌else◌}
use nexus_queue.Prelude.Texts.{Text}
use nexus_queue.Services.Reply.{Hash, Reply, hash, failure, integer}
use nexus_queue.Services.Redis.{JobEvent, publish}
use nexus_queue.Program.{
  Request, redis, Prog, ret, throw, call, ◌>>=◌, ignore_errors, request, hgetall, now, as_hash,
  as_number,
}
use nexus_queue.Program.Transfer.{view, run-view}
use nexus_queue.Program.World.{Backend, World, Result, ok, err, documented, serve, after}
use nexus_queue.Program.Triple
use nexus_queue.Program.Triple.{Place, At, Somewhere, Undisturbed, Carries, Ends}
use nexus_queue.Program.Places.{Carries-hgetall, Carries-publish}

module _ (uuid : ℕ → Text) (id : Text) where
  -- However the program ends, the id is somewhere.
  pub record Keeps {A : Type 0} (p : Place) (m : Prog A) : Type 0 where
    pub at :
        (w : World (documented uuid))
        → Undisturbed uuid id w.plan
        → At uuid id p w
        → Somewhere uuid id (after (documented uuid) m w)

  Ends-Somewhere :
      {A : Type 0} (q : Place) (x : Result A × World (documented uuid))
      → Ends uuid id q x
      → Somewhere uuid id x.1
  Ends-Somewhere q (ok a, w) h = (q, h.0)
  Ends-Somewhere q (err e, w) h = h.0

  pub Keeps-Triple :
      {A : Type 0} {p q : Place} {m : Prog A} → Triple.Triple uuid id p m q → Keeps p m
  Keeps-Triple {q = q} t = record { at = λ w u h. Ends-Somewhere q _ (t.at w u h) }

  pub Keeps-ret : {A : Type 0} {p : Place} (a : A) → Keeps p (ret a)
  Keeps-ret {p = p} a = record { at = λ w u h. (p, h) }

  pub Keeps-throw : {A : Type 0} {p : Place} (e : Text) → Keeps {A = A} p (throw e)
  Keeps-throw {p = p} e = record { at = λ w u h. (p, h) }

  continue-Somewhere :
      {A B : Type 0} (q : Place) (f : A → Prog B) (x : Result A × World (documented uuid))
      → ((a : A) → Keeps q (f a))
      → Ends uuid id q x
      → Somewhere uuid id (Triple.continue uuid id f x).1
  continue-Somewhere q f (ok a, w) k h = (k a).at w h.1 h.0
  continue-Somewhere q f (err e, w) k h = h.0

  pub Keeps-bind :
      {A B : Type 0} {p q : Place} {m : Prog A} {f : A → Prog B}
      → Triple.Triple uuid id p m q
      → ((a : A) → Keeps q (f a))
      → Keeps p (m >>= f)
  Keeps-bind {q = q} {m = m} {f = f} t k = record {
    at = λ w u h.
        subst (λ x. Somewhere uuid id x.1) (sym (Triple.run-bind uuid id m f w))
          (continue-Somewhere q f _ k (t.at w u h));
  }

  pub Keeps-if :
      {A : Type 0} {p : Place} (b : Bool) {m n : Prog A}
      → Keeps p m
      → Keeps p n
      → Keeps p (if b then m else n)
  Keeps-if true k l = k
  Keeps-if false k l = l

  -- A request that brings the id from `p` to `q`, and what follows.
  pub Keeps-step :
      {A : Type 0} {p q : Place} (r : Request) {f : Unit {0} → Prog A}
      → Carries uuid id p r q
      → Keeps q (f tt)
      → Keeps p (request r >>= f)
  Keeps-step r c k = Keeps-bind (Triple.Triple-request uuid id r c) (λ _. k)

  -- A request that leaves the id where it is, whatever is done with its reply.
  pub Keeps-call :
      {A : Type 0} {p : Place} (r : Request) (k : Reply → Prog A)
      → Carries uuid id p r p
      → ((reply : Reply) → Keeps p (k reply))
      → Keeps p (call r k)
  Keeps-call {p = p} r k c t = record {
    at = λ w u h.
        let (landed, u') = Triple.serve-Safely uuid id p p r w c u h in
        (t (serve (documented uuid) r w).1).at (serve (documented uuid) r w).0 u'
          (Triple.stays uuid id p (serve (documented uuid) r w) landed);
  }

  pub Keeps-hgetall :
      {A : Type 0} {p : Place} (k : Text) {f : Hash → Prog A}
      → ((h : Hash) → Keeps p (f h))
      → Keeps p (hgetall k >>= f)
  Keeps-hgetall {p = p} k {f} t = Keeps-call _ _ (Carries-hgetall uuid id p k) by_reply
    where
      by_reply : (reply : Reply) → Keeps p (as_hash reply >>= f)
      by_reply (hash h) = t h
      by_reply (failure e) = Keeps-throw e
      by_reply reply = Keeps-throw _

  pub Keeps-now :
      {A : Type 0} {p : Place} {f : ℕ → Prog A} → ((t : ℕ) → Keeps p (f t)) → Keeps p (now >>= f)
  Keeps-now {p = p} {f} t = Keeps-call _ _ (Triple.Carries-date_now uuid id p) by_reply
    where
      by_reply : (reply : Reply) → Keeps p (as_number reply >>= f)
      by_reply (integer n) = t n
      by_reply (failure e) = Keeps-throw e
      by_reply reply = Keeps-throw _

  -- A publication whose failure is ignored.
  pub Keeps-publish :
      {A : Type 0} {p : Place} (e : JobEvent) {f : Unit {0} → Prog A}
      → Keeps p (f tt)
      → Keeps p (ignore_errors (request (redis (publish e))) >>= f)
  Keeps-publish {p = p} e k =
      Keeps-bind (Triple.Triple-ignore_errors uuid id _ (Carries-publish uuid id p e)) (λ _. k)

  pub Keeps-ignore :
      {p : Place} (e : JobEvent) → Keeps p (ignore_errors (request (redis (publish e))))
  Keeps-ignore {p = p} e =
      Keeps-Triple (Triple.Triple-ignore_errors uuid id _ (Carries-publish uuid id p e))

  pub Keeps-request :
      {p : Place} (q : Place) (r : Request) → Carries uuid id p r q → Keeps p (request r)
  Keeps-request q r c = Keeps-Triple (Triple.Triple-request uuid id r c)

-- The same on any services that behave as documented.
pub Keeps-after :
    (b : Backend) {A : Type 0} (p : Place) (id : Text) (m : Prog A) (w : World b)
    → Keeps b.uuid id p m
    → Undisturbed b.uuid id w.plan
    → At b.uuid id p (view w)
    → Somewhere b.uuid id (view (after b m w))
Keeps-after b p id m w k u h =
    subst (λ x. Somewhere b.uuid id x.1) (sym (run-view b m w)) (k.at (view w) u h)
