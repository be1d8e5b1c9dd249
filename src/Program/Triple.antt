-- ===== src/Program/Triple.antt =====
-- What stays true of one job id in Redis while a program runs among faults and other processes.
use nexus_queue.Prelude.{
  ℕ, ◌≡◌, refl, sym, ◌∙◌, subst, Bool, true, false, List, [], ◌∷◌, ◌⊎◌, inl, inr,
}
use nexus_queue.Prelude.Tests.{if◌then◌else◌}
use nexus_queue.Prelude.Texts.{Text}
use nexus_queue.Prelude.Lists.{All, has}
use nexus_queue.Services.Reply.{Reply, failure}
use nexus_queue.Services.Redis.{Keyspace, zset_has}
use nexus_queue.Services.Postgres.{Statement}
use nexus_queue.Program.{
  Request, redis, multi, sql, date_now, uuid_v4, sleep, handling, Prog, ret, throw, call, ◌>>=◌,
  try_catch, ignore_errors, request,
}
use nexus_queue.Program.World.{
  World, Turn, Fault, fine, dropped, lost, Result, ok, err, documented, answer, interfere, face,
  serve_next, elapse, serve, run,
}

-- The id stands in the list, or in the sorted set, under a key.
pub data Place : Type 0 where
  in_list in_zset : Text → Place

abbrev pub holds : Text → Place → Keyspace → Bool
holds id (in_list k) s = has id (s.lists k)
holds id (in_zset k) s = zset_has id (s.zsets k)

module _ (uuid : ℕ → Text) (id : Text) where
  abbrev pub At : Place → World (documented uuid) → Type 0
  At p w = holds id p w.redis_state ≡ true

  -- The id stands in some list or sorted set.
  abbrev pub Somewhere : World (documented uuid) → Type 0
  Somewhere w = (p : Place) × At p w

  -- Requests of other processes that take the id out of no list and no sorted set.
  abbrev pub Spares : List Request → Type 0
  Spares qs =
      (p : Place) (w : World (documented uuid)) → At p w → At p (interfere (documented uuid) qs w)

  abbrev pub Undisturbed : List Turn → Type 0
  Undisturbed plan = All (λ t. Spares t.others) plan

  -- At place `q`, or refused and still at place `p`.
  abbrev pub Lands : Place → Place → World (documented uuid) × Reply → Type 0
  Lands p q (w, r) = At q w ⊎ ((e : Text) × (r ≡ failure e) × At p w)

  -- A request that takes the id from place `p` to place `q`.
  pub record Carries (p : Place) (r : Request) (q : Place) : Type 0 where
    pub at : (w : World (documented uuid)) → At p w → Lands p q (answer (documented uuid) r w)

  abbrev pub Ends : {A : Type 0} → Place → Result A × World (documented uuid) → Type 0
  Ends p (ok a, w) = At p w × Undisturbed w.plan
  Ends p (err e, w) = Somewhere w × Undisturbed w.plan

  -- From place `p` the program brings the id to place `q`, or throws with the id somewhere.
  pub record Triple {A : Type 0} (p : Place) (m : Prog A) (q : Place) : Type 0 where
    pub at :
        (w : World (documented uuid))
        → Undisturbed w.plan
        → At p w
        → Ends q (run (documented uuid) m w)

  answer-plan :
      (r : Request) (w : World (documented uuid)) → (answer (documented uuid) r w).0.plan ≡ w.plan
  answer-plan (redis c) w = refl
  answer-plan (multi cs) w = refl
  answer-plan (sql s) w = refl
  answer-plan date_now w = refl
  answer-plan uuid_v4 w = refl
  answer-plan (sleep ms) w = refl
  answer-plan handling w = refl

  interfere-plan :
      (rs : List Request) (w : World (documented uuid))
      → (interfere (documented uuid) rs w).plan ≡ w.plan
  interfere-plan [] w = refl
  interfere-plan (r ∷ rs) w = interfere-plan rs (answer (documented uuid) r w).0 ∙ answer-plan r w

  module _ (p q : Place) where
    face-Lands :
        (f : Fault) (r : Request) (w : World (documented uuid))
        → Carries p r q
        → At p w
        → Lands p q (face (documented uuid) f r w)
    face-Lands fine r w c h = c.at w h
    face-Lands (dropped e) r w c h = inr (e, refl, h)
    face-Lands (lost e) r w c h = elim (c.at w h) [
      | inl at_q ↦ inl at_q
      | inr (e', refused, at_p) ↦ inr (e, refl, at_p)
    ]

    face-plan :
        (f : Fault) (r : Request) (w : World (documented uuid))
        → (face (documented uuid) f r w).0.plan ≡ w.plan
    face-plan fine r w = answer-plan r w
    face-plan (dropped e) r w = refl
    face-plan (lost e) r w = answer-plan r w

    abbrev pub Safely : World (documented uuid) × Reply → Type 0
    Safely (w, r) = Lands p q (w, r) × Undisturbed w.plan

    serve_next-Safely :
        (plan : List Turn) (r : Request) (w : World (documented uuid))
        → w.plan ≡ plan
        → Carries p r q
        → Undisturbed plan
        → At p w
        → Safely (serve_next (documented uuid) plan r w)
    serve_next-Safely [] r w e c u h = (c.at w h, subst Undisturbed (sym (answer-plan r w ∙ e)) u)
    serve_next-Safely (t ∷ ts) r w e c u h =
        let w1 : World (documented uuid) =
          interfere (documented uuid) t.others (record w { plan = ts }) in
        (
          face-Lands t.fault r w1 c (u.0 p (record w { plan = ts }) h),
          subst Undisturbed
              (sym (face-plan t.fault r w1 ∙ interfere-plan t.others (record w { plan = ts }))) u.1,
        )

    elapse-Safely :
        (plan : List Turn) (r : Request) (w : World (documented uuid))
        → w.plan ≡ plan
        → Carries p r q
        → Undisturbed plan
        → At p w
        → Safely (elapse (documented uuid) plan r w)
    elapse-Safely [] r w e c u h = (c.at w h, subst Undisturbed (sym (answer-plan r w ∙ e)) u)
    elapse-Safely (t ∷ ts) r w e c u h =
        let w1 : World (documented uuid) =
          interfere (documented uuid) t.others (record w { plan = ts }) in
        (
          c.at w1 (u.0 p (record w { plan = ts }) h),
          subst Undisturbed
              (sym (answer-plan r w1 ∙ interfere-plan t.others (record w { plan = ts }))) u.1,
        )

    pub serve-Safely :
        (r : Request) (w : World (documented uuid))
        → Carries p r q
        → Undisturbed w.plan
        → At p w
        → Safely (serve (documented uuid) r w)
    serve-Safely date_now w c u h = (c.at w h, u)
    serve-Safely uuid_v4 w c u h = (c.at w h, u)
    serve-Safely (sleep ms) w c u h = elapse-Safely w.plan (sleep ms) w refl c u h
    serve-Safely handling w c u h = elapse-Safely w.plan handling w refl c u h
    serve-Safely (redis d) w c u h = serve_next-Safely w.plan (redis d) w refl c u h
    serve-Safely (multi ds) w c u h = serve_next-Safely w.plan (multi ds) w refl c u h
    serve-Safely (sql s) w c u h = serve_next-Safely w.plan (sql s) w refl c u h

  pub stays : (p : Place) (x : World (documented uuid) × Reply) → Lands p p x → At p x.0
  stays p x (inl h) = h
  stays p x (inr h) = h.2

  pub Triple-ret : {A : Type 0} {p : Place} (a : A) → Triple p (ret a) p
  Triple-ret a = record { at = λ w u h. (h, u) }

  pub Triple-throw : {A : Type 0} {p q : Place} (e : Text) → Triple {A = A} p (throw e) q
  Triple-throw {p = p} e = record { at = λ w u h. ((p, h), u) }

  -- A request that leaves the id where it is, whatever is done with its reply.
  pub Triple-call :
      {A : Type 0} {p q : Place} (r : Request) (k : Reply → Prog A)
      → Carries p r p
      → ((reply : Reply) → Triple p (k reply) q)
      → Triple p (call r k) q
  Triple-call {p = p} r k c t = record {
    at = λ w u h.
        let (landed, u') = serve-Safely p p r w c u h in
        (t (serve (documented uuid) r w).1).at (serve (documented uuid) r w).0 u'
          (stays p (serve (documented uuid) r w) landed);
  }

  request-Ends :
      (p q : Place) (reply : Reply) (w : World (documented uuid))
      → Lands p q (w, reply)
      → Undisturbed w.plan
      → Ends q
          (run (documented uuid) {A = Unit {0}} (elim reply [ failure e ↦ throw e | _ ↦ ret tt ]) w)
  request-Ends p q (failure e) w (inl h) u = ((q, h), u)
  request-Ends p q (failure e) w (inr h) u = ((p, h.2), u)
  request-Ends p q reply w (inl h) u = (h, u)
  request-Ends p q reply w (inr (e, refused, h)) u = absurd (cc)

  pub Triple-request : {p q : Place} (r : Request) → Carries p r q → Triple p (request r) q
  Triple-request {p} {q} r c = record {
    at = λ w u h.
        let (landed, u') = serve-Safely p q r w c u h in
        request-Ends p q (serve (documented uuid) r w).1 (serve (documented uuid) r w).0 landed u';
  }

  quiet :
      {p : Place} (reply : Reply)
      → Triple p (try_catch (elim reply [ failure e ↦ throw e | _ ↦ ret tt ]) (λ _. ret tt)) p
  quiet (failure e) = Triple-ret tt
  quiet reply = Triple-ret tt

  -- A request whose failure is ignored.
  pub Triple-ignore_errors :
      {p : Place} (r : Request) → Carries p r p → Triple p (ignore_errors (request r)) p
  Triple-ignore_errors r c = Triple-call r _ c quiet

  abbrev pub continue :
      {A B : Type 0}
      → (A → Prog B)
      → Result A × World (documented uuid)
      → Result B × World (documented uuid)
  continue f (ok a, w) = run (documented uuid) (f a) w
  continue f (err e, w) = (err e, w)

  pub run-bind :
      {A B : Type 0} (m : Prog A) (f : A → Prog B) (w : World (documented uuid))
      → run (documented uuid) (m >>= f) w ≡ continue f (run (documented uuid) m w)
  run-bind (ret a) f w = refl
  run-bind (throw e) f w = refl
  run-bind (call r k) f w =
      run-bind (k (serve (documented uuid) r w).1) f (serve (documented uuid) r w).0

  continue-Ends :
      {A B : Type 0} {p q : Place} (f : A → Prog B) (x : Result A × World (documented uuid))
      → ((a : A) → Triple p (f a) q)
      → Ends p x
      → Ends q (continue f x)
  continue-Ends f (ok a, w) t h = (t a).at w h.1 h.0
  continue-Ends f (err e, w) t h = h

  pub Triple-bind :
      {A B : Type 0} {p q s : Place} {m : Prog A} {f : A → Prog B}
      → Triple p m q
      → ((a : A) → Triple q (f a) s)
      → Triple p (m >>= f) s
  Triple-bind {q = q} {s = s} {m = m} {f = f} t u = record {
    at = λ w d h. rw (run-bind m f w) (continue-Ends {p = q} f _ u (t.at w d h));
  }

  pub Triple-if :
      {A : Type 0} {p q : Place} (b : Bool) {m n : Prog A}
      → Triple p m q
      → Triple p n q
      → Triple p (if b then m else n) q
  Triple-if true t u = t
  Triple-if false t u = u

  -- Requests to Postgres, the clock and timers leave Redis alone.
  pub Carries-sql : (p : Place) (q : Statement) → Carries p (sql q) p
  Carries-sql p q = record { at = λ w h. inl h }

  pub Carries-date_now : (p : Place) → Carries p date_now p
  Carries-date_now p = record { at = λ w h. inl h }

  pub Carries-handling : (p : Place) → Carries p handling p
  Carries-handling p = record { at = λ w h. inl h }

  pub Carries-sleep : (p : Place) (ms : ℕ) → Carries p (sleep ms) p
  Carries-sleep p ms = record { at = λ w h. inl h }
