-- ===== src/Program/Transfer.antt =====
-- What a program does to any services that behave as documented can be read off the documented ones.
use nexus_queue.Prelude.{ℕ, ◌≡◌, refl, ap, ◌∙◌, List, [], ◌∷◌}
use nexus_queue.Program.{
  Request, redis, multi, sql, date_now, uuid_v4, sleep, handling, Prog, ret, throw, call,
}
use nexus_queue.Services.Reply.{Reply, done, failure}
use nexus_queue.Services.Redis.{Command}
use nexus_queue.Program.World.{
  Backend, World, Turn, Fault, fine, dropped, lost, Result, send_all, answer, interfere, face,
  serve_next, elapse, serve, run, documented,
}

-- What can be observed of a world.
abbrev pub view : {b : Backend} → World b → World (documented b.uuid)
view {b} w = record {
  redis_state = b.keyspace w.redis_state;
  postgres_state = b.table w.postgres_state;
  clock = w.clock;
  drawn = w.drawn;
  plan = w.plan;
}

module _ (b : Backend) where
  abbrev ideal : Backend
  ideal = documented b.uuid

  send_all-view :
      (cs : List Command) (t : ℕ) (d : b.RedisState)
      → b.keyspace (send_all b cs t d) ≡ send_all ideal cs t (b.keyspace d)
  send_all-view [] t d = refl
  send_all-view (c ∷ cs) t d =
      send_all-view cs t (b.send c t d).0 ∙ ap (send_all ideal cs t) (b.keyspace-send c t d)

  abbrev view_pair : World b × Reply → World ideal × Reply
  view_pair (w, r) = (view w, r)

  answer-view : (q : Request) (w : World b) → view_pair (answer b q w) ≡ answer ideal q (view w)
  answer-view (redis c) w = λ i. (
    record (view w) { redis_state = b.keyspace-send c w.clock w.redis_state i },
    b.reply-send c w.clock w.redis_state i,
  )
  answer-view (multi cs) w =
      λ i. (record (view w) { redis_state = send_all-view cs w.clock w.redis_state i }, done)
  answer-view (sql q) w = λ i. (
    record (view w) { postgres_state = b.table-run_sql q w.clock w.postgres_state i },
    b.reply-run_sql q w.clock w.postgres_state i,
  )
  answer-view date_now w = refl
  answer-view uuid_v4 w = refl
  answer-view (sleep ms) w = refl
  answer-view handling w = refl

  interfere-view :
      (qs : List Request) (w : World b) → view (interfere b qs w) ≡ interfere ideal qs (view w)
  interfere-view [] w = refl
  interfere-view (q ∷ qs) w =
      interfere-view qs (answer b q w).0 ∙ ap (λ x. interfere ideal qs x.0) (answer-view q w)

  face-view :
      (f : Fault) (q : Request) (w : World b) → view_pair (face b f q w) ≡ face ideal f q (view w)
  face-view fine q w = answer-view q w
  face-view (dropped e) q w = refl
  face-view (lost e) q w = λ i. ((answer-view q w i).0, failure e)

  serve_next-view :
      (plan : List Turn) (q : Request) (w : World b)
      → view_pair (serve_next b plan q w) ≡ serve_next ideal plan q (view w)
  serve_next-view [] q w = answer-view q w
  serve_next-view (t ∷ ts) q w =
      face-view t.fault q (interfere b t.others (record w { plan = ts }))
      ∙ ap (face ideal t.fault q) (interfere-view t.others (record w { plan = ts }))

  elapse-view :
      (plan : List Turn) (q : Request) (w : World b)
      → view_pair (elapse b plan q w) ≡ elapse ideal plan q (view w)
  elapse-view [] q w = answer-view q w
  elapse-view (t ∷ ts) q w =
      answer-view q (interfere b t.others (record w { plan = ts }))
      ∙ ap (answer ideal q) (interfere-view t.others (record w { plan = ts }))

  serve-view : (q : Request) (w : World b) → view_pair (serve b q w) ≡ serve ideal q (view w)
  serve-view date_now w = refl
  serve-view uuid_v4 w = refl
  serve-view (sleep ms) w = elapse-view w.plan (sleep ms) w
  serve-view handling w = elapse-view w.plan handling w
  serve-view (redis c) w = serve_next-view w.plan (redis c) w
  serve-view (multi cs) w = serve_next-view w.plan (multi cs) w
  serve-view (sql q) w = serve_next-view w.plan (sql q) w

  abbrev pub view_result : {A : Type 0} → Result A × World b → Result A × World ideal
  view_result (r, w) = (r, view w)

  -- A program returns the same on any services that behave as documented as on the documented
  -- ones, and leaves what looks the same, under every plan of interference and faults.
  pub run-view :
      {A : Type 0} (p : Prog A) (w : World b)
      → view_result (run b p w) ≡ run (documented b.uuid) p (view w)
  run-view (ret a) w = refl
  run-view (throw e) w = refl
  run-view (call q k) w =
      run-view (k (serve b q w).1) (serve b q w).0
      ∙ ap (λ x. run ideal (k x.1) x.0) (serve-view q w)
