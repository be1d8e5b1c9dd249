-- ===== src/Fifo/Refinement.antt =====
-- The program implements the queues.
use nexus_queue.Prelude.{
  ℕ, ◌+◌, ◌%◌, ◌≤◌, ◌<◌, ◌≡◌, refl, sym, ap, ap₂, subst, ◌∙◌, Bool, true, false, Option, none, some,
  List, [], ◌∷◌, arith,
}
use nexus_queue.Prelude.Tests.{leb, if◌then◌else◌}
use nexus_queue.Prelude.Texts.{Text, same, is_empty}
use nexus_queue.Prelude.Lists.{All}
use nexus_queue.Shared.Keys.{keys}
use nexus_queue.Shared.Keys
use nexus_queue.Shared.Types.{Priority}
use nexus_queue.Services.Reply.{nil}
use nexus_queue.Services.Redis.{execute, blmove}
use nexus_queue.Services.Postgres.{clashes}
use nexus_queue.Program.{Prog, ret, ◌>>=◌, as_text, ask_text}
use nexus_queue.Program.Steps.{calm_step}
use nexus_queue.Program.Triple.{run-bind, continue}
use nexus_queue.Program.Transfer.{view, run-view}
use nexus_queue.Program.World.{Backend, World, Result, ok, documented, run, calm, state, rows}
use nexus_queue.Worker.Handlers.{Runtime}
use nexus_queue.Worker.Pull.{moved, skips_empty, takes_oldest}
use nexus_queue.Worker.Pulling.{
  Worker, truthy, source_list, priority_order, pull_job, get_priority_order, try_priorities,
}
use nexus_queue.Server.Producer.Stores.{enqueue-enqueued}
use nexus_queue.Fifo.{
  Operation, submit, pull, Queues, put, serve_from, served, answered, fifo, at_priority, some_id,
  performed, observed,
}
use nexus_queue.Fifo.Apart.{processing-apart, reverse, Given}
use nexus_queue.Fifo.Arrivals.{Stands, reverse-put, given-put, submit-Stands}

module _ (uuid : ℕ → Text) (n worker_id : Text) (q : Queues) (w : World (documented uuid))
    (s : Stands uuid n q w) where
  -- The loop over the lists, and the wait on the list of normal jobs.
  abbrev wait_normal : Option Text → Prog (Option Text)
  wait_normal job_id = elim (truthy job_id) [
    | true ↦ ret job_id
    | false ↦ ask_text (blmove (Keys.queue n) (Keys.processing worker_id))
  ]

  abbrev pull_from : List Priority → Prog (Option Text)
  pull_from order = try_priorities n (Keys.processing worker_id) order >>= wait_normal

  abbrev on :
      Result (Option Text) × World (documented uuid)
      → Result (Option Text) × World (documented uuid)
  on = continue uuid (uuid 0) wait_normal

  on-tried :
      (order : List Priority)
      → run (documented uuid) (pull_from order) (calm w)
        ≡ on (run (documented uuid) (try_priorities n (Keys.processing worker_id) order) (calm w))
  on-tried order =
      run-bind uuid (uuid 0) (try_priorities n (Keys.processing worker_id) order) wait_normal
        (calm w)

  on-found :
      (id : Text) (v : World (documented uuid))
      → is_empty id ≡ false
      → on (ok (some id), v) ≡ (ok (some id), v)
  on-found [] v ne = absurd (cc)
  on-found (c ∷ cs) v ne = refl

  -- What the answer of a pull leaves.
  abbrev Pulled : List Priority → Option Text × (Priority → List Text) → Type 0
  Pulled order (id, waiting) =
      (v : World (documented uuid)) × (run (documented uuid) (pull_from order) (calm w)
        ≡ (ok id, v))
      × Stands uuid n (record q { waiting = waiting; turn = q.turn + 1 }) v

  taken-Pulled :
      (order : List Priority) (p : Priority) (id : Text) (rest : List Text)
      → q.waiting p ≡ id ∷ rest
      → Pulled (p ∷ order) (some id, put q.waiting p rest)
  unfolding reverse
  taken-Pulled order p id rest e =
      let given = subst (All Given) e (s.given p) in
      (
        moved uuid n (Keys.processing worker_id) w (source_list n p) id (reverse rest),
        on-tried (p ∷ order)
            ∙ ap on (
                takes_oldest uuid n (Keys.processing worker_id) w [] order p (reverse rest) id tt
                  (s.lists p ∙ ap reverse e) given.0)
            ∙ on-found id _ given.0,
        record {
          lists = λ r.
              rw (processing-apart worker_id n r)
                (reverse-put uuid n q.waiting p r rest w.redis_state.lists (s.lists r));
          given = λ r. given-put uuid n q.waiting p r rest (s.given r) given.1;
          counted = s.counted;
          unused = s.unused;
        },
      )

  next-Pulled :
      (order : List Priority) (p : Priority) (ids : List Text)
      (later : Option Text × (Priority → List Text))
      → q.waiting p ≡ ids
      → (q.waiting p ≡ [] → Pulled order later)
      → Pulled (p ∷ order) (serve_from p q.waiting ids later)
  unfolding reverse
  next-Pulled order p [] later e h =
      let (v, ran, stands) = h e in
      (
        v,
        on-tried (p ∷ order)
            ∙ ap on (
                skips_empty uuid n (Keys.processing worker_id) w order p (s.lists p ∙ ap reverse e))
            ∙ sym (on-tried order)
            ∙ ran,
        stands,
      )
  next-Pulled order p (id ∷ rest) later e h = taken-Pulled order p id rest e

  -- When all these lists are empty, so is that of the normal jobs.
  abbrev Covered : List Priority → Type 0
  Covered [] = q.waiting Priority.normal ≡ []
  Covered (p ∷ order) = q.waiting p ≡ [] → Covered order

  priority_order-Covered : (i : ℕ) → Covered (priority_order i)
  unfolding priority_order
  priority_order-Covered i = pick (leb (i % 10) 5) (leb (i % 10) 8)
    where
      last :
          (c : Bool)
          → Covered (
              if c
              then Priority.normal ∷ Priority.high ∷ Priority.low ∷ []
              else Priority.low ∷ Priority.high ∷ Priority.normal ∷ [])
      last true = λ normal high low. normal
      last false = λ low high normal. normal

      pick :
          (c d : Bool)
          → Covered (
              if c
              then Priority.high ∷ Priority.normal ∷ Priority.low ∷ []
              else if d
              then Priority.normal ∷ Priority.high ∷ Priority.low ∷ []
              else Priority.low ∷ Priority.high ∷ Priority.normal ∷ [])
      pick true d = λ high normal low. normal
      pick false d = last d

  -- BLMOVE on a list that stays empty answers nil.
  wait-nothing :
      q.waiting Priority.normal ≡ []
      → run (documented uuid) (pull_from []) (calm w) ≡ (ok none, calm w)
  unfolding try_priorities execute reverse
  wait-nothing e =
      calm_step uuid (blmove (Keys.queue n) (Keys.processing worker_id)) as_text w w.redis_state nil
        (rw (s.lists Priority.normal, e) refl)

  served-Pulled : (order : List Priority) → Covered order → Pulled order (served order q.waiting)
  served-Pulled [] c = (
    calm w,
    wait-nothing c,
    record { lists = s.lists; given = s.given; counted = s.counted; unused = s.unused },
  )
  served-Pulled (p ∷ order) c =
      next-Pulled order p (q.waiting p) (served order q.waiting) refl
        (λ e. served-Pulled order (c e))

-- A submitted job has a name.
abbrev pub Proper : {Json : Type 0} → Operation Json → Type 0
Proper (submit name payload p) = is_empty name ≡ false
Proper pull = Unit

module _ (b : Backend) (rt : Runtime) (has_bus : Bool)
    (nonempty : (k : ℕ) → is_empty (b.uuid k) ≡ false)
    (distinct : (j k : ℕ) → j < k → same (b.uuid j) (b.uuid k) ≡ false) where
  -- One operation answers as the model, and the model still stands.
  abbrev Answers : Operation rt.Json → Queues → World b → Worker rt → Type 0
  Answers op q w worker =
      let ((a, w'), worker') = performed b rt has_bus op w worker in
      let (a', q') = answered b.uuid op q in
      (a ≡ a')
      × Stands b.uuid worker.queue q' (view w')
      × (worker'.queue ≡ worker.queue)
      × (worker'.pull_index ≡ q'.turn)

  submit-Answers :
      (name : Text) (payload : rt.Json) (p : Priority) (q : Queues) (w : World b)
      (worker : Worker rt)
      → is_empty name ≡ false
      → Stands b.uuid worker.queue q (view w)
      → worker.pull_index ≡ q.turn
      → Answers (submit name payload p) q w worker
  submit-Answers name payload p q w worker h s t =
      let e =
        enqueue-enqueued b rt has_bus name payload (at_priority worker.queue p) w h refl refl
          (s.unused w.drawn (omega (arith, s.counted))) in
      (
        ap (λ x. some_id x.0) e ∙ ap (λ k. ok (some (b.uuid k))) s.counted,
        subst (λ x. Stands b.uuid worker.queue (answered b.uuid (submit name payload p) q).1 x.1)
            (sym e)
            (submit-Stands b.uuid rt has_bus worker.queue name payload p q (view w) nonempty
              distinct s),
        refl,
        t,
      )

  pull-Answers :
      (q : Queues) (w : World b) (worker : Worker rt)
      → Stands b.uuid worker.queue q (view w)
      → worker.pull_index ≡ q.turn
      → Answers pull q w worker
  unfolding pull_job get_priority_order
  pull-Answers q w worker s t =
      let (v, ran, stands) =
        served-Pulled b.uuid worker.queue worker.worker_id q (view w) s (priority_order q.turn)
          (priority_order-Covered b.uuid worker.queue worker.worker_id q (view w) s q.turn) in
      let e =
        run-view b (pull_job rt worker (Keys.processing worker.worker_id)).0 (calm w)
        ∙ ap
            (λ i.
              run (documented b.uuid)
                (pull_from b.uuid worker.queue worker.worker_id q (view w) s (priority_order i))
                (calm (view w)))
            t
        ∙ ran in
      (
        ap (λ x. x.0) e,
        subst (λ x. Stands b.uuid worker.queue (answered b.uuid {Json = rt.Json} pull q).1 x.1)
            (sym e) stands,
        refl,
        ap (λ i. i + 1) t,
      )

  answers :
      (op : Operation rt.Json) (q : Queues) (w : World b) (worker : Worker rt)
      → Proper op
      → Stands b.uuid worker.queue q (view w)
      → worker.pull_index ≡ q.turn
      → Answers op q w worker
  answers (submit name payload p) q w worker h s t = submit-Answers name payload p q w worker h s t
  answers pull q w worker h s t = pull-Answers q w worker s t

  observed-fifo :
      (ops : List (Operation rt.Json)) (q : Queues) (w : World b) (worker : Worker rt)
      → All Proper ops
      → Stands b.uuid worker.queue q (view w)
      → worker.pull_index ≡ q.turn
      → observed b rt has_bus ops w worker ≡ fifo b.uuid ops q
  observed-fifo [] q w worker h s t = refl
  observed-fifo (op ∷ ops) q w worker h s t =
      let ((a, w'), worker') = performed b rt has_bus op w worker in
      let q' = (answered b.uuid op q).1 in
      let (same_answer, stands, same_queue, turn) = answers op q w worker h.0 s t in
      ap₂ (λ x xs. x ∷ xs) same_answer
        (observed-fifo ops q' w' worker' h.1
          (subst (λ k. Stands b.uuid k q' (view w')) (sym same_queue) stands) turn)

-- On queues that are empty, with nothing failing and nobody interfering, when the ids that are drawn
-- differ, are not empty and are in no row: whatever sequence of named jobs, each with a payload and a
-- priority and with the worker's queue, is enqueued, with pulls of the worker in between, every
-- enqueue and every pull answers exactly as three first-in-first-out queues do, one for each
-- priority, of which a pull takes the first that is not empty in the order of its turn. When all
-- three are empty, the pull waits on the list of normal jobs and answers that there is none.
pub queues_are_fifo :
    (b : Backend) (rt : Runtime) (has_bus : Bool) (ops : List (Operation rt.Json)) (w : World b)
    (worker : Worker rt)
    → ((k : ℕ) → is_empty (b.uuid k) ≡ false)
    → ((j k : ℕ) → j < k → same (b.uuid j) (b.uuid k) ≡ false)
    → All Proper ops
    → ((p : Priority) → (state w).lists (source_list worker.queue p) ≡ [])
    → ((k : ℕ) → w.drawn ≤ k → clashes (b.uuid k) none (rows w) ≡ false)
    → observed b rt has_bus ops w worker
      ≡ fifo b.uuid ops (record { waiting = λ p. []; turn = worker.pull_index; fresh = w.drawn })
unfolding reverse
queues_are_fifo b rt has_bus ops w worker nonempty distinct h empty unused =
    observed-fifo b rt has_bus nonempty distinct ops _ w worker h
      (record { lists = empty; given = λ p. tt; counted = refl; unused = unused }) refl
