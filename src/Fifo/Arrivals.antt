-- ===== src/Fifo/Arrivals.antt =====
-- What an enqueue is to the abstract queues.
use nexus_queue.Prelude.{
  ℕ, ◌+◌, ◌≤◌, ◌<◌, ◌≡◌, refl, sym, ap, ap₂, ◌∙◌, Bool, true, false, none, List, [], ◌∷◌, ◌++◌,
  arith,
}
use nexus_queue.Prelude.Tests.{if◌then◌else◌}
use nexus_queue.Prelude.Texts.{Text, same, update}
use nexus_queue.Prelude.Lists.{All}
use nexus_queue.Shared.Types.{Priority}
use nexus_queue.Services.Redis.{execute}
use nexus_queue.Services.Postgres.{clashes}
use nexus_queue.Program.World.{World, documented}
use nexus_queue.Worker.Handlers.{Runtime}
use nexus_queue.Worker.Pull.{same_priority}
use nexus_queue.Worker.Pulling.{source_list}
use nexus_queue.Server.Producer.Created.{stored, enqueued}
use nexus_queue.Server.Producer.Stores.{bookkeeping}
use nexus_queue.Fifo.{submit, Queues, put, answered, at_priority}
use nexus_queue.Fifo.Apart.{
  same-source_list, target-source_list, reverse, reverse-snoc, Given, Given-snoc,
}

module _ (uuid : ℕ → Text) (n : Text) where
  -- The queues of the model as they stand in the services.
  pub record Stands (q : Queues) (w : World (documented uuid)) : Type 0 where
    pub lists : (p : Priority) → w.redis_state.lists (source_list n p) ≡ reverse (q.waiting p)
    pub given : (p : Priority) → All Given (q.waiting p)
    pub counted : w.drawn ≡ q.fresh
    pub unused : (k : ℕ) → q.fresh ≤ k → clashes (uuid k) none w.postgres_state ≡ false

  pub reverse-put :
      (waiting : Priority → List Text) (p r : Priority) (ids : List Text) (f : Text → List Text)
      → f (source_list n r) ≡ reverse (waiting r)
      → update f (source_list n p) (reverse ids) (source_list n r) ≡ reverse (put waiting p ids r)
  reverse-put waiting p r ids f e = rw (same-source_list n p r) (ground arith)

  pub given-put :
      (waiting : Priority → List Text) (p r : Priority) (ids : List Text)
      → All Given (waiting r)
      → All Given ids
      → All Given (put waiting p ids r)
  given-put waiting p r ids h g = pick (same_priority p r)
    where
      pick : (c : Bool) → All Given (if c then ids else waiting r)
      pick true = g
      pick false = h

module _ (uuid : ℕ → Text) (rt : Runtime) (has_bus : Bool) (n job_name : Text) (payload : rt.Json)
    (p : Priority) (q : Queues) (w : World (documented uuid)) where
  -- A submitted job in the services.
  abbrev pub submitted : World (documented uuid)
  submitted = enqueued uuid rt has_bus job_name payload (at_priority n p) w

  -- The same in the model.
  abbrev pushed : Queues
  pushed = (answered uuid (submit job_name payload p) q).1

  submitted-list :
      (r : Priority)
      → submitted.redis_state.lists (source_list n r)
        ≡ update w.redis_state.lists
            (source_list n p)
            (uuid w.drawn ∷ w.redis_state.lists (source_list n p))
            (source_list n r)
  unfolding execute
  submitted-list r =
      ap (λ f. f (source_list n r))
        (bookkeeping uuid rt has_bus job_name payload (at_priority n p) w has_bus none
          (stored uuid rt has_bus job_name payload (at_priority n p) w)).0
      ∙ ap
          (λ k.
            update w.redis_state.lists k (uuid w.drawn ∷ w.redis_state.lists k) (source_list n r))
          (target-source_list n p)

  pub submit-Stands :
      (nonempty : (k : ℕ) → Given (uuid k))
      → ((j k : ℕ) → j < k → same (uuid j) (uuid k) ≡ false)
      → Stands uuid n q w
      → Stands uuid n pushed submitted
  unfolding execute
  submit-Stands nonempty distinct s =
      let (same_lists, same_hashes, same_zsets, table, drawn, clock) =
        bookkeeping uuid rt has_bus job_name payload (at_priority n p) w has_bus none
          (stored uuid rt has_bus job_name payload (at_priority n p) w) in
      record {
        lists = λ r.
            submitted-list r
            ∙ ap (λ ids. update w.redis_state.lists (source_list n p) ids (source_list n r))
                (ap₂ (λ id ids. id ∷ ids) (ap uuid s.counted) (s.lists p)
                  ∙ sym (reverse-snoc (q.waiting p) (uuid q.fresh)))
            ∙ reverse-put uuid n q.waiting p r (q.waiting p ++ uuid q.fresh ∷ [])
                w.redis_state.lists (s.lists r);
        given = λ r.
            given-put uuid n q.waiting p r _ (s.given r)
              (Given-snoc (q.waiting p) (uuid q.fresh) (s.given p) (nonempty q.fresh));
        counted = drawn ∙ ap (λ k. k + 1) s.counted;
        unused = λ k le.
            ap (clashes (uuid k) none) table
            ∙ rw (s.counted, distinct q.fresh k (omega (arith, le)), s.unused k (omega (arith, le)))
                refl;
      }
