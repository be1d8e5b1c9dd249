-- ===== src/Worker/Pull.antt =====
-- Which job a pull takes: worker/src/worker.ts.
use nexus_queue.Prelude.{
  ℕ, zero, suc, ◌+◌, ◌<◌, ◌%◌, ◌≡◌, refl, ◌∙◌, Bool, true, false, ◌&&◌, Option, some, List, [], ◌∷◌,
  ◌++◌, arith,
}
use nexus_queue.Prelude.Tests.{◌==◌, if◌then◌else◌}
use nexus_queue.Prelude.Texts.{Text, is_empty, update}
use nexus_queue.Prelude.Lists.{All, split_last-append}
use nexus_queue.Shared.Types.{Priority}
use nexus_queue.Services.Reply.{Reply, nil, bulk}
use nexus_queue.Program.{Prog, ret, ◌>>=◌, as_text}
use nexus_queue.Services.Redis.{execute, rpoplpush}
use nexus_queue.Program.Steps.{calm_step}
use nexus_queue.Program.World.{World, ok, documented, run, calm}
use nexus_queue.Worker.Pulling.{truthy, source_list, try_priorities, priority_order}

module _ (uuid : ℕ → Text) (queue_name target : Text) (w : World (documented uuid)) where
  abbrev waiting : Priority → List Text
  waiting p = w.redis_state.lists (source_list queue_name p)

  -- When one id is moved from the end of a list to the head of another.
  abbrev pub moved : Text → Text → List Text → World (documented uuid)
  moved source id rest = record w {
    redis_state = record w.redis_state {
      lists =
          let taken = update w.redis_state.lists source rest in
          update taken target (id ∷ taken target);
    };
    plan = [];
  }

  move-empty :
      (source : Text)
      → w.redis_state.lists source ≡ []
      → execute (rpoplpush source target) w.clock w.redis_state ≡ (w.redis_state, nil)
  unfolding execute
  move-empty source e = rw e

  move-last :
      (source id : Text) (rest : List Text)
      → w.redis_state.lists source ≡ rest ++ id ∷ []
      → execute (rpoplpush source target) w.clock w.redis_state
        ≡ ((moved source id rest).redis_state, bulk id)
  unfolding execute
  move-last source id rest e = rw (e, split_last-append rest id)

  -- What the loop does with a reply.
  abbrev onward : List Priority → Reply → Prog (Option Text)
  onward later r = as_text r >>= λ job_id. elim (truthy job_id) [
    | true ↦ ret job_id
    | false ↦ try_priorities queue_name target later
  ]

  found :
      (later : List Priority) (id : Text) (w' : World (documented uuid))
      → is_empty id ≡ false
      → run (documented uuid) (onward later (bulk id)) w' ≡ (ok (some id), w')
  found later [] w' ne = absurd (cc)
  found later (c ∷ cs) w' ne = refl

  pub skips_empty :
      (order : List Priority) (q : Priority)
      → waiting q ≡ []
      → run (documented uuid) (try_priorities queue_name target (q ∷ order)) (calm w)
        ≡ run (documented uuid) (try_priorities queue_name target order) (calm w)
  unfolding try_priorities
  skips_empty order q e =
      calm_step uuid _ (onward order) w _ _ (move-empty (source_list queue_name q) e)

  pub takes_oldest :
      (before later : List Priority) (p : Priority) (rest : List Text) (id : Text)
      → All (λ q. waiting q ≡ []) before
      → waiting p ≡ rest ++ id ∷ []
      → is_empty id ≡ false
      → run (documented uuid) (try_priorities queue_name target (before ++ p ∷ later)) (calm w)
        ≡ (ok (some id), moved (source_list queue_name p) id rest)
  unfolding try_priorities
  takes_oldest [] later p rest id empty e ne =
      calm_step uuid _ (onward later) w _ _ (move-last (source_list queue_name p) id rest e)
      ∙ found later id _ ne
  takes_oldest (q ∷ before) later p rest id empty e ne =
      skips_empty (before ++ p ∷ later) q empty.0 ∙ takes_oldest before later p rest id empty.1 e ne

-- The first queue that a pull tries.
abbrev first : List Priority → Priority
first [] = Priority.normal
first (p ∷ ps) = p

abbrev pub same_priority : Priority → Priority → Bool
same_priority Priority.high Priority.high = true
same_priority Priority.normal Priority.normal = true
same_priority Priority.low Priority.low = true
same_priority _ _ = false

-- How many of the `n` pulls from index `i` on try the queue of `p` first.
pub tried_first : Priority → ℕ → ℕ → ℕ
tried_first p i zero = 0
tried_first p i (suc n) =
    let more = tried_first p (i + 1) n in
    if same_priority (first (priority_order i)) p then suc more else more

priority_order-mod : (i j : ℕ) → i % 10 ≡ j % 10 → priority_order i ≡ priority_order j
unfolding priority_order
priority_order-mod i j e = rw e

tried_first-mod :
    (p : Priority) (n i j : ℕ) → i % 10 ≡ j % 10 → tried_first p i n ≡ tried_first p j n
unfolding tried_first
tried_first-mod p zero i j e = refl
tried_first-mod p (suc n) i j e =
    rw (priority_order-mod i j e, tried_first-mod p n (i + 1) (j + 1) (omega arith))

abbrev fair_from : ℕ → Bool
fair_from i =
    (tried_first Priority.high i 10 == 6)
    && ((tried_first Priority.normal i 10 == 3) && (tried_first Priority.low i 10 == 1))

residue-fair : (r : ℕ) → r < 10 → fair_from r ≡ true
unfolding tried_first priority_order
residue-fair zero h = refl
residue-fair (suc zero) h = refl
residue-fair (suc (suc zero)) h = refl
residue-fair (suc (suc (suc zero))) h = refl
residue-fair (suc (suc (suc (suc zero)))) h = refl
residue-fair (suc (suc (suc (suc (suc zero))))) h = refl
residue-fair (suc (suc (suc (suc (suc (suc zero)))))) h = refl
residue-fair (suc (suc (suc (suc (suc (suc (suc zero))))))) h = refl
residue-fair (suc (suc (suc (suc (suc (suc (suc (suc zero)))))))) h = refl
residue-fair (suc (suc (suc (suc (suc (suc (suc (suc (suc zero))))))))) h = refl
residue-fair (suc (suc (suc (suc (suc (suc (suc (suc (suc (suc r)))))))))) h = absurd (omega arith)

-- Of any ten pulls in a row, from any index on, six try the high queue first, three the normal
-- one and one the low one.
pub pull_fairness :
    (i : ℕ)
    → (tried_first Priority.high i 10 ≡ 6)
      × (tried_first Priority.normal i 10 ≡ 3)
      × (tried_first Priority.low i 10 ≡ 1)
pull_fairness i = ground (
  arith,
  residue-fair (i % 10) (omega arith),
  tried_first-mod Priority.high 10 i (i % 10) (omega arith),
  tried_first-mod Priority.normal 10 i (i % 10) (omega arith),
  tried_first-mod Priority.low 10 i (i % 10) (omega arith),
)
