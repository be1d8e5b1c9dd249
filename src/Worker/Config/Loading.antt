-- ===== src/Worker/Config/Loading.antt =====
-- What the configuration of a worker lets it do: worker/src/config.ts.
use nexus_queue.Prelude.{ℕ, ◌≡◌, sym, subst, ◌∙◌, refl, false, Option, some, arith}
use nexus_queue.Prelude.Texts.{Text, text, is_empty}
use nexus_queue.Prelude.Lists.{length}
use nexus_queue.Prelude.Numeric.{not_a_number, read_number, slots}
use nexus_queue.Shared.Env.{Env, require}
use nexus_queue.Program.World.{Result, ok}
use nexus_queue.Worker.Config.{WorkerConfig, load_worker_config}
use nexus_queue.Worker.Loop.{LoopState, Reach}
use nexus_queue.Worker.Loop.Bounds.{unbounded_with_nan}

loaded_concurrency :
    (pid : ℕ) (env : Env) (cfg : WorkerConfig) (t : Text)
    → load_worker_config pid env ≡ ok cfg
    → env (text "WORKER_CONCURRENCY") ≡ some t
    → cfg.concurrency ≡ read_number t
unfolding load_worker_config
loaded_concurrency pid env cfg t e h = ground arith

required :
    {A : Type 0} {o : Option Text} {t : Text} (message : Text) (rest : Text → Result A)
    → o ≡ some t
    → is_empty t ≡ false
    → require o message rest ≡ rest t
required message rest e given = rw (e, given) refl

loads :
    (pid : ℕ) (env : Env) (redis_url database_url : Text)
    → env (text "REDIS_URL") ≡ some redis_url
    → is_empty redis_url ≡ false
    → env (text "DATABASE_URL") ≡ some database_url
    → is_empty database_url ≡ false
    → (cfg : WorkerConfig) × (load_worker_config pid env ≡ ok cfg)
unfolding load_worker_config
loads pid env redis_url database_url r r_given d d_given =
    (_, required _ (λ redis_url. _) r r_given ∙ required _ (λ database_url. _) d d_given)

-- WORKER_CONCURRENCY is not checked: with both addresses given and a text that JavaScript's `Number`
-- reads as NaN the configuration is loaded, and a worker of its concurrency can run any number of
-- jobs at once.
pub bad_concurrency_unbounds :
    (pid : ℕ) (env : Env) (redis_url database_url t job_id : Text) (n : ℕ)
    → env (text "REDIS_URL") ≡ some redis_url
    → is_empty redis_url ≡ false
    → env (text "DATABASE_URL") ≡ some database_url
    → is_empty database_url ≡ false
    → env (text "WORKER_CONCURRENCY") ≡ some t
    → read_number t ≡ not_a_number
    → is_empty job_id ≡ false
    → (cfg : WorkerConfig) × (load_worker_config pid env ≡ ok cfg)
      × (s : LoopState) × Reach (slots cfg.concurrency) s
      × (length s.active_jobs ≡ n)
unfolding slots
bad_concurrency_unbounds pid env redis_url database_url t job_id n r r_given d d_given h bad
      id_given =
    let (cfg, loaded) = loads pid env redis_url database_url r r_given d d_given in
    let (s, reached, many) =
      subst (λ c. (s : LoopState) × Reach (slots c) s × (length s.active_jobs ≡ n))
        (sym (loaded_concurrency pid env cfg t loaded h ∙ bad))
        (unbounded_with_nan job_id n id_given) in
    (cfg, loaded, s, reached, many)
