-- ===== src/Server/Inspect/Limits.antt =====
-- How much of a dead-letter queue one answer shows: server/src/routes.ts.
use nexus_queue.Prelude.{
  ℕ, zero, suc, ◌-◌, ◌≤◌, ◌≡◌, refl, ap, ◌∙◌, Option, none, some, List, [], ◌∷◌, arith,
}
use nexus_queue.Prelude.Texts.{Text, text}
use nexus_queue.Prelude.Decimal.{to_number}
use nexus_queue.Prelude.Int.{◌+ℤ◌, to_int}
use nexus_queue.Prelude.Lists.{length, take}
use nexus_queue.Shared.Keys
use nexus_queue.Services.Reply.{Field}
use nexus_queue.Services.Redis.{execute}
use nexus_queue.Program.{ret, ◌>>=◌, map_each}
use nexus_queue.Program.Triple.{run-bind, continue}
use nexus_queue.Program.Transfer.{view, run-view}
use nexus_queue.Program.World.{Backend, World, ok, documented, run, calm, state}
use nexus_queue.Worker.Handlers.{Runtime}
use nexus_queue.Server.Inspect.{DlqJob, dlq_job, parse_payload, show_dlq_job, list_dlq}

length-take_fit {ℓ} : {A : Type ℓ} (n : ℕ) (xs : List A) → n ≤ length xs → length (take n xs) ≡ n
length-take_fit zero xs h = refl
length-take_fit (suc n) [] h = absurd (omega arith)
length-take_fit (suc n) (x ∷ xs) h = ap suc (length-take_fit n xs (omega arith))

module _ (uuid : ℕ → Text) (rt : Runtime) (name : Text) (w : World (documented uuid)) where
  -- The payload that the hash of a job holds can be read.
  abbrev pub Readable : Text → Type 0
  Readable id =
      (p : Option rt.Json) × (parse_payload rt (w.redis_state.hashes (Keys.job id) Field.payload)
        ≡ ret p)

  shown :
      (id : Text)
      → Readable id
      → (j : DlqJob rt) × (run (documented uuid) (show_dlq_job rt name id) (calm w)
          ≡ (ok j, calm w))
  unfolding show_dlq_job execute
  shown id (p, e) = (
    _,
    ap
        (λ m.
          run (documented uuid)
            (m >>= λ v. ret (dlq_job rt name id (w.redis_state.hashes (Keys.job id)) v)) (calm w))
        e,
  )

  all_shown :
      (ids : List Text)
      → ((id : Text) → Readable id)
      → (js : List (DlqJob rt)) × (run
            (documented uuid)
            (map_each (show_dlq_job rt name) ids)
            (calm w)
          ≡ (ok js, calm w))
        × (length js ≡ length ids)
  all_shown [] h = ([], refl, refl)
  all_shown (id ∷ ids) h =
      let (j, e) = shown id (h id) in
      let (js, es, len) = all_shown ids h in
      (
        j ∷ js,
        run-bind uuid (uuid 0) (show_dlq_job rt name id)
              (λ y. map_each (show_dlq_job rt name) ids >>= λ ys. ret (y ∷ ys)) (calm w)
            ∙ ap
                (continue uuid (uuid 0)
                  (λ y. map_each (show_dlq_job rt name) ids >>= λ ys. ret (y ∷ ys)))
                e
            ∙ run-bind uuid (uuid 0) (map_each (show_dlq_job rt name) ids) (λ ys. ret (j ∷ ys))
                (calm w)
            ∙ ap (continue uuid (uuid 0) (λ ys. ret (j ∷ ys))) es,
        ap suc len,
      )

  abbrev dead : List Text
  dead = w.redis_state.lists (Keys.dlq name)

  list_dlq-run :
      run (documented uuid) (list_dlq rt name (some (text "-1")) none) (calm w)
      ≡ run
          (documented uuid)
          (map_each (show_dlq_job rt name) (take (length dead - 1 - 0) dead) >>= λ js.
            ret (js, length dead))
          (calm w)
  unfolding list_dlq execute to_int to_number ◌+ℤ◌
  list_dlq-run = refl

-- The limit of an answer on a dead-letter queue is not a bound: for the limit -1, when nothing
-- fails and every payload can be read, the answer has all the jobs but one, however many they are.
pub negative_limit_escapes :
    (b : Backend) (rt : Runtime) (name : Text) (w : World b)
    → ((id : Text) → Readable b.uuid rt name (view w) id)
    → (js : List (DlqJob rt)) × ((run b (list_dlq rt name (some (text "-1")) none) (calm w)).0
        ≡ ok (js, length ((state w).lists (Keys.dlq name))))
      × (length js ≡ length ((state w).lists (Keys.dlq name)) - 1)
negative_limit_escapes b rt name w h =
    let ids = (state w).lists (Keys.dlq name) in
    let shown_ids = take (length ids - 1 - 0) ids in
    let (js, e, len) = all_shown b.uuid rt name (view w) shown_ids h in
    (
      js,
      ap (λ x. x.0)
          (run-view b (list_dlq rt name (some (text "-1")) none) (calm w)
            ∙ list_dlq-run b.uuid rt name (view w)
            ∙ run-bind b.uuid (b.uuid 0) (map_each (show_dlq_job rt name) shown_ids)
                (λ js. ret (js, length ids)) (calm (view w))
            ∙ ap (continue b.uuid (b.uuid 0) (λ js. ret (js, length ids))) e),
      len ∙ length-take_fit (length ids - 1 - 0) ids (omega arith) ∙ omega arith,
    )
