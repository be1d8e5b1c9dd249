-- ===== src/Worker/Cron/Firing.antt =====
-- The firing of cron jobs: `fireCronJobs` of worker/src/scheduler.ts.
use nexus_queue.Prelude.{ℕ, map, ◌+◌, ◌≡◌, refl, ap, ◌∙◌, true, false, Option, none, some, [], ◌∷◌}
use nexus_queue.Prelude.Tests.{or_else}
use nexus_queue.Prelude.Texts.{Text, same}
use nexus_queue.Prelude.Decimal.{int, to_number}
use nexus_queue.Shared.Keys.{keys}
use nexus_queue.Shared.Keys
use nexus_queue.Shared.Types.{Status}
use nexus_queue.Services.Reply.{Field, Hash, Row}
use nexus_queue.Services.Redis.{execute, zset_has}
use nexus_queue.Services.Postgres.{clashes}
use nexus_queue.Program.{Prog}
use nexus_queue.Program.Transfer.{view, run-view}
use nexus_queue.Program.World.{Backend, World, ok, documented, run, calm, state, rows}
use nexus_queue.Worker.Handlers.{Runtime}
use nexus_queue.Worker.Pulling.{truthy}
use nexus_queue.Worker.Cron.{parsed_payload, fire_entry}
use nexus_queue.Worker.Cron.Fired.{
  fired_attempts, fired_list, fired, fire_entry-run, fired-list, fired-scheduled,
}

module _ (uuid : ℕ → Text) (rt : Runtime) (next_run : Text → ℕ → Option ℕ) (cron_id : Text)
    (w : World (documented uuid)) where
  abbrev firing : Prog (Unit {0})
  firing = fire_entry rt next_run cron_id

  abbrev definition : Hash
  definition = w.redis_state.hashes (Keys.cron_def cron_id)

  abbrev once : ℕ → rt.Json → ℕ → World (documented uuid)
  once next payload max = fired uuid rt next_run cron_id w next payload max

  abbrev twice : ℕ → rt.Json → ℕ → World (documented uuid)
  twice next payload max = fired uuid rt next_run cron_id (once next payload max) next payload max

  fire_again-run :
      (next max : ℕ) (payload : rt.Json)
      → truthy (definition Field.cron_expression) ≡ true
      → next_run (or_else (definition Field.cron_expression) []) w.clock ≡ some next
      → parsed_payload rt next_run (definition Field.payload) ≡ some payload
      → to_number (fired_attempts definition) ≡ int max
      → clashes (uuid (w.drawn + 1)) none (rows (once next payload max)) ≡ false
      → run (documented uuid) firing (once next payload max) ≡ (ok tt, twice next payload max)
  unfolding execute keys
  fire_again-run next max payload he hn hp em hc =
      fire_entry-run uuid rt next_run cron_id (once next payload max) next max payload
        (fired-scheduled uuid rt next_run cron_id w next max payload) he hn hp em hc

  twice-list :
      (next max : ℕ) (payload : rt.Json)
      → (twice next payload max).redis_state.lists (fired_list definition)
        ≡ uuid (w.drawn + 1) ∷ uuid w.drawn ∷ w.redis_state.lists (fired_list definition)
  unfolding execute keys
  twice-list next max payload =
      fired-list uuid rt next_run cron_id (once next payload max) next max payload
      ∙ ap (λ ids. uuid (w.drawn + 1) ∷ ids)
          (fired-list uuid rt next_run cron_id w next max payload)

abbrev pub summary : Row → Text × Status
summary r = (r.id, r.status)

-- With nothing failing and nobody interfering, for an entry that is in the schedule, whose
-- definition has an expression with a next time, a payload that parses and a numeric maxAttempts:
-- a firing succeeds, puts exactly one new id at the head of the list of the definition's queue and
-- priority, inserts one row, which is pending and has that id, and the entry is in the schedule.
-- A second scheduler that read the same due entries then fires it at the same moment again, for
-- another id, since the guard finds the entry that the first one has put back.
pub cron_may_fire_twice :
    (b : Backend) (rt : Runtime) (next_run : Text → ℕ → Option ℕ) (cron_id : Text) (next max : ℕ)
    (payload : rt.Json) (w : World b)
    → let h = (state w).hashes (Keys.cron_def cron_id) in
      zset_has cron_id ((state w).zsets Keys.cron_schedule) ≡ true
      → truthy (h Field.cron_expression) ≡ true
      → next_run (or_else (h Field.cron_expression) []) w.clock ≡ some next
      → parsed_payload rt next_run (h Field.payload) ≡ some payload
      → to_number (fired_attempts h) ≡ int max
      → clashes (b.uuid w.drawn) none (rows w) ≡ false
      → clashes (b.uuid (w.drawn + 1)) none (rows w) ≡ false
      → same (b.uuid w.drawn) (b.uuid (w.drawn + 1)) ≡ false
      → let first = run b (fire_entry rt next_run cron_id) (calm w) in
        let second = run b (fire_entry rt next_run cron_id) (calm first.1) in
        (first.0 ≡ ok tt)
        × ((state first.1).lists (fired_list h) ≡ b.uuid w.drawn ∷ (state w).lists (fired_list h))
        × (zset_has cron_id ((state first.1).zsets Keys.cron_schedule) ≡ true)
        × (map summary (rows first.1) ≡ (b.uuid w.drawn, Status.pending) ∷ map summary (rows w))
        × (second.0 ≡ ok tt)
        × ((state second.1).lists (fired_list h)
            ≡ b.uuid (w.drawn + 1) ∷ b.uuid w.drawn ∷ (state w).lists (fired_list h))
cron_may_fire_twice b rt next_run cron_id next max payload w hz he hn hp em hc hd ne =
    let v = view w in
    let one =
      run-view b (fire_entry rt next_run cron_id) (calm w)
      ∙ fire_entry-run b.uuid rt next_run cron_id v next max payload hz he hn hp em hc in
    let first = run b (fire_entry rt next_run cron_id) (calm w) in
    let two =
      run-view b (fire_entry rt next_run cron_id) (calm first.1)
      ∙ ap (λ x. run (documented b.uuid) (fire_entry rt next_run cron_id) (calm x.1)) one
      ∙ fire_again-run b.uuid rt next_run cron_id v next max payload he hn hp em
          (rw (ne, hd) refl) in
    let h = v.redis_state.hashes (Keys.cron_def cron_id) in
    (
      ap (λ x. x.0) one,
      ap (λ x. x.1.redis_state.lists (fired_list h)) one
          ∙ fired-list b.uuid rt next_run cron_id v next max payload,
      ap (λ x. zset_has cron_id (x.1.redis_state.zsets Keys.cron_schedule)) one
          ∙ fired-scheduled b.uuid rt next_run cron_id v next max payload,
      ap (λ x. map summary x.1.postgres_state) one,
      ap (λ x. x.0) two,
      ap (λ x. x.1.redis_state.lists (fired_list h)) two
          ∙ twice-list b.uuid rt next_run cron_id v next max payload,
    )
