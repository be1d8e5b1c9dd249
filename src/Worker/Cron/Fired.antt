-- ===== src/Worker/Cron/Fired.antt =====
-- What one firing of a cron entry does: worker/src/scheduler.ts.
use nexus_queue.Prelude.{ℕ, ◌+◌, ◌≡◌, refl, ap, ◌∙◌, true, false, Option, none, some, List, [], ◌∷◌}
use nexus_queue.Prelude.Tests.{◌==◌, if◌then◌else◌, or_else}
use nexus_queue.Prelude.Texts.{Text, text, update, update_self}
use nexus_queue.Prelude.Decimal.{int, to_number}
use nexus_queue.Shared.Keys.{keys}
use nexus_queue.Shared.Keys
use nexus_queue.Shared.Types.{Status, status_text}
use nexus_queue.Services.Reply.{Field, Hash, Row, done, failure}
use nexus_queue.Services.Redis.{
  Command, execute, zset_has, zset_insert, zset_remove, of_bool, sadd, hset, lpush,
}
use nexus_queue.Services.Postgres.{NewRow, query, clashes, fill, insert}
use nexus_queue.Program.{ret, throw, ◌>>=◌, ◌>>◌, as_number, request, multi}
use nexus_queue.Program.Places.{zset_has-insert}
use nexus_queue.Program.World.{World, ok, documented, run, calm, send_all}
use nexus_queue.Worker.Handlers.{Runtime}
use nexus_queue.Worker.Pulling.{truthy}
use nexus_queue.Worker.Cron.{
  job_fields, fired_row, or_throw, parsed_payload, store_fired, reschedule, fire_defined, fire_rest,
  fire_entry,
}

-- The job that a firing makes, from the definition's fields.
abbrev fired_queue : Hash → Text
fired_queue h = or_else (h Field.queue) (text "default")

abbrev fired_name : Text → Hash → Text
fired_name cron_id h = or_else (h Field.job_name) cron_id

abbrev fired_priority : Hash → Text
fired_priority h = or_else (h Field.priority) (text "normal")

abbrev pub fired_attempts : Hash → Text
fired_attempts h = or_else (h Field.max_attempts) (text "3")

abbrev pub fired_list : Hash → Text
fired_list h = Keys.target_list (fired_queue h) (fired_priority h)

module _ (rt : Runtime) (cron_id id : Text) (h : Hash) where
  abbrev commands : rt.Json → ℕ → List Command
  commands payload time =
      sadd Keys.queue_registry (fired_queue h)
      ∷ hset (Keys.job id) (
          job_fields rt id (fired_queue h) (fired_name cron_id h) (rt.stringify payload)
            (status_text Status.pending) (fired_attempts h) (fired_priority h) time)
      ∷ lpush (fired_list h) id
      ∷ []

  abbrev new_row : rt.Json → NewRow
  new_row payload =
      fired_row rt (λ e t. none) id (fired_queue h) (fired_name cron_id h) (rt.stringify payload)
        (fired_attempts h) (fired_priority h)

inserted :
    (n : NewRow) (t max : ℕ) (rs : List Row)
    → n.max_attempts ≡ int max
    → clashes n.id n.idempotency_key rs ≡ false
    → query (insert n) t rs ≡ (fill t max n ∷ rs, done)
unfolding query
inserted n t max rs em hc = rw (em, hc) refl

module _ (uuid : ℕ → Text) (rt : Runtime) (next_run : Text → ℕ → Option ℕ) (cron_id : Text)
    (w : World (documented uuid)) where
  abbrev fields : Hash
  fields = w.redis_state.hashes (Keys.cron_def cron_id)

  abbrev taken_out : World (documented uuid)
  taken_out = record (calm w) {
    redis_state = record w.redis_state {
      zsets =
          update w.redis_state.zsets Keys.cron_schedule
            (zset_remove cron_id (w.redis_state.zsets Keys.cron_schedule));
    };
  }

  abbrev rescheduled : ℕ → World (documented uuid)
  rescheduled next = record taken_out {
    redis_state = record taken_out.redis_state {
      zsets = update taken_out.redis_state.zsets Keys.cron_schedule (
          zset_insert cron_id next
            (zset_remove cron_id (taken_out.redis_state.zsets Keys.cron_schedule)));
    };
  }

  abbrev pub fired : ℕ → rt.Json → ℕ → World (documented uuid)
  fired next payload max = record (rescheduled next) {
    redis_state =
        send_all (documented uuid) (commands rt cron_id (uuid w.drawn) fields payload w.clock)
          w.clock (rescheduled next).redis_state;
    postgres_state =
        fill w.clock max (new_row rt cron_id (uuid w.drawn) fields payload) ∷ w.postgres_state;
    drawn = w.drawn + 1;
  }

  store_fired-run :
      (next max : ℕ) (payload : rt.Json)
      → to_number (fired_attempts fields) ≡ int max
      → clashes (uuid w.drawn) none w.postgres_state ≡ false
      → run (documented uuid) (store_fired rt next_run cron_id fields payload) (rescheduled next)
        ≡ (ok tt, fired next payload max)
  unfolding query
  store_fired-run next max payload em hc =
      ap
        (λ x.
          run (documented uuid)
            ((elim x.1 [ failure e ↦ throw e | _ ↦ ret (tt {0}) ])
              >> request (multi (commands rt cron_id (uuid w.drawn) fields payload w.clock)))
            (record (rescheduled next) { postgres_state = x.0; drawn = w.drawn + 1 }))
        (inserted (new_row rt cron_id (uuid w.drawn) fields payload) w.clock max w.postgres_state em
          hc)

  pub fire_entry-run :
      (next max : ℕ) (payload : rt.Json)
      → zset_has cron_id (w.redis_state.zsets Keys.cron_schedule) ≡ true
      → truthy (fields Field.cron_expression) ≡ true
      → next_run (or_else (fields Field.cron_expression) []) w.clock ≡ some next
      → parsed_payload rt next_run (fields Field.payload) ≡ some payload
      → to_number (fired_attempts fields) ≡ int max
      → clashes (uuid w.drawn) none w.postgres_state ≡ false
      → run (documented uuid) (fire_entry rt next_run cron_id) (calm w)
        ≡ (ok tt, fired next payload max)
  unfolding fire_entry execute
  fire_entry-run next max payload hz he hn hp em hc =
      ap
        (λ found.
          run (documented uuid)
            (as_number (of_bool found) >>= λ removed.
              if removed == 0 then ret tt else fire_rest rt next_run cron_id)
            taken_out)
        hz
      ∙ ap
          (λ found.
            run (documented uuid)
              (if found then fire_defined rt next_run cron_id fields else ret tt) taken_out)
          he
      ∙ ap
          (λ o.
            run (documented uuid)
              (or_throw o (text "invalid cron expression")
                >>= reschedule rt next_run cron_id fields)
              taken_out)
          hn
      ∙ ap
          (λ o.
            run (documented uuid)
              (or_throw o (text "payload JSON parse error")
                >>= store_fired rt next_run cron_id fields)
              (rescheduled next))
          hp
      ∙ store_fired-run next max payload em hc

  -- Another scheduler that still has the entry in its list of due ones.
  pub fired-list :
      (next max : ℕ) (payload : rt.Json)
      → (fired next payload max).redis_state.lists (fired_list fields)
        ≡ uuid w.drawn ∷ w.redis_state.lists (fired_list fields)
  unfolding execute
  fired-list next max payload = update_self w.redis_state.lists (fired_list fields) _

  pub fired-scheduled :
      (next max : ℕ) (payload : rt.Json)
      → zset_has cron_id ((fired next payload max).redis_state.zsets Keys.cron_schedule) ≡ true
  unfolding execute
  fired-scheduled next max payload =
      ap (zset_has cron_id) (update_self taken_out.redis_state.zsets Keys.cron_schedule _)
      ∙ zset_has-insert cron_id next
          (zset_remove cron_id (taken_out.redis_state.zsets Keys.cron_schedule))

  fired-fields :
      (next max : ℕ) (payload : rt.Json)
      → (fired next payload max).redis_state.hashes (Keys.cron_def cron_id) ≡ fields
  unfolding execute keys
  fired-fields next max payload = refl
