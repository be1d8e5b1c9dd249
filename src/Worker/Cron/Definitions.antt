-- ===== src/Worker/Cron/Definitions.antt =====
-- Storing, reading and removing cron definitions: worker/src/cron.ts.
use nexus_queue.Prelude.{ℕ, ◌≡◌, refl, ap, ◌∙◌, Bool, true, false, Option, none, some, []}
use nexus_queue.Prelude.Tests.{or_else}
use nexus_queue.Prelude.Texts.{Text, text, is_empty, update, update_self}
use nexus_queue.Prelude.Decimal.{int, to_number-to_string, to_string-head}
use nexus_queue.Shared.Keys.{keys}
use nexus_queue.Shared.Keys
use nexus_queue.Services.Reply.{Hash, failure}
use nexus_queue.Services.Redis.{
  of_bool, no_hash, hset, zadd, execute, zset_has, zset_insert, zset_remove, put_fields,
}
use nexus_queue.Program.{ret, ◌>>=◌, ◌>>◌, command, throw}
use nexus_queue.Program.Places.{zset_has-insert}
use nexus_queue.Worker.Promotion.{zset_has-remove}
use nexus_queue.Program.Transfer.{view, run-view}
use nexus_queue.Program.World.{Backend, World, ok, documented, run, after, calm, state}
use nexus_queue.Worker.Handlers.{Runtime}
use nexus_queue.Worker.Cron.{
  CronJobDef, definition_fields, or_throw, read_fields, add_job, remove_job, read_definition,
}

module _ (rt : Runtime) (d : CronJobDef rt) (m : ℕ) where
  -- The definition with its defaults filled in.
  abbrev pub filled : CronJobDef rt
  filled = record d {
    payload = some (or_else d.payload rt.empty_object);
    queue = some (or_else d.queue (text "default"));
    max_attempts = some (int m);
    priority = some (or_else d.priority (text "normal"));
  }

module _ (uuid : ℕ → Text) (rt : Runtime) (next_run : Text → ℕ → Option ℕ) (d : CronJobDef rt)
    (m : ℕ) (w : World (documented uuid)) where
  abbrev defined : ℕ → World (documented uuid)
  defined next = record (calm w) {
    redis_state = record w.redis_state {
      hashes = update w.redis_state.hashes (Keys.cron_def d.cron_id) (
          put_fields (w.redis_state.hashes (Keys.cron_def d.cron_id))
            (definition_fields rt next_run d));
      zsets = update w.redis_state.zsets Keys.cron_schedule (
          zset_insert d.cron_id next
            (zset_remove d.cron_id (w.redis_state.zsets Keys.cron_schedule)));
    };
  }

  add_job-run :
      (next : ℕ)
      → next_run d.cron_expression w.clock ≡ some next
      → run (documented uuid) (add_job rt next_run d) (calm w) ≡ (ok tt, defined next)
  unfolding add_job execute
  add_job-run next e =
      ap
        (λ o.
          run (documented uuid)
            (or_throw o (text "invalid cron expression") >>= λ next.
              command (hset (Keys.cron_def d.cron_id) (definition_fields rt next_run d))
              >> command (zadd Keys.cron_schedule (int next) d.cron_id))
            (calm w))
        e

  read_fields-defined :
      (h : Hash)
      → or_else d.max_attempts (int 3) ≡ int m
      → is_empty d.cron_id ≡ false
      → is_empty (or_else d.queue (text "default")) ≡ false
      → is_empty (rt.stringify (or_else d.payload rt.empty_object)) ≡ false
      → read_fields rt next_run (put_fields h (definition_fields rt next_run d))
        ≡ ret (some (filled rt d m))
  read_fields-defined h em hc hq hp =
      let (c, cs, et, ch) = to_string-head m in
      rw
        (
          hc,
          hp,
          rt.parse-stringify (or_else d.payload rt.empty_object),
          hq,
          em,
          to_number-to_string m,
          et,
        )
        refl

  read_definition-run :
      (next : ℕ)
      → or_else d.max_attempts (int 3) ≡ int m
      → is_empty d.cron_id ≡ false
      → is_empty (or_else d.queue (text "default")) ≡ false
      → is_empty (rt.stringify (or_else d.payload rt.empty_object)) ≡ false
      → (run (documented uuid) (read_definition rt next_run d.cron_id) (defined next)).0
        ≡ ok (some (filled rt d m))
  unfolding read_definition execute
  read_definition-run next em hc hq hp =
      ap (λ h. (run (documented uuid) (read_fields rt next_run h) (defined next)).0)
        (update_self w.redis_state.hashes (Keys.cron_def d.cron_id) _)
      ∙ ap (λ p. (run (documented uuid) p (defined next)).0)
          (read_fields-defined (w.redis_state.hashes (Keys.cron_def d.cron_id)) em hc hq hp)

  add_job-scheduled :
      (next : ℕ) → zset_has d.cron_id ((defined next).redis_state.zsets Keys.cron_schedule) ≡ true
  add_job-scheduled next =
      ap (zset_has d.cron_id) (update_self w.redis_state.zsets Keys.cron_schedule _)
      ∙ zset_has-insert d.cron_id next
          (zset_remove d.cron_id (w.redis_state.zsets Keys.cron_schedule))

module _ (uuid : ℕ → Text) (rt : Runtime) (next_run : Text → ℕ → Option ℕ) (cron_id : Text)
    (w : World (documented uuid)) where
  abbrev removed : World (documented uuid)
  removed = record (calm w) {
    redis_state = record {
      lists = update w.redis_state.lists (Keys.cron_def cron_id) [];
      hashes = update w.redis_state.hashes (Keys.cron_def cron_id) no_hash;
      zsets = update (update w.redis_state.zsets (Keys.cron_def cron_id) []) Keys.cron_schedule (
          zset_remove cron_id
            (update w.redis_state.zsets (Keys.cron_def cron_id) [] Keys.cron_schedule));
      sets = update w.redis_state.sets (Keys.cron_def cron_id) [];
      strings = update w.redis_state.strings (Keys.cron_def cron_id) none;
      channel = w.redis_state.channel;
    };
  }

  -- A reply of ZREM is no failure.
  accepted :
      (found : Bool) (v : World (documented uuid))
      → run (documented uuid) (elim (of_bool found) [ failure e ↦ throw e | _ ↦ ret (tt {0}) ]) v
        ≡ (ok tt, v)
  accepted true v = refl
  accepted false v = refl

  remove_job-run :
      run (documented uuid) (remove_job rt next_run cron_id) (calm w) ≡ (ok tt, removed)
  unfolding remove_job execute
  remove_job-run =
      accepted
        (zset_has cron_id
          (update w.redis_state.zsets (Keys.cron_def cron_id) [] Keys.cron_schedule))
        removed

  remove_job-read :
      (run (documented uuid) (read_definition rt next_run cron_id) (calm removed)).0 ≡ ok none
  unfolding read_definition execute
  remove_job-read =
      ap (λ h. (run (documented uuid) (read_fields rt next_run h) (calm removed)).0)
        (update_self w.redis_state.hashes (Keys.cron_def cron_id) no_hash)

  remove_job-scheduled : zset_has cron_id (removed.redis_state.zsets Keys.cron_schedule) ≡ false
  remove_job-scheduled =
      ap (zset_has cron_id)
        (update_self (update w.redis_state.zsets (Keys.cron_def cron_id) []) Keys.cron_schedule _)
      ∙ zset_has-remove cron_id
          (update w.redis_state.zsets (Keys.cron_def cron_id) [] Keys.cron_schedule)

-- With nothing failing and nobody interfering, for an expression that has a next time: after
-- addJob, which succeeds, reading the id as listJobs does gives the definition with its defaults
-- filled in, and the schedule has the id; after a removeJob then, reading gives nothing, and the
-- schedule does not have the id. The id, the queue and the text of the payload are not empty, and
-- maxAttempts is a number.
pub definition_kept :
    (b : Backend) (rt : Runtime) (next_run : Text → ℕ → Option ℕ) (d : CronJobDef rt) (m next : ℕ)
    (w : World b)
    → next_run d.cron_expression w.clock ≡ some next
    → or_else d.max_attempts (int 3) ≡ int m
    → is_empty d.cron_id ≡ false
    → is_empty (or_else d.queue (text "default")) ≡ false
    → is_empty (rt.stringify (or_else d.payload rt.empty_object)) ≡ false
    → let added = run b (add_job rt next_run d) (calm w) in
      let gone = after b (remove_job rt next_run d.cron_id) (calm added.1) in
      (added.0 ≡ ok tt)
      × ((run b (read_definition rt next_run d.cron_id) (calm added.1)).0
          ≡ ok (some (filled rt d m)))
      × (zset_has d.cron_id ((state added.1).zsets Keys.cron_schedule) ≡ true)
      × ((run b (read_definition rt next_run d.cron_id) (calm gone)).0 ≡ ok none)
      × (zset_has d.cron_id ((state gone).zsets Keys.cron_schedule) ≡ false)
definition_kept b rt next_run d m next w en em hc hq hp =
    let reading = read_definition rt next_run d.cron_id in
    let added = run b (add_job rt next_run d) (calm w) in
    let gone = after b (remove_job rt next_run d.cron_id) (calm added.1) in
    let ran =
      run-view b (add_job rt next_run d) (calm w)
      ∙ add_job-run b.uuid rt next_run d m (view w) next en in
    let left =
      run-view b (remove_job rt next_run d.cron_id) (calm added.1)
      ∙ remove_job-run b.uuid rt next_run d.cron_id (view added.1) in
    (
      ap (λ x. x.0) ran,
      ap (λ x. x.0) (run-view b reading (calm added.1))
          ∙ ap (λ x. (run (documented b.uuid) reading (calm x.1)).0) ran
          ∙ read_definition-run b.uuid rt next_run d m (view w) next em hc hq hp,
      ap (λ x. zset_has d.cron_id (x.1.redis_state.zsets Keys.cron_schedule)) ran
          ∙ add_job-scheduled b.uuid rt next_run d m (view w) next,
      ap (λ x. x.0) (run-view b reading (calm gone))
          ∙ ap (λ x. (run (documented b.uuid) reading (calm x.1)).0) left
          ∙ remove_job-read b.uuid rt next_run d.cron_id (view added.1),
      ap (λ x. zset_has d.cron_id (x.1.redis_state.zsets Keys.cron_schedule)) left
          ∙ remove_job-scheduled b.uuid rt next_run d.cron_id (view added.1),
    )
