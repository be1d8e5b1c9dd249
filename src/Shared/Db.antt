-- ===== src/Shared/Db.antt =====
-- shared/src/db.ts: the statements of the job table's access functions.
use nexus_queue.Prelude.{ℕ, Option, none, some, [], ◌∷◌}
use nexus_queue.Prelude.Tests.{or_else}
use nexus_queue.Prelude.Texts.{Text, text}
use nexus_queue.Prelude.Decimal.{Number}
use nexus_queue.Shared.Types.{Status}
use nexus_queue.Services.Reply.{Row, failure}
use nexus_queue.Services.Postgres.{
  insert, insert_null_payload, update_row, select, status_is, started_at_now, started_at_null,
  completed_at_now, completed_at_null, attempts_plus_one, error_message_null, error_message_is,
}
use nexus_queue.Program.{Prog, throw, unexpected, sql, call, request, as_row}

-- `payload` is already the text that JSON.stringify gives.
pub record PendingJob : Type 0 where
  pub id : Text
  pub queue_name : Text
  pub job_name : Text
  pub payload : Text
  pub max_attempts : Number
  pub idempotency_key : Option Text

pub record DelayedJob : Type 0 where
  pub id : Text
  pub queue_name : Text
  pub job_name : Text
  pub payload : Text
  pub max_attempts : Number
  pub delayed_until : ℕ
  pub priority : Option Text

unfoldable pub insert_pending_job : PendingJob → Prog (Unit {0})
insert_pending_job j = request (
    sql (
      insert (record {
        id = j.id;
        queue_name = j.queue_name;
        job_name = j.job_name;
        payload = j.payload;
        status = Status.pending;
        max_attempts = j.max_attempts;
        idempotency_key = j.idempotency_key;
        priority = none;
        delayed_until = none;
      })))

-- `insertPendingJob` and `insertDelayedJob` on a payload that is undefined. JSON.stringify gives
-- undefined for it, which pg sends as NULL; the column is NOT NULL, so no row is ever inserted.
abbrev pub insert_without_payload : {A : Type 0} → Prog A
insert_without_payload =
    call (sql insert_null_payload) (λ r. elim r [ failure e ↦ throw e | _ ↦ unexpected ])

unfoldable pub mark_job_active : Text → Prog (Unit {0})
mark_job_active id =
    request
      (sql (update_row id (status_is Status.active ∷ started_at_now ∷ attempts_plus_one ∷ [])))

unfoldable pub mark_job_completed : Text → Prog (Unit {0})
mark_job_completed id =
    request (
      sql (update_row id (status_is Status.completed ∷ completed_at_now ∷ error_message_null ∷ [])))

unfoldable pub mark_job_failed : Text → Text → Prog (Unit {0})
mark_job_failed id message = request (
    sql
      (update_row id (status_is Status.failed ∷ completed_at_now ∷ error_message_is message ∷ [])))

unfoldable pub mark_job_dlq : Text → Text → Prog (Unit {0})
mark_job_dlq id message =
    request (
      sql (update_row id (status_is Status.dlq ∷ completed_at_now ∷ error_message_is message ∷ [])))

unfoldable pub mark_job_pending_for_retry : Text → Prog (Unit {0})
mark_job_pending_for_retry id =
    request
      (sql (update_row id (status_is Status.pending ∷ started_at_null ∷ completed_at_null ∷ [])))

unfoldable pub get_job : Text → Prog (Option Row)
get_job id = call (sql (select id)) as_row

unfoldable pub insert_delayed_job : DelayedJob → Prog (Unit {0})
insert_delayed_job j = request (
    sql (
      insert (record {
        id = j.id;
        queue_name = j.queue_name;
        job_name = j.job_name;
        payload = j.payload;
        status = Status.delayed;
        max_attempts = j.max_attempts;
        idempotency_key = none;
        priority = some (or_else j.priority (text "normal"));
        delayed_until = some j.delayed_until;
      })))

unfoldable pub mark_job_delayed : Text → Prog (Unit {0})
mark_job_delayed id =
    request
      (sql (update_row id (status_is Status.delayed ∷ started_at_null ∷ completed_at_null ∷ [])))

-- Opens every access function.
unfoldable pub db : Unit {0}
unfolding insert_pending_job mark_job_active mark_job_completed mark_job_failed mark_job_dlq
    mark_job_pending_for_retry get_job insert_delayed_job mark_job_delayed
db = tt
