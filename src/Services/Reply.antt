-- ===== src/Services/Reply.antt =====
-- What a service answers.
use nexus_queue.Prelude.{ℕ, List, Option}
use nexus_queue.Prelude.Tests.{◌==◌}
use nexus_queue.Prelude.Texts.{Text}
use nexus_queue.Prelude.{Bool}
use nexus_queue.Shared.Types.{Status}

-- The field names that the program writes in its hashes.
pub data Field : Type 0 where
  id queue_name job_name payload status attempts max_attempts priority error_message : Field
  created_at started_at completed_at : Field
  queue current_jobs tokens last_refill cron_id cron_expression : Field

abbrev tag : Field → ℕ
tag id = 0
tag queue_name = 1
tag job_name = 2
tag payload = 3
tag status = 4
tag attempts = 5
tag max_attempts = 6
tag priority = 7
tag error_message = 8
tag created_at = 9
tag started_at = 10
tag completed_at = 11
tag queue = 12
tag current_jobs = 13
tag tokens = 14
tag last_refill = 15
tag cron_id = 16
tag cron_expression = 17

abbrev pub same_field : Field → Field → Bool
same_field f g = tag f == tag g

-- A hash, by field; a key that is not there has no field.
abbrev pub Hash : Type 0
Hash = Field → Option Text

-- A row of the table `jobs` of infra/postgres.
pub record Row : Type 0 where
  pub id : Text
  pub queue_name : Text
  pub job_name : Text
  pub payload : Text
  pub status : Status
  pub attempts : ℕ
  pub max_attempts : ℕ
  pub error_message : Option Text
  pub created_at : ℕ
  pub started_at : Option ℕ
  pub completed_at : Option ℕ
  pub idempotency_key : Option Text
  pub priority : Text
  pub delayed_until : Option ℕ

pub data Reply : Type 0 where
  done nil : Reply
  integer : ℕ → Reply
  bulk : Text → Reply
  texts : List Text → Reply
  hash : Hash → Reply
  row : Option Row → Reply
  rows : List Row → Reply
  counts : List (Status × ℕ) → Reply
  failure : Text → Reply
