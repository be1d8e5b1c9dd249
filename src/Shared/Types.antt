-- ===== src/Shared/Types.antt =====
-- shared/src/types.ts.
use nexus_queue.Prelude.{ℕ, Option}
use nexus_queue.Prelude.Texts.{Text, text}

pub data Status : Type 0 where
  pending active completed failed delayed dlq : Status

abbrev pub status_text : Status → Text
status_text Status.pending = text "pending"
status_text Status.active = text "active"
status_text Status.completed = text "completed"
status_text Status.failed = text "failed"
status_text Status.delayed = text "delayed"
status_text Status.dlq = text "dlq"

pub data Priority : Type 0 where
  high normal low : Priority

abbrev pub priority_text : Priority → Text
priority_text Priority.high = text "high"
priority_text Priority.normal = text "normal"
priority_text Priority.low = text "low"

pub record RateLimitConfig : Type 0 where
  pub max_tokens : ℕ
  pub refill_rate : ℕ

-- Every option may be left out.
pub record EnqueueOptions : Type 0 where
  pub queue : Option Text
  pub max_attempts : Option ℕ
  pub idempotency_key : Option Text
  pub delay : Option ℕ
  pub priority : Option Priority
