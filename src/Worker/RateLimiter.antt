-- ===== src/Worker/RateLimiter.antt =====
-- worker/src/rate-limiter.ts. Tokens are counted in thousandths, in which the refill of whole
-- milliseconds is exact when `refillRate` is a whole number.
use nexus_queue.Prelude.{ℕ, ◌+◌, ◌-◌, ◌*◌, ◌/◌, Bool, true, false, Option, none, some, [], ◌∷◌}
use nexus_queue.Prelude.Tests.{◌==◌, if◌then◌else◌}
use nexus_queue.Prelude.Texts.{Text, text}
use nexus_queue.Prelude.Decimal.{Number, int, to_string, to_number}
use nexus_queue.Prelude.Int.{ℤ, pos, pos_part, neg_part, sub_ℕ, ◌+ℤ◌, leb_ℤ, int_to_string, to_int}
use nexus_queue.Shared.Types.{RateLimitConfig}
use nexus_queue.Shared.Keys
use nexus_queue.Services.Reply.{Field, Hash}
use nexus_queue.Services.Redis.{hset}
use nexus_queue.Program.{Prog, ret, ◌>>=◌, ◌>>◌, command, hgetall, now}

-- `unbounded` is Infinity or NaN, which a timer takes for one millisecond.
pub data Delay : Type 0 where
  ms : ℕ → Delay
  unbounded : Delay

pub record LimitResult : Type 0 where
  pub allowed : Bool
  pub retry_after : Delay

-- The bucket, in thousandths of a token; `none` is NaN.
pub record Bucket : Type 0 where
  pub tokens : Option ℤ
  pub last_refill : Number

abbrev both : RateLimitConfig → ℕ → Option Text → Option Text → Bucket
both config time (some t) (some l) = record { tokens = to_int t; last_refill = to_number l }
both config time _ _ = record {
  tokens = some (pos (config.max_tokens * 1000));
  last_refill = int time;
}

unfoldable pub bucket : RateLimitConfig → ℕ → Hash → Bucket
bucket config time h = both config time (h Field.tokens) (h Field.last_refill)

abbrev min_ℤ : ℤ → ℤ → ℤ
min_ℤ a b = if leb_ℤ a b then a else b

abbrev refill : RateLimitConfig → ℕ → Option ℤ → Number → Option ℤ
refill config time (some t) (int last) = some (
    min_ℤ (pos (config.max_tokens * 1000))
      (t +ℤ sub_ℕ (time * config.refill_rate) (last * config.refill_rate)))
refill config time _ _ = none

-- `Math.min(maxTokens, tokens + elapsed * refillRate)`
unfoldable pub new_tokens : RateLimitConfig → ℕ → Bucket → Option ℤ
unfolding ◌+ℤ◌
new_tokens config time b = refill config time b.tokens b.last_refill

-- `Math.ceil((deficit / refillRate) * 1000)`, the deficit in thousandths
unfoldable pub retry_after_ms : ℕ → ℕ → Delay
retry_after_ms deficit rate = if rate == 0 then unbounded else ms ((deficit + rate - 1) / rate)

-- The answer and the tokens that are left.
abbrev pub decide_limit : RateLimitConfig → Option ℤ → LimitResult × Option ℤ
decide_limit config none = (record { allowed = false; retry_after = unbounded }, none)
decide_limit config (some n) =
    if leb_ℤ (pos 1000) n
    then (record { allowed = true; retry_after = ms 0 }, some (sub_ℕ (pos_part n) 1000))
    else (
      record {
        allowed = false;
        retry_after = retry_after_ms (1000 + neg_part n - pos_part n) config.refill_rate;
      },
      some n,
    )

unfoldable pub take_token : RateLimitConfig → ℕ → Hash → LimitResult × Option ℤ
unfolding bucket new_tokens retry_after_ms
take_token config time h = decide_limit config (new_tokens config time (bucket config time h))

abbrev pub tokens_text : Option ℤ → Text
tokens_text none = text "NaN"
tokens_text (some n) = int_to_string n

unfoldable pub check_limit_fallback : Text → RateLimitConfig → Prog LimitResult
unfolding take_token
check_limit_fallback queue_name config = do
  time ← now
  h ← hgetall (Keys.rate_limit queue_name)
  let (result, left) = take_token config time h
  command (
      hset (Keys.rate_limit queue_name)
        ((Field.tokens, tokens_text left) ∷ (Field.last_refill, to_string time) ∷ []))
  ret result
