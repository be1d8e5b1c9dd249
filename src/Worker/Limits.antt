-- ===== src/Worker/Limits.antt =====
-- What the token bucket of worker/src/rate-limiter.ts guarantees.
use nexus_queue.Prelude.{
  ℕ, suc, ◌+◌, ◌-◌, ◌*◌, ◌≤◌, ◌≡◌, refl, sym, ap, subst, ◌∙◌, min, Bool, true, false, Option, none,
  some, List, [], ◌∷◌, arith,
}
use nexus_queue.Prelude.Tests.{leb, leb→le, if◌then◌else◌}
use nexus_queue.Prelude.Texts.{Text, same_refl, update}
use nexus_queue.Prelude.Decimal.{to_string, to_number-to_string}
use nexus_queue.Prelude.Int.{ℤ, pos, int_to_string, to_int-pos}
use nexus_queue.Shared.Types.{RateLimitConfig}
use nexus_queue.Shared.Keys
use nexus_queue.Services.Reply.{Field, Hash}
use nexus_queue.Services.Redis.{execute, put_fields}
use nexus_queue.Program.World.{Backend, World, Result, ok, err, documented, run, calm, state}
use nexus_queue.Program.Transfer.{view, run-view}
use nexus_queue.Worker.RateLimiter.{
  LimitResult, ms, bucket, new_tokens, retry_after_ms, take_token, tokens_text,
  check_limit_fallback,
}

-- A hash that holds `t` thousandths, filled last at `last`.
abbrev pub Holds : Hash → ℕ → ℕ → Type 0
Holds h t last =
    (h Field.tokens ≡ some (int_to_string (pos t))) × (h Field.last_refill ≡ some (to_string last))

-- The tokens at hand in thousandths, in ℕ.
abbrev pub refilled : RateLimitConfig → ℕ → ℕ → ℕ → ℕ
refilled config t last time =
    min (config.max_tokens * 1000) (t + (time * config.refill_rate - last * config.refill_rate))

pub new_tokens-refilled :
    (config : RateLimitConfig) (time t last : ℕ) (h : Hash)
    → Holds h t last
    → last * config.refill_rate ≤ time * config.refill_rate
    → new_tokens config time (bucket config time h) ≡ some (pos (refilled config t last time))
unfolding new_tokens bucket
new_tokens-refilled config time t last h (et, el) le =
    rw (et, el, to_int-pos t, to_number-to_string last) (ground arith)

-- The decision on `r` thousandths at hand.
abbrev pub decided_by : Bool → RateLimitConfig → ℕ → LimitResult × Option ℤ
decided_by true config r = (record { allowed = true; retry_after = ms 0 }, some (pos (r - 1000)))
decided_by false config r = (
  record { allowed = false; retry_after = retry_after_ms (1000 - r) config.refill_rate },
  some (pos r),
)

abbrev pub decided : RateLimitConfig → ℕ → LimitResult × Option ℤ
decided config r = decided_by (leb 1000 r) config r

take_token-decided :
    (config : RateLimitConfig) (time r : ℕ) (h : Hash)
    → new_tokens config time (bucket config time h) ≡ some (pos r)
    → take_token config time h ≡ decided config r
unfolding take_token
take_token-decided config time r h e = rw e (ground arith)

module _ (uuid : ℕ → Text) (queue_name : Text) (config : RateLimitConfig)
    (w : World (documented uuid)) where
  abbrev pub limit_hash : Hash
  limit_hash = w.redis_state.hashes (Keys.rate_limit queue_name)

  -- After a check that leaves `left` thousandths.
  abbrev pub checked : Option ℤ → World (documented uuid)
  checked left = record (calm w) {
    redis_state = record w.redis_state {
      hashes = update w.redis_state.hashes (Keys.rate_limit queue_name) (
          put_fields limit_hash
            ((Field.tokens, tokens_text left) ∷ (Field.last_refill, to_string w.clock) ∷ []));
    };
  }

  check-run : run (documented uuid) (check_limit_fallback queue_name config) (calm w) ≡ (
    ok (take_token config w.clock limit_hash).0,
    checked (take_token config w.clock limit_hash).1,
  )
  unfolding check_limit_fallback execute
  check-run = refl

  pub check-decided :
      (r : ℕ)
      → new_tokens config w.clock (bucket config w.clock limit_hash) ≡ some (pos r)
      → run (documented uuid) (check_limit_fallback queue_name config) (calm w)
        ≡ (ok (decided config r).0, checked (decided config r).1)
  check-decided r e =
      check-run ∙ ap (λ x. (ok x.0, checked x.1)) (take_token-decided config w.clock r limit_hash e)

  pub checked-Holds :
      (t : ℕ)
      → Holds ((checked (some (pos t))).redis_state.hashes (Keys.rate_limit queue_name)) t w.clock
  checked-Holds t =
      (rw (same_refl (Keys.rate_limit queue_name)), rw (same_refl (Keys.rate_limit queue_name)))

abbrev pub was_allowed : Result LimitResult → Bool
was_allowed (ok r) = r.allowed
was_allowed (err e) = false

abbrev pub sum : List ℕ → ℕ
sum [] = 0
sum (d ∷ ds) = d + sum ds

module _ (b : Backend) (queue_name : Text) (config : RateLimitConfig) where
  -- The check `d` milliseconds later.
  abbrev pub check_after : ℕ → World b → Result LimitResult × World b
  check_after d w =
      run b (check_limit_fallback queue_name config) (calm (record w { clock = w.clock + d }))

  -- How many of a row of checks, with these pauses before them, are allowed.
  pub allowed_count : List ℕ → World b → ℕ
  allowed_count [] w = 0
  allowed_count (d ∷ ds) w =
      let more = allowed_count ds (check_after d w).1 in
      if was_allowed (check_after d w).0 then suc more else more

module _ (uuid : ℕ → Text) (queue_name : Text) (config : RateLimitConfig) where
  abbrev counts : List ℕ → World (documented uuid) → ℕ
  counts = allowed_count (documented uuid) queue_name config

  abbrev tally : List ℕ → Result LimitResult × World (documented uuid) → ℕ
  tally ds x = let more = counts ds x.1 in if was_allowed x.0 then suc more else more

  -- `budget` bounds what the checks that follow can be allowed from `t` thousandths.
  abbrev Budget : List ℕ → Type 0
  Budget ds =
      (w : World (documented uuid)) (t last : ℕ)
      → Holds (limit_hash uuid queue_name config w) t last
      → last * config.refill_rate ≤ w.clock * config.refill_rate
      → 1000 * counts ds w ≤ refilled config t last w.clock + sum ds * config.refill_rate

  tally-le :
      (ds : List ℕ) (w : World (documented uuid)) (enough : Bool) (r : ℕ)
      → Budget ds
      → leb 1000 r ≡ enough
      → 1000
          * tally ds (
            ok (decided_by enough config r).0,
            checked uuid queue_name config w (decided_by enough config r).1,
          )
        ≤ r + sum ds * config.refill_rate
  tally-le ds w true r ih e = omega (
    arith,
    leb→le 1000 r e,
    ih (checked uuid queue_name config w (some (pos (r - 1000)))) (r - 1000) w.clock
        (checked-Holds uuid queue_name config w (r - 1000)) (omega arith),
  )
  tally-le ds w false r ih e = omega (
    arith,
    ih (checked uuid queue_name config w (some (pos r))) r w.clock
        (checked-Holds uuid queue_name config w r) (omega arith),
  )

  -- One check on `r` thousandths, and those after it.
  spend-le :
      (ds : List ℕ) (w : World (documented uuid)) (r : ℕ)
      → Budget ds
      → new_tokens config w.clock (bucket config w.clock (limit_hash uuid queue_name config w))
        ≡ some (pos r)
      → 1000 * tally ds (run (documented uuid) (check_limit_fallback queue_name config) (calm w))
        ≤ r + sum ds * config.refill_rate
  spend-le ds w r ih e =
      subst (λ x. 1000 * tally ds x ≤ r + sum ds * config.refill_rate)
        (sym (check-decided uuid queue_name config w r e)) (tally-le ds w (leb 1000 r) r ih refl)

  counts-le : (ds : List ℕ) → Budget ds
  unfolding allowed_count
  counts-le [] w t last h le = omega arith
  counts-le (d ∷ ds) w t last h le =
      let w' : World (documented uuid) = record w { clock = w.clock + d } in
      omega (
        arith,
        spend-le ds w' (refilled config t last (w.clock + d)) (counts-le ds) (
            new_tokens-refilled config (w.clock + d) t last (limit_hash uuid queue_name config w) h
              (omega arith)),
      )

  new_tokens-fresh :
      (w : World (documented uuid))
      → limit_hash uuid queue_name config w Field.tokens ≡ none
      → new_tokens config w.clock (bucket config w.clock (limit_hash uuid queue_name config w))
        ≡ some (pos (config.max_tokens * 1000))
  unfolding new_tokens bucket
  new_tokens-fresh w e = rw e (ground arith)

  counts-fresh :
      (ds : List ℕ) (w : World (documented uuid))
      → limit_hash uuid queue_name config w Field.tokens ≡ none
      → 1000 * counts ds w ≤ config.max_tokens * 1000 + sum ds * config.refill_rate
  unfolding allowed_count
  counts-fresh [] w e = omega arith
  counts-fresh (d ∷ ds) w e = omega (
    arith,
    spend-le ds (record w { clock = w.clock + d }) (config.max_tokens * 1000) (counts-le ds)
        (new_tokens-fresh (record w { clock = w.clock + d }) e),
  )

module _ (b : Backend) (queue_name : Text) (config : RateLimitConfig) where
  allowed_count-view :
      (ds : List ℕ) (w : World b)
      → allowed_count b queue_name config ds w ≡ counts b.uuid queue_name config ds (view w)
  unfolding allowed_count
  allowed_count-view [] w = refl
  allowed_count-view (d ∷ ds) w =
      ap (λ n. if was_allowed (check_after b queue_name config d w).0 then suc n else n)
        (allowed_count-view ds (check_after b queue_name config d w).1)
      ∙ ap (tally b.uuid queue_name config ds) (
          run-view b (check_limit_fallback queue_name config)
            (calm (record w { clock = w.clock + d })))

  -- When nothing fails and no other client uses the bucket: from a queue with no bucket yet, any
  -- row of checks, with any pauses before each, allows at most `maxTokens` jobs and one more for
  -- each thousand of `refillRate` times the milliseconds that pass.
  pub limit_respected :
      (w : World b) (pauses : List ℕ)
      → (state w).hashes (Keys.rate_limit queue_name) Field.tokens ≡ none
      → 1000 * allowed_count b queue_name config pauses w
        ≤ config.max_tokens * 1000 + sum pauses * config.refill_rate
  limit_respected w pauses e =
      subst (λ n. 1000 * n ≤ config.max_tokens * 1000 + sum pauses * config.refill_rate)
        (sym (allowed_count-view pauses w))
        (counts-fresh b.uuid queue_name config pauses (view w) e)
