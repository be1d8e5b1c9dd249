-- ===== src/Worker/Backoff.antt =====
-- The delay between attempts: `handleFailure` of worker/src/worker.ts.
use nexus_queue.Prelude.{ℕ, zero, suc, ◌*◌, ◌^◌, ◌≤◌, ◌≡◌, min, arith}
use native.Mathlib.Nat.{pow-suc}
use nexus_queue.Worker.Process.{backoff}

pow_pos : (n : ℕ) → 1 ≤ 2 ^ n
pow_pos zero = omega arith
pow_pos (suc n) = omega (arith, pow-suc 2 n, pow_pos n)

-- The delay lies between half a second and thirty seconds, never falls from one attempt to the
-- next, and doubles until it reaches thirty seconds.
pub backoff_bounds :
    (a : ℕ)
    → (500 ≤ backoff a)
      × (backoff a ≤ 30000)
      × (backoff a ≤ backoff (suc a))
      × (backoff (suc a) ≡ min (2 * backoff a) 30000)
unfolding backoff
backoff_bounds zero = omega arith
backoff_bounds (suc n) = omega (arith, pow-suc 2 n, pow_pos n)
