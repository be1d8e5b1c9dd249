-- ===== src/Worker/Loop/Bounds.antt =====
-- How many jobs a worker runs at once: worker/src/worker.ts.
use nexus_queue.Prelude.{
  ℕ, zero, suc, ◌+◌, ◌≤◌, ◌<◌, ◌≡◌, refl, ap, false, some, List, [], ◌∷◌, arith,
}
use nexus_queue.Prelude.Texts.{Text, is_empty}
use nexus_queue.Prelude.Lists.{length}
use nexus_queue.Prelude.Decimal.{nan, int}
use nexus_queue.Worker.Loop.{
  Promise, pulling, LoopState, Event, drop_promise, step, Reach, start, next,
}

length-drop : (n : ℕ) (ps : List Promise) → length (drop_promise n ps) ≤ length ps
length-drop n [] = omega arith
length-drop n (p ∷ ps) = ground (arith, length-drop n ps)

-- Room for what the loop has at hand: a pull that is under way needs a slot.
abbrev Fits : ℕ → LoopState → Type 0
Fits c s =
    (s.concurrency ≡ int c)
    × (length s.active_jobs ≤ c)
    × (s.at ≡ pulling → length s.active_jobs + 1 ≤ c)

step-Fits : (c : ℕ) (s t : LoopState) (e : Event) → Fits c s → step s e ≡ some t → Fits c t
unfolding step
step-Fits c s t (Event.settled n) f e = ground (arith, length-drop n s.active_jobs)
step-Fits c s t e f h = ground arith

Reach-Fits : {c : ℕ} {s : LoopState} → Reach (int c) s → Fits c s
Reach-Fits start = (refl, omega arith, λ e. cc)
Reach-Fits {c} {s} (next {s = r} e h p) = step-Fits c r s e (Reach-Fits h) p

-- Whatever happens in whatever order, a worker with concurrency `c` never runs more than `c` jobs
-- at once, and while a pull is under way it runs less than `c`.
pub concurrency_respected :
    {c : ℕ} {s : LoopState}
    → Reach (int c) s
    → (length s.active_jobs ≤ c) × (s.at ≡ pulling → length s.active_jobs < c)
concurrency_respected r =
    let (same_bound, fits, room) = Reach-Fits r in (fits, λ e. omega (arith, room e))

-- A worker that pulls, with `n` jobs at hand.
abbrev Filled : ℕ → LoopState → Type 0
Filled n s =
    (length s.active_jobs ≡ n)
    × (s.at ≡ pulling)
    × (s.stop_requested ≡ false)
    × (s.concurrency ≡ nan)

launches :
    (job_id : Text) (n : ℕ) (s : LoopState)
    → is_empty job_id ≡ false
    → Filled n s
    → step s (Event.pulled (some job_id))
      ≡ some (record s {
        active_jobs = record { number = s.launched; job_id = job_id } ∷ s.active_jobs;
        launched = s.launched + 1;
      })
unfolding step
launches job_id n s h f = ground arith

fill_up :
    (job_id : Text) → is_empty job_id ≡ false → (n : ℕ) → (s : LoopState) × Reach nan s × Filled n s
unfolding step
fill_up job_id h zero = (_, next Event.go_on start refl, (refl, refl, refl, refl))
fill_up job_id h (suc n) =
    let (s, r, f) = fill_up job_id h n in
    (_, next (Event.pulled (some job_id)) r (launches job_id n s h f), (ap suc f.0, f.1, f.2, f.3))

-- A concurrency that is no number bounds nothing: any number of jobs can run at once.
pub unbounded_with_nan :
    (job_id : Text) (n : ℕ)
    → is_empty job_id ≡ false
    → (s : LoopState) × Reach nan s × (length s.active_jobs ≡ n)
unbounded_with_nan job_id n h = let (s, r, f) = fill_up job_id h n in (s, r, f.0)
