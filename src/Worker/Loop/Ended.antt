-- ===== src/Worker/Loop/Ended.antt =====
-- What `stop` has seen of the loop: worker/src/worker.ts.
use nexus_queue.Prelude.{◌≡◌, ◌≢◌, refl, sym, subst, Bool, true, false, Option, none, some, arith}
use nexus_queue.Prelude.Tests.{if◌then◌else◌}
use nexus_queue.Prelude.Texts.{Text, is_empty}
use nexus_queue.Worker.Timers.InFlight.{some-P, when-P}
use nexus_queue.Worker.Loop.{
  LoopState, LoopPoint, testing, pulling, backing_off, ended, racing, StopPoint, not_called,
  updating, joining, deregistering, stopped, draining, Event, go_on, pull_failed, stop, timeout,
  pulled, settled, is_active, all_ended, any_ended, test_loop, launch, loop_on, pull_on, fail_on,
  stop_on, timeout_on, step,
}

-- From the end of the wait for it, the loop has ended.
abbrev pub LoopEnded : StopPoint → LoopPoint → Type 0
LoopEnded deregistering a = a ≡ ended
LoopEnded stopped a = a ≡ ended
LoopEnded x a = Unit

abbrev pub Over : LoopState → Type 0
Over s = LoopEnded s.stop_at s.at

-- What leaves the point of `stop` alone, where the loop has not ended.
still-Over : (p : StopPoint) (a b : LoopPoint) → LoopEnded p a → a ≢ ended → LoopEnded p b
still-Over deregistering a b l ne = absurd (ne l)
still-Over stopped a b l ne = absurd (ne l)
still-Over not_called a b l ne = tt
still-Over updating a b l ne = tt
still-Over joining a b l ne = tt
still-Over (draining ps) a b l ne = tt

stop-Over : (p : StopPoint) (s t : LoopState) → LoopEnded p s.at → stop_on p s ≡ some t → Over t
stop-Over not_called s t l h = some-P Over _ t tt h
stop-Over updating s t l h = some-P Over _ t tt h
stop-Over (draining ps) s t l h = when-P Over (all_ended ps s.active_jobs) _ t tt h
stop-Over joining s t l h = joined s.at refl h
  where
    joined :
        (a : LoopPoint)
        → s.at ≡ a
        → (elim a [ ended ↦ some (record s { stop_at = deregistering }) | _ ↦ none ]) ≡ some t
        → Over t
    joined ended e h = some-P Over _ t e h
    joined q e h = cc
stop-Over deregistering s t l h = some-P Over _ t l h
stop-Over stopped s t l h = cc

timeout-Over : (p : StopPoint) (s t : LoopState) → timeout_on p s ≡ some t → Over t
timeout-Over (draining ps) s t h = some-P Over _ t tt h
timeout-Over _ s t h = cc

-- The loop goes on from a point that is not its end.
test_loop-Over :
    (a : LoopPoint) (s : LoopState) → LoopEnded s.stop_at a → a ≢ ended → Over (test_loop s)
test_loop-Over a s l ne =
    subst (λ p. LoopEnded p (test_loop s).at) (sym (same_stop s))
      (still-Over s.stop_at a (test_loop s).at l ne)
  where
    same_stop : (s : LoopState) → (test_loop s).stop_at ≡ s.stop_at
    same_stop s = ground arith

go_on-Over :
    (a : LoopPoint) (s t : LoopState) → LoopEnded s.stop_at a → loop_on a s ≡ some t → Over t
go_on-Over testing s t l h = some-P Over _ t (test_loop-Over testing s l (λ e. cc)) h
go_on-Over (racing ps) s t l h =
    when-P Over (any_ended ps s.active_jobs) _ t (test_loop-Over (racing ps) s l (λ e. cc)) h
go_on-Over backing_off s t l h = some-P Over _ t (test_loop-Over backing_off s l (λ e. cc)) h
go_on-Over _ s t l h = cc

fail-Over :
    (a : LoopPoint) (s t : LoopState) → LoopEnded s.stop_at a → fail_on a s ≡ some t → Over t
fail-Over pulling s t l h =
    some-P Over (record s { at = backing_off }) t
      (still-Over s.stop_at pulling backing_off l (λ e. cc)) h
fail-Over _ s t l h = cc

pull-Over :
    (a : LoopPoint) (r : Option Text) (s t : LoopState)
    → LoopEnded s.stop_at a
    → pull_on a r s ≡ some t
    → Over t
pull-Over pulling none s t l h = some-P Over _ t (test_loop-Over pulling s l (λ e. cc)) h
pull-Over pulling (some id) s t l h =
    some-P Over (test_loop (if is_empty id then s else launch id s)) t (launched (is_empty id)) h
  where
    launched : (c : Bool) → Over (test_loop (if c then s else launch id s))
    launched true = test_loop-Over pulling s l (λ e. cc)
    launched false = test_loop-Over pulling (launch id s) l (λ e. cc)
pull-Over _ r s t l h = cc

pub step-Over : (s t : LoopState) (e : Event) → Over s → step s e ≡ some t → Over t
unfolding step
step-Over s t stop l h = stop-Over s.stop_at s t l h
step-Over s t timeout l h = timeout-Over s.stop_at s t h
step-Over s t (settled n) l h = when-P Over (is_active n s.active_jobs) _ t l h
step-Over s t go_on l h = go_on-Over s.at s t l h
step-Over s t pull_failed l h = fail-Over s.at s t l h
step-Over s t (pulled r) l h = pull-Over s.at r s t l h

-- The worker's `stop` is at its end, and its loop as well.
abbrev pub WorkerOff : LoopState → Type 0
WorkerOff w = (w.stop_at ≡ stopped) × (w.at ≡ ended)

loop_on-end : (a : LoopPoint) (s t : LoopState) → a ≡ ended → loop_on a s ≡ some t → ⊥
loop_on-end ended s t e h = cc
loop_on-end _ s t e h = cc

pull_on-end :
    (a : LoopPoint) (r : Option Text) (s t : LoopState) → a ≡ ended → pull_on a r s ≡ some t → ⊥
pull_on-end pulling r s t e h = cc
pull_on-end _ r s t e h = cc

fail_on-end : (a : LoopPoint) (s t : LoopState) → a ≡ ended → fail_on a s ≡ some t → ⊥
fail_on-end pulling s t e h = cc
fail_on-end _ s t e h = cc

stop_on-end : (p : StopPoint) (s t : LoopState) → p ≡ stopped → stop_on p s ≡ some t → ⊥
stop_on-end stopped s t e h = cc
stop_on-end _ s t e h = cc

timeout_on-end : (p : StopPoint) (s t : LoopState) → p ≡ stopped → timeout_on p s ≡ some t → ⊥
timeout_on-end (draining ps) s t e h = cc
timeout_on-end _ s t e h = cc

pub step-WorkerOff : (s t : LoopState) (e : Event) → WorkerOff s → step s e ≡ some t → WorkerOff t
unfolding step
step-WorkerOff s t stop (p, a) h = absurd (stop_on-end s.stop_at s t p h)
step-WorkerOff s t timeout (p, a) h = absurd (timeout_on-end s.stop_at s t p h)
step-WorkerOff s t (settled n) w h = when-P WorkerOff (is_active n s.active_jobs) _ t w h
step-WorkerOff s t go_on (p, a) h = absurd (loop_on-end s.at s t a h)
step-WorkerOff s t pull_failed (p, a) h = absurd (fail_on-end s.at s t a h)
step-WorkerOff s t (pulled r) (p, a) h = absurd (pull_on-end s.at r s t a h)
