-- ===== src/Worker/Loop/Shutdown.antt =====
-- What the shutdown of a worker leaves behind: worker/src/worker.ts.
use nexus_queue.Prelude.{
  ℕ, ◌+◌, ◌≤◌, ◌≡◌, ◌≢◌, refl, subst, Bool, true, false, none, some, List, [], ◌∷◌, arith,
}
use nexus_queue.Prelude.Tests.{if◌then◌else◌}
use nexus_queue.Prelude.Texts.{Text, is_empty}
use nexus_queue.Prelude.Lists.{All}
use nexus_queue.Prelude.Decimal.{int}
use nexus_queue.Worker.Loop.{
  Promise, LoopPoint, pulling, ended, StopPoint, not_called, updating, joining, deregistering,
  stopped, draining, LoopState, Event, timeout, stop, go_on, pulled, settled, stop_on, is_active,
  all_ended, drop_promise, step, started, Reach, start, next,
}

-- The states that follow a state.
pub data Later (s : LoopState) : LoopState → Type 0 where
  now : Later s s
  then_on : {t u : LoopState} (e : Event) → Later s t → step t e ≡ some u → Later s u

abbrev pending : LoopPoint → ℕ
pending pulling = 1
pending _ = 0

-- At most one job more than a bound is launched or under way, and the worker is told to stop.
abbrev Closing : ℕ → LoopState → Type 0
Closing n t = (t.stop_requested ≡ true) × (t.launched + pending t.at ≤ n + 1)

step-Closing : (n : ℕ) (t u : LoopState) (e : Event) → Closing n t → step t e ≡ some u → Closing n u
unfolding step
step-Closing n t u e c p = ground arith

Later-Closing : (n : ℕ) {s t : LoopState} → Closing n s → Later s t → Closing n t
Later-Closing n c now = c
Later-Closing n {t = u} c (then_on {t} e l p) = step-Closing n t u e (Later-Closing n c l) p

-- Once a worker is told to stop it launches at most one more job, whatever happens.
pub one_more_job :
    {s t : LoopState} → s.stop_requested ≡ true → Later s t → t.launched ≤ s.launched + 1
one_more_job {s} {t} h l =
    let c = Later-Closing s.launched (h, ground arith) l in omega (arith, c.1)

ended_all :
    (p : Promise) (active ps : List Promise)
    → is_active p.number ps ≡ true
    → all_ended ps (p ∷ active) ≡ false
ended_all p active [] h = cc
ended_all p active (q ∷ qs) h = ground (arith, ended_all p active qs)

-- Every job at hand is one of these.
abbrev Within : List Promise → List Promise → Type 0
Within ps active = All (λ p. is_active p.number ps ≡ true) active

Within-none :
    (ps active : List Promise) → Within ps active → all_ended ps active ≡ true → active ≡ []
Within-none ps [] h e = refl
Within-none ps (p ∷ active) h e = absurd (cc (ended_all p active ps h.0))

Within-cons : (q : Promise) (ps active : List Promise) → Within ps active → Within (q ∷ ps) active
Within-cons q ps [] h = tt
Within-cons q ps (p ∷ active) h = (rw h.0 (ground arith), Within-cons q ps active h.1)

Within-same : (ps : List Promise) → Within ps ps
Within-same [] = tt
Within-same (p ∷ ps) = (ground arith, Within-cons p ps ps (Within-same ps))

Within-drop :
    (n : ℕ) (ps active : List Promise) → Within ps active → Within ps (drop_promise n active)
Within-drop n ps [] h = tt
Within-drop n ps (p ∷ active) h = ground (arith, Within-drop n ps active)

drop-none : (n : ℕ) (active : List Promise) → active ≡ [] → drop_promise n active ≡ []
drop-none n active e = rw e refl

-- What has been waited for, when no wait was cut short.
abbrev Waited : StopPoint → List Promise → Type 0
Waited not_called active = ⊥
Waited updating active = Unit
Waited (draining ps) active = Within ps active
Waited _ active = active ≡ []

abbrev Quiet : LoopState → Type 0
Quiet t = (t.stop_requested ≡ true) × (t.at ≢ pulling) × Waited t.stop_at t.active_jobs

Waited-drop :
    (p : StopPoint) (n : ℕ) (active : List Promise)
    → Waited p active
    → Waited p (drop_promise n active)
Waited-drop not_called n active w = w
Waited-drop updating n active w = tt
Waited-drop (draining ps) n active w = Within-drop n ps active w
Waited-drop joining n active w = drop-none n active w
Waited-drop deregistering n active w = drop-none n active w
Waited-drop stopped n active w = drop-none n active w

some_inj {ℓ} : {A : Type ℓ} {x y : A} → some x ≡ some y → x ≡ y
some_inj e = ground arith

chosen {ℓ} :
    {A : Type ℓ} (b : Bool) (x u : A) → (if b then some x else none) ≡ some u → (b ≡ true) × (x ≡ u)
chosen true x u e = (refl, ground arith)
chosen false x u e = absurd (cc)

stop-Quiet :
    (p : StopPoint) (t u : LoopState)
    → t.stop_requested ≡ true
    → t.at ≢ pulling
    → Waited p t.active_jobs
    → stop_on p t ≡ some u
    → Quiet u
stop-Quiet not_called t u r a w h = absurd w
stop-Quiet updating t u r a w h = subst Quiet (some_inj h) (r, a, Within-same t.active_jobs)
stop-Quiet (draining ps) t u r a w h =
    let (over, e) = chosen (all_ended ps t.active_jobs) _ u h in
    subst Quiet e (r, a, Within-none ps t.active_jobs w over)
stop-Quiet joining t u r a w h = joined t.at h
  where
    joined :
        (q : LoopPoint)
        → (elim q [ ended ↦ some (record t { stop_at = deregistering }) | _ ↦ none ]) ≡ some u
        → Quiet u
    joined ended h = subst Quiet (some_inj h) (r, a, w)
    joined q h = cc
stop-Quiet deregistering t u r a w h = subst Quiet (some_inj h) (r, a, w)
stop-Quiet stopped t u r a w h = cc

step-Quiet : (t u : LoopState) (e : Event) → e ≢ timeout → Quiet t → step t e ≡ some u → Quiet u
unfolding step
step-Quiet t u timeout patient q h = absurd (patient refl)
step-Quiet t u (settled n) patient q h =
    subst Quiet (chosen (is_active n t.active_jobs) _ u h).1
      (q.0, q.1, Waited-drop t.stop_at n t.active_jobs q.2)
step-Quiet t u stop patient q h = stop-Quiet t.stop_at t u q.0 q.1 q.2 h
step-Quiet t u e patient q h = ground arith

-- The states that follow a state when no wait is cut short.
pub data Patiently (s : LoopState) : LoopState → Type 0 where
  at_once : Patiently s s
  then_waits :
      {t u : LoopState} (e : Event)
      → Patiently s t
      → e ≢ timeout
      → step t e ≡ some u
      → Patiently s u

Patiently-Quiet : {s t : LoopState} → Quiet s → Patiently s t → Quiet t
Patiently-Quiet q at_once = q
Patiently-Quiet {t = u} q (then_waits {t} e l patient p) =
    step-Quiet t u e patient (Patiently-Quiet q l) p

called :
    (s t : LoopState) → s.at ≢ pulling → s.stop_at ≡ not_called → step s stop ≡ some t → Quiet t
unfolding step
called s t a e h = ground arith

stopped_empty :
    (p : StopPoint) (active : List Promise) → Waited p active → p ≡ stopped → active ≡ []
stopped_empty stopped active w e = w
stopped_empty not_called active w e = absurd w
stopped_empty _ active w e = cc

-- If `stop` is called while no pull is under way, and its wait for the jobs is not cut short by its
-- 30 seconds, then no job is at hand when it ends, whatever happens in between.
pub stop_leaves_no_job :
    (s : LoopState) {t u : LoopState}
    → s.at ≢ pulling
    → s.stop_at ≡ not_called
    → step s stop ≡ some t
    → Patiently t u
    → u.stop_at ≡ stopped
    → u.active_jobs ≡ []
stop_leaves_no_job s {t} {u} a e h l over =
    stopped_empty u.stop_at u.active_jobs (Patiently-Quiet (called s t a e h) l).2 over

-- A worker whose pull is under way.
abbrev waiting : ℕ → LoopState
waiting c = record (started (int c)) { at = pulling }

goes_pulling : (c : ℕ) → 1 ≤ c → step (started (int c)) go_on ≡ some (waiting c)
unfolding step
goes_pulling c h = ground arith

-- The same, told to stop, at a later point of `stop`.
abbrev stopping : ℕ → StopPoint → LoopState
stopping c p = record (waiting c) { stop_requested = true; stop_at = p }

-- The job that its last pull brings, after the wait for the jobs.
abbrev stray : ℕ → Text → StopPoint → LoopState
stray c job_id p = record (stopping c p) {
  active_jobs = record { number = 0; job_id = job_id } ∷ [];
  launched = 1;
  at = ended;
}

pulls_stray :
    (c : ℕ) (job_id : Text)
    → is_empty job_id ≡ false
    → step (stopping c joining) (pulled (some job_id)) ≡ some (stray c job_id joining)
unfolding step
pulls_stray c job_id h = ground arith

-- A worker can stop while a job is at hand, though nothing is slow: whatever its concurrency of one
-- or more, there is a run in which its last pull brings a job after it has waited for its jobs, and
-- `stop` ends, with the worker's keys gone, while that job runs.
pub stop_may_strand :
    (c : ℕ) (job_id : Text)
    → 1 ≤ c
    → is_empty job_id ≡ false
    → (s : LoopState) × Reach (int c) s
      × (s.stop_at ≡ stopped)
      × (s.active_jobs ≡ record { number = 0; job_id = job_id } ∷ [])
unfolding step
stop_may_strand c job_id h e =
    let r1 : Reach (int c) (waiting c) = next go_on start (goes_pulling c h) in
    let r2 : Reach (int c) (stopping c updating) = next stop r1 refl in
    let r3 : Reach (int c) (stopping c (draining [])) = next stop r2 refl in
    let r4 : Reach (int c) (stopping c joining) = next stop r3 refl in
    let r5 : Reach (int c) (stray c job_id joining) =
      next (pulled (some job_id)) r4 (pulls_stray c job_id e) in
    let r6 : Reach (int c) (stray c job_id deregistering) = next stop r5 refl in
    (stray c job_id stopped, next stop r6 refl, refl, refl)
