-- ===== src/Dashboard/DlqInspector/Emptying.antt =====
-- What a click on Requeue All does, and what the inspector shows on a guarded server.
use nexus_queue.Prelude.{ℕ, ◌≡◌, refl, sym, ap, subst, ◌∙◌, Bool, false, none, []}
use nexus_queue.Prelude.Texts.{Text, text}
use nexus_queue.Prelude.Lists.{length}
use nexus_queue.Shared.Keys
use nexus_queue.Services.Redis.{execute, range_list}
use nexus_queue.Program.World.{Backend, World, ok, documented, run, after, calm, state}
use nexus_queue.Program.Transfer.{view, run-view}
use nexus_queue.Worker.Handlers.{Runtime}
use nexus_queue.Server.Auth.{Jwt, jwt_middleware}
use nexus_queue.Server.Inspect.{list_dlq, show_dlq_job}
use nexus_queue.Server.Reads.{limit_of, offset_of}
use nexus_queue.Prelude.Int.{negsuc, ◌+ℤ◌}
use nexus_queue.Program.{map_each, ret, ◌>>=◌}
use nexus_queue.Server.Routes.{counted, requeue}
use nexus_queue.Server.Routes.Emptying.{Emptied, requeue_empties}
use nexus_queue.Dashboard.Api.{
  checked, get_dlq_jobs, requeue_dlq, requeue_body, requeue_response, dlq_response,
}
use nexus_queue.Dashboard.DlqInspector.{Inspector, receive, refresh, handle_requeue_all}

list_dlq-empty :
    (uuid : ℕ → Text) (rt : Runtime) (name : Text) (w : World (documented uuid))
    → w.redis_state.lists (Keys.dlq name) ≡ []
    → (run (documented uuid) (list_dlq rt name none none) (calm w)).0 ≡ ok ([], 0)
unfolding list_dlq execute ◌+ℤ◌
list_dlq-empty uuid rt name w e =
    ap
      (λ xs.
        (run (documented uuid)
          (map_each (show_dlq_job rt name)
              (range_list (offset_of none) (offset_of none +ℤ limit_of none +ℤ negsuc 0) xs)
            >>= λ js. ret (js, length xs))
          (calm w)).0)
      e

module _ (jwt : Jwt) (b : Backend) (rt : Runtime) (name : Text) (w : World b) where
  get_dlq_jobs-empty :
      (state w).lists (Keys.dlq name) ≡ [] → get_dlq_jobs jwt none b rt name w ≡ ok []
  unfolding get_dlq_jobs jwt_middleware
  get_dlq_jobs-empty e =
      ap (λ x. checked (text "fetch DLQ jobs") (dlq_response x.0))
        (run-view b (list_dlq rt name none none) (calm w))
      ∙ ap (λ x. checked (text "fetch DLQ jobs") (dlq_response x))
          (list_dlq-empty b.uuid rt name (view w) e)

  module _ (has_bus : Bool) where
    abbrev requeued : World b
    requeued = after b (requeue has_bus name (requeue_body none)) (calm w)

    requeue_dlq-run :
        (n : ℕ)
        → (run b (requeue has_bus name (requeue_body none)) (calm w)).0 ≡ ok (counted n 0)
        → requeue_dlq jwt none b rt has_bus name none w ≡ (ok n, requeued)
    unfolding requeue_dlq jwt_middleware
    requeue_dlq-run n e =
        ap (λ x. (checked (text "requeue DLQ jobs") (requeue_response x), requeued)) e

-- On a server without JWT_SECRET, when nothing fails and nobody interferes, a click on Requeue All
-- leaves the inspector with no jobs and no error, whatever it showed; the dead-letter list of the queue
-- is then empty, each id that was in it stands in the list of the queue for the priority in its
-- hash, and no other list has lost an id.
pub requeue_click_empties :
    (jwt : Jwt) (b : Backend) (rt : Runtime) (has_bus : Bool) (name : Text) (w : World b)
    (p : Inspector rt)
    → let out = handle_requeue_all rt jwt none b has_bus name p w in
      (out.0 ≡ record { jobs = []; loading = false; error = none })
      × Emptied name ((state w).lists (Keys.dlq name)) (state w) (state out.1)
unfolding handle_requeue_all
requeue_click_empties jwt b rt has_bus name w p =
    let (answered, emptied) = requeue_empties b has_bus name (requeue_body none) w refl in
    let sent = requeue_dlq-run jwt b rt name w has_bus _ answered in
    (
      ap (λ x. (refresh rt jwt none b has_bus name x p).0) sent
          ∙ ap (λ x. receive rt x p)
              (get_dlq_jobs-empty jwt b rt name (requeued jwt b rt name w has_bus) emptied.0),
      subst
          (λ x.
            Emptied name ((state w).lists (Keys.dlq name)) (state w)
              (state (refresh rt jwt none b has_bus name x p).1))
          (sym sent) emptied,
    )
