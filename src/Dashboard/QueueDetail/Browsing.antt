-- ===== src/Dashboard/QueueDetail/Browsing.antt =====
-- What a user sees who clicks through the pages of a queue.
use nexus_queue.Prelude.{
  ℕ, ◌+◌, ◌*◌, ◌≤◌, ◌≡◌, refl, sym, ap, ap₂, ◌∙◌, true, false, Option, none, some, List, [], map,
  arith,
}
use nexus_queue.Prelude.Texts.{Text, text, same}
use nexus_queue.Prelude.Lists.{length, take, drop, has}
use nexus_queue.Program.World.{Result, ok}
use nexus_queue.Dashboard.Api.{Params}
use nexus_queue.Dashboard.QueueDetail.{
  statuses, page_params, Page, chose, first_render, step, settle, click_through,
}
use nexus_queue.Prelude.Decimal.{to_string}
use nexus_queue.Dashboard.Api.{param}
use nexus_queue.Dashboard.QueueDetail.{status_param}
use nexus_queue.Services.Postgres.{rows_of}
use nexus_queue.Server.Reads.{JobView, view_row, list_jobs}
use nexus_queue.Server.Auth.{Jwt, jwt_middleware}
use nexus_queue.Services.Postgres.{newest_first}
use nexus_queue.Worker.Handlers.{Runtime}
use nexus_queue.Program.World.{Backend, World, run, calm, rows}
use nexus_queue.Program.Transfer.{view, run-view}
use nexus_queue.Dashboard.Api.{checked, jobs_response, get_queue_jobs}
use nexus_queue.Server.Reads.Paging.{list_jobs-run, length-map, length-newest_first}
use nexus_queue.Dashboard.QueueDetail.Clicks.{
  map-take, map-drop, Pages, asking, settle-asking, click-at,
}
use nexus_queue.Dashboard.QueueDetail.Tabs.{
  rows_under, rows_under-fits, rows_of-under, has-All, Read, reads,
}

-- The jobs of a tab, as the server shows them.
abbrev pub tab_jobs : {b : Backend} (rt : Runtime) (name s : Text) (w : World b) → List (JobView rt)
tab_jobs rt name s w = map (view_row rt) (newest_first (rows_under name s (rows w)))

module _ (jwt : Jwt) (b : Backend) (rt : Runtime) (name : Text) (w : World b) where
  abbrev pub server : Params → Result (List (JobView rt) × ℕ)
  server ps = get_queue_jobs jwt none b rt name ps w

  abbrev answer : Option Text → Option Text → Option Text → Result (List (JobView rt) × ℕ)
  answer q l k =
      checked (text "fetch jobs") (jobs_response rt (run b (list_jobs rt name q l k) (calm w)).0)

  read-Pages : (s : Text) → Read s → Pages server s (tab_jobs rt name s w) none
  unfolding get_queue_jobs jwt_middleware
  read-Pages s (f, e, is_status, is_limit, is_offset, fits) o =
      ap
        (λ q.
          answer q (param (text "limit") (page_params s o))
            (param (text "offset") (page_params s o)))
        (is_status o)
      ∙ ap (λ l. answer (status_param s) l (param (text "offset") (page_params s o))) (is_limit o)
      ∙ ap (λ k. answer (status_param s) (some (to_string 20)) k) (is_offset o)
      ∙ ap (λ x. checked (text "fetch jobs") (jobs_response rt x.0))
          (run-view b
              (list_jobs rt name (status_param s) (some (to_string 20)) (some (to_string o)))
              (calm w)
            ∙ list_jobs-run b.uuid rt name (view w) (status_param s) f 20 o e (omega arith)
                (omega arith))
      ∙ ap (λ rs. ok (map (view_row rt) (take 20 (drop o (newest_first rs))), length rs))
          (rows_of-under name s f fits (rows w))
      ∙ ap₂ (λ js n. ok (js, n))
          (map-take (view_row rt) 20 (drop o (newest_first (rows_under name s (rows w))))
            ∙ ap (take 20) (map-drop (view_row rt) o (newest_first (rows_under name s (rows w)))))
          (sym (length-newest_first (rows_under name s (rows w)))
            ∙ sym (length-map (view_row rt) (newest_first (rows_under name s (rows w)))))

  tab-fits : (s : Text) → length (tab_jobs rt name s w) ≤ length (rows_of name none (rows w))
  tab-fits s = omega (
    arith,
    length-map (view_row rt) (newest_first (rows_under name s (rows w))),
    length-newest_first (rows_under name s (rows w)),
    rows_under-fits name s (rows w),
  )

  tab-shown :
      (s : Text) (sel : Option Text) (js : List (JobView rt)) (n k : ℕ)
      → Read s
      → length (rows_of name none (rows w)) ≤ 20 + k * 20
      → click_through
          (JobView rt)
          server
          k
          (settle (JobView rt) server (asking server s (tab_jobs rt name s w) sel js n 0))
        ≡ tab_jobs rt name s w
  tab-shown s sel js n k r fits =
      ap (click_through (JobView rt) server k)
        (settle-asking server s (tab_jobs rt name s w) sel (read-Pages s r) js n 0)
      ∙ click-at server s (tab_jobs rt name s w) sel k 0 0 (read-Pages s r) refl
          (omega (arith, tab-fits s))

-- On a server without JWT_SECRET, of a queue that nobody changes while nothing fails: the user who
-- chooses another tab on a page that waits for no answer, waits for the answer and clicks on Next as
-- often as it can be clicked, `k` times at most, sees each job of the queue that has the tab's
-- status (of the tab "all": each job of the queue) exactly once, from the newest on, when `k`
-- clicks and the first page have room for them. The same holds of the first tab of a page just opened.
pub clicking_shows_all :
    (jwt : Jwt) (b : Backend) (rt : Runtime) (name : Text) (w : World b) (s : Text)
    (p : Page (JobView rt)) (k : ℕ)
    → has s statuses ≡ true
    → same s p.status ≡ false
    → p.requests ≡ []
    → length (rows_of name none (rows w)) ≤ 20 + k * 20
    → ((q : Page (JobView rt)) × (step (JobView rt) p (chose s) ≡ some q)
        × (click_through
              (JobView rt)
              (server jwt b rt name w)
              k
              (settle (JobView rt) (server jwt b rt name w) q)
            ≡ tab_jobs rt name s w))
      × (click_through
            (JobView rt)
            (server jwt b rt name w)
            k
            (settle (JobView rt) (server jwt b rt name w) (first_render (JobView rt)))
          ≡ tab_jobs rt name (text "all") w)
unfolding step
clicking_shows_all jwt b rt name w s p k listed other idle fits = (
  (
    asking (server jwt b rt name w) s (tab_jobs rt name s w) p.selected_job_id p.jobs p.total 0,
    rw listed (rw other (rw idle refl)),
    tab-shown jwt b rt name w s p.selected_job_id p.jobs p.total k
        (has-All Read statuses reads s listed) fits,
  ),
  tab-shown jwt b rt name w (text "all") none [] 0 k reads.0 fits,
)
