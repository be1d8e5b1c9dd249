-- ===== src/Tests/Panels.antt =====
-- The theorems on the dashboard's pages at concrete inputs.
use nexus_queue.Prelude.{
  Option, ◌+◌, ◌≤◌, ◌<◌, ◌≡◌, ◌≢◌, refl, sym, true, false, none, some, List, [], ◌∷◌, map, arith,
}
use nexus_queue.Prelude.Tests.{if◌then◌else◌}
use nexus_queue.Prelude.Texts.{Text, text, same}
use nexus_queue.Prelude.Lists.{take, has, count}
use nexus_queue.Shared.Keys.{keys}
use nexus_queue.Shared.Types.{Status}
use nexus_queue.Services.Reply.{Row}
use nexus_queue.Services.Redis.{JobEvent}
use nexus_queue.Program.World.{documented, state, ok, err}
use nexus_queue.Server.Reads.{JobView, view_row}
use nexus_queue.Server.Routes.Retry.{Retried}
use nexus_queue.Server.Routes.Emptying.{Emptied}
use nexus_queue.Dashboard.Api.{retry_job, requeue_dlq}
use nexus_queue.Dashboard.QueueDetail.{
  Page, chose, previous, next, answered, first_render, page_params, step, steps, settle,
  click_through,
}
use nexus_queue.Dashboard.QueueDetail.Browsing.{tab_jobs, server, clicking_shows_all}
use nexus_queue.Dashboard.QueueDetail.Buttons.{
  Reach, opened, after, OnPage, Goes, buttons_keep_pages, late_answer_misleads,
}
use nexus_queue.Dashboard.QueueDetail.Guarded.{Served, Bare, no_jobs, guarded_shows_nothing}
use nexus_queue.Dashboard.QueueDetail.Guarded
use nexus_queue.Dashboard.JobDetail.{job_of, shown, handle_retry}
use nexus_queue.Dashboard.JobDetail.Retrying.{waiting, loaded, retry_click_shows}
use nexus_queue.Dashboard.DlqInspector.{initial, handle_requeue_all}
use nexus_queue.Dashboard.DlqInspector.Emptying.{requeue_click_empties}
use nexus_queue.Dashboard.JobTable.{on_event, queues, filtered}
use nexus_queue.Dashboard.JobTable.Window.{newest, window, table_shows_latest}
use nexus_queue.Tests.{plain, uuid}
use nexus_queue.Tests.Reads.{row_of, mail}
use nexus_queue.Tests.Server.{stamps}

abbrev idle : (Job : Type 0) → Page Job
idle Job = record (first_render Job) { requests = [] }

clicking_shows_all_example :
    ((q : Page (JobView plain)) × (step (JobView plain) (idle (JobView plain)) (chose (text "dlq"))
        ≡ some q)
      × (click_through
            (JobView plain)
            (server stamps (documented uuid) plain (text "mail") mail)
            0
            (settle (JobView plain) (server stamps (documented uuid) plain (text "mail") mail) q)
          ≡ tab_jobs plain (text "mail") (text "dlq") mail))
    × (click_through (JobView plain) (server stamps (documented uuid) plain (text "mail") mail) 0 (
          settle
            (JobView plain)
            (server stamps (documented uuid) plain (text "mail") mail)
            (first_render (JobView plain)))
        ≡ tab_jobs plain (text "mail") (text "all") mail)
clicking_shows_all_example =
    clicking_shows_all stamps (documented uuid) plain (text "mail") mail (text "dlq")
      (idle (JobView plain)) 0 refl refl refl (omega arith)

-- The second of three pages, of texts for jobs.
abbrev second_page : Page Text
second_page = record {
  jobs = text "j" ∷ [];
  total = 45;
  status = text "all";
  offset = 20;
  selected_job_id = none;
  requests = page_params (text "all") 20 ∷ [];
}

turns : Reach Text second_page
unfolding step
turns = after next (after (answered 0 (ok (text "j" ∷ [], 45))) opened refl) refl

buttons_keep_pages_example :
    OnPage Text second_page
    × Goes
        (λ q. (q.offset ≡ second_page.offset + 20) × (q.offset < second_page.total))
        (step Text second_page next)
    × Goes (λ q. q.offset + 20 ≡ second_page.offset) (step Text second_page previous)
    × (step Text (record second_page { total = 12 }) next ≡ none)
    × (step Text (record second_page { total = 12 }) previous ≡ none)
buttons_keep_pages_example =
    buttons_keep_pages Text (record second_page { total = 12 }) turns (omega arith)

late_answer_misleads_example :
    steps Text
      (chose (text "failed")
        ∷ chose (text "dlq")
        ∷ answered 1 (ok ([], 0))
        ∷ answered 0 (ok (text "j" ∷ [], 1))
        ∷ [])
      (idle Text)
    ≡ some (record (idle Text) {
      jobs = text "j" ∷ [];
      total = 1;
      status = text "dlq";
      offset = 0;
      requests = [];
    })
late_answer_misleads_example =
    late_answer_misleads Text (idle Text) (text "failed") (text "dlq") (text "j" ∷ []) [] 1 0 refl
      refl refl refl refl

abbrev dead_row : Row
dead_row = record (row_of (text "c") Status.dlq) { created_at = 10 }

retry_click_shows_example :
    let out =
      handle_retry plain stamps none
        (documented uuid)
        true
        (text "c")
        (loaded plain dead_row)
        mail in
    (shown plain (loaded plain (row_of (text "b") Status.pending))
      ≡ job_of (view_row plain (row_of (text "b") Status.pending)) false false)
    × (shown plain out.0 ≡ job_of (view_row plain (waiting dead_row)) false false)
    × Retried (text "c") (text "mail") (state mail) (state out.1)
retry_click_shows_example =
    retry_click_shows stamps (documented uuid) plain true (text "c") dead_row
      (row_of (text "b") Status.pending) mail refl refl refl

requeue_click_empties_example :
    let out =
      handle_requeue_all plain stamps none
        (documented uuid)
        true
        (text "mail")
        (initial plain)
        mail in
    (out.0 ≡ record { jobs = []; loading = false; error = none })
    × Emptied (text "mail") (text "c" ∷ text "d" ∷ []) (state mail) (state out.1)
unfolding keys
requeue_click_empties_example =
    requeue_click_empties stamps (documented uuid) plain true (text "mail") mail (initial plain)

-- A token is refused, and then a tab is chosen.
abbrev refused_page : Page (JobView plain)
refused_page = record (first_render (JobView plain)) { requests = [] }

refused : Served stamps (text "s") (documented uuid) plain (text "mail") refused_page
unfolding step
refused =
    Guarded.after (answered 0 (err (text "Failed to fetch jobs: 401"))) Guarded.opened
      (
        page_params (text "all") 0,
        mail,
        sym (
            no_jobs stamps (text "s") (documented uuid) plain (text "mail")
              (page_params (text "all") 0) mail refl),
      )
      refl

guarded_shows_nothing_example :
    Bare (JobView plain) refused_page
    × (retry_job stamps (some (text "s")) (documented uuid) plain true (text "c") mail
        ≡ (err (text "Failed to retry job: 401"), mail))
    × (requeue_dlq stamps (some (text "s")) (documented uuid) plain true (text "mail") none mail
        ≡ (err (text "Failed to requeue DLQ jobs: 401"), mail))
guarded_shows_nothing_example =
    guarded_shows_nothing stamps (text "s") (documented uuid) plain true (text "mail") (text "c")
      none mail refl refused

abbrev event_of : Text → Text → JobEvent
event_of id queue_name = record {
  type = text "job.completed";
  job_id = id;
  job_name = text "send";
  queue_name = queue_name;
  timestamp = 7;
  error_message = none;
}

abbrev three_events : List JobEvent
three_events =
    event_of (text "a") (text "mail")
    ∷ event_of (text "b") (text "sms")
    ∷ event_of (text "c") (text "mail")
    ∷ []

table_shows_latest_example :
    let t = window three_events [] [] in
    (t.events ≡ take 100 (newest three_events))
    × (has (text "fax") (queues t)
        ≡ has (text "fax") (map (λ e. e.queue_name) (take 100 (newest three_events))))
    × (count (text "fax") (queues t) ≤ 1)
    × (filtered (record t { filter_queue = text "sms"; filter_status = [] }) ≢ [])
unfolding on_event
table_shows_latest_example = table_shows_latest three_events [] [] (text "fax") (text "sms") refl

-- Events by their ids.
abbrev parse_id : Text → Option JobEvent
parse_id t =
    if same t (text "a")
    then some (event_of (text "a") (text "mail"))
    else if same t (text "b")
    then some (event_of (text "b") (text "sms"))
    else if same t (text "c")
    then some (event_of (text "c") (text "mail"))
    else none
