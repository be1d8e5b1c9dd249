-- ===== src/Dashboard/QueueDetail.antt =====
-- dashboard/src/pages/QueueDetail.tsx: the page of one queue, as a state machine. `requests` are the
-- requests for jobs that have no answer yet, in the order in which the effect sent them.
pub mod Clicks
pub mod Tabs
pub mod Browsing
pub mod Buttons
pub mod Guarded
use nexus_queue.Prelude.{
  ℕ, zero, suc, ◌+◌, ◌*◌, ◌-◌, ◌/◌, Bool, true, false, ◌&&◌, ◌||◌, not, Option, none, some, List,
  [], ◌∷◌, ◌++◌,
}
use nexus_queue.Prelude.Tests.{◌==◌, ltb, if◌then◌else◌}
use nexus_queue.Prelude.Texts.{Text, text, same}
use nexus_queue.Prelude.Lists.{has}
use nexus_queue.Program.World.{Result, ok, err}
use nexus_queue.Dashboard.Api.{Params, jobs_params}

abbrev pub statuses : List Text
statuses =
    text "all" ∷ text "pending" ∷ text "active" ∷ text "completed" ∷ text "failed" ∷ text "dlq" ∷ []

abbrev pub page_size : ℕ
page_size = 20

-- `status === 'all' ? undefined : status`
abbrev pub status_param : Text → Option Text
status_param s = if same s (text "all") then none else some s

-- What the effect asks for.
abbrev pub page_params : Text → ℕ → Params
page_params s offset = jobs_params (status_param s) (some page_size) (some offset)

module _ (Job : Type 0) where
  pub record Page : Type 0 where
    pub jobs : List Job
    pub total : ℕ
    pub status : Text
    pub offset : ℕ
    pub selected_job_id : Option Text
    pub requests : List Params

  -- The body of the `then`, and the empty `catch`.
  abbrev pub receive : Result (List Job × ℕ) → Page → Page
  receive (ok (js, n)) p = record p { jobs = js; total = n }
  receive (err e) p = p

  -- What the user does, or the answer to one of the requests.
  pub data Event : Type 0 where
    chose : Text → Event
    previous next close : Event
    select : Text → Event
    answered : ℕ → Result (List Job × ℕ) → Event

  abbrev ask : Page → Page
  ask p = record p { requests = p.requests ++ page_params p.status p.offset ∷ [] }

  abbrev pub first_render : Page
  first_render = record {
    jobs = [];
    total = 0;
    status = text "all";
    offset = 0;
    selected_job_id = none;
    requests = page_params (text "all") 0 ∷ [];
  }

  -- A render with these; the effect runs when one of the two has changed.
  abbrev pub render : Text → ℕ → Page → Page
  render s o p =
      if same s p.status && (o == p.offset) then p else ask (record p { status = s; offset = o })

  -- `Math.ceil(total / PAGE_SIZE)` and `Math.floor(offset / PAGE_SIZE) + 1`
  abbrev pub total_pages : Page → ℕ
  total_pages p = (p.total + 19) / 20

  abbrev pub current_page : Page → ℕ
  current_page p = p.offset / 20 + 1

  -- The two buttons are shown when there is more than one page.
  abbrev pub can_go_back : Page → Bool
  can_go_back p = ltb 1 (total_pages p) && not (p.offset == 0)

  abbrev pub can_go_on : Page → Bool
  can_go_on p = ltb 1 (total_pages p) && ltb (current_page p) (total_pages p)

  abbrev pub without : ℕ → List Params → Option (List Params)
  without n [] = none
  without zero (q ∷ qs) = some qs
  without (suc n) (q ∷ qs) = elim (without n qs) [ none ↦ none | some rest ↦ some (q ∷ rest) ]

  abbrev pub take_answer : Result (List Job × ℕ) → Option (List Params) → Page → Option Page
  take_answer r none p = none
  take_answer r (some rest) p = some (receive r (record p { requests = rest }))

  -- `none` where the event cannot happen.
  unfoldable pub step : Page → Event → Option Page
  step p (chose s) = if has s statuses then some (render s 0 p) else none
  step p previous = if can_go_back p then some (render p.status (p.offset - page_size) p) else none
  step p next = if can_go_on p then some (render p.status (p.offset + page_size) p) else none
  step p (select id) = some (record p { selected_job_id = some id })
  step p close = some (record p { selected_job_id = none })
  step p (answered n r) = take_answer r (without n p.requests) p

  -- A sequence of events.
  abbrev pub steps : List Event → Page → Option Page
  steps [] p = some p
  steps (e ∷ es) p = elim (step p e) [ none ↦ none | some q ↦ steps es q ]

  module _ (server : Params → Result (List Job × ℕ)) where
    -- The requests are answered one after the other.
    abbrev settle_all : List Params → Page → Page
    settle_all [] p = p
    settle_all (q ∷ qs) p = settle_all qs (receive (server q) (record p { requests = qs }))

    abbrev pub settle : Page → Page
    settle p = settle_all p.requests p

    -- The jobs that a user sees who waits for the answer and then clicks on Next, while it can be
    -- clicked, `k` times at most.
    abbrev pub click_through : ℕ → Page → List Job
    click_through zero p = p.jobs
    click_through (suc k) p = elim (step p next) [
      | none ↦ p.jobs
      | some q ↦ p.jobs ++ click_through k (settle q)
    ]
