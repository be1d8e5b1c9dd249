-- ===== src/Dashboard/QueueDetail/Buttons.antt =====
-- What the buttons of the page do to its offset, and what a late answer does.
use nexus_queue.Prelude.{
  ℕ, suc, ◌+◌, ◌*◌, ◌-◌, ◌≤◌, ◌<◌, ◌≡◌, refl, sym, ap, ◌∙◌, Bool, true, false, Option, none, some,
  List, [], ◌∷◌, arith,
}
use nexus_queue.Prelude.Tests.{if◌then◌else◌, or_else}
use nexus_queue.Prelude.Texts.{Text, same}
use nexus_queue.Prelude.Lists.{has}
use nexus_queue.Program.World.{Result, ok, err}
use nexus_queue.Dashboard.Api.{Params}
use nexus_queue.Dashboard.QueueDetail.{
  statuses, Page, receive, Event, chose, previous, next, close, select, answered, first_render,
  render, take_answer, without, can_go_back, can_go_on, step, steps,
}

module _ (Job : Type 0) where
  -- The pages after any events, in any order, with any answers.
  pub data Reach : Page Job → Type 0 where
    opened : Reach (first_render Job)
    after : {p q : Page Job} (e : Event Job) → Reach p → step Job p e ≡ some q → Reach q

  abbrev pub OnPage : Page Job → Type 0
  OnPage p = (m : ℕ) × (p.offset ≡ m * 20)

  offset-render : (s : Text) (o : ℕ) (p : Page Job) → (render Job s o p).offset ≡ o
  offset-render s o p = ground arith

  offset-receive : (r : Result (List Job × ℕ)) (p : Page Job) → (receive Job r p).offset ≡ p.offset
  offset-receive (ok (js, n)) p = refl
  offset-receive (err e) p = refl

  offset_of_some : (x q : Page Job) → some x ≡ some q → q.offset ≡ x.offset
  offset_of_some x q h = sym (ap (λ o. (or_else o x).offset) h)

  -- A guarded render.
  offset-when :
      (c : Bool) (s : Text) (o : ℕ) (p q : Page Job)
      → (if c then some (render Job s o p) else none) ≡ some q
      → (c ≡ true) × (q.offset ≡ o)
  offset-when true s o p q h = (refl, offset_of_some (render Job s o p) q h ∙ offset-render s o p)
  offset-when false s o p q h = cc

  offset-answer :
      (r : Result (List Job × ℕ)) (rest : Option (List Params)) (p q : Page Job)
      → take_answer Job r rest p ≡ some q
      → q.offset ≡ p.offset
  offset-answer r none p q h = cc
  offset-answer r (some qs) p q h =
      offset_of_some _ q h ∙ offset-receive r (record p { requests = qs })

  step-OnPage : (p q : Page Job) (e : Event Job) → OnPage p → step Job p e ≡ some q → OnPage q
  unfolding step
  step-OnPage p q (chose s) k h = (0, (offset-when (has s statuses) s 0 p q h).1)
  step-OnPage p q previous (m, e) h =
      (m - 1, omega (arith, (offset-when (can_go_back Job p) p.status (p.offset - 20) p q h).1))
  step-OnPage p q next (m, e) h =
      (suc m, omega (arith, (offset-when (can_go_on Job p) p.status (p.offset + 20) p q h).1))
  step-OnPage p q (select id) (m, e) h = (m, offset_of_some _ q h ∙ e)
  step-OnPage p q close (m, e) h = (m, offset_of_some _ q h ∙ e)
  step-OnPage p q (answered n r) (m, e) h =
      (m, offset-answer r (without Job n p.requests) p q h ∙ e)

  Reach-OnPage : {p : Page Job} → Reach p → OnPage p
  Reach-OnPage opened = (0, refl)
  Reach-OnPage {p} (after {p = l} e r h) = step-OnPage l p e (Reach-OnPage r) h

  below_total :
      (p : Page Job) (m : ℕ) → p.offset ≡ m * 20 → can_go_on Job p ≡ true → p.offset + 20 < p.total
  below_total p m e h = ground arith

  not_first : (p : Page Job) (m : ℕ) → p.offset ≡ m * 20 → can_go_back Job p ≡ true → 20 ≤ p.offset
  not_first p m e h = ground arith

  one_page : (p : Page Job) → p.total ≤ 20 → (can_go_on Job p ≡ false) × (can_go_back Job p ≡ false)
  one_page p h = (ground arith, ground arith)

module _ (Job : Type 0) (p q : Page Job) (m : ℕ) where
  next_below :
      p.offset ≡ m * 20
      → step Job p next ≡ some q
      → (q.offset ≡ p.offset + 20) × (q.offset < p.total)
  unfolding step
  next_below e h =
      let (on, o) = offset-when Job (can_go_on Job p) p.status (p.offset + 20) p q h in
      (o, omega (arith, below_total Job p m e on))

  previous_above : p.offset ≡ m * 20 → step Job p previous ≡ some q → q.offset + 20 ≡ p.offset
  unfolding step
  previous_above e h =
      let (back, o) = offset-when Job (can_go_back Job p) p.status (p.offset - 20) p q h in
      omega (arith, not_first Job p m e back)

-- What holds of the page after an event, if it can happen.
abbrev pub Goes : {Job : Type 0} → (Page Job → Type 0) → Option (Page Job) → Type 0
Goes P none = Unit
Goes P (some q) = P q

Goes-some :
    {Job : Type 0} (P : Page Job → Type 0) (o : Option (Page Job))
    → ((q : Page Job) → o ≡ some q → P q)
    → Goes P o
Goes-some P none h = tt
Goes-some P (some q) h = h q refl

-- Whatever the user does, and whatever the server answers in whatever order: the offset of the page
-- is a multiple of 20; a click on Next adds 20 and stays below the total shown, and a click on
-- Previous takes 20 away. On any page with a total of 20 or less, whatever its offset is,
-- neither can be clicked.
pub buttons_keep_pages :
    (Job : Type 0) {p : Page Job} (short : Page Job)
    → Reach Job p
    → short.total ≤ 20
    → OnPage Job p
      × Goes (λ q. (q.offset ≡ p.offset + 20) × (q.offset < p.total)) (step Job p next)
      × Goes (λ q. q.offset + 20 ≡ p.offset) (step Job p previous)
      × (step Job short next ≡ none)
      × (step Job short previous ≡ none)
unfolding step
buttons_keep_pages Job {p} short r few =
    let (m, e) = Reach-OnPage Job r in
    let (on, back) = one_page Job short few in
    (
      (m, e),
      Goes-some (λ q. (q.offset ≡ p.offset + 20) × (q.offset < p.total)) (step Job p next)
          (λ q h. next_below Job p q m e h),
      Goes-some (λ q. q.offset + 20 ≡ p.offset) (step Job p previous)
          (λ q h. previous_above Job p q m e h),
      rw on refl,
      rw back refl,
    )

-- A late answer misleads: on a page that waits for nothing, choose one tab and then another, each
-- unlike the tab before it, and let the answers come in the wrong order. Then the page stands at the
-- second tab, waits for nothing, and shows the jobs and the total of the first.
pub late_answer_misleads :
    (Job : Type 0) (p : Page Job) (s t : Text) (js ks : List Job) (m n : ℕ)
    → has s statuses ≡ true
    → has t statuses ≡ true
    → same s p.status ≡ false
    → same t s ≡ false
    → p.requests ≡ []
    → steps Job (chose s ∷ chose t ∷ answered 1 (ok (ks, n)) ∷ answered 0 (ok (js, m)) ∷ []) p
      ≡ some (record p { jobs = js; total = m; status = t; offset = 0; requests = [] })
unfolding step
late_answer_misleads Job p s t js ks m n hs ht ns nt idle =
    rw hs (rw ns (rw idle (rw ht (rw nt refl))))
