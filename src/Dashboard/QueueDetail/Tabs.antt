-- ===== src/Dashboard/QueueDetail/Tabs.antt =====
-- What the server makes of the tabs: dashboard/src/pages/QueueDetail.tsx, server/src/routes.ts.
use nexus_queue.Prelude.{
  ℕ, ◌≤◌, ◌≡◌, refl, sym, ap, subst, ◌∙◌, Bool, true, false, ◌&&◌, Option, none, some, List, [],
  ◌∷◌, inl, inr, arith,
}
use nexus_queue.Prelude.Tests.{if◌then◌else◌, Bool-cases}
use nexus_queue.Prelude.Texts.{Text, text, same}
use nexus_queue.Prelude.Lists.{length, has}
use nexus_queue.Dashboard.QueueDetail.{statuses, page_params}
use nexus_queue.Prelude.Decimal.{to_string}
use nexus_queue.Prelude.Lists.{All}
use nexus_queue.Prelude.Texts.{same→eq}
use nexus_queue.Prelude.{◌||◌}
use nexus_queue.Dashboard.Api.{jobs_params, param}
use nexus_queue.Dashboard.QueueDetail.{status_param}
use nexus_queue.Server.Reads.{filter_of, by}
use nexus_queue.Shared.Types.{Status, status_text}
use nexus_queue.Services.Reply.{Row}
use nexus_queue.Services.Postgres.{rows_of, status_fits}

-- What a tab is to show: the rows of the queue, under a status only those that have it.
abbrev pub under : Text → Row → Bool
under s r = same s (text "all") || same s (status_text r.status)

abbrev pub rows_under : Text → Text → List Row → List Row
rows_under name s [] = []
rows_under name s (r ∷ rs) =
    let rest = rows_under name s rs in
    if same r.queue_name name && under s r then r ∷ rest else rest

pub rows_of-under :
    (name s : Text) (f : Option Status)
    → ((r : Row) → status_fits f r.status ≡ under s r)
    → (rs : List Row) → rows_of name f rs ≡ rows_under name s rs
rows_of-under name s f h [] = refl
rows_of-under name s f h (r ∷ rs) = rw (h r) (rw (rows_of-under name s f h rs) refl)

pub has-All : (P : Text → Type 0) (xs : List Text) → All P xs → (a : Text) → has a xs ≡ true → P a
has-All P [] ps a h = cc
has-All P (x ∷ xs) (p, ps) a h = elim (Bool-cases (same x a)) [
  | inl eq ↦ subst P (same→eq x a eq) p
  | inr ne ↦ has-All P xs ps a (sym (ap (λ b. if b then true else has a xs) ne) ∙ h)
]

pub rows_under-fits :
    (name s : Text) (rs : List Row) → length (rows_under name s rs) ≤ length (rows_of name none rs)
rows_under-fits name s [] = omega arith
rows_under-fits name s (r ∷ rs) =
    counted (same r.queue_name name) (under s r) r (rows_under name s rs) (rows_of name none rs)
      (rows_under-fits name s rs)
  where
    counted :
        (a c : Bool) (r : Row) (xs ys : List Row)
        → length xs ≤ length ys
        → length (if a && c then r ∷ xs else xs) ≤ length (if a && true then r ∷ ys else ys)
    counted true true r xs ys h = omega arith
    counted true false r xs ys h = omega arith
    counted false c r xs ys h = omega arith

-- What the server makes of the request of a tab.
abbrev pub Read : Text → Type 0
Read s =
    (f : Option Status) × (filter_of (status_param s) ≡ by f)
    × ((o : ℕ) → param (text "status") (page_params s o) ≡ status_param s)
    × ((o : ℕ) → param (text "limit") (page_params s o) ≡ some (to_string 20))
    × ((o : ℕ) → param (text "offset") (page_params s o) ≡ some (to_string o))
    × ((r : Row) → status_fits f r.status ≡ under s r)

pub reads : All Read statuses
unfolding jobs_params
reads = (
  (none, refl, λ o. refl, λ o. refl, λ o. refl, λ r. refl),
  (
    (some Status.pending, refl, λ o. refl, λ o. refl, λ o. refl, λ r. refl),
    (
      (some Status.active, refl, λ o. refl, λ o. refl, λ o. refl, λ r. refl),
      (
        (some Status.completed, refl, λ o. refl, λ o. refl, λ o. refl, λ r. refl),
        (
          (some Status.failed, refl, λ o. refl, λ o. refl, λ o. refl, λ r. refl),
          ((some Status.dlq, refl, λ o. refl, λ o. refl, λ o. refl, λ r. refl), tt),
        ),
      ),
    ),
  ),
)
