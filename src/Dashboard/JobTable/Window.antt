-- ===== src/Dashboard/JobTable/Window.antt =====
-- What the table of events shows after any events.
use nexus_queue.Prelude.{
  ℕ, zero, suc, ◌≤◌, ◌≡◌, ◌≢◌, refl, sym, ap, ◌∙◌, true, false, List, [], ◌∷◌, ◌++◌, map, inl, inr,
  arith,
}
use nexus_queue.Prelude.Tests.{if◌then◌else◌, Bool-cases}
use nexus_queue.Prelude.Texts.{Text, same, same→eq}
use nexus_queue.Prelude.Lists.{take, has, count}
use nexus_queue.Services.Redis.{JobEvent}
use nexus_queue.Dashboard.JobTable.{
  JobTable, on_event, distinct_after, queues, passes, keep, filtered,
}

-- The table after events, in the order in which they come.
abbrev pub on_all : List JobEvent → JobTable → JobTable
on_all [] t = t
on_all (e ∷ es) t = on_all es (on_event e t)

-- The last first.
abbrev pub newest : List JobEvent → List JobEvent
newest [] = []
newest (e ∷ es) = newest es ++ e ∷ []

module _ {ℓ} {A : Type ℓ} where
  take-take : (n m : ℕ) (xs : List A) → n ≤ m → take n (take m xs) ≡ take n xs
  take-take zero m xs h = refl
  take-take (suc n) zero xs h = absurd (omega arith)
  take-take (suc n) (suc m) [] h = refl
  take-take (suc n) (suc m) (x ∷ xs) h = ap (λ ys. x ∷ ys) (take-take n m xs (omega arith))

  take-append-take :
      (n m : ℕ) (xs ys : List A) → n ≤ m → take n (xs ++ take m ys) ≡ take n (xs ++ ys)
  take-append-take n m [] ys h = take-take n m ys h
  take-append-take zero m (x ∷ xs) ys h = refl
  take-append-take (suc n) m (x ∷ xs) ys h =
      ap (λ zs. x ∷ zs) (take-append-take n m xs ys (omega arith))

  append_assoc : (xs ys zs : List A) → (xs ++ ys) ++ zs ≡ xs ++ (ys ++ zs)
  append_assoc [] ys zs = refl
  append_assoc (x ∷ xs) ys zs = ap (λ w. x ∷ w) (append_assoc xs ys zs)

  pub append_nil : (xs : List A) → xs ++ [] ≡ xs
  append_nil [] = refl
  append_nil (x ∷ xs) = ap (λ w. x ∷ w) (append_nil xs)

  take_nil : (n : ℕ) → take {A = A} n [] ≡ []
  take_nil zero = refl
  take_nil (suc n) = refl

pub events-on_all :
    (es : List JobEvent) (t : JobTable)
    → take 100 t.events ≡ t.events
    → (on_all es t).events ≡ take 100 (newest es ++ t.events)
unfolding on_event
events-on_all [] t h = sym h
events-on_all (e ∷ es) t h =
    events-on_all es (on_event e t) (take-take 100 100 (e ∷ t.events) (omega arith))
    ∙ take-append-take 100 100 (newest es) (e ∷ t.events) (omega arith)
    ∙ ap (take 100) (sym (append_assoc (newest es) (e ∷ []) t.events))

has-distinct_after :
    (seen xs : List Text) (a : Text)
    → has a seen ≡ false
    → has a (distinct_after seen xs) ≡ has a xs
has-distinct_after seen [] a h = refl
has-distinct_after seen (x ∷ xs) a h =
    ground (arith, has-distinct_after (x ∷ seen) xs a, same→eq x a)

count-distinct_after :
    (seen xs : List Text) (a : Text)
    → count a (distinct_after seen xs) ≤ (if has a seen then 0 else 1)
count-distinct_after seen [] a = ground arith
count-distinct_after seen (x ∷ xs) a =
    ground (arith, count-distinct_after (x ∷ seen) xs a, same→eq x a)

not_chosen :
    (q : Text) (t : JobTable) (e : JobEvent)
    → t.filter_queue ≡ q
    → t.filter_status ≡ []
    → passes t e ≡ false
    → same e.queue_name q ≡ false
not_chosen q t e f g h = ground arith

-- An event of a queue is kept when the table is filtered by the queue alone.
keep-chosen :
    (q : Text) (t : JobTable) (es : List JobEvent)
    → t.filter_queue ≡ q
    → t.filter_status ≡ []
    → has q (map (λ e. e.queue_name) es) ≡ true
    → keep (passes t) es ≢ []
keep-chosen q t [] f g h = cc
keep-chosen q t (e ∷ es) f g h = elim (Bool-cases (passes t e)) [
  | inl p ↦ rw p (λ n. cc)
  | inr p ↦ rw p (
      keep-chosen q t es f g (
        sym (
          ap (λ b. if b then true else has q (map (λ e. e.queue_name) es)) (not_chosen q t e f g p))
        ∙ h))
]

-- The table after events, with the choice of its filters.
abbrev pub window : List JobEvent → Text → Text → JobTable
window es queue status =
    on_all es (record { events = []; filter_queue = queue; filter_status = status })

-- Whatever events come, with any filters: the table holds the last 100 of them, the newest first; its
-- list of queues offers exactly the queues of these events, each once; and when one that it offers is
-- chosen, and no type of event, the table is not empty.
pub table_shows_latest :
    (es : List JobEvent) (queue status q offered : Text)
    → has offered (queues (window es queue status)) ≡ true
    → let t = window es queue status in
      (t.events ≡ take 100 (newest es))
      × (has q (queues t) ≡ has q (map (λ e. e.queue_name) (take 100 (newest es))))
      × (count q (queues t) ≤ 1)
      × (filtered (record t { filter_queue = offered; filter_status = [] }) ≢ [])
unfolding filtered
table_shows_latest es queue status q offered h =
    let t = window es queue status in
    let names = map (λ e. e.queue_name) t.events in
    let shows =
      events-on_all es (record { events = []; filter_queue = queue; filter_status = status }) refl
      ∙ ap (take 100) (append_nil (newest es)) in
    (
      shows,
      has-distinct_after [] names q refl ∙ ap (λ es. has q (map (λ e. e.queue_name) es)) shows,
      count-distinct_after [] names q,
      keep-chosen offered (record t { filter_queue = offered; filter_status = [] }) t.events refl
          refl (sym (has-distinct_after [] names offered refl) ∙ h),
    )
