-- ===== src/Dashboard/ThroughputChart/Counting.antt =====
-- What the chart counts.
use nexus_queue.Prelude.{ℕ, zero, suc, ◌+◌, ◌-◌, ◌≤◌, ◌<◌, ◌≡◌, ap, ◌∙◌, List, [], ◌∷◌, ◌++◌, arith}
use nexus_queue.Prelude.Tests.{if◌then◌else◌}
use nexus_queue.Prelude.Texts.{Text, text, same}
use nexus_queue.Prelude.Lists.{length, drop, length-append}
use nexus_queue.Dashboard.ThroughputChart.{
  Chart, initial, Signal, event, tick, last_n, react, react_all,
}

abbrev pub total : List ℕ → ℕ
total [] = 0
total (n ∷ ns) = n + total ns

-- How many jobs were completed, and how many seconds have passed.
abbrev pub completions : List Signal → ℕ
completions [] = 0
completions (event type ∷ ss) =
    let rest = completions ss in if same type (text "job.completed") then suc rest else rest
completions (tick ∷ ss) = completions ss

abbrev pub seconds : List Signal → ℕ
seconds [] = 0
seconds (event type ∷ ss) = seconds ss
seconds (tick ∷ ss) = suc (seconds ss)

total-append : (xs ys : List ℕ) → total (xs ++ ys) ≡ total xs + total ys
total-append [] ys = omega arith
total-append (x ∷ xs) ys = omega (arith, total-append xs ys)

length-drop : (n : ℕ) (xs : List ℕ) → length (drop n xs) ≡ length xs - n
length-drop zero xs = omega arith
length-drop (suc n) [] = omega arith
length-drop (suc n) (x ∷ xs) = omega (arith, length-drop n xs)

total-drop : (n : ℕ) (xs : List ℕ) → total (drop n xs) ≤ total xs
total-drop zero xs = omega arith
total-drop (suc n) [] = omega arith
total-drop (suc n) (x ∷ xs) = omega (arith, total-drop n xs)

last_all : (n : ℕ) (xs : List ℕ) → length xs ≤ n → last_n n xs ≡ xs
last_all n xs h = ap (λ k. drop k xs) {y = 0} (omega arith)

-- What a chart holds.
abbrev held : Chart → ℕ
held c = total c.data_points + c.counter

length-tick : (c : Chart) → length (react c tick).data_points ≤ length c.data_points + 1
unfolding react
length-tick c = omega (
  arith,
  length-drop (length (c.data_points ++ c.counter ∷ []) - 300) (c.data_points ++ c.counter ∷ []),
  length-append c.data_points (c.counter ∷ []),
)

tick-Short : (c : Chart) → length (react c tick).data_points ≤ 300
unfolding react
tick-Short c = omega (
  arith,
  length-drop (length (c.data_points ++ c.counter ∷ []) - 300) (c.data_points ++ c.counter ∷ []),
)

held-tick : (c : Chart) → length c.data_points < 300 → held (react c tick) ≡ held c
unfolding react
held-tick c h =
    ap (λ xs. total xs + 0)
      (last_all 300 (c.data_points ++ c.counter ∷ [])
        (omega (arith, length-append c.data_points (c.counter ∷ []))))
    ∙ omega (arith, total-append c.data_points (c.counter ∷ []))

held-event :
    (type : Text) (c : Chart) (n : ℕ)
    → held (react c (event type)) + n
      ≡ held c + (if same type (text "job.completed") then suc n else n)
unfolding react
held-event type c n = ground arith

length-event :
    (type : Text) (c : Chart) → length (react c (event type)).data_points ≡ length c.data_points
unfolding react
length-event type c = ground arith

react_all-held :
    (ss : List Signal) (c : Chart)
    → length c.data_points + seconds ss ≤ 300
    → held (react_all ss c) ≡ held c + completions ss
react_all-held [] c h = omega arith
react_all-held (event type ∷ ss) c h =
    react_all-held ss (react c (event type)) (omega (arith, length-event type c))
    ∙ held-event type c (completions ss)
react_all-held (tick ∷ ss) c h =
    react_all-held ss (react c tick) (omega (arith, length-tick c))
    ∙ ap (λ n. n + completions ss) (held-tick c (omega arith))

react_all-Short :
    (ss : List Signal) (c : Chart)
    → length c.data_points ≤ 300
    → length (react_all ss c).data_points ≤ 300
react_all-Short [] c h = h
react_all-Short (event type ∷ ss) c h =
    react_all-Short ss (react c (event type)) (omega (arith, length-event type c))
react_all-Short (tick ∷ ss) c h = react_all-Short ss (react c tick) (tick-Short c)

-- Whatever events come and whenever the seconds end, the chart has at most 300 points; and up to 300
-- seconds after it was opened, its points and its counter together count each completed job
-- exactly once.
pub chart_counts :
    (ss ts : List Signal)
    → seconds ts ≤ 300
    → (length (react_all ss initial).data_points ≤ 300)
      × (total (react_all ts initial).data_points + (react_all ts initial).counter ≡ completions ts)
chart_counts ss ts h = (
  react_all-Short ss initial (omega arith),
  react_all-held ts initial (omega arith) ∙ omega arith,
)
