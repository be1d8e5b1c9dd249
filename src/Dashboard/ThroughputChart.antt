-- ===== src/Dashboard/ThroughputChart.antt =====
-- dashboard/src/components/ThroughputChart.tsx: the jobs completed in each of the last 300 seconds.
-- The times of the points are left out.
pub mod Counting
use nexus_queue.Prelude.{ℕ, zero, suc, ◌+◌, ◌-◌, List, [], ◌∷◌, ◌++◌}
use nexus_queue.Prelude.Tests.{if◌then◌else◌}
use nexus_queue.Prelude.Texts.{Text, text, same}
use nexus_queue.Prelude.Lists.{length, drop}

pub record Chart : Type 0 where
  pub data_points : List ℕ
  pub counter : ℕ

abbrev pub initial : Chart
initial = record { data_points = []; counter = 0 }

-- An event with its type, or a tick of the interval.
pub data Signal : Type 0 where
  event : Text → Signal
  tick : Signal

-- `slice(-n)`
abbrev pub last_n : ℕ → List ℕ → List ℕ
last_n n xs = drop (length xs - n) xs

unfoldable pub react : Chart → Signal → Chart
react c (event type) =
    if same type (text "job.completed") then record c { counter = c.counter + 1 } else c
react c tick = record c { data_points = last_n 300 (c.data_points ++ c.counter ∷ []); counter = 0 }

abbrev pub react_all : List Signal → Chart → Chart
react_all [] c = c
react_all (s ∷ ss) c = react_all ss (react c s)
