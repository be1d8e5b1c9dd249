-- ===== src/Tests/Queues.antt =====
-- The queues and a failing job at concrete inputs.
use nexus_queue.Prelude.{
  ℕ, ◌<◌, ◌≤◌, ◌≡◌, refl, sym, ap, ◌∙◌, true, false, Option, none, some, List, [], ◌∷◌, inl, inr,
  arith,
}
use nexus_queue.Prelude.Tests.{Bool-cases, if◌then◌else◌}
use nexus_queue.Prelude.Texts.{Text, text, same, same→eq, is_empty}
use nexus_queue.Prelude.Decimal.{
  Number, nan, int, to_string, to_number, to_number-to_string, to_string-head,
}
use nexus_queue.Shared.Types.{Priority}
use nexus_queue.Services.Redis.{empty}
use nexus_queue.Program.World.{World, ok, documented, after, calm, state}
use nexus_queue.Fifo.{Operation, submit, pull, fifo, observed}
use nexus_queue.Fifo.Refinement.{queues_are_fifo}
use nexus_queue.Worker.Pulling.{priority_order}
use nexus_queue.Tests.{uuid, plain, worker, world_of, only_boom}
use nexus_queue.Shared.Keys.{keys}
use nexus_queue.Shared.Keys
use nexus_queue.Services.Reply.{Field}
use nexus_queue.Worker.Process.{process_one}
use nexus_queue.Worker.Rounds.{rounds, failing_job_ends}

uuid-given : (k : ℕ) → is_empty (uuid k) ≡ false
uuid-given k = let (c, cs, e, h) = to_string-head k in ap is_empty e

abbrev value : Number → ℕ
value nan = 0
value (int n) = n

uuid-distinct : (j k : ℕ) → j < k → same (uuid j) (uuid k) ≡ false
uuid-distinct j k lt = elim (Bool-cases (same (uuid j) (uuid k))) [
  | inl e ↦ absurd (
      omega (
        arith,
        lt,
        ap value (
            sym (to_number-to_string j)
            ∙ ap to_number (same→eq (uuid j) (uuid k) e)
            ∙ to_number-to_string k),
      ))
  | inr e ↦ e
]

abbrev operations : List (Operation Text)
operations =
    submit (text "email") (text "{}") Priority.normal
    ∷ submit (text "email") (text "{}") Priority.normal
    ∷ submit (text "alert") (text "{}") Priority.high
    ∷ pull
    ∷ pull
    ∷ pull
    ∷ pull
    ∷ []

queues_are_fifo_example :
    observed (documented uuid) plain true operations (world_of empty) worker
    ≡ fifo uuid operations (record { waiting = λ p. []; turn = 0; fresh = 0 })
queues_are_fifo_example =
    queues_are_fifo (documented uuid) plain true operations (world_of empty) worker uuid-given
      uuid-distinct (refl, (refl, (refl, (tt, (tt, (tt, (tt, tt))))))) (λ p. refl) (λ k le. refl)

-- The high job first, then the two normal ones in their order, then nothing.
fifo_answers :
    fifo uuid operations (record { waiting = λ p. []; turn = 0; fresh = 0 })
    ≡ ok (some (text "0"))
      ∷ ok (some (text "1"))
      ∷ ok (some (text "2"))
      ∷ ok (some (text "2"))
      ∷ ok (some (text "0"))
      ∷ ok (some (text "1"))
      ∷ ok none
      ∷ []
unfolding priority_order to_string
fifo_answers = refl

-- Job j before its first attempt of three.
abbrev untried : Field → Option Text
untried Field.job_name = some (text "email")
untried Field.queue_name = some (text "default")
untried Field.attempts = some (text "0")
untried Field.max_attempts = some (text "3")
untried _ = none

abbrev untried_world : World (documented uuid)
untried_world =
    world_of
      (record empty { hashes = λ k f. if same k (Keys.job (text "j")) then untried f else none })

failing_job_ends_example :
    let dead = (state untried_world).lists (Keys.dlq (text "default")) in
    let reached = λ (k : ℕ). state (
      rounds
        (documented uuid)
        plain
        worker
        (text "j")
        (text "email")
        (text "default")
        5000
        k
        untried_world) in
    let last = state (
      after (documented uuid) (process_one plain worker (text "j")) (
        calm (
          rounds
            (documented uuid)
            plain
            worker
            (text "j")
            (text "email")
            (text "default")
            5000
            2
            untried_world))) in
    ((k : ℕ)
      → k ≤ 2
      → ((reached k).hashes (Keys.job (text "j")) Field.attempts ≡ some (to_string k))
        × ((reached k).lists (Keys.dlq (text "default")) ≡ dead))
    × (last.hashes (Keys.job (text "j")) Field.status ≡ some (text "dlq"))
    × (last.hashes (Keys.job (text "j")) Field.attempts ≡ some (to_string 3))
    × (last.lists (Keys.dlq (text "default")) ≡ text "j" ∷ dead)
unfolding keys to_string
failing_job_ends_example =
    failing_job_ends (documented uuid) plain worker (text "j") (text "email") (text "default") 5000
      2 untried_world refl refl refl refl refl refl (only_boom (text "email"))
