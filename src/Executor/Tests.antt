-- ===== src/Executor/Tests.antt =====
-- Runs of the threads of unpark_mutex.rs, and the theorems at them.
use futures_rs.Prelude.{ℕ, ◌≡◌, refl, ◌≢◌, ◌⊎◌, List, [], ◌∷◌, some, true, false, arith}
use futures_rs.Executor.UnparkMutex.{
  Event, call_notify, poll_answers, advance, System, init, step, move, run, run_poll, waiting,
  repoll, run_start,
}
use futures_rs.Executor.UnparkMutex.Exclusive.{owner, is_panicked, task_exclusive}
use futures_rs.Executor.UnparkMutex.Notified.{about, notify_not_lost}

-- Thread 1 notifies while thread 0 polls.
abbrev notified : List Event
notified = call_notify 1 ∷ advance 1 ∷ advance 1 ∷ []

-- The poll answers `Pending`, `wait` finds REPOLL, and the future is polled again; then it waits, and
-- thread 1 notifies again and gets the task.
abbrev again : List Event
again =
    call_notify 1
    ∷ advance 1
    ∷ advance 1
    ∷ poll_answers 0 false
    ∷ advance 0
    ∷ advance 0
    ∷ advance 0
    ∷ advance 0
    ∷ poll_answers 0 false
    ∷ advance 0
    ∷ advance 0
    ∷ call_notify 1
    ∷ advance 1
    ∷ advance 1
    ∷ advance 1
    ∷ []

abbrev after : List Event → System ℕ
after = run (init 5)

notified_status : (after notified).mutex.status ≡ 2
unfolding run step move
notified_status = refl

again_runs : (after again).pc 1 ≡ run_start 5
unfolding run step move
again_runs = refl

abbrev one : ℕ
one = 1

abbrev task : ℕ
task = 5

task_exclusive_example :
    (owner ((after again).pc 1) ≡ true → owner ((after again).pc 0) ≡ true → one ≡ 0)
    × ((after again).pc 1 ≡ run_poll 5 → task ≡ 5)
    × ((after again).mutex.status ≡ waiting → (after again).mutex.inner ≡ some 5)
    × (is_panicked ((after again).pc 1) ≡ false)
task_exclusive_example = task_exclusive 5 again one 0 task

notified_due : (after notified).due ≡ true
unfolding run step move
notified_due = refl

notified_open : (after notified).mutex.status ≢ 3
unfolding run step move
notified_open h = absurd (ground arith)

notify_not_lost_example :
    (i : ℕ) × (owner ((after notified).pc i) ≡ true)
    × (((after notified).mutex.status ≡ repoll) ⊎ (about ((after notified).pc i) ≡ true))
notify_not_lost_example = notify_not_lost 5 notified notified_due notified_open
