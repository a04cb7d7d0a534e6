-- ===== src/AtomicWaker/Tests.antt =====
-- Runs of the threads of atomic_waker.rs, and the theorems at them.
use futures_rs.Prelude.{ℕ, ◌<◌, ◌≤◌, ◌≡◌, refl, ◌≢◌, ◌⊎◌, inr, List, [], ◌∷◌, ◌++◌, true}
use futures_rs.AtomicWaker.{Waker, new, waiting, register, wake}
use futures_rs.AtomicWaker.Threads.{System}
use futures_rs.Prelude.{some}
use futures_rs.AtomicWaker.Threads.{
  panicked, reg_write, init, Event, call_register, call_wake, advance, step, run,
}
use futures_rs.AtomicWaker.Threads.Ownership.{owner, exclusive_access}
use futures_rs.AtomicWaker.Threads.Delivery.{turns, times, wake_not_lost}
use futures_rs.AtomicWaker.Threads.Alone.{Made, three, register-wake}

-- Thread 0 has begun to register waker 7, and thread 1 is about to call `wake`.
abbrev racing : List Event
racing = call_register 0 7 ∷ advance 0 ∷ call_wake 1 ∷ []

abbrev finishing : List Event
finishing = advance 0 ∷ advance 0 ∷ advance 1 ∷ advance 0 ∷ advance 0 ∷ advance 0 ∷ []

-- `register` itself wakes the waker that `wake` could not take.
racing_wakes : (run init (racing ++ advance 1 ∷ finishing)).woken ≡ 7 ∷ []
unfolding run step
racing_wakes = refl

exclusive_access_example :
    ((i : ℕ) → (run init racing).pc i ≢ panicked)
    × ((i j : ℕ)
        → owner ((run init racing).pc i) ≡ true
        → owner ((run init racing).pc j) ≡ true
        → i ≡ j)
exclusive_access_example = exclusive_access racing

wake_not_lost_example :
    (j : ℕ) × (v : Waker) × ((v ≡ 7) ⊎ ((run init racing).pc j ≡ reg_write v))
    × ((later : List Event)
        → 5 ≤ turns j later
        → times v (run init racing).woken
          < times v (run (step (run init racing) (advance 1)) later).woken)
unfolding run step
wake_not_lost_example = wake_not_lost racing 1 7 refl (inr (0, refl))

-- Alone, a `register` and a `wake` hand over the waker.
register_then_wake : wake (register new 4).0 ≡ (new, 4 ∷ [])
unfolding register wake
register_then_wake = refl

-- Another waker stands in the cell.
abbrev with_other : System
with_other = record init { cell = record { state = waiting; waker = some 4 } }

register-wake_example :
    Made
      (run with_other (call_register 2 9 ∷ three 2))
      2
      (record { state = waiting; waker = some 9 })
      []
    × Made
        (run (run with_other (call_register 2 9 ∷ three 2)) (call_wake 2 ∷ advance 2 ∷ three 2))
        2
        new
        (9 ∷ [])
register-wake_example = register-wake with_other 2 9 refl refl
