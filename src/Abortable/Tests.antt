-- ===== src/Abortable/Tests.antt =====
-- Runs of a task that is aborted, and the theorem at one.
use futures_rs.Prelude.{◌≡◌, ◌≢◌, ◌⊎◌, refl, List, [], ◌∷◌, ◌++◌, true, false}
use futures_rs.AtomicWaker.{register, wake, take, store}
use futures_rs.Abortable.{
  was_aborted, poll_check, pended, new_pair, Event, call_poll, task_answers, advance, begin_abort,
  end_abort, step, run, try_poll, abort_wake,
}
use futures_rs.Abortable.Woken.{abort_reaches}

-- The task waits, and a handle has stored the flag.
abbrev waits : List Event
waits = call_poll 7 ∷ advance ∷ task_answers false ∷ advance ∷ advance ∷ begin_abort ∷ []

-- The handle wakes it, and it is polled again.
abbrev again : List Event
again = end_abort ∷ call_poll 7 ∷ []

waits_runs : (run new_pair waits).pc ≡ pended 7 false
unfolding run step try_poll register store
waits_runs = refl

again_runs : (run (run new_pair waits) (again ++ advance ∷ [])).pc ≡ was_aborted
unfolding run step try_poll register store abort_wake wake take
again_runs = refl

abort_reaches_example :
    ((run new_pair waits).pc ≡ pended 7 false
      → ((run new_pair waits).aborted ≡ false)
        ⊎ (((run new_pair waits).aborting ≢ 0)
            × ((step (run new_pair waits) end_abort).pc ≡ pended 7 true)))
    × ((run new_pair waits).aborted ≡ true
        → (run (run new_pair waits) again).pc ≡ poll_check 7
        → (step (run (run new_pair waits) again) advance).pc ≡ was_aborted)
abort_reaches_example = abort_reaches waits again 7
