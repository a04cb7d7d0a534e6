-- ===== src/Lock/Tests.antt =====
-- Runs of the handles of bilock.rs, and the theorems at them.
use futures_rs.Prelude.{ℕ, ◌≡◌, refl, List, [], ◌∷◌, some, true, false, ◌&&◌, ◌||◌}
use futures_rs.Lock.BiLock.{
  Event, call_poll_lock, advance, new, step, move, run, null, boxed, pended, guarded, idle,
}
use futures_rs.Lock.BiLock.Exclusive.{owner, is_panicked, Owed, guard_exclusive, waiter-Owed}

-- The first handle has the guard, the second one waits; then the guard is dropped.
abbrev contended : List Event
contended =
    call_poll_lock true 4
    ∷ advance true
    ∷ call_poll_lock false 6
    ∷ advance false
    ∷ advance false
    ∷ []

abbrev released : List Event
released =
    call_poll_lock true 4
    ∷ advance true
    ∷ call_poll_lock false 6
    ∷ advance false
    ∷ advance false
    ∷ advance true
    ∷ []

contended_runs : run new contended ≡ record { state = boxed 6; pc1 = guarded; pc2 = pended 6 false }
unfolding run step move
contended_runs = refl

released_runs : run new released ≡ record { state = null; pc1 = idle; pc2 = pended 6 true }
unfolding run step move
released_runs = refl

guard_exclusive_example :
    (owner (run new contended).pc1 && owner (run new contended).pc2 ≡ false)
    × ((run new contended).state ≡ null
        → owner (run new contended).pc1 || owner (run new contended).pc2 ≡ false)
    × (owner (run new contended).pc1 || owner (run new contended).pc2 ≡ false
        → (run new contended).state ≡ null)
    × (is_panicked (run new contended).pc1 || is_panicked (run new contended).pc2 ≡ false)
guard_exclusive_example = guard_exclusive contended

waiter-Owed_example :
    Owed (run new contended).state (run new contended).pc1 (run new contended).pc2
    × Owed (run new contended).state (run new contended).pc2 (run new contended).pc1
    × ((w : ℕ) → (move (boxed w) guarded).woke ≡ some w)
waiter-Owed_example = waiter-Owed contended
