-- ===== src/Lock/BiLock.antt =====
-- futures-util/src/lock/bilock.rs. The two handles move in any order, and each access to `state` is
-- a step of its own. Memory is sequentially consistent. A handle polls when it has no guard.
pub mod Exclusive
use futures_rs.Prelude.{ℕ, List, [], ◌∷◌, Option, none, some, Bool, true, false, ◌==◌, ◌||◌}

-- What the pointer in `state` is: null, the address 1, or a box with a waker.
pub data Word : Type 0 where
  null one : Word
  boxed : (w : ℕ) → Word

-- Where a handle stands, with its live locals. `panicked` is a failed match or assertion.
pub data Pc : Type 0 where
  idle panicked : Pc
  poll_swap : (w : ℕ) → Pc  -- `poll_lock` with the task's waker, before `swap`
  poll_exchange : (w : ℕ) → Pc  -- the lock was held: before `compare_exchange`
  pended : (w : ℕ) (woken : Bool) → Pc  -- the answer was `Pending`; whether `w` was woken since
  guarded : Pc  -- the answer was `Ready`, and the guard is alive

-- What one step of a handle leaves: the word, where the handle stands, whom it woke.
pub record Moved : Type 0 where
  pub state : Word
  pub next : Pc
  pub woke : Option ℕ

abbrev pub moves : Word → Pc → Moved
moves s p = record { state = s; next = p; woke = none }

-- `swap(1)`: a box that is found is used again, with the task's waker.
abbrev pub swap : ℕ → Word → Moved
swap w null = moves one guarded
swap w one = moves one (poll_exchange w)
swap w (boxed v) = moves one (poll_exchange w)

-- `compare_exchange(1, me)`
abbrev pub exchange : ℕ → Word → Moved
exchange w one = moves (boxed w) (pended w false)
exchange w null = moves null (poll_swap w)
exchange w (boxed v) = moves (boxed v) panicked

abbrev pub unlock : Word → Moved
unlock null = moves null panicked
unlock one = moves null idle
unlock (boxed v) = record { state = null; next = idle; woke = some v }

-- The next step of a handle; one with a guard drops it.
unfoldable pub move : Word → Pc → Moved
move s idle = moves s idle
move s panicked = moves s panicked
move s (poll_swap w) = swap w s
move s (poll_exchange w) = exchange w s
move s (pended w b) = moves s (pended w b)
move s guarded = unlock s

abbrev pub start : ℕ → Pc → Pc
start w idle = poll_swap w
start w (pended v b) = poll_swap w
start w p = p

-- The other handle's task is woken.
abbrev pub tell : Option ℕ → Pc → Pc
tell (some v) (pended w b) = pended w (b || v == w)
tell o p = p

pub record System : Type 0 where
  pub state : Word
  pub pc1 : Pc
  pub pc2 : Pc

abbrev pub new : System
new = record { state = null; pc1 = idle; pc2 = idle }

-- A handle calls `poll_lock` with a waker, or makes its next step. The flag says which handle.
pub data Event : Type 0 where
  call_poll_lock : (first : Bool) (w : ℕ) → Event
  advance : (first : Bool) → Event

unfoldable pub step : System → Event → System
step s (call_poll_lock true w) = record s { pc1 = start w s.pc1 }
step s (call_poll_lock false w) = record s { pc2 = start w s.pc2 }
step s (advance true) =
    let m = move s.state s.pc1 in record { state = m.state; pc1 = m.next; pc2 = tell m.woke s.pc2 }
step s (advance false) =
    let m = move s.state s.pc2 in record { state = m.state; pc1 = tell m.woke s.pc1; pc2 = m.next }

unfoldable pub run : System → List Event → System
run s [] = s
run s (e ∷ es) = run (step s e) es
