-- ===== src/AtomicWaker.antt =====
-- futures-core/src/task/__internal/atomic_waker.rs: the cell that holds the waker of one task,
-- written by `register` and emptied by `wake` and `take`, guarded by the bits of `state`.
-- Here each call runs with no other thread in between; the children interleave the threads.
pub mod Threads
mod Tests
use futures_rs.Prelude.{
  ℕ, ◌+◌, ◌/◌, ◌%◌, List, [], ◌∷◌, Option, none, some, Bool, ◌==◌, if◌then◌else◌,
}

-- `core::task::Waker`, as the number of the task that it wakes.
abbrev pub Waker : Type 0
Waker = ℕ

-- Two wakers that wake the same task.
abbrev pub will_wake : Waker → Waker → Bool
will_wake a b = a == b

abbrev pub waiting : ℕ
waiting = 0

abbrev pub registering : ℕ
registering = 1

abbrev pub waking : ℕ
waking = 2

pub record AtomicWaker : Type 0 where
  pub state : ℕ
  pub waker : Option Waker

abbrev pub new : AtomicWaker
new = record { state = waiting; waker = none }

-- `state.fetch_or(WAKING)`, the word that it leaves.
abbrev pub or_waking : ℕ → ℕ
or_waking s = if s / 2 % 2 == 1 then s else s + 2

-- What `register` leaves in the cell: an equal waker that stands there stays.
unfoldable pub store : Option Waker → Waker → Option Waker
store none w = some w
store (some old) w = if will_wake old w then some old else some w

-- The cell after a call, and the wakers that the call woke.
abbrev pub Called : Type 0
Called = AtomicWaker × List Waker

-- The second `compare_exchange` of `register` cannot fail when no other thread runs.
unfoldable pub register : AtomicWaker → Waker → Called
unfolding store
register c w =
    if c.state == waiting
    then (record { state = waiting; waker = store c.waker w }, [])
    else if c.state == waking
    then (c, w ∷ [])
    else (c, [])

unfoldable pub take : AtomicWaker → AtomicWaker × Option Waker
take c =
    if c.state == waiting
    then (record { state = waiting; waker = none }, c.waker)
    else (record c { state = or_waking c.state }, none)

-- `waker.wake()`, if there is one.
abbrev pub wakes : Option Waker → List Waker
wakes none = []
wakes (some w) = w ∷ []

unfoldable pub wake : AtomicWaker → Called
unfolding take
wake c = let (c', w) = take c in (c', wakes w)
