-- ===== src/AtomicWaker/Threads.antt =====
-- The threads of atomic_waker.rs: any number of them call `register` and `wake` on one cell, and
-- each access to `state` or to the cell is a step of its own. Memory is sequentially consistent.
pub mod Ownership
pub mod Delivery
pub mod Alone
use futures_rs.Prelude.{
  ℕ, List, [], ◌∷◌, ◌++◌, Option, none, some, Bool, true, false, ◌==◌, ◌||◌, if◌then◌else◌, update,
}
use futures_rs.AtomicWaker.{
  Waker, AtomicWaker, new, waiting, registering, waking, or_waking, store, wakes,
}

-- Where a thread stands, with its live locals. `panicked` is a failed assertion or `unwrap`.
pub data Pc : Type 0 where
  idle panicked : Pc
  reg_begin : (w : Waker) → Pc  -- before the first compare_exchange
  reg_write : (w : Waker) → Pc  -- holds the cell, before it is written
  reg_commit : (w : Waker) → Pc  -- before the second compare_exchange
  reg_take : Pc  -- that failed: before `take().unwrap()`
  reg_release : (w : Waker) → Pc  -- before `swap(WAITING)`
  reg_wake : (w : Waker) → Pc  -- before `waker.wake()` or `waker.wake_by_ref()`
  wake_begin : Pc  -- before `fetch_or(WAKING)`
  wake_take : Pc  -- holds the cell, before it is emptied
  wake_release : (o : Option Waker) → Pc  -- before `swap(WAITING)`
  wake_call : (o : Option Waker) → Pc  -- before `waker.wake()`, if any

-- What one step of a thread leaves: the cell, where the thread stands, whom it woke.
pub record Moved : Type 0 where
  pub cell : AtomicWaker
  pub next : Pc
  pub woke : List Waker

abbrev moves : AtomicWaker → Pc → Moved
moves c p = record { cell = c; next = p; woke = [] }

abbrev with_state : AtomicWaker → ℕ → AtomicWaker
with_state c s = record c { state = s }

unfoldable pub move : AtomicWaker → Pc → Moved
unfolding store
move c idle = moves c idle
move c panicked = moves c panicked
move c (reg_begin w) =
    if c.state == waiting
    then moves (with_state c registering) (reg_write w)
    else if c.state == waking
    then moves c (reg_wake w)
    else if c.state == registering || c.state == 3
    then moves c idle
    else moves c panicked
move c (reg_write w) = moves (record c { waker = store c.waker w }) (reg_commit w)
move c (reg_commit w) =
    if c.state == registering
    then moves (with_state c waiting) idle
    else if c.state == 3
    then moves c reg_take
    else moves c panicked
move c reg_take = elim c.waker [
  | some w ↦ moves (record c { waker = none }) (reg_release w)
  | none ↦ moves c panicked
]
move c (reg_release w) = moves (with_state c waiting) (reg_wake w)
move c (reg_wake w) = record { cell = c; next = idle; woke = w ∷ [] }
move c wake_begin =
    if c.state == waiting
    then moves (with_state c (or_waking c.state)) wake_take
    else if c.state == registering || c.state == 3 || c.state == waking
    then moves (with_state c (or_waking c.state)) (wake_call none)
    else moves (with_state c (or_waking c.state)) panicked
move c wake_take = moves (record c { waker = none }) (wake_release c.waker)
move c (wake_release o) =
    if c.state == waking
    then moves (with_state c waiting) (wake_call o)
    else moves (with_state c waiting) panicked
move c (wake_call o) = record { cell = c; next = idle; woke = wakes o }

pub record System : Type 0 where
  pub cell : AtomicWaker
  pub pc : ℕ → Pc
  pub woken : List Waker  -- newest first

abbrev pub init : System
init = record { cell = new; pc = λ _. idle; woken = [] }

-- An idle thread calls `register` or `wake`, or thread `i` makes its next step.
pub data Event : Type 0 where
  call_register : (i : ℕ) (w : Waker) → Event
  call_wake : (i : ℕ) → Event
  advance : (i : ℕ) → Event

abbrev pub start : Pc → Pc → Pc
start idle p = p
start q p = q

unfoldable pub step : System → Event → System
unfolding move
step s (call_register i w) = record s { pc = update s.pc i (start (s.pc i) (reg_begin w)) }
step s (call_wake i) = record s { pc = update s.pc i (start (s.pc i) wake_begin) }
step s (advance i) =
    let m = move s.cell (s.pc i) in
    record { cell = m.cell; pc = update s.pc i m.next; woken = m.woke ++ s.woken }

unfoldable pub run : System → List Event → System
run s [] = s
run s (e ∷ es) = run (step s e) es
