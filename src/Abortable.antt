-- ===== src/Abortable.antt =====
-- futures-util/src/abortable.rs: a task and the handles that abort it, which share a flag and an
-- `AtomicWaker`. The task and the handles move in any order; an access of the flag, a call of the
-- `AtomicWaker` and a poll of the inner task are a step each.
mod Tests
pub mod Woken
use futures_rs.Prelude.{ℕ, ◌+◌, ◌-◌, List, [], ◌∷◌, Bool, true, false, ◌==◌, ◌||◌, if◌then◌else◌}
use futures_rs.AtomicWaker.{AtomicWaker, Waker, register, wake}
use futures_rs.AtomicWaker

-- Where the task stands. `finished` and `was_aborted` are the answers `Ok` and `Err(Aborted)`.
pub data Pc : Type 0 where
  idle finished was_aborted : Pc
  poll_check : (w : Waker) → Pc  -- before the first `is_aborted`
  poll_task : (w : Waker) → Pc  -- polls the inner task
  poll_register : (w : Waker) → Pc  -- that answered `Pending`: before `register`
  poll_recheck : (w : Waker) → Pc  -- before the second `is_aborted`
  pended : (w : Waker) (woken : Bool) → Pc  -- the answer was `Pending`; whether `w` was woken since

-- `AbortInner`, where the task stands, and the number of handles between the store and the `wake` of
-- `abort`.
pub record System : Type 0 where
  pub waker : AtomicWaker
  pub aborted : Bool
  pub pc : Pc
  pub aborting : ℕ

abbrev pub new_pair : System
new_pair = record { waker = AtomicWaker.new; aborted = false; pc = idle; aborting = 0 }

abbrev pub start : Waker → Pc → Pc
start w idle = poll_check w
start w (pended v b) = poll_check w
start w p = p

abbrev pub answer : Bool → Pc → Pc
answer is_ready (poll_task w) = if is_ready then finished else poll_register w
answer is_ready p = p

-- The wakers that a call of `wake` woke.
abbrev pub tell : List Waker → Pc → Pc
tell (v ∷ ws) (pended w b) = tell ws (pended w (b || v == w))
tell ws p = p

-- The next step of `try_poll`.
unfoldable pub try_poll : System → System
unfolding register
try_poll s = elim s.pc [
  | idle ↦ s
  | finished ↦ s
  | was_aborted ↦ s
  | poll_check w ↦ record s { pc = if s.aborted then was_aborted else poll_task w }
  | poll_task w ↦ s
  | poll_register w ↦
      let (c, woken) = register s.waker w in record s { waker = c; pc = poll_recheck w }
  | poll_recheck w ↦ record s { pc = if s.aborted then was_aborted else pended w false }
  | pended w b ↦ s
]

-- The store of `abort`.
abbrev pub abort_store : System → System
abort_store s = record s { aborted = true; aborting = s.aborting + 1 }

-- The `wake` of `abort`.
unfoldable pub abort_wake : System → System
unfolding wake
abort_wake s =
    let (c, woken) = wake s.waker in
    record s { waker = c; pc = tell woken s.pc; aborting = s.aborting - 1 }

-- The task is polled with a waker, the inner task answers, or `try_poll` makes its next step; a handle
-- begins `abort`, or one that has begun ends it.
pub data Event : Type 0 where
  call_poll : (w : Waker) → Event
  task_answers : (is_ready : Bool) → Event
  advance begin_abort end_abort : Event

unfoldable pub step : System → Event → System
unfolding try_poll abort_wake
step s (call_poll w) = record s { pc = start w s.pc }
step s (task_answers r) = record s { pc = answer r s.pc }
step s advance = try_poll s
step s begin_abort = abort_store s
step s end_abort = if s.aborting == 0 then s else abort_wake s

unfoldable pub run : System → List Event → System
run s [] = s
run s (e ∷ es) = run (step s e) es
