-- ===== src/Executor/UnparkMutex.antt =====
-- futures-executor/src/unpark_mutex.rs, and the thread pool's calls of it. Any number of threads
-- call `notify`; each access to `status` or to `inner` is a step of its own. Memory is sequentially
-- consistent.
pub mod Exclusive
pub mod Notified
use futures_rs.Prelude.{
  ℕ, List, [], ◌∷◌, Option, none, some, Bool, true, false, not, ◌==◌, ◌||◌, ◌&&◌, if◌then◌else◌,
  update,
}

abbrev pub waiting : ℕ
waiting = 0

abbrev pub polling : ℕ
polling = 1

abbrev pub repoll : ℕ
repoll = 2

abbrev pub complete : ℕ
complete = 3

pub record UnparkMutex (D : Type 0) : Type 0 where
  pub status : ℕ
  pub inner : Option D

abbrev pub new : {D : Type 0} → UnparkMutex D
new = record { status = waiting; inner = none }

-- Where a thread stands, with its live locals. `panicked` is a failed assertion or `unwrap`.
pub data Pc (D : Type 0) : Type 0 where
  idle panicked : Pc D
  notify_load : Pc D  -- before the load
  notify_match : (status : ℕ) → Pc D  -- before the compare_exchange that goes with the status
  notify_take : Pc D  -- that succeeded from WAITING: before `take().unwrap()`
  run_start : (d : D) → Pc D  -- before `start_poll`
  run_poll : (d : D) → Pc D  -- polls the future
  wait_store : (d : D) → Pc D  -- before `inner` is written
  wait_exchange : Pc D  -- before the compare_exchange
  wait_store_status : (status : ℕ) → Pc D  -- that failed: before the assertion and the store
  wait_take : Pc D  -- before `take().unwrap()`
  run_complete : Pc D  -- before the store of `complete`

-- What one step of a thread leaves: the mutex, where the thread stands, whether a call of `notify`
-- had its effect, whether a poll of the future begins.
pub record Moved (D : Type 0) : Type 0 where
  pub mutex : UnparkMutex D
  pub next : Pc D
  pub noticed : Bool
  pub begun : Bool

module _ {D : Type 0} where
  abbrev pub moves : UnparkMutex D → Pc D → Moved D
  moves c p = record { mutex = c; next = p; noticed = false; begun = false }

  abbrev pub with_status : UnparkMutex D → ℕ → UnparkMutex D
  with_status c n = record c { status = n }

  -- The next round of the loop of `notify`, which ends without a further access when the status is
  -- REPOLL or COMPLETE.
  abbrev pub look : UnparkMutex D → Moved D
  look c =
      if c.status == waiting || c.status == polling
      then moves c (notify_match c.status)
      else record { mutex = c; next = idle; noticed = true; begun = false }

  abbrev pub begins : UnparkMutex D → D → Moved D
  begins c d = record { mutex = c; next = run_poll d; noticed = false; begun = true }

  unfoldable pub move : UnparkMutex D → Pc D → Moved D
  move c idle = moves c idle
  move c panicked = moves c panicked
  move c notify_load = look c
  move c (notify_match n) =
      if n == waiting
      then (if c.status == waiting
          then record {
            mutex = with_status c polling;
            next = notify_take;
            noticed = true;
            begun = false;
          }
          else look c)
      else if c.status == polling
      then record { mutex = with_status c repoll; next = idle; noticed = true; begun = false }
      else look c
  move c notify_take = elim c.inner [
    | some d ↦ moves (record c { inner = none }) (run_start d)
    | none ↦ moves c panicked
  ]
  move c (run_start d) = begins (with_status c polling) d
  move c (run_poll d) = moves c (run_poll d)
  move c (wait_store d) = moves (record c { inner = some d }) wait_exchange
  move c wait_exchange =
      if c.status == polling
      then moves (with_status c waiting) idle
      else moves c (wait_store_status c.status)
  move c (wait_store_status n) =
      if n == repoll then moves (with_status c polling) wait_take else moves c panicked
  move c wait_take = elim c.inner [
    | some d ↦ begins (record c { inner = none }) d
    | none ↦ moves c panicked
  ]
  move c run_complete = moves (with_status c complete) idle

  -- A thread that is not in a call begins one, or the poll of the future answers.
  abbrev pub start : Pc D → Pc D
  start idle = notify_load
  start p = p

  abbrev pub answer : Bool → Pc D → Pc D
  answer true (run_poll d) = run_complete
  answer false (run_poll d) = wait_store d
  answer r p = p

-- `due` says that a call of `notify` had its effect since the last poll of the future began.
pub record System (D : Type 0) : Type 0 where
  pub mutex : UnparkMutex D
  pub pc : ℕ → Pc D
  pub due : Bool

-- An idle thread calls `notify`, the poll of thread `i` answers, or thread `i` makes its next step.
pub data Event : Type 0 where
  call_notify : (i : ℕ) → Event
  poll_answers : (i : ℕ) (is_ready : Bool) → Event
  advance : (i : ℕ) → Event

module _ {D : Type 0} where
  -- Thread 0 runs the task for the first time and has called `start_poll`; there is no waker, and so
  -- no call of `notify`, before.
  abbrev pub init : D → System D
  init d = record {
    mutex = with_status new polling;
    pc = update (λ _. idle) 0 (run_poll d);
    due = false;
  }

  unfoldable pub step : System D → Event → System D
  unfolding move
  step s (call_notify i) = record s { pc = update s.pc i (start (s.pc i)) }
  step s (poll_answers i r) = record s { pc = update s.pc i (answer r (s.pc i)) }
  step s (advance i) =
      let m = move s.mutex (s.pc i) in
      record {
        mutex = m.mutex;
        pc = update s.pc i m.next;
        due = (s.due || m.noticed) && not m.begun;
      }

  unfoldable pub run : System D → List Event → System D
  run s [] = s
  run s (e ∷ es) = run (step s e) es
