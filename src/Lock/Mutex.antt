-- ===== src/Lock/Mutex.antt =====
-- futures-util/src/lock/mutex.rs. Any number of threads use one mutex; each access of `state` and each
-- time that `waiters` is locked is a step of its own. Memory is sequentially consistent. The slab of
-- the crate `slab` is a parameter with its laws.
mod Tests
pub mod Keys
pub mod Invariant
pub mod Exclusive
pub mod Woken
use futures_rs.Prelude.{
  ℕ, suc, ◌≡◌, List, [], ◌∷◌, Option, none, some, Bool, true, false, not, ◌==◌, ◌&&◌, if◌then◌else◌,
  update, is_some,
}

-- A waiter turns `woken` in the step that calls its waker.
pub data Waiter : Type 0 where
  waiting : (w : ℕ) → Waiter
  woken : Waiter

abbrev pub register : ℕ → Waiter → Waiter
register w (waiting v) = if w == v then waiting v else waiting w
register w woken = waiting w

abbrev pub is_woken : Waiter → Bool
is_woken woken = true
is_woken (waiting w) = false

-- `Slab<Waiter>`: `put` is an assignment at a key that is taken, and `first` the key of the first
-- entry of `iter_mut`.
pub record Slab (S : Type 0) : Type 0 where
  pub empty : S
  pub get : S → ℕ → Option Waiter
  pub put : S → ℕ → Waiter → S
  pub insert : S → Waiter → ℕ × S
  pub remove : S → ℕ → S
  pub first : S → Option ℕ
  pub len : S → ℕ

-- What the documentation of the crate says of them.
pub record Laws {S : Type 0} (sl : Slab S) : Type 0 where
  pub get-empty : (k : ℕ) → sl.get sl.empty k ≡ none
  pub len-empty : sl.len sl.empty ≡ 0
  pub get-put :
      (s : S) (k : ℕ) (a : Waiter) (j : ℕ)
      → is_some (sl.get s k) ≡ true
      → sl.get (sl.put s k a) j ≡ update (sl.get s) k (some a) j
  pub len-put :
      (s : S) (k : ℕ) (a : Waiter) → is_some (sl.get s k) ≡ true → sl.len (sl.put s k a) ≡ sl.len s
  pub get-insert :
      (s : S) (a : Waiter) (j : ℕ)
      → sl.get (sl.insert s a).1 j ≡ update (sl.get s) (sl.insert s a).0 (some a) j
  pub vacant : (s : S) (a : Waiter) → sl.get s (sl.insert s a).0 ≡ none
  pub len-insert : (s : S) (a : Waiter) → sl.len (sl.insert s a).1 ≡ suc (sl.len s)
  pub get-remove : (s : S) (k j : ℕ) → sl.get (sl.remove s k) j ≡ update (sl.get s) k none j
  pub len_zero : (s : S) (k : ℕ) → sl.len s ≡ 0 → sl.get s k ≡ none
  pub first_none : (s : S) (k : ℕ) → sl.first s ≡ none → sl.get s k ≡ none
  pub first_some : (s : S) (k : ℕ) → sl.first s ≡ some k → is_some (sl.get s k) ≡ true

-- `state` as its two bits, and `waiters`.
pub record Mutex (S : Type 0) : Type 0 where
  pub is_locked : Bool
  pub has_waiters : Bool
  pub waiters : S

-- Where a thread stands, with its live locals: the `wait_key` (`none` is WAIT_KEY_NONE) and the
-- waker of the poll. `panicked` is a key that the slab does not have.
pub data Pc : Type 0 where
  idle panicked : Pc
  try_begin : Pc  -- called `try_lock`
  locking : (key : Option ℕ) → Pc  -- has a future that is not being polled
  dropping : (key : Option ℕ) → Pc  -- drops it: before `remove_waker`
  poll_lock : (key : Option ℕ) (w : ℕ) → Pc  -- before the first `try_lock`
  poll_register : (key : Option ℕ) (w : ℕ) → Pc  -- that failed: before `waiters` is locked
  poll_again : (key : ℕ) → Pc  -- before the second `try_lock`
  poll_remove : (key : Option ℕ) → Pc  -- has the lock: before `remove_waker`
  guarded : Pc  -- has a guard
  unlock_wake : Pc  -- dropped it, and there are waiters: before `waiters` is locked

-- What one step of a thread leaves.
pub record Moved (S : Type 0) : Type 0 where
  pub mutex : Mutex S
  pub next : Pc

module _ {S : Type 0} (sl : Slab S) where
  abbrev pub new : Mutex S
  new = record { is_locked = false; has_waiters = false; waiters = sl.empty }

  abbrev pub moves : Mutex S → Pc → Moved S
  moves c p = record { mutex = c; next = p }

  -- The first waiter, if any, is woken.
  unfoldable pub wake_first : S → S
  wake_first s = elim (sl.first s) [ some k ↦ sl.put s k woken | none ↦ s ]

  -- What `remove_waker` leaves of the waiters; `none` is a key that is not there.
  unfoldable pub removed : S → ℕ → Bool → Option S
  removed s k wake_another = elim (sl.get s k) [
    | none ↦ none
    | some a ↦
        some (if is_woken a && wake_another then wake_first (sl.remove s k) else sl.remove s k)
  ]

  -- `remove_waker` with a key, and where the thread goes then.
  abbrev pub remove_waker : Mutex S → ℕ → Bool → Pc → Moved S
  remove_waker c k wake_another p = elim (removed c.waiters k wake_another) [
    | none ↦ moves c panicked
    | some s ↦
        moves (record c { waiters = s; has_waiters = not (sl.len s == 0) && c.has_waiters }) p
  ]

  -- `waiters[key].register(waker)`
  unfoldable pub registered : S → ℕ → ℕ → Option S
  registered s k w = elim (sl.get s k) [ none ↦ none | some a ↦ some (sl.put s k (register w a)) ]

  -- `waiters` is locked to add the waiter, or to register its waker again.
  abbrev pub add_waiter : Mutex S → Option ℕ → ℕ → Moved S
  add_waiter c none w =
      let (k, s) = sl.insert c.waiters (waiting w) in
      moves (record c { waiters = s; has_waiters = if sl.len s == 1 then true else c.has_waiters })
        (poll_again k)
  add_waiter c (some k) w = elim (registered c.waiters k w) [
    | none ↦ moves c panicked
    | some s ↦ moves (record c { waiters = s }) (poll_again k)
  ]

  -- `try_lock`, and where the thread goes with the lock and without it.
  abbrev pub try_lock : Mutex S → Pc → Pc → Moved S
  try_lock c p q = if c.is_locked then moves c q else moves (record c { is_locked = true }) p

  -- The next step of a thread; one that has a guard drops it.
  unfoldable pub move : Mutex S → Pc → Moved S
  move c idle = moves c idle
  move c panicked = moves c panicked
  move c try_begin = try_lock c guarded idle
  move c (locking key) = moves c (locking key)
  move c (dropping none) = moves c idle
  move c (dropping (some k)) = remove_waker c k true idle
  move c (poll_lock key w) = try_lock c (poll_remove key) (poll_register key w)
  move c (poll_register key w) = add_waiter c key w
  move c (poll_again k) = try_lock c (poll_remove (some k)) (locking (some k))
  move c (poll_remove none) = moves c guarded
  move c (poll_remove (some k)) = remove_waker c k false guarded
  move c guarded =
      moves (record c { is_locked = false }) (if c.has_waiters then unlock_wake else idle)
  move c unlock_wake = moves (record c { waiters = wake_first c.waiters }) idle

-- What a thread begins: `try_lock`, `lock`, a poll of its future, or the drop of it.
pub data Call : Type 0 where
  try_lock_now lock drop : Call
  poll : (w : ℕ) → Call

-- A thread that is in another call goes on with that.
abbrev pub begin : Call → Pc → Pc
begin try_lock_now idle = try_begin
begin lock idle = locking none
begin drop (locking key) = dropping key
begin (poll w) (locking key) = poll_lock key w
begin call p = p

pub record System (S : Type 0) : Type 0 where
  pub mutex : Mutex S
  pub pc : ℕ → Pc

-- Thread `i` begins a call, or makes its next step.
pub data Event : Type 0 where
  calls : (i : ℕ) (call : Call) → Event
  advance : (i : ℕ) → Event

module _ {S : Type 0} (sl : Slab S) where
  abbrev pub init : System S
  init = record { mutex = new sl; pc = λ _. idle }

  unfoldable pub step : System S → Event → System S
  step s (calls i call) = record s { pc = update s.pc i (begin call (s.pc i)) }
  step s (advance i) =
      let m = move sl s.mutex (s.pc i) in record { mutex = m.mutex; pc = update s.pc i m.next }

  unfoldable pub run : System S → List Event → System S
  run s [] = s
  run s (e ∷ es) = run (step s e) es
