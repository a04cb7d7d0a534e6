-- ===== src/Lock/Mutex/Tests.antt =====
-- A slab as a list of slots, runs of the threads of mutex.rs over it, and the theorems at them.
use futures_rs.Prelude.{
  ℕ, zero, suc, ◌≡◌, refl, ap, ◌⊎◌, List, [], ◌∷◌, Option, none, some, true, false, not, arith,
  is_some, ◌==◌, update,
}
use futures_rs.Lock.Mutex.{
  Waiter, waiting, woken, Slab, Laws, try_lock_now, lock, poll, System, Event, calls, advance, init,
  move, step, run, wake_first,
}
use futures_rs.Lock.Mutex.Invariant.{owner, key_of, is_panicked}
use futures_rs.Lock.Mutex.Exclusive.{mutex_exclusive}
use futures_rs.Lock.Mutex.Woken.{acts, waiter_not_forgotten}

abbrev Slots : Type 0
Slots = List (Option Waiter)

abbrev get : Slots → ℕ → Option Waiter
get [] k = none
get (x ∷ s) zero = x
get (x ∷ s) (suc k) = get s k

abbrev put : Slots → ℕ → Waiter → Slots
put [] k a = []
put (x ∷ s) zero a = some a ∷ s
put (x ∷ s) (suc k) a = x ∷ put s k a

-- The key and the slab after it.
abbrev insert : Slots → Waiter → ℕ × Slots
insert [] a = (0, some a ∷ [])
insert (none ∷ s) a = (0, some a ∷ s)
insert (some b ∷ s) a = let (k, s') = insert s a in (suc k, some b ∷ s')

abbrev remove : Slots → ℕ → Slots
remove [] k = []
remove (x ∷ s) zero = none ∷ s
remove (x ∷ s) (suc k) = x ∷ remove s k

abbrev first : Slots → Option ℕ
first [] = none
first (some a ∷ s) = some 0
first (none ∷ s) = elim (first s) [ none ↦ none | some k ↦ some (suc k) ]

abbrev len : Slots → ℕ
len [] = 0
len (none ∷ s) = len s
len (some a ∷ s) = suc (len s)

get-put :
    (s : Slots) (k : ℕ) (a : Waiter) (j : ℕ)
    → is_some (get s k) ≡ true
    → get (put s k a) j ≡ update (get s) k (some a) j
get-put [] k a j h = absurd (ground arith)
get-put (x ∷ s) zero a zero h = refl
get-put (x ∷ s) zero a (suc j) h = ground arith
get-put (x ∷ s) (suc k) a zero h = ground arith
get-put (x ∷ s) (suc k) a (suc j) h = ground (arith, get-put s k a j)

len-put : (s : Slots) (k : ℕ) (a : Waiter) → is_some (get s k) ≡ true → len (put s k a) ≡ len s
len-put [] k a h = refl
len-put (none ∷ s) zero a h = absurd (ground arith)
len-put (some b ∷ s) zero a h = refl
len-put (none ∷ s) (suc k) a h = len-put s k a h
len-put (some b ∷ s) (suc k) a h = ap (λ n. suc n) (len-put s k a h)

get-insert :
    (s : Slots) (a : Waiter) (j : ℕ)
    → get (insert s a).1 j ≡ update (get s) (insert s a).0 (some a) j
get-insert [] a zero = refl
get-insert [] a (suc j) = ground arith
get-insert (none ∷ s) a zero = refl
get-insert (none ∷ s) a (suc j) = ground arith
get-insert (some b ∷ s) a zero = ground arith
get-insert (some b ∷ s) a (suc j) = ground (arith, get-insert s a j)

vacant : (s : Slots) (a : Waiter) → get s (insert s a).0 ≡ none
vacant [] a = refl
vacant (none ∷ s) a = refl
vacant (some b ∷ s) a = vacant s a

len-insert : (s : Slots) (a : Waiter) → len (insert s a).1 ≡ suc (len s)
len-insert [] a = refl
len-insert (none ∷ s) a = refl
len-insert (some b ∷ s) a = ap (λ n. suc n) (len-insert s a)

get-remove : (s : Slots) (k j : ℕ) → get (remove s k) j ≡ update (get s) k none j
get-remove [] k j = ground arith
get-remove (x ∷ s) zero zero = refl
get-remove (x ∷ s) zero (suc j) = ground arith
get-remove (x ∷ s) (suc k) zero = ground arith
get-remove (x ∷ s) (suc k) (suc j) = ground (arith, get-remove s k j)

len_zero : (s : Slots) (k : ℕ) → len s ≡ 0 → get s k ≡ none
len_zero [] k h = refl
len_zero (none ∷ s) zero h = refl
len_zero (none ∷ s) (suc k) h = len_zero s k h
len_zero (some b ∷ s) k h = absurd (omega arith)

first_none : (s : Slots) (k : ℕ) → first s ≡ none → get s k ≡ none
first_none [] k h = refl
first_none (none ∷ s) zero h = refl
first_none (none ∷ s) (suc k) h = ground (arith, first_none s k)
first_none (some b ∷ s) k h = absurd (ground arith)

first_some : (s : Slots) (k : ℕ) → first s ≡ some k → is_some (get s k) ≡ true
first_some [] k h = absurd (ground arith)
first_some (some b ∷ s) k h = ground arith
first_some (none ∷ s) zero h = ground arith
first_some (none ∷ s) (suc k) h = ground (arith, first_some s k)

abbrev slots : Slab Slots
slots = record {
  empty = [];
  get = get;
  put = put;
  insert = insert;
  remove = remove;
  first = first;
  len = len;
}

slots-Laws : Laws slots
slots-Laws = record {
  get-empty = λ k. refl;
  len-empty = refl;
  get-put = get-put;
  len-put = len-put;
  get-insert = get-insert;
  vacant = vacant;
  len-insert = len-insert;
  get-remove = get-remove;
  len_zero = len_zero;
  first_none = first_none;
  first_some = first_some;
}

-- Thread 0 has the lock, and the future of thread 1 waits.
abbrev contended : List Event
contended =
    calls 0 try_lock_now
    ∷ advance 0
    ∷ calls 1 lock
    ∷ calls 1 (poll 7)
    ∷ advance 1
    ∷ advance 1
    ∷ advance 1
    ∷ []

-- The guard is dropped, and the waiter woken.
abbrev released : List Event
released =
    calls 0 try_lock_now
    ∷ advance 0
    ∷ calls 1 lock
    ∷ calls 1 (poll 7)
    ∷ advance 1
    ∷ advance 1
    ∷ advance 1
    ∷ advance 0
    ∷ advance 0
    ∷ []

abbrev after : List Event → System Slots
after = run slots (init slots)

contended_runs :
    (after contended).mutex
    ≡ record { is_locked = true; has_waiters = true; waiters = some (waiting 7) ∷ [] }
unfolding run step move
contended_runs = refl

released_runs :
    (after released).mutex
    ≡ record { is_locked = false; has_waiters = true; waiters = some woken ∷ [] }
unfolding run step move wake_first
released_runs = refl

released_key : key_of ((after released).pc 1) ≡ some 0
unfolding run step move wake_first
released_key = refl

released_free : (after released).mutex.is_locked ≡ false
unfolding run step move wake_first
released_free = refl

waiter_not_forgotten_example :
    ((j : ℕ) × (acts ((after released).pc j) ≡ true))
    ⊎ ((j : ℕ) × (f : ℕ) × (key_of ((after released).pc j) ≡ some f)
        × (get (after released).mutex.waiters f ≡ some woken))
waiter_not_forgotten_example =
    waiter_not_forgotten slots-Laws released 1 0 released_key released_free

abbrev holder : ℕ
holder = 0

mutex_exclusive_example :
    (owner ((after contended).pc 0) ≡ true
      → ((after contended).mutex.is_locked ≡ true)
        × (owner ((after contended).pc 1) ≡ true → holder ≡ 1))
    × ((after contended).mutex.is_locked ≡ true → (h : ℕ) × (owner ((after contended).pc h) ≡ true))
    × ((after contended).mutex.has_waiters ≡ not (len (after contended).mutex.waiters == 0))
    × (key_of ((after contended).pc 0) ≡ some 0
        → (is_some (get (after contended).mutex.waiters 0) ≡ true)
          × (key_of ((after contended).pc 1) ≡ some 0 → holder ≡ 1))
    × (is_some (get (after contended).mutex.waiters 0) ≡ true
        → (h : ℕ) × (key_of ((after contended).pc h) ≡ some 0))
    × (is_panicked ((after contended).pc 0) ≡ false)
mutex_exclusive_example = mutex_exclusive slots-Laws contended holder 1 0
