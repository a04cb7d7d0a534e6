-- ===== src/Lock/Mutex/Exclusive.antt =====
-- Who has the lock of mutex.rs, in every run.
use futures_rs.Prelude.{ℕ, ◌≡◌, refl, List, [], ◌∷◌, some, true, false, not, arith, is_some, ◌==◌}
use futures_rs.Lock.Mutex.{
  Slab, Laws, Pc, idle, Call, lock, begin, System, Event, calls, advance, init, step, run,
}
use futures_rs.Lock.Mutex.Invariant.{Inv, owner, key_of, is_panicked, move-Inv, goes-Inv}

begin-owner : (call : Call) (p : Pc) → owner (begin call p) ≡ owner p
begin-owner lock idle = refl
begin-owner call p = ground arith

begin-key : (call : Call) (p : Pc) → key_of (begin call p) ≡ key_of p
begin-key lock idle = refl
begin-key call p = ground arith

begin_calm : (call : Call) (p : Pc) → is_panicked p ≡ false → is_panicked (begin call p) ≡ false
begin_calm lock idle h = refl
begin_calm call p h = ground arith

module _ {S : Type 0} {sl : Slab S} (laws : Laws sl) where
  abbrev pub Sound : System S → Type 0
  Sound s = Inv sl s.mutex s.pc

  pub step-Sound : (s : System S) (e : Event) → Sound s → Sound (step sl s e)
  unfolding step
  step-Sound s (calls i call) inv =
      goes-Inv laws inv i (begin call (s.pc i)) (begin-owner call (s.pc i))
        (begin-key call (s.pc i)) (begin_calm call (s.pc i) (inv.calm i))
  step-Sound s (advance i) inv = move-Inv laws inv i (s.pc i) refl

  pub init-Sound : Sound (init sl)
  init-Sound = record {
    counted = ground (arith, laws.len-empty);
    locked = λ i h. absurd (ground arith);
    unique = λ i j hi hj. absurd (ground arith);
    held = λ h. absurd (ground arith);
    keyed = λ i k h. absurd (ground arith);
    apart = λ i j k hi hj. absurd (ground arith);
    owned = λ k h. absurd (ground (arith, laws.get-empty k));
    calm = λ i. refl;
  }

  pub Sound-run : (s : System S) (es : List Event) → Sound s → Sound (run sl s es)
  unfolding run
  Sound-run s [] inv = inv
  Sound-run s (e ∷ es) inv = Sound-run (step sl s e) es (step-Sound s e inv)

  -- Whatever the order of the steps of any number of threads, two never have the lock at the same
  -- time, from the `try_lock` that took it to the drop of the guard; the bit for the lock is set just
  -- when a thread has it, and the bit for the waiters just when the slab has one; the keys of the slab
  -- are just those of the futures that wait, no two of which have the same, so that no access of the
  -- slab panics.
  pub mutex_exclusive :
      (es : List Event) (i j k : ℕ)
      → (owner ((run sl (init sl) es).pc i) ≡ true
          → ((run sl (init sl) es).mutex.is_locked ≡ true)
            × (owner ((run sl (init sl) es).pc j) ≡ true → i ≡ j))
        × ((run sl (init sl) es).mutex.is_locked ≡ true
            → (h : ℕ) × (owner ((run sl (init sl) es).pc h) ≡ true))
        × ((run sl (init sl) es).mutex.has_waiters
            ≡ not (sl.len (run sl (init sl) es).mutex.waiters == 0))
        × (key_of ((run sl (init sl) es).pc i) ≡ some k
            → (is_some (sl.get (run sl (init sl) es).mutex.waiters k) ≡ true)
              × (key_of ((run sl (init sl) es).pc j) ≡ some k → i ≡ j))
        × (is_some (sl.get (run sl (init sl) es).mutex.waiters k) ≡ true
            → (h : ℕ) × (key_of ((run sl (init sl) es).pc h) ≡ some k))
        × (is_panicked ((run sl (init sl) es).pc i) ≡ false)
  mutex_exclusive es i j k =
      let inv = Sound-run (init sl) es init-Sound in
      (
        λ h. (inv.locked i h, inv.unique i j h),
        inv.held,
        inv.counted,
        λ h. (inv.keyed i k h, inv.apart i j k h),
        inv.owned k,
        inv.calm i,
      )
