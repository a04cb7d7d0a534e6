-- ===== src/Lock/Mutex/Woken.antt =====
-- No future that waits for the lock of mutex.rs is forgotten.
use futures_rs.Prelude.{
  ℕ, ◌≡◌, refl, sym, ap, ◌∙◌, ◌⊎◌, inl, inr, List, [], ◌∷◌, none, some, Bool, true, false, arith,
  is_some, ◌==◌, update, Bool-cases,
}
use futures_rs.Lock.Mutex.{
  woken, Slab, Laws, Mutex, Pc, idle, try_begin, dropping, poll_lock, poll_register, poll_again,
  poll_remove, guarded, unlock_wake, Call, lock, begin, System, Event, calls, advance, init, move,
  step, run,
}
use futures_rs.Lock.Mutex.Keys.{
  present-wake_first, wake_first_wakes, len_pos, registered_lem, removed_lem,
}
use futures_rs.Lock.Mutex.Invariant.{Inv, key_of}
use futures_rs.Lock.Mutex.Exclusive.{Sound, step-Sound, init-Sound}

-- The thread tries the lock again, or wakes a waiter, in its next step.
abbrev pub acts : Pc → Bool
acts (poll_again k) = true
acts unlock_wake = true
acts _ = false

begin-acts : (call : Call) (p : Pc) → acts (begin call p) ≡ acts p
begin-acts lock idle = refl
begin-acts call p = ground arith

module _ {S : Type 0} (sl : Slab S) where
  -- If the lock is free and there are waiters, then a thread acts or a waiter was woken.
  abbrev Lively : Mutex S → (ℕ → Pc) → Type 0
  Lively c pc =
      c.is_locked ≡ false
      → (k : ℕ) → is_some (sl.get c.waiters k) ≡ true
      → ((j : ℕ) × (acts (pc j) ≡ true)) ⊎ ((f : ℕ) × (sl.get c.waiters f ≡ some woken))

module _ {S : Type 0} {sl : Slab S} (laws : Laws sl) {c : Mutex S} {pc : ℕ → Pc} (inv : Inv sl c pc)
    (lively : Lively sl c pc) (i : ℕ) where
  -- A thread that did not act, or that still does, goes elsewhere.
  goes-Lively : (q : Pc) → acts q ≡ acts (pc i) → Lively sl c (update pc i q)
  goes-Lively q a h k g = elim (lively h k g) [
    | inl x ↦ let (j, b) = x in inl (j, ground arith)
    | inr x ↦ inr x
  ]

  move-Lively : (p : Pc) → pc i ≡ p → Lively sl (move sl c p).mutex (update pc i (move sl c p).next)
  unfolding move
  move-Lively try_begin e h k g = absurd (ground arith)
  move-Lively (poll_lock key w) e h k g = absurd (ground arith)
  move-Lively (poll_again n) e h k g = absurd (ground arith)
  move-Lively (poll_register none w) e h k g = inl (i, ground arith)
  move-Lively (poll_register (some n) w) e h k g =
      let (s', r, m) = registered_lem sl laws c.waiters n w (inv.keyed i n (ap key_of e)) in
      inl (i, ground arith)
  move-Lively (poll_remove none) e h k g = absurd (ground (arith, inv.locked i))
  move-Lively (poll_remove (some n)) e h k g =
      let (s', r, m, w) = removed_lem sl laws c.waiters n false (inv.keyed i n (ap key_of e)) in
      absurd (ground (arith, inv.locked i))
  move-Lively (dropping (some n)) e h k g =
      let (s', r, m, w) = removed_lem sl laws c.waiters n true (inv.keyed i n (ap key_of e)) in
      let p : is_some (sl.get s' k) ≡ true = ground arith in
      elim (lively (ground arith) k (ground (arith, m.same k))) [
        | inl x ↦ let (j, b) = x in inl (j, ground arith)
        | inr x ↦
            let (f, u) = x in
            elim (Bool-cases (n == f)) [
              | inl same ↦ let (f', v) = w refl (ground arith) k p in inr (f', ground arith)
              | inr ne ↦ inr (f, ground (arith, m.keeps f ne u))
            ]
      ]
  move-Lively guarded e h k g = inl (i, ground (arith, inv.counted, len_pos sl laws c.waiters k g))
  move-Lively unlock_wake e h k g =
      inr (wake_first_wakes sl laws c.waiters k (sym (present-wake_first sl laws c.waiters k) ∙ g))
  move-Lively p e h k g = elim (lively h k g) [
    | inl x ↦ let (j, b) = x in inl (j, ground arith)
    | inr x ↦ inr x
  ]

module _ {S : Type 0} {sl : Slab S} (laws : Laws sl) where
  step-Lively :
      (s : System S) (e : Event)
      → Sound laws s
      → Lively sl s.mutex s.pc
      → Lively sl (step sl s e).mutex (step sl s e).pc
  unfolding step
  step-Lively s (calls i call) inv l =
      goes-Lively laws inv l i (begin call (s.pc i)) (begin-acts call (s.pc i))
  step-Lively s (advance i) inv l = move-Lively laws inv l i (s.pc i) refl

  Lively-run :
      (s : System S) (es : List Event)
      → Sound laws s
      → Lively sl s.mutex s.pc
      → Sound laws (run sl s es) × Lively sl (run sl s es).mutex (run sl s es).pc
  unfolding run
  Lively-run s [] inv l = (inv, l)
  Lively-run s (e ∷ es) inv l =
      Lively-run (step sl s e) es (step-Sound laws s e inv) (step-Lively s e inv l)

  -- No future that waits is forgotten, whatever the order of the steps of any number of threads: if a
  -- future has its waiter in the slab and the lock is free, then some thread tries to take the lock, or
  -- wakes a waiter, in its next step, or the waiter of some future was woken since it was registered.
  pub waiter_not_forgotten :
      (es : List Event) (i k : ℕ)
      → key_of ((run sl (init sl) es).pc i) ≡ some k
      → (run sl (init sl) es).mutex.is_locked ≡ false
      → ((j : ℕ) × (acts ((run sl (init sl) es).pc j) ≡ true))
        ⊎ ((j : ℕ) × (f : ℕ) × (key_of ((run sl (init sl) es).pc j) ≡ some f)
            × (sl.get (run sl (init sl) es).mutex.waiters f ≡ some woken))
  waiter_not_forgotten es i k e h =
      let (inv, lively) =
        Lively-run (init sl) es (init-Sound laws)
          (λ n m g. absurd (ground (arith, laws.get-empty m))) in
      elim (lively h k (inv.keyed i k e)) [
        | inl x ↦ inl x
        | inr x ↦ let (f, w) = x in let (j, o) = inv.owned f (ap is_some w) in inr (j, f, o, w)
      ]
