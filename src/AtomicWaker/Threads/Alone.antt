-- ===== src/AtomicWaker/Threads/Alone.antt =====
-- A thread that is not interrupted: the steps of atomic_waker.rs add up to the calls, and a `wake`
-- wakes what was registered.
use futures_rs.Prelude.{
  ℕ, ◌<◌, ◌≡◌, refl, List, [], ◌∷◌, ◌++◌, Option, none, some, ap, ◌∙◌, arith, ==_iff,
}
use futures_rs.AtomicWaker.{Waker, AtomicWaker, register, store, wake, take, new, waiting}
use futures_rs.AtomicWaker.Threads.{
  Pc, idle, reg_begin, wake_begin, move, System, Event, call_register, call_wake, advance, step,
  run,
}

-- One thread by itself.
pub record Lone : Type 0 where
  pub cell : AtomicWaker
  pub at : Pc
  pub woken : List Waker

advance_alone : Lone → Lone
advance_alone s =
    let m = move s.cell s.at in record { cell = m.cell; at = m.next; woken = m.woke ++ s.woken }

abbrev pub view : System → ℕ → Lone
view s i = record { cell = s.cell; at = s.pc i; woken = s.woken }

view-advance : (s : System) (i : ℕ) → view (step s (advance i)) i ≡ advance_alone (view s i)
unfolding step advance_alone
view-advance s i = rw ((==_iff i i).1 refl)

abbrev pub three : ℕ → List Event
three i = advance i ∷ advance i ∷ advance i ∷ []

view-three :
    (s : System) (i : ℕ)
    → view (run s (three i)) i ≡ advance_alone (advance_alone (advance_alone (view s i)))
unfolding run
view-three s i = simp view-advance

register_steps :
    (c : AtomicWaker) (w : Waker) (o : List Waker)
    → c.state < 4
    → advance_alone
        (advance_alone (advance_alone (record { cell = c; at = reg_begin w; woken = o })))
      ≡ record { cell = (register c w).0; at = idle; woken = (register c w).1 ++ o }
unfolding advance_alone move register
register_steps c w o h = ground (arith)

wake_steps :
    (c : AtomicWaker) (o : List Waker)
    → c.state < 4
    → advance_alone (
        advance_alone
          (advance_alone (advance_alone (record { cell = c; at = wake_begin; woken = o }))))
      ≡ record { cell = (wake c).0; at = idle; woken = (wake c).1 ++ o }
unfolding advance_alone move wake
wake_steps c o h = ground arith

-- A waker that stays in the cell is the one that is registered.
store_lem : (o : Option Waker) (w : Waker) → store o w ≡ some w
unfolding store
store_lem none w = refl
store_lem (some old) w = ground (arith)

registered :
    (c : AtomicWaker) (w : Waker)
    → c.state ≡ waiting
    → register c w ≡ (record { state = waiting; waker = some w }, [])
unfolding register
registered c w h = rw (h, store_lem c.waker w) refl

woken_lem : (w : Waker) → wake (record { state = waiting; waker = some w }) ≡ (new, w ∷ [])
unfolding wake take
woken_lem w = refl

abbrev pub Made : System → ℕ → AtomicWaker → List Waker → Type 0
Made s i c woke = view s i ≡ record { cell = c; at = idle; woken = woke }

view-call_register :
    (s : System) (i : ℕ) (w : Waker)
    → s.pc i ≡ idle
    → view (step s (call_register i w)) i
      ≡ record { cell = s.cell; at = reg_begin w; woken = s.woken }
unfolding step
view-call_register s i w e = rw (e, (==_iff i i).1 refl)

view-call_wake :
    (s : System) (i : ℕ)
    → s.pc i ≡ idle
    → view (step s (call_wake i)) i ≡ record { cell = s.cell; at = wake_begin; woken = s.woken }
unfolding step
view-call_wake s i e = rw (e, (==_iff i i).1 refl)

-- A call that no other thread interrupts does what the function of the call says: from any word
-- below 4, an idle thread that calls `register` (three steps) or `wake` (four steps) is idle
-- again, with the cell and the woken wakers of `register` and `wake`.
calls_alone :
    (s : System) (i : ℕ) (w : Waker)
    → s.pc i ≡ idle
    → s.cell.state < 4
    → Made
        (run s (call_register i w ∷ three i))
        i
        (register s.cell w).0
        ((register s.cell w).1 ++ s.woken)
      × Made
          (run s (call_wake i ∷ advance i ∷ three i))
          i
          (wake s.cell).0
          ((wake s.cell).1 ++ s.woken)
unfolding run
calls_alone s i w e h = (
  simp (view-advance, view-call_register s i w e, register_steps s.cell w s.woken h),
  simp (view-advance, view-call_wake s i e, wake_steps s.cell s.woken h),
)

-- Calls that no other thread interrupts, of a thread `i` that is idle while the word is WAITING.
-- After `register(w)` the cell holds `w`, whatever waker stood there before, nothing was woken, and
-- the word is WAITING. A `wake` then wakes `w`, once, and leaves the cell empty.
pub register-wake :
    (s : System) (i : ℕ) (w : Waker)
    → s.pc i ≡ idle
    → s.cell.state ≡ waiting
    → Made
        (run s (call_register i w ∷ three i))
        i
        (record { state = waiting; waker = some w })
        s.woken
      × Made
          (run (run s (call_register i w ∷ three i)) (call_wake i ∷ advance i ∷ three i))
          i
          new
          (w ∷ s.woken)
register-wake s i w e h =
    let c : AtomicWaker = record { state = waiting; waker = some w } in
    let m : Made (run s (call_register i w ∷ three i)) i c s.woken =
      (calls_alone s i w e (omega arith)).0
      ∙ ap (λ r. record { cell = r.0; at = idle; woken = r.1 ++ s.woken })
          (registered s.cell w h) in
    let t : System = run s (call_register i w ∷ three i) in
    (
      m,
      (calls_alone t i w (ap (λ v. v.at) m) (omega (arith, ap (λ v. v.cell.state) m))).1
          ∙ ap (λ r. record { cell = r.0; at = idle; woken = r.1 ++ t.woken })
              (ap wake (ap (λ v. v.cell) m) ∙ woken_lem w)
          ∙ ap (λ o. record { cell = new; at = idle; woken = w ∷ o }) (ap (λ v. v.woken) m),
    )
