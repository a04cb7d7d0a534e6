-- ===== src/Abortable/Woken.antt =====
-- An abort reaches the task (abortable.rs).
use futures_rs.Prelude.{
  ℕ, ◌<◌, ◌≡◌, refl, ◌≢◌, ◌⊎◌, inl, inr, List, [], ◌∷◌, Option, none, some, Bool, true, false, ◌==◌,
  arith, subst, if_elim, Bool-cases,
}
use futures_rs.AtomicWaker.{AtomicWaker, Waker, register, take, wake, store}
use futures_rs.Abortable.{
  System, Pc, idle, was_aborted, poll_check, poll_register, poll_recheck, pended, new_pair, start,
  answer, try_poll, abort_store, abort_wake, Event, call_poll, task_answers, advance, begin_abort,
  end_abort, step, run,
}

-- What the place of the task says of the waker and the handles.
abbrev Fits : Option Waker → Bool → ℕ → Pc → Type 0
Fits o f n (poll_recheck w) = (f ≡ true) ⊎ (o ≡ some w)
Fits o f n (pended w false) = (o ≡ some w) × ((f ≡ true) → 0 < n)
Fits o f n p = Unit

pub record Inv (c : AtomicWaker) (f : Bool) (n : ℕ) (p : Pc) : Type 0 where
  pub quiet : c.state ≡ 0
  pub begun : 0 < n → f ≡ true
  pub fits : Fits c.waker f n p

abbrev Sound : System → Type 0
Sound s = Inv s.waker s.aborted s.aborting s.pc

store_lem : (o : Option ℕ) (w : ℕ) → store o w ≡ some w
unfolding store
store_lem none w = refl
store_lem (some old) w = ground arith

module _ (c : AtomicWaker) (f : Bool) (n : ℕ) where
  abbrev at : Pc → System
  at p = record { waker = c; aborted = f; pc = p; aborting = n }

  try_poll-Sound : (p : Pc) → Inv c f n p → Sound (try_poll (at p))
  unfolding try_poll register
  try_poll-Sound idle inv = inv
  try_poll-Sound (poll_register w) inv = record {
    quiet = ground (arith, inv.quiet);
    begun = inv.begun;
    fits = ground (arith, inv.quiet, store_lem c.waker w);
  }
  try_poll-Sound p inv = record {
    quiet = inv.quiet;
    begun = inv.begun;
    fits = ground (arith, inv.fits, inv.begun);
  }

  start-Sound : (w : Waker) (p : Pc) → Inv c f n p → Inv c f n (start w p)
  start-Sound w idle inv = record { quiet = inv.quiet; begun = inv.begun; fits = tt }
  start-Sound w p inv = record {
    quiet = inv.quiet;
    begun = inv.begun;
    fits = ground (arith, inv.fits);
  }

  answer-Sound : (r : Bool) (p : Pc) → Inv c f n p → Inv c f n (answer r p)
  answer-Sound r idle inv = record { quiet = inv.quiet; begun = inv.begun; fits = tt }
  answer-Sound r p inv = record {
    quiet = inv.quiet;
    begun = inv.begun;
    fits = ground (arith, inv.fits);
  }

  store-Sound : (p : Pc) → Inv c f n p → Sound (abort_store (at p))
  store-Sound idle inv = record { quiet = inv.quiet; begun = λ h. refl; fits = tt }
  store-Sound p inv = record {
    quiet = inv.quiet;
    begun = λ h. refl;
    fits = ground (arith, inv.fits);
  }

  wake-Sound : (p : Pc) → n ≢ 0 → Inv c f n p → Sound (abort_wake (at p))
  unfolding abort_wake wake take
  wake-Sound idle h inv = record {
    quiet = ground (arith, inv.quiet);
    begun = λ g. inv.begun (ground arith);
    fits = ground arith;
  }
  wake-Sound p h inv = record {
    quiet = ground (arith, inv.quiet);
    begun = λ g. inv.begun (ground arith);
    fits = ground (arith, inv.fits, inv.begun, inv.quiet);
  }

step-Sound : (s : System) (e : Event) → Sound s → Sound (step s e)
unfolding step
step-Sound s (call_poll w) inv = start-Sound s.waker s.aborted s.aborting w s.pc inv
step-Sound s (task_answers r) inv = answer-Sound s.waker s.aborted s.aborting r s.pc inv
step-Sound s advance inv = try_poll-Sound s.waker s.aborted s.aborting s.pc inv
step-Sound s begin_abort inv = store-Sound s.waker s.aborted s.aborting s.pc inv
step-Sound s end_abort inv =
    if_elim Sound (s.aborting == 0) (λ h. inv)
      (λ h. wake-Sound s.waker s.aborted s.aborting s.pc (ground arith) inv)

Sound-run : (s : System) (es : List Event) → Sound s → Sound (run s es)
unfolding run
Sound-run s [] inv = inv
Sound-run s (e ∷ es) inv = Sound-run (step s e) es (step-Sound s e inv)

new-Sound : Sound new_pair
new-Sound = record { quiet = refl; begun = λ h. absurd (omega arith); fits = tt }

step-aborted : (s : System) (e : Event) → s.aborted ≡ true → (step s e).aborted ≡ true
unfolding step try_poll abort_wake
step-aborted s (call_poll w) h = h
step-aborted s (task_answers r) h = h
step-aborted s advance h = ground arith
step-aborted s begin_abort h = refl
step-aborted s end_abort h = ground arith

aborted-run : (s : System) (es : List Event) → s.aborted ≡ true → (run s es).aborted ≡ true
unfolding run
aborted-run s [] h = h
aborted-run s (e ∷ es) h = aborted-run (step s e) es (step-aborted s e h)

checked :
    (s : System) (w : Waker)
    → s.aborted ≡ true
    → s.pc ≡ poll_check w
    → (step s advance).pc ≡ was_aborted
unfolding step try_poll
checked s w h e = ground arith

woken :
    (s : System) (w : Waker)
    → Sound s
    → s.aborting ≢ 0
    → s.pc ≡ pended w false
    → (step s end_abort).pc ≡ pended w true
unfolding step abort_wake wake take
woken s w inv n e =
    ground (arith, inv.quiet, subst (Fits s.waker.waker s.aborted s.aborting) e inv.fits)

-- An abort reaches the task, whatever the order of the steps. If the last poll of the task answered
-- `Pending` and its waker was not woken since, then either no handle has stored the flag, or one that
-- has is still before its `wake`, and this call of `wake` wakes the waker. A poll that begins after a
-- handle has stored the flag answers `Aborted` in its first step.
pub abort_reaches :
    (es later : List Event) (w : Waker)
    → ((run new_pair es).pc ≡ pended w false
        → ((run new_pair es).aborted ≡ false)
          ⊎ (((run new_pair es).aborting ≢ 0)
              × ((step (run new_pair es) end_abort).pc ≡ pended w true)))
      × ((run new_pair es).aborted ≡ true
          → (run (run new_pair es) later).pc ≡ poll_check w
          → (step (run (run new_pair es) later) advance).pc ≡ was_aborted)
abort_reaches es later w =
    let s = run new_pair es in
    let inv = Sound-run new_pair es new-Sound in
    (λ e. pending_lem s inv e, λ h. checked (run s later) w (aborted-run s later h))
  where
    pending_lem :
        (s : System)
        → Sound s
        → s.pc ≡ pended w false
        → (s.aborted ≡ false) ⊎ ((s.aborting ≢ 0) × ((step s end_abort).pc ≡ pended w true))
    pending_lem s inv e = elim (Bool-cases s.aborted) [
      | inr f ↦ inl f
      | inl t ↦ let n = nonzero s inv e t in inr (n, woken s w inv n e)
    ]
      where
        nonzero : (s : System) → Sound s → s.pc ≡ pended w false → s.aborted ≡ true → s.aborting ≢ 0
        nonzero s inv e t =
            let f = subst (Fits s.waker.waker s.aborted s.aborting) e inv.fits in
            λ z. absurd (ground (arith, f.1 t))
