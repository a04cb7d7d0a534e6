-- ===== src/Lock/BiLock/Exclusive.antt =====
-- What the two handles of bilock.rs keep.
use futures_rs.Prelude.{ℕ, ◌≡◌, refl, ap, List, [], ◌∷◌, some, Bool, true, false, ◌||◌, ◌&&◌, arith}
use futures_rs.Lock.BiLock.{
  Word, null, one, boxed, Pc, panicked, poll_swap, pended, guarded, move, start, tell, System, new,
  Event, call_poll_lock, advance, step, run,
}

abbrev pub owner : Pc → Bool
owner guarded = true
owner _ = false

abbrev pub is_panicked : Pc → Bool
is_panicked panicked = true
is_panicked _ = false

abbrev is_null : Word → Bool
is_null null = true
is_null _ = false

-- A box in `state` has the waker of a handle that waits, or that polls again.
abbrev Waits : Word → Pc → Type 0
Waits (boxed v) (poll_swap w) = Unit
Waits (boxed v) (pended w b) = (v ≡ w) × (b ≡ false)
Waits (boxed v) guarded = Unit
Waits (boxed v) p = ⊥
Waits s (pended w b) = b ≡ true
Waits s p = Unit

pub record Inv (s : Word) (a b : Pc) : Type 0 where
  pub one_owner : owner a && owner b ≡ false
  pub held : is_null s ≡ true → owner a || owner b ≡ false
  pub free : is_null s ≡ false → owner a || owner b ≡ true
  pub waits1 : Waits s a
  pub waits2 : Waits s b
  pub calm : is_panicked a || is_panicked b ≡ false

swap-Inv : {s : Word} {a b : Pc} → Inv s a b → Inv s b a
swap-Inv {s} {a} {b} inv = record {
  one_owner = ground (arith, inv.one_owner);
  held = λ h. ground (arith, inv.held h);
  free = λ h. ground (arith, inv.free h);
  waits1 = inv.waits2;
  waits2 = inv.waits1;
  calm = ground (arith, inv.calm);
}

module _ (s : Word) (a b : Pc) (inv : Inv s a b) where
  open inv use {one_owner, held, free, waits1, waits2, calm}

  move-waits1 : Waits (move s a).state (move s a).next
  unfolding move
  move-waits1 = ground (arith, one_owner, held, free, waits1, waits2, calm)

  move-waits2 : Waits (move s a).state (tell (move s a).woke b)
  unfolding move
  move-waits2 = ground (arith, one_owner, held, free, waits1, waits2, calm)

  move-Inv : Inv (move s a).state (move s a).next (tell (move s a).woke b)
  unfolding move
  move-Inv = record {
    one_owner = ground (arith, one_owner, held, free, waits1, waits2, calm);
    held = λ h. ground (arith, one_owner, held, free, waits1, waits2, calm);
    free = λ h. ground (arith, one_owner, held, free, waits1, waits2, calm);
    waits1 = move-waits1;
    waits2 = move-waits2;
    calm = ground (arith, one_owner, held, free, waits1, waits2, calm);
  }

  start-Inv : (w : ℕ) → Inv s (start w a) b
  start-Inv w = record {
    one_owner = ground (arith, one_owner);
    held = λ h. ground (arith, held h);
    free = λ h. ground (arith, free h);
    waits1 = ground (arith, waits1);
    waits2 = waits2;
    calm = ground (arith, calm);
  }

abbrev Sound : System → Type 0
Sound s = Inv s.state s.pc1 s.pc2

step-Sound : (s : System) (e : Event) → Sound s → Sound (step s e)
unfolding step
step-Sound s (call_poll_lock true w) inv = start-Inv s.state s.pc1 s.pc2 inv w
step-Sound s (call_poll_lock false w) inv =
    swap-Inv (start-Inv s.state s.pc2 s.pc1 (swap-Inv inv) w)
step-Sound s (advance true) inv = move-Inv s.state s.pc1 s.pc2 inv
step-Sound s (advance false) inv = swap-Inv (move-Inv s.state s.pc2 s.pc1 (swap-Inv inv))

Sound-run : (s : System) (es : List Event) → Sound s → Sound (run s es)
unfolding run
Sound-run s [] inv = inv
Sound-run s (e ∷ es) inv = Sound-run (step s e) es (step-Sound s e inv)

new-Sound : Sound new
new-Sound = record {
  one_owner = refl;
  held = λ h. refl;
  free = λ h. absurd (cc);
  waits1 = tt;
  waits2 = tt;
  calm = refl;
}

-- Whatever the order of the steps of the two handles, never do both have a guard; the word is null
-- just when none has one, so that the assertion in the drop of the shared part holds when no guard is
-- alive; and no match on the word fails.
pub guard_exclusive :
    (es : List Event)
    → (owner (run new es).pc1 && owner (run new es).pc2 ≡ false)
      × ((run new es).state ≡ null → owner (run new es).pc1 || owner (run new es).pc2 ≡ false)
      × (owner (run new es).pc1 || owner (run new es).pc2 ≡ false → (run new es).state ≡ null)
      × (is_panicked (run new es).pc1 || is_panicked (run new es).pc2 ≡ false)
guard_exclusive es =
    let inv = Sound-run new es new-Sound in
    (inv.one_owner, λ h. inv.held (ap is_null h), λ h. null_lem _ (inv.free) h, inv.calm)
  where
    null_lem : (s : Word) {o : Bool} → (is_null s ≡ false → o ≡ true) → o ≡ false → s ≡ null
    null_lem null f h = refl
    null_lem one f h = absurd (ground (arith, f refl))
    null_lem (boxed v) f h = absurd (ground (arith, f refl))

-- What a handle that waits is owed by the other one.
abbrev pub Owed : Word → Pc → Pc → Type 0
Owed s (pended w false) b = (s ≡ boxed w) × (b ≡ guarded)
Owed s p b = Unit

owed_lem : (s : Word) (a b : Pc) → Inv s a b → Owed s a b
owed_lem s a b inv = ground (arith, inv.free, inv.waits1, inv.held)

-- A handle is not forgotten, whatever the order of the steps: if its last `poll_lock` answered
-- `Pending` and its waker was not woken since, then the waker is in the word and the other handle has
-- a guard, the drop of which wakes the waker.
pub waiter-Owed :
    (es : List Event)
    → Owed (run new es).state (run new es).pc1 (run new es).pc2
      × Owed (run new es).state (run new es).pc2 (run new es).pc1
      × ((w : ℕ) → (move (boxed w) guarded).woke ≡ some w)
unfolding move
waiter-Owed es =
    let inv = Sound-run new es new-Sound in
    (owed_lem _ _ _ inv, owed_lem _ _ _ (swap-Inv inv), λ w. refl)
