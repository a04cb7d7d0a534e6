-- ===== src/AtomicWaker/Threads/Ownership.antt =====
-- Who holds the cell: the invariant of the threads of atomic_waker.rs.
use futures_rs.Prelude.{
  ℕ, ◌<◌, ◌≡◌, refl, ◌≢◌, ◌⊎◌, inl, inr, List, [], ◌∷◌, Option, none, some, Bool, true, false, ◌==◌,
  arith, is_some, update, Bool-cases,
}
use futures_rs.AtomicWaker.{AtomicWaker, store}
use futures_rs.AtomicWaker.Threads.{
  Pc, idle, panicked, reg_begin, reg_write, reg_commit, reg_take, reg_release, wake_begin,
  wake_take, wake_release, move, System, init, Event, call_register, call_wake, advance, start,
  step, run,
}

-- The thread may read and write the cell.
abbrev pub owner : Pc → Bool
owner (reg_write w) = true
owner (reg_commit w) = true
owner reg_take = true
owner (reg_release w) = true
owner wake_take = true
owner (wake_release o) = true
owner _ = false

-- What the place of a thread says of the word and the cell.
abbrev pub Fits : AtomicWaker → Pc → Type 0
Fits c (reg_write w) = (c.state ≡ 1) ⊎ (c.state ≡ 3)
Fits c (reg_commit w) = ((c.state ≡ 1) ⊎ (c.state ≡ 3)) × (c.waker ≡ some w)
Fits c reg_take = (c.state ≡ 3) × (is_some c.waker ≡ true)
Fits c (reg_release w) = (c.state ≡ 3) × (c.waker ≡ none)
Fits c wake_take = c.state ≡ 2
Fits c (wake_release o) = (c.state ≡ 2) × (c.waker ≡ none)
Fits c panicked = ⊥
Fits c _ = Unit

pub record Inv (c : AtomicWaker) (pc : ℕ → Pc) : Type 0 where
  pub range : c.state < 4
  pub free : (i : ℕ) → c.state ≡ 0 → owner (pc i) ≡ false
  pub held : c.state ≢ 0 → (i : ℕ) × (owner (pc i) ≡ true)
  pub unique : (i j : ℕ) → owner (pc i) ≡ true → owner (pc j) ≡ true → i ≡ j
  pub fits : (i : ℕ) → Fits c (pc i)

pub store_lem : (o : Option ℕ) (w : ℕ) → store o w ≡ some w
unfolding store
store_lem none w = refl
store_lem (some old) w = ground arith

module _ {c : AtomicWaker} {pc : ℕ → Pc} (inv : Inv c pc) (i : ℕ) where
  open inv use {range, free, held, unique, fits}

  abbrev after : Pc → ℕ → Pc
  after p = update pc i (move c p).next

  move-range : (p : Pc) → Fits c p → (move c p).cell.state < 4
  unfolding move
  move-range idle f = range
  move-range p f = ground (arith, range)

  move-Fits : (p : Pc) → pc i ≡ p → (j : ℕ) → Fits (move c p).cell (after p j)
  unfolding move
  move-Fits idle e j = ground (arith, fits j, fits i)
  move-Fits (reg_write w) e j = ground (arith, fits j, fits i, unique i j, store_lem c.waker w)
  move-Fits p e j = ground (arith, fits j, fits i, unique i j, free j, range)

  move_unique :
      (p : Pc) → pc i ≡ p → (a b : ℕ) → owner (after p a) ≡ true → owner (after p b) ≡ true → a ≡ b
  unfolding move
  move_unique idle e a b ha hb = ground (arith, unique a b)
  move_unique p e a b ha hb =
      ground (arith, unique a b, unique i a, unique i b, free a, free b, fits i)

  move-free : (p : Pc) → pc i ≡ p → (j : ℕ) → (move c p).cell.state ≡ 0 → owner (after p j) ≡ false
  unfolding move
  move-free idle e j h = ground (arith, free j)
  move-free p e j h = ground (arith, free j, unique i j, fits i, range)

  move-held : (p : Pc) → pc i ≡ p → (move c p).cell.state ≢ 0 → (j : ℕ) × (owner (after p j) ≡ true)
  unfolding move
  move-held idle e h = let (j, o) = held h in (j, ground arith)
  move-held (reg_begin w) e h = elim (Bool-cases (c.state == 0)) [
    | inl z ↦ (i, ground arith)
    | inr n ↦ let (j, o) = held (ground arith) in (j, ground arith)
  ]
  move-held (reg_write w) e h = (i, ground arith)
  move-held (reg_commit w) e h = (i, ground (arith, fits i))
  move-held reg_take e h = (i, ground (arith, fits i))
  move-held (reg_release w) e h = absurd (ground arith)
  move-held wake_begin e h = elim (Bool-cases (c.state == 0)) [
    | inl z ↦ (i, ground arith)
    | inr n ↦ let (j, o) = held (ground arith) in (j, ground arith)
  ]
  move-held wake_take e h = (i, ground arith)
  move-held (wake_release o) e h = absurd (ground arith)
  move-held p e h = let (j, o) = held h in (j, ground arith)

  -- A step of thread `i` keeps the invariant.
  move-Inv : (p : Pc) → pc i ≡ p → Inv (move c p).cell (after p)
  move-Inv p e = record {
    range = move-range p (rw (← e) (fits i));
    free = move-free p e;
    held = move-held p e;
    unique = move_unique p e;
    fits = move-Fits p e;
  }

  -- So does a new call.
  start-Inv : (p q : Pc) → pc i ≡ p → owner q ≡ false → Fits c q → Inv c (update pc i (start p q))
  start-Inv idle q e o f = record {
    range = range;
    free = λ j h. ground (arith, free j);
    held = λ h. let (j, own) = held h in (j, ground arith);
    unique = λ a b ha hb. ground (arith, unique a b);
    fits = λ j. ground (arith, fits j);
  }
  start-Inv p q e o f = record {
    range = range;
    free = λ j h. ground (arith, free j);
    held = λ h. let (j, own) = held h in (j, ground arith);
    unique = λ a b ha hb. ground (arith, unique a b);
    fits = λ j. ground (arith, fits j, fits i);
  }

abbrev pub Sound : System → Type 0
Sound s = Inv s.cell s.pc

pub step-Sound : (s : System) (e : Event) → Sound s → Sound (step s e)
unfolding step
step-Sound s (call_register i w) inv = start-Inv inv i (s.pc i) (reg_begin w) refl refl tt
step-Sound s (call_wake i) inv = start-Inv inv i (s.pc i) wake_begin refl refl tt
step-Sound s (advance i) inv = move-Inv inv i (s.pc i) refl

init-Sound : Sound init
init-Sound = record {
  range = omega arith;
  free = λ i h. refl;
  held = λ h. absurd (h refl);
  unique = λ i j hi hj. cc;
  fits = λ i. tt;
}

run-Sound_from : (s : System) (es : List Event) → Sound s → Sound (run s es)
unfolding run
run-Sound_from s [] inv = inv
run-Sound_from s (e ∷ es) inv = run-Sound_from (step s e) es (step-Sound s e inv)

pub run-Sound : (es : List Event) → Sound (run init es)
run-Sound es = run-Sound_from init es init-Sound

-- After any sequence of calls and steps of any threads, no thread has failed an assertion or an
-- `unwrap`, and at most one thread stands where it reads or writes the cell.
pub exclusive_access :
    (es : List Event)
    → ((i : ℕ) → (run init es).pc i ≢ panicked)
      × ((i j : ℕ) → owner ((run init es).pc i) ≡ true → owner ((run init es).pc j) ≡ true → i ≡ j)
exclusive_access es = (λ i e. rw e at (v.fits i), v.unique)
  where
    v : Sound (run init es)
    v = run-Sound es
