-- ===== src/Executor/UnparkMutex/Exclusive.antt =====
-- Who has the task: the invariant of the threads of unpark_mutex.rs.
use futures_rs.Prelude.{
  ℕ, ◌<◌, ◌≡◌, refl, subst, ◌≢◌, ◌⊎◌, inl, inr, List, [], ◌∷◌, none, some, Bool, true, false, ◌==◌,
  ◌&&◌, arith, update, Bool-cases,
}
use futures_rs.Executor.UnparkMutex.{
  UnparkMutex, Pc, idle, panicked, notify_load, notify_match, notify_take, run_start, run_poll,
  wait_store, wait_exchange, wait_store_status, wait_take, run_complete, move, System, init, Event,
  waiting, call_notify, poll_answers, advance, start, answer, step, run,
}

module _ {D : Type 0} where
  -- The thread is between `notify` with the answer `Ok` and the end of `wait` or `complete`.
  abbrev pub owner : Pc D → Bool
  owner idle = false
  owner panicked = false
  owner notify_load = false
  owner (notify_match n) = false
  owner _ = true

  abbrev pub is_panicked : Pc D → Bool
  is_panicked panicked = true
  is_panicked _ = false

module _ {D : Type 0} (d : D) where
  -- What the place of a thread says of the status and of where the task is.
  abbrev pub Fits : UnparkMutex D → Pc D → Type 0
  Fits c notify_take = c.inner ≡ some d
  Fits c (run_start x) = (c.inner ≡ none) × (x ≡ d)
  Fits c (run_poll x) = (c.inner ≡ none) × (x ≡ d)
  Fits c (wait_store x) = (c.inner ≡ none) × (x ≡ d)
  Fits c wait_exchange = c.inner ≡ some d
  Fits c (wait_store_status n) = (n ≡ 2) × (c.status ≡ 2) × (c.inner ≡ some d)
  Fits c wait_take = c.inner ≡ some d
  Fits c run_complete = c.inner ≡ none
  Fits c _ = Unit

  pub record Inv (c : UnparkMutex D) (pc : ℕ → Pc D) : Type 0 where
    pub range : c.status < 4
    pub rest : c.status ≡ 0 → c.inner ≡ some d
    pub free : (i : ℕ) → owner (pc i) ≡ true → (c.status ≡ 1) ⊎ (c.status ≡ 2)
    pub held : c.status ≢ 0 → c.status ≢ 3 → (i : ℕ) × (owner (pc i) ≡ true)
    pub unique : (i j : ℕ) → owner (pc i) ≡ true → owner (pc j) ≡ true → i ≡ j
    pub fits : (i : ℕ) → Fits c (pc i)
    pub calm : (i : ℕ) → is_panicked (pc i) ≡ false

module _ {D : Type 0} {d : D} {c : UnparkMutex D} {pc : ℕ → Pc D} (inv : Inv d c pc) (i : ℕ) where
  open inv use {range, rest, free, held, unique, fits, calm}

  abbrev after : Pc D → ℕ → Pc D
  after p = update pc i (move c p).next

  move-range : (p : Pc D) → pc i ≡ p → (move c p).mutex.status < 4
  unfolding move
  move-range idle e = range
  move-range p e = ground (arith, range, fits i)

  move-rest : (p : Pc D) → pc i ≡ p → (move c p).mutex.status ≡ 0 → (move c p).mutex.inner ≡ some d
  unfolding move
  move-rest idle e = rest
  move-rest p e = ground (arith, rest, fits i, free i)

  move-Fits : (p : Pc D) → pc i ≡ p → (j : ℕ) → Fits d (move c p).mutex (after p j)
  unfolding move
  move-Fits idle e j = ground (arith, fits j, fits i)
  move-Fits p e j = ground (arith, fits j, fits i, unique i j, free i, free j, range, rest)

  move_unique :
      (p : Pc D)
      → pc i ≡ p
      → (a b : ℕ) → owner (after p a) ≡ true
      → owner (after p b) ≡ true
      → a ≡ b
  unfolding move
  move_unique idle e a b ha hb = ground (arith, unique a b)
  move_unique p e a b ha hb = ground (arith, unique a b, unique i a, unique i b, free a, free b)

  move-free :
      (p : Pc D)
      → pc i ≡ p
      → (j : ℕ) → owner (after p j) ≡ true
      → ((move c p).mutex.status ≡ 1) ⊎ ((move c p).mutex.status ≡ 2)
  unfolding move
  move-free idle e j h = ground (arith, free j)
  move-free p e j h = ground (arith, free j, free i, unique i j, fits i, range)

  move-held :
      (p : Pc D)
      → pc i ≡ p
      → (move c p).mutex.status ≢ 0
      → (move c p).mutex.status ≢ 3
      → (j : ℕ) × (owner (after p j) ≡ true)
  unfolding move
  move-held (notify_match k) e n m = elim (Bool-cases (k == 0 && c.status == 0)) [
    | inl z ↦ (i, ground arith)
    | inr z ↦ let (j, o) = held (ground arith) (ground arith) in (j, ground arith)
  ]
  move-held notify_take e n m = (i, ground (arith, fits i))
  move-held (run_start x) e n m = (i, ground arith)
  move-held (wait_store x) e n m = (i, ground arith)
  move-held wait_exchange e n m = (i, ground arith)
  move-held (wait_store_status k) e n m = (i, ground (arith, fits i))
  move-held wait_take e n m = (i, ground (arith, fits i))
  move-held run_complete e n m = absurd (m refl)
  move-held p e n m = let (j, o) = held (ground arith) (ground arith) in (j, ground arith)

  move-calm : (p : Pc D) → pc i ≡ p → (j : ℕ) → is_panicked (after p j) ≡ false
  unfolding move
  move-calm idle e j = ground (arith, calm j)
  move-calm p e j = ground (arith, calm j, calm i, fits i)

  -- A step of thread `i` keeps the invariant.
  move-Inv : (p : Pc D) → pc i ≡ p → Inv d (move c p).mutex (after p)
  move-Inv p e = record {
    range = move-range p e;
    rest = move-rest p e;
    free = move-free p e;
    held = move-held p e;
    unique = move_unique p e;
    fits = move-Fits p e;
    calm = move-calm p e;
  }

  goes_owner :
      (q : Pc D)
      → (owner q ≡ true → owner (pc i) ≡ true)
      → (j : ℕ) → owner (update pc i q j) ≡ true
      → owner (pc j) ≡ true
  goes_owner q o j h = ground arith

  -- So does a thread that goes elsewhere by itself.
  goes-Inv :
      (q : Pc D)
      → (owner q ≡ true → owner (pc i) ≡ true)
      → (owner (pc i) ≡ true → owner q ≡ true)
      → Fits d c q
      → is_panicked q ≡ false
      → Inv d c (update pc i q)
  goes-Inv q o o' f k = record {
    range = range;
    rest = rest;
    free = λ j h. ground (arith, free j, free i);
    held = λ n m. let (j, o) = held n m in (j, ground arith);
    unique = λ a b ha hb. unique a b (goes_owner q o a ha) (goes_owner q o b hb);
    fits = λ j. ground (arith, fits j);
    calm = λ j. ground (arith, calm j);
  }

  start-Inv : (p : Pc D) → pc i ≡ p → Inv d c (update pc i (start p))
  start-Inv idle e = goes-Inv notify_load (ground arith) (ground arith) tt refl
  start-Inv p e =
      goes-Inv p (ground arith) (ground arith) (subst (Fits d c) e (fits i))
        (subst (λ x. is_panicked x ≡ false) e (calm i))

  answer-Inv : (r : Bool) (p : Pc D) → pc i ≡ p → Inv d c (update pc i (answer r p))
  answer-Inv true (run_poll x) e =
      goes-Inv run_complete (ground arith) (ground arith) (ground (arith, fits i)) refl
  answer-Inv false (run_poll x) e =
      goes-Inv (wait_store x) (ground arith) (ground arith) (ground (arith, fits i)) refl
  answer-Inv true p e =
      goes-Inv p (ground arith) (ground arith) (subst (Fits d c) e (fits i))
        (subst (λ x. is_panicked x ≡ false) e (calm i))
  answer-Inv false p e =
      goes-Inv p (ground arith) (ground arith) (subst (Fits d c) e (fits i))
        (subst (λ x. is_panicked x ≡ false) e (calm i))

module _ {D : Type 0} (d : D) where
  abbrev pub Sound : System D → Type 0
  Sound s = Inv d s.mutex s.pc

  pub step-Sound : (s : System D) (e : Event) → Sound s → Sound (step s e)
  unfolding step
  step-Sound s (call_notify i) inv = start-Inv inv i (s.pc i) refl
  step-Sound s (poll_answers i r) inv = answer-Inv inv i r (s.pc i) refl
  step-Sound s (advance i) inv = move-Inv inv i (s.pc i) refl

  pub init-Sound : Sound (init d)
  init-Sound = record {
    range = omega arith;
    rest = λ h. absurd (omega arith);
    free = λ i h. inl refl;
    held = λ n m. (0, refl);
    unique = λ i j hi hj. ground arith;
    fits = λ i. ground arith;
    calm = λ i. ground arith;
  }

  Sound-run : (s : System D) (es : List Event) → Sound s → Sound (run s es)
  unfolding run
  Sound-run s [] inv = inv
  Sound-run s (e ∷ es) inv = Sound-run (step s e) es (step-Sound s e inv)

  -- Whatever the order of the steps, two threads never have the task at the same time, from the
  -- answer `Ok` of `notify` to the end of `wait` or `complete`; a thread that polls has the task that
  -- the mutex was made for, and so has `inner` when the status is WAITING; no `unwrap` and no
  -- assertion fails.
  pub task_exclusive :
      (es : List Event) (i j : ℕ) (x : D)
      → (owner ((run (init d) es).pc i) ≡ true → owner ((run (init d) es).pc j) ≡ true → i ≡ j)
        × ((run (init d) es).pc i ≡ run_poll x → x ≡ d)
        × ((run (init d) es).mutex.status ≡ waiting → (run (init d) es).mutex.inner ≡ some d)
        × (is_panicked ((run (init d) es).pc i) ≡ false)
  task_exclusive es i j x =
      let inv = Sound-run (init d) es init-Sound in
      (inv.unique i j, λ e. (subst (Fits d _) e (inv.fits i)).1, inv.rest, inv.calm i)
