-- ===== src/Executor/UnparkMutex/Notified.antt =====
-- No call of `notify` is lost: after it a poll of the future begins, unless the task is complete.
use futures_rs.Prelude.{
  ℕ, ◌≡◌, refl, ◌≢◌, ◌⊎◌, inl, inr, List, [], ◌∷◌, Bool, true, false, not, ◌==◌, ◌||◌, ◌&&◌, arith,
  update, Bool-cases,
}
use futures_rs.Executor.UnparkMutex.{
  UnparkMutex, Pc, idle, notify_load, notify_match, notify_take, run_start, wait_exchange,
  wait_store_status, wait_take, run_complete, move, System, init, Event, call_notify, poll_answers,
  advance, start, answer, step, run, complete, repoll,
}
use futures_rs.Executor.UnparkMutex.Exclusive.{owner, Inv, Sound, step-Sound, init-Sound}

module _ {D : Type 0} where
  -- The thread polls the future next.
  abbrev pub about : Pc D → Bool
  about notify_take = true
  about (run_start d) = true
  about wait_take = true
  about _ = false

  about-owner : (p : Pc D) → about p ≡ true → owner p ≡ true
  about-owner idle h = h
  about-owner p h = ground arith

  abbrev pub Noted : UnparkMutex D → (ℕ → Pc D) → Bool → Type 0
  Noted c pc due = due ≡ true → c.status ≢ 2 → c.status ≢ 3 → (i : ℕ) × (about (pc i) ≡ true)

module _ {D : Type 0} {d : D} {c : UnparkMutex D} {pc : ℕ → Pc D} {due : Bool} (inv : Inv d c pc)
    (noted : Noted c pc due) (i : ℕ) where
  open inv use {range, free, unique, fits}

  -- A thread that was not about to poll goes elsewhere.
  goes-Noted : (q : Pc D) → about (pc i) ≡ false → Noted c (update pc i q) due
  goes-Noted q e b n m = let (j, a) = noted b n m in (j, ground arith)

  move-Noted :
      (p : Pc D)
      → pc i ≡ p
      → Noted
          (move c p).mutex
          (update pc i (move c p).next)
          ((due || (move c p).noticed) && not (move c p).begun)
  unfolding move
  move-Noted notify_load e b n m = elim (Bool-cases due) [
    | inl t ↦ let (j, a) = noted t (ground arith) (ground arith) in (j, ground arith)
    | inr f ↦ absurd (ground (arith, range))
  ]
  move-Noted (notify_match k) e b n m = elim (Bool-cases (k == 0)) [
    | inl z ↦ elim (Bool-cases (c.status == 0)) [
      | inl y ↦ (i, ground arith)
      | inr y ↦
          let (j, a) = noted (ground (arith, range)) (ground arith) (ground arith) in
          (j, ground arith)
    ]
    | inr z ↦
        let (j, a) = noted (ground (arith, range)) (ground arith) (ground arith) in
        (j, ground arith)
  ]
  move-Noted notify_take e b n m = (i, ground (arith, fits i))
  move-Noted (run_start x) e b n m = absurd (ground arith)
  move-Noted wait_exchange e b n m = elim (Bool-cases (c.status == 1)) [
    | inl y ↦
        let (j, a) = noted (ground arith) (ground arith) (ground arith) in
        absurd (ground (arith, unique i j))
    | inr y ↦ absurd (ground (arith, free i))
  ]
  move-Noted (wait_store_status k) e b n m = (i, ground (arith, fits i))
  move-Noted wait_take e b n m = absurd (ground (arith, fits i))
  move-Noted run_complete e b n m = absurd (m refl)
  move-Noted p e b n m = let (j, a) = noted (ground arith) n m in (j, ground arith)

  start-Noted : (p : Pc D) → pc i ≡ p → Noted c (update pc i (start p)) due
  start-Noted p e b n m = let (j, a) = noted b n m in (j, ground arith)

  answer-Noted : (r : Bool) (p : Pc D) → pc i ≡ p → Noted c (update pc i (answer r p)) due
  answer-Noted r p e b n m = let (j, a) = noted b n m in (j, ground arith)

module _ {D : Type 0} (d : D) where
  step-Noted :
      (s : System D) (e : Event)
      → Sound d s
      → Noted s.mutex s.pc s.due
      → Noted (step s e).mutex (step s e).pc (step s e).due
  unfolding step
  step-Noted s (call_notify i) inv n = start-Noted inv n i (s.pc i) refl
  step-Noted s (poll_answers i r) inv n = answer-Noted inv n i r (s.pc i) refl
  step-Noted s (advance i) inv n = move-Noted inv n i (s.pc i) refl

  Noted-run :
      (s : System D) (es : List Event)
      → Sound d s
      → Noted s.mutex s.pc s.due
      → Sound d (run s es) × Noted (run s es).mutex (run s es).pc (run s es).due
  unfolding run
  Noted-run s [] inv n = (inv, n)
  Noted-run s (e ∷ es) inv n = Noted-run (step s e) es (step-Sound d s e inv) (step-Noted s e inv n)

  -- No call of `notify` is lost, whatever the order of the steps: if one had its effect since the last
  -- poll of the future began, and the task is not complete, then a thread has the task that polls it
  -- next, or that has to do so since the status is REPOLL.
  pub notify_not_lost :
      (es : List Event)
      → (run (init d) es).due ≡ true
      → (run (init d) es).mutex.status ≢ complete
      → (i : ℕ) × (owner ((run (init d) es).pc i) ≡ true)
        × (((run (init d) es).mutex.status ≡ repoll) ⊎ (about ((run (init d) es).pc i) ≡ true))
  notify_not_lost es h m =
      let (inv, noted) = Noted-run (init d) es (init-Sound d) (λ b. absurd (cc)) in
      elim (Bool-cases ((run (init d) es).mutex.status == 2)) [
        | inl y ↦ let (j, o) = inv.held (ground arith) m in (j, o, inl (ground arith))
        | inr y ↦ let (j, a) = noted h (ground arith) m in (j, about-owner _ a, inr a)
      ]
