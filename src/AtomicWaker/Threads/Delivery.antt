-- ===== src/AtomicWaker/Threads/Delivery.antt =====
-- No wake-up is lost: what the threads of atomic_waker.rs owe to a registered waker.
use futures_rs.Prelude.{
  ℕ, zero, suc, ◌≤◌, ◌<◌, ◌≡◌, refl, ◌⊎◌, inl, inr, List, [], ◌∷◌, ◌++◌, some, true, false, ◌==◌,
  ◌&&◌, if◌then◌else◌, arith, update, Bool-cases, ==_iff,
}
use futures_rs.AtomicWaker.{Waker, AtomicWaker}
use futures_rs.AtomicWaker.Threads.{
  Pc, idle, reg_begin, reg_write, reg_commit, reg_take, reg_release, reg_wake, wake_begin,
  wake_take, wake_release, wake_call, move, System, init, Event, call_register, call_wake, advance,
  start, step, run,
}
use futures_rs.AtomicWaker.Threads.Ownership.{
  owner, Fits, Inv, store_lem, Sound, step-Sound, run-Sound,
}

-- How often `w` has been woken.
abbrev pub times : Waker → List Waker → ℕ
times w [] = 0
times w (x ∷ xs) = if x == w then suc (times w xs) else times w xs

-- How many steps thread `i` makes.
abbrev pub turns : ℕ → List Event → ℕ
turns i [] = 0
turns i (advance j ∷ es) = if j == i then suc (turns i es) else turns i es
turns i (e ∷ es) = turns i es

-- A thread at this place wakes `w` within `k` of its own steps.
abbrev Due : AtomicWaker → Waker → ℕ → Pc → Type 0
Due c w k (reg_write v) = (v ≡ w) × (c.state ≡ 3) × (5 ≤ k)
Due c w k (reg_commit v) = (v ≡ w) × (c.state ≡ 3) × (4 ≤ k)
Due c w k reg_take = (c.waker ≡ some w) × (3 ≤ k)
Due c w k (reg_release v) = (v ≡ w) × (2 ≤ k)
Due c w k (reg_wake v) = (v ≡ w) × (1 ≤ k)
Due c w k wake_take = (c.waker ≡ some w) × (3 ≤ k)
Due c w k (wake_release o) = (o ≡ some w) × (2 ≤ k)
Due c w k (wake_call o) = (o ≡ some w) × (1 ≤ k)
Due c w k _ = ⊥

times-append-le : (w : Waker) (xs ys : List Waker) → times w ys ≤ times w (xs ++ ys)
times-append-le w [] ys = omega arith
times-append-le w (x ∷ xs) ys = ground (arith, times-append-le w xs ys)

times-step : (w : Waker) (s : System) (e : Event) → times w s.woken ≤ times w (step s e).woken
unfolding step
times-step w s (advance i) = times-append-le w (move s.cell (s.pc i)).woke s.woken
times-step w s e = omega arith

times-run : (w : Waker) (s : System) (es : List Event) → times w s.woken ≤ times w (run s es).woken
unfolding run
times-run w s [] = omega arith
times-run w s (e ∷ es) = omega (arith, times-step w s e, times-run w (step s e) es)

-- The thread's own step pays, or brings the wake-up one step nearer.
Due-self :
    (c : AtomicWaker) (w : Waker) (k : ℕ) (p : Pc)
    → Fits c p
    → Due c w (suc k) p
    → ((move c p).woke ≡ w ∷ []) ⊎ Due (move c p).cell w k (move c p).next
unfolding move
Due-self c w k idle f d = absurd d
Due-self c w k p f d = ground (arith, store_lem c.waker w)

-- The step of another thread leaves the debt as it is.
Due-other :
    (c : AtomicWaker) (w : Waker) (k : ℕ) (p q : Pc)
    → Fits c p
    → Fits c q
    → (owner p && owner q) ≡ false
    → c.state < 4
    → Due c w k p
    → Due (move c q).cell w k p
unfolding move
Due-other c w k idle q fp fq apart r d = absurd d
Due-other c w k p idle fp fq apart r d = d
Due-other c w k p q fp fq apart r d = ground arith

apart_of_Inv :
    {c : AtomicWaker} {pc : ℕ → Pc}
    → Inv c pc
    → (i j : ℕ) → (i == j) ≡ false
    → (owner (pc i) && owner (pc j)) ≡ false
apart_of_Inv inv i j ne = ground (arith, inv.unique i j)

-- A call that thread `j` starts does not touch the debt of thread `i`.
Due-start : (c : AtomicWaker) (w : Waker) (k : ℕ) (p q : Pc) → Due c w k p → Due c w k (start p q)
Due-start c w k idle q d = absurd d
Due-start c w k p q d = d

Due-call :
    (s : System) (w : Waker) (k i j : ℕ) (q : Pc)
    → Due s.cell w k (s.pc i)
    → Due s.cell w k (update s.pc j (start (s.pc j) q) i)
Due-call s w k i j q d = elim (Bool-cases (j == i)) [
  | inl e ↦ rw e (Due-start s.cell w k (s.pc j) q (rw ((==_iff j i).0 e) d))
  | inr n ↦ rw n d
]

Due-advance_self :
    (s : System) (w : Waker) (k i j : ℕ)
    → (j == i) ≡ true
    → Sound s
    → Due s.cell w (suc k) (s.pc i)
    → (times w s.woken < times w (step s (advance j)).woken)
      ⊎ Due (step s (advance j)).cell w k ((step s (advance j)).pc i)
unfolding step
Due-advance_self s w k i j e inv d =
    elim (Due-self s.cell w k (s.pc j) (inv.fits j) (rw ((==_iff j i).0 e) d)) [
      | inl woke ↦ inl (rw (woke, (==_iff w w).1 refl) (omega arith))
      | inr d' ↦ inr (rw e d')
    ]

Due-advance_other :
    (s : System) (w : Waker) (k i j : ℕ)
    → Sound s
    → (j == i) ≡ false
    → Due s.cell w k (s.pc i)
    → Due (step s (advance j)).cell w k ((step s (advance j)).pc i)
unfolding step
Due-advance_other s w k i j inv ne d = rw ne (
    Due-other s.cell w k (s.pc i) (s.pc j) (inv.fits i) (inv.fits j)
      (apart_of_Inv inv i j (ground arith)) inv.range d)

not-Due_zero : (c : AtomicWaker) (w : Waker) (p : Pc) → ¬ Due c w 0 p
not-Due_zero c w idle d = d
not-Due_zero c w p d = ground arith

-- Whatever the other threads do, `k` steps of the thread that owes `w` a wake-up pay it.
Due-paid :
    (es : List Event) (s : System) (w : Waker) (k i : ℕ)
    → Sound s
    → Due s.cell w k (s.pc i)
    → k ≤ turns i es
    → times w s.woken < times w (run s es).woken
unfolding run
Due-paid es s w zero i inv d h = absurd (not-Due_zero s.cell w (s.pc i) d)
Due-paid [] s w (suc k) i inv d h = absurd (omega arith)
Due-paid (call_register j v ∷ es) s w (suc k) i inv d h = omega (
  arith,
  times-step w s (call_register j v),
  Due-paid es (step s (call_register j v)) w (suc k) i (step-Sound s (call_register j v) inv)
      (unfold step in Due-call s w (suc k) i j (reg_begin v) d) h,
)
Due-paid (call_wake j ∷ es) s w (suc k) i inv d h = omega (
  arith,
  times-step w s (call_wake j),
  Due-paid es (step s (call_wake j)) w (suc k) i (step-Sound s (call_wake j) inv)
      (unfold step in Due-call s w (suc k) i j (wake_begin) d) h,
)
Due-paid (advance j ∷ es) s w (suc k) i inv d h = elim (Bool-cases (j == i)) [
  | inl e ↦ elim (Due-advance_self s w k i j e inv d) [
    | inl paid ↦ omega (arith, times-run w (step s (advance j)) es)
    | inr d' ↦ omega (
      arith,
      times-step w s (advance j),
      Due-paid es (step s (advance j)) w k i (step-Sound s (advance j) inv) d' (ground arith),
    )
  ]
  | inr n ↦ omega (
    arith,
    times-step w s (advance j),
    Due-paid es (step s (advance j)) w (suc k) i (step-Sound s (advance j) inv)
        (Due-advance_other s w (suc k) i j inv n d) (rw n at h),
  )
]

-- `w` is in the cell, or a thread that holds the cell is about to put it there.
abbrev pub Registered : System → Waker → Type 0
Registered s w = (s.cell.waker ≡ some w) ⊎ ((i : ℕ) × (s.pc i ≡ reg_write w))

-- The thread that holds the cell when the flag of `wake` is set.
owner-Due :
    (c : AtomicWaker) (w : Waker) (p : Pc)
    → Fits c p
    → owner p ≡ true
    → (c.state ≡ 0 → ⊥)
    → c.waker ≡ some w
    → (v : Waker) × ((v ≡ w) ⊎ (p ≡ reg_write v)) × Due (move c wake_begin).cell v 5 p
unfolding move
owner-Due c w idle f o nz e = absurd (ground arith)
owner-Due c w (reg_write v) f o nz e = (v, inr refl, ground arith)
owner-Due c w (reg_commit v) f o nz e = (v, ground arith, ground arith)
owner-Due c w reg_take f o nz e = (w, inl refl, ground arith)
owner-Due c w wake_take f o nz e = (w, inl refl, ground arith)
owner-Due c w p f o nz e = absurd (ground arith)

writer-Due :
    (c : AtomicWaker) (w : Waker)
    → Fits c (reg_write w)
    → Due (move c wake_begin).cell w 5 (reg_write w)
unfolding move
writer-Due c w f = ground arith

abbrev pub Debtor : System → ℕ → Waker → Type 0
Debtor s i w =
    (j : ℕ) × (v : Waker) × ((v ≡ w) ⊎ (s.pc j ≡ reg_write v))
    × Due (step s (advance i)).cell v 5 ((step s (advance i)).pc j)

wake-Debtor :
    (s : System) (i : ℕ) (w : Waker) → Sound s → s.pc i ≡ wake_begin → Registered s w → Debtor s i w
unfolding step
wake-Debtor s i w inv e (inl c) = elim (Bool-cases (s.cell.state == 0)) [
  | inl z ↦ (i, w, inl refl, rw (e, (==_iff i i).1 refl) (unfold move in ground arith))
  | inr nz ↦
      let (j, o) = inv.held (ground arith) in
      let (v, from, due) = owner-Due s.cell w (s.pc j) (inv.fits j) o (ground arith) c in
      (j, v, from, rw e (ground (arith)))
]
wake-Debtor s i w inv e (inr (j, r)) =
    let due = writer-Due s.cell w (rw r at (inv.fits j)) in
    (j, w, inr r, rw e (ground (arith, due)))

-- A wake-up is never lost. Let a thread be about to call `wake` while `w` is registered (in the
-- cell, or being written to it). When its flag is set there is a thread `j` and a waker `v`, which
-- is `w` or the newer one that `j` is registering, such that in every continuation in which `j`
-- makes five steps `v` is woken once more, whatever the other threads do.
pub wake_not_lost :
    (es : List Event) (i : ℕ) (w : Waker)
    → let s = run init es in
      s.pc i ≡ wake_begin
      → Registered s w
      → (j : ℕ) × (v : Waker) × ((v ≡ w) ⊎ (s.pc j ≡ reg_write v))
        × ((later : List Event)
            → 5 ≤ turns j later
            → times v s.woken < times v (run (step s (advance i)) later).woken)
wake_not_lost es i w e r =
    let s = run init es in
    let sound = run-Sound es in
    let (j, v, from, due) = wake-Debtor s i w sound e r in
    (
      j,
      v,
      from,
      λ later h. omega (
        arith,
        times-step v s (advance i),
        Due-paid later (step s (advance i)) v 5 j (step-Sound s (advance i) sound) due h,
      ),
    )
