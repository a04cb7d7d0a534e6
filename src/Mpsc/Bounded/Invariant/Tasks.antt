-- ===== src/Mpsc/Bounded/Invariant/Tasks.antt =====
-- The tasks of parked senders in futures-channel/src/mpsc/mod.rs, as the channel changes.
use futures_rs.Prelude.{
  ℕ, ◌≤◌, ◌<◌, ◌≡◌, refl, List, [], ◌∷◌, ◌++◌, Option, none, true, false, arith, update,
}
use futures_rs.Mpsc.Bounded.{SenderTask}
use futures_rs.Mpsc.Bounded.Invariant.{Parked}
use futures_rs.Mpsc.Bounded.Invariant.Members.{mem}

abbrev pub parked_task : SenderTask
parked_task = record { task = none; is_parked = true }

-- A task that is not in the queue may change.
pub Parked-update :
    (f : ℕ → SenderTask) (n m t : ℕ) (k : SenderTask) (ts : List ℕ)
    → n ≤ m
    → mem t ts ≡ false
    → Parked f n ts
    → Parked (update f t k) m ts
Parked-update f n m t k [] g o p = tt
Parked-update f n m t k (x ∷ ts) g o p =
    (ground arith, omega arith, Parked-update f n m t k ts g (ground arith) p.2)

-- The waker of a task does not matter.
pub Parked-cx :
    (f : ℕ → SenderTask) (n t : ℕ) (cx : Option ℕ) (ts : List ℕ)
    → Parked f n ts
    → Parked (update f t (record (f t) { task = cx })) n ts
Parked-cx f n t cx [] p = tt
Parked-cx f n t cx (x ∷ ts) p = (ground arith, p.1, Parked-cx f n t cx ts p.2)

pub Parked-append :
    (f : ℕ → SenderTask) (n t : ℕ) (ts : List ℕ)
    → (f t).is_parked ≡ true
    → t < n
    → Parked f n ts
    → Parked f n (ts ++ t ∷ [])
Parked-append f n t [] e lt p = (e, lt, tt)
Parked-append f n t (x ∷ ts) e lt p = (p.0, p.1, Parked-append f n t ts e lt p.2)

pub not-Parked :
    (f : ℕ → SenderTask) (n t : ℕ) (ts : List ℕ)
    → Parked f n ts
    → (f t).is_parked ≡ false
    → mem t ts ≡ false
not-Parked f n t [] p e = refl
not-Parked f n t (x ∷ ts) p e = ground (arith, not-Parked f n t ts p.2)

pub Parked-fresh : (f : ℕ → SenderTask) (n : ℕ) (ts : List ℕ) → Parked f n ts → mem n ts ≡ false
Parked-fresh f n [] p = refl
Parked-fresh f n (t ∷ ts) p = ground (arith, Parked-fresh f n ts p.2)
