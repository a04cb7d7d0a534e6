-- ===== src/FutureExt/MaybeDone.antt =====
-- futures-util/src/future/maybe_done.rs
use futures_rs.Prelude.{ℕ, zero, suc, ◌+◌, subst, Option, none, some, Bool, true, false, arith}
use futures_rs.Task.{Poll, ready, pending}
use futures_rs.Run.{Run, return, panic, ◌>>=◌, Gives, map-Gives, return-Gives}
use futures_rs.Stream.{Future, Resolves, resolve, wait}

pub data MaybeDone {ℓ κ} (F : Type ℓ) (B : Type κ) : Type (ℓ ⊔ κ) where
  future : F → MaybeDone F B
  finished : B → MaybeDone F B
  gone : MaybeDone F B

module _ {ℓ κ} {F : Type ℓ} {B : Type κ} where
  abbrev pub take_output : MaybeDone F B → Option B × MaybeDone F B
  take_output (finished b) = (some b, gone)
  take_output (future f) = (none, future f)
  take_output gone = (none, gone)

  abbrev pub is_terminated : MaybeDone F B → Bool
  is_terminated (future f) = false
  is_terminated (finished b) = true
  is_terminated gone = true

  abbrev pub on_res : Poll B × F → Poll (Unit {0}) × MaybeDone F B
  on_res (ready b, f) = (ready tt, finished b)
  on_res (pending, f) = (pending, future f)

-- `Option::unwrap`
abbrev pub unwrap {ℓ} : {A : Type ℓ} → Option A → Run A
unwrap none = panic
unwrap (some a) = return a

module _ {ℓ κ} {F : Type ℓ} {B : Type κ} (fu : Future F B) where
  -- It panics when the value was taken.
  unfoldable pub poll : MaybeDone F B → Run (Poll (Unit {0}) × MaybeDone F B)
  poll (future f) = fu.poll f >>= λ r. return (on_res r)
  poll (finished b) = return (ready tt, finished b)
  poll gone = panic

  -- The future comes to the value in at most so many polls after the next.
  pub data Comes : ℕ → MaybeDone F B → B → Type (ℓ ⊔ κ) where
    came : {n : ℕ} {b : B} → Comes n (finished b) b
    soon : {n : ℕ} {f f' : F} {b : B} → Gives (fu.poll f) (ready b, f') → Comes n (future f) b
    later :
        {n : ℕ} {f f' : F} {b : B}
        → Gives (fu.poll f) (pending, f')
        → Comes n (future f') b
        → Comes (suc n) (future f) b

  -- What a poll does to one that comes to a value.
  pub data Polled : ℕ → MaybeDone F B → B → Type (ℓ ⊔ κ) where
    now : {n : ℕ} {m : MaybeDone F B} {b : B} → Gives (poll m) (ready tt, finished b) → Polled n m b
    remains :
        {n : ℕ} {m m' : MaybeDone F B} {b : B}
        → Gives (poll m) (pending, m')
        → Comes n m' b
        → Polled (suc n) m b

  pub poll-Polled : {n : ℕ} {m : MaybeDone F B} {b : B} → Comes n m b → Polled n m b
  unfolding poll
  poll-Polled came = now (return-Gives _)
  poll-Polled (soon h) = now (map-Gives on_res h)
  poll-Polled (later h c) = remains (map-Gives on_res h) c

  pub Comes-suc : {n : ℕ} {m : MaybeDone F B} {b : B} → Comes n m b → Comes (suc n) m b
  Comes-suc came = came
  Comes-suc (soon h) = soon h
  Comes-suc (later h c) = later h (Comes-suc c)

  pub Comes-add : (k : ℕ) {n : ℕ} {m : MaybeDone F B} {b : B} → Comes n m b → Comes (k + n) m b
  Comes-add zero {n} {m} {b} c = subst (λ i. Comes i m b) (omega arith) c
  Comes-add (suc k) {n} {m} {b} c =
      subst (λ i. Comes i m b) (omega arith) (Comes-suc (Comes-add k c))

  pub resolves-Comes : {f : F} {b : B} → Resolves fu f b → (n : ℕ) × Comes n (future f) b
  resolves-Comes (resolve h) = (0, soon h)
  resolves-Comes (wait h r) = let (n, c) = resolves-Comes r in (suc n, later h c)
