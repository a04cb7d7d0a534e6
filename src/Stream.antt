-- ===== src/Stream.antt =====
-- futures-core/src/stream.rs and future.rs: what a stream and a future are to the adapters, which are
-- given them. The `Context` of a poll is passed on by every adapter and left out.
pub mod FuturesOrdered
pub mod Peek
pub mod Iter
pub mod Once
pub mod Unfold
pub mod Select
pub mod SelectWithStrategy
pub mod Tests
pub mod Compose
pub mod Zip
pub mod Collect
pub mod Any
pub mod All
pub mod ForEach
pub mod Fold
pub mod Chunks
pub mod Fuse
pub mod Enumerate
pub mod Flatten
pub mod Scan
pub mod Chain
pub mod Skip
pub mod Take
pub mod Map
pub mod SkipWhile
pub mod TakeWhile
pub mod Then
pub mod FilterMap
pub mod Filter
use futures_rs.Prelude.{
  ℕ, ◌+◌, ◌-◌, ◌≤◌, ◌<◌, ◌≡◌, List, [], ◌∷◌, Option, none, some, Bool, arith, length, ltb,
  if◌then◌else◌,
}
use futures_rs.Task.{Poll, ready, pending}
use futures_rs.Run.{Run, return, ◌>>=◌, Turn, again, done, loop, Gives, loop-again, loop-done}

pub record Future {ℓ κ} (F : Type ℓ) (B : Type κ) : Type (ℓ ⊔ κ) where
  pub poll : F → Run (Poll B × F)

-- `Stream`, and `FusedStream`.
pub record Stream {ℓ κ} (S : Type ℓ) (A : Type κ) : Type (ℓ ⊔ κ) where
  pub poll_next : S → Run (Poll (Option A) × S)
  pub size_hint : S → ℕ × Option ℕ
  pub is_terminated : S → Bool

-- The future comes to the value, after any number of `Pending`.
pub data Resolves {ℓ κ} {F : Type ℓ} {B : Type κ} (fu : Future F B) : F → B → Type (ℓ ⊔ κ) where
  resolve : {f f' : F} {b : B} → Gives (fu.poll f) (ready b, f') → Resolves fu f b
  wait : {f f' : F} {b : B} → Gives (fu.poll f) (pending, f') → Resolves fu f' b → Resolves fu f b

-- The stream yields the items and then `None`, with any number of `Pending` in between.
pub data Yields {ℓ κ} {S : Type ℓ} {A : Type κ} (st : Stream S A) : S → List A → Type (ℓ ⊔ κ) where
  finish : {s s' : S} → Gives (st.poll_next s) (ready none, s') → Yields st s []
  item :
      {s s' : S} {a : A} {xs : List A}
      → Gives (st.poll_next s) (ready (some a), s')
      → Yields st s' xs
      → Yields st s (a ∷ xs)
  wait :
      {s s' : S} {xs : List A}
      → Gives (st.poll_next s) (pending, s')
      → Yields st s' xs
      → Yields st s xs

-- An item that waits for its future, and what the future will say of it.
pub data Held {ℓ κ μ} {F : Type ℓ} {A : Type κ} {B : Type μ} (fu : Future F B)
    : Option F → Option A → Option (A × B) → Type (ℓ ⊔ κ ⊔ μ) where
  idle : Held fu none none none
  holds : {fut : F} {a : A} {b : B} → Resolves fu fut b → Held fu (some fut) (some a) (some (a, b))

-- A stream whose `poll_next` is a `loop` of rounds.
abbrev pub looped {ℓ κ} :
    {S : Type ℓ} {B : Type κ}
    → (S → Run (Turn S (Poll (Option B))))
    → (S → ℕ × Option ℕ)
    → (S → Bool)
    → Stream S B
looped round hint end = record { poll_next = loop round; size_hint = hint; is_terminated = end }

module _ {ℓ κ} {S : Type ℓ} {B : Type κ} (round : S → Run (Turn S (Poll (Option B))))
    {hint : S → ℕ × Option ℕ} {end : S → Bool} where
  pub again-Yields :
      {t t' : S} {ys : List B}
      → Gives (round t) (again t')
      → Yields (looped round hint end) t' ys
      → Yields (looped round hint end) t ys
  again-Yields {t} {t'} h (finish g) = finish (loop-again round t t' _ h g)
  again-Yields {t} {t'} h (item g y) = item (loop-again round t t' _ h g) y
  again-Yields {t} {t'} h (wait g y) = wait (loop-again round t t' _ h g) y

  pub item-Yields :
      {t t' : S} {b : B} {ys : List B}
      → Gives (round t) (done (ready (some b)) t')
      → Yields (looped round hint end) t' ys
      → Yields (looped round hint end) t (b ∷ ys)
  item-Yields {t} {t'} h y = item (loop-done round t t' _ h) y

  pub wait-Yields :
      {t t' : S} {ys : List B}
      → Gives (round t) (done pending t')
      → Yields (looped round hint end) t' ys
      → Yields (looped round hint end) t ys
  wait-Yields {t} {t'} h y = wait (loop-done round t t' _ h) y

  pub finish-Yields :
      {t t' : S} → Gives (round t) (done (ready none) t') → Yields (looped round hint end) t []
  finish-Yields {t} {t'} h = finish (loop-done round t t' _ h)

-- A future whose `poll` is a `loop` of rounds.
abbrev pub looped_future {ℓ κ} :
    {S : Type ℓ} {B : Type κ} → (S → Run (Turn S (Poll B))) → Future S B
looped_future round = record { poll = loop round }

module _ {ℓ κ} {S : Type ℓ} {B : Type κ} (round : S → Run (Turn S (Poll B))) where
  pub again-Resolves :
      {t t' : S} {b : B}
      → Gives (round t) (again t')
      → Resolves (looped_future round) t' b
      → Resolves (looped_future round) t b
  again-Resolves {t} {t'} h (resolve g) = resolve (loop-again round t t' _ h g)
  again-Resolves {t} {t'} h (wait g y) = wait (loop-again round t t' _ h g) y

  pub wait-Resolves :
      {t t' : S} {b : B}
      → Gives (round t) (done pending t')
      → Resolves (looped_future round) t' b
      → Resolves (looped_future round) t b
  wait-Resolves {t} {t'} h y = wait (loop-done round t t' _ h) y

  pub done-Resolves :
      {t t' : S} {b : B} → Gives (round t) (done (ready b) t') → Resolves (looped_future round) t b
  done-Resolves {t} {t'} h = resolve (loop-done round t t' _ h)
