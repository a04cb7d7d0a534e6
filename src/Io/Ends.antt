-- ===== src/Io/Ends.antt =====
-- A future of futures-util/src/io that has come to its result, with what it leaves: a future borrows
-- the reader and the buffer, which the caller has again afterwards.
use futures_rs.Task.{Poll, ready, pending}
use futures_rs.Run.{Run, Turn, again, done, loop-again, loop-done, Gives}
use futures_rs.Stream.{Future, looped_future}

-- The future comes to the value, after any number of `Pending`, and leaves the state.
pub data Ends {ℓ κ} {F : Type ℓ} {B : Type κ} (fu : Future F B) : F → B → F → Type (ℓ ⊔ κ) where
  end : {f f' : F} {b : B} → Gives (fu.poll f) (ready b, f') → Ends fu f b f'
  wait : {f f₁ f' : F} {b : B} → Gives (fu.poll f) (pending, f₁) → Ends fu f₁ b f' → Ends fu f b f'

module _ {ℓ κ} {S : Type ℓ} {B : Type κ} (round : S → Run (Turn S (Poll B))) where
  pub again-Ends :
      {t t₁ t' : S} {b : B}
      → Gives (round t) (again t₁)
      → Ends (looped_future round) t₁ b t'
      → Ends (looped_future round) t b t'
  again-Ends {t} {t₁} h (end g) = end (loop-again round t t₁ _ h g)
  again-Ends {t} {t₁} h (wait g e) = wait (loop-again round t t₁ _ h g) e

  pub wait-Ends :
      {t t₁ t' : S} {b : B}
      → Gives (round t) (done pending t₁)
      → Ends (looped_future round) t₁ b t'
      → Ends (looped_future round) t b t'
  wait-Ends {t} {t₁} h e = wait (loop-done round t t₁ _ h) e

  pub done-Ends :
      {t t' : S} {b : B} → Gives (round t) (done (ready b) t') → Ends (looped_future round) t b t'
  done-Ends {t} {t'} h = end (loop-done round t t' _ h)
