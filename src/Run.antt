-- ===== src/Run.antt =====
-- Computations that may loop or panic, for the bodies of `poll`. A `loop` of the source gets a number
-- of rounds; `Gives m a` says that from some number on the answer is `a`.
use futures_rs.Prelude.{ℕ, zero, suc, ◌+◌, ◌≤◌, ◌≡◌, refl, ap, ◌∙◌, subst, arith}

pub data Outcome {ℓ} (A : Type ℓ) : Type ℓ where
  exhausted panicked : Outcome A
  returned : A → Outcome A

pub record Run {ℓ} (A : Type ℓ) : Type ℓ where
  pub run : ℕ → Outcome A

abbrev pub and_then {ℓ κ} : {A : Type ℓ} {B : Type κ} → Outcome A → (A → Outcome B) → Outcome B
and_then exhausted f = exhausted
and_then panicked f = panicked
and_then (returned a) f = f a

unfoldable pub return {ℓ} : {A : Type ℓ} → A → Run A
return a = record { run = λ k. returned a }

unfoldable pub panic {ℓ} : {A : Type ℓ} → Run A
panic = record { run = λ k. panicked }

infixl 5 ◌>>=◌
unfoldable pub ◌>>=◌ {ℓ κ} : {A : Type ℓ} {B : Type κ} → Run A → (A → Run B) → Run B
m >>= f = record { run = λ k. and_then (m.run k) (λ a. (f a).run k) }

-- What a round of a `loop` ends in: the next round, or `break` with the state that is left.
pub data Turn {ℓ κ} (S : Type ℓ) (B : Type κ) : Type (ℓ ⊔ κ) where
  again : S → Turn S B
  done : B → S → Turn S B

module _ {ℓ κ} {S : Type ℓ} {B : Type κ} where
  unfoldable pub spin : ℕ → (S → Run (Turn S B)) → S → Outcome (B × S)
  spin zero round s = exhausted
  spin (suc k) round s = elim ((round s).run k) [
    | exhausted ↦ exhausted
    | panicked ↦ panicked
    | returned (again s') ↦ spin k round s'
    | returned (done b s') ↦ returned (b, s')
  ]

  unfoldable pub loop : (S → Run (Turn S B)) → S → Run (B × S)
  unfolding spin
  loop round s = record { run = λ k. spin k round s }

pub record Gives {ℓ} {A : Type ℓ} (m : Run A) (a : A) : Type ℓ where
  pub bound : ℕ
  pub holds : (k : ℕ) → bound ≤ k → m.run k ≡ returned a

pub return-Gives {ℓ} : {A : Type ℓ} (a : A) → Gives (return a) a
unfolding return
return-Gives a = record { bound = 0; holds = λ k h. refl }

pub return_eq-Gives {ℓ} : {A : Type ℓ} {a b : A} → a ≡ b → Gives (return a) b
return_eq-Gives {a} e = subst (Gives (return a)) e (return-Gives a)

pub >>=-Gives {ℓ κ} :
    {A : Type ℓ} {B : Type κ} {m : Run A} (f : A → Run B) {a : A} {b : B}
    → Gives m a
    → Gives (f a) b
    → Gives (m >>= f) b
unfolding ◌>>=◌
>>=-Gives f h g = record {
  bound = h.bound + g.bound;
  holds = λ k le.
      ap (λ o. and_then o (λ x. (f x).run k)) (h.holds k (omega arith)) ∙ g.holds k (omega arith);
}

-- One computation, and then a pure step.
pub map-Gives {ℓ κ} :
    {A : Type ℓ} {B : Type κ} {m : Run A} (f : A → B) {a : A}
    → Gives m a
    → Gives (m >>= λ x. return (f x)) (f a)
map-Gives f {a} h = >>=-Gives (λ x. return (f x)) h (return-Gives (f a))

module _ {ℓ κ} {S : Type ℓ} {B : Type κ} (round : S → Run (Turn S B)) where
  spin-again :
      (k : ℕ) (s s' : S) (r : B × S)
      → (round s).run k ≡ returned (again s')
      → spin k round s' ≡ returned r
      → spin (suc k) round s ≡ returned r
  unfolding spin
  spin-again k s s' r h g = rw (h, spin) g

  pub loop-done : (s s' : S) (b : B) → Gives (round s) (done b s') → Gives (loop round s) (b, s')
  unfolding loop spin
  loop-done s s' b h = record { bound = suc h.bound; holds = go }
    where
      go : (k : ℕ) → suc h.bound ≤ k → spin k round s ≡ returned (b, s')
      go zero le = absurd (omega arith)
      go (suc k) le = rw (h.holds k (omega arith), spin) refl

  pub loop-again :
      (s s' : S) (r : B × S)
      → Gives (round s) (again s')
      → Gives (loop round s') r
      → Gives (loop round s) r
  unfolding loop
  loop-again s s' r h g = record { bound = suc (h.bound + g.bound); holds = go }
    where
      go : (k : ℕ) → suc (h.bound + g.bound) ≤ k → spin k round s ≡ returned r
      go zero le = absurd (omega arith)
      go (suc k) le = spin-again k s s' r (h.holds k (omega arith)) (g.holds k (omega arith))
