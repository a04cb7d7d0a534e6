-- ===== src/Mpsc/Bounded/Invariant/Members.antt =====
-- Lists of numbers without repetition, as `parked_queue` of futures-channel/src/mpsc/mod.rs is one.
use futures_rs.Prelude.{
  ℕ, zero, suc, ◌≤◌, ◌<◌, ◌≡◌, refl, List, [], ◌∷◌, ◌++◌, Bool, false, ◌==◌, ◌||◌, arith, length,
  if◌then◌else◌, Bool-cases, inl, inr,
}

abbrev pub mem : ℕ → List ℕ → Bool
mem u [] = false
mem u (x ∷ xs) = x == u || mem u xs

abbrev pub Distinct : List ℕ → Type 0
Distinct [] = Unit
Distinct (x ∷ xs) = (mem x xs ≡ false) × Distinct xs

abbrev pub Below : ℕ → List ℕ → Type 0
Below n [] = Unit
Below n (x ∷ xs) = (x < n) × Below n xs

pub mem-append : (u x : ℕ) (xs : List ℕ) → mem u (xs ++ x ∷ []) ≡ mem u xs || x == u
mem-append u x [] = ground arith
mem-append u x (y ∷ ys) = ground (arith, mem-append u x ys)

pub Distinct-append :
    (x : ℕ) (xs : List ℕ) → mem x xs ≡ false → Distinct xs → Distinct (xs ++ x ∷ [])
Distinct-append x [] m d = (refl, tt)
Distinct-append x (y ∷ ys) m d =
    (ground (arith, mem-append y x ys), Distinct-append x ys (ground arith) d.1)

abbrev remove : ℕ → List ℕ → List ℕ
remove u [] = []
remove u (x ∷ xs) = if x == u then xs else x ∷ remove u xs

length-remove : (u : ℕ) (xs : List ℕ) → length xs ≤ suc (length (remove u xs))
length-remove u [] = omega arith
length-remove u (x ∷ xs) = ground (arith, length-remove u xs)

mem-remove : (u v : ℕ) (xs : List ℕ) → mem v xs ≡ false → mem v (remove u xs) ≡ false
mem-remove u v [] m = refl
mem-remove u v (x ∷ xs) m = ground (arith, mem-remove u v xs)

Distinct-remove : (u : ℕ) (xs : List ℕ) → Distinct xs → Distinct (remove u xs)
Distinct-remove u [] d = tt
Distinct-remove u (x ∷ xs) d = elim (Bool-cases (x == u)) [
  | inl e ↦ rw e d.1
  | inr n ↦ rw n (mem-remove u x xs d.0, Distinct-remove u xs d.1)
]

Below-weaken : (n : ℕ) (xs : List ℕ) → mem n xs ≡ false → Below (suc n) xs → Below n xs
Below-weaken n [] m b = tt
Below-weaken n (x ∷ xs) m b = (ground arith, Below-weaken n xs (ground arith) b.1)

Below-remove : (n : ℕ) (xs : List ℕ) → Distinct xs → Below (suc n) xs → Below n (remove n xs)
Below-remove n [] d b = tt
Below-remove n (x ∷ xs) d b = elim (Bool-cases (x == n)) [
  | inl e ↦ rw e (Below-weaken n xs (ground arith) b.1)
  | inr ne ↦ rw ne (ground arith, Below-remove n xs d.1 b.1)
]

-- Distinct numbers below `n` are at most `n`.
pub length-le : (n : ℕ) (xs : List ℕ) → Distinct xs → Below n xs → length xs ≤ n
length-le zero [] d b = omega arith
length-le zero (x ∷ xs) d b = absurd (omega arith)
length-le (suc n) xs d b = omega (
  arith,
  length-remove n xs,
  length-le n (remove n xs) (Distinct-remove n xs d) (Below-remove n xs d b),
)
