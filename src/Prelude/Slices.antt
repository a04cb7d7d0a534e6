-- ===== src/Prelude/Slices.antt =====
-- Parts of lists.
use futures_rs.Prelude.Lists.{take, drop, length}
use Prim.Native.Nat.{ℕ, zero, suc, ◌+◌, ◌-◌, ◌≤◌}
use mathlib.Core.Path.{◌≡◌, refl, ap, sym, ◌∙◌}
use mathlib.Core.List.{List, [], ◌∷◌, ◌++◌}
use native.Mathlib.Omega.{arith}

module _ {ℓ} {A : Type ℓ} where
  pub take-take : (k m : ℕ) (xs : List A) → k ≤ m → take k (take m xs) ≡ take k xs
  take-take zero m xs h = refl
  take-take (suc k) zero xs h = absurd (omega arith)
  take-take (suc k) (suc m) [] h = refl
  take-take (suc k) (suc m) (x ∷ xs) h = ap (◌∷◌ x) (take-take k m xs (omega arith))

  pub take-nil : (n : ℕ) → take {A = A} n [] ≡ []
  take-nil zero = refl
  take-nil (suc n) = refl

  pub drop-take : (k m : ℕ) (xs : List A) → drop k (take m xs) ≡ take (m - k) (drop k xs)
  drop-take zero m xs = ap (λ n. take n xs) (omega arith)
  drop-take (suc k) zero xs =
      ap (λ n. take n (drop (suc k) xs)) {x = 0} {y = 0 - suc k} (omega arith)
  drop-take (suc k) (suc m) [] = sym (take-nil (suc m - suc k))
  drop-take (suc k) (suc m) (x ∷ xs) = drop-take k m xs ∙ ap (λ n. take n (drop k xs)) (omega arith)

  pub drop-nil : (n : ℕ) → drop {A = A} n [] ≡ []
  drop-nil zero = refl
  drop-nil (suc n) = refl

  pub drop-drop : (k m : ℕ) (xs : List A) → drop k (drop m xs) ≡ drop (m + k) xs
  drop-drop k zero xs = ap (λ n. drop n xs) (omega arith)
  drop-drop k (suc m) [] = drop-nil k ∙ sym (drop-nil (suc m + k))
  drop-drop k (suc m) (x ∷ xs) =
      drop-drop k m xs ∙ ap (λ n. drop n (x ∷ xs)) {x = suc (m + k)} (omega arith)

  pub take-drop : (k : ℕ) (xs : List A) → take k xs ++ drop k xs ≡ xs
  take-drop zero xs = refl
  take-drop (suc k) [] = refl
  take-drop (suc k) (x ∷ xs) = ap (◌∷◌ x) (take-drop k xs)

  -- The part from `k` to `m`, and the part after it.
  pub drop_rest : (k m : ℕ) (xs : List A) → k ≤ m → drop k (take m xs) ++ drop m xs ≡ drop k xs
  drop_rest zero m xs h = take-drop m xs
  drop_rest (suc k) zero xs h = absurd (omega arith)
  drop_rest (suc k) (suc m) [] h = refl
  drop_rest (suc k) (suc m) (x ∷ xs) h = drop_rest k m xs (omega arith)

  pub take-append : (k : ℕ) (xs ys : List A) → k ≤ length xs → take k (xs ++ ys) ≡ take k xs
  take-append zero xs ys h = refl
  take-append (suc k) [] ys h = absurd (omega arith)
  take-append (suc k) (x ∷ xs) ys h = ap (◌∷◌ x) (take-append k xs ys (omega arith))

  pub drop-append : (k : ℕ) (xs ys : List A) → k ≤ length xs → drop k (xs ++ ys) ≡ drop k xs ++ ys
  drop-append zero xs ys h = refl
  drop-append (suc k) [] ys h = absurd (omega arith)
  drop-append (suc k) (x ∷ xs) ys h = drop-append k xs ys (omega arith)

  -- The first bytes, added to what was there before.
  pub take_more : (k m : ℕ) (xs : List A) → take k xs ++ take m (drop k xs) ≡ take (k + m) xs
  take_more zero m xs = ap (λ n. take n xs) (omega arith)
  take_more (suc k) m [] = take-nil m ∙ sym (take-nil (suc k + m))
  take_more (suc k) m (x ∷ xs) =
      ap (◌∷◌ x) (take_more k m xs) ∙ ap (λ n. take n (x ∷ xs)) {x = suc (k + m)} (omega arith)

  -- What was written to the front of a buffer, and the rest of it.
  pub take_front : (k : ℕ) (xs ys : List A) → k ≤ length xs → take k (take k xs ++ ys) ≡ take k xs
  take_front zero xs ys h = refl
  take_front (suc k) [] ys h = absurd (omega arith)
  take_front (suc k) (x ∷ xs) ys h = ap (◌∷◌ x) (take_front k xs ys (omega arith))

  pub drop_front : (k : ℕ) (xs ys : List A) → k ≤ length xs → drop k (take k xs ++ ys) ≡ ys
  drop_front zero xs ys h = refl
  drop_front (suc k) [] ys h = absurd (omega arith)
  drop_front (suc k) (x ∷ xs) ys h = drop_front k xs ys (omega arith)

  pub eq_nil : (xs : List A) → length xs ≡ 0 → xs ≡ []
  eq_nil [] h = refl
  eq_nil (x ∷ xs) h = absurd (omega arith)

  pub take_all : (xs : List A) → take (length xs) xs ≡ xs
  take_all [] = refl
  take_all (x ∷ xs) = ap (◌∷◌ x) (take_all xs)
