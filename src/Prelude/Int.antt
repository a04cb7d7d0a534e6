-- ===== src/Prelude/Int.antt =====
-- Signed integers over the native numbers, under the library's names, for counters that go below zero.
use Prim.Native.Nat.{ℕ, zero, suc, ◌+◌, ◌≤◌, ◌<◌}
use mathlib.Core.Path.{◌≡◌, refl}
use mathlib.Core.Bool.{Bool, true, ◌&&◌}
use futures_rs.Prelude.Tests.{◌==◌, leb, if◌then◌else◌}
use native.Mathlib.Omega.{arith}

-- `negsuc n` is -(n + 1).
pub data ℤ : Type 0 where
  pos : ℕ → ℤ
  negsuc : ℕ → ℤ

abbrev pub pos_part : ℤ → ℕ
pos_part (pos n) = n
pos_part (negsuc n) = 0

abbrev pub neg_part : ℤ → ℕ
neg_part (pos n) = 0
neg_part (negsuc n) = suc n

-- a + 1 and a - 1
unfoldable pub succ : ℤ → ℤ
succ (pos n) = pos (suc n)
succ (negsuc zero) = pos 0
succ (negsuc (suc n)) = negsuc n

unfoldable pub pred : ℤ → ℤ
pred (pos zero) = negsuc 0
pred (pos (suc n)) = pos n
pred (negsuc n) = negsuc (suc n)

infix 50 ◌≤ℤ◌
abbrev pub ◌≤ℤ◌ : ℤ → ℤ → Type 0
a ≤ℤ b = pos_part a + neg_part b ≤ pos_part b + neg_part a

abbrev pub leb_ℤ : ℤ → ℤ → Bool
leb_ℤ a b = leb (pos_part a + neg_part b) (pos_part b + neg_part a)

unfoldable pub eq_ℤ : ℤ → ℤ → Bool
eq_ℤ a b = pos_part a == pos_part b && neg_part a == neg_part b

pub eq_ℤ_refl : (a : ℤ) → eq_ℤ a a ≡ true
unfolding eq_ℤ
eq_ℤ_refl (pos n) = ground arith
eq_ℤ_refl (negsuc n) = ground arith

pub eq_of_eq_ℤ : (a b : ℤ) → eq_ℤ a b ≡ true → a ≡ b
unfolding eq_ℤ
eq_of_eq_ℤ (pos m) (pos n) h = ground arith
eq_of_eq_ℤ (pos m) (negsuc n) h = ground arith
eq_of_eq_ℤ (negsuc m) (pos n) h = ground arith
eq_of_eq_ℤ (negsuc m) (negsuc n) h = ground arith

pub eq_ℤ-eq_of_le : (a b : ℤ) → a ≤ℤ b → b ≤ℤ a → eq_ℤ a b ≡ true
unfolding eq_ℤ
eq_ℤ-eq_of_le (pos m) (pos n) h g = ground arith
eq_ℤ-eq_of_le (pos m) (negsuc n) h g = ground arith
eq_ℤ-eq_of_le (negsuc m) (pos n) h g = ground arith
eq_ℤ-eq_of_le (negsuc m) (negsuc n) h g = ground arith

pub succ_parts : (a : ℤ) → pos_part (succ a) + neg_part a ≡ suc (pos_part a + neg_part (succ a))
unfolding succ
succ_parts (pos n) = ground arith
succ_parts (negsuc zero) = ground arith
succ_parts (negsuc (suc n)) = ground arith

pub succ-pred : (a : ℤ) → succ (pred a) ≡ a
unfolding succ pred
succ-pred (pos zero) = refl
succ-pred (pos (suc n)) = refl
succ-pred (negsuc n) = refl

-- i64 with wrap-around.
abbrev pub i64_max : ℕ
i64_max = 0x7fff_ffff_ffff_ffff

unfoldable pub add_one : ℤ → ℤ
add_one a = if eq_ℤ a (pos i64_max) then negsuc i64_max else succ a

unfoldable pub sub_one : ℤ → ℤ
sub_one a = if eq_ℤ a (negsuc i64_max) then pos i64_max else pred a

pub add_one_lem : (a : ℤ) → pos_part a < i64_max → add_one a ≡ succ a
unfolding add_one eq_ℤ
add_one_lem (pos n) h = ground arith
add_one_lem (negsuc n) h = ground arith

pub sub_one_lem : (a : ℤ) → neg_part a ≤ i64_max → sub_one a ≡ pred a
unfolding sub_one eq_ℤ
sub_one_lem (pos n) h = ground arith
sub_one_lem (negsuc n) h = ground arith

pub succ-pos : (a : ℤ) → pos_part (succ a) ≤ suc (pos_part a)
unfolding succ
succ-pos (pos n) = omega arith
succ-pos (negsuc zero) = omega arith
succ-pos (negsuc (suc n)) = omega arith

pub pred-pos : (a : ℤ) → pos_part (pred a) ≤ pos_part a
unfolding pred
pred-pos (pos zero) = omega arith
pred-pos (pos (suc n)) = omega arith
pred-pos (negsuc n) = omega arith
