-- ===== src/Stream/Compose.antt =====
-- The adapters of futures-util/src/stream/stream put together.
use futures_rs.Prelude.{
  ℕ, zero, suc, ◌≡◌, refl, ap, subst, List, [], ◌∷◌, ◌++◌, Bool, true, false, not, arith, take,
  drop, all, any, take_while, skip_while, if◌then◌else◌,
}
use futures_rs.Stream.Take.{take_stream, taking, take_Yields}
use futures_rs.Stream.Skip.{skip_stream, skipping, skip_Yields}
use futures_rs.Stream.Chain.{chain_stream, both, chain_Yields}
use futures_rs.Stream.TakeWhile
use futures_rs.Stream.TakeWhile.{take_while_stream}
use futures_rs.Stream.SkipWhile
use futures_rs.Stream.SkipWhile.{skip_while_stream}
use futures_rs.Stream.All
use futures_rs.Stream.All.{all_future, all_resolves}
use futures_rs.Stream.Any
use futures_rs.Stream.Any.{any_future, any_resolves}
use futures_rs.Stream.{Future, Stream, Resolves, Yields}

module _ {ℓ κ} {S : Type ℓ} {A : Type κ} (st : Stream S A) where
  take-drop : (n : ℕ) (xs : List A) → take n xs ++ drop n xs ≡ xs
  take-drop zero xs = refl
  take-drop (suc n) [] = refl
  take-drop (suc n) (x ∷ xs) = ap (◌∷◌ x) (take-drop n xs)

  -- A stream is what `take(n)` leaves of it, chained with what `skip(n)` leaves of a clone of it.
  pub split_at :
      (n : ℕ) (s : S) (xs : List A)
      → Yields st s xs
      → Yields
          (chain_stream (take_stream st) (skip_stream st))
          (both (take_stream st) (skip_stream st) (taking st n s) (skipping st n s))
          xs
  split_at n s xs y =
      subst
        (Yields (chain_stream (take_stream st) (skip_stream st))
          (both (take_stream st) (skip_stream st) (taking st n s) (skipping st n s)))
        (take-drop n xs)
        (chain_Yields (take_stream st) (skip_stream st) (take_Yields st n y) (skip_Yields st n y))

  module _ {μ} {F : Type μ} (fu : Future F Bool) (f : A → F) (p : A → Bool)
      (decides : (a : A) → Resolves fu (f a) (p a)) where
    while_parts : (xs : List A) → take_while p xs ++ skip_while p xs ≡ xs
    while_parts [] = refl
    while_parts (x ∷ xs) = go (p x) (while_parts xs)
      where
        go :
            (b : Bool)
            → take_while p xs ++ skip_while p xs ≡ xs
            → (if b then x ∷ take_while p xs else []) ++ (if b then skip_while p xs else x ∷ xs)
              ≡ x ∷ xs
        go true e = ap (◌∷◌ x) e
        go false e = refl

    -- A stream is what `take_while(f)` leaves of it, chained with what `skip_while(f)` leaves of a
    -- clone of it.
    pub split_while :
        (s : S) (xs : List A)
        → Yields st s xs
        → Yields
            (chain_stream (take_while_stream st fu f) (skip_while_stream st fu f))
            (both
              (take_while_stream st fu f)
              (skip_while_stream st fu f)
              (TakeWhile.new st fu f s)
              (SkipWhile.new st fu f s))
            xs
    split_while s xs y =
        subst
          (Yields (chain_stream (take_while_stream st fu f) (skip_while_stream st fu f)) (
            both (take_while_stream st fu f) (skip_while_stream st fu f) (TakeWhile.new st fu f s)
              (SkipWhile.new st fu f s)))
          (while_parts xs)
          (chain_Yields (take_while_stream st fu f) (skip_while_stream st fu f)
            (TakeWhile.new_Yields st fu f p decides y) (SkipWhile.new_Yields st fu f p decides y))

    all-not : (xs : List A) → all (λ a. not (p a)) xs ≡ not (any p xs)
    all-not [] = refl
    all-not (x ∷ xs) = ground (arith, all-not xs)

    -- `any(f)` and `all(not f)` over clones of a stream come to opposite answers, that of `any` being
    -- whether some item passes.
    pub any_all :
        (h : A → F)
        → ((a : A) → Resolves fu (h a) (not (p a)))
        → (s : S) (xs : List A) → Yields st s xs
        → Resolves (any_future st fu f) (Any.new st fu f s) (any p xs)
          × Resolves (all_future st fu h) (All.new st fu h s) (not (any p xs))
    any_all h denies s xs y = (
      any_resolves st fu f p decides y,
      subst (Resolves (all_future st fu h) (All.new st fu h s)) (all-not xs)
          (all_resolves st fu h (λ a. not (p a)) denies y),
    )
