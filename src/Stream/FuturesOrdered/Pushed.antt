-- ===== src/Stream/FuturesOrdered/Pushed.antt =====
-- Outputs with their indices when one more is pushed at an end (futures_ordered.rs).
use futures_rs.Prelude.{
  ℕ, ◌+◌, ◌≡◌, refl, sym, ap, subst, List, [], ◌∷◌, ◌++◌, length, some, if◌then◌else◌, ◌≤◌, arith,
}
use mathlib.Core.List.{Permᴰ}
use futures_rs.Prelude.Int.{ℤ, pos_part, succ, eq_ℤ, eq_ℤ_refl, eq_of_eq_ℤ, succ-pos}
use futures_rs.Stream.FuturesOrdered.{OrderWrapper}
use futures_rs.Stream.FuturesOrdered.Queue.{number, count, lookup, Agree, Shares, count_head}

-- The index after those of `number`.
abbrev pub stop {ℓ} : {A : Type ℓ} → ℤ → List A → ℤ
stop o [] = o
stop o (x ∷ xs) = stop (succ o) xs

module _ {ℓ} {B : Type ℓ} where
  pub stop-pos : (o : ℤ) (bs : List B) → pos_part (stop o bs) ≤ pos_part o + length bs
  stop-pos o [] = omega arith
  stop-pos o (b ∷ bs) = omega (arith, succ-pos o, stop-pos (succ o) bs)

  pub stop-append : (o : ℤ) (bs : List B) (b : B) → stop o (bs ++ b ∷ []) ≡ succ (stop o bs)
  stop-append o [] b = refl
  stop-append o (c ∷ bs) b = stop-append (succ o) bs b

  number-append :
      (o : ℤ) (bs : List B) (b : B) → number o (bs ++ b ∷ []) ≡ number o bs ++ (stop o bs, b) ∷ []
  number-append o [] b = refl
  number-append o (c ∷ bs) b = ap (λ ns. (o, c) ∷ ns) (number-append (succ o) bs b)

  pub length-append : (bs : List B) (b : B) → length (bs ++ b ∷ []) ≡ 1 + length bs
  length-append [] b = refl
  length-append (c ∷ bs) b = omega (arith, length-append bs b)

  count-append :
      (k : ℤ) (xs : List (OrderWrapper B)) (x : OrderWrapper B)
      → count k (xs ++ x ∷ []) ≡ (if eq_ℤ x.0 k then 1 else 0) + count k xs
  count-append k [] x = refl
  count-append k (y ∷ xs) x = omega (arith, count-append k xs x)

  Agree-cons :
      (o : ℤ) (b : B) (xs ns : List (OrderWrapper B))
      → Agree xs ns
      → count o xs ≡ 0
      → Agree xs ((o, b) ∷ ns)
  Agree-cons o b [] ns a h = tt
  Agree-cons o b (x ∷ xs) ns a h =
      (ground (arith, eq_of_eq_ℤ o x.0, eq_ℤ_refl o), Agree-cons o b xs ns a.1 (ground arith))

  number-Agree : (o : ℤ) (bs : List B) → Agree (number o bs) (number o bs)
  number-Agree o [] = tt
  number-Agree o (b ∷ bs) = (
    ground (arith, eq_ℤ_refl o),
    Agree-cons o b (number (succ o) bs) _ (number-Agree (succ o) bs) (count_head o bs),
  )

  Agree-last :
      (xs ns : List (OrderWrapper B)) (x : OrderWrapper B)
      → Agree (xs ++ x ∷ []) ns
      → lookup x.0 ns ≡ some x.1
  Agree-last [] ns x a = a.0
  Agree-last (y ∷ xs) ns x a = Agree-last xs ns x a.1

  lookup-append :
      (k : ℤ) (c : B) (ns : List (OrderWrapper B)) (x : OrderWrapper B)
      → lookup k ns ≡ some c
      → lookup k (ns ++ x ∷ []) ≡ some c
  lookup-append k c [] x h = absurd (ground arith)
  lookup-append k c (n ∷ ns) x h = ground (arith, lookup-append k c ns x)

  Agree-append :
      (xs ns : List (OrderWrapper B)) (x : OrderWrapper B) → Agree xs ns → Agree xs (ns ++ x ∷ [])
  Agree-append [] ns x a = tt
  Agree-append (y ∷ xs) ns x a = (lookup-append y.0 y.1 ns x a.0, Agree-append xs ns x a.1)

  pub back-Shares :
      (o : ℤ) (bs : List B) (b : B) (ps hs : List (OrderWrapper B))
      → Shares ps hs (number o bs)
      → Shares ((stop o bs, b) ∷ ps) hs (number o (bs ++ b ∷ []))
  back-Shares o bs b ps hs sh =
      let n = number-append o bs b in
      let last = subst (λ ns. Agree ns (number o (bs ++ b ∷ []))) n (number-Agree o _) in
      record {
        counts = λ k.
            omega (arith, sh.counts k, count-append k (number o bs) (stop o bs, b), ap (count k) n);
        agree1 = (
          Agree-last (number o bs) _ (stop o bs, b) last,
          subst (Agree ps) (sym n) (Agree-append ps _ _ sh.agree1),
        );
        agree2 = subst (Agree hs) (sym n) (Agree-append hs _ _ sh.agree2);
      }

  pub front-Shares :
      (o : ℤ) (bs : List B) (b : B) (ps hs : List (OrderWrapper B))
      → Shares ps hs (number (succ o) bs)
      → Shares ((o, b) ∷ ps) hs (number o (b ∷ bs))
  front-Shares o bs b ps hs sh = record {
    counts = λ k. omega (arith, sh.counts k);
    agree1 = (
      ground (arith, eq_ℤ_refl o),
      Agree-cons o b ps _ sh.agree1 (omega (arith, sh.counts o, count_head o bs)),
    );
    agree2 = Agree-cons o b hs _ sh.agree2 (omega (arith, sh.counts o, count_head o bs));
  }

  Perm-count : (k : ℤ) {xs ys : List (OrderWrapper B)} → Permᴰ xs ys → count k xs ≡ count k ys
  Perm-count k Permᴰ.nil = refl
  Perm-count k (Permᴰ.cons e p) =
      omega (arith, ap {B = ℕ} (λ x. if eq_ℤ x.0 k then 1 else 0) e, Perm-count k p)
  Perm-count k (Permᴰ.swap e f) = omega (
    arith,
    ap {B = ℕ} (λ x. if eq_ℤ x.0 k then 1 else 0) e,
    ap {B = ℕ} (λ x. if eq_ℤ x.0 k then 1 else 0) f,
  )
  Perm-count k (Permᴰ.trans p q) = omega (arith, Perm-count k p, Perm-count k q)

  Perm-Agree :
      {xs ys : List (OrderWrapper B)} (ns : List (OrderWrapper B))
      → Permᴰ xs ys
      → Agree ys ns
      → Agree xs ns
  Perm-Agree ns Permᴰ.nil a = tt
  Perm-Agree ns (Permᴰ.cons e p) a =
      (subst (λ x. lookup x.0 ns ≡ some x.1) (sym e) a.0, Perm-Agree ns p a.1)
  Perm-Agree ns (Permᴰ.swap e f) a = (
    subst (λ x. lookup x.0 ns ≡ some x.1) (sym e) a.1.0,
    (subst (λ x. lookup x.0 ns ≡ some x.1) (sym f) a.0, a.1.1),
  )
  Perm-Agree ns (Permᴰ.trans p q) a = Perm-Agree ns p (Perm-Agree ns q a)

  -- The order in which the outputs are to come does not matter.
  pub Perm-Shares :
      {qs ps : List (OrderWrapper B)} (hs ns : List (OrderWrapper B))
      → Permᴰ qs ps
      → Shares ps hs ns
      → Shares qs hs ns
  Perm-Shares hs ns p sh = record {
    counts = λ k. omega (arith, sh.counts k, Perm-count k p);
    agree1 = Perm-Agree ns p sh.agree1;
    agree2 = sh.agree2;
  }
