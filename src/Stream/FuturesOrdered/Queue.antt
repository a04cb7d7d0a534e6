-- ===== src/Stream/FuturesOrdered/Queue.antt =====
-- Outputs with their indices, in any order, against the list of the outputs in the order of the
-- indices; and what `pop` does to them (futures_ordered.rs).
use futures_rs.Prelude.{
  ℕ, ◌+◌, ◌≡◌, ◌≢◌, refl, sym, ap, subst, ◌⊎◌, inl, inr, List, [], ◌∷◌, Option, none, some, Bool,
  true, false, if◌then◌else◌, arith, ◌==◌, Bool-cases,
}
use futures_rs.Prelude.Int.{
  ℤ, pos_part, neg_part, succ, leb_ℤ, eq_ℤ, ◌≤ℤ◌, eq_ℤ_refl, eq_of_eq_ℤ, eq_ℤ-eq_of_le, succ_parts,
}
use futures_rs.Stream.FuturesOrdered.{OrderWrapper, lesser, pop}

-- The outputs with the indices from `o` on.
abbrev pub number {ℓ} : {B : Type ℓ} → ℤ → List B → List (OrderWrapper B)
number o [] = []
number o (b ∷ bs) = (o, b) ∷ number (succ o) bs

module _ {ℓ} {B : Type ℓ} where
  abbrev pub count : ℤ → List (OrderWrapper B) → ℕ
  count k [] = 0
  count k (x ∷ xs) = (if eq_ℤ x.0 k then 1 else 0) + count k xs

  abbrev pub lookup : ℤ → List (OrderWrapper B) → Option B
  lookup k [] = none
  lookup k (x ∷ xs) = if eq_ℤ x.0 k then some x.1 else lookup k xs

  -- Each of the outputs is the one that the second list has for its index.
  abbrev pub Agree : List (OrderWrapper B) → List (OrderWrapper B) → Type ℓ
  Agree [] ns = Unit
  Agree (x ∷ xs) ns = (lookup x.0 ns ≡ some x.1) × Agree xs ns

  -- Two lists together have just the outputs of the third, each once.
  pub record Shares (ps hs ns : List (OrderWrapper B)) : Type ℓ where
    pub counts : (k : ℤ) → count k ps + count k hs ≡ count k ns
    pub agree1 : Agree ps ns
    pub agree2 : Agree hs ns

  -- No index of `number` is below the first.
  count_below : (k o : ℤ) (bs : List B) → succ k ≤ℤ o → count k (number o bs) ≡ 0
  count_below k o [] h = refl
  count_below k o (b ∷ bs) h = elim (Bool-cases (eq_ℤ o k)) [
    | inl e ↦ absurd (
        omega (arith, succ_parts k, ap pos_part (eq_of_eq_ℤ o k e), ap neg_part (eq_of_eq_ℤ o k e)))
    | inr n ↦ ground (arith, count_below k (succ o) bs (omega (arith, succ_parts o)))
  ]

  pub count_head : (o : ℤ) (bs : List B) → count o (number (succ o) bs) ≡ 0
  count_head o bs = count_below o (succ o) bs (omega arith)

  lookup_below : (k o : ℤ) (bs : List B) (c : B) → lookup k (number o bs) ≡ some c → o ≤ℤ k
  lookup_below k o [] c h = absurd (ground arith)
  lookup_below k o (b ∷ bs) c h = elim (Bool-cases (eq_ℤ o k)) [
    | inl e ↦ omega (arith, ap pos_part (eq_of_eq_ℤ o k e), ap neg_part (eq_of_eq_ℤ o k e))
    | inr n ↦ omega (arith, succ_parts o, lookup_below k (succ o) bs c (ground arith))
  ]

  -- Without the first index nothing but the rest is named.
  pub Agree-tail :
      (o : ℤ) (b : B) (xs ns : List (OrderWrapper B))
      → Agree xs ((o, b) ∷ ns)
      → count o xs ≡ 0
      → Agree xs ns
  Agree-tail o b [] ns a h = tt
  Agree-tail o b (x ∷ xs) ns a h =
      (ground (arith, eq_of_eq_ℤ o x.0, eq_ℤ_refl o), Agree-tail o b xs ns a.1 (ground arith))

  -- What `pop` takes and leaves.
  pub record Popped (hs : List (OrderWrapper B)) (x : OrderWrapper B) (r : List (OrderWrapper B))
      : Type ℓ where
    pub counts : (k : ℤ) → count k hs ≡ (if eq_ℤ x.0 k then 1 else 0) + count k r
    pub agree : (ns : List (OrderWrapper B)) → Agree hs ns → (lookup x.0 ns ≡ some x.1) × Agree r ns
    pub least : (k : ℤ) → count k hs ≢ 0 → x.0 ≤ℤ k

  abbrev pick :
      Bool
      → OrderWrapper B
      → OrderWrapper B
      → List (OrderWrapper B)
      → OrderWrapper B × List (OrderWrapper B)
  pick b x y r = if b then (x, y ∷ r) else (y, x ∷ r)

  lesser-Popped :
      (x y : OrderWrapper B) (xs r : List (OrderWrapper B))
      → Popped xs y r
      → Popped (x ∷ xs) (lesser x (y, r)).0 (lesser x (y, r)).1
  lesser-Popped x y xs r p = go (leb_ℤ x.0 y.0) refl
    where
      go : (b : Bool) → leb_ℤ x.0 y.0 ≡ b → Popped (x ∷ xs) (pick b x y r).0 (pick b x y r).1
      go true e = record {
        counts = λ k. omega (arith, p.counts k);
        agree = λ ns a. (a.0, p.agree ns a.1);
        least = λ k h. elim (Bool-cases (eq_ℤ x.0 k)) [
          | inl s ↦
              omega (arith, ap pos_part (eq_of_eq_ℤ x.0 k s), ap neg_part (eq_of_eq_ℤ x.0 k s))
          | inr n ↦
              let l : y.0 ≤ℤ k = p.least k (ground arith) in
              let g : x.0 ≤ℤ y.0 = ground arith in omega arith
        ];
      }
      go false e = record {
        counts = λ k. omega (arith, p.counts k);
        agree = λ ns a. let (l, q) = p.agree ns a.1 in (l, (a.0, q));
        least = λ k h. elim (Bool-cases (eq_ℤ x.0 k)) [
          | inl s ↦
              let g : y.0 ≤ℤ x.0 = ground arith in
              omega (arith, ap pos_part (eq_of_eq_ℤ x.0 k s), ap neg_part (eq_of_eq_ℤ x.0 k s))
          | inr n ↦ p.least k (ground arith)
        ];
      }

  single_lem : (x : OrderWrapper B) → Popped (x ∷ []) x []
  single_lem x = record {
    counts = λ k. refl;
    agree = λ ns a. a;
    least = λ k h. elim (Bool-cases (eq_ℤ x.0 k)) [
      | inl s ↦ omega (arith, ap pos_part (eq_of_eq_ℤ x.0 k s), ap neg_part (eq_of_eq_ℤ x.0 k s))
      | inr n ↦ absurd (ground arith)
    ];
  }

  pub pop_lem :
      (hs : List (OrderWrapper B))
      → ((pop hs ≡ none) × (hs ≡ []))
        ⊎ ((x : OrderWrapper B) × (r : List (OrderWrapper B)) × (pop hs ≡ some (x, r))
            × Popped hs x r)
  unfolding pop
  pop_lem [] = inl (refl, refl)
  pop_lem (x ∷ xs) = inr (elim (pop_lem xs) [
    | inl e ↦ (x, [], rw e.0 refl, subst (λ ys. Popped (x ∷ ys) x []) (sym e.1) (single_lem x))
    | inr g ↦
        let (y, r, e, p) = g in
        ((lesser x (y, r)).0, (lesser x (y, r)).1, rw e refl, lesser-Popped x y xs r p)
  ])

  first_lem :
      (o k : ℤ) (bs : List B) (c : B)
      → eq_ℤ k o ≡ true
      → lookup k (number o bs) ≡ some c
      → (cs : List B) × (bs ≡ c ∷ cs)
  first_lem o k [] c e l = absurd (ground arith)
  first_lem o k (b ∷ bs) c e l =
      (bs, ground (arith, ap (λ z. eq_ℤ o z) (eq_of_eq_ℤ k o e), eq_ℤ_refl o))

  tail-Shares :
      (o : ℤ) (c : B) (cs : List B) (ps hs : List (OrderWrapper B))
      → ((j : ℤ) → count j ps + count j hs ≡ count j (number (succ o) cs))
      → Agree ps (number o (c ∷ cs))
      → Agree hs (number o (c ∷ cs))
      → Shares ps hs (number (succ o) cs)
  tail-Shares o c cs ps hs n a b = record {
    counts = n;
    agree1 = Agree-tail o c ps _ a (omega (arith, n o, count_head o cs));
    agree2 = Agree-tail o c hs _ b (omega (arith, n o, count_head o cs));
  }

  module _ (o : ℤ) (bs : List B) (k : ℤ) (c : B) where
    -- The one with the first index, if it is popped, is the first output.
    pub pop_next :
        (ps hs r : List (OrderWrapper B))
        → Shares ps hs (number o bs)
        → Popped hs (k, c) r
        → eq_ℤ k o ≡ true
        → (cs : List B) × (bs ≡ c ∷ cs) × Shares ps r (number (succ o) cs)
    pop_next ps hs r sh p e =
        let (l, a) = p.agree _ sh.agree2 in
        let (cs, q) = first_lem o k bs c e l in
        (
          cs,
          q,
          tail-Shares o c cs ps r
              (λ j. omega (
                arith,
                sh.counts j,
                p.counts j,
                ap (λ z. count j (number o z)) q,
                ap {B = ℕ} (λ z. if eq_ℤ z j then 1 else 0) (eq_of_eq_ℤ k o e),
              ))
              (subst (λ z. Agree ps (number o z)) q sh.agree1)
              (subst (λ z. Agree r (number o z)) q a),
        )

    -- If another one is popped, then the first is not there.
    pub pop_other :
        (ps hs r : List (OrderWrapper B))
        → Shares ps hs (number o bs)
        → Popped hs (k, c) r
        → eq_ℤ k o ≡ false
        → count o hs ≡ 0
    pop_other ps hs r sh p e = elim (Bool-cases (count o hs == 0)) [
      | inl z ↦ ground arith
      | inr z ↦
          let (l, a) = p.agree _ sh.agree2 in
          let g : k ≤ℤ o = p.least o (ground arith) in
          absurd (ground (arith, eq_ℤ-eq_of_le k o g (lookup_below k o bs c l)))
    ]

    -- The next of the others is the first output, or goes to the heap.
    pub next_lem :
        (ps hs : List (OrderWrapper B))
        → Shares ((k, c) ∷ ps) hs (number o bs)
        → eq_ℤ k o ≡ true
        → (cs : List B) × (bs ≡ c ∷ cs) × Shares ps hs (number (succ o) cs)
    next_lem ps hs sh e =
        let (cs, q) = first_lem o k bs c e sh.agree1.0 in
        (
          cs,
          q,
          tail-Shares o c cs ps hs
              (λ j. omega (
                arith,
                sh.counts j,
                ap (λ z. count j (number o z)) q,
                ap {B = ℕ} (λ z. if eq_ℤ z j then 1 else 0) (eq_of_eq_ℤ k o e),
              ))
              (subst (λ z. Agree ps (number o z)) q sh.agree1.1)
              (subst (λ z. Agree hs (number o z)) q sh.agree2),
        )

  pub other_lem :
      (o : ℤ) (bs : List B) (k : ℤ) (c : B) (ps hs : List (OrderWrapper B))
      → Shares ((k, c) ∷ ps) hs (number o bs)
      → Shares ps ((k, c) ∷ hs) (number o bs)
  other_lem o bs k c ps hs sh = record {
    counts = λ j. omega (arith, sh.counts j);
    agree1 = sh.agree1.1;
    agree2 = (sh.agree1.0, sh.agree2);
  }

  pub end_lem :
      (o : ℤ) (bs : List B) (hs : List (OrderWrapper B))
      → Shares [] hs (number o bs)
      → count o hs ≡ 0
      → bs ≡ []
  end_lem o [] hs sh h = refl
  end_lem o (b ∷ bs) hs sh h = absurd (ground (arith, sh.counts o, eq_ℤ_refl o))
