-- ===== src/FutureExt/JoinAll.antt =====
-- futures-util/src/future/join_all.rs: the futures of a `JoinAllKind::Small`, of at most `SMALL` futures.
use futures_rs.Prelude.{ℕ, suc, ◌+◌, subst, List, [], ◌∷◌, map, Bool, true, false, ◌&&◌, arith}
use futures_rs.Task.{Poll, ready, pending, is_ready}
use futures_rs.Run.{Run, return, ◌>>=◌, Gives, map-Gives, >>=-Gives, return-Gives}
use futures_rs.Stream.{
  Future, Resolves, resolve, looped, again-Yields, item-Yields, wait-Yields, finish-Yields,
  looped_future, again-Resolves, wait-Resolves, done-Resolves,
}
use futures_rs.FutureExt.MaybeDone.{
  MaybeDone, future, finished, gone, take_output, unwrap, Comes, came, Polled, now, remains,
  poll-Polled, Comes-add, resolves-Comes,
}
use futures_rs.FutureExt.MaybeDone
use futures_rs.Stream

module _ {ℓ κ} {F : Type ℓ} {B : Type κ} where
  abbrev pub small : List F → List (MaybeDone F B)
  small [] = []
  small (f ∷ fs) = future f ∷ small fs

  unfoldable pub take_outputs : List (MaybeDone F B) → Run (List B)
  take_outputs [] = return []
  take_outputs (m ∷ ms) =
      unwrap (take_output m).0 >>= λ b. take_outputs ms >>= λ bs. return (b ∷ bs)

  -- What follows the polls: `elems` is replaced by an empty box.
  unfoldable pub outputs : Bool × List (MaybeDone F B) → Run (Poll (List B) × List (MaybeDone F B))
  outputs (true, ms) = take_outputs ms >>= λ bs. return (ready bs, [])
  outputs (false, ms) = return (pending, ms)

module _ {ℓ κ} {F : Type ℓ} {B : Type κ} (fu : Future F B) where
  -- The flag is `all_done`.
  unfoldable pub poll_elems : List (MaybeDone F B) → Run (Bool × List (MaybeDone F B))
  poll_elems [] = return (true, [])
  poll_elems (m ∷ ms) =
      MaybeDone.poll fu m >>= λ r. poll_elems ms >>= λ s. return (is_ready r.0 && s.0, r.1 ∷ s.1)

  unfoldable pub poll : List (MaybeDone F B) → Run (Poll (List B) × List (MaybeDone F B))
  poll ms = poll_elems ms >>= λ r. outputs r

  abbrev pub join_all_future : Future (List (MaybeDone F B)) (List B)
  join_all_future = record { poll = poll }

  take_outputs-Gives : (bs : List B) → Gives (take_outputs {F = F} (map finished bs)) bs
  unfolding take_outputs
  take_outputs-Gives [] = return-Gives []
  take_outputs-Gives (b ∷ bs) =
      >>=-Gives _ (return-Gives b) (map-Gives (λ cs. b ∷ cs) (take_outputs-Gives bs))

  outputs-Gives : (bs : List B) → Gives (outputs {F = F} (true, map finished bs)) (ready bs, [])
  unfolding outputs
  outputs-Gives bs = map-Gives (λ cs. (ready cs, [])) (take_outputs-Gives bs)

  data AllCome : ℕ → List (MaybeDone F B) → List B → Type (ℓ ⊔ κ) where
    nil : {n : ℕ} → AllCome n [] []
    cons :
        {n : ℕ} {m : MaybeDone F B} {b : B} {ms : List (MaybeDone F B)} {bs : List B}
        → Comes fu n m b
        → AllCome n ms bs
        → AllCome n (m ∷ ms) (b ∷ bs)

  data AllPolled : ℕ → List (MaybeDone F B) → List B → Type (ℓ ⊔ κ) where
    all_now :
        {n : ℕ} {ms : List (MaybeDone F B)} {bs : List B}
        → Gives (poll_elems ms) (true, map finished bs)
        → AllPolled n ms bs
    some_remain :
        {n : ℕ} {ms ms' : List (MaybeDone F B)} {bs : List B}
        → Gives (poll_elems ms) (false, ms')
        → AllCome n ms' bs
        → AllPolled (suc n) ms bs

  all_came : {n : ℕ} (bs : List B) → AllCome n (map finished bs) bs
  all_came [] = nil
  all_came (b ∷ bs) = cons came (all_came bs)

  poll_elems-Gives :
      (m : MaybeDone F B) (ms : List (MaybeDone F B)) {m' : MaybeDone F B}
      {ms' : List (MaybeDone F B)} {p : Poll (Unit {0})} {d : Bool}
      → Gives (MaybeDone.poll fu m) (p, m')
      → Gives (poll_elems ms) (d, ms')
      → Gives (poll_elems (m ∷ ms)) (is_ready p && d, m' ∷ ms')
  unfolding poll_elems
  poll_elems-Gives m ms {m'} {p} h i =
      >>=-Gives _ h (map-Gives (λ s. (is_ready p && s.0, m' ∷ s.1)) i)

  poll_elems-AllPolled :
      {n : ℕ} {ms : List (MaybeDone F B)} {bs : List B} → AllCome n ms bs → AllPolled n ms bs
  unfolding poll_elems
  poll_elems-AllPolled nil = all_now (return-Gives _)
  poll_elems-AllPolled (cons c cs) = both (poll-Polled fu c) (poll_elems-AllPolled cs)
    where
      both :
          {n : ℕ} {m : MaybeDone F B} {b : B} {ms : List (MaybeDone F B)} {bs : List B}
          → Polled fu n m b
          → AllPolled n ms bs
          → AllPolled n (m ∷ ms) (b ∷ bs)
      both (now h) (all_now i) = all_now (poll_elems-Gives _ _ h i)
      both (now h) (some_remain i cs) = some_remain (poll_elems-Gives _ _ h i) (cons came cs)
      both (remains h c) (all_now i) = some_remain (poll_elems-Gives _ _ h i) (cons c (all_came _))
      both (remains h c) (some_remain i cs) = some_remain (poll_elems-Gives _ _ h i) (cons c cs)

  all-Resolves :
      (n : ℕ) {ms : List (MaybeDone F B)} {bs : List B}
      → AllCome n ms bs
      → Resolves join_all_future ms bs
  unfolding poll outputs
  all-Resolves n cs = go n (poll_elems-AllPolled cs)
    where
      go :
          (n : ℕ) {ms : List (MaybeDone F B)} {bs : List B}
          → AllPolled n ms bs
          → Resolves join_all_future ms bs
      go n (all_now {bs} h) = resolve (>>=-Gives (λ r. outputs r) h (outputs-Gives bs))
      go (suc n) (some_remain h cs) =
          Stream.wait (>>=-Gives (λ r. outputs r) h (return-Gives _))
            (go n (poll_elems-AllPolled cs))

  AllCome-add :
      (k : ℕ) {n : ℕ} {ms : List (MaybeDone F B)} {bs : List B}
      → AllCome n ms bs
      → AllCome (k + n) ms bs
  AllCome-add k nil = nil
  AllCome-add k (cons c cs) = cons (Comes-add fu k c) (AllCome-add k cs)

  -- Each future comes to its value.
  pub data Each : List F → List B → Type (ℓ ⊔ κ) where
    nil : Each [] []
    cons :
        {f : F} {b : B} {fs : List F} {bs : List B}
        → Resolves fu f b
        → Each fs bs
        → Each (f ∷ fs) (b ∷ bs)

  Each-AllCome : {fs : List F} {bs : List B} → Each fs bs → (n : ℕ) × AllCome n (small fs) bs
  Each-AllCome nil = (0, nil)
  Each-AllCome (cons {f} {b} {fs} {bs} r e) =
      let (n, c) = resolves-Comes fu r in
      let (k, cs) = Each-AllCome e in
      (
        k + n,
        cons (Comes-add fu k c)
            (subst (λ i. AllCome i (small fs) bs) (omega arith) (AllCome-add n cs)),
      )

  -- If each future of a list comes to its value, in any numbers of polls, then `join_all` in its small
  -- kind (`JoinAllKind::Small`) comes to the values, in the order of the futures.
  pub join_all_resolves :
      (fs : List F) (bs : List B) → Each fs bs → Resolves join_all_future (small fs) bs
  join_all_resolves fs bs e = let (n, cs) = Each-AllCome e in all-Resolves n cs
