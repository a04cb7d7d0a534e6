-- ===== src/FutureExt/Join.antt =====
-- futures-util/src/future/join.rs
use futures_rs.Prelude.{ℕ, suc, ◌+◌, ◌≡◌, refl, subst, Bool, false, ◌&&◌, arith, if◌then◌else◌}
use futures_rs.Task.{Poll, ready, pending, is_ready}
use futures_rs.Run.{Run, return, ◌>>=◌, Gives, >>=-Gives, return-Gives}
use futures_rs.Stream.{
  Future, Resolves, resolve, Held, idle, holds, Yields, item, finish, looped, again-Yields,
  item-Yields, wait-Yields, finish-Yields, looped_future, again-Resolves, wait-Resolves,
  done-Resolves,
}
use futures_rs.FutureExt.MaybeDone.{
  MaybeDone, future, finished, take_output, unwrap, Comes, came, Polled, now, remains, poll-Polled,
  Comes-add, resolves-Comes,
}
use futures_rs.FutureExt.MaybeDone
use futures_rs.Stream

pub record Join {ℓ κ μ ν} (F : Type ℓ) (A : Type κ) (G : Type μ) (B : Type ν)
    : Type (ℓ ⊔ κ ⊔ μ ⊔ ν) where
  pub fut1 : MaybeDone F A
  pub fut2 : MaybeDone G B

module _ {ℓ κ μ ν} {F : Type ℓ} {A : Type κ} {G : Type μ} {B : Type ν} (fu : Future F A)
    (gu : Future G B) where
  abbrev pub new : F → G → Join F A G B
  new f g = record { fut1 = future f; fut2 = future g }

  -- What follows the two polls.
  unfoldable pub outputs :
      Poll (Unit {0}) × MaybeDone F A
      → Poll (Unit {0}) × MaybeDone G B
      → Run (Poll (A × B) × Join F A G B)
  outputs (p, f) (q, g) =
      if is_ready p && is_ready q
      then (unwrap (take_output f).0 >>= λ x. unwrap (take_output g).0 >>= λ y.
          return (ready (x, y), record { fut1 = (take_output f).1; fut2 = (take_output g).1 }))
      else return (pending, record { fut1 = f; fut2 = g })

  unfoldable pub poll : Join F A G B → Run (Poll (A × B) × Join F A G B)
  poll t = MaybeDone.poll fu t.fut1 >>= λ r. MaybeDone.poll gu t.fut2 >>= λ s. outputs r s

  abbrev pub is_terminated : Join F A G B → Bool
  is_terminated t = MaybeDone.is_terminated t.fut1 && MaybeDone.is_terminated t.fut2

  abbrev pub join_future : Future (Join F A G B) (A × B)
  join_future = record { poll = poll }

  abbrev pair : MaybeDone F A → MaybeDone G B → Join F A G B
  pair f g = record { fut1 = f; fut2 = g }

  poll-Gives :
      (f : MaybeDone F A) (g : MaybeDone G B) {f' : MaybeDone F A} {g' : MaybeDone G B}
      {p q : Poll (Unit {0})} {o : Poll (A × B) × Join F A G B}
      → Gives (MaybeDone.poll fu f) (p, f')
      → Gives (MaybeDone.poll gu g) (q, g')
      → Gives (outputs (p, f') (q, g')) o
      → Gives (poll (pair f g)) o
  unfolding poll
  poll-Gives f g {f'} {p} h i o =
      >>=-Gives (λ r. MaybeDone.poll gu g >>= λ s. outputs r s) h
        (>>=-Gives (λ s. outputs (p, f') s) i o)

  pending_Gives :
      (f : MaybeDone F A) (g : MaybeDone G B) (p q : Poll (Unit {0}))
      → is_ready p && is_ready q ≡ false
      → Gives (outputs (p, f) (q, g)) (pending, pair f g)
  unfolding outputs
  pending_Gives f g (ready x) (ready y) h = absurd (cc)
  pending_Gives f g (ready x) pending h = return-Gives _
  pending_Gives f g pending q h = return-Gives _

  ready_Gives :
      (a : A) (b : B)
      → Gives
          (outputs (ready tt, finished a) (ready tt, finished b))
          (ready (a, b), pair MaybeDone.gone MaybeDone.gone)
  unfolding outputs ◌>>=◌ return
  ready_Gives a b = return-Gives _

  both-Resolves :
      (n : ℕ) {f : MaybeDone F A} {g : MaybeDone G B} {a : A} {b : B}
      → Comes fu n f a
      → Comes gu n g b
      → Resolves join_future (pair f g) (a, b)
  both-Resolves n c d = go n (poll-Polled fu c) (poll-Polled gu d)
    where
      go :
          (n : ℕ) {f : MaybeDone F A} {g : MaybeDone G B} {a : A} {b : B}
          → Polled fu n f a
          → Polled gu n g b
          → Resolves join_future (pair f g) (a, b)
      go n (now {b = a} h) (now {b} i) = resolve (poll-Gives _ _ h i (ready_Gives a b))
      go (suc n) (now h) (remains i d) =
          Stream.wait (poll-Gives _ _ h i (pending_Gives _ _ _ _ refl))
            (go n (poll-Polled fu came) (poll-Polled gu d))
      go (suc n) (remains h c) (now i) =
          Stream.wait (poll-Gives _ _ h i (pending_Gives _ _ _ _ refl))
            (go n (poll-Polled fu c) (poll-Polled gu came))
      go (suc n) (remains h c) (remains i d) =
          Stream.wait (poll-Gives _ _ h i (pending_Gives _ _ _ _ refl))
            (go n (poll-Polled fu c) (poll-Polled gu d))

  -- If two futures each come to a value, in any numbers of polls, then `join` of them comes to the
  -- pair of the values. It never polls a future again that was ready.
  pub join_resolves :
      (f : F) (g : G) (a : A) (b : B)
      → Resolves fu f a
      → Resolves gu g b
      → Resolves join_future (new f g) (a, b)
  join_resolves f g a b r s =
      let (n, c) = resolves-Comes fu r in
      let (k, d) = resolves-Comes gu s in
      both-Resolves (k + n) (Comes-add fu k c)
        (subst (λ m. Comes gu m (future g) b) (omega arith) (Comes-add gu n d))
