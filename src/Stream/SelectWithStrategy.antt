-- ===== src/Stream/SelectWithStrategy.antt =====
-- futures-util/src/stream/select_with_strategy.rs, and select.rs, which calls it
pub mod Merge
use futures_rs.Prelude.{
  ℕ, zero, suc, ◌+◌, ◌-◌, ◌/◌, ◌%◌, ◌≤◌, ◌<◌, ◌≡◌, ◌≢◌, refl, sym, ap, ◌∙◌, subst, List, [], ◌∷◌,
  ◌++◌, map, Option, none, some, Bool, true, false, not, ◌&&◌, ◌||◌, arith, length, take, drop,
  Bool-cases, if_elim, ltb, leb, ◌==◌, ◌⊎◌, inl, inr, length-append, length-map, filter, is_none,
  is_some, kept, length-filter, filter_map, length-filter_map, take_while, length-take_while,
  skip_while, length-skip_while, if◌then◌else◌,
}
use futures_rs.Task.{Poll, ready, pending}
use futures_rs.Usize.{
  upper_add, Within, from_bool, saturating_add, checked_add, usize_max, usize_mod,
}
use futures_rs.Run.{
  Run, return, panic, ◌>>=◌, Turn, again, done, loop, loop-done, loop-again, Gives, map-Gives,
  >>=-Gives, return-Gives,
}
use futures_rs.Stream.{
  Future, Stream, Resolves, resolve, Held, idle, holds, Yields, finish, looped, again-Yields,
  item-Yields, wait-Yields, finish-Yields, looped_future, again-Resolves, wait-Resolves,
  done-Resolves,
}

pub data PollNext : Type 0 where
  left right : PollNext

abbrev pub other : PollNext → PollNext
other left = right
other right = left

-- The side that was there, and the new one.
abbrev pub toggle : PollNext → PollNext × PollNext
toggle p = (p, other p)

pub data InternalState : Type 0 where
  start left_finished right_finished both_finished : InternalState

abbrev pub finish_side : InternalState → PollNext → InternalState
finish_side start left = left_finished
finish_side start right = right_finished
finish_side left_finished right = both_finished
finish_side right_finished left = both_finished
finish_side i p = i

pub record SelectWithStrategy {ℓ κ μ} (S : Type ℓ) (U : Type κ) (G : Type μ)
    : Type (ℓ ⊔ κ ⊔ μ) where
  pub stream1 : S
  pub stream2 : U
  pub internal_state : InternalState
  pub state : G

module _ {ℓ κ μ ν} {S : Type ℓ} {U : Type κ} {G : Type μ} {A : Type ν} (st : Stream S A)
    (su : Stream U A) (clos : G → PollNext × G) where
  abbrev pub at : InternalState → S → U → G → SelectWithStrategy S U G
  at i s u g = record { stream1 = s; stream2 = u; internal_state = i; state = g }

  abbrev pub new : S → U → G → SelectWithStrategy S U G
  new s u g = at start s u g

  unfoldable pub poll_side :
      SelectWithStrategy S U G → PollNext → Run (Poll (Option A) × SelectWithStrategy S U G)
  poll_side t left = st.poll_next t.stream1 >>= λ r. return (r.0, record t { stream1 = r.1 })
  poll_side t right = su.poll_next t.stream2 >>= λ r. return (r.0, record t { stream2 = r.1 })

  abbrev pub finished : SelectWithStrategy S U G → PollNext → SelectWithStrategy S U G
  finished t p = record t { internal_state = finish_side t.internal_state p }

  -- The rest of `poll_inner` when the second side has been polled.
  abbrev pub on_second :
      Bool
      → PollNext
      → Poll (Option A) × SelectWithStrategy S U G
      → Poll (Option A) × SelectWithStrategy S U G
  on_second first_done p (ready none, t) =
      (if first_done then ready none else pending, finished t p)
  on_second first_done p (a, t) = (a, t)

  -- The rest of `poll_inner` when the first side has been polled.
  unfoldable pub on_first :
      PollNext
      → Poll (Option A) × SelectWithStrategy S U G
      → Run (Poll (Option A) × SelectWithStrategy S U G)
  on_first p (ready (some a), t) = return (ready (some a), t)
  on_first p (ready none, t) =
      poll_side (finished t p) (other p) >>= λ r. return (on_second true (other p) r)
  on_first p (pending, t) = poll_side t (other p) >>= λ r. return (on_second false (other p) r)

  unfoldable pub poll_inner :
      SelectWithStrategy S U G → PollNext → Run (Poll (Option A) × SelectWithStrategy S U G)
  poll_inner t p = poll_side t p >>= λ r. on_first p r

  -- The rest of `poll_next` when one side had finished before.
  abbrev pub on_last :
      Poll (Option A) × SelectWithStrategy S U G → Poll (Option A) × SelectWithStrategy S U G
  on_last (ready none, t) = (ready none, record t { internal_state = both_finished })
  on_last (a, t) = (a, t)

  unfoldable pub poll_next :
      SelectWithStrategy S U G → Run (Poll (Option A) × SelectWithStrategy S U G)
  poll_next t = elim t.internal_state [
    | start ↦ poll_inner (record t { state = (clos t.state).1 }) (clos t.state).0
    | left_finished ↦ poll_side t right >>= λ r. return (on_last r)
    | right_finished ↦ poll_side t left >>= λ r. return (on_last r)
    | both_finished ↦ return (ready none, t)
  ]

  abbrev pub is_terminated : SelectWithStrategy S U G → Bool
  is_terminated t = elim t.internal_state [
    | both_finished ↦ true
    | start ↦ false
    | left_finished ↦ false
    | right_finished ↦ false
  ]

  -- `size_hint` is the default of the trait.
  abbrev pub select_with_strategy : Stream (SelectWithStrategy S U G) A
  select_with_strategy = record {
    poll_next = poll_next;
    size_hint = λ t. (0, none);
    is_terminated = is_terminated;
  }

  pub left_Gives :
      (i : InternalState) {s s' : S} {u : U} {g : G} {p : Poll (Option A)}
      → Gives (st.poll_next s) (p, s')
      → Gives (poll_side (at i s u g) left) (p, at i s' u g)
  unfolding poll_side
  left_Gives i {s} {u} {g} h = map-Gives (λ r. (r.0, at i r.1 u g)) h

  pub right_Gives :
      (i : InternalState) {s : S} {u u' : U} {g : G} {p : Poll (Option A)}
      → Gives (su.poll_next u) (p, u')
      → Gives (poll_side (at i s u g) right) (p, at i s u' g)
  unfolding poll_side
  right_Gives i {s} {u} {g} h = map-Gives (λ r. (r.0, at i s r.1 g)) h

  pub start-Gives :
      (s : S) (u : U) (g : G) (side : PollNext)
      → (clos g).0 ≡ side
      → {p : Poll (Option A)} {t : SelectWithStrategy S U G}
        {o : Poll (Option A) × SelectWithStrategy S U G}
      → Gives (poll_side (at start s u (clos g).1) side) (p, t)
      → Gives (on_first side (p, t)) o
      → Gives (poll_next (at start s u g)) o
  unfolding poll_next poll_inner
  start-Gives s u g side e {o} h k =
      subst (λ q. Gives (poll_inner (at start s u (clos g).1) q) o) (sym e)
        (>>=-Gives (λ r. on_first side r) h k)

  -- The select yields the items and then `None`; then it says that it is terminated, and answers
  -- `None` to every poll.
  pub data Fused : SelectWithStrategy S U G → List A → Type (ℓ ⊔ κ ⊔ μ ⊔ ν) where
    ends :
        {t t' : SelectWithStrategy S U G}
        → Gives (poll_next t) (ready none, t')
        → is_terminated t' ≡ true
        → Gives (poll_next t') (ready none, t')
        → Fused t []
    item :
        {t t' : SelectWithStrategy S U G} {a : A} {xs : List A}
        → Gives (poll_next t) (ready (some a), t')
        → Fused t' xs
        → Fused t (a ∷ xs)
    wait :
        {t t' : SelectWithStrategy S U G} {xs : List A}
        → Gives (poll_next t) (pending, t')
        → Fused t' xs
        → Fused t xs

  pub Fused-Yields :
      {t : SelectWithStrategy S U G} {xs : List A} → Fused t xs → Yields select_with_strategy t xs
  Fused-Yields (ends h e g) = finish h
  Fused-Yields (item h f) = Yields.item h (Fused-Yields f)
  Fused-Yields (wait h f) = Yields.wait h (Fused-Yields f)

  pub at_end :
      {t : SelectWithStrategy S U G} {s : S} {u : U} {g : G}
      → Gives (poll_next t) (ready none, at both_finished s u g)
      → Fused t []
  unfolding poll_next
  at_end h = ends h refl (return-Gives _)

  pub right_Fused :
      {s : S} {u : U} {g : G} {ys : List A} → Yields su u ys → Fused (at left_finished s u g) ys
  unfolding poll_next
  right_Fused (finish h) = at_end (map-Gives on_last (right_Gives left_finished h))
  right_Fused (Yields.item h y) =
      item (map-Gives on_last (right_Gives left_finished h)) (right_Fused y)
  right_Fused (Yields.wait h y) =
      wait (map-Gives on_last (right_Gives left_finished h)) (right_Fused y)

  pub left_Fused :
      {s : S} {u : U} {g : G} {xs : List A} → Yields st s xs → Fused (at right_finished s u g) xs
  unfolding poll_next
  left_Fused (finish h) = at_end (map-Gives on_last (left_Gives right_finished h))
  left_Fused (Yields.item h y) =
      item (map-Gives on_last (left_Gives right_finished h)) (left_Fused y)
  left_Fused (Yields.wait h y) =
      wait (map-Gives on_last (left_Gives right_finished h)) (left_Fused y)
