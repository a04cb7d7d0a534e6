-- ===== src/Stream/SelectWithStrategy/Merge.antt =====
-- What a select of two streams yields, whatever its strategy (select_with_strategy.rs).
use futures_rs.Prelude.{◌≡◌, refl, List, [], ◌∷◌, Option, none, some, true, false}
use futures_rs.Task.{Poll, ready, pending}
use futures_rs.Run.{Gives, map-Gives, return-Gives}
use futures_rs.Stream.{Stream, Yields, item, wait, finish}
use futures_rs.Stream.SelectWithStrategy.{
  SelectWithStrategy, PollNext, left, right, start, select_with_strategy, on_first, on_second,
  left_Gives, right_Gives, start-Gives, left_Fused, right_Fused, Fused, at_end, new, at,
  left_finished, right_finished,
}

-- A merge of two lists that keeps the order of each.
pub data Interleaves {ν} {A : Type ν} : List A → List A → List A → Type ν where
  nil : Interleaves [] [] []
  from_left : {a : A} {xs ys zs : List A} → Interleaves xs ys zs → Interleaves (a ∷ xs) ys (a ∷ zs)
  from_right : {a : A} {xs ys zs : List A} → Interleaves xs ys zs → Interleaves xs (a ∷ ys) (a ∷ zs)

all_left {ν} : {A : Type ν} (xs : List A) → Interleaves xs [] xs
all_left [] = nil
all_left (a ∷ xs) = from_left (all_left xs)

all_right {ν} : {A : Type ν} (ys : List A) → Interleaves [] ys ys
all_right [] = nil
all_right (a ∷ ys) = from_right (all_right ys)

module _ {ℓ κ μ ν} {S : Type ℓ} {U : Type κ} {G : Type μ} {A : Type ν} (st : Stream S A)
    (su : Stream U A) (clos : G → PollNext × G) where
  abbrev sel : Stream (SelectWithStrategy S U G) A
  sel = select_with_strategy st su clos

  abbrev Merges : SelectWithStrategy S U G → List A → List A → Type (ℓ ⊔ κ ⊔ μ ⊔ ν)
  Merges t xs ys = (zs : List A) × Fused st su clos t zs × Interleaves xs ys zs

  then_left :
      (s : S) (u : U) (g : G) {t : SelectWithStrategy S U G} {a : A} {xs ys : List A}
      → Gives (sel.poll_next (new st su clos s u g)) (ready (some a), t)
      → Merges t xs ys
      → Merges (new st su clos s u g) (a ∷ xs) ys
  then_left s u g h (zs, y, i) = (_ ∷ zs, Fused.item h y, from_left i)

  then_right :
      (s : S) (u : U) (g : G) {t : SelectWithStrategy S U G} {a : A} {xs ys : List A}
      → Gives (sel.poll_next (new st su clos s u g)) (ready (some a), t)
      → Merges t xs ys
      → Merges (new st su clos s u g) xs (a ∷ ys)
  then_right s u g h (zs, y, i) = (_ ∷ zs, Fused.item h y, from_right i)

  then_wait :
      (s : S) (u : U) (g : G) {t : SelectWithStrategy S U G} {xs ys : List A}
      → Gives (sel.poll_next (new st su clos s u g)) (pending, t)
      → Merges t xs ys
      → Merges (new st su clos s u g) xs ys
  then_wait s u g h (zs, y, i) = (zs, Fused.wait h y, i)

  only_left :
      (s : S) (u : U) (g : G) (xs : List A)
      → Yields st s xs
      → Merges (at st su clos right_finished s u g) xs []
  only_left s u g xs y = (xs, left_Fused st su clos y, all_left xs)

  only_right :
      (s : S) (u : U) (g : G) (ys : List A)
      → Yields su u ys
      → Merges (at st su clos left_finished s u g) [] ys
  only_right s u g ys y = (ys, right_Fused st su clos y, all_right ys)

  -- A poll of the side that the strategy names and, unless that has an item, of the other side.
  left_item :
      (s : S) (u : U) (g : G) {s' : S} {a : A}
      → (clos g).0 ≡ left
      → Gives (st.poll_next s) (ready (some a), s')
      → Gives
          (sel.poll_next (new st su clos s u g))
          (ready (some a), new st su clos s' u (clos g).1)
  unfolding on_first
  left_item s u g e h =
      start-Gives st su clos s u g left e (left_Gives st su clos start h) (return-Gives _)

  left_pending :
      (s : S) (u : U) (g : G) {s' : S} {u' : U} {p : Poll (Option A)}
      → (clos g).0 ≡ left
      → Gives (st.poll_next s) (pending, s')
      → Gives (su.poll_next u) (p, u')
      → Gives
          (sel.poll_next (new st su clos s u g))
          (on_second st su clos false right (p, new st su clos s' u' (clos g).1))
  unfolding on_first
  left_pending s u g e h i =
      start-Gives st su clos s u g left e (left_Gives st su clos start h)
        (map-Gives (on_second st su clos false right) (right_Gives st su clos start i))

  left_ends :
      (s : S) (u : U) (g : G) {s' : S} {u' : U} {p : Poll (Option A)}
      → (clos g).0 ≡ left
      → Gives (st.poll_next s) (ready none, s')
      → Gives (su.poll_next u) (p, u')
      → Gives
          (sel.poll_next (new st su clos s u g))
          (on_second st su clos true right (p, at st su clos left_finished s' u' (clos g).1))
  unfolding on_first
  left_ends s u g e h i =
      start-Gives st su clos s u g left e (left_Gives st su clos start h)
        (map-Gives (on_second st su clos true right) (right_Gives st su clos left_finished i))

  right_item :
      (s : S) (u : U) (g : G) {u' : U} {a : A}
      → (clos g).0 ≡ right
      → Gives (su.poll_next u) (ready (some a), u')
      → Gives
          (sel.poll_next (new st su clos s u g))
          (ready (some a), new st su clos s u' (clos g).1)
  unfolding on_first
  right_item s u g e h =
      start-Gives st su clos s u g right e (right_Gives st su clos start h) (return-Gives _)

  right_pending :
      (s : S) (u : U) (g : G) {s' : S} {u' : U} {p : Poll (Option A)}
      → (clos g).0 ≡ right
      → Gives (su.poll_next u) (pending, u')
      → Gives (st.poll_next s) (p, s')
      → Gives
          (sel.poll_next (new st su clos s u g))
          (on_second st su clos false left (p, new st su clos s' u' (clos g).1))
  unfolding on_first
  right_pending s u g e h i =
      start-Gives st su clos s u g right e (right_Gives st su clos start h)
        (map-Gives (on_second st su clos false left) (left_Gives st su clos start i))

  right_ends :
      (s : S) (u : U) (g : G) {s' : S} {u' : U} {p : Poll (Option A)}
      → (clos g).0 ≡ right
      → Gives (su.poll_next u) (ready none, u')
      → Gives (st.poll_next s) (p, s')
      → Gives
          (sel.poll_next (new st su clos s u g))
          (on_second st su clos true left (p, at st su clos right_finished s' u' (clos g).1))
  unfolding on_first
  right_ends s u g e h i =
      start-Gives st su clos s u g right e (right_Gives st su clos start h)
        (map-Gives (on_second st su clos true left) (left_Gives st su clos right_finished i))

  merges :
      {s : S} {u : U} {xs ys : List A}
      → Yields st s xs
      → Yields su u ys
      → (side : PollNext) (g : G) → (clos g).0 ≡ side
      → Merges (new st su clos s u g) xs ys
  merges {s} {u} (item h y) z left g e =
      then_left s u g (left_item s u g e h) (merges y z _ (clos g).1 refl)
  merges {s} {u} (wait h y) (item i z) left g e =
      then_right s u g (left_pending s u g e h i) (merges y z _ (clos g).1 refl)
  merges {s} {u} (wait h y) (wait i z) left g e =
      then_wait s u g (left_pending s u g e h i) (merges y z _ (clos g).1 refl)
  merges {s} {u} (wait h y) (finish i) left g e =
      then_wait s u g (left_pending s u g e h i) (only_left _ _ _ _ y)
  merges {s} {u} (finish h) (item i z) left g e =
      then_right s u g (left_ends s u g e h i) (only_right _ _ _ _ z)
  merges {s} {u} (finish h) (wait i z) left g e =
      then_wait s u g (left_ends s u g e h i) (only_right _ _ _ _ z)
  merges {s} {u} (finish h) (finish i) left g e =
      ([], at_end st su clos (left_ends s u g e h i), nil)
  merges {s} {u} y (item h z) right g e =
      then_right s u g (right_item s u g e h) (merges y z _ (clos g).1 refl)
  merges {s} {u} (item i y) (wait h z) right g e =
      then_left s u g (right_pending s u g e h i) (merges y z _ (clos g).1 refl)
  merges {s} {u} (wait i y) (wait h z) right g e =
      then_wait s u g (right_pending s u g e h i) (merges y z _ (clos g).1 refl)
  merges {s} {u} (finish i) (wait h z) right g e =
      then_wait s u g (right_pending s u g e h i) (only_right _ _ _ _ z)
  merges {s} {u} (item i y) (finish h) right g e =
      then_left s u g (right_ends s u g e h i) (only_left _ _ _ _ y)
  merges {s} {u} (wait i y) (finish h) right g e =
      then_wait s u g (right_ends s u g e h i) (only_left _ _ _ _ y)
  merges {s} {u} (finish i) (finish h) right g e =
      ([], at_end st su clos (right_ends s u g e h i), nil)

  -- If two streams each yield a list, then a select of them yields, whatever its strategy, a merge of
  -- the two lists that keeps the order of each. After it has answered `None` it says that it is
  -- terminated and answers `None` to every poll, whatever its streams would answer after their ends.
  pub select_merges :
      (s : S) (u : U) (g : G) (xs ys : List A)
      → Yields st s xs
      → Yields su u ys
      → (zs : List A) × Fused st su clos (new st su clos s u g) zs × Interleaves xs ys zs
  select_merges s u g xs ys y z = merges y z (clos g).0 g refl
