-- ===== src/Stream/Iter.antt =====
-- futures-util/src/stream/iter.rs. The iterator is given, with its `next` and `size_hint`.
use futures_rs.Prelude.{
  ℕ, ◌≡◌, sym, ◌∙◌, subst, List, [], ◌∷◌, ◌++◌, Option, none, some, false, foldl,
}
use mathlib.Core.List.{append_assoc, append-nil}
use futures_rs.Task.{Poll, ready}
use futures_rs.Run.{Run, return, Gives, return-Gives}
use futures_rs.Stream.{Stream, Resolves, Yields, item, finish}
use futures_rs.Stream.Collect.{collecting, collect_future, collect_resolves}

module _ {ℓ κ} {I : Type ℓ} {A : Type κ} (next : I → Option A × I)
    (size_hint : I → ℕ × Option ℕ) where
  unfoldable pub poll_next : I → Run (Poll (Option A) × I)
  poll_next i = return (ready (next i).0, (next i).1)

  -- It is no `FusedStream`.
  abbrev pub iter_stream : Stream I A
  iter_stream = record { poll_next = poll_next; size_hint = size_hint; is_terminated = λ i. false }

  -- What the iterator gives.
  pub data Iterates : I → List A → Type (ℓ ⊔ κ) where
    ended : {i i' : I} → next i ≡ (none, i') → Iterates i []
    goes_on :
        {i i' : I} {a : A} {xs : List A}
        → next i ≡ (some a, i')
        → Iterates i' xs
        → Iterates i (a ∷ xs)

  next-Gives :
      (i : I) {o : Option A} {i' : I} → next i ≡ (o, i') → Gives (poll_next i) (ready o, i')
  unfolding poll_next
  next-Gives i {o} {i'} e = subst (λ r. Gives (poll_next i) (ready r.0, r.1)) e (return-Gives _)

  pub iter_Yields : {i : I} {xs : List A} → Iterates i xs → Yields iter_stream i xs
  iter_Yields (ended e) = finish (next-Gives _ e)
  iter_Yields (goes_on e t) = item (next-Gives _ e) (iter_Yields t)

-- `Vec` as a collection
abbrev pub push {κ} : {A : Type κ} → List A → A → List A
push c a = c ++ a ∷ []

push_all {κ} : {A : Type κ} (c xs : List A) → foldl push c xs ≡ c ++ xs
push_all c [] = sym (append-nil c)
push_all c (a ∷ xs) = push_all (push c a) xs ∙ append_assoc c (a ∷ []) xs

module _ {ℓ κ} {I : Type ℓ} {A : Type κ} (next : I → Option A × I)
    (size_hint : I → ℕ × Option ℕ) where
  -- If an iterator gives the items of a list, then the stream of it, collected in a `Vec`, comes to
  -- the list.
  pub collect_iter :
      (i : I) (xs : List A)
      → Iterates next size_hint i xs
      → Resolves
          (collect_future (iter_stream next size_hint) [] push)
          (collecting (iter_stream next size_hint) [] push i [])
          xs
  collect_iter i xs t =
      subst
        (λ c.
          Resolves (collect_future (iter_stream next size_hint) [] push)
            (collecting (iter_stream next size_hint) [] push i []) c)
        (push_all [] xs)
        (collect_resolves (iter_stream next size_hint) [] push [] (iter_Yields next size_hint t))
