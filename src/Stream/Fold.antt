-- ===== src/Stream/Fold.antt =====
-- futures-util/src/stream/stream/fold.rs
use futures_rs.Prelude.{List, Option, none, some, Bool, ◌&&◌, foldl, is_none}
use futures_rs.Task.{Poll, ready, pending}
use futures_rs.Run.{Run, return, panic, ◌>>=◌, Turn, again, done, map-Gives}
use futures_rs.Stream.{
  Future, Stream, Resolves, resolve, Yields, item, wait, finish, looped_future, again-Resolves,
  wait-Resolves, done-Resolves,
}

pub record Fold {ℓ κ μ} (S : Type ℓ) (F : Type κ) (T : Type μ) : Type (ℓ ⊔ κ ⊔ μ) where
  pub stream : S
  pub accum : Option T
  pub future : Option F

module _ {ℓ κ μ ν} {S : Type ℓ} {F : Type κ} {T : Type μ} {A : Type ν} (st : Stream S A)
    (fu : Future F T) (f : T → A → F) where
  abbrev pub new : S → T → Fold S F T
  new s t = record { stream = s; accum = some t; future = none }

  -- The rest of a round when the future has been polled.
  abbrev pub on_fut : Fold S F T → Poll T × F → Turn (Fold S F T) (Poll T)
  on_fut t (pending, fut) = done pending (record t { future = some fut })
  on_fut t (ready a, fut) = again (record t { accum = some a; future = none })

  -- The rest of a round when the stream has been polled.
  abbrev pub on_item : Fold S F T → T → Poll (Option A) × S → Turn (Fold S F T) (Poll T)
  on_item t a (pending, s) = done pending (record t { stream = s })
  on_item t a (ready none, s) = done (ready a) (record t { stream = s; accum = none })
  on_item t a (ready (some x), s) =
      again (record { stream = s; accum = none; future = some (f a x) })

  -- It panics when it is polled after completion.
  pub round : Fold S F T → Run (Turn (Fold S F T) (Poll T))
  round t = elim t.future [
    | some fut ↦ fu.poll fut >>= λ r. return (on_fut t r)
    | none ↦ elim t.accum [
      | some a ↦ st.poll_next t.stream >>= λ r. return (on_item t a r)
      | none ↦ panic
    ]
  ]

  abbrev pub is_terminated : Fold S F T → Bool
  is_terminated t = is_none t.accum && is_none t.future

  abbrev pub fold_future : Future (Fold S F T) T
  fold_future = looped_future round

  abbrev pub holding : S → Option T → F → Fold S F T
  holding s o fut = record { stream = s; accum = o; future = some fut }

  holding_Resolves :
      {s : S} {o : Option T} {fut : F} {a b : T}
      → Resolves fu fut a
      → Resolves fold_future (new s a) b
      → Resolves fold_future (holding s o fut) b
  unfolding round
  holding_Resolves {s} {o} {fut} (resolve g) y =
      again-Resolves round (map-Gives (on_fut (holding s o fut)) g) y
  holding_Resolves {s} {o} {fut} (wait g r) y =
      wait-Resolves round (map-Gives (on_fut (holding s o fut)) g) (holding_Resolves r y)

  -- `fold` goes through the items in order and comes to the value that its futures make of them.
  pub fold_resolves :
      (g : T → A → T)
      → ((t : T) (a : A) → Resolves fu (f t a) (g t a))
      → (t : T) {s : S} {xs : List A} → Yields st s xs
      → Resolves fold_future (new s t) (foldl g t xs)
  unfolding round
  fold_resolves g folds t {s} (finish h) = done-Resolves round (map-Gives (on_item (new s t) t) h)
  fold_resolves g folds t {s} (wait h y) =
      wait-Resolves round (map-Gives (on_item (new s t) t) h) (fold_resolves g folds t y)
  fold_resolves g folds t {s} (item {a} h y) =
      again-Resolves round (map-Gives (on_item (new s t) t) h)
        (holding_Resolves (folds t a) (fold_resolves g folds (g t a) y))
