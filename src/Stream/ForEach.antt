-- ===== src/Stream/ForEach.antt =====
-- futures-util/src/stream/stream/for_each.rs
use futures_rs.Prelude.{List, Option, none, some, Bool, ◌&&◌, is_none}
use futures_rs.Task.{Poll, ready, pending}
use futures_rs.Run.{Run, return, ◌>>=◌, Turn, again, done, map-Gives}
use futures_rs.Stream.{
  Future, Stream, Resolves, resolve, Yields, item, wait, finish, looped_future, again-Resolves,
  wait-Resolves, done-Resolves,
}

pub record ForEach {ℓ κ} (S : Type ℓ) (F : Type κ) : Type (ℓ ⊔ κ) where
  pub stream : S
  pub future : Option F

module _ {ℓ κ ν} {S : Type ℓ} {F : Type κ} {A : Type ν} (st : Stream S A) (fu : Future F (Unit {0}))
    (f : A → F) where
  abbrev pub new : S → ForEach S F
  new s = record { stream = s; future = none }

  abbrev pub on_fut : ForEach S F → Poll (Unit {0}) × F → Turn (ForEach S F) (Poll (Unit {0}))
  on_fut t (pending, fut) = done pending (record t { future = some fut })
  on_fut t (ready _, fut) = again (record t { future = none })

  abbrev pub on_item : ForEach S F → Poll (Option A) × S → Turn (ForEach S F) (Poll (Unit {0}))
  on_item t (pending, s) = done pending (record t { stream = s })
  on_item t (ready none, s) = done (ready tt) (record t { stream = s })
  on_item t (ready (some a), s) = again (record { stream = s; future = some (f a) })

  pub round : ForEach S F → Run (Turn (ForEach S F) (Poll (Unit {0})))
  round t = elim t.future [
    | some fut ↦ fu.poll fut >>= λ r. return (on_fut t r)
    | none ↦ st.poll_next t.stream >>= λ r. return (on_item t r)
  ]

  abbrev pub is_terminated : ForEach S F → Bool
  is_terminated t = is_none t.future && st.is_terminated t.stream

  abbrev pub for_each_future : Future (ForEach S F) (Unit {0})
  for_each_future = looped_future round

  abbrev pub holding : S → F → ForEach S F
  holding s fut = record { stream = s; future = some fut }

  holding_Resolves :
      {s : S} {fut : F}
      → Resolves fu fut tt
      → Resolves for_each_future (new s) tt
      → Resolves for_each_future (holding s fut) tt
  unfolding round
  holding_Resolves {s} {fut} (resolve g) y =
      again-Resolves round (map-Gives (on_fut (holding s fut)) g) y
  holding_Resolves {s} {fut} (wait g r) y =
      wait-Resolves round (map-Gives (on_fut (holding s fut)) g) (holding_Resolves r y)

  pub for_each_resolves :
      ((a : A) → Resolves fu (f a) tt)
      → {s : S} {xs : List A} → Yields st s xs
      → Resolves for_each_future (new s) tt
  unfolding round
  for_each_resolves ends {s} (finish h) = done-Resolves round (map-Gives (on_item (new s)) h)
  for_each_resolves ends {s} (wait h y) =
      wait-Resolves round (map-Gives (on_item (new s)) h) (for_each_resolves ends y)
  for_each_resolves ends {s} (item {a} h y) =
      again-Resolves round (map-Gives (on_item (new s)) h)
        (holding_Resolves (ends a) (for_each_resolves ends y))
