-- ===== src/Stream/Any.antt =====
-- futures-util/src/stream/stream/any.rs
use futures_rs.Prelude.{
  List, Option, none, some, Bool, true, false, not, ◌&&◌, any, is_none, if◌then◌else◌,
}
use futures_rs.Task.{Poll, ready, pending}
use futures_rs.Run.{Run, return, panic, ◌>>=◌, Turn, again, done, map-Gives}
use futures_rs.Stream.{
  Future, Stream, Resolves, resolve, Yields, item, wait, finish, looped_future, again-Resolves,
  wait-Resolves, done-Resolves,
}

pub record Any {ℓ κ} (S : Type ℓ) (F : Type κ) : Type (ℓ ⊔ κ) where
  pub stream : S
  pub is_done : Bool  -- `done`
  pub future : Option F

module _ {ℓ κ ν} {S : Type ℓ} {F : Type κ} {A : Type ν} (st : Stream S A) (fu : Future F Bool)
    (f : A → F) where
  abbrev pub new : S → Any S F
  new s = record { stream = s; is_done = false; future = none }

  -- The rest of a round when the future has been polled.
  abbrev pub on_fut : Any S F → Poll Bool × F → Turn (Any S F) (Poll Bool)
  on_fut t (pending, fut) = done pending (record t { future = some fut })
  on_fut t (ready true, fut) = done (ready true) (record t { is_done = true; future = none })
  on_fut t (ready false, fut) = again (record t { future = none })

  -- The rest of a round when the stream has been polled.
  abbrev pub on_item : Any S F → Poll (Option A) × S → Turn (Any S F) (Poll Bool)
  on_item t (pending, s) = done pending (record t { stream = s })
  on_item t (ready none, s) = done (ready false) (record t { stream = s; is_done = true })
  on_item t (ready (some a), s) = again (record t { stream = s; future = some (f a) })

  -- It panics when it is polled after completion.
  pub round : Any S F → Run (Turn (Any S F) (Poll Bool))
  round t = elim t.future [
    | some fut ↦ fu.poll fut >>= λ r. return (on_fut t r)
    | none ↦ if not t.is_done then (st.poll_next t.stream >>= λ r. return (on_item t r)) else panic
  ]

  abbrev pub is_terminated : Any S F → Bool
  is_terminated t = t.is_done && is_none t.future

  abbrev pub any_future : Future (Any S F) Bool
  any_future = looped_future round

  abbrev pub holding : S → F → Any S F
  holding s fut = record { stream = s; is_done = false; future = some fut }

  holding_Resolves :
      {s : S} {fut : F} {b c : Bool}
      → Resolves fu fut b
      → Resolves any_future (new s) c
      → Resolves any_future (holding s fut) (if b then true else c)
  unfolding round
  holding_Resolves {s} {fut} {b = true} (resolve g) y =
      done-Resolves round (map-Gives (on_fut (holding s fut)) g)
  holding_Resolves {s} {fut} {b = false} (resolve g) y =
      again-Resolves round (map-Gives (on_fut (holding s fut)) g) y
  holding_Resolves {s} {fut} (wait g r) y =
      wait-Resolves round (map-Gives (on_fut (holding s fut)) g) (holding_Resolves r y)

  pub any_resolves :
      (p : A → Bool)
      → ((a : A) → Resolves fu (f a) (p a))
      → {s : S} {xs : List A} → Yields st s xs
      → Resolves any_future (new s) (any p xs)
  unfolding round
  any_resolves p decides {s} (finish h) = done-Resolves round (map-Gives (on_item (new s)) h)
  any_resolves p decides {s} (wait h y) =
      wait-Resolves round (map-Gives (on_item (new s)) h) (any_resolves p decides y)
  any_resolves p decides {s} (item {a} h y) =
      again-Resolves round (map-Gives (on_item (new s)) h)
        (holding_Resolves (decides a) (any_resolves p decides y))
