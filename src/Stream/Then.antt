-- ===== src/Stream/Then.antt =====
-- futures-util/src/stream/stream/then.rs
use futures_rs.Prelude.{
  ℕ, List, ◌∷◌, map, Option, none, some, Bool, ◌&&◌, arith, length, length-map, is_none, is_some,
}
use futures_rs.Task.{Poll, ready, pending}
use futures_rs.Usize.{upper_add, Within, from_bool, saturating_add}
use futures_rs.Run.{Run, return, ◌>>=◌, Turn, again, done, map-Gives}
use futures_rs.Stream.{
  Future, Stream, Resolves, resolve, Yields, item, wait, finish, looped, again-Yields, item-Yields,
  wait-Yields, finish-Yields,
}

pub record Then {ℓ κ} (S : Type ℓ) (F : Type κ) : Type (ℓ ⊔ κ) where
  pub stream : S
  pub future : Option F

module _ {ℓ κ μ ν} {S : Type ℓ} {F : Type κ} {A : Type μ} {B : Type ν} (st : Stream S A)
    (fu : Future F B) (f : A → F) where
  abbrev pub new : S → Then S F
  new s = record { stream = s; future = none }

  -- The rest of a round when the future has been polled.
  abbrev pub on_fut : Then S F → Poll B × F → Turn (Then S F) (Poll (Option B))
  on_fut t (pending, fut) = done pending (record t { future = some fut })
  on_fut t (ready b, fut) = done (ready (some b)) (record t { future = none })

  -- The rest of a round when the stream has been polled.
  abbrev pub on_item : Then S F → Poll (Option A) × S → Turn (Then S F) (Poll (Option B))
  on_item t (pending, s) = done pending (record t { stream = s })
  on_item t (ready none, s) = done (ready none) (record t { stream = s })
  on_item t (ready (some a), s) = again (record { stream = s; future = some (f a) })

  pub round : Then S F → Run (Turn (Then S F) (Poll (Option B)))
  round t = elim t.future [
    | some fut ↦ fu.poll fut >>= λ r. return (on_fut t r)
    | none ↦ st.poll_next t.stream >>= λ r. return (on_item t r)
  ]

  abbrev pub size_hint : Then S F → ℕ × Option ℕ
  size_hint t =
      let (lower, upper) = st.size_hint t.stream in
      let future_len = from_bool (is_some t.future) in
      (saturating_add lower future_len, upper_add upper future_len)

  abbrev pub is_terminated : Then S F → Bool
  is_terminated t = is_none t.future && st.is_terminated t.stream

  abbrev pub then_stream : Stream (Then S F) B
  then_stream = looped round size_hint is_terminated

  abbrev holding : S → F → Then S F
  holding s fut = record { stream = s; future = some fut }

  module _ (g : A → B) (maps : (a : A) → Resolves fu (f a) (g a)) where
    holding_Yields :
        {s : S} {fut : F} {b : B} {ys : List B}
        → Resolves fu fut b
        → Yields then_stream (new s) ys
        → Yields then_stream (holding s fut) (b ∷ ys)
    unfolding round
    holding_Yields {s} {fut} (resolve h) y =
        item-Yields round (map-Gives (on_fut (holding s fut)) h) y
    holding_Yields {s} {fut} (wait h r) y =
        wait-Yields round (map-Gives (on_fut (holding s fut)) h) (holding_Yields r y)

    pub new_Yields : {s : S} {xs : List A} → Yields st s xs → Yields then_stream (new s) (map g xs)
    unfolding round
    new_Yields {s} (finish h) = finish-Yields round (map-Gives (on_item (new s)) h)
    new_Yields {s} (wait h y) = wait-Yields round (map-Gives (on_item (new s)) h) (new_Yields y)
    new_Yields {s} (item {a} h y) =
        again-Yields round (map-Gives (on_item (new s)) h) (holding_Yields (maps a) (new_Yields y))

    -- `then` yields what its futures make of the items, and its `size_hint` bounds their number if
    -- the stream's does, also when a future is pending.
    pub then_yields :
        (s : S) (fut : F) (b : B) (xs : List A)
        → Yields st s xs
        → Resolves fu fut b
        → Within (st.size_hint s) (length xs)
        → Yields then_stream (new s) (map g xs)
          × Within (size_hint (new s)) (length (map g xs))
          × Yields then_stream (holding s fut) (b ∷ map g xs)
          × Within (size_hint (holding s fut)) (length (b ∷ map g xs))
    then_yields s fut b xs y r w = (
      new_Yields y,
      ground (arith, w, length-map g xs),
      holding_Yields r (new_Yields y),
      ground (arith, w, length-map g xs),
    )
