-- ===== src/Stream/TakeWhile.antt =====
-- futures-util/src/stream/stream/take_while.rs
use futures_rs.Prelude.{
  ℕ, List, [], ◌∷◌, Option, none, some, Bool, true, false, ◌&&◌, ◌||◌, arith, length, is_none,
  is_some, take_while, length-take_while, if◌then◌else◌,
}
use futures_rs.Task.{Poll, ready, pending}
use futures_rs.Usize.{upper_add, Within, from_bool}
use futures_rs.Run.{Run, return, ◌>>=◌, Turn, again, done, map-Gives, return-Gives}
use futures_rs.Stream.{
  Future, Stream, Resolves, resolve, Yields, item, wait, finish, looped, again-Yields, item-Yields,
  wait-Yields, finish-Yields,
}

pub record TakeWhile {ℓ κ μ} (S : Type ℓ) (F : Type κ) (A : Type μ) : Type (ℓ ⊔ κ ⊔ μ) where
  pub stream : S
  pub pending_fut : Option F
  pub pending_item : Option A
  pub done_taking : Bool

module _ {ℓ κ μ} {S : Type ℓ} {F : Type κ} {A : Type μ} (st : Stream S A) (fu : Future F Bool)
    (f : A → F) where
  abbrev pub new : S → TakeWhile S F A
  new s = record { stream = s; pending_fut = none; pending_item = none; done_taking = false }

  abbrev pub holding : S → F → A → TakeWhile S F A
  holding s fut a = record {
    stream = s;
    pending_fut = some fut;
    pending_item = some a;
    done_taking = false;
  }

  -- The rest of a round when the future has been polled.
  abbrev pub on_fut : TakeWhile S F A → Poll Bool × F → Turn (TakeWhile S F A) (Poll (Option A))
  on_fut t (pending, fut) = done pending (record t { pending_fut = some fut })
  on_fut t (ready true, fut) =
      done (ready t.pending_item) (record t { pending_fut = none; pending_item = none })
  on_fut t (ready false, fut) =
      done (ready none) (record t { pending_fut = none; pending_item = none; done_taking = true })

  -- The rest of a round when the stream has been polled.
  abbrev pub on_item :
      TakeWhile S F A → Poll (Option A) × S → Turn (TakeWhile S F A) (Poll (Option A))
  on_item t (pending, s) = done pending (record t { stream = s })
  on_item t (ready none, s) = done (ready none) (record t { stream = s })
  on_item t (ready (some a), s) =
      again (record t { stream = s; pending_fut = some (f a); pending_item = some a })

  -- With the test of `done_taking` in each round, which does not change it between rounds.
  pub round : TakeWhile S F A → Run (Turn (TakeWhile S F A) (Poll (Option A)))
  round t = if t.done_taking then return (done (ready none) t) else (elim t.pending_fut [
    | some fut ↦ fu.poll fut >>= λ r. return (on_fut t r)
    | none ↦ st.poll_next t.stream >>= λ r. return (on_item t r)
  ])

  abbrev pub size_hint : TakeWhile S F A → ℕ × Option ℕ
  size_hint t =
      let (_, upper) = st.size_hint t.stream in
      if t.done_taking
      then (0, some 0)
      else (0, upper_add upper (from_bool (is_some t.pending_item)))

  abbrev pub is_terminated : TakeWhile S F A → Bool
  is_terminated t = t.done_taking || is_none t.pending_item && st.is_terminated t.stream

  abbrev pub take_while_stream : Stream (TakeWhile S F A) A
  take_while_stream = looped round size_hint is_terminated

  module _ (p : A → Bool) (decides : (a : A) → Resolves fu (f a) (p a)) where
    stopped_Yields :
        (s : S) (o : Option F) (i : Option A)
        → Yields take_while_stream
            (record { stream = s; pending_fut = o; pending_item = i; done_taking = true })
            []
    unfolding round
    stopped_Yields s o i = finish-Yields round (return-Gives (done (ready none) _))

    holding_Yields :
        {s : S} {fut : F} {a : A} {b : Bool} {ys : List A}
        → Resolves fu fut b
        → Yields take_while_stream (new s) ys
        → Yields take_while_stream (holding s fut a) (if b then a ∷ ys else [])
    unfolding round
    holding_Yields {s} {fut} {a} {b = true} (resolve g) y =
        item-Yields round (map-Gives (on_fut (holding s fut a)) g) y
    holding_Yields {s} {fut} {a} {b = false} (resolve g) y =
        finish-Yields round (map-Gives (on_fut (holding s fut a)) g)
    holding_Yields {s} {fut} {a} (wait g r) y =
        wait-Yields round (map-Gives (on_fut (holding s fut a)) g) (holding_Yields r y)

    pub new_Yields :
        {s : S} {xs : List A} → Yields st s xs → Yields take_while_stream (new s) (take_while p xs)
    unfolding round
    new_Yields {s} (finish g) = finish-Yields round (map-Gives (on_item (new s)) g)
    new_Yields {s} (wait g y) = wait-Yields round (map-Gives (on_item (new s)) g) (new_Yields y)
    new_Yields {s} (item {a} g y) =
        again-Yields round (map-Gives (on_item (new s)) g)
          (holding_Yields (decides a) (new_Yields y))

    -- `take_while` yields the items up to the first that its future stops at, and nothing any more
    -- after it; its `size_hint` bounds their number if the stream's does, also when a future is
    -- pending.
    pub take_while_yields :
        (s : S) (fut : F) (a : A) (b : Bool) (xs : List A)
        → Yields st s xs
        → Resolves fu fut b
        → Within (st.size_hint s) (length xs)
        → Yields take_while_stream (new s) (take_while p xs)
          × Within (size_hint (new s)) (length (take_while p xs))
          × Yields take_while_stream (holding s fut a) (if b then a ∷ take_while p xs else [])
          × Within (size_hint (holding s fut a)) (length (if b then a ∷ take_while p xs else []))
          × ((o : Option F) (i : Option A)
              → Yields take_while_stream
                  (record { stream = s; pending_fut = o; pending_item = i; done_taking = true })
                  [])
    take_while_yields s fut a b xs y r w = (
      new_Yields y,
      ground (arith, w, length-take_while p xs),
      holding_Yields r (new_Yields y),
      ground (arith, w, length-take_while p xs),
      stopped_Yields s,
    )
