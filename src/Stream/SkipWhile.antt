-- ===== src/Stream/SkipWhile.antt =====
-- futures-util/src/stream/stream/skip_while.rs
use futures_rs.Prelude.{
  ℕ, List, ◌∷◌, Option, none, some, Bool, true, false, ◌&&◌, arith, length, is_none, is_some,
  skip_while, length-skip_while, if◌then◌else◌,
}
use futures_rs.Task.{Poll, ready, pending}
use futures_rs.Usize.{upper_add, Within, from_bool}
use futures_rs.Run.{Run, return, ◌>>=◌, Turn, again, done, map-Gives}
use futures_rs.Stream.{
  Future, Stream, Resolves, resolve, Yields, item, wait, finish, looped, again-Yields, item-Yields,
  wait-Yields, finish-Yields,
}

pub record SkipWhile {ℓ κ μ} (S : Type ℓ) (F : Type κ) (A : Type μ) : Type (ℓ ⊔ κ ⊔ μ) where
  pub stream : S
  pub pending_fut : Option F
  pub pending_item : Option A
  pub done_skipping : Bool

module _ {ℓ κ μ} {S : Type ℓ} {F : Type κ} {A : Type μ} (st : Stream S A) (fu : Future F Bool)
    (f : A → F) where
  abbrev pub new : S → SkipWhile S F A
  new s = record { stream = s; pending_fut = none; pending_item = none; done_skipping = false }

  abbrev pub holding : S → F → A → SkipWhile S F A
  holding s fut a = record {
    stream = s;
    pending_fut = some fut;
    pending_item = some a;
    done_skipping = false;
  }

  abbrev pub passing : S → SkipWhile S F A
  passing s = record { stream = s; pending_fut = none; pending_item = none; done_skipping = true }

  -- The rest of a round when the future has been polled.
  abbrev pub on_fut : SkipWhile S F A → Poll Bool × F → Turn (SkipWhile S F A) (Poll (Option A))
  on_fut t (pending, fut) = done pending (record t { pending_fut = some fut })
  on_fut t (ready true, fut) = again (record t { pending_fut = none; pending_item = none })
  on_fut t (ready false, fut) =
      done (ready t.pending_item)
        (record t { pending_fut = none; pending_item = none; done_skipping = true })

  -- The rest of a round when the stream has been polled.
  abbrev pub on_item :
      SkipWhile S F A → Poll (Option A) × S → Turn (SkipWhile S F A) (Poll (Option A))
  on_item t (pending, s) = done pending (record t { stream = s })
  on_item t (ready none, s) = done (ready none) (record t { stream = s })
  on_item t (ready (some a), s) =
      again (record t { stream = s; pending_fut = some (f a); pending_item = some a })

  -- `return this.stream.poll_next(cx)`
  abbrev pub on_pass :
      SkipWhile S F A → Poll (Option A) × S → Turn (SkipWhile S F A) (Poll (Option A))
  on_pass t (r, s) = done r (record t { stream = s })

  -- With the test of `done_skipping` in each round, which sees it change only as the loop ends.
  pub round : SkipWhile S F A → Run (Turn (SkipWhile S F A) (Poll (Option A)))
  round t =
      if t.done_skipping
      then (st.poll_next t.stream >>= λ r. return (on_pass t r))
      else (elim t.pending_fut [
        | some fut ↦ fu.poll fut >>= λ r. return (on_fut t r)
        | none ↦ st.poll_next t.stream >>= λ r. return (on_item t r)
      ])

  abbrev pub size_hint : SkipWhile S F A → ℕ × Option ℕ
  size_hint t =
      let (_, upper) = st.size_hint t.stream in
      if t.done_skipping
      then st.size_hint t.stream
      else (0, upper_add upper (from_bool (is_some t.pending_item)))

  abbrev pub is_terminated : SkipWhile S F A → Bool
  is_terminated t = is_none t.pending_item && st.is_terminated t.stream

  abbrev pub skip_while_stream : Stream (SkipWhile S F A) A
  skip_while_stream = looped round size_hint is_terminated

  passing_Yields : {s : S} {xs : List A} → Yields st s xs → Yields skip_while_stream (passing s) xs
  unfolding round
  passing_Yields {s} (finish g) = finish-Yields round (map-Gives (on_pass (passing s)) g)
  passing_Yields {s} (wait g y) =
      wait-Yields round (map-Gives (on_pass (passing s)) g) (passing_Yields y)
  passing_Yields {s} (item g y) =
      item-Yields round (map-Gives (on_pass (passing s)) g) (passing_Yields y)

  module _ (p : A → Bool) (decides : (a : A) → Resolves fu (f a) (p a)) where
    holding_Yields :
        {s : S} {fut : F} {a : A} {b : Bool} {xs ys : List A}
        → Resolves fu fut b
        → Yields st s xs
        → Yields skip_while_stream (new s) ys
        → Yields skip_while_stream (holding s fut a) (if b then ys else a ∷ xs)
    unfolding round
    holding_Yields {s} {fut} {a} {b = true} (resolve g) y z =
        again-Yields round (map-Gives (on_fut (holding s fut a)) g) z
    holding_Yields {s} {fut} {a} {b = false} (resolve g) y z =
        item-Yields round (map-Gives (on_fut (holding s fut a)) g) (passing_Yields y)
    holding_Yields {s} {fut} {a} (wait g r) y z =
        wait-Yields round (map-Gives (on_fut (holding s fut a)) g) (holding_Yields r y z)

    pub new_Yields :
        {s : S} {xs : List A} → Yields st s xs → Yields skip_while_stream (new s) (skip_while p xs)
    unfolding round
    new_Yields {s} (finish g) = finish-Yields round (map-Gives (on_item (new s)) g)
    new_Yields {s} (wait g y) = wait-Yields round (map-Gives (on_item (new s)) g) (new_Yields y)
    new_Yields {s} (item {a} g y) =
        again-Yields round (map-Gives (on_item (new s)) g)
          (holding_Yields (decides a) y (new_Yields y))

    -- `skip_while` leaves out the items before the first that its future stops at, and yields that
    -- one and all later ones; its `size_hint` bounds their number if the stream's does, also when a
    -- future is pending.
    pub skip_while_yields :
        (s : S) (fut : F) (a : A) (b : Bool) (xs : List A)
        → Yields st s xs
        → Resolves fu fut b
        → Within (st.size_hint s) (length xs)
        → Yields skip_while_stream (new s) (skip_while p xs)
          × Within (size_hint (new s)) (length (skip_while p xs))
          × Yields skip_while_stream (holding s fut a) (if b then skip_while p xs else a ∷ xs)
          × Within (size_hint (holding s fut a)) (length (if b then skip_while p xs else a ∷ xs))
    skip_while_yields s fut a b xs y r w = (
      new_Yields y,
      ground (arith, w, length-skip_while p xs),
      holding_Yields r y (new_Yields y),
      ground (arith, w, length-skip_while p xs),
    )
