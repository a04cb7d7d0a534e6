-- ===== src/Stream/Filter.antt =====
-- futures-util/src/stream/stream/filter.rs
use futures_rs.Prelude.{
  ℕ, List, [], ◌∷◌, ◌++◌, Option, none, some, Bool, true, false, ◌&&◌, arith, length, filter,
  is_none, is_some, kept, length-filter, if◌then◌else◌,
}
use futures_rs.Task.{Poll, ready, pending}
use futures_rs.Usize.{upper_add, Within, from_bool}
use futures_rs.Run.{Run, return, ◌>>=◌, Turn, again, done, map-Gives}
use futures_rs.Stream.{
  Future, Stream, Resolves, resolve, Held, idle, holds, Yields, item, wait, finish, looped,
  again-Yields, item-Yields, wait-Yields, finish-Yields,
}

pub record Filter {ℓ κ μ} (S : Type ℓ) (F : Type κ) (A : Type μ) : Type (ℓ ⊔ κ ⊔ μ) where
  pub stream : S
  pub pending_fut : Option F
  pub pending_item : Option A

module _ {ℓ κ μ} {S : Type ℓ} {F : Type κ} {A : Type μ} (st : Stream S A) (fu : Future F Bool)
    (f : A → F) where
  abbrev pub new : S → Filter S F A
  new s = record { stream = s; pending_fut = none; pending_item = none }

  -- The rest of a round when the future has been polled.
  abbrev pub on_fut : Filter S F A → Poll Bool × F → Turn (Filter S F A) (Poll (Option A))
  on_fut t (pending, fut) = done pending (record t { pending_fut = some fut })
  on_fut t (ready true, fut) =
      done (ready t.pending_item) (record t { pending_fut = none; pending_item = none })
  on_fut t (ready false, fut) = again (record t { pending_fut = none; pending_item = none })

  -- The rest of a round when the stream has been polled.
  abbrev pub on_item : Filter S F A → Poll (Option A) × S → Turn (Filter S F A) (Poll (Option A))
  on_item t (pending, s) = done pending (record t { stream = s })
  on_item t (ready none, s) = done (ready none) (record t { stream = s })
  on_item t (ready (some a), s) =
      again (record { stream = s; pending_fut = some (f a); pending_item = some a })

  unfoldable pub round : Filter S F A → Run (Turn (Filter S F A) (Poll (Option A)))
  round t = elim t.pending_fut [
    | some fut ↦ fu.poll fut >>= λ r. return (on_fut t r)
    | none ↦ st.poll_next t.stream >>= λ r. return (on_item t r)
  ]

  abbrev pub size_hint : Filter S F A → ℕ × Option ℕ
  size_hint t =
      let (_, upper) = st.size_hint t.stream in
      (0, upper_add upper (from_bool (is_some t.pending_item)))

  abbrev pub is_terminated : Filter S F A → Bool
  is_terminated t = is_none t.pending_fut && st.is_terminated t.stream

  abbrev pub filter_stream : Stream (Filter S F A) A
  filter_stream = looped round size_hint is_terminated

  abbrev pub holding : S → F → A → Filter S F A
  holding s fut a = record { stream = s; pending_fut = some fut; pending_item = some a }

  abbrev pub front : Option (A × Bool) → List A
  front none = []
  front (some (a, b)) = kept b a

  module _ (p : A → Bool) (decides : (a : A) → Resolves fu (f a) (p a)) where
    holding_Yields :
        {s : S} {fut : F} {a : A} {b : Bool} {ys : List A}
        → Resolves fu fut b
        → Yields filter_stream (new s) ys
        → Yields filter_stream (holding s fut a) (if b then a ∷ ys else ys)
    unfolding round
    holding_Yields {s} {fut} {a} {b = true} (resolve g) y =
        item-Yields round (map-Gives (on_fut (holding s fut a)) g) y
    holding_Yields {s} {fut} {a} {b = false} (resolve g) y =
        again-Yields round (map-Gives (on_fut (holding s fut a)) g) y
    holding_Yields {s} {fut} {a} (wait g r) y =
        wait-Yields round (map-Gives (on_fut (holding s fut a)) g) (holding_Yields r y)

    new_Yields : {s : S} {xs : List A} → Yields st s xs → Yields filter_stream (new s) (filter p xs)
    unfolding round
    new_Yields {s} (finish g) = finish-Yields round (map-Gives (on_item (new s)) g)
    new_Yields {s} (wait g y) = wait-Yields round (map-Gives (on_item (new s)) g) (new_Yields y)
    new_Yields {s} (item {a} g y) =
        again-Yields round (map-Gives (on_item (new s)) g)
          (holding_Yields (decides a) (new_Yields y))

    hint_Within :
        (s : S) {o : Option F} {i : Option A} {h : Option (A × Bool)} (xs : List A)
        → Held fu o i h
        → Within (st.size_hint s) (length xs)
        → Within
            (size_hint (record { stream = s; pending_fut = o; pending_item = i }))
            (length (front h ++ filter p xs))
    hint_Within s xs idle w = ground (arith, w, length-filter p xs)
    hint_Within s xs (holds {b} r) w = ground (arith, w, length-filter p xs)

    held_Yields :
        {s : S} {o : Option F} {i : Option A} {h : Option (A × Bool)} {xs : List A}
        → Held fu o i h
        → Yields st s xs
        → Yields filter_stream
            (record { stream = s; pending_fut = o; pending_item = i })
            (front h ++ filter p xs)
    held_Yields idle y = new_Yields y
    held_Yields (holds {b = true} r) y = holding_Yields r (new_Yields y)
    held_Yields (holds {b = false} r) y = holding_Yields r (new_Yields y)

    -- `filter` yields the items that its futures let pass, after the item that waits for its future
    -- if it passes, and its `size_hint` bounds their number if the stream's bounds what is left.
    pub filter_yields :
        (t : Filter S F A) (h : Option (A × Bool)) (xs : List A)
        → Held fu t.pending_fut t.pending_item h
        → Yields st t.stream xs
        → Yields filter_stream t (front h ++ filter p xs)
          × (Within (st.size_hint t.stream) (length xs)
              → Within (size_hint t) (length (front h ++ filter p xs)))
    filter_yields t h xs held y = (held_Yields held y, hint_Within t.stream xs held)
