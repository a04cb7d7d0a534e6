-- ===== src/Stream/FilterMap.antt =====
-- futures-util/src/stream/stream/filter_map.rs
use futures_rs.Prelude.{
  ℕ, ◌≡◌, List, ◌∷◌, ◌++◌, Option, none, some, Bool, ◌&&◌, arith, length, is_none, is_some,
  filter_map, length-filter_map, listed,
}
use futures_rs.Task.{Poll, ready, pending}
use futures_rs.Usize.{upper_add, Within, from_bool}
use futures_rs.Run.{Run, return, ◌>>=◌, Turn, again, done, map-Gives}
use futures_rs.Stream.{
  Future, Stream, Resolves, resolve, Yields, item, wait, finish, looped, again-Yields, item-Yields,
  wait-Yields, finish-Yields,
}

pub record FilterMap {ℓ κ} (S : Type ℓ) (F : Type κ) : Type (ℓ ⊔ κ) where
  pub stream : S
  pub pending_fut : Option F  -- `pending`

module _ {ℓ κ μ ν} {S : Type ℓ} {F : Type κ} {A : Type μ} {B : Type ν} (st : Stream S A)
    (fu : Future F (Option B)) (f : A → F) where
  abbrev pub new : S → FilterMap S F
  new s = record { stream = s; pending_fut = none }

  -- The rest of a round when the future has been polled.
  abbrev pub on_fut : FilterMap S F → Poll (Option B) × F → Turn (FilterMap S F) (Poll (Option B))
  on_fut t (pending, fut) = done pending (record t { pending_fut = some fut })
  on_fut t (ready (some b), fut) = done (ready (some b)) (record t { pending_fut = none })
  on_fut t (ready none, fut) = again (record t { pending_fut = none })

  -- The rest of a round when the stream has been polled.
  abbrev pub on_item : FilterMap S F → Poll (Option A) × S → Turn (FilterMap S F) (Poll (Option B))
  on_item t (pending, s) = done pending (record t { stream = s })
  on_item t (ready none, s) = done (ready none) (record t { stream = s })
  on_item t (ready (some a), s) = again (record { stream = s; pending_fut = some (f a) })

  pub round : FilterMap S F → Run (Turn (FilterMap S F) (Poll (Option B)))
  round t = elim t.pending_fut [
    | some fut ↦ fu.poll fut >>= λ r. return (on_fut t r)
    | none ↦ st.poll_next t.stream >>= λ r. return (on_item t r)
  ]

  abbrev pub size_hint : FilterMap S F → ℕ × Option ℕ
  size_hint t =
      let (_, upper) = st.size_hint t.stream in
      (0, upper_add upper (from_bool (is_some t.pending_fut)))

  abbrev pub is_terminated : FilterMap S F → Bool
  is_terminated t = is_none t.pending_fut && st.is_terminated t.stream

  abbrev pub filter_map_stream : Stream (FilterMap S F) B
  filter_map_stream = looped round size_hint is_terminated

  abbrev pub holding : S → F → FilterMap S F
  holding s fut = record { stream = s; pending_fut = some fut }

  module _ (g : A → Option B) (maps : (a : A) → Resolves fu (f a) (g a)) where
    some_Yields :
        {s : S} {fut : F} {b : B} {ys : List B}
        → Resolves fu fut (some b)
        → Yields filter_map_stream (new s) ys
        → Yields filter_map_stream (holding s fut) (b ∷ ys)
    unfolding round
    some_Yields {s} {fut} (resolve h) y = item-Yields round (map-Gives (on_fut (holding s fut)) h) y
    some_Yields {s} {fut} (wait h r) y =
        wait-Yields round (map-Gives (on_fut (holding s fut)) h) (some_Yields r y)

    none_Yields :
        {s : S} {fut : F} {ys : List B}
        → Resolves fu fut none
        → Yields filter_map_stream (new s) ys
        → Yields filter_map_stream (holding s fut) ys
    unfolding round
    none_Yields {s} {fut} (resolve h) y =
        again-Yields round (map-Gives (on_fut (holding s fut)) h) y
    none_Yields {s} {fut} (wait h r) y =
        wait-Yields round (map-Gives (on_fut (holding s fut)) h) (none_Yields r y)

    listed_Yields :
        (o : Option B) {s : S} {fut : F} {ys : List B}
        → Resolves fu fut o
        → Yields filter_map_stream (new s) ys
        → Yields filter_map_stream (holding s fut) (listed o ++ ys)
    listed_Yields none r y = none_Yields r y
    listed_Yields (some b) r y = some_Yields r y

    filter_map_cons :
        (a : A) (xs : List A) → filter_map g (a ∷ xs) ≡ listed (g a) ++ filter_map g xs
    filter_map_cons a xs = ground arith

    pub new_Yields :
        {s : S} {xs : List A} → Yields st s xs → Yields filter_map_stream (new s) (filter_map g xs)
    unfolding round
    new_Yields {s} (finish h) = finish-Yields round (map-Gives (on_item (new s)) h)
    new_Yields {s} (wait h y) = wait-Yields round (map-Gives (on_item (new s)) h) (new_Yields y)
    new_Yields {s} (item {a} {xs} h y) =
        again-Yields round (map-Gives (on_item (new s)) h)
          (rw (filter_map_cons a xs) (listed_Yields (g a) (maps a) (new_Yields y)))

    -- `filter_map` yields what its futures make of the items, if they make something of them, and
    -- its `size_hint` bounds their number if the stream's does, also when a future is pending.
    pub filter_map_yields :
        (s : S) (fut : F) (o : Option B) (xs : List A)
        → Yields st s xs
        → Resolves fu fut o
        → Within (st.size_hint s) (length xs)
        → Yields filter_map_stream (new s) (filter_map g xs)
          × Within (size_hint (new s)) (length (filter_map g xs))
          × Yields filter_map_stream (holding s fut) (listed o ++ filter_map g xs)
          × Within (size_hint (holding s fut)) (length (listed o ++ filter_map g xs))
    filter_map_yields s fut o xs y r w = (
      new_Yields y,
      ground (arith, w, length-filter_map g xs),
      listed_Yields o r (new_Yields y),
      ground (arith, w, length-filter_map g xs),
    )
