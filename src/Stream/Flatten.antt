-- ===== src/Stream/Flatten.antt =====
-- futures-util/src/stream/stream/flatten.rs
use futures_rs.Prelude.{List, [], ◌∷◌, ◌++◌, Option, none, some, Bool, ◌&&◌, is_none}
use futures_rs.Task.{Poll, ready, pending}
use futures_rs.Run.{Run, return, ◌>>=◌, Turn, again, done, map-Gives}
use futures_rs.Stream.{
  Stream, Yields, item, wait, finish, looped, again-Yields, item-Yields, wait-Yields, finish-Yields,
}

pub record Flatten {ℓ κ} (S : Type ℓ) (U : Type κ) : Type (ℓ ⊔ κ) where
  pub stream : S
  pub next : Option U

module _ {ℓ κ μ} {S : Type ℓ} {U : Type κ} {B : Type μ} (st : Stream S U) (su : Stream U B) where
  abbrev pub new : S → Flatten S U
  new s = record { stream = s; next = none }

  abbrev pub within : S → U → Flatten S U
  within s u = record { stream = s; next = some u }

  -- The rest of a round when the inner stream has been polled.
  abbrev pub on_next : Flatten S U → Poll (Option B) × U → Turn (Flatten S U) (Poll (Option B))
  on_next t (pending, u) = done pending (record t { next = some u })
  on_next t (ready (some b), u) = done (ready (some b)) (record t { next = some u })
  on_next t (ready none, u) = again (record t { next = none })

  -- The rest of a round when the outer stream has been polled.
  abbrev pub on_item : Flatten S U → Poll (Option U) × S → Turn (Flatten S U) (Poll (Option B))
  on_item t (pending, s) = done pending (record t { stream = s })
  on_item t (ready none, s) = done (ready none) (record t { stream = s })
  on_item t (ready (some u), s) = again (record { stream = s; next = some u })

  pub round : Flatten S U → Run (Turn (Flatten S U) (Poll (Option B)))
  round t = elim t.next [
    | some u ↦ su.poll_next u >>= λ r. return (on_next t r)
    | none ↦ st.poll_next t.stream >>= λ r. return (on_item t r)
  ]

  abbrev pub is_terminated : Flatten S U → Bool
  is_terminated t = is_none t.next && st.is_terminated t.stream

  -- `size_hint` is the default of the trait.
  abbrev pub flatten_stream : Stream (Flatten S U) B
  flatten_stream = looped round (λ t. (0, none)) is_terminated

  -- Each of the streams yields its list; the lists are joined.
  pub data Joined : List U → List B → Type (ℓ ⊔ κ ⊔ μ) where
    nil : Joined [] []
    cons :
        {u : U} {us : List U} {bs cs : List B}
        → Yields su u bs
        → Joined us cs
        → Joined (u ∷ us) (bs ++ cs)

  within_Yields :
      {s : S} {u : U} {bs cs : List B}
      → Yields su u bs
      → Yields flatten_stream (new s) cs
      → Yields flatten_stream (within s u) (bs ++ cs)
  unfolding round
  within_Yields {s} {u} (finish g) y = again-Yields round (map-Gives (on_next (within s u)) g) y
  within_Yields {s} {u} (wait g z) y =
      wait-Yields round (map-Gives (on_next (within s u)) g) (within_Yields z y)
  within_Yields {s} {u} (item g z) y =
      item-Yields round (map-Gives (on_next (within s u)) g) (within_Yields z y)

  -- `flatten` yields the items of the streams that its stream yields, one stream after another.
  pub flatten_yields :
      {s : S} {us : List U} {bs : List B}
      → Yields st s us
      → Joined us bs
      → Yields flatten_stream (new s) bs
  unfolding round
  flatten_yields {s} (finish g) nil = finish-Yields round (map-Gives (on_item (new s)) g)
  flatten_yields {s} (wait g y) j =
      wait-Yields round (map-Gives (on_item (new s)) g) (flatten_yields y j)
  flatten_yields {s} (item g y) (cons z j) =
      again-Yields round (map-Gives (on_item (new s)) g) (within_Yields z (flatten_yields y j))
