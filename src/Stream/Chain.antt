-- ===== src/Stream/Chain.antt =====
-- futures-util/src/stream/stream/chain.rs
use futures_rs.Prelude.{
  ℕ, ◌+◌, ◌<◌, List, ◌++◌, Option, none, some, Bool, ◌&&◌, arith, length, length-append, is_none,
}
use futures_rs.Task.{Poll, ready, pending}
use futures_rs.Usize.{Within, saturating_add, checked_add, usize_mod}
use futures_rs.Run.{Run, return, ◌>>=◌, Gives, map-Gives, >>=-Gives, return-Gives}
use futures_rs.Stream.{Stream, Yields, item, wait, finish}

pub record Chain {ℓ κ} (S : Type ℓ) (T : Type κ) : Type (ℓ ⊔ κ) where
  pub first : Option S
  pub second : T

module _ {ℓ κ μ} {S : Type ℓ} {T : Type κ} {A : Type μ} (st : Stream S A) (su : Stream T A) where
  abbrev pub on_second : Chain S T → Poll (Option A) × T → Poll (Option A) × Chain S T
  on_second t (r, u) = (r, record t { second = u })

  pub poll_second : Chain S T → Run (Poll (Option A) × Chain S T)
  poll_second t = su.poll_next t.second >>= λ r. return (on_second t r)

  -- What follows the poll of the first stream.
  pub on_first : Chain S T → Poll (Option A) × S → Run (Poll (Option A) × Chain S T)
  on_first t (pending, s) = return (pending, record t { first = some s })
  on_first t (ready (some a), s) = return (ready (some a), record t { first = some s })
  on_first t (ready none, s) = poll_second (record t { first = none })

  pub poll_next : Chain S T → Run (Poll (Option A) × Chain S T)
  poll_next t = elim t.first [ some s ↦ st.poll_next s >>= on_first t | none ↦ poll_second t ]

  -- The upper bound of `size_hint`.
  abbrev pub upper_of : Option ℕ → Option ℕ → Option ℕ
  upper_of (some x) (some y) = checked_add x y
  upper_of (some x) none = none
  upper_of none y = none

  abbrev pub size_hint : Chain S T → ℕ × Option ℕ
  size_hint t = elim t.first [
    | some s ↦
        let (first_lower, first_upper) = st.size_hint s in
        let (second_lower, second_upper) = su.size_hint t.second in
        (saturating_add first_lower second_lower, upper_of first_upper second_upper)
    | none ↦ su.size_hint t.second
  ]

  abbrev pub is_terminated : Chain S T → Bool
  is_terminated t = is_none t.first && su.is_terminated t.second

  abbrev pub chain_stream : Stream (Chain S T) A
  chain_stream = record {
    poll_next = poll_next;
    size_hint = size_hint;
    is_terminated = is_terminated;
  }

  abbrev pub both : S → T → Chain S T
  both s u = record { first = some s; second = u }

  abbrev pub rest : T → Chain S T
  rest u = record { first = none; second = u }

  rest_Yields : {u : T} {ys : List A} → Yields su u ys → Yields chain_stream (rest u) ys
  unfolding poll_next poll_second
  rest_Yields {u} (finish g) = finish (map-Gives (on_second (rest u)) g)
  rest_Yields {u} (wait g y) = wait (map-Gives (on_second (rest u)) g) (rest_Yields y)
  rest_Yields {u} (item g y) = item (map-Gives (on_second (rest u)) g) (rest_Yields y)

  -- The first stream ends within a poll of the chain.
  turn_Yields :
      {s s' : S} {u : T} {ys : List A}
      → Gives (st.poll_next s) (ready none, s')
      → Yields chain_stream (rest u) ys
      → Yields chain_stream (both s u) ys
  unfolding poll_next on_first
  turn_Yields {s} {s'} {u} g (finish h) = finish (>>=-Gives (on_first (both s u)) g h)
  turn_Yields {s} {s'} {u} g (wait h y) = wait (>>=-Gives (on_first (both s u)) g h) y
  turn_Yields {s} {s'} {u} g (item h y) = item (>>=-Gives (on_first (both s u)) g h) y

  pub chain_Yields :
      {s : S} {u : T} {xs ys : List A}
      → Yields st s xs
      → Yields su u ys
      → Yields chain_stream (both s u) (xs ++ ys)
  unfolding poll_next on_first
  chain_Yields {s} {u} (finish g) z = turn_Yields g (rest_Yields z)
  chain_Yields {s} {u} (wait {s'} g y) z =
      wait (>>=-Gives (on_first (both s u)) g (return-Gives (pending, both s' u)))
        (chain_Yields y z)
  chain_Yields {s} {u} (item {s'} {a} g y) z =
      item (>>=-Gives (on_first (both s u)) g (return-Gives (ready (some a), both s' u)))
        (chain_Yields y z)

  pub chain_hint :
      (s : S) (u : T) (xs ys : List A)
      → Within (st.size_hint s) (length xs)
      → Within (su.size_hint u) (length ys)
      → length xs + length ys < usize_mod
      → Within (size_hint (both s u)) (length (xs ++ ys))
  chain_hint s u xs ys v w lt = ground (arith, v, w, length-append xs ys)
