-- ===== src/Stream/Take.antt =====
-- futures-util/src/stream/stream/take.rs
use futures_rs.Prelude.{
  ℕ, zero, suc, ◌-◌, subst, List, Option, none, some, Bool, ◌||◌, arith, length, take, ltb,
  suc-==-zero, pred-suc, min, length-take, ◌==◌, if◌then◌else◌,
}
use futures_rs.Task.{Poll, ready, pending}
use futures_rs.Usize.{Within}
use futures_rs.Run.{Run, return, ◌>>=◌, Gives, map-Gives, return-Gives}
use futures_rs.Stream.{Stream, Yields, item, wait, finish}

pub record Take {ℓ} (S : Type ℓ) : Type ℓ where
  pub stream : S
  pub remaining : ℕ

module _ {ℓ κ} {S : Type ℓ} {A : Type κ} (st : Stream S A) where
  abbrev pub on_item : Take S → Poll (Option A) × S → Poll (Option A) × Take S
  on_item t (pending, s) = (pending, record t { stream = s })
  on_item t (ready none, s) = (ready none, record { stream = s; remaining = 0 })
  on_item t (ready (some a), s) =
      (ready (some a), record { stream = s; remaining = t.remaining - 1 })

  pub poll_next : Take S → Run (Poll (Option A) × Take S)
  poll_next t =
      if t.remaining == 0
      then return (ready none, t)
      else (st.poll_next t.stream >>= λ r. return (on_item t r))

  -- The upper bound of `size_hint`.
  abbrev pub upper_of : Option ℕ → ℕ → Option ℕ
  upper_of (some x) y = if ltb x y then some x else some y
  upper_of none y = some y

  abbrev pub size_hint : Take S → ℕ × Option ℕ
  size_hint t =
      let (lower, upper) = st.size_hint t.stream in
      if t.remaining == 0 then (0, some 0) else (min lower t.remaining, upper_of upper t.remaining)

  abbrev pub is_terminated : Take S → Bool
  is_terminated t = t.remaining == 0 || st.is_terminated t.stream

  abbrev pub take_stream : Stream (Take S) A
  take_stream = record {
    poll_next = poll_next;
    size_hint = size_hint;
    is_terminated = is_terminated;
  }

  abbrev pub taking : ℕ → S → Take S
  taking n s = record { stream = s; remaining = n }

  -- A poll while there is something left to take.
  polls :
      (n : ℕ) {s : S} {r : Poll (Option A) × S}
      → Gives (st.poll_next s) r
      → Gives (poll_next (taking (suc n) s)) (on_item (taking (suc n) s) r)
  unfolding poll_next
  polls n {s} g = rw (suc-==-zero n) (map-Gives (on_item (taking (suc n) s)) g)

  pub take_Yields :
      (n : ℕ) {s : S} {xs : List A} → Yields st s xs → Yields take_stream (taking n s) (take n xs)
  unfolding poll_next
  take_Yields zero {s} y = finish (return-Gives (ready none, taking 0 s))
  take_Yields (suc n) (finish g) = finish (polls n g)
  take_Yields (suc n) (wait g y) = wait (polls n g) (take_Yields (suc n) y)
  take_Yields (suc n) (item {s'} {xs} g y) =
      item (polls n g)
        (subst (λ m. Yields take_stream (taking m s') (take n xs)) (pred-suc n) (take_Yields n y))

  pub take_hint :
      (n : ℕ) (s : S) (xs : List A)
      → Within (st.size_hint s) (length xs)
      → Within (size_hint (taking n s)) (length (take n xs))
  take_hint n s xs w = ground (arith, w, length-take n xs)
