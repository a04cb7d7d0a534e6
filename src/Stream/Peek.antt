-- ===== src/Stream/Peek.antt =====
-- futures-util/src/stream/stream/peek.rs
use futures_rs.Prelude.{
  ℕ, List, [], ◌∷◌, Option, none, some, Bool, true, false, ◌&&◌, is_none, is_some, if◌then◌else◌,
}
use futures_rs.Task.{Poll, ready, pending}
use futures_rs.Usize.{upper_add, from_bool, saturating_add}
use futures_rs.Run.{
  Run, return, panic, ◌>>=◌, Turn, again, done, loop-done, loop-again, Gives, map-Gives, >>=-Gives,
  return-Gives,
}
use futures_rs.Stream.{Future, Stream, Yields, item, wait, finish, looped_future}
use futures_rs.Stream.Fuse
use futures_rs.Stream.Fuse.{Fuse, ended, new_Gives, ended_Gives}

pub record Peekable {ℓ κ} (S : Type ℓ) (A : Type κ) : Type (ℓ ⊔ κ) where
  pub stream : Fuse S
  pub peeked : Option A

module _ {ℓ κ} {S : Type ℓ} {A : Type κ} (st : Stream S A) where
  abbrev pub at : Fuse S → Option A → Peekable S A
  at u o = record { stream = u; peeked = o }

  abbrev pub new : S → Peekable S A
  new s = at (Fuse.new st s) none

  -- The rest of a round of `poll_peek` when the stream has been polled.
  abbrev pub on_peek :
      Peekable S A → Poll (Option A) × Fuse S → Turn (Peekable S A) (Poll (Option A))
  on_peek t (pending, u) = done pending (record t { stream = u })
  on_peek t (ready (some a), u) = again (record { stream = u; peeked = some a })
  on_peek t (ready none, u) = done (ready none) (record t { stream = u })

  unfoldable pub peek_round : Peekable S A → Run (Turn (Peekable S A) (Poll (Option A)))
  peek_round t = elim t.peeked [
    | some a ↦ return (done (ready (some a)) t)
    | none ↦ Fuse.poll_next st t.stream >>= λ r. return (on_peek t r)
  ]

  -- `poll_peek`, as a future that is not polled again after it was ready.
  abbrev pub peek_future : Future (Peekable S A) (Option A)
  peek_future = looped_future peek_round

  abbrev pub on_item : Peekable S A → Poll (Option A) × Fuse S → Poll (Option A) × Peekable S A
  on_item t (p, u) = (p, record t { stream = u })

  unfoldable pub poll_next : Peekable S A → Run (Poll (Option A) × Peekable S A)
  poll_next t = elim t.peeked [
    | some a ↦ return (ready (some a), record t { peeked = none })
    | none ↦ Fuse.poll_next st t.stream >>= λ r. return (on_item t r)
  ]

  abbrev pub size_hint : Peekable S A → ℕ × Option ℕ
  size_hint t =
      let peek_len = from_bool (is_some t.peeked) in
      let (lower, upper) = Fuse.size_hint st t.stream in
      (saturating_add lower peek_len, upper_add upper peek_len)

  abbrev pub is_terminated : Peekable S A → Bool
  is_terminated t = is_none t.peeked && t.stream.is_done

  abbrev pub peek_stream : Stream (Peekable S A) A
  peek_stream = record {
    poll_next = poll_next;
    size_hint = size_hint;
    is_terminated = is_terminated;
  }

  -- What `next_if` puts back; the panic is its assertion.
  abbrev pub put_back : Peekable S A → Option A → Run (Poll (Option A) × Peekable S A)
  put_back t o = if is_none t.peeked then return (ready none, record t { peeked = o }) else panic

  unfoldable pub on_next :
      (A → Bool) → Poll (Option A) × Peekable S A → Run (Poll (Option A) × Peekable S A)
  on_next func (pending, t) = return (pending, t)
  on_next func (ready none, t) = put_back t none
  on_next func (ready (some a), t) =
      if func a then return (ready (some a), t) else put_back t (some a)

  -- `next_if`, up to its completion.
  unfoldable pub poll_next_if : (A → Bool) → Peekable S A → Run (Poll (Option A) × Peekable S A)
  poll_next_if func t = poll_next t >>= λ r. on_next func r

  abbrev pub next_if_future : (A → Bool) → Future (Peekable S A) (Option A)
  next_if_future func = record { poll = poll_next_if func }

  ended-Yields : (s : S) → Yields peek_stream (at (ended st s) none) []
  unfolding poll_next
  ended-Yields s = finish (map-Gives (on_item (at (ended st s) none)) (ended_Gives st s))

  pub new-Yields : {s : S} {xs : List A} → Yields st s xs → Yields peek_stream (new s) xs
  unfolding poll_next
  new-Yields {s} (finish h) = finish (map-Gives (on_item (new s)) (new_Gives st h))
  new-Yields {s} (wait h y) = wait (map-Gives (on_item (new s)) (new_Gives st h)) (new-Yields y)
  new-Yields {s} (item h y) = item (map-Gives (on_item (new s)) (new_Gives st h)) (new-Yields y)

  peeked-Yields :
      (u : Fuse S) (a : A) {xs : List A}
      → Yields peek_stream (at u none) xs
      → Yields peek_stream (at u (some a)) (a ∷ xs)
  unfolding poll_next
  peeked-Yields u a y = item (return-Gives _) y

  -- A future comes to the answer, and the stream yields the list from then on.
  pub data Leaves (fu : Future (Peekable S A) (Option A))
      : Peekable S A → Option A → List A → Type (ℓ ⊔ κ) where
    leaves :
        {t t' : Peekable S A} {o : Option A} {xs : List A}
        → Gives (fu.poll t) (ready o, t')
        → Yields peek_stream t' xs
        → Leaves fu t o xs
    waits :
        {t t' : Peekable S A} {o : Option A} {xs : List A}
        → Gives (fu.poll t) (pending, t')
        → Leaves fu t' o xs
        → Leaves fu t o xs

  abbrev pub head : List A → Option A
  head [] = none
  head (a ∷ xs) = some a

  -- What `next_if` answers, and what is left.
  abbrev pub accepted : (A → Bool) → List A → Option A
  accepted func [] = none
  accepted func (a ∷ xs) = if func a then some a else none

  abbrev pub rest : (A → Bool) → List A → List A
  rest func [] = []
  rest func (a ∷ xs) = if func a then xs else a ∷ xs

  peek_future-Leaves :
      {s : S} {xs : List A} → Yields st s xs → Leaves peek_future (new s) (head xs) xs
  unfolding peek_round
  peek_future-Leaves {s} (finish {s'} h) =
      leaves (loop-done peek_round _ _ _ (map-Gives (on_peek (new s)) (new_Gives st h)))
        (ended-Yields s')
  peek_future-Leaves {s} (wait h y) =
      waits (loop-done peek_round _ _ _ (map-Gives (on_peek (new s)) (new_Gives st h)))
        (peek_future-Leaves y)
  peek_future-Leaves {s} (item {a} h y) =
      leaves
        (loop-again peek_round _ _ _ (map-Gives (on_peek (new s)) (new_Gives st h))
          (loop-done peek_round _ _ _ (return-Gives _)))
        (peeked-Yields _ a (new-Yields y))

  next_if-Gives :
      (func : A → Bool) (s : S) {r : Poll (Option A) × S} {o : Poll (Option A) × Peekable S A}
      → Gives (st.poll_next s) r
      → Gives (on_next func (on_item (new s) (Fuse.on_item st (Fuse.new st s) r))) o
      → Gives (poll_next_if func (new s)) o
  unfolding poll_next_if poll_next
  next_if-Gives func s h k =
      >>=-Gives (λ r. on_next func r) (map-Gives (on_item (new s)) (new_Gives st h)) k

  next_if_future-Leaves :
      (func : A → Bool) {s : S} {xs : List A}
      → Yields st s xs
      → Leaves (next_if_future func) (new s) (accepted func xs) (rest func xs)
  unfolding on_next
  next_if_future-Leaves func {s} (finish {s'} h) =
      leaves (next_if-Gives func s h (return-Gives _)) (ended-Yields s')
  next_if_future-Leaves func {s} (wait h y) =
      waits (next_if-Gives func s h (return-Gives _)) (next_if_future-Leaves func y)
  next_if_future-Leaves func {s} (item {s'} {a} {xs} h y) =
      taken (func a) (λ o k. next_if-Gives func s h k)
    where
      taken :
          (b : Bool)
          → ((o : Poll (Option A) × Peekable S A)
              → Gives (if b then return (ready (some a), new s') else put_back (new s') (some a)) o
              → Gives (poll_next_if func (new s)) o)
          → Leaves
              (next_if_future func)
              (new s)
              (if b then some a else none)
              (if b then xs else a ∷ xs)
      taken true g = leaves (g _ (return-Gives _)) (new-Yields y)
      taken false g = leaves (g _ (return-Gives _)) (peeked-Yields _ a (new-Yields y))

  -- Let a stream yield a list. `poll_peek` of it comes to the first item, or to `None` at the end, and takes
  -- nothing away: the list is yielded from then on. `next_if` comes to the first item if the function
  -- accepts it, and takes just this item away; else it comes to `None` and takes nothing away.
  pub peekable-Leaves :
      (func : A → Bool) (s : S) (xs : List A)
      → Yields st s xs
      → Leaves peek_future (new s) (head xs) xs
        × Leaves (next_if_future func) (new s) (accepted func xs) (rest func xs)
  peekable-Leaves func s xs y = (peek_future-Leaves y, next_if_future-Leaves func y)
