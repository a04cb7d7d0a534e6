-- ===== src/Stream/Unfold.antt =====
-- futures-util/src/stream/unfold.rs and futures-util/src/unfold_state.rs
use futures_rs.Prelude.{List, [], ◌∷◌, Option, none, some, Bool, true, false}
use futures_rs.Task.{Poll, ready, pending}
use futures_rs.Run.{Run, return, panic, ◌>>=◌, map-Gives}
use futures_rs.Stream.{Future, Stream, Resolves, resolve, Yields, item, wait, finish}

pub data UnfoldState {ℓ κ} (T : Type ℓ) (F : Type κ) : Type (ℓ ⊔ κ) where
  value : T → UnfoldState T F
  future : F → UnfoldState T F
  empty : UnfoldState T F

module _ {ℓ κ} {T : Type ℓ} {F : Type κ} where
  abbrev pub take_value : UnfoldState T F → Option T × UnfoldState T F
  take_value (value t) = (some t, empty)
  take_value t = (none, t)

  abbrev pub project_future : UnfoldState T F → Option F
  project_future (future f) = some f
  project_future t = none

  abbrev pub is_terminated : UnfoldState T F → Bool
  is_terminated empty = true
  is_terminated (value t) = false
  is_terminated (future f) = false

module _ {ℓ κ μ} {T : Type ℓ} {F : Type κ} {A : Type μ} (fu : Future F (Option (A × T)))
    (f : T → F) where
  abbrev pub new : T → UnfoldState T F
  new init = value init

  -- A value is replaced by the future that it gives.
  abbrev pub begun : Option T × UnfoldState T F → UnfoldState T F
  begun (some t, u) = future (f t)
  begun (none, u) = u

  abbrev pub on_step : Poll (Option (A × T)) × F → Poll (Option A) × UnfoldState T F
  on_step (pending, fut) = (pending, future fut)
  on_step (ready none, fut) = (ready none, empty)
  on_step (ready (some (a, t)), fut) = (ready (some a), value t)

  -- It panics when it is polled after the end.
  unfoldable pub poll_next : UnfoldState T F → Run (Poll (Option A) × UnfoldState T F)
  poll_next u = elim (project_future (begun (take_value u))) [
    | some fut ↦ fu.poll fut >>= λ r. return (on_step r)
    | none ↦ panic
  ]

  -- `size_hint` is the default of the trait.
  abbrev pub unfold_stream : Stream (UnfoldState T F) A
  unfold_stream = record {
    poll_next = poll_next;
    size_hint = λ u. (0, none);
    is_terminated = is_terminated;
  }

  -- What the futures of a seed come to, one after the other.
  pub data Unfolds : T → List A → Type (ℓ ⊔ κ ⊔ μ) where
    stops : {t : T} → Resolves fu (f t) none → Unfolds t []
    goes_on :
        {t t' : T} {a : A} {xs : List A}
        → Resolves fu (f t) (some (a, t'))
        → Unfolds t' xs
        → Unfolds t (a ∷ xs)

  ends-Yields : {fut : F} → Resolves fu fut none → Yields unfold_stream (future fut) []
  unfolding poll_next
  ends-Yields (resolve h) = finish (map-Gives on_step h)
  ends-Yields (wait h r) = wait (map-Gives on_step h) (ends-Yields r)

  next-Yields :
      {fut : F} {a : A} {t : T} {xs : List A}
      → Resolves fu fut (some (a, t))
      → Yields unfold_stream (value t) xs
      → Yields unfold_stream (future fut) (a ∷ xs)
  unfolding poll_next
  next-Yields (resolve h) y = item (map-Gives on_step h) y
  next-Yields (wait h r) y = wait (map-Gives on_step h) (next-Yields r y)

  value-Yields :
      {t : T} {xs : List A}
      → Yields unfold_stream (future (f t)) xs
      → Yields unfold_stream (value t) xs
  unfolding poll_next
  value-Yields (finish h) = finish h
  value-Yields (item h y) = item h y
  value-Yields (wait h y) = wait h y

  -- `unfold` yields the items that its futures come to, until one comes to `None`.
  pub unfold_yields : (t : T) (xs : List A) → Unfolds t xs → Yields unfold_stream (new t) xs
  unfold_yields t xs (stops r) = value-Yields (ends-Yields r)
  unfold_yields t xs (goes_on r u) = value-Yields (next-Yields r (unfold_yields _ _ u))
