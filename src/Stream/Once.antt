-- ===== src/Stream/Once.antt =====
-- futures-util/src/stream/once.rs
use futures_rs.Prelude.{
  ℕ, [], ◌∷◌, Option, none, some, Bool, arith, is_none, is_some, if◌then◌else◌,
}
use futures_rs.Task.{Poll, ready, pending}
use futures_rs.Usize.{Within}
use futures_rs.Run.{Run, return, ◌>>=◌, map-Gives, return-Gives}
use futures_rs.Stream.{Future, Stream, Resolves, resolve, Yields, item, wait, finish}

module _ {ℓ κ} {F : Type ℓ} {B : Type κ} (fu : Future F B) where
  abbrev pub new : F → Option F
  new f = some f

  abbrev pub on_future : Poll B × F → Poll (Option B) × Option F
  on_future (pending, f) = (pending, some f)
  on_future (ready b, f) = (ready (some b), none)

  unfoldable pub poll_next : Option F → Run (Poll (Option B) × Option F)
  poll_next (some f) = fu.poll f >>= λ r. return (on_future r)
  poll_next none = return (ready none, none)

  abbrev pub size_hint : Option F → ℕ × Option ℕ
  size_hint t = if is_some t then (1, some 1) else (0, some 0)

  abbrev pub is_terminated : Option F → Bool
  is_terminated t = is_none t

  abbrev pub once_stream : Stream (Option F) B
  once_stream = record {
    poll_next = poll_next;
    size_hint = size_hint;
    is_terminated = is_terminated;
  }

  -- `once` yields the value of its future, and its `size_hint` bounds the number of items before and
  -- after.
  pub once_yields :
      (f : F) (b : B)
      → Resolves fu f b
      → Yields once_stream (new f) (b ∷ [])
        × Within (size_hint (new f)) 1
        × Yields once_stream none []
        × Within (size_hint none) 0
  unfolding poll_next
  once_yields f b r = (go r, ground arith, finish (return-Gives _), ground arith)
    where
      go : {f : F} {b : B} → Resolves fu f b → Yields once_stream (some f) (b ∷ [])
      go (resolve h) = item (map-Gives on_future h) (finish (return-Gives _))
      go (wait h q) = wait (map-Gives on_future h) (go q)
