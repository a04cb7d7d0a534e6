-- ===== src/Stream/Fuse.antt =====
-- futures-util/src/stream/stream/fuse.rs
use futures_rs.Prelude.{ℕ, List, [], Option, none, some, Bool, true, false, if◌then◌else◌}
use futures_rs.Task.{Poll, ready, pending}
use futures_rs.Run.{Run, return, ◌>>=◌, Gives, map-Gives, return-Gives}
use futures_rs.Stream.{Stream, Yields, item, wait, finish}

pub record Fuse {ℓ} (S : Type ℓ) : Type ℓ where
  pub stream : S
  pub is_done : Bool  -- `done`

module _ {ℓ κ} {S : Type ℓ} {A : Type κ} (st : Stream S A) where
  abbrev pub new : S → Fuse S
  new s = record { stream = s; is_done = false }

  abbrev pub ended : S → Fuse S
  ended s = record { stream = s; is_done = true }

  abbrev pub on_item : Fuse S → Poll (Option A) × S → Poll (Option A) × Fuse S
  on_item t (pending, s) = (pending, record t { stream = s })
  on_item t (ready none, s) = (ready none, record { stream = s; is_done = true })
  on_item t (ready (some a), s) = (ready (some a), record t { stream = s })

  unfoldable pub poll_next : Fuse S → Run (Poll (Option A) × Fuse S)
  poll_next t =
      if t.is_done
      then return (ready none, t)
      else (st.poll_next t.stream >>= λ r. return (on_item t r))

  abbrev pub size_hint : Fuse S → ℕ × Option ℕ
  size_hint t = if t.is_done then (0, some 0) else st.size_hint t.stream

  abbrev pub fuse_stream : Stream (Fuse S) A
  fuse_stream = record {
    poll_next = poll_next;
    size_hint = size_hint;
    is_terminated = λ t. t.is_done;
  }

  -- A poll before the end.
  pub new_Gives :
      {s : S} {r : Poll (Option A) × S}
      → Gives (st.poll_next s) r
      → Gives (poll_next (new s)) (on_item (new s) r)
  unfolding poll_next
  new_Gives {s} g = map-Gives (on_item (new s)) g

  -- A poll after the end.
  pub ended_Gives : (s : S) → Gives (poll_next (ended s)) (ready none, ended s)
  unfolding poll_next
  ended_Gives s = return-Gives (ready none, ended s)

  pub ended_Yields : (s : S) → Yields fuse_stream (ended s) []
  ended_Yields s = finish (ended_Gives s)

  pub fuse_Yields : {s : S} {xs : List A} → Yields st s xs → Yields fuse_stream (new s) xs
  fuse_Yields (finish g) = finish (new_Gives g)
  fuse_Yields (wait g y) = wait (new_Gives g) (fuse_Yields y)
  fuse_Yields (item g y) = item (new_Gives g) (fuse_Yields y)
