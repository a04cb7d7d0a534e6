-- ===== src/Stream/Map.antt =====
-- futures-util/src/stream/stream/map.rs
use futures_rs.Prelude.{List, map, Option, none, some}
use futures_rs.Task.{Poll, ready, pending}
use futures_rs.Run.{Run, return, ◌>>=◌, map-Gives}
use futures_rs.Stream.{Stream, Yields, item, wait, finish}

pub record Map {ℓ} (S : Type ℓ) : Type ℓ where
  pub stream : S

module _ {ℓ κ μ} {S : Type ℓ} {A : Type κ} {B : Type μ} (st : Stream S A) (f : A → B) where
  abbrev pub on_item : Map S → Poll (Option A) × S → Poll (Option B) × Map S
  on_item t (pending, s) = (pending, record { stream = s })
  on_item t (ready none, s) = (ready none, record { stream = s })
  on_item t (ready (some a), s) = (ready (some (f a)), record { stream = s })

  pub poll_next : Map S → Run (Poll (Option B) × Map S)
  poll_next t = st.poll_next t.stream >>= λ r. return (on_item t r)

  abbrev pub map_stream : Stream (Map S) B
  map_stream = record {
    poll_next = poll_next;
    size_hint = λ t. st.size_hint t.stream;
    is_terminated = λ t. st.is_terminated t.stream;
  }

  pub map_Yields :
      {s : S} {xs : List A} → Yields st s xs → Yields map_stream (record { stream = s }) (map f xs)
  unfolding poll_next
  map_Yields {s} (finish g) = finish (map-Gives (on_item (record { stream = s })) g)
  map_Yields {s} (wait g y) = wait (map-Gives (on_item (record { stream = s })) g) (map_Yields y)
  map_Yields {s} (item g y) = item (map-Gives (on_item (record { stream = s })) g) (map_Yields y)
