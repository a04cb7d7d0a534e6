-- ===== src/Stream/FuturesOrdered.antt =====
-- futures-util/src/stream/futures_ordered.rs. The FuturesUnordered that holds the futures is given:
-- a stream with its `push`.
pub mod Queue
pub mod Order
pub mod Pushed
pub mod Deque
pub mod Tests
use futures_rs.Prelude.{
  ℕ, ◌+◌, List, [], ◌∷◌, Option, none, some, Bool, true, false, ◌&&◌, if◌then◌else◌, length, foldl,
}
use futures_rs.Prelude.Int.{ℤ, pos, add_one, sub_one, leb_ℤ, eq_ℤ}
use futures_rs.Task.{Poll, ready, pending}
use futures_rs.Run.{Run, return, ◌>>=◌, Turn, again, done, loop}
use futures_rs.Stream.{Future, Stream}

-- `OrderWrapper`, of a future or of its output: the index and what it wraps.
abbrev pub OrderWrapper {ℓ} : Type ℓ → Type ℓ
OrderWrapper A = ℤ × A

module _ {ℓ κ} {F : Type ℓ} {B : Type κ} (fu : Future F B) where
  abbrev pub wrap_output : ℤ → Poll B × F → Poll (OrderWrapper B) × OrderWrapper F
  wrap_output index (pending, f) = (pending, (index, f))
  wrap_output index (ready b, f) = (ready (index, b), (index, f))

  unfoldable pub poll_wrapper : OrderWrapper F → Run (Poll (OrderWrapper B) × OrderWrapper F)
  poll_wrapper w = fu.poll w.1 >>= λ r. return (wrap_output w.0 r)

  abbrev pub order_wrapper : Future (OrderWrapper F) (OrderWrapper B)
  order_wrapper = record { poll = poll_wrapper }

-- `BinaryHeap` with the order of OrderWrapper: `pop` takes an output with the least index.
module _ {ℓ} {B : Type ℓ} where
  abbrev pub lesser :
      OrderWrapper B
      → OrderWrapper B × List (OrderWrapper B)
      → OrderWrapper B × List (OrderWrapper B)
  lesser x (y, ys) = if leb_ℤ x.0 y.0 then (x, y ∷ ys) else (y, x ∷ ys)

  unfoldable pub pop : List (OrderWrapper B) → Option (OrderWrapper B × List (OrderWrapper B))
  pop [] = none
  pop (x ∷ xs) = elim (pop xs) [ none ↦ some (x, []) | some r ↦ some (lesser x r) ]

  -- `BinaryHeap::is_empty`
  abbrev pub no_outputs : List (OrderWrapper B) → Bool
  no_outputs [] = true
  no_outputs (x ∷ xs) = false

pub record FuturesOrdered {ℓ κ} (Q : Type ℓ) (B : Type κ) : Type (ℓ ⊔ κ) where
  pub in_progress_queue : Q
  pub queued_outputs : List (OrderWrapper B)
  pub next_incoming_index : ℤ
  pub next_outgoing_index : ℤ

-- `FuturesUnordered` with the futures of one type: `new` and `push`, and the stream.
pub record Unordered {ℓ κ μ} (Q : Type ℓ) (F : Type κ) (B : Type μ) : Type (ℓ ⊔ κ ⊔ μ) where
  pub empty : Q
  pub push : Q → F → Q
  pub clear : Q → Q
  pub is_empty : Q → Bool
  pub len : Q → ℕ
  pub stream : Stream Q B

module _ {ℓ κ μ} {Q : Type ℓ} {F : Type κ} {B : Type μ}
    (un : Unordered Q (OrderWrapper F) (OrderWrapper B)) where
  abbrev pub new : FuturesOrdered Q B
  new = record {
    in_progress_queue = un.empty;
    queued_outputs = [];
    next_incoming_index = pos 0;
    next_outgoing_index = pos 0;
  }

  unfoldable pub push_back : FuturesOrdered Q B → F → FuturesOrdered Q B
  push_back t f = record t {
    in_progress_queue = un.push t.in_progress_queue (t.next_incoming_index, f);
    next_incoming_index = add_one t.next_incoming_index;
  }

  unfoldable pub push_front : FuturesOrdered Q B → F → FuturesOrdered Q B
  push_front t f = record t {
    in_progress_queue = un.push t.in_progress_queue (sub_one t.next_outgoing_index, f);
    next_outgoing_index = sub_one t.next_outgoing_index;
  }

  abbrev pub clear : FuturesOrdered Q B → FuturesOrdered Q B
  clear t = record {
    in_progress_queue = un.clear t.in_progress_queue;
    queued_outputs = [];
    next_incoming_index = pos 0;
    next_outgoing_index = pos 0;
  }

  -- `extend`, with the items of an iterator in a list.
  unfoldable pub extend : FuturesOrdered Q B → List F → FuturesOrdered Q B
  extend t [] = t
  extend t (f ∷ fs) = extend (push_back t f) fs

  abbrev pub from_iter : List F → FuturesOrdered Q B
  from_iter fs = foldl push_back new fs

  abbrev pub len : FuturesOrdered Q B → ℕ
  len t = un.len t.in_progress_queue + length t.queued_outputs

  abbrev pub is_empty : FuturesOrdered Q B → Bool
  is_empty t = un.is_empty t.in_progress_queue && no_outputs t.queued_outputs

  abbrev pub size_hint : FuturesOrdered Q B → ℕ × Option ℕ
  size_hint t = (len t, some (len t))

  -- The rest of a round of the loop when the queue has been polled.
  abbrev pub on_output :
      FuturesOrdered Q B
      → Poll (Option (OrderWrapper B)) × Q
      → Turn (FuturesOrdered Q B) (Poll (Option B))
  on_output t (pending, q) = done pending (record t { in_progress_queue = q })
  on_output t (ready none, q) = done (ready none) (record t { in_progress_queue = q })
  on_output t (ready (some (index, b)), q) =
      if eq_ℤ index t.next_outgoing_index
      then done (ready (some b))
          (record t { in_progress_queue = q; next_outgoing_index = add_one t.next_outgoing_index })
      else again
          (record t { in_progress_queue = q; queued_outputs = (index, b) ∷ t.queued_outputs })

  unfoldable pub round : FuturesOrdered Q B → Run (Turn (FuturesOrdered Q B) (Poll (Option B)))
  round t = un.stream.poll_next t.in_progress_queue >>= λ r. return (on_output t r)

  -- The output that is next, if it is there already.
  unfoldable pub ready_output : FuturesOrdered Q B → Option (B × FuturesOrdered Q B)
  ready_output t = elim (pop t.queued_outputs) [
    | none ↦ none
    | some ((index, b), rest) ↦
        if eq_ℤ index t.next_outgoing_index
        then some (
          b,
          record t { queued_outputs = rest; next_outgoing_index = add_one t.next_outgoing_index },
        )
        else none
  ]

  unfoldable pub poll_next : FuturesOrdered Q B → Run (Poll (Option B) × FuturesOrdered Q B)
  poll_next t = elim (ready_output t) [
    | some (b, t') ↦ return (ready (some b), t')
    | none ↦ loop round t
  ]

  abbrev pub is_terminated : FuturesOrdered Q B → Bool
  is_terminated t = un.stream.is_terminated t.in_progress_queue && no_outputs t.queued_outputs

  abbrev pub ordered_stream : Stream (FuturesOrdered Q B) B
  ordered_stream = record {
    poll_next = poll_next;
    size_hint = size_hint;
    is_terminated = is_terminated;
  }
