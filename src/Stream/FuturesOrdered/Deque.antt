-- ===== src/Stream/FuturesOrdered/Deque.antt =====
-- The outputs of a FuturesOrdered, to which `push_back` and `push_front` add one (futures_ordered.rs).
use futures_rs.Prelude.{◌≡◌, refl, List, []}
use futures_rs.Stream.FuturesOrdered.{OrderWrapper, FuturesOrdered, Unordered, new}
use futures_rs.Stream.FuturesOrdered.Queue.{number, Shares}
use futures_rs.Stream.FuturesOrdered.Pushed.{stop}

module _ {ℓ κ μ} {Q : Type ℓ} {F : Type κ} {B : Type μ}
    (un : Unordered Q (OrderWrapper F) (OrderWrapper B)) where
  -- The outputs to come and those in the heap are just `bs` with the indices from
  -- `next_outgoing_index` on, each once; `next_incoming_index` is the index after them.
  pub record Coming (t : FuturesOrdered Q B) (ps : List (OrderWrapper B)) (bs : List B)
      : Type μ where
    pub outputs : Shares ps t.queued_outputs (number t.next_outgoing_index bs)
    pub incoming : t.next_incoming_index ≡ stop t.next_outgoing_index bs

  pub new-Coming : Coming (new un) [] []
  new-Coming = record {
    outputs = record { counts = λ k. refl; agree1 = tt; agree2 = tt };
    incoming = refl;
  }
