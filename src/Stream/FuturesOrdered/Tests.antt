-- ===== src/Stream/FuturesOrdered/Tests.antt =====
-- FuturesOrdered over a stack of futures (futures_ordered.rs), and the theorem at it.
use futures_rs.Prelude.{ℕ, List, [], ◌∷◌, none, some, Bool, true, false, length}
use mathlib.Core.List.Permᴰ
use futures_rs.Prelude.Int.{pos}
use futures_rs.Task.{Poll, ready, pending}
use futures_rs.Run.{Run, return, ◌>>=◌}
use futures_rs.Prelude.{Option}
use futures_rs.Stream.{Future}
use futures_rs.Stream.FuturesOrdered.{Unordered, FuturesOrdered, OrderWrapper, order_wrapper}
use futures_rs.Stream.Tests.{delay}

module _ {F B : Type 0} (fu : Future F B) where
  abbrev after_poll : List F → Poll B × F → Poll (Option B) × List F
  after_poll fs (ready b, f) = (ready (some b), fs)
  after_poll fs (pending, f) = (pending, f ∷ fs)

  unfoldable stack_poll : List F → Run (Poll (Option B) × List F)
  stack_poll [] = return (ready none, [])
  stack_poll (f ∷ fs) = fu.poll f >>= λ r. return (after_poll fs r)

  abbrev no_futures : List F → Bool
  no_futures [] = true
  no_futures (f ∷ fs) = false

  -- The last future pushed is polled, until it is ready.
  abbrev stack : Unordered (List F) F B
  stack = record {
    empty = [];
    push = λ fs f. f ∷ fs;
    clear = λ fs. [];
    is_empty = no_futures;
    len = length;
    stream = record {
      poll_next = stack_poll;
      size_hint = λ fs. (length fs, some (length fs));
      is_terminated = no_futures;
    };
  }

abbrev delays : Unordered (List (OrderWrapper (ℕ × ℕ))) (OrderWrapper (ℕ × ℕ)) (OrderWrapper ℕ)
delays = stack (order_wrapper delay)

-- The second output is there, and the first is to come.
abbrev half_done : FuturesOrdered (List (OrderWrapper (ℕ × ℕ))) ℕ
half_done = record {
  in_progress_queue = (pos 0, (2, 10)) ∷ [];
  queued_outputs = (pos 1, 20) ∷ [];
  next_incoming_index = pos 2;
  next_outgoing_index = pos 0;
}
