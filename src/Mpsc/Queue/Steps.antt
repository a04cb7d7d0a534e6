-- ===== src/Mpsc/Queue/Steps.antt =====
-- The steps of producers and of the consumer of futures-channel/src/mpsc/queue.rs, in any order.
use futures_rs.Prelude.{ℕ, zero, suc, List, [], ◌∷◌, ◌++◌, Option, none, some, Bool, true, false}
use futures_rs.Mpsc.Queue.{
  Queue, PopResult, popped, empty, inconsistent, Access, gives, ◌>>=◌, new, push_swap, push_link,
  pop_load, pop_check,
}

-- A producer between its steps: the old head, and its own node.
abbrev pub Producer : Type 0
Producer = ℕ × ℕ

pub record System {ℓ} (A : Type ℓ) : Type ℓ where
  pub queue : Queue A
  -- Between the loads of `pop`: whether since the first one no producer stood between its steps.
  pub consumer : Option Bool
  -- What `pop` answered after its second load, the newest first, with that flag.
  pub answers : List (PopResult A × Bool)
  pub pending : List Producer
  pub sent : List A  -- in the order of the swaps
  pub received : List A

-- A new producer makes its first step, the producer at a place of `pending` its second, or the
-- consumer the next step of `pop`.
pub data Event {ℓ} (A : Type ℓ) : Type ℓ where
  begin : A → Event A
  finish : ℕ → Event A
  consume : Event A

abbrev pub put_back :
    Producer → Option (Producer × List Producer) → Option (Producer × List Producer)
put_back p none = none
put_back p (some (x, ps)) = some (x, p ∷ ps)

abbrev pub remove_at : List Producer → ℕ → Option (Producer × List Producer)
remove_at [] k = none
remove_at (p ∷ ps) zero = some (p, ps)
remove_at (p ∷ ps) (suc k) = put_back p (remove_at ps k)

abbrev pub is_nil : List Producer → Bool
is_nil [] = true
is_nil (p ∷ ps) = false

-- A producer begins.
abbrev pub disturb : Option Bool → Option Bool
disturb none = none
disturb (some b) = some false

module _ {ℓ} {A : Type ℓ} where
  abbrev pub finishes : System A → Option (Producer × List Producer) → Access (System A)
  finishes s none = gives s
  finishes s (some ((prev, n), rest)) = do
    q ← push_link s.queue prev n
    gives (record s { queue = q; pending = rest })

  -- What follows the load of `next`.
  abbrev pub loaded : System A → Option (PopResult A) × Queue A → Access (System A)
  loaded s (some (popped a), q) = gives (record s { queue = q; received = s.received ++ a ∷ [] })
  loaded s (some empty, q) = gives (record s { queue = q })
  loaded s (some inconsistent, q) = gives (record s { queue = q })
  loaded s (none, q) = gives (record s { queue = q; consumer = some (is_nil s.pending) })

  -- The next step of the consumer.
  unfoldable pub consumes : System A → Option Bool → Access (System A)
  consumes s none = pop_load s.queue >>= loaded s
  consumes s (some quiet) =
      gives (record s { consumer = none; answers = (pop_check s.queue, quiet) ∷ s.answers })

  unfoldable pub step : System A → Event A → Access (System A)
  step s (begin t) =
      let (prev, q) = push_swap s.queue t in
      gives (record s {
        queue = q;
        consumer = disturb s.consumer;
        pending = (prev, q.head) ∷ s.pending;
        sent = s.sent ++ t ∷ [];
      })
  step s (finish k) = finishes s (remove_at s.pending k)
  step s consume = consumes s s.consumer

  unfoldable pub run : System A → List (Event A) → Access (System A)
  run s [] = gives s
  run s (e ∷ es) = step s e >>= λ s'. run s' es

  abbrev pub init : System A
  init = record {
    queue = new;
    consumer = none;
    answers = [];
    pending = [];
    sent = [];
    received = [];
  }
