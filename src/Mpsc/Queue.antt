-- ===== src/Mpsc/Queue.antt =====
-- futures-channel/src/mpsc/queue.rs: the intrusive queue of nodes on the heap. Producers swap
-- `head` and then link the node, in two steps; the consumer moves `tail`.
pub mod Entries
pub mod Fifo
pub mod Steps
pub mod Between
pub mod Interleaved
mod Tests
use futures_rs.Prelude.{
  ℕ, suc, ◌+◌, List, [], ◌∷◌, ◌++◌, Option, none, some, Bool, is_none, is_some, ◌&&◌, ◌==◌,
  if◌then◌else◌, update,
}

pub record Node {ℓ} (A : Type ℓ) : Type ℓ where
  pub next : Option ℕ
  pub value : Option A

-- The heap of nodes is part of the state: an address is a number, `fresh` the next one that the
-- allocator gives out, and a freed address holds `none`.
pub record Queue {ℓ} (A : Type ℓ) : Type ℓ where
  pub heap : ℕ → Option (Node A)
  pub fresh : ℕ
  pub head : ℕ
  pub tail : ℕ

pub data PopResult {ℓ} (A : Type ℓ) : Type ℓ where
  popped : A → PopResult A
  empty inconsistent : PopResult A

-- A call of the code: `fault` is a read of freed memory or a failed assertion.
pub data Access {ℓ} (A : Type ℓ) : Type ℓ where
  fault : Access A
  gives : A → Access A

infixl 5 ◌>>=◌
abbrev pub ◌>>=◌ {ℓ κ} : {A : Type ℓ} {B : Type κ} → Access A → (A → Access B) → Access B
fault >>= f = fault
gives a >>= f = f a

abbrev pub assert : Bool → Access (Unit {0})
assert b = if b then gives tt else fault

module _ {ℓ} {A : Type ℓ} where
  abbrev pub deref : (ℕ → Option (Node A)) → ℕ → Access (Node A)
  deref h a = elim (h a) [ none ↦ fault | some n ↦ gives n ]

  -- `Node::new(v)` at the address `fresh`
  abbrev pub node : Option A → Option (Node A)
  node v = some (record { next = none; value = v })

  pub new : Queue A
  new = record { heap = update (λ _. none) 0 (node none); fresh = 1; head = 0; tail = 0 }

  -- The first step of `push`: the new node becomes `head`. The old head is returned.
  unfoldable pub push_swap : Queue A → A → ℕ × Queue A
  push_swap q t = (
    q.head,
    record q { heap = update q.heap q.fresh (node (some t)); fresh = suc q.fresh; head = q.fresh },
  )

  -- The second step: the old head gets its `next`.
  unfoldable pub push_link : Queue A → ℕ → ℕ → Access (Queue A)
  push_link q prev n = do
    p ← deref q.heap prev
    gives (record q { heap = update q.heap prev (some (record p { next = some n })) })

  unfoldable pub push : Queue A → A → Access (Queue A)
  unfolding push_swap push_link
  push q t = let (prev, q') = push_swap q t in push_link q' prev q'.head

  -- The branch of `pop` for a node behind `tail`.
  unfoldable pub pop_next : Queue A → Node A → ℕ → Access (PopResult A × Queue A)
  pop_next q tail next = do
    n ← deref q.heap next
    _ ← assert (is_none tail.value)
    elim n.value [
      | none ↦ fault
      | some ret ↦ gives (
        popped ret,
        record q {
          heap = update (update q.heap next (some (record n { value = none }))) q.tail none;
          tail = next;
        },
      )
    ]

  -- The load of `next`, and what follows when it is not null.
  unfoldable pub pop_load : Queue A → Access (Option (PopResult A) × Queue A)
  unfolding pop_next
  pop_load q = do
    tail ← deref q.heap q.tail
    elim tail.next [
      | some next ↦ pop_next q tail next >>= λ (r, q'). gives (some r, q')
      | none ↦ gives (none, q)
    ]

  -- The load of `head` when `next` was null.
  unfoldable pub pop_check : Queue A → PopResult A
  pop_check q = if q.head == q.tail then empty else inconsistent

  abbrev pub checked :
      (Queue A → Queue A) → Option (PopResult A) × Queue A → Access (PopResult A × Queue A)
  checked others (some r, q) = gives (r, q)
  checked others (none, q) = gives (pop_check (others q), others q)

  -- `others` is what the producers do between the two loads.
  unfoldable pub pop : (Queue A → Queue A) → Queue A → Access (PopResult A × Queue A)
  unfolding pop_load pop_check
  pop others q = pop_load q >>= checked others

  -- What `pop_spin` does with an answer; `later` is the rest of the loop.
  abbrev pub spun :
      Access (PopResult A × Queue A)
      → (Queue A → Access (Option (Option A) × Queue A))
      → Access (Option (Option A) × Queue A)
  spun fault later = fault
  spun (gives (popped t, q)) later = gives (some (some t), q)
  spun (gives (empty, q)) later = gives (some none, q)
  spun (gives (inconsistent, q)) later = later q

  -- In each round the producers do something between the loads of `pop`, and something during
  -- `yield_now`; after the rounds of the list they do nothing. `none` in the answer means that the loop
  -- still spins then.
  unfoldable pub pop_spin :
      List ((Queue A → Queue A) × (Queue A → Queue A))
      → Queue A
      → Access (Option (Option A) × Queue A)
  unfolding pop
  pop_spin [] q = spun (pop (λ r. r) q) (λ q'. gives (none, q'))
  pop_spin ((between, during) ∷ others) q = spun (pop between q) (λ q'. pop_spin others (during q'))
