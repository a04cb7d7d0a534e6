-- ===== src/Mpsc/Bounded/Invariant.antt =====
-- What the methods of the bounded channel in futures-channel/src/mpsc/mod.rs keep: the count in the
-- word, who is parked, and how many messages there are.
pub mod Members
pub mod Tasks
pub mod Senders
pub mod Sending
pub mod Receiver
use futures_rs.Prelude.{
  ℕ, suc, ◌+◌, ◌≤◌, ◌<◌, ◌≡◌, refl, ◌≢◌, List, [], ◌∷◌, ◌++◌, Option, none, some, Bool, true, false,
  ◌==◌, ◌||◌, arith, length,
}
use futures_rs.Usize.{usize_mod}
use futures_rs.Mpsc.Word.{decode_state}
use futures_rs.Mpsc.Bounded.{Channel, Sender, SenderTask, is_open}
use Members.{mem, Distinct}

-- Who stands in `parked_queue` is parked.
abbrev pub Parked : (ℕ → SenderTask) → ℕ → List ℕ → Type 0
Parked tasks fresh [] = Unit
Parked tasks fresh (t ∷ ts) = ((tasks t).is_parked ≡ true) × (t < fresh) × Parked tasks fresh ts

module _ {ℓ} {A : Type ℓ} where
  pub record Inv (c : Channel A) : Type ℓ where
    pub word : c.state < usize_mod
    pub count : (decode_state c.state).num_messages ≡ length c.message_queue
    pub room : is_open c ≡ true → length c.message_queue ≤ c.buffer + length c.parked_queue
    pub parked : Parked c.tasks c.fresh_task c.parked_queue
    pub distinct : Distinct c.parked_queue

  -- A sender that does not think that it is parked is not in the queue of an open channel.
  pub record Fits (c : Channel A) (s : Sender) : Type ℓ where
    pub known : s.sender_task < c.fresh_task
    pub unparked :
        is_open c ≡ true → s.maybe_parked ≡ false → mem s.sender_task c.parked_queue ≡ false

  -- What a method may do to the senders that it is not called on: only the sender with the task `t`
  -- comes to stand in `parked_queue`.
  pub record Frame (t : ℕ) (c c' : Channel A) : Type ℓ where
    pub still : is_open c' ≡ true → is_open c ≡ true
    pub grows : c.fresh_task ≤ c'.fresh_task
    pub buffer : c'.buffer ≡ c.buffer
    pub joins : (u : ℕ) → u ≢ t → mem u c.parked_queue ≡ false → mem u c'.parked_queue ≡ false

  pub Fits-Frame :
      (t : ℕ) (c c' : Channel A) (s : Sender)
      → Frame t c c'
      → s.sender_task ≢ t
      → Fits c s
      → Fits c' s
  Fits-Frame t c c' s f ne v = record {
    known = omega (arith, f.grows, v.known);
    unparked = λ o m. f.joins s.sender_task ne (v.unparked (f.still o) m);
  }
