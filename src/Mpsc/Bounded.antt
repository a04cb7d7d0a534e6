-- ===== src/Mpsc/Bounded.antt =====
-- futures-channel/src/mpsc/mod.rs: the bounded channel. Each method runs to its end before the next
-- one starts. The shared part, the parked senders and the receiver's handle are one record; the
-- queues are the lists that they hold.
pub mod Calls
pub mod Invariant
pub mod Valid
pub mod History
pub mod Growth
pub mod Drain
mod Tests
use futures_rs.Prelude.{
  ℕ, zero, suc, ◌+◌, ◌-◌, ◌%◌, List, [], ◌∷◌, ◌++◌, Option, none, some, Bool, true, false, not, ltb,
  ◌==◌, if◌then◌else◌, is_none, update,
}
use futures_rs.Usize.{usize_mod}
use futures_rs.Task.{Poll, ready, pending, Result, ok, err, map_err}
use futures_rs.AtomicWaker
use futures_rs.AtomicWaker.{AtomicWaker, Waker, wakes}
use futures_rs.Mpsc.Word.{
  decode_state, init_state, max_buffer, max_capacity, is_closed, inc_num_messages, dec_num_messages,
  set_closed, Incremented, panicked, not_open, stored, size_hint,
}

pub data SendErrorKind : Type 0 where
  full disconnected : SendErrorKind

pub record SendError : Type 0 where
  pub kind : SendErrorKind

pub record TrySendError {ℓ} (A : Type ℓ) : Type ℓ where
  pub error : SendError
  pub val : A

pub data TryRecvError : Type 0 where
  empty closed : TryRecvError

pub record SenderTask : Type 0 where
  pub task : Option Waker
  pub is_parked : Bool

-- `BoundedSenderInner`: the number of its `SenderTask`, and what it remembers.
pub record Sender : Type 0 where
  pub sender_task : ℕ
  pub maybe_parked : Bool

-- `BoundedInner` with the receiver's `inner` (is it still `Some`?), the `SenderTask`s that are shared
-- by senders and `parked_queue`, and the wakers that were woken, newest first.
pub record Channel {ℓ} (A : Type ℓ) : Type ℓ where
  pub buffer : ℕ
  pub state : ℕ
  pub message_queue : List A
  pub parked_queue : List ℕ
  pub num_senders : ℕ
  pub recv_task : AtomicWaker
  pub connected : Bool
  pub tasks : ℕ → SenderTask
  pub fresh_task : ℕ
  pub woken : List Waker

abbrev pub new_task : SenderTask
new_task = record { task = none; is_parked = false }

-- What `try_send` and `next_message` return.
abbrev pub Sent {ℓ} : Type ℓ → Type ℓ
Sent A = Result (Unit {0}) (TrySendError A)

abbrev pub Received {ℓ} : Type ℓ → Type ℓ
Received A = Poll (Option A) × Channel A

abbrev pub new_sender : Sender
new_sender = record { sender_task = 0; maybe_parked = false }

module _ {ℓ} {A : Type ℓ} where
  abbrev pub new_channel : ℕ → Channel A
  new_channel buffer = record {
    buffer = buffer;
    state = init_state;
    message_queue = [];
    parked_queue = [];
    num_senders = 1;
    recv_task = AtomicWaker.new;
    connected = true;
    tasks = λ _. new_task;
    fresh_task = 1;
    woken = [];
  }

  -- `channel`; `none` is its failed assertion.
  unfoldable pub channel : ℕ → Option (Sender × Channel A)
  channel buffer = if ltb buffer max_buffer then some (new_sender, new_channel buffer) else none

  abbrev pub is_open : Channel A → Bool
  is_open c = (decode_state c.state).is_open

  -- `task.lock().unwrap().notify()`
  abbrev pub notify : ℕ → Channel A → Channel A
  notify t c = record c {
    tasks = update c.tasks t new_task;
    woken = wakes (c.tasks t).task ++ c.woken;
  }

  abbrev pub wake_receiver : Channel A → Channel A
  wake_receiver c =
      let (w, woke) = AtomicWaker.wake c.recv_task in
      record c { recv_task = w; woken = woke ++ c.woken }

  -- `set_closed` and `recv_task.wake()`
  unfoldable pub close_channel : Channel A → Channel A
  close_channel c = wake_receiver (record c { state = set_closed c.state })

  unfoldable pub queue_push_and_signal : A → Channel A → Channel A
  queue_push_and_signal msg c =
      wake_receiver (record c { message_queue = c.message_queue ++ msg ∷ [] })

  unfoldable pub park : Sender → Channel A → Sender × Channel A
  park s c = (
    record s { maybe_parked = is_open c },
    record c {
      tasks = update c.tasks s.sender_task (record { task = none; is_parked = true });
      parked_queue = c.parked_queue ++ s.sender_task ∷ [];
    },
  )

  unfoldable pub poll_unparked :
      Option Waker → Sender → Channel A → Poll (Unit {0}) × Sender × Channel A
  poll_unparked cx s c =
      let t = c.tasks s.sender_task in
      if s.maybe_parked
      then (if not t.is_parked then (ready tt, record s { maybe_parked = false }, c) else (
        pending,
        s,
        record c { tasks = update c.tasks s.sender_task (record t { task = cx }) },
      ))
      else (ready tt, s, c)

  abbrev pub refused : SendErrorKind → A → Sent A
  refused k msg = err (record { error = record { kind = k }; val = msg })

  -- The rest of `do_send_b` once `inc_num_messages` has answered; `none` is its panic.
  unfoldable pub send_counted :
      Incremented → A → Sender → Channel A → Option (Sent A × Sender × Channel A)
  send_counted panicked msg s c = none
  send_counted not_open msg s c = some (refused disconnected msg, s, c)
  send_counted (stored num_messages next) msg s c =
      let c1 = record c { state = next } in
      let (s2, c2) = if ltb c1.buffer num_messages then park s c1 else (s, c1) in
      some (ok tt, s2, queue_push_and_signal msg c2)

  -- Its `debug_assert` repeats the test of `try_send`, which is its only caller.
  unfoldable pub do_send_b : A → Sender → Channel A → Option (Sent A × Sender × Channel A)
  do_send_b msg s c = send_counted (inc_num_messages [] c.state) msg s c

  unfoldable pub try_send : A → Sender → Channel A → Option (Sent A × Sender × Channel A)
  try_send msg s c =
      let (unparked, s', c') = poll_unparked none s c in
      elim unparked [ ready _ ↦ do_send_b msg s' c' | pending ↦ some (refused full msg, s', c') ]

  unfoldable pub poll_ready :
      Waker → Sender → Channel A → Poll (Result (Unit {0}) SendError) × Sender × Channel A
  poll_ready cx s c =
      if not (is_open c)
      then (ready (err (record { kind = disconnected })), s, c)
      else (let (unparked, s', c') = poll_unparked (some cx) s c in
          (elim unparked [ ready u ↦ ready (ok u) | pending ↦ pending ], s', c'))

  abbrev pub max_senders : Channel A → ℕ
  max_senders c = max_capacity - c.buffer

  -- `BoundedSenderInner::clone` when no other thread interferes; `none` is its panic.
  unfoldable pub clone : Channel A → Option (Sender × Channel A)
  clone c =
      if c.num_senders == max_senders c
      then none
      else some (
        record { sender_task = c.fresh_task; maybe_parked = false },
        record c {
          num_senders = c.num_senders + 1;
          tasks = update c.tasks c.fresh_task new_task;
          fresh_task = suc c.fresh_task;
        },
      )

  -- `Drop for BoundedSenderInner`
  unfoldable pub drop_sender : Channel A → Channel A
  drop_sender c =
      let c' = record c { num_senders = (c.num_senders + usize_mod - 1) % usize_mod } in
      if c.num_senders == 1 then close_channel c' else c'

  -- `unpark_one`, given what `parked_queue` holds.
  abbrev pub unpark : List ℕ → Channel A → Channel A
  unpark [] c = c
  unpark (t ∷ rest) c = notify t (record c { parked_queue = rest })

  unfoldable pub unpark_one : Channel A → Channel A
  unpark_one c = unpark c.parked_queue c

  -- `next_message` on a receiver that is connected.
  unfoldable pub next_of : List A → Channel A → Received A
  next_of (msg ∷ rest) c =
      let c' = unpark_one (record c { message_queue = rest }) in
      (ready (some msg), record c' { state = dec_num_messages c'.state })
  next_of [] c =
      if is_closed (decode_state c.state)
      then (ready none, record c { connected = false })
      else (pending, c)

  unfoldable pub next_message : Channel A → Received A
  unfolding next_of
  next_message c = if c.connected then next_of c.message_queue c else (ready none, c)

  unfoldable pub register : Waker → Channel A → Channel A
  register cx c =
      let (w, woke) = AtomicWaker.register c.recv_task cx in
      record c { recv_task = w; woken = woke ++ c.woken }

  unfoldable pub poll_next : Waker → Channel A → Received A
  poll_next cx c =
      let (r, c') = next_message c in
      elim r [
        | ready none ↦ (ready none, record c' { connected = false })
        | ready (some msg) ↦ (ready (some msg), c')
        | pending ↦ next_message (register cx c')
      ]

  unfoldable pub try_recv : Channel A → Result A TryRecvError × Channel A
  try_recv c =
      let (r, c') = next_message c in
      elim r [
        | ready none ↦ (err closed, c')
        | ready (some msg) ↦ (ok msg, c')
        | pending ↦ (err empty, c')
      ]

  abbrev pub notify_all : List ℕ → Channel A → Channel A
  notify_all [] c = c
  notify_all (t ∷ ts) c = notify_all ts (notify t c)

  -- `Receiver::close`
  unfoldable pub close : Channel A → Channel A
  close c =
      if c.connected
      then notify_all c.parked_queue (record c { state = set_closed c.state; parked_queue = [] })
      else c

  -- The loop of `Drop for Receiver`; `none` means that it goes on after `fuel` rounds.
  unfoldable pub drain : ℕ → Channel A → Option (Channel A)
  drain zero c = none
  drain (suc fuel) c =
      let (r, c') = next_message c in
      elim r [
        | ready (some _) ↦ drain fuel c'
        | ready none ↦ some c'
        | pending ↦ elim (is_closed (decode_state c'.state)) [
          | true ↦ some c'
          | false ↦ drain fuel c'
        ]
      ]

  unfoldable pub drop_receiver : ℕ → Channel A → Option (Channel A)
  drop_receiver fuel c = let c' = close c in if c'.connected then drain fuel c' else some c'
