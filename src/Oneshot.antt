-- ===== src/Oneshot.antt =====
-- futures-channel/src/oneshot.rs and lock.rs: the channel for one message. Every load, store and
-- `try_lock` of its two halves is one step; so is what is done under a lock up to its release, which
-- nothing else can see.
pub mod Invariant
pub mod Facts
pub mod Sender
pub mod Receiver
pub mod Calls
pub mod Results
mod Tests
use futures_rs.Prelude.{List, [], ◌∷◌, Option, none, some, Bool, true, false, if◌then◌else◌}
use futures_rs.AtomicWaker.{Waker}

-- `Lock<Option<T>>`
pub record Lock {ℓ} (A : Type ℓ) : Type ℓ where
  pub locked : Bool
  pub value : Option A

pub record Inner {ℓ} (A : Type ℓ) : Type ℓ where
  pub complete : Bool
  pub slot : Lock A  -- `data`
  pub rx_task : Lock Waker
  pub tx_task : Lock Waker

abbrev pub new_lock {ℓ} : {A : Type ℓ} → Lock A
new_lock = record { locked = false; value = none }

abbrev pub new {ℓ} : {A : Type ℓ} → Inner A
new = record { complete = false; slot = new_lock; rx_task = new_lock; tx_task = new_lock }

-- `locked.swap(true)`, which tells whether the lock was free.
abbrev pub lock {ℓ} : {A : Type ℓ} → Lock A → Lock A
lock l = record l { locked = true }

-- What is written under the lock, and its release.
abbrev pub release {ℓ} : {A : Type ℓ} → Option A → Lock A
release o = record { locked = false; value = o }

-- Where the sender stands. `send_` is `Sender::send`, `cancel_` is `poll_canceled`, `drop_` is
-- `drop_tx`, which also ends `send`.
pub data Tx {ℓ} (A : Type ℓ) : Type ℓ where
  live gone panicked : Tx A
  send_check send_lock send_store : (t : A) → Tx A
  send_recheck send_relock send_retake : Tx A
  cancel_check cancel_lock cancel_store cancel_recheck : (cx : Waker) → Tx A
  drop_flag drop_lock_rx drop_take_rx drop_lock_tx drop_take_tx : Tx A
  drop_wake : (w : Waker) → Tx A

-- Where the receiver stands. `recv_` is its `poll`, `try_` is `try_recv`, `fused_` is
-- `is_terminated`, `close_` is `close`,
-- `drop_` is `drop_rx`.
pub data Rx : Type 0 where
  rx_live rx_gone : Rx
  recv_check recv_lock recv_store recv_recheck : (cx : Waker) → Rx
  recv_lock_data recv_take : Rx
  try_check try_lock_data try_take : Rx
  fused_check fused_lock_data fused_look : Rx
  close_flag close_lock close_take : Rx
  close_wake : (w : Waker) → Rx
  rx_drop_flag rx_drop_lock_rx rx_drop_take_rx rx_drop_lock_tx rx_drop_take_tx : Rx
  rx_drop_wake : (w : Waker) → Rx

-- The two halves, and what has happened: the value given to `send`, what `send` gave back, what was
-- received, whether the receiver has closed the channel, whether it was ever answered `Canceled`.
-- A half waits when its last poll answered `Pending`, and the wakers woken for it since then.
pub record System {ℓ} (A : Type ℓ) : Type ℓ where
  pub inner : Inner A
  pub tx : Tx A
  pub rx : Rx
  pub offered : List A
  pub refused : List A
  pub received : List A
  pub closed : Bool
  pub canceled : Bool
  pub tx_waits : Option Waker
  pub tx_woken : List Waker
  pub rx_waits : Option Waker
  pub rx_woken : List Waker

pub data Event {ℓ} (A : Type ℓ) : Type ℓ where
  send : A → Event A
  poll_canceled : Waker → Event A
  drop_tx : Event A
  poll : Waker → Event A
  try_recv : Event A
  is_terminated : Event A
  close : Event A
  drop_rx : Event A
  tx_step rx_step : Event A

module _ {ℓ} {A : Type ℓ} where
  abbrev with_complete : System A → System A
  with_complete s = record s { inner = record s.inner { complete = true } }

  abbrev pub with_data : System A → Lock A → System A
  with_data s l = record s { inner = record s.inner { slot = l } }

  abbrev pub with_rx_task : System A → Lock Waker → System A
  with_rx_task s l = record s { inner = record s.inner { rx_task = l } }

  abbrev pub with_tx_task : System A → Lock Waker → System A
  with_tx_task s l = record s { inner = record s.inner { tx_task = l } }

  -- `Err(t)`, and the drop of the sender.
  abbrev pub refuse : System A → A → System A
  refuse s t = record s { tx = drop_flag; refused = t ∷ s.refused }

  -- The next step of the sender.
  unfoldable pub move_tx : System A → Tx A → System A
  move_tx s (send_check t) = if s.inner.complete then refuse s t else record s { tx = send_lock t }
  move_tx s (send_lock t) =
      if s.inner.slot.locked
      then refuse s t
      else record (with_data s (lock s.inner.slot)) { tx = send_store t }
  move_tx s (send_store t) = elim s.inner.slot.value [
    | some _ ↦ record s { tx = panicked }
    | none ↦ record (with_data s (release (some t))) { tx = send_recheck }
  ]
  move_tx s send_recheck = record s { tx = if s.inner.complete then send_relock else drop_flag }
  move_tx s send_relock =
      if s.inner.slot.locked
      then record s { tx = drop_flag }
      else record (with_data s (lock s.inner.slot)) { tx = send_retake }
  move_tx s send_retake = elim s.inner.slot.value [
    | some t ↦ refuse (with_data s (release none)) t
    | none ↦ record (with_data s (release none)) { tx = drop_flag }
  ]
  move_tx s (cancel_check cx) = record s { tx = if s.inner.complete then live else cancel_lock cx }
  move_tx s (cancel_lock cx) =
      if s.inner.tx_task.locked
      then record s { tx = live }
      else record (with_tx_task s (lock s.inner.tx_task)) { tx = cancel_store cx }
  move_tx s (cancel_store cx) = record (with_tx_task s (release (some cx))) {
    tx = cancel_recheck cx;
  }
  move_tx s (cancel_recheck cx) =
      if s.inner.complete
      then record s { tx = live }
      else record s { tx = live; tx_waits = some cx; tx_woken = [] }
  move_tx s drop_flag = record (with_complete s) { tx = drop_lock_rx }
  move_tx s drop_lock_rx =
      if s.inner.rx_task.locked
      then record s { tx = drop_lock_tx }
      else record (with_rx_task s (lock s.inner.rx_task)) { tx = drop_take_rx }
  move_tx s drop_take_rx = elim s.inner.rx_task.value [
    | some w ↦ record (with_rx_task s (release none)) { tx = drop_wake w }
    | none ↦ record (with_rx_task s (release none)) { tx = drop_lock_tx }
  ]
  move_tx s (drop_wake w) = record s { tx = drop_lock_tx; rx_woken = w ∷ s.rx_woken }
  move_tx s drop_lock_tx =
      if s.inner.tx_task.locked
      then record s { tx = gone }
      else record (with_tx_task s (lock s.inner.tx_task)) { tx = drop_take_tx }
  move_tx s drop_take_tx = record (with_tx_task s (release none)) { tx = gone }
  move_tx s other = s

  -- The answer to a receiver that has taken what was in `data`.
  abbrev pub receive : System A → Option A → System A
  receive s (some t) = record s { rx = rx_live; received = t ∷ s.received }
  receive s none = record s { rx = rx_live; canceled = true }

  -- The next step of the receiver.
  unfoldable pub move_rx : System A → Rx → System A
  move_rx s (recv_check cx) = record s {
    rx = if s.inner.complete then recv_lock_data else recv_lock cx;
  }
  move_rx s (recv_lock cx) =
      if s.inner.rx_task.locked
      then record s { rx = recv_lock_data }
      else record (with_rx_task s (lock s.inner.rx_task)) { rx = recv_store cx }
  move_rx s (recv_store cx) = record (with_rx_task s (release (some cx))) { rx = recv_recheck cx }
  move_rx s (recv_recheck cx) =
      if s.inner.complete
      then record s { rx = recv_lock_data }
      else record s { rx = rx_live; rx_waits = some cx; rx_woken = [] }
  move_rx s recv_lock_data =
      if s.inner.slot.locked
      then receive s none
      else record (with_data s (lock s.inner.slot)) { rx = recv_take }
  move_rx s recv_take = receive (with_data s (release none)) s.inner.slot.value
  move_rx s try_check = record s { rx = if s.inner.complete then try_lock_data else rx_live }
  move_rx s try_lock_data =
      if s.inner.slot.locked
      then receive s none
      else record (with_data s (lock s.inner.slot)) { rx = try_take }
  move_rx s try_take = receive (with_data s (release none)) s.inner.slot.value
  move_rx s fused_check = record s { rx = if s.inner.complete then fused_lock_data else rx_live }
  move_rx s fused_lock_data =
      if s.inner.slot.locked
      then record s { rx = rx_live }
      else record (with_data s (lock s.inner.slot)) { rx = fused_look }
  move_rx s fused_look = record (with_data s (release s.inner.slot.value)) { rx = rx_live }
  move_rx s close_flag = record (with_complete s) { rx = close_lock; closed = true }
  move_rx s close_lock =
      if s.inner.tx_task.locked
      then record s { rx = rx_live }
      else record (with_tx_task s (lock s.inner.tx_task)) { rx = close_take }
  move_rx s close_take = elim s.inner.tx_task.value [
    | some w ↦ record (with_tx_task s (release none)) { rx = close_wake w }
    | none ↦ record (with_tx_task s (release none)) { rx = rx_live }
  ]
  move_rx s (close_wake w) = record s { rx = rx_live; tx_woken = w ∷ s.tx_woken }
  move_rx s rx_drop_flag = record (with_complete s) { rx = rx_drop_lock_rx; closed = true }
  move_rx s rx_drop_lock_rx =
      if s.inner.rx_task.locked
      then record s { rx = rx_drop_lock_tx }
      else record (with_rx_task s (lock s.inner.rx_task)) { rx = rx_drop_take_rx }
  move_rx s rx_drop_take_rx = record (with_rx_task s (release none)) { rx = rx_drop_lock_tx }
  move_rx s rx_drop_lock_tx =
      if s.inner.tx_task.locked
      then record s { rx = rx_gone }
      else record (with_tx_task s (lock s.inner.tx_task)) { rx = rx_drop_take_tx }
  move_rx s rx_drop_take_tx = elim s.inner.tx_task.value [
    | some w ↦ record (with_tx_task s (release none)) { rx = rx_drop_wake w }
    | none ↦ record (with_tx_task s (release none)) { rx = rx_gone }
  ]
  move_rx s (rx_drop_wake w) = record s { rx = rx_gone; tx_woken = w ∷ s.tx_woken }
  move_rx s other = s

  -- A half that is in no call begins one.
  unfoldable pub call_tx : System A → Tx A → Tx A → System A
  call_tx s live (send_check t) = record s {
    tx = send_check t;
    offered = t ∷ s.offered;
    tx_waits = none;
  }
  call_tx s live p = record s { tx = p; tx_waits = none }
  call_tx s q p = s

  unfoldable pub call_rx : System A → Rx → Rx → Option Waker → System A
  call_rx s rx_live p waits = record s { rx = p; rx_waits = waits }
  call_rx s q p waits = s

  unfoldable pub step : System A → Event A → System A
  step s (send t) = call_tx s s.tx (send_check t)
  step s (poll_canceled cx) = call_tx s s.tx (cancel_check cx)
  step s drop_tx = call_tx s s.tx drop_flag
  step s (poll cx) = call_rx s s.rx (recv_check cx) none
  step s try_recv = call_rx s s.rx try_check s.rx_waits
  step s is_terminated = call_rx s s.rx fused_check s.rx_waits
  step s close = call_rx s s.rx close_flag s.rx_waits
  step s drop_rx = call_rx s s.rx rx_drop_flag none
  step s tx_step = move_tx s s.tx
  step s rx_step = move_rx s s.rx

  unfoldable pub run : System A → List (Event A) → System A
  run s [] = s
  run s (e ∷ es) = run (step s e) es

  abbrev pub init : System A
  init = record {
    inner = new;
    tx = live;
    rx = rx_live;
    offered = [];
    refused = [];
    received = [];
    closed = false;
    canceled = false;
    tx_waits = none;
    tx_woken = [];
    rx_waits = none;
    rx_woken = [];
  }
