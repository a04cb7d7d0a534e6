-- ===== src/Oneshot/Invariant.antt =====
-- What every step of the halves of futures-channel/src/oneshot.rs keeps.
use futures_rs.Prelude.{
  listed, ◌≡◌, ◌⊎◌, List, [], ◌∷◌, Option, none, some, Bool, true, false, ◌||◌,
}
use futures_rs.AtomicWaker.{Waker}
use futures_rs.Oneshot.{
  System, Inner, Tx, Rx, Lock, live, gone, panicked, send_check, send_lock, send_store,
  send_recheck, send_relock, send_retake, cancel_check, cancel_lock, cancel_store, cancel_recheck,
  drop_lock_rx, drop_take_rx, drop_lock_tx, drop_take_tx, drop_wake, rx_live, rx_gone, recv_store,
  recv_recheck, recv_lock_data, recv_take, try_check, try_lock_data, try_take, fused_check,
  fused_lock_data, fused_look, close_flag, close_lock, close_take, close_wake, rx_drop_lock_rx,
  rx_drop_take_rx, rx_drop_lock_tx, rx_drop_take_tx, rx_drop_wake,
}

-- Which of the three locks a half holds: that of the data, of the receiver's task, of the sender's.
abbrev pub tx_data {ℓ} : {A : Type ℓ} → Tx A → Bool
tx_data (send_store t) = true
tx_data send_retake = true
tx_data _ = false

abbrev pub tx_rx {ℓ} : {A : Type ℓ} → Tx A → Bool
tx_rx drop_take_rx = true
tx_rx _ = false

abbrev pub tx_tx {ℓ} : {A : Type ℓ} → Tx A → Bool
tx_tx (cancel_store cx) = true
tx_tx drop_take_tx = true
tx_tx _ = false

abbrev pub rx_data : Rx → Bool
rx_data recv_take = true
rx_data try_take = true
rx_data fused_look = true
rx_data _ = false

abbrev pub rx_rx : Rx → Bool
rx_rx (recv_store cx) = true
rx_rx rx_drop_take_rx = true
rx_rx _ = false

abbrev pub rx_tx : Rx → Bool
rx_tx close_take = true
rx_tx rx_drop_take_tx = true
rx_tx _ = false

-- The sender has set the flag.
abbrev pub tx_done {ℓ} : {A : Type ℓ} → Tx A → Bool
tx_done gone = true
tx_done drop_lock_rx = true
tx_done drop_take_rx = true
tx_done (drop_wake w) = true
tx_done drop_lock_tx = true
tx_done drop_take_tx = true
tx_done _ = false

-- The sender has seen the flag in this call.
abbrev pub tx_looks {ℓ} : {A : Type ℓ} → Tx A → Bool
tx_looks send_relock = true
tx_looks send_retake = true
tx_looks _ = false

-- The receiver has seen the flag in this call.
abbrev pub rx_looks : Rx → Bool
rx_looks recv_lock_data = true
rx_looks recv_take = true
rx_looks try_lock_data = true
rx_looks try_take = true
rx_looks fused_lock_data = true
rx_looks fused_look = true
rx_looks _ = false

-- The receiver has set the flag in this call.
abbrev pub rx_shuts : Rx → Bool
rx_shuts close_lock = true
rx_shuts close_take = true
rx_shuts (close_wake w) = true
rx_shuts rx_drop_lock_rx = true
rx_shuts rx_drop_take_rx = true
rx_shuts rx_drop_lock_tx = true
rx_shuts rx_drop_take_tx = true
rx_shuts (rx_drop_wake w) = true
rx_shuts rx_gone = true
rx_shuts _ = false

-- The receiver is in no call that changes its task.
abbrev pub rx_calm : Rx → Bool
rx_calm rx_live = true
rx_calm try_check = true
rx_calm try_lock_data = true
rx_calm try_take = true
rx_calm fused_check = true
rx_calm fused_lock_data = true
rx_calm fused_look = true
rx_calm close_flag = true
rx_calm close_lock = true
rx_calm close_take = true
rx_calm (close_wake w) = true
rx_calm _ = false

abbrev pub tx_calm {ℓ} : {A : Type ℓ} → Tx A → Bool
tx_calm live = true
tx_calm _ = false

-- A lock is taken where a half holds it, and not by both.
abbrev pub Guarded {ℓ} : {A : Type ℓ} → Lock A → Bool → Bool → Type 0
Guarded l a b = (l.locked ≡ (a || b)) × (a ≡ true → b ≡ false)

module _ {ℓ} {A : Type ℓ} where
  abbrev pub Locks : System A → Type 0
  Locks s =
      Guarded s.inner.slot (tx_data s.tx) (rx_data s.rx)
      × Guarded s.inner.rx_task (tx_rx s.tx) (rx_rx s.rx)
      × Guarded s.inner.tx_task (tx_tx s.tx) (rx_tx s.rx)

  abbrev pub Flags : System A → Type 0
  Flags s =
      (tx_done s.tx ≡ true → s.inner.complete ≡ true)
      × (tx_looks s.tx ≡ true → s.inner.complete ≡ true)
      × (s.closed ≡ true → s.inner.complete ≡ true)
      × (s.inner.complete ≡ true → s.closed ≡ false → tx_done s.tx ≡ true)
      × (rx_looks s.rx ≡ true → s.inner.complete ≡ true)
      × (rx_shuts s.rx ≡ true → s.closed ≡ true)

  -- Where the value is that was given to `send`: what was offered, what was refused, the slot, and
  -- what was received.
  module _ (offered refused : List A) (slot : Option A) (received : List A) where
    abbrev pub Stored : Type ℓ
    Stored = ((received ≡ []) × (listed slot ≡ offered)) ⊎ ((slot ≡ none) × (received ≡ offered))

    abbrev pub Given : Type ℓ
    Given = ((refused ≡ []) × Stored) ⊎ ((refused ≡ offered) × (slot ≡ none) × (received ≡ []))

    abbrev pub Before : List A → Type ℓ
    Before ts = (offered ≡ ts) × (refused ≡ []) × (slot ≡ none) × (received ≡ [])

    -- No sender has failed its assertion.
    abbrev pub Message : Tx A → Type ℓ
    Message panicked = some offered ≡ none
    Message live = Before []
    Message (cancel_check cx) = Before []
    Message (cancel_lock cx) = Before []
    Message (cancel_store cx) = Before []
    Message (cancel_recheck cx) = Before []
    Message (send_check t) = Before (t ∷ [])
    Message (send_lock t) = Before (t ∷ [])
    Message (send_store t) = Before (t ∷ [])
    Message send_recheck = (refused ≡ []) × Stored
    Message send_relock = (refused ≡ []) × Stored
    Message send_retake = (refused ≡ []) × Stored
    Message _ = Given

  -- While the receiver has not closed the channel.
  abbrev pub Open : System A → Type ℓ
  Open s =
      (s.closed ≡ false → s.refused ≡ [])
      × (s.closed ≡ false → s.canceled ≡ true → (s.received ≡ s.offered) × (tx_done s.tx ≡ true))

  -- What is owed to a receiver that waits with `w`, given its slot and the wakers woken for it.
  abbrev pub RxOwed : Option Waker → List Waker → Waker → Tx A → Type 0
  RxOwed slot woken w (drop_wake v) = (v ≡ w) × (woken ≡ [])
  RxOwed slot woken w drop_lock_tx = woken ≡ w ∷ []
  RxOwed slot woken w drop_take_tx = woken ≡ w ∷ []
  RxOwed slot woken w gone = woken ≡ w ∷ []
  RxOwed slot woken w _ = (slot ≡ some w) × (woken ≡ [])

  abbrev pub TxStored : Inner A → Tx A → Type 0
  TxStored n (cancel_recheck cx) = n.complete ≡ false → n.tx_task.value ≡ some cx
  TxStored n _ = Unit

abbrev pub RxStored {ℓ} : {A : Type ℓ} → Inner A → Rx → Type 0
RxStored n (recv_recheck cx) = n.complete ≡ false → n.rx_task.value ≡ some cx
RxStored n _ = Unit

-- What is owed to a sender that waits with `w`: its task is still there, or was woken.
module _ (complete : Bool) (slot : Option Waker) (woken : List Waker) (w : Waker) where
  abbrev pub Owing : Type 0
  Owing = (slot ≡ some w) × (woken ≡ [])

  abbrev pub Paid : Type 0
  Paid = (slot ≡ none) × (woken ≡ w ∷ [])

  abbrev pub TxOwed : Rx → Type 0
  TxOwed close_lock = Owing ⊎ Paid
  TxOwed close_take = Owing ⊎ Paid
  TxOwed (close_wake v) = (v ≡ w) × (slot ≡ none) × (woken ≡ [])
  TxOwed rx_drop_lock_rx = Owing ⊎ Paid
  TxOwed rx_drop_take_rx = Owing ⊎ Paid
  TxOwed rx_drop_lock_tx = Owing ⊎ Paid
  TxOwed rx_drop_take_tx = Owing ⊎ Paid
  TxOwed (rx_drop_wake v) = (v ≡ w) × (slot ≡ none) × (woken ≡ [])
  TxOwed _ = (complete ≡ false → Owing) × (complete ≡ true → Paid)

module _ {ℓ} {A : Type ℓ} where
  pub record Inv (s : System A) : Type ℓ where
    pub locks : Locks s
    pub flags : Flags s
    pub message : Message s.offered s.refused s.inner.slot.value s.received s.tx
    pub opened : Open s
    pub rx_stored : RxStored s.inner s.rx
    pub rx_owed :
        (w : Waker)
        → s.rx_waits ≡ some w
        → RxOwed s.inner.rx_task.value s.rx_woken w s.tx × (rx_calm s.rx ≡ true)
    pub tx_stored : TxStored s.inner s.tx
    pub tx_owed :
        (w : Waker)
        → s.tx_waits ≡ some w
        → TxOwed s.inner.complete s.inner.tx_task.value s.tx_woken w s.rx × (tx_calm s.tx ≡ true)
