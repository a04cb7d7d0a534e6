-- ===== src/Oneshot/Receiver.antt =====
-- Each step of the receiver of futures-channel/src/oneshot.rs keeps the invariant.
use futures_rs.Prelude.{◌≡◌, true, false, some, none, ◌∷◌, Option, arith, subst, refl}
use futures_rs.AtomicWaker.{Waker}
use futures_rs.Oneshot.{
  System, Rx, release, with_data, receive, move_rx, cancel_recheck, rx_live, recv_take, try_take,
}
use futures_rs.Oneshot.Invariant.{
  rx_calm, tx_calm, Locks, Flags, Message, Open, RxOwed, TxStored, RxStored, TxOwed, Inv,
}
use futures_rs.Oneshot.Facts.{
  RxOwed-new, TxStored-intro, done_free, tx_rx-done, tx_calm-holds, Message-take, Message-Given,
}

module _ {ℓ} {A : Type ℓ} (s : System A) (v : Inv s) where
  open v use {locks, flags, message, opened, rx_stored, rx_owed, tx_stored, tx_owed}

  rx-Locks : (p : Rx) → s.rx ≡ p → Locks (move_rx s p)
  unfolding move_rx
  rx-Locks rx_live e = locks
  rx-Locks p e = ground (arith, locks)

  rx-Flags : (p : Rx) → s.rx ≡ p → Flags (move_rx s p)
  unfolding move_rx
  rx-Flags rx_live e = flags
  rx-Flags p e = ground (arith, flags, locks, tx_rx-done s.tx)

  rx-tx : (p : Rx) → (move_rx s p).tx ≡ s.tx
  unfolding move_rx
  rx-tx rx_live = refl
  rx-tx p = ground arith

  taken :
      (t : A) → s.inner.slot.value ≡ some t → Message s.offered s.refused none (t ∷ s.received) s.tx
  taken t e =
      Message-take s.offered s.refused t s.received s.tx
        (subst (λ o. Message s.offered s.refused o s.received s.tx) e message)

  emptied : s.inner.slot.value ≡ none → Message s.offered s.refused none s.received s.tx
  emptied e = subst (λ o. Message s.offered s.refused o s.received s.tx) e message

  -- What was taken under the lock is received, and the value moves there.
  receive-Message :
      (o : Option A)
      → s.inner.slot.value ≡ o
      → let s' = receive (with_data s (release none)) o in
        Message s'.offered s'.refused s'.inner.slot.value s'.received s'.tx
  receive-Message none e = emptied e
  receive-Message (some t) e = taken t e

  same-Message :
      (s' : System A)
      → (s'.offered ≡ s.offered)
        × (s'.refused ≡ s.refused)
        × (s'.inner.slot.value ≡ s.inner.slot.value)
        × (s'.received ≡ s.received)
        × (s'.tx ≡ s.tx)
      → Message s'.offered s'.refused s'.inner.slot.value s'.received s'.tx
  same-Message s' (a, b, c, d, e) = rw (a, b, c, d, e) message

  rx-Message :
      (p : Rx)
      → let s' = move_rx s p in Message s'.offered s'.refused s'.inner.slot.value s'.received s'.tx
  unfolding move_rx
  rx-Message rx_live = message
  rx-Message recv_take = receive-Message s.inner.slot.value refl
  rx-Message try_take = receive-Message s.inner.slot.value refl
  rx-Message p = same-Message (move_rx s p) (ground arith)

  rx-Open : (p : Rx) → s.rx ≡ p → Open (move_rx s p)
  unfolding move_rx
  rx-Open rx_live e = opened
  rx-Open p e = ground (
    arith,
    opened,
    flags,
    locks,
    done_free s.tx,
    Message-Given s.offered s.refused s.inner.slot.value s.received s.tx,
    message,
  )

  rx-RxStored : (p : Rx) → s.rx ≡ p → RxStored (move_rx s p).inner (move_rx s p).rx
  unfolding move_rx
  rx-RxStored rx_live e = rx_stored
  rx-RxStored p e = ground (arith, rx_stored)

  rx-RxOwed :
      (p : Rx) (w : Waker)
      → s.rx ≡ p
      → (move_rx s p).rx_waits ≡ some w
      → RxOwed (move_rx s p).inner.rx_task.value (move_rx s p).rx_woken w (move_rx s p).tx
        × (rx_calm (move_rx s p).rx ≡ true)
  unfolding move_rx
  rx-RxOwed rx_live w e h = rx_owed w h
  rx-RxOwed p w e h =
      ground (arith, rx_owed w, rx_stored, flags, RxOwed-new s.inner.rx_task.value w s.tx)

  rx-tx_recheck :
      (p : Rx) (cx : Waker)
      → s.rx ≡ p
      → s.tx ≡ cancel_recheck cx
      → (move_rx s p).inner.complete ≡ false
      → (move_rx s p).inner.tx_task.value ≡ some cx
  unfolding move_rx
  rx-tx_recheck rx_live cx e h c = ground (arith, tx_stored)
  rx-tx_recheck p cx e h c = ground (arith, tx_stored, flags)

  rx-TxStored : (p : Rx) → s.rx ≡ p → TxStored (move_rx s p).inner (move_rx s p).tx
  rx-TxStored p e =
      rw (rx-tx p) (TxStored-intro (move_rx s p).inner s.tx (λ cx. rx-tx_recheck p cx e))

  rx-TxOwed :
      (p : Rx) (w : Waker)
      → s.rx ≡ p
      → let s' = move_rx s p in
        s'.tx_waits ≡ some w
        → TxOwed s'.inner.complete s'.inner.tx_task.value s'.tx_woken w s'.rx
          × (tx_calm s'.tx ≡ true)
  unfolding move_rx
  rx-TxOwed rx_live w e h = tx_owed w h
  rx-TxOwed p w e h = ground (arith, tx_owed w, flags, locks, tx_calm-holds s.tx)

  pub rx-Inv : Inv (move_rx s s.rx)
  rx-Inv = record {
    locks = rx-Locks s.rx refl;
    flags = rx-Flags s.rx refl;
    message = rx-Message s.rx;
    opened = rx-Open s.rx refl;
    rx_stored = rx-RxStored s.rx refl;
    rx_owed = λ w. rx-RxOwed s.rx w refl;
    tx_stored = rx-TxStored s.rx refl;
    tx_owed = λ w. rx-TxOwed s.rx w refl;
  }
