-- ===== src/Oneshot/Sender.antt =====
-- Each step of the sender of futures-channel/src/oneshot.rs keeps the invariant.
use futures_rs.Prelude.{◌≡◌, true, false, some, arith, refl}
use futures_rs.AtomicWaker.{Waker}
use futures_rs.Oneshot.{System, Tx, move_tx, live, recv_recheck}
use futures_rs.Oneshot.Invariant.{
  rx_calm, tx_calm, Locks, Flags, Message, Open, RxOwed, TxStored, RxStored, TxOwed, Inv,
}
use futures_rs.Oneshot.Facts.{rx_data-looks, rx_calm-holds, RxStored-intro, TxOwed-new}

module _ {ℓ} {A : Type ℓ} (s : System A) (v : Inv s) where
  open v use {locks, flags, message, opened, rx_stored, rx_owed, tx_stored, tx_owed}

  tx-Locks : (p : Tx A) → s.tx ≡ p → Locks (move_tx s p)
  unfolding move_tx
  tx-Locks live e = locks
  tx-Locks p e = ground (arith, locks)

  tx-Flags : (p : Tx A) → s.tx ≡ p → Flags (move_tx s p)
  unfolding move_tx
  tx-Flags live e = flags
  tx-Flags p e = ground (arith, flags)

  tx-Message :
      (p : Tx A)
      → s.tx ≡ p
      → let s' = move_tx s p in Message s'.offered s'.refused s'.inner.slot.value s'.received s'.tx
  unfolding move_tx
  tx-Message live e = message
  tx-Message p e = ground (arith, message, flags, locks)

  tx-Open : (p : Tx A) → s.tx ≡ p → Open (move_tx s p)
  unfolding move_tx
  tx-Open live e = opened
  tx-Open p e = ground (arith, opened, flags, locks, rx_data-looks s.rx)

  tx-rx : (p : Tx A) → (move_tx s p).rx ≡ s.rx
  unfolding move_tx
  tx-rx live = refl
  tx-rx p = ground arith

  tx-recheck :
      (p : Tx A) (cx : Waker)
      → s.tx ≡ p
      → s.rx ≡ recv_recheck cx
      → (move_tx s p).inner.complete ≡ false
      → (move_tx s p).inner.rx_task.value ≡ some cx
  unfolding move_tx
  tx-recheck live cx e h c = ground (arith, rx_stored)
  tx-recheck p cx e h c = ground (arith, rx_stored, flags)

  tx-RxStored : (p : Tx A) → s.tx ≡ p → RxStored (move_tx s p).inner (move_tx s p).rx
  tx-RxStored p e = rw (tx-rx p) (RxStored-intro (move_tx s p).inner s.rx (λ cx. tx-recheck p cx e))

  tx-RxOwed :
      (p : Tx A) (w : Waker)
      → s.tx ≡ p
      → (move_tx s p).rx_waits ≡ some w
      → RxOwed (move_tx s p).inner.rx_task.value (move_tx s p).rx_woken w (move_tx s p).tx
        × (rx_calm (move_tx s p).rx ≡ true)
  unfolding move_tx
  tx-RxOwed live w e h = rx_owed w h
  tx-RxOwed p w e h = ground (arith, rx_owed w, locks, rx_calm-holds s.rx)

  tx-TxStored : (p : Tx A) → s.tx ≡ p → TxStored (move_tx s p).inner (move_tx s p).tx
  unfolding move_tx
  tx-TxStored live e = tx_stored
  tx-TxStored p e = ground (arith, tx_stored)

  tx-TxOwed :
      (p : Tx A) (w : Waker)
      → s.tx ≡ p
      → let s' = move_tx s p in
        s'.tx_waits ≡ some w
        → TxOwed s'.inner.complete s'.inner.tx_task.value s'.tx_woken w s'.rx
          × (tx_calm s'.tx ≡ true)
  unfolding move_tx
  tx-TxOwed live w e h = tx_owed w h
  tx-TxOwed p w e h =
      ground (
        arith,
        tx_owed w,
        tx_stored,
        flags,
        TxOwed-new s.inner.complete s.inner.tx_task.value w s.rx,
      )

  pub tx-Inv : Inv (move_tx s s.tx)
  tx-Inv = record {
    locks = tx-Locks s.tx refl;
    flags = tx-Flags s.tx refl;
    message = tx-Message s.tx refl;
    opened = tx-Open s.tx refl;
    rx_stored = tx-RxStored s.tx refl;
    rx_owed = λ w. tx-RxOwed s.tx w refl;
    tx_stored = tx-TxStored s.tx refl;
    tx_owed = λ w. tx-TxOwed s.tx w refl;
  }
