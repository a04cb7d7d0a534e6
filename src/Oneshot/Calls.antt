-- ===== src/Oneshot/Calls.antt =====
-- A call on a half of futures-channel/src/oneshot.rs keeps the invariant, and so does any sequence
-- of calls and steps.
use futures_rs.Prelude.{Bool, ◌≡◌, refl, true, false, some, none, List, [], ◌∷◌, Option, arith}
use futures_rs.AtomicWaker.{Waker}
use futures_rs.Oneshot.{
  System, Inner, Tx, Rx, Event, call_tx, call_rx, step, run, init, send, poll_canceled, drop_tx,
  poll, try_recv, close, drop_rx, tx_step, rx_step, live, send_check, cancel_check, drop_flag,
  rx_live, recv_check, recv_recheck, try_check, fused_check, is_terminated, close_flag,
  rx_drop_flag,
}
use futures_rs.Oneshot.Sender.{tx-Inv}
use futures_rs.Oneshot.Receiver.{rx-Inv}
use futures_rs.Oneshot.Invariant.{
  Locks, Flags, Message, Open, RxOwed, TxStored, RxStored, TxOwed, Inv, rx_calm,
}

-- What a call begins with.
abbrev tx_entry {ℓ} : {A : Type ℓ} → Tx A → Bool
tx_entry (send_check t) = true
tx_entry (cancel_check cx) = true
tx_entry drop_flag = true
tx_entry _ = false

abbrev rx_entry : Rx → Bool
rx_entry (recv_check cx) = true
rx_entry try_check = true
rx_entry fused_check = true
rx_entry close_flag = true
rx_entry rx_drop_flag = true
rx_entry _ = false

begin_rx-stored {ℓ} : {A : Type ℓ} (n : Inner A) (p : Rx) → rx_entry p ≡ true → RxStored n p
begin_rx-stored n rx_live h = tt
begin_rx-stored n (recv_recheck cx) h = absurd (ground arith)
begin_rx-stored n p h = tt

module _ {ℓ} {A : Type ℓ} (s : System A) (v : Inv s) where
  open v use {locks, flags, message, opened, rx_stored, rx_owed, tx_stored, tx_owed}

  begin_tx-message :
      (p : Tx A)
      → s.tx ≡ live
      → tx_entry p ≡ true
      → let s' = call_tx s live p in
        Locks s' × Flags s' × Message s'.offered s'.refused s'.inner.slot.value s'.received s'.tx
  unfolding call_tx
  begin_tx-message live e n = absurd (ground arith)
  begin_tx-message p e n = ground (arith, locks, flags, message)

  begin_tx-rest :
      (p : Tx A)
      → s.tx ≡ live
      → tx_entry p ≡ true
      → let s' = call_tx s live p in
        Open s'
        × TxStored s'.inner s'.tx
        × (s'.rx ≡ s.rx)
        × (s'.inner ≡ s.inner)
        × (s'.tx_waits ≡ none)
  unfolding call_tx
  begin_tx-rest live e n = absurd (ground arith)
  begin_tx-rest p e n = ground (arith, opened)

  begin_tx-RxOwed :
      (p : Tx A) (w : Waker)
      → s.tx ≡ live
      → tx_entry p ≡ true
      → let s' = call_tx s live p in
        s'.rx_waits ≡ some w
        → RxOwed s'.inner.rx_task.value s'.rx_woken w s'.tx × (rx_calm s'.rx ≡ true)
  unfolding call_tx
  begin_tx-RxOwed live w e n h = absurd (ground arith)
  begin_tx-RxOwed p w e n h = ground (arith, rx_owed w)

  begin_tx-Inv : (p : Tx A) → s.tx ≡ live → tx_entry p ≡ true → Inv (call_tx s live p)
  begin_tx-Inv p e n =
      let (l, f, m) = begin_tx-message p e n in
      let (o, t, r, i, none_waits) = begin_tx-rest p e n in
      record {
        locks = l;
        flags = f;
        message = m;
        opened = o;
        rx_stored = rw (i, r) rx_stored;
        rx_owed = λ w. begin_tx-RxOwed p w e n;
        tx_stored = t;
        tx_owed = λ w h. absurd (ground arith);
      }

  pub call_tx-Inv : (q p : Tx A) → s.tx ≡ q → tx_entry p ≡ true → Inv (call_tx s q p)
  unfolding call_tx
  call_tx-Inv live p e n = begin_tx-Inv p e n
  call_tx-Inv q p e n = v

  begin_rx-Locks : (p : Rx) → s.rx ≡ rx_live → rx_entry p ≡ true → Locks (record s { rx = p })
  begin_rx-Locks rx_live e n = absurd (ground arith)
  begin_rx-Locks p e n = ground (arith, locks)

  begin_rx-Flags : (p : Rx) → s.rx ≡ rx_live → rx_entry p ≡ true → Flags (record s { rx = p })
  begin_rx-Flags rx_live e n = absurd (ground arith)
  begin_rx-Flags p e n = ground (arith, flags)

  begin_rx-TxOwed :
      (p : Rx) (w : Waker)
      → s.rx ≡ rx_live
      → rx_entry p ≡ true
      → TxOwed s.inner.complete s.inner.tx_task.value s.tx_woken w s.rx
      → TxOwed s.inner.complete s.inner.tx_task.value s.tx_woken w p
  begin_rx-TxOwed rx_live w e n h = absurd (ground arith)
  begin_rx-TxOwed p w e n h = ground (arith, h)

  begin_rx-Inv :
      (p : Rx) (waits : Option Waker)
      → s.rx ≡ rx_live
      → rx_entry p ≡ true
      → ((w : Waker) → waits ≡ some w → (s.rx_waits ≡ some w) × (rx_calm p ≡ true))
      → Inv (call_rx s rx_live p waits)
  unfolding call_rx
  begin_rx-Inv p waits e n keeps = record {
    locks = begin_rx-Locks p e n;
    flags = begin_rx-Flags p e n;
    message = message;
    opened = opened;
    rx_stored = begin_rx-stored s.inner p n;
    rx_owed = λ w h. ((rx_owed w (keeps w h).0).0, (keeps w h).1);
    tx_stored = tx_stored;
    tx_owed = λ w h. (begin_rx-TxOwed p w e n (tx_owed w h).0, (tx_owed w h).1);
  }

  pub call_rx-Inv :
      (q p : Rx) (waits : Option Waker)
      → s.rx ≡ q
      → rx_entry p ≡ true
      → ((w : Waker) → waits ≡ some w → (s.rx_waits ≡ some w) × (rx_calm p ≡ true))
      → Inv (call_rx s q p waits)
  unfolding call_rx
  call_rx-Inv rx_live p waits e n keeps = begin_rx-Inv p waits e n keeps
  call_rx-Inv q p waits e n keeps = v

module _ {ℓ} {A : Type ℓ} where
  step-Inv : (s : System A) (e : Event A) → Inv s → Inv (step s e)
  unfolding step
  step-Inv s (send t) v = call_tx-Inv s v s.tx (send_check t) refl refl
  step-Inv s (poll_canceled cx) v = call_tx-Inv s v s.tx (cancel_check cx) refl refl
  step-Inv s drop_tx v = call_tx-Inv s v s.tx drop_flag refl refl
  step-Inv s (poll cx) v =
      call_rx-Inv s v s.rx (recv_check cx) none refl refl (λ w h. absurd (ground arith))
  step-Inv s try_recv v = call_rx-Inv s v s.rx try_check s.rx_waits refl refl (λ w h. (h, refl))
  step-Inv s is_terminated v =
      call_rx-Inv s v s.rx fused_check s.rx_waits refl refl (λ w h. (h, refl))
  step-Inv s close v = call_rx-Inv s v s.rx close_flag s.rx_waits refl refl (λ w h. (h, refl))
  step-Inv s drop_rx v =
      call_rx-Inv s v s.rx rx_drop_flag none refl refl (λ w h. absurd (ground arith))
  step-Inv s tx_step v = tx-Inv s v
  step-Inv s rx_step v = rx-Inv s v

  init-Inv : Inv (init {A = A})
  init-Inv = record {
    locks = ground arith;
    flags = ground arith;
    message = (refl, refl, refl, refl);
    opened = ground arith;
    rx_stored = tt;
    rx_owed = λ w h. absurd (ground arith);
    tx_stored = tt;
    tx_owed = λ w h. absurd (ground arith);
  }

  run-Inv_from : (s : System A) (es : List (Event A)) → Inv s → Inv (run s es)
  unfolding run
  run-Inv_from s [] v = v
  run-Inv_from s (e ∷ es) v = run-Inv_from (step s e) es (step-Inv s e v)

  pub run-Inv : (es : List (Event A)) → Inv (run init es)
  run-Inv es = run-Inv_from init es init-Inv
