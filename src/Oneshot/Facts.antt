-- ===== src/Oneshot/Facts.antt =====
-- What the places of the halves of futures-channel/src/oneshot.rs say of one another.
use futures_rs.Prelude.{Bool, ◌≡◌, true, false, some, none, List, [], ◌∷◌, Option, arith, refl}
use futures_rs.AtomicWaker.{Waker}
use futures_rs.Oneshot.{Inner, Tx, Rx, live, cancel_recheck, rx_live, recv_recheck}
use futures_rs.Oneshot.Invariant.{
  tx_data, tx_rx, tx_tx, rx_data, rx_rx, tx_done, rx_looks, rx_shuts, rx_calm, tx_calm, Given,
  Message, RxOwed, TxStored, RxStored, TxOwed,
}

pub rx_data-looks : (r : Rx) → rx_data r ≡ true → rx_looks r ≡ true
rx_data-looks rx_live h = absurd (ground arith)
rx_data-looks r h = ground arith

pub rx_calm-holds : (r : Rx) → rx_calm r ≡ true → rx_rx r ≡ false
rx_calm-holds rx_live h = refl
rx_calm-holds r h = ground arith

pub RxStored-intro {ℓ} :
    {A : Type ℓ} (n : Inner A) (r : Rx)
    → ((cx : Waker) → r ≡ recv_recheck cx → n.complete ≡ false → n.rx_task.value ≡ some cx)
    → RxStored n r
RxStored-intro n (recv_recheck cx) f = f cx refl
RxStored-intro n rx_live f = tt
RxStored-intro n r f = tt

pub TxOwed-new :
    (c : Bool) (slot : Option Waker) (w : Waker) (r : Rx)
    → rx_shuts r ≡ false
    → c ≡ false
    → slot ≡ some w
    → TxOwed c slot [] w r
TxOwed-new c slot w rx_live h k e = ground arith
TxOwed-new c slot w r h k e = ground arith

pub RxOwed-new {ℓ} :
    {A : Type ℓ} (slot : Option Waker) (w : Waker) (p : Tx A)
    → tx_done p ≡ false
    → slot ≡ some w
    → RxOwed slot [] w p
RxOwed-new slot w live h e = ground arith
RxOwed-new slot w p h e = ground arith

pub TxStored-intro {ℓ} :
    {A : Type ℓ} (n : Inner A) (p : Tx A)
    → ((cx : Waker) → p ≡ cancel_recheck cx → n.complete ≡ false → n.tx_task.value ≡ some cx)
    → TxStored n p
TxStored-intro n (cancel_recheck cx) f = f cx refl
TxStored-intro n live f = tt
TxStored-intro n p f = tt

pub done_free {ℓ} : {A : Type ℓ} (p : Tx A) → tx_done p ≡ true → tx_data p ≡ false
done_free live h = refl
done_free p h = ground arith

pub tx_rx-done {ℓ} : {A : Type ℓ} (p : Tx A) → tx_rx p ≡ true → tx_done p ≡ true
tx_rx-done live h = absurd (ground arith)
tx_rx-done p h = ground arith

pub tx_calm-holds {ℓ} : {A : Type ℓ} (p : Tx A) → tx_calm p ≡ true → tx_tx p ≡ false
tx_calm-holds live h = refl
tx_calm-holds p h = ground arith

pub Message-take {ℓ} :
    {A : Type ℓ} (offered refused : List A) (t : A) (received : List A) (p : Tx A)
    → Message offered refused (some t) received p
    → Message offered refused none (t ∷ received) p
Message-take offered refused t received live h = absurd (ground (arith, h))
Message-take offered refused t received p h = ground (arith, h)

pub Message-Given {ℓ} :
    {A : Type ℓ} (offered refused : List A) (slot : Option A) (received : List A) (p : Tx A)
    → tx_done p ≡ true
    → Message offered refused slot received p
    → Given offered refused slot received
Message-Given offered refused slot received live d h = absurd (ground arith)
Message-Given offered refused slot received p d h = ground (arith, h)
