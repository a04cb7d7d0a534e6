-- ===== src/Oneshot/Results.antt =====
-- What the oneshot channel of futures-channel/src/oneshot.rs promises, in every interleaving of its
-- two halves.
use mathlib.Core.List.{append-nil}
use futures_rs.Prelude.{
  listed, ◌≡◌, ◌≢◌, ◌⊎◌, refl, true, false, some, none, List, [], ◌∷◌, ◌++◌, Option, arith, sym,
  ◌∙◌,
}
use futures_rs.AtomicWaker.{Waker}
use futures_rs.Oneshot.{
  System, Tx, Event, run, init, gone, live, panicked, send_check, send_lock, send_store, rx_live,
  rx_gone, rx_step, poll, receive, release, step, move_rx, call_rx,
}
use futures_rs.Oneshot.Invariant.{tx_done, Given, Message}
use futures_rs.Oneshot.Calls.{run-Inv}

-- The value that the sender has not yet put in the slot.
abbrev pub carried {ℓ} : {A : Type ℓ} → Tx A → List A
carried (send_check t) = t ∷ []
carried (send_lock t) = t ∷ []
carried (send_store t) = t ∷ []
carried _ = []

module _ {ℓ} {A : Type ℓ} where
  abbrev pub places : System A → List A
  places s = carried s.tx ++ listed s.inner.slot.value ++ s.refused ++ s.received

  Message-places :
      (offered refused : List A) (slot : Option A) (received : List A) (p : Tx A)
      → Message offered refused slot received p
      → (p ≢ panicked) × (carried p ++ listed slot ++ refused ++ received ≡ offered)
  Message-places offered refused slot received live h = ground (arith, h)
  Message-places offered refused none received p h = ground (arith, h, append-nil refused)
  Message-places offered refused (some t) received p h = ground (arith, h)

  -- Nothing is lost and nothing is received twice: after any sequence of calls and steps of the two
  -- halves the sender has failed no assertion, and the value that was given to `send` is in exactly
  -- one place: still with the sender, in the slot, given back as an error, or received.
  pub one_place :
      (es : List (Event A)) → let s = run init es in (s.tx ≢ panicked) × (places s ≡ s.offered)
  one_place es =
      let s = run init es in
      Message-places s.offered s.refused s.inner.slot.value s.received s.tx (run-Inv es).message

  -- A receiver is woken when its sender goes away: when its last poll answered `Pending` to a task
  -- `w` and the drop of the sender has ended, the sender has woken `w`, once since that poll.
  pub receiver_woken :
      (es : List (Event A)) (w : Waker)
      → let s = run init es in s.rx_waits ≡ some w → s.tx ≡ gone → s.rx_woken ≡ w ∷ []
  receiver_woken es w h e = let v = run-Inv es in ground (arith, v.rx_owed w)

  -- A sender is woken when its receiver closes the channel: when its last `poll_canceled` answered
  -- `Pending` to a task `w`, the flag is set, and the receiver is in no call or gone, the receiver
  -- has woken `w`, once since that poll.
  pub sender_woken :
      (es : List (Event A)) (w : Waker)
      → let s = run init es in
        s.tx_waits ≡ some w
        → s.inner.complete ≡ true
        → (s.rx ≡ rx_live) ⊎ (s.rx ≡ rx_gone)
        → s.tx_woken ≡ w ∷ []
  sender_woken es w h c e = let v = run-Inv es in ground (arith, v.tx_owed w)

  -- `Canceled` means what it says: if a receiver that has not closed the channel was ever answered
  -- `Canceled`, the sender has set the flag, so that it sends nothing more, and all that was given
  -- to `send` has been received.
  pub canceled_final :
      (es : List (Event A))
      → let s = run init es in
        s.closed ≡ false → s.canceled ≡ true → (tx_done s.tx ≡ true) × (s.received ≡ s.offered)
  canceled_final es o c = let v = run-Inv es in ground (arith, v.opened)

  abbrev pub polling : Waker → List (Event A)
  polling cx = poll cx ∷ rx_step ∷ rx_step ∷ rx_step ∷ []

  receive_fields :
      (s : System A) (o : Option A)
      → ((receive s o).rx ≡ rx_live)
        × ((receive s o).offered ≡ s.offered)
        × ((receive s o).received ≡ listed o ++ s.received)
  receive_fields s none = (refl, refl, refl)
  receive_fields s (some t) = (refl, refl, refl)

  -- A poll of a complete channel takes three steps.
  poll_alone :
      (s : System A) (cx : Waker)
      → s.rx ≡ rx_live
      → s.inner.complete ≡ true
      → s.inner.slot.locked ≡ false
      → let o = s.inner.slot.value in
        ((run s (polling cx)).rx ≡ rx_live)
        × ((run s (polling cx)).offered ≡ s.offered)
        × ((run s (polling cx)).received ≡ listed o ++ s.received)
  unfolding run step move_rx call_rx
  poll_alone s cx e c l =
      rw (e, c, l)
        (receive_fields
          (record s {
            inner = record s.inner { complete = true; slot = release none };
            rx_waits = none;
          })
          s.inner.slot.value)

  -- What `send` takes is delivered: when the drop of the sender has ended, nothing was given back
  -- and the receiver is in no call, a poll answers within three steps of the receiver, and then all
  -- that was given to `send` has been received.
  pub sent_received :
      (es : List (Event A)) (cx : Waker)
      → let s = run init es in
        s.tx ≡ gone
        → s.rx ≡ rx_live
        → s.refused ≡ []
        → ((run s (polling cx)).rx ≡ rx_live)
          × ((run s (polling cx)).received ≡ (run s (polling cx)).offered)
  sent_received es cx g r n =
      let s = run init es in
      let v = run-Inv es in
      let (rx, off, rec) = poll_alone s cx r (ground (arith, v.flags)) (ground (arith, v.locks)) in
      (rx, rec ∙ stored s.inner.slot.value (ground (arith, v.message)) n ∙ sym off)
    where
      stored :
          (o : Option A)
          → Given (run init es).offered (run init es).refused o (run init es).received
          → (run init es).refused ≡ []
          → listed o ++ (run init es).received ≡ (run init es).offered
      stored none h n = ground (arith, h)
      stored (some t) h n = ground (arith, h)
