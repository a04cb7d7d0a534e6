-- ===== src/Mpsc/Bounded/Drain.antt =====
-- `Drop for Receiver` of futures-channel/src/mpsc/mod.rs: its loop ends.
use futures_rs.Prelude.{
  ℕ, zero, suc, ◌<◌, ◌≡◌, refl, ap, ◌∙◌, List, [], ◌∷◌, Option, none, some, true, false, arith,
  length, if_elim,
}
use futures_rs.Task.{ready, pending}
use futures_rs.Mpsc.Word.{decode_state, is_closed, max_buffer}
use futures_rs.Mpsc.Word.Laws.{decode-set_closed}
use futures_rs.Mpsc.Bounded.{
  Channel, is_open, Received, unpark, unpark_one, next_of, next_message, close, drain,
  drop_receiver,
}
use futures_rs.Mpsc.Bounded.Calls.{World}
use futures_rs.Mpsc.Bounded.Invariant.{Inv}
use futures_rs.Mpsc.Bounded.Invariant.Receiver.{
  Held, Takes, next_message-Takes, close-Held, notify_all-fields, shut,
}
use futures_rs.Mpsc.Bounded.History.{Reached, Reached-Valid}

module _ {ℓ} {A : Type ℓ} where
  -- A message leaves the receiver connected.
  abbrev StaysOn : Channel A → Received A → Type 0
  StaysOn c (ready (some msg), c') = c'.connected ≡ c.connected
  StaysOn c _ = Unit

  unpark-connected : (ps : List ℕ) (c : Channel A) → (unpark ps c).connected ≡ c.connected
  unpark-connected [] c = refl
  unpark-connected (t ∷ ps) c = refl

  next_of-StaysOn : (c : Channel A) (ms : List A) → StaysOn c (next_of ms c)
  unfolding next_of unpark_one
  next_of-StaysOn c [] = if_elim (StaysOn c) (is_closed (decode_state c.state)) (λ h. tt) (λ h. tt)
  next_of-StaysOn c (m ∷ ms) = unpark-connected c.parked_queue (record c { message_queue = ms })

  next_message-StaysOn : (c : Channel A) → StaysOn c (next_message c)
  unfolding next_message
  next_message-StaysOn c =
      if_elim (StaysOn c) c.connected (λ h. next_of-StaysOn c c.message_queue) (λ h. tt)

  abbrev pub Emptied : Option (Channel A) → Type ℓ
  Emptied o = (d : Channel A) × (o ≡ some d) × (d.message_queue ≡ []) × (is_open d ≡ false)

  still_closed : (c c' : Channel A) → Held c c' → is_open c ≡ false → is_open c' ≡ false
  still_closed c c' h e = ground (arith, (h.frame 0).still)

  closed_now :
      (c : Channel A)
      → Inv c
      → is_open c ≡ false
      → c.message_queue ≡ []
      → is_closed (decode_state c.state) ≡ true
  unfolding is_closed
  closed_now c v o e = rw (o, v.count, e) refl

  drain-Emptied :
      (fuel : ℕ) (c : Channel A)
      → Inv c
      → c.connected ≡ true
      → is_open c ≡ false
      → length c.message_queue < fuel
      → Emptied (drain fuel c)
  unfolding drain
  drain-Emptied zero c v on o lt = absurd (omega arith)
  drain-Emptied (suc fuel) c v on o lt =
      go (λ c' w on' o' lt'. drain-Emptied fuel c' w on' o' lt') (next_message c)
        (next_message-Takes c v) (next_message-StaysOn c)
    where
      go :
          ((c' : Channel A)
            → Inv c'
            → c'.connected ≡ true
            → is_open c' ≡ false
            → length c'.message_queue < fuel
            → Emptied (drain fuel c'))
          → (r : Received A) → Takes c r
          → StaysOn c r
          → Emptied (elim r.0 [
            | ready (some _) ↦ drain fuel r.1
            | ready none ↦ some r.1
            | pending ↦ elim (is_closed (decode_state r.1.state)) [
              | true ↦ some r.1
              | false ↦ drain fuel r.1
            ]
          ])
      go rest (ready (some m), c') t s = rest c' t.0.inv (s ∙ on) (still_closed c c' t.0 o) (
          let n : length c.message_queue ≡ suc (length c'.message_queue) = ap length t.1 in
          omega arith)
      go rest (ready none, c') t s = (c', refl, t.1 ∙ (t.2 on).1, still_closed c c' t.0 o)
      go rest (pending, c') t s =
          rw (closed_now c' t.0.inv (still_closed c c' t.0 o) (t.1 ∙ t.2))
            (c', refl, t.1 ∙ t.2, still_closed c c' t.0 o)

  -- A connected receiver that closes.
  closes_open :
      (c : Channel A)
      → Inv c
      → c.connected ≡ true
      → ((close c).connected ≡ true) × (is_open (close c) ≡ false)
  unfolding close
  closes_open c v on =
      let f = notify_all-fields c.parked_queue (shut c) in
      if_elim (λ (x : Channel A). (x.connected ≡ true) × (is_open x ≡ false)) c.connected
        (λ h.
          (f.5 ∙ on, ap (λ w. (decode_state w).is_open) f.0 ∙ (decode-set_closed c.state v.word).0))
        (λ h. absurd (ground arith))

  drop_receiver-Emptied :
      (fuel : ℕ) (c : Channel A)
      → Inv c
      → c.connected ≡ true
      → length c.message_queue < fuel
      → Emptied (drop_receiver fuel c)
  unfolding drop_receiver
  drop_receiver-Emptied fuel c v on lt =
      let (h, q) = close-Held c v in
      let (on', shut_now) = closes_open c v on in
      if_elim Emptied (close c).connected
        (λ k. drain-Emptied fuel (close c) h.inv on' shut_now (rw q lt))
        (λ k. absurd (ground arith))

  -- The drop of the receiver ends: after any history, when the receiver is still connected, its
  -- loop ends in as many rounds as there are messages and one more; then the queue is empty and the
  -- channel is closed.
  pub drop_ends :
      (size fuel : ℕ) (w : World A)
      → size < max_buffer
      → Reached size w
      → w.chan.connected ≡ true
      → length w.chan.message_queue < fuel
      → (d : Channel A) × (drop_receiver fuel w.chan ≡ some d)
        × (d.message_queue ≡ [])
        × (is_open d ≡ false)
  drop_ends size fuel w h r on lt =
      drop_receiver-Emptied fuel w.chan (Reached-Valid size w h r).inv on lt
