-- ===== src/Mpsc/Bounded/Invariant/Sending.antt =====
-- `try_send` and `poll_ready` of the bounded channel in futures-channel/src/mpsc/mod.rs.
use futures_rs.Prelude.{
  ℕ, ◌+◌, ◌≤◌, ◌≡◌, refl, sym, ap, ◌∙◌, [], ◌∷◌, ◌++◌, Option, none, some, true, false, not, arith,
  length, length-append, ltb, update, if_elim,
}
use futures_rs.Task.{Poll, ready, pending, Result, ok, err}
use futures_rs.Mpsc.Word.{attempt, Incremented, panicked, not_open, stored, inc_num_messages}
use futures_rs.Mpsc.Word.Laws.{attempt-Counts, Counts}
use futures_rs.Mpsc.Bounded.{
  Channel, Sender, refused, full, SendError, is_open, Sent, poll_unparked, send_counted, do_send_b,
  try_send, poll_ready, park, queue_push_and_signal,
}
use futures_rs.Mpsc.Bounded.Invariant.{Inv, Fits}
use futures_rs.Mpsc.Bounded.Invariant.Members.{mem, mem-append, Distinct-append}
use futures_rs.Mpsc.Bounded.Invariant.Tasks.{parked_task, Parked-update, Parked-append}
use futures_rs.Mpsc.Bounded.Invariant.Senders.{
  Kept, Kept-refl, Kept-trans, Polled, poll_unparked-Polled,
}

module _ {ℓ} {A : Type ℓ} where
  -- What `do_send_b` leaves: a message more, or the message back.
  abbrev pub After :
      (c : Channel A) (s : Sender) → A → Option (Sent A × Sender × Channel A) → Type ℓ
  After c s msg none = Unit
  After c s msg (some (ok u, s', c')) =
      Kept c s c' s' × (c'.message_queue ≡ c.message_queue ++ msg ∷ []) × (is_open c ≡ true)
  After c s msg (some (err e, s', c')) =
      Kept c s c' s' × (c'.message_queue ≡ c.message_queue) × (e.val ≡ msg)

  module _ (c : Channel A) (s : Sender) (msg : A) (next : ℕ) (v : Inv c) (f : Fits c s) where
    c1 : Channel A
    c1 = record c { state = next }

    grown : length (c.message_queue ++ msg ∷ []) ≡ length c.message_queue + 1
    grown = length-append c.message_queue (msg ∷ [])

    -- A send that fits the buffer.
    Kept-fits :
        Counts c.state (stored (length c.message_queue + 1) next)
        → length c.message_queue + 1 ≤ c.buffer
        → Kept c s (queue_push_and_signal msg c1) s
    unfolding c1 queue_push_and_signal
    Kept-fits k h = record {
      inv = record {
        word = k.5;
        count = k.4 ∙ sym grown;
        room = λ o. omega (arith, grown);
        parked = v.parked;
        distinct = v.distinct;
      };
      fits = record { known = f.known; unparked = λ o m. f.unparked k.0 m };
      same = refl;
      frame = record { still = λ o. k.0; grows = omega arith; buffer = refl; joins = λ u ne m. m };
    }

    -- A send that fills the sender's own slot: it parks.
    Kept-parks :
        Counts c.state (stored (length c.message_queue + 1) next)
        → mem s.sender_task c.parked_queue ≡ false
        → Kept c s (queue_push_and_signal msg (park s c1).1) (park s c1).0
    unfolding c1 queue_push_and_signal park
    Kept-parks k m = record {
      inv = record {
        word = k.5;
        count = k.4 ∙ sym grown;
        room = λ o.
            omega (arith, grown, length-append c.parked_queue (s.sender_task ∷ []), v.room k.0);
        parked =
            Parked-append (update c.tasks s.sender_task parked_task) c.fresh_task s.sender_task
              c.parked_queue (ground arith) f.known
              (Parked-update c.tasks c.fresh_task c.fresh_task s.sender_task parked_task
                c.parked_queue (omega arith) m v.parked);
        distinct = Distinct-append s.sender_task c.parked_queue m v.distinct;
      };
      fits = record { known = f.known; unparked = λ o m'. ground (arith, k.3) };
      same = refl;
      frame = record {
        still = λ o. k.0;
        grows = omega arith;
        buffer = refl;
        joins = λ u ne m'. ground (arith, mem-append u s.sender_task c.parked_queue);
      };
    }

  recount :
      (c : Channel A)
      → Inv c
      → (n next : ℕ) → Counts c.state (stored n next)
      → Counts c.state (stored (length c.message_queue + 1) next)
  recount c v n next k = (
    k.0,
    omega (arith, v.count),
    omega (arith, k.1, k.2, v.count),
    k.3,
    omega (arith, k.1, k.4, v.count),
    k.5,
  )

  send_counted-After :
      (c : Channel A) (s : Sender) (msg : A) (r : Incremented)
      → Inv c
      → Fits c s
      → s.maybe_parked ≡ false
      → Counts c.state r
      → After c s msg (send_counted r msg s c)
  unfolding send_counted queue_push_and_signal park c1
  send_counted-After c s msg panicked v f m k = tt
  send_counted-After c s msg not_open v f m k = (Kept-refl c s v f, refl, refl)
  send_counted-After c s msg (stored n next) v f m k =
      let k' = recount c v n next k in
      if_elim
        (λ (x : Sender × Channel A).
          After c s msg (some (ok tt, x.0, queue_push_and_signal msg x.1)))
        (ltb c.buffer n) (λ h. (Kept-parks c s msg next v f k' (f.unparked k.0 m), refl, k.0))
        (λ h. (Kept-fits c s msg next v f k' (ground (arith, k.1, v.count)), refl, k.0))

  After-trans :
      (c c' : Channel A) (s s' : Sender) (msg : A) (o : Option (Sent A × Sender × Channel A))
      → Kept c s c' s'
      → c'.message_queue ≡ c.message_queue
      → After c' s' msg o
      → After c s msg o
  After-trans c c' s s' msg none k q a = tt
  After-trans c c' s s' msg (some (ok u, s'', c'')) k q a =
      (Kept-trans c c' c'' s s' s'' k a.0, a.1 ∙ ap (λ x. x ++ msg ∷ []) q, k.frame.still a.2)
  After-trans c c' s s' msg (some (err e, s'', c'')) k q a =
      (Kept-trans c c' c'' s s' s'' k a.0, a.1 ∙ q, a.2)

  -- `try_send` keeps the invariant; it adds the message at the end of an open channel, or gives it
  -- back and leaves the messages alone.
  pub try_send-After :
      (c : Channel A) (s : Sender) (msg : A) → Inv c → Fits c s → After c s msg (try_send msg s c)
  unfolding try_send do_send_b inc_num_messages
  try_send-After c s msg v f = go (poll_unparked none s c) (poll_unparked-Polled none s c v f)
    where
      go :
          (p : Poll (Unit {0}) × Sender × Channel A)
          → Polled c s p
          → After c s msg (elim p.0 [
            | ready _ ↦ do_send_b msg p.1 p.2
            | pending ↦ some (refused full msg, p.1, p.2)
          ])
      go (ready u, s', c') k = After-trans c c' s s' msg _ k.0 k.1 (
          send_counted-After c' s' msg (attempt c'.state) k.0.inv k.0.fits (k.4 refl)
            (attempt-Counts c'.state k.0.inv.word))
      go (pending, s', c') k = (k.0, k.1, refl)

  -- `poll_ready` keeps it too, and moves no message.
  pub poll_ready-Kept :
      (c : Channel A) (s : Sender) (cx : ℕ)
      → Inv c
      → Fits c s
      → let (r, s', c') = poll_ready cx s c in Kept c s c' s' × (c'.message_queue ≡ c.message_queue)
  unfolding poll_ready
  poll_ready-Kept c s cx v f =
      if_elim
        (λ (x : Poll (Result (Unit {0}) SendError) × Sender × Channel A).
          Kept c s x.2 x.1 × (x.2.message_queue ≡ c.message_queue))
        (not (is_open c)) (λ o. (Kept-refl c s v f, refl))
        (λ o. let k = poll_unparked-Polled (some cx) s c v f in (k.0, k.1))
