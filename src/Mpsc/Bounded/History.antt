-- ===== src/Mpsc/Bounded/History.antt =====
-- What every history of calls on a bounded channel of futures-channel/src/mpsc/mod.rs keeps.
use mathlib.Core.List.{append_assoc}
use futures_rs.Prelude.{
  ℕ, suc, ◌+◌, ◌≤◌, ◌<◌, ◌≡◌, refl, sym, ap, subst, ◌∙◌, inl, inr, List, [], ◌∷◌, ◌++◌, Option,
  none, some, true, ◌==◌, arith, length, update, if_elim, Option-cases, ltb,
}
use futures_rs.Task.{ready, pending, Result, ok, err}
use futures_rs.Mpsc.Word.{decode_state, max_buffer, init_state}
use futures_rs.Mpsc.Bounded.{
  Channel, Sender, SenderTask, new_sender, new_channel, is_open, Sent, Received, TryRecvError,
  try_send, clone, drop_sender, close_channel, poll_next, try_recv, close, channel,
}
use futures_rs.Mpsc.Bounded.Calls.{
  World, Call, sends, polls_ready, clones, drops, closes_channel, polls_next, tries_recv, closes,
  world, log_sent, log_received, log_taken, act, on, step, run, init,
}
use futures_rs.Mpsc.Bounded.Invariant.{Parked}
use futures_rs.Mpsc.Bounded.Invariant.Members.{length-le, Below}
use futures_rs.Mpsc.Bounded.Invariant.Senders.{
  close_channel-Inv, drop_sender-Inv, Cloned, clone-Cloned,
}
use futures_rs.Mpsc.Bounded.Invariant.Sending.{After, try_send-After, poll_ready-Kept}
use futures_rs.Mpsc.Bounded.Invariant.Receiver.{
  Takes, TakesNow, poll_next-Takes, try_recv-Takes, close-Held,
}
use futures_rs.Mpsc.Bounded.Valid.{Valid, Valid-sender, Valid-receiver, Valid-clone, Valid-drop}

Parked-Below : (f : ℕ → SenderTask) (n : ℕ) (ts : List ℕ) → Parked f n ts → Below n ts
Parked-Below f n [] p = tt
Parked-Below f n (t ∷ ts) p = (p.1, Parked-Below f n ts p.2)

decode-init : (decode_state init_state).num_messages ≡ 0
unfolding decode_state
decode-init = refl

ltb-true : (a b : ℕ) → a < b → ltb a b ≡ true
ltb-true a b h = ground arith

module _ {ℓ} {A : Type ℓ} where
  module _ (size : ℕ) where
    -- A call that does not panic leaves the world valid.
    abbrev pub Ends : Option (World A) → Type ℓ
    Ends none = Unit
    Ends (some w) = Valid size w

    drop_sender-messages : (c : Channel A) → (drop_sender c).message_queue ≡ c.message_queue
    unfolding drop_sender close_channel
    drop_sender-messages c =
        if_elim (λ (x : Channel A). x.message_queue ≡ c.message_queue) (c.num_senders == 1)
          (λ e. refl) (λ e. refl)

    act-Ends :
        (w : World A) (i : ℕ) (s : Sender) (c : Call A)
        → Valid size w
        → w.senders i ≡ some s
        → Ends (act w i s c)
    unfolding act
    act-Ends w i s (sends j msg) v e =
        go (try_send msg s w.chan) (try_send-After w.chan s msg v.inv (v.fits i s e))
      where
        go :
            (o : Option (Sent A × Sender × Channel A))
            → After w.chan s msg o
            → Ends (elim o [
              | none ↦ none
              | some (r, s', c) ↦ some (record w {
                chan = c;
                senders = update w.senders i (some s');
                accepted = log_sent r msg w.accepted;
              })
            ])
        go none a = tt
        go (some (ok u, s', c')) a =
            Valid-sender size w i s s' c' _ v e a.0
              (rw (a.1, v.in_order) (append_assoc w.delivered w.chan.message_queue (msg ∷ [])))
        go (some (err x, s', c')) a =
            Valid-sender size w i s s' c' _ v e a.0 (v.in_order ∙ ap (◌++◌ w.delivered) (sym a.1))
    act-Ends w i s (polls_ready j cx) v e =
        let (k, q) = poll_ready-Kept w.chan s cx v.inv (v.fits i s e) in
        Valid-sender size w i s _ _ w.accepted v e k (v.in_order ∙ ap (◌++◌ w.delivered) (sym q))
    act-Ends w i s (clones j) v e = go (clone w.chan) (clone-Cloned w.chan v.inv)
      where
        go :
            (o : Option (Sender × Channel A))
            → Cloned w.chan o
            → Ends (elim o [
              | none ↦ none
              | some (s', c) ↦ some (record w {
                chan = c;
                senders = update w.senders w.handles (some s');
                handles = suc w.handles;
              })
            ])
        go none k = tt
        go (some (s', c')) k = Valid-clone size w s' c' v k
    act-Ends w i s (drops j) v e =
        Valid-drop size w i (drop_sender w.chan) v
          ((drop_sender-Inv w.chan 0 v.inv).0, λ t. (drop_sender-Inv w.chan t v.inv).1)
          (drop_sender-messages w.chan)
    act-Ends w i s (closes_channel j) v e =
        Valid-receiver size w (close_channel w.chan) w.delivered v
          (record {
            inv = (close_channel-Inv w.chan 0 v.inv).0;
            frame = λ t. (close_channel-Inv w.chan t v.inv).1;
          })
          (unfold close_channel in v.in_order)
    act-Ends w i s other v e = v

    on-Ends : (w : World A) (i : ℕ) (c : Call A) → Valid size w → Ends (on w i (w.senders i) c)
    on-Ends w i c v = elim (Option-cases (w.senders i)) [
      | inl gone ↦ rw gone v
      | inr (s, e) ↦ rw e (act-Ends w i s c v e)
    ]

    step-Ends : (w : World A) (c : Call A) → Valid size w → Ends (step w c)
    unfolding step
    step-Ends w (sends i msg) v = on-Ends w i (sends i msg) v
    step-Ends w (polls_ready i cx) v = on-Ends w i (polls_ready i cx) v
    step-Ends w (clones i) v = on-Ends w i (clones i) v
    step-Ends w (drops i) v = on-Ends w i (drops i) v
    step-Ends w (closes_channel i) v = on-Ends w i (closes_channel i) v
    step-Ends w (polls_next cx) v = go (poll_next cx w.chan) (poll_next-Takes w.chan cx v.inv)
      where
        go :
            (r : Received A)
            → Takes w.chan r
            → Valid size (record w { chan = r.1; delivered = log_received r.0 w.delivered })
        go (ready (some msg), c') t = Valid-receiver size w c' _ v t.0 (
            v.in_order
            ∙ ap (◌++◌ w.delivered) t.1
            ∙ sym (append_assoc w.delivered (msg ∷ []) c'.message_queue))
        go (ready none, c') t =
            Valid-receiver size w c' _ v t.0 (v.in_order ∙ ap (◌++◌ w.delivered) (sym t.1))
        go (pending, c') t =
            Valid-receiver size w c' _ v t.0 (v.in_order ∙ ap (◌++◌ w.delivered) (sym t.1))
    step-Ends w tries_recv v = go (try_recv w.chan) (try_recv-Takes w.chan v.inv)
      where
        go :
            (r : Result A TryRecvError × Channel A)
            → TakesNow w.chan r
            → Valid size (record w { chan = r.1; delivered = log_taken r.0 w.delivered })
        go (ok msg, c') t = Valid-receiver size w c' _ v t.0 (
            v.in_order
            ∙ ap (◌++◌ w.delivered) t.1
            ∙ sym (append_assoc w.delivered (msg ∷ []) c'.message_queue))
        go (err e, c') t =
            Valid-receiver size w c' _ v t.0 (v.in_order ∙ ap (◌++◌ w.delivered) (sym t.1))
    step-Ends w closes v =
        let (h, q) = close-Held w.chan v.inv in
        Valid-receiver size w (close w.chan) w.delivered v h
          (v.in_order ∙ ap (◌++◌ w.delivered) (sym q))

    run-Ends : (w : World A) (cs : List (Call A)) → Valid size w → Ends (run w cs)
    unfolding run
    run-Ends w [] v = v
    run-Ends w (c ∷ cs) v = go (step w c) (step-Ends w c v) (λ w' e. run-Ends w' cs e)
      where
        go :
            (o : Option (World A))
            → Ends o
            → ((w' : World A) → Valid size w' → Ends (run w' cs))
            → Ends (elim o [ none ↦ none | some w' ↦ run w' cs ])
        go none e rest = tt
        go (some w') e rest = rest w' e

    pub channel-Valid : Valid {A = A} size (world new_sender (new_channel size))
    channel-Valid = record {
      inv = record {
        word = omega arith;
        count = decode-init;
        room = λ o. omega arith;
        parked = tt;
        distinct = tt;
      };
      fits = λ i s e. record { known = ground arith; unparked = λ o m. refl };
      apart = λ i j s t e f g. ground arith;
      sized = refl;
      in_order = refl;
    }

  init-world :
      (size : ℕ)
      → size < max_buffer
      → init {A = A} size ≡ some (world new_sender (new_channel size))
  unfolding init channel
  init-world size h = rw (ltb-true size max_buffer h, init, channel) refl

  -- The world `w` is what some history of calls makes of `channel(size)`.
  abbrev pub Reached : ℕ → World A → Type ℓ
  Reached size w =
      (start : World A) × (calls : List (Call A)) × (init size ≡ some start)
      × (run start calls ≡ some w)

  pub Reached-Valid : (size : ℕ) (w : World A) → size < max_buffer → Reached size w → Valid size w
  Reached-Valid size w h (start, calls, made, ran) = subst (Ends size) ran (
      run-Ends size start calls
        (subst (Ends size) (sym (init-world size h) ∙ made) (channel-Valid size)))

  -- Messages are neither lost, nor made up, nor reordered: after any history of calls on the
  -- senders and the receiver of `channel(size)`, those that were accepted are those that were
  -- delivered followed by those in the queue, and the count in the word is the length of the queue.
  pub accepted_in_order :
      (size : ℕ) (w : World A)
      → size < max_buffer
      → Reached size w
      → (w.accepted ≡ w.delivered ++ w.chan.message_queue)
        × ((decode_state w.chan.state).num_messages ≡ length w.chan.message_queue)
  accepted_in_order size w h r = let v = Reached-Valid size w h r in (v.in_order, v.inv.count)

  -- After any history, while the channel is open, it holds at most `size` messages and one for each
  -- sender that was ever made, by `channel` or by `clone`.
  pub messages_bounded :
      (size : ℕ) (w : World A)
      → size < max_buffer
      → Reached size w
      → is_open w.chan ≡ true
      → length w.chan.message_queue ≤ size + w.chan.fresh_task
  messages_bounded size w h r o =
      let v = Reached-Valid size w h r in
      omega (
        arith,
        v.inv.room o,
        v.sized,
        length-le w.chan.fresh_task w.chan.parked_queue v.inv.distinct
            (Parked-Below w.chan.tasks w.chan.fresh_task w.chan.parked_queue v.inv.parked),
      )
