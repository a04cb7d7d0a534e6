-- ===== src/Mpsc/Bounded/Invariant/Receiver.antt =====
-- The methods of the receiver of the bounded channel in futures-channel/src/mpsc/mod.rs.
use futures_rs.Prelude.{
  ℕ, suc, ◌≡◌, refl, sym, ap, subst, ◌∙◌, List, [], ◌∷◌, none, some, true, false, arith, length,
  if_elim,
}
use futures_rs.Task.{ready, pending, Result, ok, err}
use futures_rs.Mpsc.Word.{decode_state, set_closed, dec_num_messages, is_closed}
use futures_rs.Mpsc.Word.Laws.{decode-dec, decode-set_closed}
use futures_rs.Mpsc.Bounded.{
  Channel, new_task, is_open, Received, unpark, unpark_one, notify, notify_all, next_of,
  next_message, poll_next, try_recv, close, register, empty, closed, TryRecvError,
}
use futures_rs.Mpsc.Bounded.Invariant.{Parked, Inv, Frame}
use futures_rs.Mpsc.Bounded.Invariant.Members.{Distinct}
use futures_rs.Mpsc.Bounded.Invariant.Tasks.{Parked-update}
use futures_rs.Mpsc.Bounded.Invariant.Senders.{Frame-trans}

module _ {ℓ} {A : Type ℓ} where
  -- A call of the receiver that keeps the invariant, and what it takes from the messages.
  pub record Held (c c' : Channel A) : Type ℓ where
    pub inv : Inv c'
    pub frame : (t : ℕ) → Frame t c c'

  abbrev pub Takes : (c : Channel A) → Received A → Type ℓ
  Takes c (ready (some msg), c') = Held c c' × (c.message_queue ≡ msg ∷ c'.message_queue)
  Takes c (ready none, c') =
      Held c c'
      × (c'.message_queue ≡ c.message_queue)
      × (c.connected ≡ true → (is_open c ≡ false) × (c.message_queue ≡ []))
  Takes c (pending, c') = Held c c' × (c'.message_queue ≡ c.message_queue) × (c.message_queue ≡ [])

  same_Held : (c : Channel A) → Inv c → Held c c
  same_Held c v = record {
    inv = v;
    frame = λ t. record { still = λ o. o; grows = omega arith; buffer = refl; joins = λ u ne k. k };
  }

  disconnected_Held : (c : Channel A) → Inv c → Held c (record c { connected = false })
  disconnected_Held c v = record {
    inv = record {
      word = v.word;
      count = v.count;
      room = v.room;
      parked = v.parked;
      distinct = v.distinct;
    };
    frame = λ t. record { still = λ o. o; grows = omega arith; buffer = refl; joins = λ u ne k. k };
  }

  abbrev taken : Channel A → List A → List ℕ → Channel A
  taken c ms ps =
      let c' = unpark ps (record c { message_queue = ms }) in
      record c' { state = dec_num_messages c'.state }

  pub unpark-messages :
      (ps : List ℕ) (c : Channel A) → (unpark ps c).message_queue ≡ c.message_queue
  unpark-messages [] c = refl
  unpark-messages (t ∷ ps) c = refl

  taken-Held :
      (c : Channel A) (m : A) (ms : List A) (ps : List ℕ)
      → Inv c
      → c.message_queue ≡ m ∷ ms
      → c.parked_queue ≡ ps
      → Held c (taken c ms ps)
  taken-Held c m ms [] v e q =
      let d = decode-dec c.state v.word (rw (v.count, e) (omega arith)) in
      let n : length c.message_queue ≡ suc (length ms) = ap length e in
      record {
        inv = record {
          word = d.2;
          count = omega (arith, d.1, v.count, n);
          room = λ o. omega (arith, v.room (sym d.0 ∙ o), n);
          parked = v.parked;
          distinct = v.distinct;
        };
        frame = λ t. record {
          still = λ o. sym d.0 ∙ o;
          grows = omega arith;
          buffer = refl;
          joins = λ u ne k. k;
        };
      }
  taken-Held c m ms (t ∷ ts) v e q =
      let d = decode-dec c.state v.word (rw (v.count, e) (omega arith)) in
      let n : length c.message_queue ≡ suc (length ms) = ap length e in
      let ps : length c.parked_queue ≡ suc (length ts) = ap length q in
      let dist : Distinct (t ∷ ts) = subst Distinct q v.distinct in
      let par : Parked c.tasks c.fresh_task (t ∷ ts) =
        subst (Parked c.tasks c.fresh_task) q v.parked in
      record {
        inv = record {
          word = d.2;
          count = omega (arith, d.1, v.count, n);
          room = λ o. omega (arith, v.room (sym d.0 ∙ o), n, ps);
          parked =
              Parked-update c.tasks c.fresh_task c.fresh_task t new_task ts (omega arith) dist.0
                par.2;
          distinct = dist.1;
        };
        frame = λ w. record {
          still = λ o. sym d.0 ∙ o;
          grows = omega arith;
          buffer = refl;
          joins = λ u ne k. ground (arith, q);
        };
      }

  next_of-Takes :
      (c : Channel A) (ms : List A) → Inv c → c.message_queue ≡ ms → Takes c (next_of ms c)
  unfolding next_of unpark_one
  next_of-Takes c [] v e =
      if_elim (Takes c) (is_closed (decode_state c.state))
        (λ h. (disconnected_Held c v, refl, λ _. (unfold is_closed in ground arith, e)))
        (λ h. (same_Held c v, refl, e))
  next_of-Takes c (m ∷ ms) v e = (
    taken-Held c m ms c.parked_queue v e refl,
    e ∙ ap (◌∷◌ m) (sym (unpark-messages c.parked_queue (record c { message_queue = ms }))),
  )

  pub next_message-Takes : (c : Channel A) → Inv c → Takes c (next_message c)
  unfolding next_message
  next_message-Takes c v =
      if_elim (Takes c) c.connected (λ h. next_of-Takes c c.message_queue v refl)
        (λ h. (same_Held c v, refl, λ h'. absurd (ground arith)))

  Held-trans : (a b c : Channel A) → Held a b → Held b c → Held a c
  Held-trans a b c h k = record {
    inv = k.inv;
    frame = λ t. Frame-trans t a b c (h.frame t) (k.frame t);
  }

  Takes-trans :
      (c c' : Channel A) (r : Received A)
      → Held c c'
      → c'.message_queue ≡ c.message_queue
      → c'.connected ≡ c.connected
      → c'.state ≡ c.state
      → Takes c' r
      → Takes c r
  Takes-trans c c' (ready (some msg), d) h q k st t = (Held-trans c c' d h t.0, sym q ∙ t.1)
  Takes-trans c c' (ready none, d) h q k st t = (
    Held-trans c c' d h t.0,
    t.1 ∙ q,
    λ e.
        let (shut, none_left) = t.2 (k ∙ e) in
        (ap (λ w. (decode_state w).is_open) (sym st) ∙ shut, sym q ∙ none_left),
  )
  Takes-trans c c' (pending, d) h q k st t = (Held-trans c c' d h t.0, t.1 ∙ q, sym q ∙ t.2)

  register-Held : (c : Channel A) (cx : ℕ) → Inv c → Held c (register cx c)
  unfolding register
  register-Held c cx v = record {
    inv = record {
      word = v.word;
      count = v.count;
      room = v.room;
      parked = v.parked;
      distinct = v.distinct;
    };
    frame = λ t. record { still = λ o. o; grows = omega arith; buffer = refl; joins = λ u ne k. k };
  }

  -- `next_message` answers `Pending` and changes nothing, or else is done.
  next_of-pending :
      (c : Channel A) (ms : List A) → (next_of ms c).0 ≡ pending → (next_of ms c).1 ≡ c
  unfolding next_of
  next_of-pending c [] e = ground arith
  next_of-pending c (m ∷ ms) e = cc

  next_message-pending : (c : Channel A) → (next_message c).0 ≡ pending → (next_message c).1 ≡ c
  unfolding next_message
  next_message-pending c e =
      if_elim (λ (r : Received A). r.0 ≡ pending → r.1 ≡ c) c.connected
        (λ h. next_of-pending c c.message_queue) (λ h e'. refl) e

  pub poll_next-Takes : (c : Channel A) (cx : ℕ) → Inv c → Takes c (poll_next cx c)
  unfolding poll_next register
  poll_next-Takes c cx v = go (next_message c) (next_message-Takes c v) (next_message-pending c)
    where
      go :
          (r : Received A)
          → Takes c r
          → (r.0 ≡ pending → r.1 ≡ c)
          → Takes c (elim r.0 [
            | ready none ↦ (ready none, record r.1 { connected = false })
            | ready (some msg) ↦ (ready (some msg), r.1)
            | pending ↦ next_message (register cx r.1)
          ])
      go (ready none, c') t same = (Held-trans c c' _ t.0 (disconnected_Held c' t.0.inv), t.1, t.2)
      go (ready (some msg), c') t same = t
      go (pending, c') t same =
          subst (λ x. Takes c (next_message (register cx x))) (sym (same refl))
            (Takes-trans c (register cx c) (next_message (register cx c)) (register-Held c cx v)
              refl refl refl (next_message-Takes (register cx c) (register-Held c cx v).inv))

  abbrev pub TakesNow : (c : Channel A) → Result A TryRecvError × Channel A → Type ℓ
  TakesNow c (ok msg, c') = Held c c' × (c.message_queue ≡ msg ∷ c'.message_queue)
  TakesNow c (err e, c') = Held c c' × (c'.message_queue ≡ c.message_queue)

  pub try_recv-Takes : (c : Channel A) → Inv c → TakesNow c (try_recv c)
  unfolding try_recv
  try_recv-Takes c v = go (next_message c) (next_message-Takes c v)
    where
      go :
          (r : Received A)
          → Takes c r
          → TakesNow c (elim r.0 [
            | ready none ↦ (err closed, r.1)
            | ready (some msg) ↦ (ok msg, r.1)
            | pending ↦ (err empty, r.1)
          ])
      go (ready none, c') t = (t.0, t.1)
      go (ready (some msg), c') t = t
      go (pending, c') t = (t.0, t.1)

  -- Everybody who was parked is not any more.
  pub notify_all-fields :
      (ts : List ℕ) (c : Channel A)
      → let d = notify_all ts c in
        (d.state ≡ c.state)
        × (d.message_queue ≡ c.message_queue)
        × (d.buffer ≡ c.buffer)
        × (d.parked_queue ≡ c.parked_queue)
        × (d.fresh_task ≡ c.fresh_task)
        × (d.connected ≡ c.connected)
  notify_all-fields [] c = (refl, refl, refl, refl, refl, refl)
  notify_all-fields (t ∷ ts) c = notify_all-fields ts (notify t c)

  abbrev pub shut : Channel A → Channel A
  shut c = record c { state = set_closed c.state; parked_queue = [] }

  pub close-Held :
      (c : Channel A) → Inv c → Held c (close c) × ((close c).message_queue ≡ c.message_queue)
  unfolding close
  close-Held c v =
      if_elim (λ (x : Channel A). Held c x × (x.message_queue ≡ c.message_queue)) c.connected
        (λ h.
          closed_Held (notify_all c.parked_queue (shut c))
            (notify_all-fields c.parked_queue (shut c)))
        (λ h. (same_Held c v, refl))
    where
      closed_Held :
          (d : Channel A)
          → (d.state ≡ set_closed c.state)
            × (d.message_queue ≡ c.message_queue)
            × (d.buffer ≡ c.buffer)
            × (d.parked_queue ≡ [])
            × (d.fresh_task ≡ c.fresh_task)
            × (d.connected ≡ c.connected)
          → Held c d × (d.message_queue ≡ c.message_queue)
      closed_Held d (st, q, b, ps, fr, cn) =
          let (shut_now, num, w) = decode-set_closed c.state v.word in
          let closed_now : is_open d ≡ false = rw st shut_now in
          (
            record {
              inv = record {
                word = rw st w;
                count = rw (st, q) (num ∙ v.count);
                room = λ o. ground (arith, closed_now);
                parked = rw ps tt;
                distinct = rw ps tt;
              };
              frame = λ t. record {
                still = λ o. ground (arith, closed_now);
                grows = omega arith;
                buffer = b;
                joins = λ u ne k. rw ps refl;
              };
            },
            q,
          )
