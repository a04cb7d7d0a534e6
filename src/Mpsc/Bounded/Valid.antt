-- ===== src/Mpsc/Bounded/Valid.antt =====
-- What every call of a history keeps of a bounded channel of futures-channel/src/mpsc/mod.rs and of
-- its senders: the world after a method of a sender and after one of the receiver.
use futures_rs.Prelude.{
  ℕ, suc, ◌<◌, ◌≡◌, sym, ap, subst, ◌∙◌, inl, inr, List, ◌++◌, none, some, ◌==◌, arith, update,
  Bool-cases,
}
use futures_rs.Mpsc.Bounded.{Channel, Sender}
use futures_rs.Mpsc.Bounded.Calls.{World}
use futures_rs.Mpsc.Bounded.Invariant.{Inv, Fits, Frame, Fits-Frame}
use futures_rs.Mpsc.Bounded.Invariant.Senders.{Kept, Cloned}
use futures_rs.Mpsc.Bounded.Invariant.Receiver.{Held}

module _ {ℓ} {A : Type ℓ} where
  -- The channel is as it should be, the senders fit it and have tasks of their own, and what was
  -- accepted is what was delivered and what is still there, in this order. `size` is the argument
  -- of `channel`.
  pub record Valid (size : ℕ) (w : World A) : Type ℓ where
    pub inv : Inv w.chan
    pub fits : (i : ℕ) (s : Sender) → w.senders i ≡ some s → Fits w.chan s
    pub apart :
        (i j : ℕ) (s t : Sender)
        → w.senders i ≡ some s
        → w.senders j ≡ some t
        → s.sender_task ≡ t.sender_task
        → i ≡ j
    pub sized : w.chan.buffer ≡ size
    pub in_order : w.accepted ≡ w.delivered ++ w.chan.message_queue

  module _ (size : ℕ) where
    -- The senders after sender `i` has changed, or is gone.
    pub Fits-update :
        (w : World A) (i : ℕ) (s s' : Sender) (c' : Channel A)
        → Valid size w
        → w.senders i ≡ some s
        → Kept w.chan s c' s'
        → (j : ℕ) (t : Sender) → update w.senders i (some s') j ≡ some t
        → Fits c' t
    Fits-update w i s s' c' v e k j t h = elim (Bool-cases (i == j)) [
      | inl same ↦ subst (Fits c') (ground arith) k.fits
      | inr other ↦
          Fits-Frame s.sender_task w.chan c' t k.frame
            (λ task. absurd (ground (arith, v.apart j i t s))) (v.fits j t (ground arith))
    ]

    pub apart_update :
        (w : World A) (i : ℕ) (s s' : Sender)
        → Valid size w
        → w.senders i ≡ some s
        → s'.sender_task ≡ s.sender_task
        → (j k : ℕ) (t u : Sender) → update w.senders i (some s') j ≡ some t
        → update w.senders i (some s') k ≡ some u
        → t.sender_task ≡ u.sender_task
        → j ≡ k
    apart_update w i s s' v e k a b t u ha hb h =
        ground (arith, v.apart a b t u, v.apart a i t s, v.apart i b s u)

    -- The world after a method of sender `i`.
    pub Valid-sender :
        (w : World A) (i : ℕ) (s s' : Sender) (c' : Channel A) (log : List A)
        → Valid size w
        → w.senders i ≡ some s
        → Kept w.chan s c' s'
        → log ≡ w.delivered ++ c'.message_queue
        → Valid size
            (record w { chan = c'; senders = update w.senders i (some s'); accepted = log })
    Valid-sender w i s s' c' log v e k l = record {
      inv = k.inv;
      fits = Fits-update w i s s' c' v e k;
      apart = apart_update w i s s' v e k.same;
      sized = k.frame.buffer ∙ v.sized;
      in_order = l;
    }

    -- The world after a method of the receiver, or one that touches no sender.
    pub Valid-receiver :
        (w : World A) (c' : Channel A) (log : List A)
        → Valid size w
        → Held w.chan c'
        → w.accepted ≡ log ++ c'.message_queue
        → Valid size (record w { chan = c'; delivered = log })
    Valid-receiver w c' log v h l = record {
      inv = h.inv;
      fits = λ j t e.
          Fits-Frame (suc t.sender_task) w.chan c' t (h.frame (suc t.sender_task)) (omega arith)
            (v.fits j t e);
      apart = v.apart;
      sized = (h.frame 0).buffer ∙ v.sized;
      in_order = l;
    }

    pub Valid-clone :
        (w : World A) (s' : Sender) (c' : Channel A)
        → Valid size w
        → Cloned w.chan (some (s', c'))
        → Valid size (record w {
          chan = c';
          senders = update w.senders w.handles (some s');
          handles = suc w.handles;
        })
    Valid-clone w s' c' v (i, f, fresh, frame, q) = record {
      inv = i;
      fits = λ j t e. elim (Bool-cases (w.handles == j)) [
        | inl same ↦ subst (Fits c') (ground arith) f
        | inr other ↦
            let f' = v.fits j t (ground arith) in
            Fits-Frame w.chan.fresh_task w.chan c' t frame (omega (arith, f'.known)) f'
      ];
      apart = λ a b t u ha hb h. clone_apart w s' v fresh a b t u ha hb h;
      sized = frame.buffer ∙ v.sized;
      in_order = v.in_order ∙ ap (◌++◌ w.delivered) (sym q);
    }
      where
        below :
            (w : World A)
            → Valid size w
            → (j : ℕ) (t : Sender) → w.senders j ≡ some t
            → t.sender_task < w.chan.fresh_task
        below w v j t e = (v.fits j t e).known

        clone_apart :
            (w : World A) (s' : Sender)
            → Valid size w
            → s'.sender_task ≡ w.chan.fresh_task
            → (a b : ℕ) (t u : Sender) → update w.senders w.handles (some s') a ≡ some t
            → update w.senders w.handles (some s') b ≡ some u
            → t.sender_task ≡ u.sender_task
            → a ≡ b
        clone_apart w s' v fresh a b t u ha hb h =
            ground (arith, v.apart a b t u, below w v a t, below w v b u)

    pub Valid-drop :
        (w : World A) (i : ℕ) (c' : Channel A)
        → Valid size w
        → Inv c' × ((t : ℕ) → Frame t w.chan c')
        → c'.message_queue ≡ w.chan.message_queue
        → Valid size (record w { chan = c'; senders = update w.senders i none })
    Valid-drop w i c' v (inv, frame) q = record {
      inv = inv;
      fits = λ j t e.
          Fits-Frame (suc t.sender_task) w.chan c' t (frame (suc t.sender_task)) (omega arith)
            (v.fits j t (ground arith));
      apart = λ a b t u ha hb h. v.apart a b t u (ground arith) (ground arith) h;
      sized = (frame 0).buffer ∙ v.sized;
      in_order = v.in_order ∙ ap (◌++◌ w.delivered) (sym q);
    }
