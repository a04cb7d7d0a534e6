-- ===== src/Mpsc/Bounded/Invariant/Senders.antt =====
-- The methods of a sender of the bounded channel in futures-channel/src/mpsc/mod.rs.
use futures_rs.Prelude.{
  ℕ, suc, ◌+◌, ◌-◌, ◌%◌, ◌≡◌, refl, subst, ◌∙◌, Option, none, some, false, not, ◌==◌, arith, update,
  if_elim,
}
use futures_rs.Task.{Poll, ready}
use futures_rs.Usize.{usize_mod}
use futures_rs.Mpsc.Word.Laws.{decode-set_closed}
use futures_rs.Mpsc.Bounded.{
  Channel, Sender, max_senders, poll_unparked, clone, drop_sender, close_channel, new_task,
}
use futures_rs.Mpsc.Bounded.Invariant.{Inv, Fits, Frame}
use futures_rs.Mpsc.Bounded.Invariant.Tasks.{Parked-update, Parked-cx, Parked-fresh, not-Parked}

module _ {ℓ} {A : Type ℓ} where
  -- What a method of the sender `s` leaves.
  pub record Kept (c : Channel A) (s : Sender) (c' : Channel A) (s' : Sender) : Type ℓ where
    pub inv : Inv c'
    pub fits : Fits c' s'
    pub same : s'.sender_task ≡ s.sender_task
    pub frame : Frame s.sender_task c c'

  pub Kept-refl : (c : Channel A) (s : Sender) → Inv c → Fits c s → Kept c s c s
  Kept-refl c s v f = record {
    inv = v;
    fits = f;
    same = refl;
    frame = record { still = λ o. o; grows = omega arith; buffer = refl; joins = λ u ne m. m };
  }

  -- The waker of a parked task is written.
  Kept-cx :
      (c : Channel A) (s : Sender) (cx : Option ℕ)
      → Inv c
      → Fits c s
      → Kept c s
          (record c {
            tasks = update c.tasks s.sender_task (record (c.tasks s.sender_task) { task = cx });
          })
          s
  Kept-cx c s cx v f = record {
    inv = record {
      word = v.word;
      count = v.count;
      room = v.room;
      parked = Parked-cx c.tasks c.fresh_task s.sender_task cx c.parked_queue v.parked;
      distinct = v.distinct;
    };
    fits = record { known = f.known; unparked = f.unparked };
    same = refl;
    frame = record { still = λ o. o; grows = omega arith; buffer = refl; joins = λ u ne m. m };
  }

  -- A task that was unparked is noticed.
  Kept-unparked :
      (c : Channel A) (s : Sender)
      → Inv c
      → Fits c s
      → (c.tasks s.sender_task).is_parked ≡ false
      → Kept c s c (record s { maybe_parked = false })
  Kept-unparked c s v f e = record {
    inv = v;
    fits = record {
      known = f.known;
      unparked = λ o m. not-Parked c.tasks c.fresh_task s.sender_task c.parked_queue v.parked e;
    };
    same = refl;
    frame = record { still = λ o. o; grows = omega arith; buffer = refl; joins = λ u ne m. m };
  }

  -- `poll_unparked` answers `Ready` exactly when it leaves `maybe_parked` false, and then only that
  -- has changed.
  abbrev pub Polled : (c : Channel A) (s : Sender) → Poll (Unit {0}) × Sender × Channel A → Type ℓ
  Polled c s (r, s', c') =
      Kept c s c' s'
      × (c'.message_queue ≡ c.message_queue)
      × (c'.state ≡ c.state)
      × (c'.parked_queue ≡ c.parked_queue)
      × (r ≡ ready tt → s'.maybe_parked ≡ false)

  pub poll_unparked-Polled :
      (cx : Option ℕ) (s : Sender) (c : Channel A)
      → Inv c
      → Fits c s
      → Polled c s (poll_unparked cx s c)
  unfolding poll_unparked
  poll_unparked-Polled cx s c v f =
      if_elim (Polled c s) s.maybe_parked
        (λ p.
          if_elim (Polled c s) (not (c.tasks s.sender_task).is_parked)
            (λ q. (Kept-unparked c s v f (ground arith), refl, refl, refl, λ e. refl))
            (λ q. (Kept-cx c s cx v f, refl, refl, refl, λ e. cc)))
        (λ p. (Kept-refl c s v f, refl, refl, refl, λ e. p))

  pub Frame-trans : (t : ℕ) (a b c : Channel A) → Frame t a b → Frame t b c → Frame t a c
  Frame-trans t a b c f g = record {
    still = λ o. f.still (g.still o);
    grows = omega (arith, f.grows, g.grows);
    buffer = g.buffer ∙ f.buffer;
    joins = λ u ne m. g.joins u ne (f.joins u ne m);
  }

  pub Kept-trans : (a b c : Channel A) (s t u : Sender) → Kept a s b t → Kept b t c u → Kept a s c u
  Kept-trans a b c s t u k l = record {
    inv = l.inv;
    fits = l.fits;
    same = l.same ∙ k.same;
    frame = Frame-trans s.sender_task a b c k.frame (subst (λ x. Frame x b c) k.same l.frame);
  }

  -- A channel whose word was closed, or that another sender joined, or whose receiver was woken.
  pub close_channel-Inv :
      (c : Channel A) (t : ℕ) → Inv c → Inv (close_channel c) × Frame t c (close_channel c)
  unfolding close_channel
  close_channel-Inv c t v =
      let (shut, num, w) = decode-set_closed c.state v.word in
      (
        record {
          word = w;
          count = num ∙ v.count;
          room = λ o. ground (arith, shut);
          parked = v.parked;
          distinct = v.distinct;
        },
        record {
          still = λ o. ground (arith, shut);
          grows = omega arith;
          buffer = refl;
          joins = λ u ne m. m;
        },
      )

  pub drop_sender-Inv :
      (c : Channel A) (t : ℕ) → Inv c → Inv (drop_sender c) × Frame t c (drop_sender c)
  unfolding drop_sender
  drop_sender-Inv c t v =
      if_elim (λ (x : Channel A). Inv x × Frame t c x) (c.num_senders == 1)
        (λ e.
          let (i, f) = close_channel-Inv (fewer c) t (record {
            word = v.word;
            count = v.count;
            room = v.room;
            parked = v.parked;
            distinct = v.distinct;
          }) in
          (i, record { still = f.still; grows = f.grows; buffer = f.buffer; joins = f.joins }))
        (λ e. (
          record {
            word = v.word;
            count = v.count;
            room = v.room;
            parked = v.parked;
            distinct = v.distinct;
          },
          record { still = λ o. o; grows = omega arith; buffer = refl; joins = λ u ne m. m },
        ))
    where
      fewer : Channel A → Channel A
      fewer d = record d { num_senders = (d.num_senders + usize_mod - 1) % usize_mod }

  -- A clone has a task of its own, and nobody else changes.
  abbrev pub Cloned : Channel A → Option (Sender × Channel A) → Type ℓ
  Cloned c none = Unit
  Cloned c (some (s, c')) =
      Inv c'
      × Fits c' s
      × (s.sender_task ≡ c.fresh_task)
      × Frame c.fresh_task c c'
      × (c'.message_queue ≡ c.message_queue)

  pub clone-Cloned : (c : Channel A) → Inv c → Cloned c (clone c)
  unfolding clone
  clone-Cloned c v =
      let new = Parked-fresh c.tasks c.fresh_task c.parked_queue v.parked in
      if_elim (Cloned c) (c.num_senders == max_senders c) (λ e. tt)
        (λ e. (
          record {
            word = v.word;
            count = v.count;
            room = v.room;
            parked =
                Parked-update c.tasks c.fresh_task (suc c.fresh_task) c.fresh_task new_task
                  c.parked_queue (omega arith) new v.parked;
            distinct = v.distinct;
          },
          record { known = omega arith; unparked = λ o m. new },
          refl,
          record { still = λ o. o; grows = omega arith; buffer = refl; joins = λ u ne m. m },
          refl,
        ))
