-- ===== src/Mpsc/Bounded/Growth.antt =====
-- How many messages a bounded channel of futures-channel/src/mpsc/mod.rs takes from senders that
-- are cloned for one message each.
use futures_rs.Prelude.{
  ℕ, zero, suc, ◌+◌, ◌-◌, ◌≤◌, ◌<◌, ◌≡◌, refl, sym, ap, subst, ◌∙◌, update, [], ◌∷◌, Option, none,
  some, true, false, ◌==◌, arith, length, length-append, if◌then◌else◌, if_elim, ltb,
}
use futures_rs.Mpsc.Bounded.History.{channel-Valid}
use native.Mathlib.Nat.{zero-add}
use futures_rs.Task.{Poll, ready, pending, ok}
use futures_rs.Usize.{usize_mod}
use futures_rs.Mpsc.Word.{
  decode_state, max_capacity, max_buffer, attempt, inc_num_messages, Incremented, panicked,
  not_open, stored,
}
use futures_rs.Mpsc.Word.Laws.{Counts, attempt-Counts}
use futures_rs.Mpsc.Bounded.{
  Channel, Sender, is_open, Sent, new_channel, clone, try_send, new_task, refused, full,
  send_counted, queue_push_and_signal, park, do_send_b, poll_unparked, drop_sender,
}
use futures_rs.Mpsc.Bounded.Invariant.{Inv}
use futures_rs.Mpsc.Bounded.Invariant.Senders.{Cloned, clone-Cloned}
use futures_rs.Mpsc.Bounded.Invariant.Sending.{After, try_send-After}

few : (n b : ℕ) → n ≡ 1 → b < max_buffer → (n == max_capacity - b) ≡ false
few n b e h = ground arith

module _ {ℓ} {A : Type ℓ} where
  -- `n` times: clone a sender, send one message through the clone, drop the clone.
  abbrev pub sent_by_clone : A → Sender × Channel A → Option (Channel A)
  sent_by_clone msg (s, c) = elim (try_send msg s c) [
    | none ↦ none
    | some (r, s', c') ↦ some (drop_sender c')
  ]

  abbrev pub flood_once : A → Channel A → Option (Channel A)
  flood_once msg c = elim (clone c) [ none ↦ none | some sc ↦ sent_by_clone msg sc ]

  pub flood : ℕ → A → Channel A → Option (Channel A)
  flood zero msg c = some c
  flood (suc n) msg c = elim (flood_once msg c) [ none ↦ none | some c' ↦ flood n msg c' ]

  -- An open channel with one sender.
  pub record Single (c : Channel A) (n : ℕ) : Type ℓ where
    pub inv : Inv c
    pub opened : is_open c ≡ true
    pub one : c.num_senders ≡ 1
    pub small : c.buffer < max_buffer
    pub holds : length c.message_queue ≡ n

  -- A clone of a channel that has one sender.
  abbrev cloned : Channel A → Sender × Channel A
  cloned c = (
    record { sender_task = c.fresh_task; maybe_parked = false },
    record c {
      num_senders = c.num_senders + 1;
      tasks = update c.tasks c.fresh_task new_task;
      fresh_task = suc c.fresh_task;
    },
  )

  clone-cloned : (c : Channel A) (n : ℕ) → Single c n → clone c ≡ some (cloned c)
  unfolding clone
  clone-cloned c n v = rw (few c.num_senders c.buffer v.one v.small) refl

  -- An open channel with room takes the message of a sender that is not parked.
  abbrev Takes : Channel A → Option (Sent A × Sender × Channel A) → Type ℓ
  Takes c o =
      (s' : Sender) × (c' : Channel A) × (o ≡ some (ok tt, s', c'))
      × (is_open c' ≡ true)
      × (c'.num_senders ≡ c.num_senders)
      × (c'.buffer ≡ c.buffer)

  send_counted-Takes :
      (c : Channel A) (s : Sender) (msg : A) (r : Incremented)
      → is_open c ≡ true
      → (decode_state c.state).num_messages < max_capacity
      → Counts c.state r
      → Takes c (send_counted r msg s c)
  unfolding send_counted queue_push_and_signal park
  send_counted-Takes c s msg panicked o lt k = absurd (omega (arith, k.1))
  send_counted-Takes c s msg not_open o lt k = absurd (ground arith)
  send_counted-Takes c s msg (stored n next) o lt k =
      let c1 : Channel A = record c { state = next } in
      let p : Sender × Channel A = if ltb c.buffer n then park s c1 else (s, c1) in
      (
        p.0,
        queue_push_and_signal msg p.1,
        refl,
        if_elim (λ (x : Sender × Channel A). is_open x.1 ≡ true) (ltb c.buffer n) (λ _. k.3)
            (λ _. k.3),
        if_elim (λ (x : Sender × Channel A). x.1.num_senders ≡ c.num_senders) (ltb c.buffer n)
            (λ _. refl) (λ _. refl),
        if_elim (λ (x : Sender × Channel A). x.1.buffer ≡ c.buffer) (ltb c.buffer n) (λ _. refl)
            (λ _. refl),
      )

  poll_unparked-free :
      (s : Sender) (c : Channel A)
      → s.maybe_parked ≡ false
      → poll_unparked none s c ≡ (ready tt, s, c)
  unfolding poll_unparked
  poll_unparked-free s c m = simp m

  try_send-Takes :
      (c : Channel A) (s : Sender) (msg : A)
      → is_open c ≡ true
      → (decode_state c.state).num_messages < max_capacity
      → s.maybe_parked ≡ false
      → c.state < usize_mod
      → Takes c (try_send msg s c)
  unfolding try_send do_send_b inc_num_messages
  try_send-Takes c s msg o lt m w =
      subst
        (λ (x : Poll (Unit {0}) × Sender × Channel A). Takes c (elim x.0 [
          | ready _ ↦ do_send_b msg x.1 x.2
          | pending ↦ some (refused full msg, x.1, x.2)
        ]))
        (sym (poll_unparked-free s c m))
        (send_counted-Takes c s msg (attempt c.state) o lt (attempt-Counts c.state w))

  drop_sender-two :
      (c : Channel A) → c.num_senders ≡ 2 → drop_sender c ≡ record c { num_senders = 1 }
  unfolding drop_sender
  drop_sender-two c e = rw e refl

  flood_once-eq :
      (msg : A) (c : Channel A) (s : Sender) (c1 : Channel A) (s2 : Sender) (c2 : Channel A)
      → clone c ≡ some (s, c1)
      → try_send msg s c1 ≡ some (ok tt, s2, c2)
      → c2.num_senders ≡ 2
      → flood_once msg c ≡ some (record c2 { num_senders = 1 })
  flood_once-eq msg c s c1 s2 c2 p q e =
      rw (p, flood_once) (rw (q, sent_by_clone) (ap some (drop_sender-two c2 e)))

  flood_once-Single :
      (msg : A) (c : Channel A) (n : ℕ)
      → n < max_capacity
      → Single c n
      → (c' : Channel A) × (flood_once msg c ≡ some c') × Single c' (n + 1)
  flood_once-Single msg c n lt v =
      let (i, f, fresh, frame, q) = subst (Cloned c) (clone-cloned c n v) (clone-Cloned c v.inv) in
      let c1 : Channel A = (cloned c).1 in
      let (s2, c2, e, o, num, size) =
        try_send-Takes c1 (cloned c).0 msg v.opened (omega (arith, v.inv.count, v.holds)) refl
          v.inv.word in
      let a : After c1 (cloned c).0 msg (some (ok tt, s2, c2)) =
        subst (After c1 (cloned c).0 msg) e (try_send-After c1 (cloned c).0 msg i f) in
      (
        record c2 { num_senders = 1 },
        flood_once-eq msg c (cloned c).0 c1 s2 c2 (clone-cloned c n v) e
            (omega (arith, num, v.one)),
        record {
          inv = record {
            word = a.0.inv.word;
            count = a.0.inv.count;
            room = a.0.inv.room;
            parked = a.0.inv.parked;
            distinct = a.0.inv.distinct;
          };
          opened = o;
          one = refl;
          small = omega (arith, v.small, size);
          holds = omega (arith, ap length a.1, length-append c.message_queue (msg ∷ []), v.holds);
        },
      )

  new-Single : (size : ℕ) → size < max_buffer → Single (new_channel size) 0
  unfolding decode_state
  new-Single size small = record {
    inv = (channel-Valid size).inv;
    opened = refl;
    one = refl;
    small = small;
    holds = refl;
  }

  flood-Single :
      (n : ℕ) (msg : A) (c : Channel A) (k : ℕ)
      → n + k ≤ max_capacity
      → Single c k
      → (c' : Channel A) × (flood n msg c ≡ some c') × Single c' (n + k)
  unfolding flood
  flood-Single zero msg c k h v = (c, refl, rw (zero-add k) v)
  flood-Single (suc n) msg c k h v =
      let (c1, e, v1) = flood_once-Single msg c k (omega arith) v in
      let (c2, e2, v2) = flood-Single n msg c1 (k + 1) (omega arith) v1 in
      (c2, rw (e, flood) e2, subst (Single c2) (omega arith) v2)

  -- The capacity is not the buffer plus the number of senders: a channel of any size whose only
  -- sender clones itself `n` times, sends one message through each clone and drops the clone, takes
  -- every message, for any `n` that the word can count. Then it holds `n` messages, it is open, and
  -- it has one sender.
  pub clones_fill :
      (size n : ℕ) (msg : A)
      → size < max_buffer
      → n ≤ max_capacity
      → (c : Channel A) × (flood n msg (new_channel size) ≡ some c)
        × (is_open c ≡ true)
        × (c.num_senders ≡ 1)
        × (length c.message_queue ≡ n)
  clones_fill size n msg small h =
      let (c, e, v) =
        flood-Single n msg (new_channel size) 0 (omega arith) (new-Single size small) in
      (c, e, v.opened, v.one, v.holds ∙ omega arith)
