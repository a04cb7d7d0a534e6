-- ===== src/Mpsc/Bounded/Calls.antt =====
-- A history of a bounded channel: the calls on its senders and on its receiver, one after another.
use futures_rs.Prelude.{ℕ, suc, List, [], ◌∷◌, ◌++◌, Option, none, some, update}
use futures_rs.Task.{Poll, ready, Result, ok, err}
use futures_rs.AtomicWaker.{Waker}
use futures_rs.Mpsc.Bounded.{
  Sender, Channel, TrySendError, try_send, poll_ready, clone, drop_sender, close_channel, poll_next,
  try_recv, close, channel,
}

-- The channel, its senders by number, and what was accepted and handed out so far.
pub record World {ℓ} (A : Type ℓ) : Type ℓ where
  pub chan : Channel A
  pub senders : ℕ → Option Sender
  pub handles : ℕ
  pub accepted : List A
  pub delivered : List A

pub data Call {ℓ} (A : Type ℓ) : Type ℓ where
  sends : ℕ → A → Call A
  polls_ready : ℕ → Waker → Call A
  clones : ℕ → Call A
  drops : ℕ → Call A
  closes_channel : ℕ → Call A
  polls_next : Waker → Call A
  tries_recv : Call A
  closes : Call A

module _ {ℓ} {A : Type ℓ} where
  abbrev pub log_sent : Result (Unit {0}) (TrySendError A) → A → List A → List A
  log_sent (ok _) msg log = log ++ msg ∷ []
  log_sent (err _) msg log = log

  abbrev pub log_received : Poll (Option A) → List A → List A
  log_received (ready (some msg)) log = log ++ msg ∷ []
  log_received _ log = log

  abbrev pub log_taken {κ} : {E : Type κ} → Result A E → List A → List A
  log_taken (ok msg) log = log ++ msg ∷ []
  log_taken (err _) log = log

  -- What a call on a sender that is there makes of the world; `none` is a panic.
  unfoldable pub act : World A → ℕ → Sender → Call A → Option (World A)
  act w i s (sends j msg) = elim (try_send msg s w.chan) [
    | none ↦ none
    | some (r, s', c) ↦ some (record w {
      chan = c;
      senders = update w.senders i (some s');
      accepted = log_sent r msg w.accepted;
    })
  ]
  act w i s (polls_ready j cx) =
      let (r, s', c) = poll_ready cx s w.chan in
      some (record w { chan = c; senders = update w.senders i (some s') })
  act w i s (clones j) = elim (clone w.chan) [
    | none ↦ none
    | some (s', c) ↦ some (record w {
      chan = c;
      senders = update w.senders w.handles (some s');
      handles = suc w.handles;
    })
  ]
  act w i s (drops j) =
      some (record w { chan = drop_sender w.chan; senders = update w.senders i none })
  act w i s (closes_channel j) = some (record w { chan = close_channel w.chan })
  act w i s other = some w

  abbrev pub on : World A → ℕ → Option Sender → Call A → Option (World A)
  on w i none c = some w
  on w i (some s) c = act w i s c

  unfoldable pub step : World A → Call A → Option (World A)
  step w (sends i msg) = on w i (w.senders i) (sends i msg)
  step w (polls_ready i cx) = on w i (w.senders i) (polls_ready i cx)
  step w (clones i) = on w i (w.senders i) (clones i)
  step w (drops i) = on w i (w.senders i) (drops i)
  step w (closes_channel i) = on w i (w.senders i) (closes_channel i)
  step w (polls_next cx) =
      let (r, c) = poll_next cx w.chan in
      some (record w { chan = c; delivered = log_received r w.delivered })
  step w tries_recv =
      let (r, c) = try_recv w.chan in
      some (record w { chan = c; delivered = log_taken r w.delivered })
  step w closes = some (record w { chan = close w.chan })

  unfoldable pub run : World A → List (Call A) → Option (World A)
  run w [] = some w
  run w (c ∷ cs) = elim (step w c) [ none ↦ none | some w' ↦ run w' cs ]

  abbrev pub world : Sender → Channel A → World A
  world s c = record {
    chan = c;
    senders = update (λ _. none) 0 (some s);
    handles = 1;
    accepted = [];
    delivered = [];
  }

  -- The world of `channel(buffer)`.
  unfoldable pub init : ℕ → Option (World A)
  init buffer = elim (channel {A = A} buffer) [ none ↦ none | some (s, c) ↦ some (world s c) ]
