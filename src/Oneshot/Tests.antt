-- ===== src/Oneshot/Tests.antt =====
-- Runs of the oneshot channel of futures-channel/src/oneshot.rs, and the theorems at them.
use futures_rs.Prelude.{ℕ, ◌≡◌, ◌≢◌, refl, inl, true, List, [], ◌∷◌, ◌++◌}
use futures_rs.Oneshot.{
  Event, send, poll_canceled, drop_tx, poll, close, tx_step, rx_step, run, step, init, move_tx,
  move_rx, call_tx, call_rx, panicked, rx_live,
}
use futures_rs.Oneshot.Invariant.{tx_done}
use futures_rs.Oneshot.Results.{
  places, polling, one_place, receiver_woken, sender_woken, canceled_final, sent_received,
}

-- The receiver waits with task 9, then the sender sends 5 and goes away.
abbrev wait : List (Event ℕ)
wait = poll 9 ∷ rx_step ∷ rx_step ∷ rx_step ∷ rx_step ∷ []

abbrev send_all : List (Event ℕ)
send_all =
    send 5
    ∷ tx_step
    ∷ tx_step
    ∷ tx_step
    ∷ tx_step
    ∷ tx_step
    ∷ tx_step
    ∷ tx_step
    ∷ tx_step
    ∷ tx_step
    ∷ tx_step
    ∷ []

abbrev sent : List (Event ℕ)
sent = wait ++ send_all

one_place_example :
    ((run init sent).tx ≢ panicked) × (places (run init sent) ≡ (run init sent).offered)
one_place_example = one_place sent

receiver_woken_example : (run init sent).rx_woken ≡ 9 ∷ []
unfolding run step move_tx move_rx call_tx call_rx
receiver_woken_example = receiver_woken sent 9 refl refl

sent_received_example :
    ((run (run init sent) (polling 4)).rx ≡ rx_live)
    × ((run (run init sent) (polling 4)).received ≡ (run (run init sent) (polling 4)).offered)
unfolding run step move_tx move_rx call_tx call_rx
sent_received_example = sent_received sent 4 refl refl refl

-- The sender waits with task 7, and the receiver closes the channel.
abbrev closed_early : List (Event ℕ)
closed_early =
    poll_canceled 7
    ∷ tx_step
    ∷ tx_step
    ∷ tx_step
    ∷ tx_step
    ∷ close
    ∷ rx_step
    ∷ rx_step
    ∷ rx_step
    ∷ rx_step
    ∷ []

sender_woken_example : (run init closed_early).tx_woken ≡ 7 ∷ []
unfolding run step move_tx move_rx call_tx call_rx
sender_woken_example = sender_woken closed_early 7 refl refl (inl refl)

-- The sender is dropped and the receiver polls.
abbrev dropped : List (Event ℕ)
dropped = drop_tx ∷ tx_step ∷ poll 9 ∷ rx_step ∷ rx_step ∷ rx_step ∷ []

canceled_final_example :
    (tx_done (run init dropped).tx ≡ true)
    × ((run init dropped).received ≡ (run init dropped).offered)
unfolding run step move_tx move_rx call_tx call_rx
canceled_final_example = canceled_final dropped refl refl

-- The receiver closes the channel while the value is on its way: the sender takes it back.
abbrev taken_back : List (Event ℕ)
taken_back =
    send 5 ∷ tx_step ∷ tx_step ∷ close ∷ rx_step ∷ tx_step ∷ tx_step ∷ tx_step ∷ tx_step ∷ []

taken_back-run : (run init taken_back).refused ≡ 5 ∷ []
unfolding run step move_tx move_rx call_tx call_rx
taken_back-run = refl
