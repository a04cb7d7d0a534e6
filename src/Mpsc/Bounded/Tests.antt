-- ===== src/Mpsc/Bounded/Tests.antt =====
-- Runs of the bounded channel of futures-channel/src/mpsc/mod.rs, and the theorems at them.
use futures_rs.Prelude.{
  ℕ, ◌+◌, ◌≤◌, ◌≡◌, refl, List, [], ◌∷◌, ◌++◌, none, some, true, false, arith, length,
}
use futures_rs.AtomicWaker.{register, wake}
use futures_rs.Mpsc.Word.{
  decode_state, encode_state, attempt, inc_num_messages, dec_num_messages, is_closed,
}
use futures_rs.Mpsc.Bounded.{
  Channel, new_sender, new_channel, is_open, channel, try_send, do_send_b, send_counted,
  poll_unparked, clone, queue_push_and_signal, park, unpark_one, next_of, next_message, poll_next,
  drop_receiver,
}
use futures_rs.Mpsc.Bounded.Calls.{
  World, Call, sends, clones, polls_next, run, step, act, init, world,
}
use futures_rs.Mpsc.Bounded.History.{Reached, accepted_in_order, messages_bounded}
use futures_rs.Mpsc.Bounded.Drain.{drop_ends}
use futures_rs.Mpsc.Bounded.Growth.{flood, clones_fill}

abbrev start : World ℕ
start = world new_sender (new_channel 0)

-- With no buffer, the first message parks the sender and the second is refused.
abbrev history : List (Call ℕ)
history = sends 0 5 ∷ sends 0 6 ∷ clones 0 ∷ sends 1 7 ∷ polls_next 9 ∷ []

result : World ℕ
unfolding run step act try_send do_send_b send_counted poll_unparked clone poll_next next_message
    next_of unpark_one queue_push_and_signal park inc_num_messages attempt dec_num_messages
    decode_state encode_state is_closed wake register
result = elim (run start history) [ none ↦ start | some w ↦ w ]

result-Reached : Reached 0 result
unfolding result init channel
result-Reached = (start, history, refl, refl)

result_fields :
    (result.accepted ≡ 5 ∷ 7 ∷ [])
    × (result.delivered ≡ 5 ∷ [])
    × (result.chan.message_queue ≡ 7 ∷ [])
    × (result.chan.parked_queue ≡ 1 ∷ [])
unfolding result
result_fields = (refl, refl, refl, refl)

accepted_in_order_example :
    (result.accepted ≡ result.delivered ++ result.chan.message_queue)
    × ((decode_state result.chan.state).num_messages ≡ length result.chan.message_queue)
accepted_in_order_example = accepted_in_order 0 result (omega arith) result-Reached

messages_bounded_example : length result.chan.message_queue ≤ 0 + result.chan.fresh_task
unfolding result
messages_bounded_example = messages_bounded 0 result (omega arith) result-Reached refl

drop_ends_example :
    (d : Channel ℕ) × (drop_receiver 2 result.chan ≡ some d)
    × (d.message_queue ≡ [])
    × (is_open d ≡ false)
unfolding result
drop_ends_example = drop_ends 0 2 result (omega arith) result-Reached refl (omega arith)

clones_fill_example :
    (c : Channel ℕ) × (flood 3 7 (new_channel 0) ≡ some c)
    × (is_open c ≡ true)
    × (c.num_senders ≡ 1)
    × (length c.message_queue ≡ 3)
clones_fill_example = clones_fill 0 3 7 (omega arith) (omega arith)
