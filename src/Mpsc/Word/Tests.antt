-- ===== src/Mpsc/Word/Tests.antt =====
-- Runs on words of futures-channel/src/mpsc/mod.rs, and the theorems at them.
use futures_rs.Prelude.{◌+◌, ◌≡◌, refl, [], ◌∷◌, none, true, arith}
use futures_rs.Mpsc.Word.{
  State, decode_state, encode_state, attempt, inc_num_messages, stored, size_hint, open_mask,
}
use futures_rs.Mpsc.Word.Laws.{Decides, decode-encode, inc_num_messages-Decides}

-- An open channel with three messages.
abbrev three_open : State
three_open = record { is_open = true; num_messages = 3 }

decode-encode_example :
    (decode_state (encode_state three_open) ≡ three_open)
    × (encode_state (decode_state (open_mask + 3)) ≡ open_mask + 3)
decode-encode_example = decode-encode three_open (open_mask + 3) (omega arith) (omega arith)

-- Another thread has added a message in between: the second round counts it.
retries : inc_num_messages ((open_mask + 1) ∷ []) open_mask ≡ stored 2 (open_mask + 2)
unfolding inc_num_messages attempt decode_state encode_state
retries = refl

inc_num_messages-Decides_example :
    Decides (open_mask ∷ (open_mask + 1) ∷ []) (inc_num_messages ((open_mask + 1) ∷ []) open_mask)
inc_num_messages-Decides_example =
    inc_num_messages-Decides ((open_mask + 1) ∷ []) open_mask (omega arith, (omega arith, tt))

hints : size_hint three_open ≡ (3, none)
unfolding size_hint
hints = refl
