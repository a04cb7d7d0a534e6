-- ===== src/Mpsc/Word.antt =====
-- futures-channel/src/mpsc/mod.rs: the word `state` of a channel, which packs "open" and the number
-- of messages, and the loop that adds a message to it. `usize` has 64 bits.
pub mod Laws
mod Tests
use futures_rs.Usize.{usize_mod}
use futures_rs.Prelude.{
  ℕ, ◌+◌, ◌-◌, ◌/◌, ◌%◌, List, [], ◌∷◌, Option, none, some, Bool, not, ◌&&◌, ltb, ◌==◌,
  if◌then◌else◌,
}

-- The highest bit.
abbrev pub open_mask : ℕ
open_mask = 0x8000_0000_0000_0000

abbrev pub init_state : ℕ
init_state = open_mask

abbrev pub max_capacity : ℕ
max_capacity = 0x7fff_ffff_ffff_ffff

abbrev pub max_buffer : ℕ
max_buffer = max_capacity / 2

pub record State : Type 0 where
  pub is_open : Bool
  pub num_messages : ℕ

-- `num & OPEN_MASK == OPEN_MASK` reads bit 63, `num & MAX_CAPACITY` the bits below it.
unfoldable pub decode_state : ℕ → State
decode_state num = record { is_open = num / open_mask % 2 == 1; num_messages = num % open_mask }

-- `num |= OPEN_MASK` sets bit 63.
unfoldable pub encode_state : State → ℕ
encode_state s =
    if s.is_open
    then (if s.num_messages / open_mask % 2 == 1
        then s.num_messages
        else s.num_messages + open_mask)
    else s.num_messages

unfoldable pub is_closed : State → Bool
is_closed s = not s.is_open && (s.num_messages == 0)

-- The bounds of the number of items to come; no upper bound while the channel is open.
unfoldable pub size_hint : State → ℕ × Option ℕ
size_hint s = if s.is_open then (s.num_messages, none) else (s.num_messages, some s.num_messages)

-- What the loop of `inc_num_messages` comes to: a failed assertion, `None`, or `Some` of the new
-- number of messages beside the word that was stored.
pub data Incremented : Type 0 where
  panicked not_open : Incremented
  stored : (num_messages next : ℕ) → Incremented

-- One round of the loop, up to its `compare_exchange` of `curr` for `next`.
unfoldable pub attempt : ℕ → Incremented
attempt curr =
    let state = decode_state curr in
    let next = encode_state (record state { num_messages = state.num_messages + 1 }) in
    if not state.is_open
    then not_open
    else if ltb state.num_messages max_capacity
    then stored (state.num_messages + 1) next
    else panicked

-- The `match` on `compare_exchange`, which reads `actual`.
abbrev pub retried : ℕ → ℕ → Incremented → Incremented → Incremented
retried actual curr panicked retry = panicked
retried actual curr not_open retry = not_open
retried actual curr (stored n next) retry = if actual == curr then stored n next else retry

-- `seen` holds the words that other threads have put in `state` when each `compare_exchange`
-- reads it, as long as they interfere; then `state` is still `curr`.
unfoldable pub inc_num_messages : List ℕ → ℕ → Incremented
inc_num_messages [] curr = attempt curr
inc_num_messages (actual ∷ seen) curr =
    let retry = inc_num_messages seen actual in retried actual curr (attempt curr) retry

-- `state.fetch_sub(1)` of `dec_num_messages`
unfoldable pub dec_num_messages : ℕ → ℕ
dec_num_messages state = (state + usize_mod - 1) % usize_mod

-- The word that `set_closed` leaves; `fetch_and(!OPEN_MASK)` clears bit 63.
unfoldable pub set_closed : ℕ → ℕ
set_closed curr = if not (decode_state curr).is_open then curr else curr % open_mask
