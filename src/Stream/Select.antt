-- ===== src/Stream/Select.antt =====
-- futures-util/src/stream/select.rs
use futures_rs.Stream.{Stream}
use futures_rs.Stream.SelectWithStrategy
use futures_rs.Stream.SelectWithStrategy.{
  SelectWithStrategy, PollNext, left, toggle, select_with_strategy,
}

-- `last.toggle()`: the side that `last` is, and the other one for the next time.
abbrev pub round_robin : PollNext → PollNext × PollNext
round_robin last = toggle last

module _ {ℓ κ ν} {S : Type ℓ} {U : Type κ} {A : Type ν} (st : Stream S A) (su : Stream U A) where
  -- The first side is the default of `PollNext`.
  abbrev pub new : S → U → SelectWithStrategy S U PollNext
  new s u = SelectWithStrategy.new st su round_robin s u left

  abbrev pub select_stream : Stream (SelectWithStrategy S U PollNext) A
  select_stream = select_with_strategy st su round_robin
