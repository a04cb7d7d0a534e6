-- ===== src/Mpsc/Queue/Tests.antt =====
-- Runs of the queue of futures-channel/src/mpsc/queue.rs, and the theorem at one.
use futures_rs.Prelude.{ℕ, ◌≡◌, refl, List, [], ◌∷◌, ◌++◌, length, some, false}
use futures_rs.Mpsc.Queue.{
  fault, gives, ◌>>=◌, new, push_swap, push_link, pop, pop_load, pop_check, pop_next, pop_spin,
  inconsistent,
}
use futures_rs.Mpsc.Queue.Entries.{Entry}
use futures_rs.Mpsc.Queue.Fifo.{unlinked, Loads, Checks}
use futures_rs.Mpsc.Queue.Steps.{System, Event, begin, finish, consume, init, run, step, consumes}
use futures_rs.Mpsc.Queue.Interleaved.{values, Justified, push_pop_in_order}

-- Two producers swap `head`; the second links its node first, and `pop` has to wait.
abbrev overlapping : List (Event ℕ)
overlapping = begin 7 ∷ begin 8 ∷ finish 0 ∷ consume ∷ finish 0 ∷ consume ∷ consume ∷ []

overlapping-run : (run init overlapping >>= λ s. gives (s.received)) ≡ gives (7 ∷ [])
unfolding run step consumes push_swap push_link pop_load pop_check pop_next new
overlapping-run = refl

push_pop_in_order_example :
    (s : System ℕ) × (es : List (Entry ℕ)) × (run init overlapping ≡ gives s)
    × (s.sent ≡ s.received ++ values es)
    × (unlinked es ≡ length s.pending)
    × Justified s.answers
    × Loads s.queue es
    × Checks s.queue es
push_pop_in_order_example = push_pop_in_order overlapping

-- A whole `push` between the loads of `pop`: no producer stands between its steps at a load, and the
-- answer is `Inconsistent` all the same.
abbrev slipped_in : List (Event ℕ)
slipped_in = consume ∷ begin 7 ∷ finish 0 ∷ consume ∷ consume ∷ []

slipped_in-run : (run init slipped_in >>= λ s. gives s.answers) ≡ gives ((inconsistent, false) ∷ [])
unfolding run step consumes push_swap push_link pop_load pop_check pop_next new
slipped_in-run = refl

-- `pop_spin` waits for the producer that stands between its steps.
spins :
    (let (prev, q) = push_swap (new {A = ℕ}) 5 in
      pop_spin
        (((λ r. r), λ r. elim (push_link r prev r.head) [ gives r' ↦ r' | fault ↦ r ]) ∷ [])
        q
      >>= λ (r, q'). gives r)
    ≡ gives (some (some 5))
unfolding pop_spin push_swap push_link pop pop_load pop_check pop_next new
spins = refl
