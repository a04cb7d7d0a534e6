-- ===== src/Stream/Tests.antt =====
-- Runs of the adapters of futures-util/src/stream/stream over a stream given by a list, and the
-- theorems at them.
use futures_rs.Prelude.{
  ℕ, zero, suc, ◌+◌, ◌-◌, if◌then◌else◌, ◌<◌, ◌≡◌, refl, List, [], ◌∷◌, Option, none, some, Bool,
  true, false, arith, length, ltb,
}
use futures_rs.Task.{Poll, ready, pending}
use futures_rs.Usize.{Within}
use futures_rs.Run.{spin, return, ◌>>=◌, loop, return-Gives}
use futures_rs.Run.{returned}
use futures_rs.Stream.Filter
use futures_rs.Stream.Filter.{Filter, filter_stream, filter_yields}
use futures_rs.Stream.Fuse
use futures_rs.Stream.Chunks
use futures_rs.Stream.Chunks.{chunks_stream, filling, chunks_yields, joined, Sized}
use futures_rs.Stream.Zip
use futures_rs.Stream.Zip.{zip_stream, zip_yields}
use futures_rs.Stream.Scan
use futures_rs.Stream.Scan.{scan_stream, scan_hint_fails}
use futures_rs.Stream.Take.{take_stream, taking}
use futures_rs.Stream.Skip.{skip_stream, skipping}
use futures_rs.Stream.Chain.{chain_stream, both}
use futures_rs.Stream.Select
use futures_rs.Stream.Select.{round_robin, select_stream}
use futures_rs.Stream.SelectWithStrategy.{left, Fused}
use futures_rs.Stream.SelectWithStrategy.Merge.{Interleaves, select_merges}
use futures_rs.Stream.Peek
use futures_rs.Stream.Peek.{Leaves, peek_future, next_if_future, peekable-Leaves}
use futures_rs.Stream.Unfold.{unfold_stream, unfold_yields, UnfoldState, value}
use futures_rs.Stream.Unfold
use futures_rs.Stream.Compose.{split_at}
use futures_rs.Stream.{Future, Stream, Resolves, resolve, holds, Yields, item, wait, finish}

-- A stream: `none` is a `Pending`.
abbrev pub script_poll : List (Option ℕ) → Poll (Option ℕ) × List (Option ℕ)
script_poll [] = (ready none, [])
script_poll (none ∷ s) = (pending, s)
script_poll (some a ∷ s) = (ready (some a), s)

abbrev pub items : List (Option ℕ) → ℕ
items [] = 0
items (none ∷ s) = items s
items (some a ∷ s) = suc (items s)

abbrev pub script : Stream (List (Option ℕ)) ℕ
script = record {
  poll_next = λ s. return (script_poll s);
  size_hint = λ s. (items s, some (items s));
  is_terminated = λ s. false;
}

-- A future that waits as many polls as the number says.
abbrev pub delay_poll {ℓ} : {B : Type ℓ} → ℕ × B → Poll B × (ℕ × B)
delay_poll (zero, b) = (ready b, (0, b))
delay_poll (suc n, b) = (pending, (n, b))

abbrev pub delay {ℓ} : {B : Type ℓ} → Future (ℕ × B) B
delay = record { poll = λ f. return (delay_poll f) }

pub delay_Resolves {ℓ} : {B : Type ℓ} (n : ℕ) (b : B) → Resolves delay (n, b) b
delay_Resolves zero b = resolve (return-Gives (ready b, (0, b)))
delay_Resolves (suc n) b = wait (return-Gives (pending, (n, b))) (delay_Resolves n b)

abbrev pub some_polls : List (Option ℕ)
some_polls = some 3 ∷ none ∷ some 8 ∷ some 5 ∷ none ∷ []

abbrev pub some_items : List ℕ
some_items = 3 ∷ 8 ∷ 5 ∷ []

pub some_polls_Yields : Yields script some_polls some_items
some_polls_Yields = item (return-Gives _) (
    wait (return-Gives _) (
      item (return-Gives _)
        (item (return-Gives _) (wait (return-Gives _) (finish (return-Gives _))))))

abbrev small : ℕ → Bool
small a = ltb a 6

abbrev ask : ℕ → ℕ × Bool
ask a = (2, small a)

asks : (a : ℕ) → Resolves delay (ask a) (small a)
asks a = delay_Resolves 2 (small a)

-- The item 4 waits for its future.
abbrev filtering : Filter (List (Option ℕ)) (ℕ × Bool) ℕ
filtering = record { stream = some_polls; pending_fut = some (1, true); pending_item = some 4 }

filter_yields_example :
    Yields (filter_stream script delay ask) filtering (4 ∷ 3 ∷ 5 ∷ [])
    × (Within (3, some 3) 3 → Within (Filter.size_hint script delay ask filtering) 3)
filter_yields_example =
    filter_yields script delay ask small asks filtering (some (4, true)) some_items
      (holds (delay_Resolves 1 true)) some_polls_Yields

filter_runs :
    ((filter_stream script delay ask).poll_next filtering).run 9
    ≡ returned (pending, record filtering { pending_fut = some (0, true) })
unfolding loop spin Filter.round ◌>>=◌ return
filter_runs = refl

chunks_yields_example :
    (css : List (List ℕ)) × Yields
      (chunks_stream script)
      (filling script 2 (1 ∷ []) (Fuse.new script some_polls))
      css
    × (joined css ≡ 1 ∷ 3 ∷ 8 ∷ 5 ∷ [])
    × Sized 2 css
    × Within
        (Chunks.size_hint script (filling script 2 (1 ∷ []) (Fuse.new script some_polls)))
        (length css)
chunks_yields_example =
    chunks_yields script 2 (1 ∷ []) some_polls some_items (omega arith) (omega arith)
      some_polls_Yields (omega arith, omega arith)

-- A stream of streams.
abbrev nested_poll :
    List (List (Option ℕ)) → Poll (Option (List (Option ℕ))) × List (List (Option ℕ))
nested_poll [] = (ready none, [])
nested_poll (u ∷ us) = (ready (some u), us)

abbrev nested : Stream (List (List (Option ℕ))) (List (Option ℕ))
nested = record {
  poll_next = λ s. return (nested_poll s);
  size_hint = λ s. (0, none);
  is_terminated = λ s. false;
}

zip_yields_example :
    Yields
      (zip_stream script script)
      (Zip.state script script (Zip.left 7) some_polls some_polls)
      ((7, 3) ∷ (3, 8) ∷ (8, 5) ∷ [])
    × Within
        (Zip.size_hint script script (Zip.state script script (Zip.left 7) some_polls some_polls))
        3
zip_yields_example =
    zip_yields script script (Zip.left 7) some_polls some_polls some_items some_items
      some_polls_Yields some_polls_Yields (omega arith, omega arith) (omega arith, omega arith)
      (omega arith) (omega arith)

abbrev add_later : ℕ → ℕ → ℕ × ℕ
add_later t a = (1, t + a)

abbrev stop : ℕ → ℕ → ℕ × Option (ℕ × ℕ)
stop t a = (0, none)

scan_hint_fails_example :
    Yields (scan_stream script delay stop) (Scan.new script delay stop some_polls 0) []
    × (0 < (Scan.size_hint script delay stop (Scan.new script delay stop some_polls 0)).0)
scan_hint_fails_example =
    scan_hint_fails script delay stop some_polls (none ∷ some 8 ∷ some 5 ∷ none ∷ []) 0 3
      (return-Gives _) (delay_Resolves 0 none) (omega arith)

split_at_example :
    Yields
      (chain_stream (take_stream script) (skip_stream script))
      (both
        (take_stream script)
        (skip_stream script)
        (taking script 2 some_polls)
        (skipping script 2 some_polls))
      some_items
split_at_example = split_at script 2 some_polls some_items some_polls_Yields

select_merges_example :
    (zs : List ℕ) × Fused script script round_robin
      (Select.new script script some_polls some_polls)
      zs
    × Interleaves some_items some_items zs
select_merges_example =
    select_merges script script round_robin some_polls some_polls left some_items some_items
      some_polls_Yields some_polls_Yields

-- The iterator of a list.
abbrev list_next : List ℕ → Option ℕ × List ℕ
list_next [] = (none, [])
list_next (a ∷ xs) = (some a, xs)

abbrev list_hint : List ℕ → ℕ × Option ℕ
list_hint xs = (length xs, some (length xs))

-- It counts down.
abbrev count_down : ℕ → ℕ × Option (ℕ × ℕ)
count_down n = if ltb 0 n then (1, some (n, n - 1)) else (0, none)

abbrev downwards : Stream (UnfoldState ℕ (ℕ × Option (ℕ × ℕ))) ℕ
downwards = unfold_stream delay count_down

unfold_example : Yields downwards (value 2) (2 ∷ 1 ∷ [])
unfold_example = unfold_yields delay count_down 2 (2 ∷ 1 ∷ []) (
    Unfold.goes_on (delay_Resolves 1 (some (2, 1)))
      (Unfold.goes_on (delay_Resolves 1 (some (1, 0))) (Unfold.stops (delay_Resolves 0 none))))

peekable-Leaves_example :
    Leaves script (peek_future script) (Peek.new script some_polls) (some 3) some_items
    × Leaves script
        (next_if_future script (λ n. ltb 4 n))
        (Peek.new script some_polls)
        none
        some_items
peekable-Leaves_example =
    peekable-Leaves script (λ n. ltb 4 n) some_polls some_items some_polls_Yields
