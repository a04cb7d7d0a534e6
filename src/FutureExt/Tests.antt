-- ===== src/FutureExt/Tests.antt =====
-- Runs of the combinators of futures-util/src/future over futures with a delay, and the theorems at
-- them.
use futures_rs.Prelude.{ℕ, ◌≡◌, refl, [], ◌∷◌, some, Bool, true}
use futures_rs.Task.{ready, pending}
use futures_rs.Run.{Gives, return, ◌>>=◌, returned, return-Gives}
use futures_rs.Stream.{Future, Resolves, Yields}
use futures_rs.Stream.Tests.{
  delay, delay_Resolves, script, some_polls, some_items, some_polls_Yields,
}
use futures_rs.FutureExt.MaybeDone
use futures_rs.FutureExt.MaybeDone.{future, finished, gone, unwrap}
use futures_rs.FutureExt.Join
use futures_rs.FutureExt.Join.{join_future, join_resolves}
use futures_rs.FutureExt.JoinAll
use futures_rs.FutureExt.JoinAll.{join_all_future, join_all_resolves, small, nil, cons}
use futures_rs.FutureExt.Select
use futures_rs.FutureExt.Select.{
  select_future, select_resolves, left, right, Waits, none_yet, once_more,
}
use futures_rs.FutureExt.Fuse.{fuse_once, OnlyOnce, waits}
use futures_rs.FutureExt.Flatten
use futures_rs.FutureExt.Flatten.{flatten_stream, flatten_yields}

abbrev numbers : Future (ℕ × ℕ) ℕ
numbers = delay

abbrev flags : Future (ℕ × Bool) Bool
flags = delay

-- The second future is done, and is not polled again.
join_runs :
    ((join_future numbers flags).poll (Join.new numbers flags (1, 7) (0, true))).run 1
    ≡ returned (pending, record { fut1 = future (0, 7); fut2 = finished true })
unfolding Join.poll Join.outputs MaybeDone.poll ◌>>=◌ return
join_runs = refl

join_all_runs :
    ((join_all_future numbers).poll (small ((0, 4) ∷ (0, 5) ∷ []))).run 1
    ≡ returned (ready (4 ∷ 5 ∷ []), [])
unfolding JoinAll.poll JoinAll.poll_elems JoinAll.outputs JoinAll.take_outputs MaybeDone.poll ◌>>=◌
    return
join_all_runs = refl

join_all_resolves_example :
    Resolves (join_all_future numbers) (small ((1, 4) ∷ (3, 5) ∷ (0, 6) ∷ [])) (4 ∷ 5 ∷ 6 ∷ [])
join_all_resolves_example =
    join_all_resolves numbers ((1, 4) ∷ (3, 5) ∷ (0, 6) ∷ []) (4 ∷ 5 ∷ 6 ∷ [])
      (cons (delay_Resolves 1 4) (cons (delay_Resolves 3 5) (cons (delay_Resolves 0 6) nil)))

-- Both are ready in the second poll, or only the second one is.
select_resolves_example :
    (Gives (numbers.poll (0, 7)) (ready 7, (0, 7))
      → Resolves
          (select_future numbers flags)
          (Select.new numbers flags (1, 7) (1, true))
          (left (7, (0, true))))
    × (Gives (numbers.poll (0, 7)) (pending, (0, 7))
        → Gives (flags.poll (0, true)) (ready true, (0, true))
        → Resolves
            (select_future numbers flags)
            (Select.new numbers flags (1, 7) (1, true))
            (right (true, (0, 7))))
select_resolves_example =
    select_resolves numbers flags 1 (1, 7) (0, 7) (0, 7) (1, true) (0, true) (0, true) 7 true
      (once_more (return-Gives _) none_yet) (once_more (return-Gives _) none_yet)

fuse_once_example : OnlyOnce numbers (waits numbers (delay_Resolves 1 7)) (some (1, 7)) 7
fuse_once_example = fuse_once numbers (1, 7) 7 (delay_Resolves 1 7)

flatten_yields_example :
    Yields (flatten_stream delay script) (Flatten.new (2, some_polls)) some_items
flatten_yields_example =
    flatten_yields delay script (2, some_polls) some_polls some_items (delay_Resolves 2 some_polls)
      some_polls_Yields
