-- ===== src/Stream/Skip.antt =====
-- futures-util/src/stream/stream/skip.rs
use futures_rs.Prelude.{
  ℕ, zero, suc, ◌-◌, subst, List, Option, none, some, arith, length, drop, ltb, zero-ltb-suc,
  pred-suc, length-drop, if◌then◌else◌,
}
use futures_rs.Task.{Poll, ready, pending}
use futures_rs.Usize.{Within}
use futures_rs.Run.{Run, return, ◌>>=◌, Turn, again, done, Gives, map-Gives}
use futures_rs.Stream.{
  Stream, Yields, item, wait, finish, looped, again-Yields, item-Yields, wait-Yields, finish-Yields,
}

pub record Skip {ℓ} (S : Type ℓ) : Type ℓ where
  pub stream : S
  pub remaining : ℕ

module _ {ℓ κ} {S : Type ℓ} {A : Type κ} (st : Stream S A) where
  -- The rest of a round of the `while`.
  abbrev pub on_item : Skip S → Poll (Option A) × S → Turn (Skip S) (Poll (Option A))
  on_item t (pending, s) = done pending (record t { stream = s })
  on_item t (ready none, s) = done (ready none) (record t { stream = s })
  on_item t (ready (some a), s) = again (record { stream = s; remaining = t.remaining - 1 })

  -- The poll after the `while`.
  abbrev pub on_pass : Skip S → Poll (Option A) × S → Turn (Skip S) (Poll (Option A))
  on_pass t (r, s) = done r (record t { stream = s })

  pub round : Skip S → Run (Turn (Skip S) (Poll (Option A)))
  round t =
      if ltb 0 t.remaining
      then (st.poll_next t.stream >>= λ r. return (on_item t r))
      else (st.poll_next t.stream >>= λ r. return (on_pass t r))

  -- `saturating_sub`
  abbrev pub upper_sub : Option ℕ → ℕ → Option ℕ
  upper_sub none n = none
  upper_sub (some x) n = some (x - n)

  abbrev pub size_hint : Skip S → ℕ × Option ℕ
  size_hint t =
      let (lower, upper) = st.size_hint t.stream in
      (lower - t.remaining, upper_sub upper t.remaining)

  abbrev pub skip_stream : Stream (Skip S) A
  skip_stream = looped round size_hint (λ t. st.is_terminated t.stream)

  abbrev pub skipping : ℕ → S → Skip S
  skipping n s = record { stream = s; remaining = n }

  -- A round while there is something left to skip.
  skips :
      (n : ℕ) {s : S} {r : Poll (Option A) × S}
      → Gives (st.poll_next s) r
      → Gives (round (skipping (suc n) s)) (on_item (skipping (suc n) s) r)
  unfolding round
  skips n {s} g = rw (zero-ltb-suc n) (map-Gives (on_item (skipping (suc n) s)) g)

  pub skip_Yields :
      (n : ℕ) {s : S} {xs : List A} → Yields st s xs → Yields skip_stream (skipping n s) (drop n xs)
  unfolding round
  skip_Yields zero {s} (finish g) = finish-Yields round (map-Gives (on_pass (skipping 0 s)) g)
  skip_Yields zero {s} (wait g y) =
      wait-Yields round (map-Gives (on_pass (skipping 0 s)) g) (skip_Yields 0 y)
  skip_Yields zero {s} (item g y) =
      item-Yields round (map-Gives (on_pass (skipping 0 s)) g) (skip_Yields 0 y)
  skip_Yields (suc n) (finish g) = finish-Yields round (skips n g)
  skip_Yields (suc n) (wait g y) = wait-Yields round (skips n g) (skip_Yields (suc n) y)
  skip_Yields (suc n) (item {s'} {xs} g y) =
      again-Yields round (skips n g)
        (subst (λ m. Yields skip_stream (skipping m s') (drop n xs)) (pred-suc n) (skip_Yields n y))

  pub skip_hint :
      (n : ℕ) (s : S) (xs : List A)
      → Within (st.size_hint s) (length xs)
      → Within (size_hint (skipping n s)) (length (drop n xs))
  skip_hint n s xs w = ground (arith, w, length-drop n xs)
