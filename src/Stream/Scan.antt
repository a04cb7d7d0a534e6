-- ===== src/Stream/Scan.antt =====
-- futures-util/src/stream/stream/scan.rs, with futures-util/src/unfold_state.rs
use futures_rs.Prelude.{
  ℕ, ◌<◌, ◌≡◌, refl, List, [], ◌∷◌, Option, none, some, Bool, true, false, not, ◌&&◌, ◌||◌,
  if◌then◌else◌,
}
use futures_rs.Task.{Poll, ready, pending}
use futures_rs.Run.{Run, return, ◌>>=◌, Turn, again, done, Gives, map-Gives}
use futures_rs.Stream.{
  Future, Stream, Resolves, resolve, Yields, item, wait, finish, looped, again-Yields, item-Yields,
  wait-Yields, finish-Yields,
}

pub data UnfoldState {ℓ κ} (T : Type ℓ) (F : Type κ) : Type (ℓ ⊔ κ) where
  value : T → UnfoldState T F
  future : F → UnfoldState T F
  empty : UnfoldState T F

pub record Scan {ℓ κ μ} (S : Type ℓ) (T : Type κ) (F : Type μ) : Type (ℓ ⊔ κ ⊔ μ) where
  pub stream : S
  pub state : UnfoldState T F

-- `scan` on lists: the function goes on with the state that it returns, or stops.
abbrev pub scan {ℓ κ μ} :
    {A : Type ℓ} {T : Type κ} {B : Type μ} → (T → A → Option (T × B)) → T → List A → List B
scan g t [] = []
scan g t (x ∷ xs) = elim (g t x) [ none ↦ [] | some (t', b) ↦ b ∷ scan g t' xs ]

module _ {ℓ κ μ ν ρ} {S : Type ℓ} {T : Type κ} {F : Type μ} {A : Type ν} {B : Type ρ}
    (st : Stream S A) (fu : Future F (Option (T × B))) (f : T → A → F) where
  abbrev pub new : S → T → Scan S T F
  new s t = record { stream = s; state = value t }

  abbrev pub is_done_taking : UnfoldState T F → Bool
  is_done_taking empty = true
  is_done_taking _ = false

  -- The rest of a round when the future has been polled.
  abbrev pub on_fut : Scan S T F → Poll (Option (T × B)) × F → Turn (Scan S T F) (Poll (Option B))
  on_fut t (pending, fut) = done pending (record t { state = future fut })
  on_fut t (ready none, fut) = done (ready none) (record t { state = empty })
  on_fut t (ready (some (x, b)), fut) = done (ready (some b)) (record t { state = value x })

  -- The rest of a round when the stream has been polled, in the state `x`.
  abbrev pub on_item : T → Poll (Option A) × S → Turn (Scan S T F) (Poll (Option B))
  on_item x (pending, s) = done pending (record { stream = s; state = value x })
  on_item x (ready none, s) = done (ready none) (record { stream = s; state = value x })
  on_item x (ready (some a), s) = again (record { stream = s; state = future (f x a) })

  -- With the test of `is_done_taking`, which is `false` in every round of the loop.
  pub round : Scan S T F → Run (Turn (Scan S T F) (Poll (Option B)))
  round t = elim t.state [
    | empty ↦ return (done (ready none) t)
    | future fut ↦ fu.poll fut >>= λ r. return (on_fut t r)
    | value x ↦ st.poll_next t.stream >>= λ r. return (on_item x r)
  ]

  abbrev pub size_hint : Scan S T F → ℕ × Option ℕ
  size_hint t = if is_done_taking t.state then (0, some 0) else st.size_hint t.stream

  abbrev pub is_future : UnfoldState T F → Bool
  is_future (future fut) = true
  is_future _ = false

  abbrev pub is_terminated : Scan S T F → Bool
  is_terminated t = is_done_taking t.state || not (is_future t.state) && st.is_terminated t.stream

  abbrev pub scan_stream : Stream (Scan S T F) B
  scan_stream = looped round size_hint is_terminated

  abbrev pub holding : S → F → Scan S T F
  holding s fut = record { stream = s; state = future fut }

  none_Yields : {s : S} {fut : F} → Resolves fu fut none → Yields scan_stream (holding s fut) []
  unfolding round
  none_Yields {s} {fut} (resolve h) = finish-Yields round (map-Gives (on_fut (holding s fut)) h)
  none_Yields {s} {fut} (wait h r) =
      wait-Yields round (map-Gives (on_fut (holding s fut)) h) (none_Yields r)

  some_Yields :
      {s : S} {fut : F} {x : T} {b : B} {ys : List B}
      → Resolves fu fut (some (x, b))
      → Yields scan_stream (new s x) ys
      → Yields scan_stream (holding s fut) (b ∷ ys)
  unfolding round
  some_Yields {s} {fut} (resolve h) y = item-Yields round (map-Gives (on_fut (holding s fut)) h) y
  some_Yields {s} {fut} (wait h r) y =
      wait-Yields round (map-Gives (on_fut (holding s fut)) h) (some_Yields r y)

  module _ (g : T → A → Option (T × B)) (maps : (x : T) (a : A) → Resolves fu (f x a) (g x a)) where
    -- The state of the scan after the future for `a`.
    step_Yields :
        (x : T) (a : A) (xs : List A) (o : Option (T × B)) {s : S} {fut : F}
        → Resolves fu fut o
        → ((x' : T) → Yields scan_stream (new s x') (scan g x' xs))
        → o ≡ g x a
        → Yields scan_stream (holding s fut) (scan g x (a ∷ xs))
    step_Yields x a xs none r y e = rw (← e, scan) (none_Yields r)
    step_Yields x a xs (some (x', b)) r y e = rw (← e, scan) (some_Yields r (y x'))

    -- `scan` yields what the function makes of the items and of the states, up to where it stops.
    pub scan_yields :
        (x : T) {s : S} {xs : List A} → Yields st s xs → Yields scan_stream (new s x) (scan g x xs)
    unfolding round
    scan_yields x (finish h) = finish-Yields round (map-Gives (on_item x) h)
    scan_yields x (wait h y) = wait-Yields round (map-Gives (on_item x) h) (scan_yields x y)
    scan_yields x (item {a} {xs} h y) =
        again-Yields round (map-Gives (on_item x) h)
          (step_Yields x a xs (g x a) (maps x a) (λ x'. scan_yields x' y) refl)

  -- The `size_hint` of `scan` may promise too much. When the stream has an item, a lower bound above
  -- 0 for itself, and the future for its first item stops the scan, then the scan yields nothing,
  -- and its lower bound is above 0.
  pub scan_hint_fails :
      (s s' : S) (x : T) (a : A)
      → Gives (st.poll_next s) (ready (some a), s')
      → Resolves fu (f x a) none
      → 0 < (st.size_hint s).0
      → Yields scan_stream (new s x) [] × (0 < (size_hint (new s x)).0)
  unfolding round
  scan_hint_fails s s' x a g r lt =
      (again-Yields round (map-Gives (on_item x) g) (none_Yields r), lt)
