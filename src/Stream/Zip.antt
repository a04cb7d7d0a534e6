-- ===== src/Stream/Zip.antt =====
-- futures-util/src/stream/stream/zip.rs
use futures_rs.Prelude.{
  ℕ, ◌<◌, List, ◌∷◌, Option, none, some, Bool, ◌&&◌, ◌||◌, arith, length, min, zip, zip-nil,
  length-zip, is_some, if◌then◌else◌,
}
use futures_rs.Task.{Poll, ready, pending}
use futures_rs.Usize.{Within, from_bool, saturating_add, checked_add, usize_max}
use futures_rs.Run.{Run, return, ◌>>=◌, Gives, map-Gives, >>=-Gives, return-Gives}
use futures_rs.Stream.Fuse
use futures_rs.Stream.Fuse.{Fuse, ended, ended_Gives, new_Gives}
use futures_rs.Stream.{Stream, Yields, item, wait, finish}

pub record Zip {ℓ κ μ ν} (S : Type ℓ) (T : Type κ) (A : Type μ) (B : Type ν)
    : Type (ℓ ⊔ κ ⊔ μ ⊔ ν) where
  pub stream1 : Fuse S
  pub stream2 : Fuse T
  pub queued1 : Option A
  pub queued2 : Option B

-- The upper bound of `size_hint`.
abbrev pub upper_of : Option ℕ → Option ℕ → ℕ → ℕ → Option ℕ
upper_of (some x) (some y) n m = some (min (saturating_add x n) (saturating_add y m))
upper_of (some x) none n m = checked_add x n
upper_of none (some y) n m = checked_add y m
upper_of none none n m = none

module _ {ℓ κ μ ν} {S : Type ℓ} {T : Type κ} {A : Type μ} {B : Type ν} (st : Stream S A)
    (su : Stream T B) where
  abbrev pub queue1 : Zip S T A B → Poll (Option A) × Fuse S → Zip S T A B
  queue1 t (ready (some a), s) = record t { stream1 = s; queued1 = some a }
  queue1 t (ready none, s) = record t { stream1 = s }
  queue1 t (pending, s) = record t { stream1 = s }

  abbrev pub queue2 : Zip S T A B → Poll (Option B) × Fuse T → Zip S T A B
  queue2 t (ready (some b), u) = record t { stream2 = u; queued2 = some b }
  queue2 t (ready none, u) = record t { stream2 = u }
  queue2 t (pending, u) = record t { stream2 = u }

  -- The first `if` of `poll_next`, and the second.
  pub fill1 : Zip S T A B → Run (Zip S T A B)
  fill1 t = elim t.queued1 [
    | some _ ↦ return t
    | none ↦ Fuse.poll_next st t.stream1 >>= λ r. return (queue1 t r)
  ]

  pub fill2 : Zip S T A B → Run (Zip S T A B)
  fill2 t = elim t.queued2 [
    | some _ ↦ return t
    | none ↦ Fuse.poll_next su t.stream2 >>= λ r. return (queue2 t r)
  ]

  -- The last one, given what is queued.
  abbrev pub answer : Option A → Option B → Zip S T A B → Poll (Option (A × B)) × Zip S T A B
  answer (some a) (some b) t = (ready (some (a, b)), record t { queued1 = none; queued2 = none })
  answer q none t = if t.stream1.is_done || t.stream2.is_done then (ready none, t) else (pending, t)
  answer none q t = if t.stream1.is_done || t.stream2.is_done then (ready none, t) else (pending, t)

  pub poll_next : Zip S T A B → Run (Poll (Option (A × B)) × Zip S T A B)
  unfolding fill1 fill2
  poll_next t = do t1 ← fill1 t; t2 ← fill2 t1; return (answer t2.queued1 t2.queued2 t2)

  abbrev pub size_hint : Zip S T A B → ℕ × Option ℕ
  size_hint t =
      let queued1_len = from_bool (is_some t.queued1) in
      let queued2_len = from_bool (is_some t.queued2) in
      let (stream1_lower, stream1_upper) = Fuse.size_hint st t.stream1 in
      let (stream2_lower, stream2_upper) = Fuse.size_hint su t.stream2 in
      (
        min (saturating_add stream1_lower queued1_len) (saturating_add stream2_lower queued2_len),
        upper_of stream1_upper stream2_upper queued1_len queued2_len,
      )

  abbrev pub is_terminated : Zip S T A B → Bool
  is_terminated t = t.stream1.is_done && t.stream2.is_done

  abbrev pub zip_stream : Stream (Zip S T A B) (A × B)
  zip_stream = record {
    poll_next = poll_next;
    size_hint = size_hint;
    is_terminated = is_terminated;
  }

  abbrev pub at : Fuse S → Fuse T → Option A → Option B → Zip S T A B
  at s u q r = record { stream1 = s; stream2 = u; queued1 = q; queued2 = r }

  -- A poll of a zip, from what the polls of its streams give.
  polls :
      (t t1 t2 : Zip S T A B)
      → Gives (fill1 t) t1
      → Gives (fill2 t1) t2
      → Gives (poll_next t) (answer t2.queued1 t2.queued2 t2)
  unfolding poll_next
  polls t t1 t2 g h =
      >>=-Gives (λ t1. fill2 t1 >>= λ t2. return (answer t2.queued1 t2.queued2 t2)) g
        (map-Gives (λ (t2 : Zip S T A B). answer t2.queued1 t2.queued2 t2) h)

  fills1 :
      {s : S} {p : Poll (Option A) × S} (u : Fuse T) (r : Option B)
      → Gives (st.poll_next s) p
      → Gives
          (fill1 (at (Fuse.new st s) u none r))
          (queue1 (at (Fuse.new st s) u none r) (Fuse.on_item st (Fuse.new st s) p))
  unfolding fill1
  fills1 {s} u r g = map-Gives (queue1 (at (Fuse.new st s) u none r)) (new_Gives st g)

  fills2 :
      {u : T} {p : Poll (Option B) × T} (s : Fuse S) (q : Option A)
      → Gives (su.poll_next u) p
      → Gives
          (fill2 (at s (Fuse.new su u) q none))
          (queue2 (at s (Fuse.new su u) q none) (Fuse.on_item su (Fuse.new su u) p))
  unfolding fill2
  fills2 {u} s q g = map-Gives (queue2 (at s (Fuse.new su u) q none)) (new_Gives su g)

  keeps1 :
      (a : A) (s : Fuse S) (u : Fuse T) (r : Option B)
      → Gives (fill1 (at s u (some a) r)) (at s u (some a) r)
  unfolding fill1
  keeps1 a s u r = return-Gives (at s u (some a) r)

  keeps2 :
      (b : B) (s : Fuse S) (u : Fuse T) (q : Option A)
      → Gives (fill2 (at s u q (some b))) (at s u q (some b))
  unfolding fill2
  keeps2 b s u q = return-Gives (at s u q (some b))

  -- What is queued between two polls: nothing, or an item of one stream.
  pub data Queued : Type (μ ⊔ ν) where
    no_item : Queued
    left : A → Queued
    right : B → Queued

  abbrev pub state : Queued → S → T → Zip S T A B
  state no_item s u = at (Fuse.new st s) (Fuse.new su u) none none
  state (left a) s u = at (Fuse.new st s) (Fuse.new su u) (some a) none
  state (right b) s u = at (Fuse.new st s) (Fuse.new su u) none (some b)

  abbrev pub front1 : Queued → List A → List A
  front1 (left a) xs = a ∷ xs
  front1 _ xs = xs

  abbrev pub front2 : Queued → List B → List B
  front2 (right b) ys = b ∷ ys
  front2 _ ys = ys

  -- A poll when nothing is queued, from what the polls of both streams give.
  both :
      {s : S} {u : T} {p : Poll (Option A) × S} {r : Poll (Option B) × T}
      → Gives (st.poll_next s) p
      → Gives (su.poll_next u) r
      → let t1 = queue1 (state no_item s u) (Fuse.on_item st (Fuse.new st s) p) in
        let t2 = queue2 t1 (Fuse.on_item su (Fuse.new su u) r) in
        Gives (fill2 t1) t2
        → Gives (poll_next (state no_item s u)) (answer t2.queued1 t2.queued2 t2)
  both {s} {u} {p} {r} g h k = polls (state no_item s u) _ _ (fills1 (Fuse.new su u) none g) k

  -- A poll when an item of one stream is queued.
  after_left :
      (a : A) (s : S) {u : T} {r : Poll (Option B) × T}
      → Gives (su.poll_next u) r
      → let t2 = queue2 (state (left a) s u) (Fuse.on_item su (Fuse.new su u) r) in
        Gives (poll_next (state (left a) s u)) (answer t2.queued1 t2.queued2 t2)
  after_left a s {u} h =
      polls (state (left a) s u) (state (left a) s u) _
        (keeps1 a (Fuse.new st s) (Fuse.new su u) none) (fills2 (Fuse.new st s) (some a) h)

  keeps_queue1 :
      (b : B) (s : Fuse S) (u : Fuse T) (r : Poll (Option A) × Fuse S)
      → Gives (fill2 (queue1 (at s u none (some b)) r)) (queue1 (at s u none (some b)) r)
  keeps_queue1 b s u (ready (some a), s') = keeps2 b s' u (some a)
  keeps_queue1 b s u (ready none, s') = keeps2 b s' u none
  keeps_queue1 b s u (pending, s') = keeps2 b s' u none

  after_right :
      (b : B) {s : S} (u : T) {p : Poll (Option A) × S}
      → Gives (st.poll_next s) p
      → let t1 = queue1 (state (right b) s u) (Fuse.on_item st (Fuse.new st s) p) in
        Gives (poll_next (state (right b) s u)) (answer t1.queued1 t1.queued2 t1)
  after_right b {s} u {p} g =
      polls (state (right b) s u) _ _ (fills1 (Fuse.new su u) (some b) g)
        (keeps_queue1 b (Fuse.new st s) (Fuse.new su u) (Fuse.on_item st (Fuse.new st s) p))

  zip_Yields :
      (m : Queued) {s : S} {u : T} {xs : List A} {ys : List B}
      → Yields st s xs
      → Yields su u ys
      → Yields zip_stream (state m s u) (zip (front1 m xs) (front2 m ys))
  zip_Yields no_item {s} {u} (finish {s'} g) (finish h) =
      finish (both g h (fills2 (ended st s') none h))
  zip_Yields no_item {s} {u} (finish {s'} g) (wait h z) =
      finish (both g h (fills2 (ended st s') none h))
  zip_Yields no_item {s} {u} (finish {s'} g) (item h z) =
      finish (both g h (fills2 (ended st s') none h))
  zip_Yields no_item {s} {u} (wait {s'} {xs} g y) (finish h) =
      rw (zip-nil xs) (finish (both g h (fills2 (Fuse.new st s') none h)))
  zip_Yields no_item {s} {u} (wait {s'} g y) (wait h z) =
      wait (both g h (fills2 (Fuse.new st s') none h)) (zip_Yields no_item y z)
  zip_Yields no_item {s} {u} (wait {s'} g y) (item {a = b} h z) =
      wait (both g h (fills2 (Fuse.new st s') none h)) (zip_Yields (right b) y z)
  zip_Yields no_item {s} {u} (item {s'} {a} g y) (finish h) =
      finish (both g h (fills2 (Fuse.new st s') (some a) h))
  zip_Yields no_item {s} {u} (item {s'} {a} g y) (wait h z) =
      wait (both g h (fills2 (Fuse.new st s') (some a) h)) (zip_Yields (left a) y z)
  zip_Yields no_item {s} {u} (item {s'} {a} g y) (item h z) =
      item (both g h (fills2 (Fuse.new st s') (some a) h)) (zip_Yields no_item y z)
  zip_Yields (left a) {s} {u} y (finish h) = finish (after_left a s h)
  zip_Yields (left a) {s} {u} y (wait h z) = wait (after_left a s h) (zip_Yields (left a) y z)
  zip_Yields (left a) {s} {u} y (item h z) = item (after_left a s h) (zip_Yields no_item y z)
  zip_Yields (right b) {s} {u} (finish g) z = finish (after_right b u g)
  zip_Yields (right b) {s} {u} (wait g y) z = wait (after_right b u g) (zip_Yields (right b) y z)
  zip_Yields (right b) {s} {u} (item g y) z = item (after_right b u g) (zip_Yields no_item y z)

  hint_Within :
      (m : Queued) (s : S) (u : T) (xs : List A) (ys : List B)
      → Within (st.size_hint s) (length xs)
      → Within (su.size_hint u) (length ys)
      → length xs < usize_max
      → length ys < usize_max
      → Within (size_hint (state m s u)) (length (zip (front1 m xs) (front2 m ys)))
  hint_Within no_item s u xs ys v w l k = ground (arith, v, w, length-zip xs ys)
  hint_Within (left a) s u xs ys v w l k = ground (arith, v, w, length-zip (a ∷ xs) ys)
  hint_Within (right b) s u xs ys v w l k = ground (arith, v, w, length-zip xs (b ∷ ys))

  -- `zip` pairs the items of its streams up to the end of the shorter one, whatever `Pending` they
  -- give, also when one of them is ahead by an item. Its `size_hint` bounds the number of pairs if
  -- those of the streams bound theirs, for streams of fewer than 2^64 - 1 items.
  pub zip_yields :
      (m : Queued) (s : S) (u : T) (xs : List A) (ys : List B)
      → Yields st s xs
      → Yields su u ys
      → Within (st.size_hint s) (length xs)
      → Within (su.size_hint u) (length ys)
      → length xs < usize_max
      → length ys < usize_max
      → Yields zip_stream (state m s u) (zip (front1 m xs) (front2 m ys))
        × Within (size_hint (state m s u)) (length (zip (front1 m xs) (front2 m ys)))
  zip_yields m s u xs ys y z v w l k = (zip_Yields m y z, hint_Within m s u xs ys v w l k)
