-- ===== src/Stream/Collect.antt =====
-- futures-util/src/stream/stream/collect.rs, concat.rs and count.rs: the futures that gather all items
use futures_rs.Prelude.{
  ℕ, ◌+◌, ◌%◌, ◌<◌, subst, List, [], ◌++◌, Option, none, some, arith, length, foldl,
}
use futures_rs.Task.{Poll, ready, pending}
use futures_rs.Usize.{usize_mod}
use futures_rs.Run.{Run, return, ◌>>=◌, Turn, again, done, map-Gives}
use futures_rs.Stream.{
  Future, Stream, Resolves, Yields, item, wait, finish, looped_future, again-Resolves,
  wait-Resolves, done-Resolves,
}

-- A collection that starts empty and is extended with one item.
pub record Collect {ℓ κ} (S : Type ℓ) (C : Type κ) : Type (ℓ ⊔ κ) where
  pub stream : S
  pub collection : C

pub record Concat {ℓ κ} (S : Type ℓ) (A : Type κ) : Type (ℓ ⊔ κ) where
  pub stream : S
  pub accum : Option (List A)

pub record Count {ℓ} (S : Type ℓ) : Type ℓ where
  pub stream : S
  pub count : ℕ

-- `Default::default` and `extend` are those of the collection.
module _ {ℓ κ μ} {S : Type ℓ} {A : Type κ} {C : Type μ} (st : Stream S A) (default : C)
    (extend : C → A → C) where
  abbrev pub collecting : S → C → Collect S C
  collecting s c = record { stream = s; collection = c }

  abbrev pub on_collect : C → Poll (Option A) × S → Turn (Collect S C) (Poll C)
  on_collect c (pending, s) = done pending (collecting s c)
  on_collect c (ready none, s) = done (ready c) (collecting s default)
  on_collect c (ready (some a), s) = again (collecting s (extend c a))

  pub collect_round : Collect S C → Run (Turn (Collect S C) (Poll C))
  collect_round t = st.poll_next t.stream >>= λ r. return (on_collect t.collection r)

  abbrev pub collect_future : Future (Collect S C) C
  collect_future = looped_future collect_round

  pub collect_resolves :
      (c : C) {s : S} {xs : List A}
      → Yields st s xs
      → Resolves collect_future (collecting s c) (foldl extend c xs)
  unfolding collect_round
  collect_resolves c (finish h) = done-Resolves collect_round (map-Gives (on_collect c) h)
  collect_resolves c (wait h y) =
      wait-Resolves collect_round (map-Gives (on_collect c) h) (collect_resolves c y)
  collect_resolves c (item {a} h y) =
      again-Resolves collect_round (map-Gives (on_collect c) h) (collect_resolves (extend c a) y)

module _ {ℓ κ} {S : Type ℓ} {A : Type κ} (st : Stream S (List A)) where
  abbrev pub concatenating : S → Option (List A) → Concat S A
  concatenating s o = record { stream = s; accum = o }

  -- `accum.take().unwrap_or_default()`
  abbrev pub unwrap_or_default : Option (List A) → List A
  unwrap_or_default none = []
  unwrap_or_default (some a) = a

  abbrev pub on_concat :
      Option (List A) → Poll (Option (List A)) × S → Turn (Concat S A) (Poll (List A))
  on_concat o (pending, s) = done pending (concatenating s o)
  on_concat o (ready none, s) = done (ready (unwrap_or_default o)) (concatenating s none)
  on_concat (some a) (ready (some e), s) = again (concatenating s (some (a ++ e)))
  on_concat none (ready (some e), s) = again (concatenating s (some e))

  pub concat_round : Concat S A → Run (Turn (Concat S A) (Poll (List A)))
  concat_round t = st.poll_next t.stream >>= λ r. return (on_concat t.accum r)

  abbrev pub concat_future : Future (Concat S A) (List A)
  concat_future = looped_future concat_round

  pub concat_resolves :
      (o : Option (List A)) {s : S} {xs : List (List A)}
      → Yields st s xs
      → Resolves concat_future (concatenating s o) (foldl ◌++◌ (unwrap_or_default o) xs)
  unfolding concat_round
  concat_resolves o (finish h) = done-Resolves concat_round (map-Gives (on_concat o) h)
  concat_resolves o (wait h y) =
      wait-Resolves concat_round (map-Gives (on_concat o) h) (concat_resolves o y)
  concat_resolves none (item {a} h y) =
      again-Resolves concat_round (map-Gives (on_concat none) h) (concat_resolves (some a) y)
  concat_resolves (some c) (item {a} h y) =
      again-Resolves concat_round (map-Gives (on_concat (some c)) h)
        (concat_resolves (some (c ++ a)) y)

module _ {ℓ κ} {S : Type ℓ} {A : Type κ} (st : Stream S A) where
  abbrev pub counting : S → ℕ → Count S
  counting s n = record { stream = s; count = n }

  -- `count += 1` wraps around.
  abbrev pub on_count : ℕ → Poll (Option A) × S → Turn (Count S) (Poll ℕ)
  on_count n (pending, s) = done pending (counting s n)
  on_count n (ready none, s) = done (ready n) (counting s n)
  on_count n (ready (some a), s) = again (counting s ((n + 1) % usize_mod))

  pub count_round : Count S → Run (Turn (Count S) (Poll ℕ))
  count_round t = st.poll_next t.stream >>= λ r. return (on_count t.count r)

  abbrev pub count_future : Future (Count S) ℕ
  count_future = looped_future count_round

  pub count_resolves :
      (n : ℕ) {s : S} {xs : List A}
      → n < usize_mod
      → Yields st s xs
      → Resolves count_future (counting s n) ((n + length xs) % usize_mod)
  unfolding count_round
  count_resolves n {s} lt (finish h) =
      subst (Resolves count_future (counting s n)) (omega arith)
        (done-Resolves count_round (map-Gives (on_count n) h))
  count_resolves n {s} lt (wait h y) =
      wait-Resolves count_round (map-Gives (on_count n) h) (count_resolves n lt y)
  count_resolves n {s} lt (item {xs} h y) =
      subst (Resolves count_future (counting s n)) (omega arith) (
        again-Resolves count_round (map-Gives (on_count n) h)
          (count_resolves ((n + 1) % usize_mod) (omega arith) y))
