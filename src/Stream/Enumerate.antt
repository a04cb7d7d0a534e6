-- ===== src/Stream/Enumerate.antt =====
-- futures-util/src/stream/stream/enumerate.rs
use futures_rs.Prelude.{ℕ, ◌+◌, ◌%◌, ◌<◌, subst, List, [], ◌∷◌, Option, none, some, arith, length}
use futures_rs.Task.{Poll, ready, pending}
use futures_rs.Usize.{usize_mod}
use futures_rs.Run.{Run, return, ◌>>=◌, map-Gives}
use futures_rs.Stream.{Stream, Yields, item, wait, finish}

pub record Enumerate {ℓ} (S : Type ℓ) : Type ℓ where
  pub stream : S
  pub count : ℕ

-- `enumerate` on lists, from a number on.
abbrev pub enumerate {ℓ} : {A : Type ℓ} → ℕ → List A → List (ℕ × A)
enumerate n [] = []
enumerate n (x ∷ xs) = (n, x) ∷ enumerate (n + 1) xs

module _ {ℓ κ} {S : Type ℓ} {A : Type κ} (st : Stream S A) where
  abbrev pub counting : S → ℕ → Enumerate S
  counting s n = record { stream = s; count = n }

  -- `count += 1` wraps around.
  abbrev pub on_item : Enumerate S → Poll (Option A) × S → Poll (Option (ℕ × A)) × Enumerate S
  on_item t (pending, s) = (pending, record t { stream = s })
  on_item t (ready none, s) = (ready none, record t { stream = s })
  on_item t (ready (some a), s) =
      (ready (some (t.count, a)), record { stream = s; count = (t.count + 1) % usize_mod })

  pub poll_next : Enumerate S → Run (Poll (Option (ℕ × A)) × Enumerate S)
  poll_next t = st.poll_next t.stream >>= λ r. return (on_item t r)

  abbrev pub enumerate_stream : Stream (Enumerate S) (ℕ × A)
  enumerate_stream = record {
    poll_next = poll_next;
    size_hint = λ t. st.size_hint t.stream;
    is_terminated = λ t. st.is_terminated t.stream;
  }

  pub enumerate_Yields :
      (n : ℕ) {s : S} {xs : List A}
      → Yields st s xs
      → n + length xs < usize_mod
      → Yields enumerate_stream (counting s n) (enumerate n xs)
  unfolding poll_next
  enumerate_Yields n {s} (finish g) lt = finish (map-Gives (on_item (counting s n)) g)
  enumerate_Yields n {s} (wait g y) lt =
      wait (map-Gives (on_item (counting s n)) g) (enumerate_Yields n y lt)
  enumerate_Yields n {s} (item {s'} {xs} g y) lt = item (map-Gives (on_item (counting s n)) g) (
      subst (λ m. Yields enumerate_stream (counting s' m) (enumerate (n + 1) xs)) (omega arith)
        (enumerate_Yields (n + 1) y (omega arith)))
