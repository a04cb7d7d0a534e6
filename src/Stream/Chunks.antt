-- ===== src/Stream/Chunks.antt =====
-- futures-util/src/stream/stream/chunks.rs
use native.Mathlib.Nat.{mul-suc, div-le_of_le-mul, div-lt_iff_lt-mul, mul_comm}
use mathlib.Core.List.{append_assoc, append-nil}
use futures_rs.Prelude.{
  ℕ, suc, ◌+◌, ◌/◌, ◌≤◌, ◌<◌, ◌≡◌, refl, ap, ◌∙◌, List, [], ◌∷◌, ◌++◌, Option, none, some, Bool,
  true, false, not, ◌&&◌, arith, length, if_elim, ltb, leb, length-append, ◌*◌, if◌then◌else◌,
}
use futures_rs.Task.{Poll, ready, pending}
use futures_rs.Usize.{upper_add, Within, from_bool, saturating_add}
use futures_rs.Run.{Run, return, ◌>>=◌, Turn, again, done, Gives, map-Gives}
use futures_rs.Stream.Fuse
use futures_rs.Stream.Fuse.{Fuse, ended, ended_Gives, new_Gives}
use futures_rs.Stream.{
  Stream, Yields, item, wait, finish, looped, again-Yields, item-Yields, wait-Yields, finish-Yields,
}

pub record Chunks {ℓ κ} (S : Type ℓ) (A : Type κ) : Type (ℓ ⊔ κ) where
  pub stream : Fuse S
  pub items : List A
  pub cap : ℕ

-- The items in chunks of `cap`, from a chunk that has been begun.
abbrev pub chunks {ℓ} : {A : Type ℓ} → ℕ → List A → List A → List (List A)
chunks cap [] [] = []
chunks cap (b ∷ bs) [] = (b ∷ bs) ∷ []
chunks cap bs (x ∷ xs) =
    if leb cap (length (bs ++ x ∷ []))
    then (bs ++ x ∷ []) ∷ chunks cap [] xs
    else chunks cap (bs ++ x ∷ []) xs

abbrev pub is_empty {ℓ} : {A : Type ℓ} → List A → Bool
is_empty [] = true
is_empty (x ∷ xs) = false

-- What is left when the stream has ended.
abbrev pub last {ℓ} : {A : Type ℓ} → List A → Option (List A)
last [] = none
last (x ∷ xs) = some (x ∷ xs)

module _ {ℓ κ} {S : Type ℓ} {A : Type κ} (st : Stream S A) where
  -- `none` is the failed assertion.
  abbrev pub new : S → ℕ → Option (Chunks S A)
  new s capacity =
      if ltb 0 capacity
      then some (record { stream = Fuse.new st s; items = []; cap = capacity })
      else none

  -- The rest of a round.
  abbrev pub on_item :
      Chunks S A → Poll (Option A) × Fuse S → Turn (Chunks S A) (Poll (Option (List A)))
  on_item t (pending, s) = done pending (record t { stream = s })
  on_item t (ready (some a), s) =
      let items = t.items ++ a ∷ [] in
      if leb t.cap (length items)
      then done (ready (some items)) (record t { stream = s; items = [] })
      else again (record t { stream = s; items = items })
  on_item t (ready none, s) = done (ready (last t.items)) (record t { stream = s; items = [] })

  pub round : Chunks S A → Run (Turn (Chunks S A) (Poll (Option (List A))))
  round t = Fuse.poll_next st t.stream >>= λ r. return (on_item t r)

  abbrev pub size_hint : Chunks S A → ℕ × Option ℕ
  size_hint t =
      let (lower, upper) = Fuse.size_hint st t.stream in
      let chunk_len = from_bool (not (is_empty t.items)) in
      (saturating_add (lower / t.cap) chunk_len, upper_add upper chunk_len)

  abbrev pub is_terminated : Chunks S A → Bool
  is_terminated t = t.stream.is_done && is_empty t.items

  abbrev pub chunks_stream : Stream (Chunks S A) (List A)
  chunks_stream = looped round size_hint is_terminated

  abbrev pub filling : ℕ → List A → Fuse S → Chunks S A
  filling cap bs s = record { stream = s; items = bs; cap = cap }

  -- After the end.
  ended_Yields : (cap : ℕ) (s : S) → Yields chunks_stream (filling cap [] (ended st s)) []
  unfolding round
  ended_Yields cap s =
      finish-Yields round (map-Gives (on_item (filling cap [] (ended st s))) (ended_Gives st s))

  -- The end of the stream.
  last_Yields :
      (cap : ℕ) (bs : List A) {s s' : S}
      → Gives (st.poll_next s) (ready none, s')
      → Yields chunks_stream (filling cap bs (Fuse.new st s)) (chunks cap bs [])
  unfolding round
  last_Yields cap [] {s} g =
      finish-Yields round (map-Gives (on_item (filling cap [] (Fuse.new st s))) (new_Gives st g))
  last_Yields cap (b ∷ bs) {s} {s'} g =
      item-Yields round
        (map-Gives (on_item (filling cap (b ∷ bs) (Fuse.new st s))) (new_Gives st g))
        (ended_Yields cap s')

  -- The next item.
  next_Yields :
      (cap : ℕ) (bs : List A) (x : A) (xs : List A) {s s' : S}
      → Gives (st.poll_next s) (ready (some x), s')
      → ((cs : List A) → Yields chunks_stream (filling cap cs (Fuse.new st s')) (chunks cap cs xs))
      → Yields chunks_stream (filling cap bs (Fuse.new st s)) (chunks cap bs (x ∷ xs))
  unfolding round
  next_Yields cap bs x xs {s} {s'} g y =
      go (leb cap (length (bs ++ x ∷ [])))
        (map-Gives (on_item (filling cap bs (Fuse.new st s))) (new_Gives st g))
    where
      go :
          (b : Bool)
          → Gives (round (filling cap bs (Fuse.new st s))) (
              if b
              then done (ready (some (bs ++ x ∷ []))) (filling cap [] (Fuse.new st s'))
              else again (filling cap (bs ++ x ∷ []) (Fuse.new st s')))
          → Yields chunks_stream
              (filling cap bs (Fuse.new st s))
              (if b then (bs ++ x ∷ []) ∷ chunks cap [] xs else chunks cap (bs ++ x ∷ []) xs)
      go true h = item-Yields round h (y [])
      go false h = again-Yields round h (y (bs ++ x ∷ []))

  pub chunks_Yields :
      (cap : ℕ) (bs : List A) {s : S} {xs : List A}
      → Yields st s xs
      → Yields chunks_stream (filling cap bs (Fuse.new st s)) (chunks cap bs xs)
  unfolding round
  chunks_Yields cap bs (finish g) = last_Yields cap bs g
  chunks_Yields cap bs {s} (wait g y) =
      wait-Yields round (map-Gives (on_item (filling cap bs (Fuse.new st s))) (new_Gives st g))
        (chunks_Yields cap bs y)
  chunks_Yields cap bs (item {a} {xs} g y) =
      next_Yields cap bs a xs g (λ cs. chunks_Yields cap cs y)

-- The chunks joined.
abbrev pub joined {ℓ} : {A : Type ℓ} → List (List A) → List A
joined [] = []
joined (c ∷ cs) = c ++ joined cs

-- All chunks have `cap` items, but the last may have fewer, though not none.
abbrev pub Sized {ℓ} : {A : Type ℓ} → ℕ → List (List A) → Type 0
Sized cap [] = Unit {0}
Sized cap (c ∷ []) = (0 < length c) × (length c ≤ cap)
Sized cap (c ∷ d ∷ ds) = (length c ≡ cap) × Sized cap (d ∷ ds)

Sized-cons {ℓ} :
    {A : Type ℓ} (cap : ℕ) (c : List A) (cs : List (List A))
    → 0 < cap
    → length c ≡ cap
    → Sized cap cs
    → Sized cap (c ∷ cs)
Sized-cons cap c [] lt e h = (omega arith, omega arith)
Sized-cons cap c (d ∷ ds) lt e h = (e, h)

joined-chunks {ℓ} : {A : Type ℓ} (cap : ℕ) (bs xs : List A) → joined (chunks cap bs xs) ≡ bs ++ xs
joined-chunks cap [] [] = refl
joined-chunks cap (b ∷ bs) [] = refl
joined-chunks cap bs (x ∷ xs) =
    if_elim (λ css. joined css ≡ bs ++ x ∷ xs) (leb cap (length (bs ++ x ∷ [])))
      (λ h. rw (joined-chunks cap [] xs) (append_assoc bs (x ∷ []) xs))
      (λ h. joined-chunks cap (bs ++ x ∷ []) xs ∙ append_assoc bs (x ∷ []) xs)

chunks-Sized {ℓ} :
    {A : Type ℓ} (cap : ℕ) (bs xs : List A)
    → 0 < cap
    → length bs < cap
    → Sized cap (chunks cap bs xs)
chunks-Sized cap [] [] lt l = tt
chunks-Sized cap (b ∷ bs) [] lt l = (omega arith, omega arith)
chunks-Sized cap bs (x ∷ xs) lt l =
    if_elim (Sized cap) (leb cap (length (bs ++ x ∷ [])))
      (λ h.
        Sized-cons cap (bs ++ x ∷ []) (chunks cap [] xs) lt
          (ground (arith, length-append bs (x ∷ []))) (chunks-Sized cap [] xs lt lt))
      (λ h. chunks-Sized cap (bs ++ x ∷ []) xs lt (ground (arith, length-append bs (x ∷ []))))

joined-le {ℓ} :
    {A : Type ℓ} (cap : ℕ) (css : List (List A))
    → Sized cap css
    → length (joined css) ≤ cap * length css
joined-le cap [] h = omega arith
joined-le cap (c ∷ []) h = ground (arith, append-nil c)
joined-le cap (c ∷ d ∷ ds) h = omega (
  arith,
  length-append c (d ++ joined ds),
  joined-le cap (d ∷ ds) h.1,
  h.0,
  mul-suc cap (suc (length ds)),
)

from_bool-le : (b : Bool) → from_bool b ≤ 1
from_bool-le b = ground arith

length-chunks {ℓ} :
    {A : Type ℓ} (cap : ℕ) (bs xs : List A)
    → length (chunks cap bs xs) ≤ length xs + from_bool (not (is_empty bs))
length-chunks cap [] [] = omega arith
length-chunks cap (b ∷ bs) [] = omega arith
length-chunks cap bs (x ∷ xs) =
    if_elim (λ css. length css ≤ suc (length xs) + from_bool (not (is_empty bs)))
      (leb cap (length (bs ++ x ∷ []))) (λ h. omega (arith, length-chunks cap [] xs))
      (λ h.
        omega (
          arith,
          length-chunks cap (bs ++ x ∷ []) xs,
          from_bool-le (not (is_empty (bs ++ x ∷ []))),
        ))

-- Enough chunks for `lower` items that are to come.
div-le-chunks {ℓ} :
    {A : Type ℓ} (cap lower : ℕ) (bs xs : List A)
    → 0 < cap
    → length bs < cap
    → lower ≤ length xs
    → lower / cap + from_bool (not (is_empty bs)) ≤ length (chunks cap bs xs)
div-le-chunks cap lower bs xs lt l h = go bs (all bs l)
  where
    all : (bs : List _) → length bs < cap → length bs + length xs ≤ cap * length (chunks cap bs xs)
    all bs l = omega (
      arith,
      joined-le cap (chunks cap bs xs) (chunks-Sized cap bs xs lt l),
      ap length (joined-chunks cap bs xs),
      length-append bs xs,
    )

    go :
        (bs : List _)
        → length bs + length xs ≤ cap * length (chunks cap bs xs)
        → lower / cap + from_bool (not (is_empty bs)) ≤ length (chunks cap bs xs)
    go [] a =
        omega
          (arith, div-le_of_le-mul cap {m = lower} {n = length (chunks cap [] xs)} (omega arith))
    go (b ∷ bs) a = omega (
      arith,
      (div-lt_iff_lt-mul {k = cap} {x = lower} {y = length (chunks cap (b ∷ bs) xs)} lt).1
          (omega (arith, mul_comm cap (length (chunks cap (b ∷ bs) xs)))),
    )

module _ {ℓ κ} {S : Type ℓ} {A : Type κ} (st : Stream S A) where
  -- `chunks` yields the items joined in lists of `cap` items each, but the last, which may be
  -- shorter and is not empty; a chunk may have been begun. Its `size_hint` bounds their number if
  -- the stream's bounds what is left.
  pub chunks_yields :
      (cap : ℕ) (bs : List A) (s : S) (xs : List A)
      → 0 < cap
      → length bs < cap
      → Yields st s xs
      → Within (st.size_hint s) (length xs)
      → (css : List (List A)) × Yields (chunks_stream st) (filling st cap bs (Fuse.new st s)) css
        × (joined css ≡ bs ++ xs)
        × Sized cap css
        × Within (size_hint st (filling st cap bs (Fuse.new st s))) (length css)
  chunks_yields cap bs s xs lt l y w = (
    chunks cap bs xs,
    chunks_Yields st cap bs y,
    joined-chunks cap bs xs,
    chunks-Sized cap bs xs lt l,
    ground (arith, w, div-le-chunks cap (st.size_hint s).0 bs xs lt l, length-chunks cap bs xs),
  )
