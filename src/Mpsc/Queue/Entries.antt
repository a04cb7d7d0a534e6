-- ===== src/Mpsc/Queue/Entries.antt =====
-- The nodes of futures-channel/src/mpsc/queue.rs on the heap, while producers stand between the two
-- steps of `push`.
use futures_rs.Prelude.{
  ℕ, suc, ◌<◌, ◌≡◌, refl, ◌≢◌, ◌⊎◌, inl, inr, List, [], ◌∷◌, ◌++◌, Option, none, some, Bool, false,
  ◌==◌, ◌||◌, if◌then◌else◌, update, arith,
}
use futures_rs.Mpsc.Queue.{Node, Queue, gives, deref, node}

pub ==-false : (a b : ℕ) → b < a → (a == b) ≡ false
==-false a b h = ground arith

-- A node behind `tail`, oldest first: its value, and whether the node before it points to it.
pub record Entry {ℓ} (A : Type ℓ) : Type ℓ where
  pub addr : ℕ
  pub value : A
  pub linked : Bool

module _ {ℓ} {A : Type ℓ} where
  abbrev pub link_of : Entry A → Option ℕ
  link_of e = if e.linked then some e.addr else none

  -- From the node at `a`, which holds `v`, the entries `es` lead to the node at `b`, the last.
  abbrev pub Linked : (ℕ → Option (Node A)) → ℕ → Option A → List (Entry A) → ℕ → Type ℓ
  Linked h a v [] b = (a ≡ b) × (h a ≡ some (record { next = none; value = v }))
  Linked h a v (e ∷ es) b =
      (a < e.addr)
      × (h a ≡ some (record { next = link_of e; value = v }))
      × Linked h e.addr (some e.value) es b

  pub record Holds (q : Queue A) (es : List (Entry A)) : Type ℓ where
    pub chain : Linked q.heap q.tail none es q.head
    pub bound : q.head < q.fresh

  -- A producer stands between its steps: `n` follows `prev`, which does not point to it yet.
  abbrev pub Awaits : ℕ → List (Entry A) → ℕ → ℕ → Type 0
  Awaits a [] prev n = ⊥
  Awaits a (e ∷ es) prev n =
      ((a ≡ prev) × (e.addr ≡ n) × (e.linked ≡ false)) ⊎ Awaits e.addr es prev n

  -- The entries once the producer of node `n` has made its second step.
  abbrev pub mark : ℕ → List (Entry A) → List (Entry A)
  mark n [] = []
  mark n (e ∷ es) = record e { linked = e.linked || e.addr == n } ∷ mark n es

  pub Linked-frame :
      (h : ℕ → Option (Node A)) (a : ℕ) (v : Option A) (es : List (Entry A)) (b c : ℕ)
      (o : Option (Node A))
      → c < a
      → Linked h a v es b
      → Linked (update h c o) a v es b
  Linked-frame h a v [] b c o lt l = ground arith
  Linked-frame h a v (e ∷ es) b c o lt (up, at, l) =
      (up, ground arith, Linked-frame h e.addr (some e.value) es b c o (omega arith) l)

  pub Linked-le :
      (h : ℕ → Option (Node A)) (a : ℕ) (v : Option A) (es : List (Entry A)) (b : ℕ)
      → Linked h a v es b
      → a < suc b
  Linked-le h a v [] b l = omega arith
  Linked-le h a v (e ∷ es) b (up, at, l) = omega (arith, Linked-le h e.addr (some e.value) es b l)

  pub deref-some :
      (h : ℕ → Option (Node A)) (a : ℕ) (n : Node A) → h a ≡ some n → deref h a ≡ gives n
  deref-some h a n e = rw (e, deref) refl

  -- A node written above the last one is not seen; the last one has no `next`.
  pub linked_swap :
      (h : ℕ → Option (Node A)) (a : ℕ) (v : Option A) (es : List (Entry A)) (b n : ℕ) (t : A)
      → b < n
      → Linked h a v es b
      → Linked
          (update h n (node (some t)))
          a
          v
          (es ++ record { addr = n; value = t; linked = false } ∷ [])
          n
  linked_swap h a v [] b n t lt (e, l) = (omega arith, ground arith, (refl, ground arith))
  linked_swap h a v (e ∷ es) b n t lt (up, at, l) = (
    up,
    ground (arith, Linked-le h e.addr (some e.value) es b l),
    linked_swap h e.addr (some e.value) es b n t lt l,
  )

  pub Awaits-swap :
      (h : ℕ → Option (Node A)) (a : ℕ) (v : Option A) (es : List (Entry A)) (b n : ℕ) (t : A)
      → Linked h a v es b
      → Awaits a (es ++ record { addr = n; value = t; linked = false } ∷ []) b n
  Awaits-swap h a v [] b n t (e, l) = inl (e, refl, refl)
  Awaits-swap h a v (e ∷ es) b n t (up, at, l) =
      inr (Awaits-swap h e.addr (some e.value) es b n t l)

  pub Awaits-append :
      (a : ℕ) (es more : List (Entry A)) (prev n : ℕ)
      → Awaits a es prev n
      → Awaits a (es ++ more) prev n
  Awaits-append a [] more prev n w = absurd w
  Awaits-append a (e ∷ es) more prev n (inl w) = inl w
  Awaits-append a (e ∷ es) more prev n (inr w) = inr (Awaits-append e.addr es more prev n w)

  -- Addresses go up, so a node that awaits its link lies above the first one.
  pub Awaits-lt :
      (h : ℕ → Option (Node A)) (a : ℕ) (v : Option A) (es : List (Entry A)) (b prev n : ℕ)
      → Linked h a v es b
      → Awaits a es prev n
      → (a < suc prev) × (prev < n)
  Awaits-lt h a v [] b prev n l w = absurd w
  Awaits-lt h a v (e ∷ es) b prev n (up, at, l) (inl w) = omega arith
  Awaits-lt h a v (e ∷ es) b prev n (up, at, l) (inr w) =
      omega (arith, Awaits-lt h e.addr (some e.value) es b prev n l w)

  pub mark_none :
      (h : ℕ → Option (Node A)) (a : ℕ) (v : Option A) (es : List (Entry A)) (b n : ℕ)
      → n < suc a
      → Linked h a v es b
      → mark n es ≡ es
  mark_none h a v [] b n lt l = refl
  mark_none h a v (e ∷ es) b n lt (up, at, l) =
      ground (arith, mark_none h e.addr (some e.value) es b n (omega arith) l)

  -- The second step of a producer: `prev` is there, has no `next`, and gets one.
  pub Linked-link :
      (h : ℕ → Option (Node A)) (a : ℕ) (v : Option A) (es : List (Entry A)) (b prev n : ℕ)
      → Linked h a v es b
      → Awaits a es prev n
      → (p : Node A) × (h prev ≡ some p)
        × Linked (update h prev (some (record p { next = some n }))) a v (mark n es) b
  Linked-link h a v [] b prev n l w = absurd w
  Linked-link h a v (e ∷ es) b prev n (up, at, l) (inl (x, y, z)) = (
    record { next = none; value = v },
    ground arith,
    (
      up,
      ground arith,
      rw (mark_none h e.addr (some e.value) es b n (omega arith) l)
          (Linked-frame h e.addr (some e.value) es b prev _ (omega arith) l),
    ),
  )
  Linked-link h a v (e ∷ es) b prev n (up, at, l) (inr w) =
      let (p, found, l') = Linked-link h e.addr (some e.value) es b prev n l w in
      let above = Awaits-lt h e.addr (some e.value) es b prev n l w in
      (p, found, (up, ground arith, l'))

  pub Awaits-mark :
      (a : ℕ) (es : List (Entry A)) (prev n m o : ℕ)
      → n ≢ o
      → Awaits a es m o
      → Awaits a (mark n es) m o
  Awaits-mark a [] prev n m o ne w = absurd w
  Awaits-mark a (e ∷ es) prev n m o ne (inl w) = inl (ground arith)
  Awaits-mark a (e ∷ es) prev n m o ne (inr w) = inr (Awaits-mark e.addr es prev n m o ne w)

  pub Linked-first :
      (h : ℕ → Option (Node A)) (a : ℕ) (v : Option A) (es : List (Entry A)) (b : ℕ)
      → Linked h a v es b
      → (o : Option ℕ) × (h a ≡ some (record { next = o; value = v }))
  Linked-first h a v [] b (e, l) = (none, l)
  Linked-first h a v (e ∷ es) b (up, at, l) = (link_of e, at)

  pub Linked-take :
      (h : ℕ → Option (Node A)) (a : ℕ) (v : Option A) (es : List (Entry A)) (b : ℕ) (o : Option ℕ)
      → h a ≡ some (record { next = o; value = v })
      → Linked h a v es b
      → Linked (update h a (some (record { next = o; value = none }))) a none es b
  Linked-take h a v [] b o f (e, l) = ground arith
  Linked-take h a v (e ∷ es) b o f (up, at, l) =
      (up, ground arith, Linked-frame h e.addr (some e.value) es b a _ up l)
