-- ===== src/Mpsc/Queue/Fifo.antt =====
-- What each step makes of the nodes on the heap (futures-channel/src/mpsc/queue.rs).
use futures_rs.Prelude.{
  ℕ, suc, ◌<◌, ◌≡◌, refl, ap, map, ◌⊎◌, inl, inr, List, [], ◌∷◌, ◌++◌, Option, none, some, true,
  false, if◌then◌else◌, update, arith, Bool-cases, ==_iff,
}
use futures_rs.Mpsc.Queue.{
  Node, Queue, popped, empty, inconsistent, gives, new, push_swap, push_link, pop_next, pop_load,
  pop_check,
}
use futures_rs.Mpsc.Queue.Entries.{
  ==-false, Entry, Linked, Holds, Awaits, mark, Linked-frame, Linked-le, deref-some, linked_swap,
  Awaits-swap, Awaits-lt, mark_none, Linked-link, Linked-first, Linked-take,
}

module _ {ℓ} {A : Type ℓ} where
  -- The first step of `push` adds an entry that its predecessor does not point to.
  pub swap-Holds :
      (q : Queue A) (es : List (Entry A)) (t : A)
      → Holds q es
      → let more = es ++ record { addr = q.fresh; value = t; linked = false } ∷ [] in
        Holds (push_swap q t).1 more
        × Awaits (push_swap q t).1.tail more (push_swap q t).0 (push_swap q t).1.head
  unfolding push_swap
  swap-Holds q es t h = (
    record {
      chain = linked_swap q.heap q.tail none es q.head q.fresh t h.bound h.chain;
      bound = omega arith;
    },
    Awaits-swap q.heap q.tail none es q.head q.fresh t h.chain,
  )

  -- The second step finds the predecessor on the heap, and makes it point to the entry.
  pub link-Holds :
      (q : Queue A) (es : List (Entry A)) (prev n : ℕ)
      → Holds q es
      → Awaits q.tail es prev n
      → (q' : Queue A) × (push_link q prev n ≡ gives q') × Holds q' (mark n es) × (q'.tail ≡ q.tail)
  unfolding push_link
  link-Holds q es prev n h w =
      let (p, found, l) = Linked-link q.heap q.tail none es q.head prev n h.chain w in
      (
        record q { heap = update q.heap prev (some (record p { next = some n })) },
        rw (deref-some q.heap prev p found) refl,
        record { chain = l; bound = h.bound },
        refl,
      )

  -- What the load of `next` finds: nothing in an empty queue or in one whose first entry is not
  -- linked, and else the first entry.
  abbrev pub Loads : Queue A → List (Entry A) → Type ℓ
  Loads q [] = pop_load q ≡ gives (none, q)
  Loads q (e ∷ es) =
      ((e.linked ≡ true)
        × (q' : Queue A) × (pop_load q ≡ gives (some (popped e.value), q'))
        × Holds q' es
        × (q'.tail ≡ e.addr))
      ⊎ ((e.linked ≡ false) × (pop_load q ≡ gives (none, q)))

  pub pop_load-Loads : (q : Queue A) (es : List (Entry A)) → Holds q es → Loads q es
  unfolding pop_load pop_next
  pop_load-Loads q [] h = rw (deref-some q.heap q.tail _ h.chain.1) refl
  pop_load-Loads q (e ∷ es) h =
      let (up, at, l) = h.chain in
      let (o, f) = Linked-first q.heap e.addr (some e.value) es q.head l in
      elim (Bool-cases e.linked) [
        | inl yes_linked ↦ inl (
          yes_linked,
          record q {
            heap =
                update (update q.heap e.addr (some (record { next = o; value = none }))) q.tail
                  none;
            tail = e.addr;
          },
          rw (deref-some q.heap q.tail _ at, yes_linked, deref-some q.heap e.addr _ f) refl,
          record {
            chain =
                Linked-frame _ e.addr none es q.head q.tail none up
                  (Linked-take q.heap e.addr (some e.value) es q.head o f l);
            bound = h.bound;
          },
          refl,
        )
        | inr not_linked ↦ inr (not_linked, rw (deref-some q.heap q.tail _ at, not_linked) refl)
      ]

  -- What the load of `head` says: whether there is an entry.
  abbrev pub Checks : Queue A → List (Entry A) → Type ℓ
  Checks q [] = pop_check q ≡ empty
  Checks q (e ∷ es) = pop_check q ≡ inconsistent

  pub pop_check-Checks : (q : Queue A) (es : List (Entry A)) → Holds q es → Checks q es
  unfolding pop_check
  pop_check-Checks q [] h = rw (← h.chain.0, (==_iff q.tail q.tail).1 refl) refl
  pop_check-Checks q (e ∷ es) h =
      rw
        (==-false q.head q.tail
          (omega (arith, h.chain.0, Linked-le q.heap e.addr (some e.value) es q.head h.chain.2)))
        refl

  -- How many entries their predecessor does not point to.
  abbrev pub unlinked : List (Entry A) → ℕ
  unlinked [] = 0
  unlinked (e ∷ es) = if e.linked then unlinked es else suc (unlinked es)

  pub unlinked-append :
      (es : List (Entry A)) (n : ℕ) (t : A)
      → unlinked (es ++ record { addr = n; value = t; linked = false } ∷ []) ≡ suc (unlinked es)
  unlinked-append [] n t = refl
  unlinked-append (e ∷ es) n t = ground (arith, unlinked-append es n t)

  unlinked-mark_absent :
      (h : ℕ → Option (Node A)) (a : ℕ) (v : Option A) (es : List (Entry A)) (b prev n : ℕ)
      → Linked h a v es b
      → Awaits a es prev n
      → suc (unlinked (mark n es)) ≡ unlinked es
  unlinked-mark_absent h a v [] b prev n l w = absurd w
  unlinked-mark_absent h a v (e ∷ es) b prev n (up, at, l) (inl (x, y, z)) =
      rw (mark_none h e.addr (some e.value) es b n (omega arith) l) (ground arith)
  unlinked-mark_absent h a v (e ∷ es) b prev n (up, at, l) (inr w) =
      let above = Awaits-lt h e.addr (some e.value) es b prev n l w in
      ground (arith, unlinked-mark_absent h e.addr (some e.value) es b prev n l w)

  pub unlinked-mark :
      (q : Queue A) (es : List (Entry A)) (prev n : ℕ)
      → Holds q es
      → Awaits q.tail es prev n
      → suc (unlinked (mark n es)) ≡ unlinked es
  unlinked-mark q es prev n h w = unlinked-mark_absent q.heap q.tail none es q.head prev n h.chain w

  pub values-mark :
      (es : List (Entry A)) (n : ℕ)
      → map (λ e. e.value) (mark n es) ≡ map (λ (e : Entry A). e.value) es
  values-mark [] n = refl
  values-mark (e ∷ es) n = ap (◌∷◌ e.value) (values-mark es n)

  Awaits-le :
      (h : ℕ → Option (Node A)) (a : ℕ) (v : Option A) (es : List (Entry A)) (b prev n : ℕ)
      → Linked h a v es b
      → Awaits a es prev n
      → n < suc b
  Awaits-le h a v [] b prev n l w = absurd w
  Awaits-le h a v (e ∷ es) b prev n (up, at, l) (inl (x, y, z)) =
      omega (arith, Linked-le h e.addr (some e.value) es b l)
  Awaits-le h a v (e ∷ es) b prev n (up, at, l) (inr w) =
      Awaits-le h e.addr (some e.value) es b prev n l w

  pub Awaits-lt_fresh :
      (q : Queue A) (es : List (Entry A)) (prev n : ℕ)
      → Holds q es
      → Awaits q.tail es prev n
      → n < q.fresh
  Awaits-lt_fresh q es prev n h w =
      omega (arith, Awaits-le q.heap q.tail none es q.head prev n h.chain w, h.bound)

  pub new-Holds : Holds (new {A = A}) []
  unfolding new
  new-Holds = record { chain = (refl, refl); bound = omega arith }
