-- ===== src/Stream/FuturesOrdered/Order.antt =====
-- FuturesOrdered yields the outputs in the order of its queue (futures_ordered.rs).
use futures_rs.Prelude.{
  ◌≡◌, ◌+◌, ◌<◌, ◌≤◌, Bool, length, refl, sym, ap, subst, inl, inr, List, [], ◌∷◌, Option, none,
  some, true, false, if◌then◌else◌, arith, Bool-cases,
}
use futures_rs.Prelude.Int.{ℤ, pos_part, succ, eq_ℤ, i64_max, add_one, add_one_lem, succ-pos}
use futures_rs.Task.{Poll, ready}
use futures_rs.Run.{loop, again, done, loop-again, loop-done, Gives, map-Gives, return-Gives}
use futures_rs.Stream.{Yields, item, wait, finish}
use futures_rs.Stream.FuturesOrdered.{
  OrderWrapper, FuturesOrdered, Unordered, on_output, round, ready_output, poll_next,
  ordered_stream,
}
use futures_rs.Stream.FuturesOrdered.{pop}
use futures_rs.Stream.FuturesOrdered.Queue.{
  number, count, Shares, pop_lem, pop_next, pop_other, next_lem, other_lem, end_lem,
}

module _ {ℓ κ μ} {Q : Type ℓ} {F : Type κ} {B : Type μ}
    (un : Unordered Q (OrderWrapper F) (OrderWrapper B)) where
  abbrev pub at : Q → List (OrderWrapper B) → ℤ → ℤ → FuturesOrdered Q B
  at q hs i o = record {
    in_progress_queue = q;
    queued_outputs = hs;
    next_incoming_index = i;
    next_outgoing_index = o;
  }

  -- Without an output that is next, the queue is polled.
  no_output :
      (q : Q) (hs : List (OrderWrapper B)) (i o : ℤ)
      → count o hs ≡ 0
      → ready_output un (at q hs i o) ≡ none
  unfolding ready_output pop
  no_output q hs i o h = elim (pop_lem hs) [
    | inl e ↦ rw e.0 refl
    | inr g ↦ let (x, r, e, p) = g in rw e (ground (arith, p.counts o))
  ]

  output_there :
      (q : Q) (hs r : List (OrderWrapper B)) (i o k : ℤ) (c : B)
      → pop hs ≡ some ((k, c), r)
      → eq_ℤ k o ≡ true
      → add_one o ≡ succ o
      → ready_output un (at q hs i o) ≡ some (c, at q r i (succ o))
  unfolding ready_output pop
  output_there q hs r i o k c e h a = rw (e, h, a) refl

  loop-Gives :
      (t : FuturesOrdered Q B) {t' : FuturesOrdered Q B} {p : Poll (Option B)}
      → ready_output un t ≡ none
      → Gives (loop (round un) t) (p, t')
      → Gives (poll_next un t) (p, t')
  unfolding poll_next
  loop-Gives t e h = rw (e, poll_next) h

  poll-Gives :
      (t : FuturesOrdered Q B) {t' : FuturesOrdered Q B} {p : Poll (Option B)}
      → ready_output un t ≡ none
      → Gives (poll_next un t) (p, t')
      → Gives (loop (round un) t) (p, t')
  unfolding poll_next
  poll-Gives t e h = rw (e, poll_next) at h

  ready-Gives :
      (t : FuturesOrdered Q B) {t' : FuturesOrdered Q B} {b : B}
      → ready_output un t ≡ some (b, t')
      → Gives (poll_next un t) (ready (some b), t')
  unfolding poll_next
  ready-Gives t e = rw (e, poll_next) (return-Gives _)

  again_Yields :
      (t : FuturesOrdered Q B) {t' : FuturesOrdered Q B} {bs : List B}
      → ready_output un t ≡ none
      → ready_output un t' ≡ none
      → Gives (round un t) (again t')
      → Yields (ordered_stream un) t' bs
      → Yields (ordered_stream un) t bs
  again_Yields t {t'} e e' g (finish h) =
      finish (loop-Gives t e (loop-again (round un) t t' _ g (poll-Gives t' e' h)))
  again_Yields t {t'} e e' g (item h y) =
      item (loop-Gives t e (loop-again (round un) t t' _ g (poll-Gives t' e' h))) y
  again_Yields t {t'} e e' g (wait h y) =
      wait (loop-Gives t e (loop-again (round un) t t' _ g (poll-Gives t' e' h))) y

  -- The indices from `o` on do not leave i64.
  abbrev pub Room : ℤ → List B → Type 0
  Room o bs = pos_part o + length bs ≤ i64_max

  -- What is yielded once the queue has to be polled, and from any state.
  abbrev Polls : Q → List (OrderWrapper B) → Type (ℓ ⊔ μ)
  Polls q ps =
      (bs : List B) (hs : List (OrderWrapper B)) (i o : ℤ)
      → Shares ps hs (number o bs)
      → Room o bs
      → count o hs ≡ 0
      → Yields (ordered_stream un) (at q hs i o) bs

  from_any :
      (q : Q) (ps : List (OrderWrapper B))
      → Polls q ps
      → (bs : List B) (hs : List (OrderWrapper B)) (i o : ℤ) → Shares ps hs (number o bs)
      → Room o bs
      → Yields (ordered_stream un) (at q hs i o) bs
  from_any q ps polls [] hs i o sh m = elim (pop_lem hs) [
    | inl e ↦ polls [] hs i o sh m (ap (count o) e.1)
    | inr g ↦ let (x, r, e, p) = g in absurd (ground (arith, (p.agree [] sh.agree2).0))
  ]
  from_any q ps polls (b ∷ bs) hs i o sh m = elim (pop_lem hs) [
    | inl e ↦ polls (b ∷ bs) hs i o sh m (ap (count o) e.1)
    | inr g ↦
        let (x, r, e, p) = g in
        elim (Bool-cases (eq_ℤ x.0 o)) [
          | inl h ↦
              let (cs, a, sh') = pop_next o (b ∷ bs) x.0 x.1 ps hs r sh p h in
              let first : x.1 ≡ b = ground arith in
              let rest : cs ≡ bs = ground arith in
              item
                (ready-Gives (at q hs i o) (
                  subst (λ z. ready_output un (at q hs i o) ≡ some (z, at q r i (succ o))) first
                    (output_there q hs r i o x.0 x.1 e h (add_one_lem o (omega arith)))))
                (from_any q ps polls bs r i (succ o)
                  (subst (λ z. Shares ps r (number (succ o) z)) rest sh')
                  (omega (arith, succ-pos o)))
          | inr h ↦ polls (b ∷ bs) hs i o sh m (pop_other o (b ∷ bs) x.0 x.1 ps hs r sh p h)
        ]
  ]

  round-Gives :
      (q : Q) (hs : List (OrderWrapper B)) (i o : ℤ) {r : Poll (Option (OrderWrapper B)) × Q}
      → Gives (un.stream.poll_next q) r
      → Gives (round un (at q hs i o)) (on_output un (at q hs i o) r)
  unfolding round
  round-Gives q hs i o h = map-Gives (on_output un (at q hs i o)) h

  on_item :
      (q : Q) (hs : List (OrderWrapper B)) (i o : ℤ) (k : ℤ) (c : B) (s' : Q) (b : Bool)
      → eq_ℤ k o ≡ b
      → Gives (un.stream.poll_next q) (ready (some (k, c)), s')
      → Gives (round un (at q hs i o)) (
          if b
          then done (ready (some c)) (at s' hs i (add_one o))
          else again (at s' ((k, c) ∷ hs) i o))
  on_item q hs i o k c s' b e h =
      subst (Gives (round un (at q hs i o)))
        (ap
          (λ b.
            if b
            then done (ready (some c)) (at s' hs i (add_one o))
            else again (at s' ((k, c) ∷ hs) i o))
          e)
        (round-Gives q hs i o h)

  first-Gives :
      (q : Q) (hs : List (OrderWrapper B)) (i o : ℤ) (k : ℤ) (c : B)
      → eq_ℤ k o ≡ true
      → add_one o ≡ succ o
      → {s' : Q} → Gives (un.stream.poll_next q) (ready (some (k, c)), s')
      → Gives (round un (at q hs i o)) (done (ready (some c)) (at s' hs i (succ o)))
  first-Gives q hs i o k c e a {s'} h =
      subst (λ z. Gives (round un (at q hs i o)) (done (ready (some c)) (at s' hs i z))) a
        (on_item q hs i o k c s' true e h)

  other-Gives :
      (q : Q) (hs : List (OrderWrapper B)) (i o : ℤ) (k : ℤ) (c : B)
      → eq_ℤ k o ≡ false
      → {s' : Q} → Gives (un.stream.poll_next q) (ready (some (k, c)), s')
      → Gives (round un (at q hs i o)) (again (at s' ((k, c) ∷ hs) i o))
  other-Gives q hs i o k c e {s'} h = on_item q hs i o k c s' false e h

  polled : {q : Q} {ps : List (OrderWrapper B)} → Yields un.stream q ps → Polls q ps
  polled {q} (finish h) bs hs i o sh m z =
      subst (Yields (ordered_stream un) (at q hs i o)) (sym (end_lem o bs hs sh z)) (
        finish (
          loop-Gives _ (no_output q hs i o z)
            (loop-done (round un) _ _ _ (round-Gives q hs i o h))))
  polled {q} (wait {s'} h y) bs hs i o sh m z =
      wait
        (loop-Gives _ (no_output q hs i o z) (loop-done (round un) _ _ _ (round-Gives q hs i o h)))
        (polled y bs hs i o sh m z)
  polled {q} (item {s'} {a = (k, c)} {xs} h y) bs hs i o sh m z = elim (Bool-cases (eq_ℤ k o)) [
    | inl e ↦
        let (cs, a, sh') = next_lem o bs k c xs hs sh e in
        let few : pos_part o < i64_max = omega (arith, ap length a) in
        subst (Yields (ordered_stream un) (at q hs i o)) (sym a) (
          item
            (loop-Gives _ (no_output q hs i o z)
              (loop-done (round un) _ _ _ (first-Gives q hs i o k c e (add_one_lem o few) h)))
            (from_any s' xs (polled y) cs hs i (succ o) sh'
              (omega (arith, ap length a, succ-pos o))))
    | inr e ↦
        let z' : count o ((k, c) ∷ hs) ≡ 0 = ground arith in
        again_Yields _ (no_output q hs i o z) (no_output s' ((k, c) ∷ hs) i o z')
          (other-Gives q hs i o k c e h)
          (polled y bs ((k, c) ∷ hs) i o (other_lem o bs k c xs hs sh) m z')
  ]

  -- If the FuturesUnordered inside, which may be any stream, yields outputs with their indices in any
  -- order, and these and the ones in the heap are just the outputs `bs` with the indices from
  -- `next_outgoing_index` on, each once, then the outputs come in the order of their indices: `bs` is
  -- yielded. The indices do not leave i64.
  pub in_order :
      (q : Q) (ps : List (OrderWrapper B)) (hs : List (OrderWrapper B)) (i o : ℤ) (bs : List B)
      → Yields un.stream q ps
      → Shares ps hs (number o bs)
      → Room o bs
      → Yields (ordered_stream un) (at q hs i o) bs
  in_order q ps hs i o bs y sh m = from_any q ps (polled y) bs hs i o sh m
