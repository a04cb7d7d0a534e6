-- ===== src/Mpsc/Queue/Interleaved.antt =====
-- Producers and the consumer of futures-channel/src/mpsc/queue.rs in any order, one step of `push` or
-- of `pop` at a time.
use futures_rs.Prelude.{
  ℕ, suc, ◌≡◌, refl, ap, sym, ◌∙◌, ◌≢◌, inl, inr, List, [], ◌∷◌, ◌++◌, map, Option, none, some,
  Bool, true, false, arith, length, subst, ◌⊎◌,
}
use mathlib.Core.List.{append_assoc, map-append}
use futures_rs.Mpsc.Queue.{
  PopResult, popped, empty, inconsistent, Access, gives, push_swap, pop_check,
}
use futures_rs.Mpsc.Queue.Entries.{Entry, Holds, mark}
use futures_rs.Mpsc.Queue.Fifo.{
  Loads, Checks, unlinked, swap-Holds, link-Holds, pop_load-Loads, pop_check-Checks,
  unlinked-append, unlinked-mark, values-mark, new-Holds,
}
use futures_rs.Mpsc.Queue.Steps.{
  Producer, System, Event, begin, finish, consume, remove_at, is_nil, disturb, finishes, consumes,
  step, run, init,
}
use futures_rs.Mpsc.Queue.Between.{
  Producers, Taken, Producers-append, Producers-mark, Producers-fresh, Producers-pop,
  remove_at-Taken,
}

module _ {ℓ} {A : Type ℓ} where
  abbrev pub values : List (Entry A) → List A
  values = map (λ e. e.value)

  -- No entry has come since a load of `next` that found none.
  abbrev Quiet : Option Bool → List (Entry A) → Type ℓ
  Quiet none es = Unit
  Quiet (some false) es = Unit
  Quiet (some true) es = es ≡ []

  -- No answer is `Inconsistent` if no producer stood between its steps during the call.
  abbrev pub Justified : List (PopResult A × Bool) → Type ℓ
  Justified [] = Unit
  Justified ((popped a, quiet) ∷ rs) = Justified rs
  Justified ((empty, quiet) ∷ rs) = Justified rs
  Justified ((inconsistent, quiet) ∷ rs) = (quiet ≡ false) × Justified rs

  -- What every interleaving keeps, with the entries that the heap holds.
  pub record Inv (s : System A) (es : List (Entry A)) : Type ℓ where
    pub holds : Holds s.queue es
    pub producers : Producers s.queue.tail es s.pending
    pub in_order : s.sent ≡ s.received ++ values es
    pub waits : unlinked es ≡ length s.pending
    pub quiet : Quiet s.consumer es
    pub justified : Justified s.answers

  -- The outcome of a run that reads no freed node and fails no assertion.
  abbrev pub Keeps : Access (System A) → Type ℓ
  Keeps o = (s : System A) × (es : List (Entry A)) × (o ≡ gives s) × Inv s es

  disturb-Quiet : (c : Option Bool) (es : List (Entry A)) → Quiet (disturb c) es
  disturb-Quiet none es = tt
  disturb-Quiet (some b) es = tt

  mark-Quiet : (c : Option Bool) (es : List (Entry A)) (n : ℕ) → Quiet c es → Quiet c (mark n es)
  mark-Quiet none es n h = tt
  mark-Quiet (some false) es n h = tt
  mark-Quiet (some true) es n h = ap (mark n) h

  begin-Keeps : (s : System A) (es : List (Entry A)) (t : A) → Inv s es → Keeps (step s (begin t))
  unfolding step push_swap
  begin-Keeps s es t v =
      let (h, w) = swap-Holds s.queue es t v.holds in
      (
        _,
        es ++ record { addr = s.queue.fresh; value = t; linked = false } ∷ [],
        refl,
        record {
          holds = h;
          producers = (
            w,
            Producers-fresh s.queue es s.pending v.holds v.producers,
            Producers-append s.queue.tail es _ s.pending v.producers,
          );
          in_order = simp (v.in_order, map-append, append_assoc);
          waits = unlinked-append es s.queue.fresh t ∙ ap suc v.waits;
          quiet = disturb-Quiet s.consumer _;
          justified = v.justified;
        },
      )

  finish-Keeps :
      (s : System A) (es : List (Entry A)) (o : Option (Producer × List Producer))
      → Inv s es
      → Taken s.queue.tail es (length s.pending) o
      → Keeps (finishes s o)
  finish-Keeps s es none v t = (s, es, refl, v)
  finish-Keeps s es (some ((prev, n), rest)) v t =
      let (q, e, h, same) = link-Holds s.queue es prev n v.holds t.0 in
      (
        record s { queue = q; pending = rest },
        mark n es,
        rw e refl,
        record {
          holds = h;
          producers = rw same (Producers-mark s.queue.tail es n rest t.1 t.2);
          in_order = v.in_order ∙ ap (◌++◌ s.received) (sym (values-mark es n));
          waits = omega (arith, unlinked-mark s.queue es prev n v.holds t.0, v.waits, t.3);
          quiet = mark-Quiet s.consumer es n v.quiet;
          justified = v.justified;
        },
      )

  -- Nothing was found, and the consumer goes on to load `head`.
  waiting-Quiet :
      (es : List (Entry A)) (ps : List Producer)
      → (es ≡ []) ⊎ (unlinked es ≢ 0)
      → unlinked es ≡ length ps
      → Quiet (some (is_nil ps)) es
  waiting-Quiet es [] (inl e) w = e
  waiting-Quiet es [] (inr ne) w = absurd (ne w)
  waiting-Quiet es (p ∷ ps) h w = tt

  load-Keeps :
      (s : System A) (es : List (Entry A))
      → Inv s es
      → s.consumer ≡ none
      → Loads s.queue es
      → Keeps (consumes s none)
  unfolding consumes
  load-Keeps s [] v c e = (
    record s { consumer = some (is_nil s.pending) },
    [],
    rw e refl,
    record {
      holds = v.holds;
      producers = v.producers;
      in_order = v.in_order;
      waits = v.waits;
      quiet = waiting-Quiet [] s.pending (inl refl) v.waits;
      justified = v.justified;
    },
  )
  load-Keeps s (x ∷ es) v c (inl (l, q, e, h, at)) = (
    record s { queue = q; received = s.received ++ x.value ∷ [] },
    es,
    rw e refl,
    record {
      holds = h;
      producers = rw at (Producers-pop s.queue.tail x es s.pending l v.producers);
      in_order = simp (v.in_order, append_assoc);
      waits = ground (arith, v.waits);
      quiet = subst (λ d. Quiet d es) (sym c) tt;
      justified = v.justified;
    },
  )
  load-Keeps s (x ∷ es) v c (inr (l, e)) = (
    record s { consumer = some (is_nil s.pending) },
    x ∷ es,
    rw e refl,
    record {
      holds = v.holds;
      producers = v.producers;
      in_order = v.in_order;
      waits = v.waits;
      quiet = waiting-Quiet (x ∷ es) s.pending (inr (ground arith)) v.waits;
      justified = v.justified;
    },
  )

  answer-Justified :
      (s : System A) (es : List (Entry A)) (b : Bool)
      → Quiet (some b) es
      → Checks s.queue es
      → Justified s.answers
      → Justified ((pop_check s.queue, b) ∷ s.answers)
  answer-Justified s [] b q c j = subst (λ r. Justified ((r, b) ∷ s.answers)) (sym c) j
  answer-Justified s (x ∷ es) false q c j =
      subst (λ r. Justified ((r, false) ∷ s.answers)) (sym c) (refl, j)
  answer-Justified s (x ∷ es) true q c j = absurd (ground arith)

  consume-Keeps :
      (s : System A) (es : List (Entry A)) (c : Option Bool)
      → Inv s es
      → s.consumer ≡ c
      → Keeps (consumes s c)
  unfolding consumes
  consume-Keeps s es none v e = load-Keeps s es v e (pop_load-Loads s.queue es v.holds)
  consume-Keeps s es (some b) v e = (
    record s { consumer = none; answers = (pop_check s.queue, b) ∷ s.answers },
    es,
    refl,
    record {
      holds = v.holds;
      producers = v.producers;
      in_order = v.in_order;
      waits = v.waits;
      quiet = tt;
      justified =
          answer-Justified s es b (subst (λ d. Quiet d es) e v.quiet)
            (pop_check-Checks s.queue es v.holds) v.justified;
    },
  )

  step-Keeps : (s : System A) (es : List (Entry A)) (e : Event A) → Inv s es → Keeps (step s e)
  step-Keeps s es (begin t) v = begin-Keeps s es t v
  step-Keeps s es (finish k) v =
      unfold step in
      finish-Keeps s es (remove_at s.pending k) v
        (remove_at-Taken s.queue.tail es s.pending k v.producers)
  step-Keeps s es consume v = unfold step in consume-Keeps s es s.consumer v refl

  run-Keeps :
      (s : System A) (es : List (Entry A)) (evs : List (Event A)) → Inv s es → Keeps (run s evs)
  unfolding run
  run-Keeps s es [] v = (s, es, refl, v)
  run-Keeps s es (e ∷ evs) v =
      let (s', es', eq, v') = step-Keeps s es e v in rw eq (run-Keeps s' es' evs v')

  -- Whatever the order of the producers' steps and of the consumer's, from the empty queue no freed
  -- node is read and no assertion fails; what was received is what was sent, in the order of the
  -- swaps of `head`, up to the values of the entries still there; as many of these entries are not
  -- linked as there are producers between their steps; and `pop` has answered `Inconsistent` only if
  -- a producer stood between its steps at the load of `next`, or began before the load of `head`. In
  -- the state reached the load of `next` finds the first entry just if it is linked, and the load of
  -- `head` says whether there is an entry.
  pub push_pop_in_order :
      (evs : List (Event A))
      → (s : System A) × (es : List (Entry A)) × (run init evs ≡ gives s)
        × (s.sent ≡ s.received ++ values es)
        × (unlinked es ≡ length s.pending)
        × Justified s.answers
        × Loads s.queue es
        × Checks s.queue es
  push_pop_in_order evs =
      let (s, es, e, v) = run-Keeps init [] evs (record {
        holds = new-Holds;
        producers = tt;
        in_order = refl;
        waits = refl;
        quiet = tt;
        justified = tt;
      }) in
      (
        s,
        es,
        e,
        v.in_order,
        v.waits,
        v.justified,
        pop_load-Loads s.queue es v.holds,
        pop_check-Checks s.queue es v.holds,
      )
