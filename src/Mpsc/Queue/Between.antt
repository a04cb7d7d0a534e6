-- ===== src/Mpsc/Queue/Between.antt =====
-- Producers that stand between the steps of `push` (futures-channel/src/mpsc/queue.rs).
use futures_rs.Prelude.{
  ℕ, zero, suc, ◌≡◌, refl, ap, sym, ◌≢◌, inl, inr, List, [], ◌∷◌, ◌++◌, Option, none, some, true,
  arith, length,
}
use futures_rs.Mpsc.Queue.{Queue}
use futures_rs.Mpsc.Queue.Entries.{Entry, Holds, Awaits, mark, Awaits-append, Awaits-mark}
use futures_rs.Mpsc.Queue.Fifo.{Awaits-lt_fresh}
use futures_rs.Mpsc.Queue.Steps.{Producer, put_back, remove_at}

-- No other producer has the node `n`.
abbrev pub Apart : ℕ → List Producer → Type 0
Apart n [] = Unit
Apart n ((prev, m) ∷ ps) = (n ≢ m) × Apart n ps

abbrev TakenApart : ℕ → Option (Producer × List Producer) → Type 0
TakenApart n none = Unit
TakenApart n (some ((prev, m), rest)) = (n ≢ m) × Apart n rest

put_back-TakenApart :
    (n prev m : ℕ) (o : Option (Producer × List Producer))
    → n ≢ m
    → TakenApart n o
    → TakenApart n (put_back (prev, m) o)
put_back-TakenApart n prev m none ne t = tt
put_back-TakenApart n prev m (some ((p, o), rest)) ne t = (t.0, (ne, t.1))

remove_at-TakenApart :
    (n : ℕ) (ps : List Producer) (k : ℕ) → Apart n ps → TakenApart n (remove_at ps k)
remove_at-TakenApart n [] k h = tt
remove_at-TakenApart n ((prev, m) ∷ ps) zero h = h
remove_at-TakenApart n ((prev, m) ∷ ps) (suc k) h =
    put_back-TakenApart n prev m (remove_at ps k) h.0 (remove_at-TakenApart n ps k h.1)

module _ {ℓ} {A : Type ℓ} where
  abbrev pub Producers : ℕ → List (Entry A) → List Producer → Type 0
  Producers a es [] = Unit
  Producers a es ((prev, n) ∷ ps) = Awaits a es prev n × Apart n ps × Producers a es ps

  pub Producers-append :
      (a : ℕ) (es more : List (Entry A)) (ps : List Producer)
      → Producers a es ps
      → Producers a (es ++ more) ps
  Producers-append a es more [] h = tt
  Producers-append a es more ((prev, n) ∷ ps) h =
      (Awaits-append a es more prev n h.0, h.1, Producers-append a es more ps h.2)

  pub Producers-mark :
      (a : ℕ) (es : List (Entry A)) (n : ℕ) (ps : List Producer)
      → Apart n ps
      → Producers a es ps
      → Producers a (mark n es) ps
  Producers-mark a es n [] apart h = tt
  Producers-mark a es n ((prev, m) ∷ ps) apart h =
      (Awaits-mark a es prev n prev m apart.0 h.0, h.1, Producers-mark a es n ps apart.1 h.2)

  pub Producers-fresh :
      (q : Queue A) (es : List (Entry A)) (ps : List Producer)
      → Holds q es
      → Producers q.tail es ps
      → Apart q.fresh ps
  Producers-fresh q es [] h p = tt
  Producers-fresh q es ((prev, m) ∷ ps) h p =
      (omega (arith, Awaits-lt_fresh q es prev m h p.0), Producers-fresh q es ps h p.2)

  -- The first entry is linked, so nobody waits to link it.
  pub Producers-pop :
      (a : ℕ) (e : Entry A) (es : List (Entry A)) (ps : List Producer)
      → e.linked ≡ true
      → Producers a (e ∷ es) ps
      → Producers e.addr es ps
  Producers-pop a e es [] l h = tt
  Producers-pop a e es ((prev, n) ∷ ps) l (inl w, apart, h) = absurd (ground arith)
  Producers-pop a e es ((prev, n) ∷ ps) l (inr w, apart, h) =
      (w, apart, Producers-pop a e es ps l h)

  -- A producer taken out of the others.
  abbrev pub Taken : ℕ → List (Entry A) → ℕ → Option (Producer × List Producer) → Type 0
  Taken a es len none = Unit
  Taken a es len (some ((prev, n), rest)) =
      Awaits a es prev n × Apart n rest × Producers a es rest × (len ≡ suc (length rest))

  put_back-Taken :
      (a : ℕ) (es : List (Entry A)) (len prev n : ℕ) (o : Option (Producer × List Producer))
      → Awaits a es prev n
      → TakenApart n o
      → Taken a es len o
      → Taken a es (suc len) (put_back (prev, n) o)
  put_back-Taken a es len prev n none w t h = tt
  put_back-Taken a es len prev n (some ((p, m), rest)) w t h =
      (h.0, ((λ e. t.0 (sym e)), h.1), (w, t.1, h.2), ap suc h.3)

  pub remove_at-Taken :
      (a : ℕ) (es : List (Entry A)) (ps : List Producer) (k : ℕ)
      → Producers a es ps
      → Taken a es (length ps) (remove_at ps k)
  remove_at-Taken a es [] k h = tt
  remove_at-Taken a es ((prev, n) ∷ ps) zero h = (h.0, h.1, h.2, refl)
  remove_at-Taken a es ((prev, n) ∷ ps) (suc k) h =
      put_back-Taken a es (length ps) prev n (remove_at ps k) h.0 (remove_at-TakenApart n ps k h.1)
        (remove_at-Taken a es ps k h.2)
