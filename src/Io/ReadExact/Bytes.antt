-- ===== src/Io/ReadExact/Bytes.antt =====
-- What `read_exact` reads (io/read_exact.rs).
use futures_rs.Prelude.{
  ℕ, zero, suc, ◌+◌, ◌≤◌, ◌<◌, ◌≡◌, ◌≢◌, refl, sym, ap, ◌∙◌, subst, List, [], ◌++◌, Bool, true,
  false, arith, length, take, drop, leb, ◌==◌, if◌then◌else◌, Bool-cases, inl, inr, length-append,
  length-take, length-drop,
}
use mathlib.Core.List.{append_assoc, append-nil}
use futures_rs.Prelude.Slices.{
  take-nil, drop-nil, drop-drop, take-drop, take_more, take_front, drop_front, eq_nil,
}
use futures_rs.Task.{Poll, ready, pending}
use futures_rs.Run.{Turn, again, done, Gives, return-Gives, return_eq-Gives, >>=-Gives}
use futures_rs.Io.{
  IoError, unexpected_eof, IoResult, ok, err, AsyncRead, Reads, waits, fails, reads, Reader,
}
use futures_rs.Io.Ends.{Ends, again-Ends, wait-Ends, done-Ends}
use futures_rs.Io.ReadExact.{ReadExact, new, split, on_read, round, read_exact}

module _ {ℓ} {R : Type ℓ} (rd : AsyncRead R) (p : Reader rd) where
  -- How `read_exact` ends when the bytes `xs` are to come: no byte is lost, or out of its place.
  pub data Exactly (t : ReadExact R) (xs : List ℕ) : Type ℓ where
    exact :
        {m : ℕ} {t' : ReadExact R}
        → length t.buf ≤ length xs
        → Ends (read_exact rd) t (ok tt) t'
        → t'.buf ≡ []
        → t'.filled ≡ t.filled ++ take (length t.buf) xs
        → p.Has m t'.reader (drop (length t.buf) xs)
        → Exactly t xs
    short :
        {m : ℕ} {t' : ReadExact R}
        → length xs < length t.buf
        → Ends (read_exact rd) t (err unexpected_eof) t'
        → t'.filled ≡ t.filled ++ xs
        → p.Has m t'.reader []
        → Exactly t xs
    failed :
        {m : ℕ} {e : IoError} {t' : ReadExact R} {r : R} {buf : List ℕ} (k : ℕ)
        → k ≤ length t.buf
        → k ≤ length xs
        → Gives (rd.poll_read r buf) (ready (err e), (t'.reader, t'.buf))
        → Ends (read_exact rd) t (err e) t'
        → t'.filled ≡ t.filled ++ take k xs
        → p.Has m t'.reader (drop k xs)
        → Exactly t xs

  after : ReadExact R → R → ℕ → List ℕ → ReadExact R
  after t r k xs = record { reader = r; filled = t.filled ++ take k xs; buf = drop k t.buf }

  filled_more :
      (fs xs : List ℕ) (k m j : ℕ)
      → k + m ≡ j
      → (fs ++ take k xs) ++ take m (drop k xs) ≡ fs ++ take j xs
  filled_more fs xs k m j e =
      append_assoc fs (take k xs) (take m (drop k xs))
      ∙ ap (λ zs. fs ++ zs) (take_more k m xs ∙ ap (λ i. take i xs) e)

  -- A round that has read `k` bytes, and what follows it.
  more-Exactly :
      (t : ReadExact R) (r : R) (k : ℕ) (xs : List ℕ)
      → k ≤ length t.buf
      → k ≤ length xs
      → Gives (round rd t) (again (after t r k xs))
      → Exactly (after t r k xs) (drop k xs)
      → Exactly t xs
  unfolding after
  more-Exactly t r k xs h l g (exact {m} {t'} a e b f i) =
      exact (omega (arith, length-drop k t.buf, length-drop k xs)) (again-Ends (round rd) g e) b
        (f ∙ filled_more t.filled xs k _ _ (omega (arith, length-drop k t.buf)))
        (subst (p.Has m t'.reader)
          (drop-drop _ k xs ∙ ap (λ j. drop j xs) (omega (arith, length-drop k t.buf))) i)
  more-Exactly t r k xs h l g (short {m} {t'} a e f i) =
      short (omega (arith, length-drop k t.buf, length-drop k xs)) (again-Ends (round rd) g e)
        (f
          ∙ append_assoc t.filled (take k xs) (drop k xs)
          ∙ ap (λ zs. t.filled ++ zs) (take-drop k xs))
        i
  more-Exactly t r k xs h l g (failed {m} {t' = t'} j a b c e f i) =
      failed (k + j) (omega (arith, length-drop k t.buf)) (omega (arith, length-drop k xs)) c
        (again-Ends (round rd) g e) (f ∙ filled_more t.filled xs k j _ refl)
        (subst (p.Has m t'.reader) (drop-drop j k xs) i)

  round-Gives :
      (t : ReadExact R) {a : Poll (IoResult ℕ) × (R × List ℕ)}
      {b : Turn (ReadExact R) (Poll (IoResult (Unit {0})))}
      → length t.buf ≢ 0
      → Gives (rd.poll_read t.reader t.buf) a
      → Gives (on_read t.filled a) b
      → Gives (round rd t) b
  unfolding round
  round-Gives t nz h g =
      let e : (length t.buf == 0) ≡ false = ground arith in rw e (>>=-Gives (on_read t.filled) h g)

  -- What was read is split off.
  abbrev turn : Bool → ReadExact R → Turn (ReadExact R) (Poll (IoResult (Unit {0})))
  turn b t' = if b then done (ready (err unexpected_eof)) t' else again t'

  split-Gives :
      (t : ReadExact R) (r : R) (k : ℕ) (xs : List ℕ) (b : Bool)
      → k ≤ length t.buf
      → k ≤ length xs
      → (k == 0) ≡ b
      → Gives
          (on_read t.filled (ready (ok k), (r, take k xs ++ drop k t.buf)))
          (turn b (after t r k xs))
  unfolding on_read split after
  split-Gives t r k xs b h l e =
      let buf : List ℕ = take k xs ++ drop k t.buf in
      let f : leb k (length buf) ≡ true =
        ground (arith, length-append (take k xs) (drop k t.buf), length-take k xs) in
      rw f (
        return_eq-Gives (
          ap
            (λ c. turn c (record { reader = r; filled = t.filled ++ take k buf; buf = drop k buf }))
            e
          ∙ ap (λ zs. turn b (record { reader = r; filled = t.filled ++ zs; buf = drop k buf }))
              (take_front k xs (drop k t.buf) l)
          ∙ ap (λ zs. turn b (record { reader = r; filled = t.filled ++ take k xs; buf = zs }))
              (drop_front k xs (drop k t.buf) l)))

  -- After a `Pending` it goes on with a buffer of the same length.
  wait-Exactly :
      (t : ReadExact R) (r : R) (buf xs : List ℕ)
      → length buf ≡ length t.buf
      → Gives (round rd t) (done pending (record { reader = r; filled = t.filled; buf = buf }))
      → Exactly (record { reader = r; filled = t.filled; buf = buf }) xs
      → Exactly t xs
  wait-Exactly t r buf xs l g (exact {m} {t'} a e b f i) =
      exact (omega arith) (wait-Ends (round rd) g e) b (f ∙ ap (λ j. t.filled ++ take j xs) l)
        (subst (λ j. p.Has m t'.reader (drop j xs)) l i)
  wait-Exactly t r buf xs l g (short a e f i) = short (omega arith) (wait-Ends (round rd) g e) f i
  wait-Exactly t r buf xs l g (failed k a b c e f i) =
      failed k (omega arith) b c (wait-Ends (round rd) g e) f i

  -- A poll of the reader, and what follows with a smaller measure.
  step-Exactly :
      (n : ℕ) (t : ReadExact R) (xs : List ℕ)
      → length t.buf ≢ 0
      → ((n' : ℕ) (t' : ReadExact R) (xs' : List ℕ)
          → n' + length t'.buf < n + length t.buf
          → p.Has n' t'.reader xs'
          → Exactly t' xs')
      → Reads rd p.Has n t.reader xs t.buf
      → Exactly t xs
  unfolding on_read after
  step-Exactly n t xs nz rec (waits {m} {r'} {buf'} d l h g) =
      wait-Exactly t r' buf' xs l (round-Gives t nz h (return-Gives _)) (rec m _ xs (omega arith) g)
  step-Exactly n t xs nz rec (fails {m} {r'} {buf'} d l h g) =
      failed 0 (omega arith) (omega arith) h
        (done-Ends (round rd) (round-Gives t nz h (return-Gives _))) (sym (append-nil t.filled)) g
  step-Exactly n t xs nz rec (reads {r'} k l l' z h g) = elim (Bool-cases (k == 0)) [
    | inl e ↦
        let none_left : xs ≡ [] = z (ground arith) nz in
        short (omega (arith, nz, ap length none_left))
          (done-Ends (round rd) (round-Gives t nz h (split-Gives t r' k xs true l l' e)))
          (ap (λ zs. t.filled ++ zs) (ap (take k) none_left ∙ take-nil k ∙ sym none_left))
          (subst (p.Has n r') (ap (drop k) none_left ∙ drop-nil k) g)
    | inr e ↦
        let some_read : k ≢ 0 = ground arith in
        more-Exactly t r' k xs l l' (round-Gives t nz h (split-Gives t r' k xs false l l' e))
          (rec n (after t r' k xs) (drop k xs) (omega (arith, some_read, length-drop k t.buf)) g)
  ]

  exactly :
      (m n : ℕ) (t : ReadExact R) (xs : List ℕ)
      → n + length t.buf < m
      → p.Has n t.reader xs
      → Exactly t xs
  unfolding round
  exactly zero n t xs l h = absurd (omega arith)
  exactly (suc m) n t xs l h = elim (Bool-cases (length t.buf == 0)) [
    | inl e ↦
        let z : length t.buf ≡ 0 = ground arith in
        exact {m = n} {t' = t} (omega arith) (done-Ends (round rd) (rw e (return-Gives _)))
          (eq_nil t.buf z) (sym (ap (λ i. t.filled ++ take i xs) z ∙ append-nil t.filled))
          (subst (λ j. p.Has n t.reader (drop j xs)) (sym z) h)
    | inr e ↦
        step-Exactly n t xs (ground arith) (λ n' t' xs' l' h'. exactly m n' t' xs' (omega arith) h')
          (p.read n t.reader xs t.buf h)
  ]

  -- If a reader has the bytes `xs` to come, then `read_exact` ends: it fills the buffer with the first
  -- bytes; or, if there are fewer, it takes them all and ends with `UnexpectedEof`; or it ends with an
  -- error that a poll of the reader has answered, and has put the first bytes in the buffer. The rest
  -- is still to come.
  pub read_exact-Exactly : (n : ℕ) (r : R) (xs buf : List ℕ) → p.Has n r xs → Exactly (new r buf) xs
  read_exact-Exactly n r xs buf h = exactly (suc (n + length buf)) n (new r buf) xs (omega arith) h
