-- ===== src/Io/BufWriter/Flush.antt =====
-- What `flush_buf` of a BufWriter does (io/buf_writer.rs).
use futures_rs.Prelude.{
  ℕ, zero, suc, ◌+◌, ◌-◌, ◌≤◌, ◌<◌, ◌≡◌, ◌≢◌, refl, sym, ap, ◌∙◌, subst, List, [], ◌++◌, true,
  arith, length, take, drop, leb, ltb, ◌==◌, Bool-cases, inl, inr, length-drop,
}
use mathlib.Core.List.{append_assoc, append-nil}
use futures_rs.Prelude.Slices.{take-drop, drop-drop, eq_nil}
use futures_rs.Task.{Poll, ready, pending}
use futures_rs.Run.{Turn, again, done, loop-again, loop-done, Gives, return-Gives, >>=-Gives}
use futures_rs.Io.{
  IoError, write_zero, IoResult, ok, err, AsyncWrite, Writes, waits, fails, writes, Writer,
}
use futures_rs.Io.BufWriter.{BufWriter, drain, on_write, round, flush_buf}

module _ {ℓ} {W : Type ℓ} (wr : AsyncWrite W) (p : Writer wr) where
  -- What a BufWriter was given: what its writer was given, and the bytes in its buffer that it was not
  -- given. The buffer keeps within the capacity.
  pub record Given (n : ℕ) (t : BufWriter W) (xs : List ℕ) : Type ℓ where
    pub passed : List ℕ
    pub Inner : p.Took n t.inner passed
    pub within : t.written ≤ length t.buf
    pub fits : length t.buf ≤ t.capacity
    pub content : xs ≡ passed ++ drop t.written t.buf

  -- How `flush_buf` ends.
  pub data Flushes (n : ℕ) (t : BufWriter W) (xs : List ℕ) : Type ℓ where
    blocked :
        {m : ℕ} {t' : BufWriter W}
        → n ≡ suc m
        → Gives (flush_buf wr t) (pending, t')
        → Given m t' xs
        → Flushes n t xs
    broken :
        {m : ℕ} {t' : BufWriter W} {e : IoError}
        → m ≤ n
        → Gives (flush_buf wr t) (ready (err e), t')
        → Given m t' xs
        → Flushes n t xs
    flushed :
        {t' : BufWriter W}
        → Gives (flush_buf wr t) (ready (ok tt), t')
        → t'.buf ≡ []
        → t'.written ≡ 0
        → p.Took n t'.inner xs
        → Flushes n t xs

  abbrev drained : BufWriter W → BufWriter W
  drained t = record t { buf = drop t.written t.buf; written = 0 }

  drain-Gives :
      (t : BufWriter W) (ret : IoResult (Unit {0}))
      → t.written ≤ length t.buf
      → Gives (drain t ret) (done (ready ret) (drained t))
  unfolding drain
  drain-Gives t ret h =
      let e : leb t.written (length t.buf) ≡ true = ground arith in
      rw e (return-Gives (done (ready ret) (drained t)))

  drained-Given : (n : ℕ) (t : BufWriter W) (xs : List ℕ) → Given n t xs → Given n (drained t) xs
  drained-Given n t xs h = record {
    passed = h.passed;
    Inner = h.Inner;
    within = omega arith;
    fits = omega (arith, h.fits, length-drop t.written t.buf);
    content = h.content;
  }

  round-Gives :
      (t : BufWriter W) {a : Poll (IoResult ℕ) × W}
      {b : Turn (BufWriter W) (Poll (IoResult (Unit {0})))}
      → t.written < length t.buf
      → Gives (wr.poll_write t.inner (drop t.written t.buf)) a
      → Gives (on_write t a) b
      → Gives (round wr t) b
  unfolding round
  round-Gives t l h g =
      let e : ltb t.written (length t.buf) ≡ true = ground arith in
      rw e (>>=-Gives (on_write t) h g)

  again-Flushes :
      (n : ℕ) (t t' : BufWriter W) (xs : List ℕ)
      → Gives (round wr t) (again t')
      → Flushes n t' xs
      → Flushes n t xs
  unfolding flush_buf
  again-Flushes n t t' xs g (blocked e h i) = blocked e (loop-again (round wr) t t' _ g h) i
  again-Flushes n t t' xs g (broken e h i) = broken e (loop-again (round wr) t t' _ g h) i
  again-Flushes n t t' xs g (flushed h e e' i) = flushed (loop-again (round wr) t t' _ g h) e e' i

  -- A round that has written some bytes.
  passed-Given :
      (n : ℕ) (t : BufWriter W) (w : W) (k : ℕ) (ys xs : List ℕ)
      → t.written + k ≤ length t.buf
      → length t.buf ≤ t.capacity
      → xs ≡ ys ++ drop t.written t.buf
      → p.Took n w (ys ++ take k (drop t.written t.buf))
      → Given n (record t { inner = w; written = t.written + k }) xs
  passed-Given n t w k ys xs l f c h = record {
    passed = ys ++ take k (drop t.written t.buf);
    Inner = h;
    within = l;
    fits = f;
    content =
        c
        ∙ ap (λ zs. ys ++ zs)
            (sym (take-drop k (drop t.written t.buf))
              ∙ ap (λ zs. take k (drop t.written t.buf) ++ zs) (drop-drop k t.written t.buf))
        ∙ sym (append_assoc ys (take k (drop t.written t.buf)) (drop (t.written + k) t.buf));
  }

  step-Flushes :
      (n : ℕ) (t : BufWriter W) (ys xs : List ℕ)
      → t.written < length t.buf
      → length t.buf ≤ t.capacity
      → xs ≡ ys ++ drop t.written t.buf
      → ((t' : BufWriter W)
          → length t'.buf - t'.written < length t.buf - t.written
          → Given n t' xs
          → Flushes n t' xs)
      → Writes wr p.Took n t.inner ys (drop t.written t.buf)
      → Flushes n t xs
  unfolding on_write flush_buf
  step-Flushes n t ys xs l f c rec (waits e h g) =
      blocked e (loop-done (round wr) t _ _ (round-Gives t l h (return-Gives _)))
        (record { passed = ys; Inner = g; within = omega arith; fits = f; content = c })
  step-Flushes n t ys xs l f c rec (fails {m} {w'} {e} d h g) =
      broken d
        (loop-done (round wr) t _ _
          (round-Gives t l h (drain-Gives (record t { inner = w' }) (err e) (omega arith))))
        (drained-Given m (record t { inner = w' }) xs
          (record { passed = ys; Inner = g; within = omega arith; fits = f; content = c }))
  step-Flushes n t ys xs l f c rec (writes {w'} k q h g) = elim (Bool-cases (k == 0)) [
    | inl e ↦
        let k0 : k ≡ 0 = ground arith in
        let t' : BufWriter W = record t { inner = w' } in
        broken {m = n} {e = write_zero} (omega arith)
          (loop-done (round wr) t _ _
            (round-Gives t l h (rw e (drain-Gives t' (err write_zero) (omega arith)))))
          (drained-Given n t' xs (record {
            passed = ys;
            Inner =
                subst (p.Took n w')
                  (ap (λ i. ys ++ take i (drop t.written t.buf)) k0 ∙ append-nil ys) g;
            within = omega arith;
            fits = f;
            content = c;
          }))
    | inr e ↦
        let t' : BufWriter W = record t { inner = w'; written = t.written + k } in
        let some_written : k ≢ 0 = ground arith in
        let q' : t.written + k ≤ length t.buf = omega (arith, length-drop t.written t.buf) in
        again-Flushes n t t' xs (round-Gives t l h (rw e (return-Gives _)))
          (rec t' (omega (arith, some_written)) (passed-Given n t w' k ys xs q' f c g))
  ]

  flush_all :
      (m n : ℕ) (t : BufWriter W) (xs : List ℕ)
      → length t.buf - t.written < m
      → Given n t xs
      → Flushes n t xs
  unfolding round flush_buf
  flush_all zero n t xs l h = absurd (omega arith)
  flush_all (suc m) n t xs l h = elim (Bool-cases (ltb t.written (length t.buf))) [
    | inl e ↦
        step-Flushes n t h.passed xs (ground arith) h.fits h.content
          (λ t' l' h'. flush_all m n t' xs (omega arith) h')
          (p.write n t.inner h.passed (drop t.written t.buf) h.Inner)
    | inr e ↦
        let all_written : drop t.written t.buf ≡ [] =
          eq_nil (drop t.written t.buf) (ground (arith, length-drop t.written t.buf)) in
        flushed {t' = drained t}
          (loop-done (round wr) t _ _ (rw e (drain-Gives t (ok tt) h.within))) all_written refl
          (subst (p.Took n t.inner)
            (sym (h.content ∙ ap (λ zs. h.passed ++ zs) all_written ∙ append-nil h.passed)) h.Inner)
  ]

  -- `flush_buf` ends. When it answers `Ok`, the writer below was given all bytes that the BufWriter was
  -- given, in order, and the buffer is empty; when it answers `Pending` or an error, no byte is lost or
  -- written twice.
  pub flush_buf-Flushes : (n : ℕ) (t : BufWriter W) (xs : List ℕ) → Given n t xs → Flushes n t xs
  flush_buf-Flushes n t xs h = flush_all (suc (length t.buf - t.written)) n t xs (omega arith) h
