-- ===== src/Io/BufWriter/Bytes.antt =====
-- A BufWriter passes the bytes on, in order (io/buf_writer.rs).
use futures_rs.Prelude.{
  ℕ, ◌+◌, ◌≤◌, ◌<◌, ◌≡◌, sym, ap, ◌∙◌, subst, List, [], ◌++◌, true, false, arith, length, take,
  drop, leb, ltb, Bool-cases, inl, inr, length-append, length-drop,
}
use mathlib.Core.List.{append_assoc, append-nil}
use futures_rs.Prelude.Slices.{take_all, drop-append, eq_nil}
use futures_rs.Task.{Poll, ready}
use futures_rs.Run.{Gives, return-Gives, map-Gives, >>=-Gives}
use futures_rs.Io.{IoResult, ok, AsyncWrite, Flush, Writes, waits, fails, writes, Writer}
use futures_rs.Io.BufWriter.{
  BufWriter, flush_buf, write_on, on_bypass, on_flushed, poll_write, poll_flush, then_inner,
  on_inner, buf_writer,
}
use futures_rs.Io.BufWriter.Flush.{Given, Flushes, blocked, broken, flushed, flush_buf-Flushes}

module _ {ℓ} {W : Type ℓ} (wr : AsyncWrite W) (p : Writer wr) where
  flush-Gives :
      (t : BufWriter W) (bs : List ℕ) {a : Poll (IoResult (Unit {0})) × BufWriter W}
      {b : Poll (IoResult ℕ) × BufWriter W}
      → t.capacity < length t.buf + length bs
      → Gives (flush_buf wr t) a
      → Gives (on_flushed wr bs a) b
      → Gives (poll_write wr t bs) b
  unfolding poll_write
  flush-Gives t bs l h g =
      let e : ltb t.capacity (length t.buf + length bs) ≡ true = ground arith in
      rw e (>>=-Gives (on_flushed wr bs) h g)

  on-Gives :
      (t : BufWriter W) (bs : List ℕ) (b : Poll (IoResult ℕ) × BufWriter W)
      → length t.buf + length bs ≤ t.capacity
      → Gives (write_on wr bs t) b
      → Gives (poll_write wr t bs) b
  unfolding poll_write
  on-Gives t bs b l h =
      let e : ltb t.capacity (length t.buf + length bs) ≡ false = ground arith in rw e h

  bypass-Gives :
      (t : BufWriter W) (bs : List ℕ) {a : Poll (IoResult ℕ) × W}
      → t.capacity ≤ length bs
      → Gives (wr.poll_write t.inner bs) a
      → Gives (write_on wr bs t) (on_bypass t a)
  unfolding write_on
  bypass-Gives t bs l h =
      let e : leb t.capacity (length bs) ≡ true = ground arith in rw e (map-Gives (on_bypass t) h)

  empty-Given :
      (n : ℕ) (t : BufWriter W) (xs : List ℕ)
      → t.buf ≡ []
      → t.written ≤ length t.buf
      → p.Took n t.inner xs
      → Given wr p n t xs
  empty-Given n t xs e l h = record {
    passed = xs;
    Inner = h;
    within = l;
    fits = omega (arith, ap length e);
    content = sym (
        ap (λ zs. xs ++ zs) (eq_nil _ (omega (arith, ap length e, length-drop t.written t.buf)))
        ∙ append-nil xs);
  }

  bypass-Writes :
      (n : ℕ) (t t' : BufWriter W) (xs bs : List ℕ)
      → ((b : Poll (IoResult ℕ) × BufWriter W)
          → Gives (write_on wr bs t') b
          → Gives (poll_write wr t bs) b)
      → t'.buf ≡ []
      → t'.written ≤ length t'.buf
      → t'.capacity ≤ length bs
      → Writes wr p.Took n t'.inner xs bs
      → Writes (buf_writer wr) (Given wr p) n t xs bs
  bypass-Writes n t t' xs bs g e w l (waits d h i) =
      waits d (g _ (bypass-Gives t' bs l h)) (empty-Given _ _ _ e w i)
  bypass-Writes n t t' xs bs g e w l (fails d h i) =
      fails d (g _ (bypass-Gives t' bs l h)) (empty-Given _ _ _ e w i)
  bypass-Writes n t t' xs bs g e w l (writes k q h i) =
      writes k q (g _ (bypass-Gives t' bs l h)) (empty-Given _ _ (xs ++ take k bs) e w i)

  on-Writes :
      (n : ℕ) (t t' : BufWriter W) (xs bs : List ℕ)
      → ((b : Poll (IoResult ℕ) × BufWriter W)
          → Gives (write_on wr bs t') b
          → Gives (poll_write wr t bs) b)
      → Given wr p n t' xs
      → (t'.capacity ≤ length bs → length t'.buf ≡ 0)
      → (length bs < t'.capacity → length t'.buf + length bs ≤ t'.capacity)
      → Writes (buf_writer wr) (Given wr p) n t xs bs
  unfolding write_on
  on-Writes n t t' xs bs g h c d = elim (Bool-cases (leb t'.capacity (length bs))) [
    | inl e ↦
        let l : t'.capacity ≤ length bs = ground arith in
        let no_bytes : t'.buf ≡ [] = eq_nil t'.buf (c l) in
        let same : h.passed ≡ xs = sym (
          h.content
          ∙ ap (λ zs. h.passed ++ zs) (eq_nil _ (omega (arith, c l, length-drop t'.written t'.buf)))
          ∙ append-nil h.passed) in
        bypass-Writes n t t' xs bs g no_bytes h.within l
          (p.write n t'.inner xs bs (subst (p.Took n t'.inner) same h.Inner))
    | inr e ↦
        let l : length bs < t'.capacity = ground arith in
        writes {w' = record t' { buf = t'.buf ++ bs }} (length bs) (omega arith)
          (g _ (rw e (return-Gives _)))
          (record {
            passed = h.passed;
            Inner = h.Inner;
            within = omega (arith, h.within, length-append t'.buf bs);
            fits = omega (arith, d l, length-append t'.buf bs);
            content =
                ap (λ zs. xs ++ zs) (take_all bs)
                ∙ ap (λ zs. zs ++ bs) h.content
                ∙ append_assoc h.passed (drop t'.written t'.buf) bs
                ∙ ap (λ zs. h.passed ++ zs) (sym (drop-append t'.written t'.buf bs h.within));
          })
  ]

  flushed-Writes :
      (n : ℕ) (t : BufWriter W) (xs bs : List ℕ)
      → t.capacity < length t.buf + length bs
      → Flushes wr p n t xs
      → Writes (buf_writer wr) (Given wr p) n t xs bs
  unfolding on_flushed
  flushed-Writes n t xs bs l (blocked e h g) = waits e (flush-Gives t bs l h (return-Gives _)) g
  flushed-Writes n t xs bs l (broken d h g) = fails d (flush-Gives t bs l h (return-Gives _)) g
  flushed-Writes n t xs bs l (flushed {t'} h e e' g) =
      on-Writes n t t' xs bs (λ b k. flush-Gives t bs l h k) (empty-Given n t' xs e (omega arith) g)
        (λ q. ap length e) (λ q. omega (arith, ap length e))

  -- A poll to write to a BufWriter answers what a writer answers that was given all bytes, those in the
  -- buffer included: `Pending` or an error, and nothing is taken; or it takes some of the first bytes,
  -- after those before. The buffer keeps within its capacity.
  pub buf_writer-Writes :
      (n : ℕ) (t : BufWriter W) (xs bs : List ℕ)
      → Given wr p n t xs
      → Writes (buf_writer wr) (Given wr p) n t xs bs
  buf_writer-Writes n t xs bs h = elim (Bool-cases (ltb t.capacity (length t.buf + length bs))) [
    | inl e ↦ flushed-Writes n t xs bs (ground arith) (flush_buf-Flushes wr p n t xs h)
    | inr e ↦
        let l : length t.buf + length bs ≤ t.capacity = ground arith in
        on-Writes n t t xs bs (λ b k. on-Gives t bs b l k) h (λ q. omega arith) (λ q. l)
  ]

  abbrev pub buf_writer_Writer : Writer (buf_writer wr)
  buf_writer_Writer = record { Took = Given wr p; write = buf_writer-Writes }

  -- A flush passes on to the writer below once the buffer is empty.
  module _ (below : (n : ℕ) (w : W) (xs : List ℕ) → p.Took n w xs → Flush wr p.Took n w xs) where
    inner-Flush :
        (n : ℕ) (t t' : BufWriter W) (xs : List ℕ)
        → Gives (flush_buf wr t) (ready (ok tt), t')
        → t'.buf ≡ []
        → t'.written ≡ 0
        → Flush wr p.Took n t'.inner xs
        → Flush (buf_writer wr) (Given wr p) n t xs
    unfolding poll_flush then_inner
    inner-Flush n t t' xs g e z (Flush.waits d h i) =
        Flush.waits d (>>=-Gives (then_inner wr wr.poll_flush) g (map-Gives (on_inner t') h))
          (empty-Given _ _ xs e (omega arith) i)
    inner-Flush n t t' xs g e z (Flush.fails d h i) =
        Flush.fails d (>>=-Gives (then_inner wr wr.poll_flush) g (map-Gives (on_inner t') h))
          (empty-Given _ _ xs e (omega arith) i)
    inner-Flush n t t' xs g e z (Flush.flushed h i) =
        Flush.flushed (>>=-Gives (then_inner wr wr.poll_flush) g (map-Gives (on_inner t') h))
          (empty-Given _ _ xs e (omega arith) i)

    all-Flush :
        (n : ℕ) (t : BufWriter W) (xs : List ℕ)
        → Flushes wr p n t xs
        → Flush (buf_writer wr) (Given wr p) n t xs
    unfolding poll_flush then_inner
    all-Flush n t xs (blocked e h g) =
        Flush.waits e (>>=-Gives (then_inner wr wr.poll_flush) h (return-Gives _)) g
    all-Flush n t xs (broken d h g) =
        Flush.fails d (>>=-Gives (then_inner wr wr.poll_flush) h (return-Gives _)) g
    all-Flush n t xs (flushed {t'} h e z g) = inner-Flush n t t' xs h e z (below n t'.inner xs g)

    pub buf_writer-Flush :
        (n : ℕ) (t : BufWriter W) (xs : List ℕ)
        → Given wr p n t xs
        → Flush (buf_writer wr) (Given wr p) n t xs
    buf_writer-Flush n t xs h = all-Flush n t xs (flush_buf-Flushes wr p n t xs h)
