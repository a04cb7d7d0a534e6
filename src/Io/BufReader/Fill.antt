-- ===== src/Io/BufReader/Fill.antt =====
-- What `poll_fill_buf` and `consume` of a BufReader do (io/buf_reader.rs), when the buffer is not of
-- length 0: with such a buffer `poll_fill_buf` answers no bytes at any time.
use futures_rs.Prelude.{
  ℕ, ◌-◌, ◌<◌, ◌≡◌, ◌≢◌, sym, ap, ◌∙◌, subst, List, [], ◌++◌, arith, length, take, drop, leb, ◌==◌,
  Bool-cases, inl, inr, ◌⊎◌, length-append, length-take, length-drop,
}
use futures_rs.Prelude.Slices.{take-append}
use futures_rs.Task.{ready}
use futures_rs.Run.{Gives, return-Gives}
use futures_rs.Io.{ok, AsyncRead, Reads, waits, fails, reads, Reader, Fills, BufferedReader}
use futures_rs.Io.BufReader.{BufReader, consume, on_fill, poll_fill_buf, buffered_reader}
use futures_rs.Io.BufReader.Bytes.{
  Buffered, inside, length-inside, consume-Buffered, empty-Buffered, refill, refill-Buffered,
  fill-Gives, filled-Gives,
}

module _ {ℓ} {R : Type ℓ} (rd : AsyncRead R) (p : Reader rd) where
  -- What is to come, of a BufReader with room in its buffer.
  abbrev pub Roomy : ℕ → BufReader R → List ℕ → Type ℓ
  Roomy n t xs = Buffered rd p n t xs × (length t.buffer ≢ 0)

  ready-Fills :
      (n : ℕ) (t t' : BufReader R) (xs : List ℕ)
      → Gives (poll_fill_buf rd t) (ready (ok (inside rd p t')), t')
      → Roomy n t' xs
      → (t'.pos < t'.cap) ⊎ (xs ≡ [])
      → Fills (buffered_reader rd) Roomy n t xs
  ready-Fills n t t' xs g h c =
      let b : Buffered rd p n t' xs = h.0 in
      let l : length (inside rd p t') ≡ t'.cap - t'.pos = length-inside rd p t' b.fits in
      Fills.fills (inside rd p t') g
        (λ e. elim c [ inl i ↦ absurd (omega (arith, ap length e)) | inr z ↦ z ]) h
        (λ j i. (
          sym (take-append j (inside rd p t') b.rest i) ∙ ap (take j) (sym b.content),
          (
            consume t' j,
            return-Gives (tt, consume t' j),
            (consume-Buffered rd p n t' xs j b (omega arith), h.1),
          ),
        ))

  read-Fills :
      (n : ℕ) (t : BufReader R) (ys : List ℕ)
      → Buffered rd p n t ys
      → t.pos ≡ t.cap
      → length t.buffer ≢ 0
      → Reads rd p.Has n t.inner ys t.buffer
      → Fills (buffered_reader rd) Roomy n t ys
  unfolding on_fill
  read-Fills n t ys b e nz (waits d l h g) =
      Fills.waits d (fill-Gives rd p t e h (return-Gives _)) (
        empty-Buffered rd p _ _ ys g e (omega (arith, b.fits)) (omega (arith, b.small)),
        λ z. omega (arith, nz),
      )
  read-Fills n t ys b e nz (fails d l h g) =
      Fills.fails (omega arith) (fill-Gives rd p t e h (return-Gives _)) (
        empty-Buffered rd p _ _ ys g e (omega (arith, b.fits)) (omega (arith, b.small)),
        λ z. omega (arith, nz),
      )
  read-Fills n t ys b e nz (reads {r'} k l l' z h g) =
      let b' : Buffered rd p n (refill rd p t r' k ys) ys =
        refill-Buffered rd p n t r' k ys l l' b.small g in
      ready-Fills n t (refill rd p t r' k ys) ys
        (fill-Gives rd p t e h (filled-Gives rd p (refill rd p t r' k ys) b'.ordered b'.fits))
        (
          b',
          λ e'. omega (
            arith,
            nz,
            length-append (take k ys) (drop k t.buffer),
            length-take k ys,
            length-drop k t.buffer,
          ),
        )
        (elim (Bool-cases (k == 0)) [
          | inl k0 ↦ inr (z (ground arith) nz)
          | inr k1 ↦ inl (ground arith)
        ])

  pub buffered_reader-Fills :
      (n : ℕ) (t : BufReader R) (xs : List ℕ)
      → Roomy n t xs
      → Fills (buffered_reader rd) Roomy n t xs
  unfolding poll_fill_buf
  buffered_reader-Fills n t xs h = elim (Bool-cases (leb t.cap t.pos)) [
    | inl e ↦
        let b : Buffered rd p n t xs = h.0 in
        let q : t.pos ≡ t.cap = ground (arith, b.ordered) in
        let same : b.rest ≡ xs =
          sym
            (b.content ∙ ap (λ i. take i (drop t.pos t.buffer) ++ b.rest) {y = 0} (omega arith)) in
        let i : p.Has n t.inner xs = subst (p.Has n t.inner) same b.Inner in
        read-Fills n t xs b q h.1 (p.read n t.inner xs t.buffer i)
    | inr e ↦
        let b : Buffered rd p n t xs = h.0 in
        ready-Fills n t t xs (rw e (filled-Gives rd p t b.ordered b.fits)) h
          (inl (ground (arith, b.ordered)))
  ]

  abbrev pub buffered_BufferedReader : BufferedReader (buffered_reader rd)
  buffered_BufferedReader = record { Has = Roomy; fill = buffered_reader-Fills }
