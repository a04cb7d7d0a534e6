-- ===== src/Io/BufReader/Bytes.antt =====
-- A BufReader has the bytes of its reader to come (io/buf_reader.rs).
use futures_rs.Prelude.{
  ℕ, ◌+◌, ◌-◌, ◌≤◌, ◌<◌, ◌≡◌, ◌≢◌, refl, sym, ap, ◌∙◌, subst, List, [], ◌++◌, true, false, ◌&&◌,
  arith, length, take, drop, leb, ◌==◌, Bool-cases, inl, inr, ◌⊎◌, length-append, length-take,
  length-drop,
}
use Prim.Native.Nat.{min}
use futures_rs.Prelude.Slices.{
  take_front, take-drop, take-append, drop-append, drop-take, drop-drop,
}
use futures_rs.Usize.{usize_max}
use futures_rs.Task.{Poll, ready}
use futures_rs.Run.{Gives, return-Gives, map-Gives, >>=-Gives}
use futures_rs.Io.{IoResult, ok, AsyncRead, slice-Gives, Reads, waits, fails, reads, Reader}
use futures_rs.Io.BufReader.{
  BufReader, consume, filled, on_fill, on_bypass, on_filled, poll_fill_buf, poll_read, buf_reader,
}

module _ {ℓ} {R : Type ℓ} (rd : AsyncRead R) (p : Reader rd) where
  -- The bytes in the buffer.
  abbrev pub inside : BufReader R → List ℕ
  inside t = take (t.cap - t.pos) (drop t.pos t.buffer)

  -- What is to come of a BufReader: the bytes in its buffer, and then those of its reader.
  pub record Buffered (n : ℕ) (t : BufReader R) (xs : List ℕ) : Type ℓ where
    pub rest : List ℕ
    pub Inner : p.Has n t.inner rest
    pub ordered : t.pos ≤ t.cap
    pub fits : t.cap ≤ length t.buffer
    pub small : length t.buffer ≤ usize_max
    pub content : xs ≡ inside t ++ rest

  pub length-inside :
      (t : BufReader R) → t.cap ≤ length t.buffer → length (inside t) ≡ t.cap - t.pos
  length-inside t h =
      omega (arith, length-take (t.cap - t.pos) (drop t.pos t.buffer), length-drop t.pos t.buffer)

  moved-Buffered :
      (n : ℕ) (t : BufReader R) (xs : List ℕ) (k j : ℕ)
      → Buffered n t xs
      → k ≤ t.cap - t.pos
      → j ≡ t.pos + k
      → Buffered n (record t { pos = j }) (drop k xs)
  moved-Buffered n t xs k j h l e = record {
    rest = h.rest;
    Inner = h.Inner;
    ordered = omega (arith, h.ordered);
    fits = h.fits;
    small = h.small;
    content =
        ap (drop k) h.content
        ∙ drop-append k (inside t) h.rest (omega (arith, length-inside t h.fits))
        ∙ ap (λ zs. zs ++ h.rest)
            (drop-take k (t.cap - t.pos) (drop t.pos t.buffer)
              ∙ ap (λ zs. take (t.cap - t.pos - k) zs)
                  (drop-drop k t.pos t.buffer ∙ ap (λ i. drop i t.buffer) (sym e))
              ∙ ap (λ i. take i (drop j t.buffer)) (omega arith));
  }

  pub consume-Buffered :
      (n : ℕ) (t : BufReader R) (xs : List ℕ) (k : ℕ)
      → Buffered n t xs
      → k ≤ t.cap - t.pos
      → Buffered n (consume t k) (drop k xs)
  consume-Buffered n t xs k h l =
      moved-Buffered n t xs k _ h l (omega (arith, h.ordered, h.fits, h.small))

  through-Gives :
      (t : BufReader R) (buf : List ℕ) {a : Poll (IoResult (List ℕ)) × BufReader R}
      → (t.pos == t.cap && leb (length t.buffer) (length buf)) ≡ false
      → Gives (poll_fill_buf rd t) a
      → Gives (poll_read rd t buf) (on_filled buf a)
  unfolding poll_read
  through-Gives t buf e h = rw e (map-Gives (on_filled buf) h)

  -- Once the bytes in the buffer are there, some of them are read.
  drained :
      (n : ℕ) (t t' : BufReader R) (xs buf : List ℕ)
      → (t.pos == t.cap && leb (length t.buffer) (length buf)) ≡ false
      → Gives (poll_fill_buf rd t) (ready (ok (inside t')), t')
      → Buffered n t' xs
      → (t'.pos < t'.cap) ⊎ (xs ≡ [])
      → Reads (buf_reader rd) Buffered n t xs buf
  drained n t t' xs buf e h b c =
      let k : ℕ = min (length buf) (length (inside t')) in
      let li : length (inside t') ≡ t'.cap - t'.pos = length-inside t' b.fits in
      let same : take k (inside t') ≡ take k xs =
        sym (take-append k (inside t') b.rest (omega arith)) ∙ ap (take k) (sym b.content) in
      reads k (omega arith) (omega (arith, ap length b.content, length-append (inside t') b.rest))
        (λ k0 ne. elim c [ inl l ↦ absurd (omega (arith, ne)) | inr none_left ↦ none_left ])
        (subst (λ zs. Gives (poll_read rd t buf) (ready (ok k), (consume t' k, zs ++ drop k buf)))
          same (through-Gives t buf e h))
        (consume-Buffered n t' xs k b (omega arith))

  pub empty-Buffered :
      (n : ℕ) (t : BufReader R) (ys : List ℕ)
      → p.Has n t.inner ys
      → t.pos ≡ t.cap
      → t.cap ≤ length t.buffer
      → length t.buffer ≤ usize_max
      → Buffered n t ys
  empty-Buffered n t ys h e f s = record {
    rest = ys;
    Inner = h;
    ordered = omega arith;
    fits = f;
    small = s;
    content = ap (λ i. take i (drop t.pos t.buffer) ++ ys) {x = 0} (omega arith);
  }

  pub filled-Gives :
      (t : BufReader R)
      → t.pos ≤ t.cap
      → t.cap ≤ length t.buffer
      → Gives (filled t) (ready (ok (inside t)), t)
  unfolding filled
  filled-Gives t o f = map-Gives (λ rem. (ready (ok rem), t)) (slice-Gives t.pos t.cap t.buffer o f)

  pub fill-Gives :
      (t : BufReader R) {a : Poll (IoResult ℕ) × (R × List ℕ)}
      {b : Poll (IoResult (List ℕ)) × BufReader R}
      → t.pos ≡ t.cap
      → Gives (rd.poll_read t.inner t.buffer) a
      → Gives (on_fill t a) b
      → Gives (poll_fill_buf rd t) b
  unfolding poll_fill_buf
  fill-Gives t e h g =
      let l : leb t.cap t.pos ≡ true = ground arith in rw l (>>=-Gives (on_fill t) h g)

  -- A read has filled the buffer.
  abbrev pub refill : BufReader R → R → ℕ → List ℕ → BufReader R
  refill t r k ys = record { inner = r; buffer = take k ys ++ drop k t.buffer; pos = 0; cap = k }

  pub refill-Buffered :
      (n : ℕ) (t : BufReader R) (r : R) (k : ℕ) (ys : List ℕ)
      → k ≤ length t.buffer
      → k ≤ length ys
      → length t.buffer ≤ usize_max
      → p.Has n r (drop k ys)
      → Buffered n (refill t r k ys) ys
  refill-Buffered n t r k ys l l' s h =
      let b : List ℕ = take k ys ++ drop k t.buffer in
      let lb : length b ≡ length t.buffer = omega (
        arith,
        length-append (take k ys) (drop k t.buffer),
        length-take k ys,
        length-drop k t.buffer,
      ) in
      record {
        rest = drop k ys;
        Inner = h;
        ordered = omega arith;
        fits = omega arith;
        small = omega arith;
        content = sym (
            ap (λ zs. zs ++ drop k ys)
              (ap (λ i. take i b) {y = k} (omega arith) ∙ take_front k ys (drop k t.buffer) l')
            ∙ take-drop k ys);
      }

  -- The buffer is filled first.
  refilled :
      (n : ℕ) (t : BufReader R) (ys buf : List ℕ)
      → (t.pos == t.cap && leb (length t.buffer) (length buf)) ≡ false
      → t.pos ≡ t.cap
      → t.cap ≤ length t.buffer
      → length t.buffer ≤ usize_max
      → length t.buffer ≢ 0
      → Reads rd p.Has n t.inner ys t.buffer
      → Reads (buf_reader rd) Buffered n t ys buf
  unfolding on_fill
  refilled n t ys buf c e f s nz (waits d l h g) =
      waits d refl (through-Gives t buf c (fill-Gives t e h (return-Gives _)))
        (empty-Buffered _ _ ys g e (omega arith) (omega arith))
  refilled n t ys buf c e f s nz (fails d l h g) =
      fails d refl (through-Gives t buf c (fill-Gives t e h (return-Gives _)))
        (empty-Buffered _ _ ys g e (omega arith) (omega arith))
  refilled n t ys buf c e f s nz (reads {r'} k l l' z h g) =
      let b : Buffered n (refill t r' k ys) ys = refill-Buffered n t r' k ys l l' s g in
      drained n t (refill t r' k ys) ys buf c
        (fill-Gives t e h (filled-Gives (refill t r' k ys) b.ordered b.fits)) b
        (elim (Bool-cases (k == 0)) [
          | inl k0 ↦ inr (z (ground arith) nz)
          | inr k1 ↦ inl (ground arith)
        ])

  bypass-Gives :
      (t : BufReader R) (buf : List ℕ) {a : Poll (IoResult ℕ) × (R × List ℕ)}
      → (t.pos == t.cap && leb (length t.buffer) (length buf)) ≡ true
      → Gives (rd.poll_read t.inner buf) a
      → Gives (poll_read rd t buf) (on_bypass t a)
  unfolding poll_read
  bypass-Gives t buf c h = rw c (map-Gives (on_bypass t) h)

  bypassed :
      (n : ℕ) (t : BufReader R) (ys buf : List ℕ)
      → (t.pos == t.cap && leb (length t.buffer) (length buf)) ≡ true
      → t.pos ≡ t.cap
      → t.cap ≤ length t.buffer
      → length t.buffer ≤ usize_max
      → Reads rd p.Has n t.inner ys buf
      → Reads (buf_reader rd) Buffered n t ys buf
  bypassed n t ys buf c e f s (waits d l h g) =
      waits d l (bypass-Gives t buf c h) (empty-Buffered _ _ ys g e f s)
  bypassed n t ys buf c e f s (fails d l h g) =
      fails d l (bypass-Gives t buf c h) (empty-Buffered _ _ ys g refl (omega arith) s)
  bypassed n t ys buf c e f s (reads k l l' z h g) =
      reads k l l' z (bypass-Gives t buf c h)
        (empty-Buffered _ _ (drop k ys) g refl (omega arith) s)

  -- A poll of a BufReader answers what a reader answers that has the bytes in the buffer to come, and
  -- then those of the reader below: `Pending` or an error, and all bytes are still to come; or it reads
  -- some of the first bytes, and none only when there are none or the caller's buffer is empty. Its
  -- positions stay within the buffer.
  pub buf_reader-Reads :
      (n : ℕ) (t : BufReader R) (xs buf : List ℕ)
      → Buffered n t xs
      → Reads (buf_reader rd) Buffered n t xs buf
  unfolding poll_fill_buf
  buf_reader-Reads n t xs buf b = elim (Bool-cases (t.pos == t.cap)) [
    | inl e ↦
        let q : t.pos ≡ t.cap = ground arith in
        let same : b.rest ≡ xs =
          sym
            (b.content ∙ ap (λ i. take i (drop t.pos t.buffer) ++ b.rest) {y = 0} (omega arith)) in
        subst (λ zs. Reads (buf_reader rd) Buffered n t zs buf) same
          (elim (Bool-cases (leb (length t.buffer) (length buf))) [
            | inl l ↦
                bypassed n t b.rest buf (ground arith) q b.fits b.small (p.read _ _ _ _ b.Inner)
            | inr l ↦
                refilled n t b.rest buf (ground arith) q b.fits b.small (ground arith)
                  (p.read _ _ _ _ b.Inner)
          ])
    | inr e ↦
        let l : leb t.cap t.pos ≡ false = ground (arith, b.ordered) in
        drained n t t xs buf (ground arith) (rw l (filled-Gives t b.ordered b.fits)) b
          (inl (ground (arith, b.ordered)))
  ]

  abbrev pub buf_reader_Reader : Reader (buf_reader rd)
  buf_reader_Reader = record { Has = Buffered; read = buf_reader-Reads }
