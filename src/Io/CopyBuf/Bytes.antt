-- ===== src/Io/CopyBuf/Bytes.antt =====
-- What `copy_buf` copies (io/copy_buf.rs).
use futures_rs.Prelude.{
  ℕ, zero, suc, ◌+◌, ◌%◌, ◌≤◌, ◌<◌, ◌≡◌, ◌≢◌, refl, sym, ap, ◌∙◌, subst, List, [], ◌∷◌, ◌++◌, arith,
  length, take, drop, ◌==◌, Bool-cases, inl, inr, length-take, length-drop,
}
use mathlib.Core.List.{append_assoc, append-nil}
use futures_rs.Prelude.Slices.{take-drop, take_more, drop-drop}
use futures_rs.Usize.{usize_mod}
use futures_rs.Task.{ready, pending}
use futures_rs.Run.{again, done, Gives, return-Gives, map-Gives, >>=-Gives}
use futures_rs.Io.{
  IoError, write_zero, ok, err, AsyncBufRead, AsyncWrite, Fills, fills, BufferedReader, Writes,
  writes, Writer, Flush, flushed,
}
use futures_rs.Io.Ends.{Ends, again-Ends, wait-Ends, done-Ends}
use futures_rs.Io.CopyBuf.{CopyBuf, copy_buf, on_flush, on_write, on_fill, round, copying}

module _ {ℓ} {R W : Type ℓ} (br : AsyncBufRead R) (wr : AsyncWrite W) (p : BufferedReader br)
    (q : Writer wr)
    (flush : (n : ℕ) (w : W) (xs : List ℕ) → q.Took n w xs → Flush wr q.Took n w xs) where
  -- How a copy ends when the bytes `xs` are to come and the writer was given `ys` before.
  pub data Copied (t : CopyBuf R W) (xs ys : List ℕ) : Type ℓ where
    copied :
        {i j : ℕ} {t' : CopyBuf R W}
        → Ends (copying br wr) t (ok (t.amt + length xs)) t'
        → p.Has i t'.reader []
        → q.Took j t'.writer (ys ++ xs)
        → Copied t xs ys
    failed :
        {i j : ℕ} {e : IoError} {t' : CopyBuf R W} (k : ℕ)
        → Ends (copying br wr) t (err e) t'
        → p.Has i t'.reader (drop k xs)
        → q.Took j t'.writer (ys ++ take k xs)
        → Copied t xs ys

  -- The state after a round.
  abbrev at : R → W → ℕ → CopyBuf R W
  at r w amt = record { reader = r; writer = w; amt = amt }

  wait-Copied :
      (t : CopyBuf R W) (r : R) (w : W) (xs ys : List ℕ)
      → Gives (round br wr t) (done pending (at r w t.amt))
      → Copied (at r w t.amt) xs ys
      → Copied t xs ys
  wait-Copied t r w xs ys g (copied e h i) = copied (wait-Ends (round br wr) g e) h i
  wait-Copied t r w xs ys g (failed k e h i) = failed k (wait-Ends (round br wr) g e) h i

  more-Copied :
      (t : CopyBuf R W) (r : R) (w : W) (k a : ℕ) (xs ys : List ℕ)
      → k ≤ length xs
      → a ≡ t.amt + k
      → Gives (round br wr t) (again (at r w a))
      → Copied (at r w a) (drop k xs) (ys ++ take k xs)
      → Copied t xs ys
  more-Copied t r w k a xs ys l d g (copied {j = j} {t'} e h i) =
      copied
        (subst (λ b. Ends (copying br wr) t (ok b) t') (omega (arith, length-drop k xs))
          (again-Ends (round br wr) g e))
        h
        (subst (q.Took j t'.writer)
          (append_assoc ys (take k xs) (drop k xs) ∙ ap (λ zs. ys ++ zs) (take-drop k xs)) i)
  more-Copied t r w k a xs ys l d g (failed {i = n} {j} {t' = t'} k' e h i) =
      failed (k + k') (again-Ends (round br wr) g e)
        (subst (p.Has n t'.reader) (drop-drop k' k xs) h)
        (subst (q.Took j t'.writer)
          (append_assoc ys (take k xs) (take k' (drop k xs))
            ∙ ap (λ zs. ys ++ zs) (take_more k k' xs))
          i)

  -- The first bytes were consumed: what `Fills` says of it.
  abbrev Consumes : ℕ → R → List ℕ → List ℕ → Type ℓ
  Consumes n r bs xs =
      (j : ℕ)
      → j ≤ length bs
      → (take j bs ≡ take j xs)
        × ((r' : R) × Gives (br.consume r j) (tt, r') × p.Has n r' (drop j xs))

  module _ (n m : ℕ) (t : CopyBuf R W) (xs ys : List ℕ) (small : t.amt + length xs < usize_mod)
      (rec : (n' m' : ℕ) (t' : CopyBuf R W) (xs' ys' : List ℕ)
        → n' + m' + length xs' < n + m + length xs
        → t'.amt + length xs' < usize_mod
        → p.Has n' t'.reader xs'
        → q.Took m' t'.writer ys'
        → Copied t' xs' ys') where
    written-Copied :
        (r : R) (b : ℕ) (bs : List ℕ)
        → p.Has n r xs
        → Consumes n r (b ∷ bs) xs
        → Gives (br.poll_fill_buf t.reader) (ready (ok (b ∷ bs)), r)
        → Writes wr q.Took m t.writer ys (b ∷ bs)
        → Copied t xs ys
    unfolding round on_fill on_write
    written-Copied r b bs h c g (Writes.waits {w' = w} e f i) =
        wait-Copied t r w xs ys
          (>>=-Gives (on_fill br wr t) g
            (>>=-Gives (on_write br wr (record t { reader = r })) f (return-Gives _)))
          (rec n _ (at r w t.amt) xs ys (omega arith) small h i)
    written-Copied r b bs h c g (Writes.fails {m = m'} {w' = w} e f i) =
        failed 0
          (done-Ends (round br wr) (
            >>=-Gives (on_fill br wr t) g
              (>>=-Gives (on_write br wr (record t { reader = r })) f (return-Gives _))))
          h (subst (q.Took m' w) (sym (append-nil ys)) i)
    written-Copied r b bs h c g (writes {w' = w} k l f i) = elim (Bool-cases (k == 0)) [
      | inl e ↦
          let k0 : k ≡ 0 = ground arith in
          failed {e = write_zero} {t' = at r w t.amt} 0
            (done-Ends (round br wr) (
              >>=-Gives (on_fill br wr t) g
                (>>=-Gives (on_write br wr (record t { reader = r })) f (rw e (return-Gives _)))))
            h (subst (λ j. q.Took m w (ys ++ take j (b ∷ bs))) k0 i)
      | inr e ↦
          let (same, (r', d, h')) = c k l in
          let some_written : k ≢ 0 = ground arith in
          let kx : k ≤ length xs =
            omega (arith, ap length same, length-take k (b ∷ bs), length-take k xs) in
          more-Copied t r' w k ((t.amt + k) % usize_mod) xs ys kx (omega arith)
            (>>=-Gives (on_fill br wr t) g (
              >>=-Gives (on_write br wr (record t { reader = r })) f (
                rw e (
                  map-Gives
                    (λ s.
                      again (record { reader = s.1; writer = w; amt = (t.amt + k) % usize_mod }))
                    d))))
            (rec n m (at r' w ((t.amt + k) % usize_mod)) (drop k xs) (ys ++ take k xs)
              (omega (arith, some_written, length-drop k xs)) (omega (arith, length-drop k xs)) h'
              (subst (λ zs. q.Took m w (ys ++ zs)) same i))
    ]

    flushed-Copied :
        (r : R)
        → p.Has n r xs
        → xs ≡ []
        → Gives (br.poll_fill_buf t.reader) (ready (ok []), r)
        → Flush wr q.Took m t.writer ys
        → Copied t xs ys
    unfolding round on_fill
    flushed-Copied r h z g (Flush.waits {w' = w} e f i) =
        wait-Copied t r w xs ys
          (>>=-Gives (on_fill br wr t) g (map-Gives (on_flush br wr (record t { reader = r })) f))
          (rec n _ (at r w t.amt) xs ys (omega arith) small h i)
    flushed-Copied r h z g (Flush.fails {m = m'} {w' = w} e f i) =
        failed 0
          (done-Ends (round br wr) (
            >>=-Gives (on_fill br wr t) g (map-Gives (on_flush br wr (record t { reader = r })) f)))
          h (subst (q.Took m' w) (sym (append-nil ys)) i)
    flushed-Copied r h z g (flushed {w' = w} f i) =
        copied
          (subst (λ a. Ends (copying br wr) t (ok a) (at r w t.amt)) (omega (arith, ap length z))
            (done-Ends (round br wr) (
              >>=-Gives (on_fill br wr t) g
                (map-Gives (on_flush br wr (record t { reader = r })) f))))
          (subst (p.Has n r) z h)
          (subst (q.Took m w) (sym (ap (λ zs. ys ++ zs) z ∙ append-nil ys)) i)

    step-Copied : q.Took m t.writer ys → Fills br p.Has n t.reader xs → Copied t xs ys
    unfolding round on_fill
    step-Copied w (Fills.waits {r'} e g h) =
        wait-Copied t r' t.writer xs ys (>>=-Gives (on_fill br wr t) g (return-Gives _))
          (rec _ m (at r' t.writer t.amt) xs ys (omega arith) small h w)
    step-Copied w (Fills.fails e g h) =
        failed 0 (done-Ends (round br wr) (>>=-Gives (on_fill br wr t) g (return-Gives _))) h
          (subst (q.Took m t.writer) (sym (append-nil ys)) w)
    step-Copied w (fills {r'} [] g z h c) = flushed-Copied r' h (z refl) g (flush m t.writer ys w)
    step-Copied w (fills {r'} (b ∷ bs) g z h c) =
        written-Copied r' b bs h c g (q.write m t.writer ys (b ∷ bs) w)

  all-Copied :
      (k n m : ℕ) (t : CopyBuf R W) (xs ys : List ℕ)
      → n + m + length xs < k
      → t.amt + length xs < usize_mod
      → p.Has n t.reader xs
      → q.Took m t.writer ys
      → Copied t xs ys
  all-Copied zero n m t xs ys l s h w = absurd (omega arith)
  all-Copied (suc k) n m t xs ys l s h w =
      step-Copied n m t xs ys s
        (λ n' m' t' xs' ys' l' s' h' w'. all-Copied k n' m' t' xs' ys' (omega arith) s' h' w') w
        (p.fill n t.reader xs h)

  -- If a reader has fewer than 2^64 bytes to come, then `copy_buf` ends: the writer was given all of
  -- them, in order, after those before, and the answer is their number; or it ends with an error, and
  -- the bytes that the writer was not given are still to come.
  pub copy_buf-Copied :
      (n m : ℕ) (r : R) (w : W) (xs ys : List ℕ)
      → length xs < usize_mod
      → p.Has n r xs
      → q.Took m w ys
      → Copied (copy_buf br wr r w) xs ys
  copy_buf-Copied n m r w xs ys s h i =
      all-Copied (suc (n + m + length xs)) n m (copy_buf br wr r w) xs ys (omega arith)
        (omega arith) h i
