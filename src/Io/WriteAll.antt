-- ===== src/Io/WriteAll.antt =====
-- futures-util/src/io/write_all.rs
use futures_rs.Prelude.{
  ℕ, zero, suc, ◌+◌, ◌≤◌, ◌<◌, ◌≡◌, ◌≢◌, sym, ap, ◌∙◌, subst, List, ◌++◌, Bool, true, false, arith,
  length, take, drop, leb, ◌==◌, if◌then◌else◌, Bool-cases, inl, inr, length-drop,
}
use mathlib.Core.List.{append_assoc, append-nil}
use futures_rs.Prelude.Slices.{take-drop, take_more, eq_nil}
use futures_rs.Task.{Poll, ready, pending}
use futures_rs.Run.{Run, Turn, again, done, return, panic, ◌>>=◌, Gives, return-Gives, >>=-Gives}
use futures_rs.Stream.{Future, looped_future}
use futures_rs.Io.{
  IoError, write_zero, IoResult, ok, err, AsyncWrite, Writes, waits, fails, writes, Writer,
}
use futures_rs.Io.Ends.{Ends, again-Ends, wait-Ends, done-Ends}

pub record WriteAll {ℓ} (W : Type ℓ) : Type ℓ where
  pub writer : W
  pub buf : List ℕ

module _ {ℓ} {W : Type ℓ} where
  abbrev pub new : W → List ℕ → WriteAll W
  new w buf = record { writer = w; buf = buf }

  -- What follows the poll of the writer; `split_at(n)` panics when `n` is too large.
  unfoldable pub on_write :
      List ℕ → Poll (IoResult ℕ) × W → Run (Turn (WriteAll W) (Poll (IoResult (Unit {0}))))
  on_write buf (pending, w) = return (done pending (new w buf))
  on_write buf (ready (err e), w) = return (done (ready (err e)) (new w buf))
  on_write buf (ready (ok n), w) =
      if leb n (length buf)
      then if n == 0
        then return (done (ready (err write_zero)) (new w (drop n buf)))
        else return (again (new w (drop n buf)))
      else panic

module _ {ℓ} {W : Type ℓ} (wr : AsyncWrite W) where
  unfoldable pub round : WriteAll W → Run (Turn (WriteAll W) (Poll (IoResult (Unit {0}))))
  round t =
      if length t.buf == 0
      then return (done (ready (ok tt)) t)
      else (wr.poll_write t.writer t.buf >>= on_write t.buf)

  abbrev pub write_all : Future (WriteAll W) (IoResult (Unit {0}))
  write_all = looped_future round

module _ {ℓ} {W : Type ℓ} (wr : AsyncWrite W) (p : Writer wr) where
  -- How `write_all` ends when the bytes `xs` were written before: with all bytes written, or with an
  -- error after the first of them.
  pub data Written (t : WriteAll W) (xs : List ℕ) : Type ℓ where
    all_written :
        {m : ℕ} {t' : WriteAll W}
        → Ends (write_all wr) t (ok tt) t'
        → p.Took m t'.writer (xs ++ t.buf)
        → Written t xs
    failed :
        {m : ℕ} {e : IoError} {t' : WriteAll W} (k : ℕ)
        → Ends (write_all wr) t (err e) t'
        → p.Took m t'.writer (xs ++ take k t.buf)
        → Written t xs

  round-Gives :
      (t : WriteAll W) {a : Poll (IoResult ℕ) × W}
      {b : Turn (WriteAll W) (Poll (IoResult (Unit {0})))}
      → length t.buf ≢ 0
      → Gives (wr.poll_write t.writer t.buf) a
      → Gives (on_write t.buf a) b
      → Gives (round wr t) b
  unfolding round
  round-Gives t nz h g =
      let e : (length t.buf == 0) ≡ false = ground arith in rw e (>>=-Gives (on_write t.buf) h g)

  wait-Written :
      (t : WriteAll W) (w : W) (xs : List ℕ)
      → Gives (round wr t) (done pending (new w t.buf))
      → Written (new w t.buf) xs
      → Written t xs
  wait-Written t w xs g (all_written e h) = all_written (wait-Ends (round wr) g e) h
  wait-Written t w xs g (failed k e h) = failed k (wait-Ends (round wr) g e) h

  more-Written :
      (t : WriteAll W) (w : W) (k : ℕ) (xs : List ℕ)
      → Gives (round wr t) (again (new w (drop k t.buf)))
      → Written (new w (drop k t.buf)) (xs ++ take k t.buf)
      → Written t xs
  more-Written t w k xs g (all_written {m} {t'} e h) = all_written (again-Ends (round wr) g e) (
      subst (p.Took m t'.writer)
        (append_assoc xs (take k t.buf) (drop k t.buf) ∙ ap (λ zs. xs ++ zs) (take-drop k t.buf)) h)
  more-Written t w k xs g (failed {m} {t' = t'} j e h) =
      failed (k + j) (again-Ends (round wr) g e) (
        subst (p.Took m t'.writer)
          (append_assoc xs (take k t.buf) (take j (drop k t.buf))
            ∙ ap (λ zs. xs ++ zs) (take_more k j t.buf))
          h)

  turn-Gives :
      (t : WriteAll W) (w : W) (k : ℕ) (b : Bool)
      → k ≤ length t.buf
      → (k == 0) ≡ b
      → Gives (on_write t.buf (ready (ok k), w)) (
          if b
          then done (ready (err write_zero)) (new w (drop k t.buf))
          else again (new w (drop k t.buf)))
  unfolding on_write
  turn-Gives t w k true l e =
      let f : leb k (length t.buf) ≡ true = ground arith in
      rw (f, e) (return-Gives (done (ready (err write_zero)) (new w (drop k t.buf))))
  turn-Gives t w k false l e =
      let f : leb k (length t.buf) ≡ true = ground arith in
      rw (f, e) (return-Gives (again (new w (drop k t.buf))))

  step-Written :
      (n : ℕ) (t : WriteAll W) (xs : List ℕ)
      → length t.buf ≢ 0
      → ((n' : ℕ) (t' : WriteAll W) (xs' : List ℕ)
          → n' + length t'.buf < n + length t.buf
          → p.Took n' t'.writer xs'
          → Written t' xs')
      → Writes wr p.Took n t.writer xs t.buf
      → Written t xs
  unfolding on_write
  step-Written n t xs nz rec (waits {m} {w'} e h g) =
      wait-Written t w' xs (round-Gives t nz h (return-Gives _))
        (rec m (new w' t.buf) xs (omega arith) g)
  step-Written n t xs nz rec (fails {m} {w'} d h g) =
      failed 0 (done-Ends (round wr) (round-Gives t nz h (return-Gives _)))
        (subst (p.Took m w') (sym (append-nil xs)) g)
  step-Written n t xs nz rec (writes {w'} k l h g) = elim (Bool-cases (k == 0)) [
    | inl e ↦ failed k (done-Ends (round wr) (round-Gives t nz h (turn-Gives t w' k true l e))) g
    | inr e ↦
        let some_written : k ≢ 0 = ground arith in
        more-Written t w' k xs (round-Gives t nz h (turn-Gives t w' k false l e)) (
          rec n (new w' (drop k t.buf)) (xs ++ take k t.buf)
            (omega (arith, some_written, length-drop k t.buf)) g)
  ]

  written :
      (m n : ℕ) (t : WriteAll W) (xs : List ℕ)
      → n + length t.buf < m
      → p.Took n t.writer xs
      → Written t xs
  unfolding round
  written zero n t xs l h = absurd (omega arith)
  written (suc m) n t xs l h = elim (Bool-cases (length t.buf == 0)) [
    | inl e ↦ all_written {m = n} {t' = t} (done-Ends (round wr) (rw e (return-Gives _))) (
        subst (p.Took n t.writer)
          (sym (ap (λ zs. xs ++ zs) (eq_nil t.buf (ground arith)) ∙ append-nil xs)) h)
    | inr e ↦
        step-Written n t xs (ground arith) (λ n' t' xs' l' h'. written m n' t' xs' (omega arith) h')
          (p.write n t.writer xs t.buf h)
  ]

  -- If a writer was given the bytes `xs`, then `write_all` ends: the writer was then given all bytes of
  -- the buffer after them, or it ends with an error and the writer was given the first of them.
  pub write_all-Written : (n : ℕ) (w : W) (xs buf : List ℕ) → p.Took n w xs → Written (new w buf) xs
  write_all-Written n w xs buf h = written (suc (n + length buf)) n (new w buf) xs (omega arith) h
