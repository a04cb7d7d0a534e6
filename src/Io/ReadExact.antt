-- ===== src/Io/ReadExact.antt =====
-- futures-util/src/io/read_exact.rs
pub mod Bytes
use futures_rs.Prelude.{
  ℕ, zero, suc, ◌+◌, ◌≤◌, ◌<◌, ◌≡◌, ◌≢◌, refl, sym, ap, ◌∙◌, subst, List, [], ◌++◌, Bool, true,
  false, arith, length, take, drop, leb, ◌==◌, if◌then◌else◌, Bool-cases, inl, inr, length-append,
  length-take, length-drop,
}
use mathlib.Core.List.{append_assoc, append-nil}
use futures_rs.Prelude.Slices.{
  take-nil, drop-nil, drop-drop, take-drop, take_more, take_front, drop_front, eq_nil,
}
use futures_rs.Task.{Poll, ready, pending}
use futures_rs.Run.{
  Run, Turn, again, done, return, panic, ◌>>=◌, Gives, return-Gives, return_eq-Gives, >>=-Gives,
}
use futures_rs.Stream.{Future, looped_future}
use futures_rs.Io.{
  IoError, unexpected_eof, IoResult, ok, err, AsyncRead, Reads, waits, fails, reads, Reader,
}
use futures_rs.Io.Ends.{Ends, again-Ends, wait-Ends, done-Ends}

-- `filled` is the part of the caller's buffer that was split off from `buf`.
pub record ReadExact {ℓ} (R : Type ℓ) : Type ℓ where
  pub reader : R
  pub filled : List ℕ
  pub buf : List ℕ

module _ {ℓ} {R : Type ℓ} where
  abbrev pub new : R → List ℕ → ReadExact R
  new r buf = record { reader = r; filled = []; buf = buf }

  -- `split_at_mut(n)`, and the test of `n` after it.
  unfoldable pub split : ReadExact R → ℕ → Turn (ReadExact R) (Poll (IoResult (Unit {0})))
  split t n =
      let t' = record t { filled = t.filled ++ take n t.buf; buf = drop n t.buf } in
      if n == 0 then done (ready (err unexpected_eof)) t' else again t'

  unfoldable pub on_read :
      List ℕ
      → Poll (IoResult ℕ) × (R × List ℕ)
      → Run (Turn (ReadExact R) (Poll (IoResult (Unit {0}))))
  on_read filled (pending, (r, buf)) =
      return (done pending (record { reader = r; filled = filled; buf = buf }))
  on_read filled (ready (err e), (r, buf)) =
      return (done (ready (err e)) (record { reader = r; filled = filled; buf = buf }))
  on_read filled (ready (ok n), (r, buf)) =
      if leb n (length buf)
      then return (split (record { reader = r; filled = filled; buf = buf }) n)
      else panic

module _ {ℓ} {R : Type ℓ} (rd : AsyncRead R) where
  unfoldable pub round : ReadExact R → Run (Turn (ReadExact R) (Poll (IoResult (Unit {0}))))
  round t =
      if length t.buf == 0
      then return (done (ready (ok tt)) t)
      else (rd.poll_read t.reader t.buf >>= on_read t.filled)

  abbrev pub read_exact : Future (ReadExact R) (IoResult (Unit {0}))
  read_exact = looped_future round
