-- ===== src/Io/CopyBuf.antt =====
-- futures-util/src/io/copy_buf.rs
pub mod Bytes
use futures_rs.Prelude.{
  ℕ, zero, suc, ◌+◌, ◌-◌, ◌%◌, ◌≤◌, ◌<◌, ◌≡◌, ◌≢◌, refl, sym, ap, ◌∙◌, subst, List, [], ◌∷◌, ◌++◌,
  Bool, true, false, arith, length, take, drop, leb, ◌==◌, if◌then◌else◌, Bool-cases, inl, inr,
  length-append, length-take, length-drop,
}
use mathlib.Core.List.{append_assoc, append-nil}
use futures_rs.Prelude.Slices.{take-drop, take_more, drop-drop, eq_nil}
use futures_rs.Usize.{usize_mod}
use futures_rs.Task.{Poll, ready, pending}
use futures_rs.Run.{
  Run, Turn, again, done, return, ◌>>=◌, Gives, return-Gives, map-Gives, >>=-Gives,
}
use futures_rs.Stream.{Future, looped_future}
use futures_rs.Io.{
  IoError, write_zero, IoResult, ok, err, AsyncBufRead, AsyncWrite, Fills, fills, BufferedReader,
  Writes, writes, Writer, Flush, flushed,
}
use futures_rs.Io.Ends.{Ends, again-Ends, wait-Ends, done-Ends}

pub record CopyBuf {ℓ} (R W : Type ℓ) : Type ℓ where
  pub reader : R
  pub writer : W
  pub amt : ℕ

module _ {ℓ} {R W : Type ℓ} (br : AsyncBufRead R) (wr : AsyncWrite W) where
  abbrev pub copy_buf : R → W → CopyBuf R W
  copy_buf r w = record { reader = r; writer = w; amt = 0 }

  abbrev pub on_flush :
      CopyBuf R W → Poll (IoResult (Unit {0})) × W → Turn (CopyBuf R W) (Poll (IoResult ℕ))
  on_flush t (pending, w) = done pending (record t { writer = w })
  on_flush t (ready (err e), w) = done (ready (err e)) (record t { writer = w })
  on_flush t (ready (ok u), w) = done (ready (ok t.amt)) (record t { writer = w })

  -- What follows the poll of the writer. `amt` is a u64.
  unfoldable pub on_write :
      CopyBuf R W → Poll (IoResult ℕ) × W → Run (Turn (CopyBuf R W) (Poll (IoResult ℕ)))
  on_write t (pending, w) = return (done pending (record t { writer = w }))
  on_write t (ready (err e), w) = return (done (ready (err e)) (record t { writer = w }))
  on_write t (ready (ok i), w) =
      if i == 0
      then return (done (ready (err write_zero)) (record t { writer = w }))
      else (br.consume t.reader i >>= λ r.
          return (again (record { reader = r.1; writer = w; amt = (t.amt + i) % usize_mod })))

  -- What follows the poll of the reader.
  unfoldable pub on_fill :
      CopyBuf R W → Poll (IoResult (List ℕ)) × R → Run (Turn (CopyBuf R W) (Poll (IoResult ℕ)))
  on_fill t (pending, r) = return (done pending (record t { reader = r }))
  on_fill t (ready (err e), r) = return (done (ready (err e)) (record t { reader = r }))
  on_fill t (ready (ok []), r) =
      wr.poll_flush t.writer >>= λ s. return (on_flush (record t { reader = r }) s)
  on_fill t (ready (ok (b ∷ bs)), r) =
      wr.poll_write t.writer (b ∷ bs) >>= on_write (record t { reader = r })

  unfoldable pub round : CopyBuf R W → Run (Turn (CopyBuf R W) (Poll (IoResult ℕ)))
  round t = br.poll_fill_buf t.reader >>= on_fill t

  abbrev pub copying : Future (CopyBuf R W) (IoResult ℕ)
  copying = looped_future round
