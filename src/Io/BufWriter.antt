-- ===== src/Io/BufWriter.antt =====
-- futures-util/src/io/buf_writer.rs. The capacity of the `Vec` is a field; the `Vec` never grows.
mod Tests
pub mod Flush
pub mod Bytes
use futures_rs.Prelude.{
  ℕ, ◌+◌, ◌-◌, List, [], ◌++◌, Bool, true, false, length, take, drop, leb, ltb, ◌==◌, if◌then◌else◌,
}
use Prim.Native.Nat.{min}
use futures_rs.Task.{Poll, ready, pending}
use futures_rs.Run.{Run, Turn, again, done, loop, return, panic, ◌>>=◌}
use futures_rs.Io.{write_zero, IoResult, ok, err, AsyncWrite}

pub record BufWriter {ℓ} (W : Type ℓ) : Type ℓ where
  pub inner : W
  pub buf : List ℕ
  pub capacity : ℕ
  pub written : ℕ

module _ {ℓ} {W : Type ℓ} where
  abbrev pub with_capacity : ℕ → W → BufWriter W
  with_capacity cap w = record { inner = w; buf = []; capacity = cap; written = 0 }

  abbrev pub spare_capacity : BufWriter W → ℕ
  spare_capacity t = t.capacity - length t.buf

  -- It writes what there is room for, and answers how many bytes these are.
  abbrev pub write_to_buf : BufWriter W → List ℕ → ℕ × BufWriter W
  write_to_buf t bs =
      let amt_to_buffer = min (spare_capacity t) (length bs) in
      (amt_to_buffer, record t { buf = t.buf ++ take amt_to_buffer bs })

  -- What follows the loop of `flush_buf`: the bytes that were written leave the buffer.
  unfoldable pub drain :
      BufWriter W → IoResult (Unit {0}) → Run (Turn (BufWriter W) (Poll (IoResult (Unit {0}))))
  drain t ret =
      if leb t.written (length t.buf)
      then return (done (ready ret) (record t { buf = drop t.written t.buf; written = 0 }))
      else panic

  -- What follows the poll of the writer in the loop of `flush_buf`.
  unfoldable pub on_write :
      BufWriter W → Poll (IoResult ℕ) × W → Run (Turn (BufWriter W) (Poll (IoResult (Unit {0}))))
  on_write t (pending, w) = return (done pending (record t { inner = w }))
  on_write t (ready (err e), w) = drain (record t { inner = w }) (err e)
  on_write t (ready (ok n), w) =
      if n == 0
      then drain (record t { inner = w }) (err write_zero)
      else return (again (record t { inner = w; written = t.written + n }))

  abbrev pub on_bypass : BufWriter W → Poll (IoResult ℕ) × W → Poll (IoResult ℕ) × BufWriter W
  on_bypass t (p, w) = (p, record t { inner = w })

  abbrev pub on_inner :
      BufWriter W → Poll (IoResult (Unit {0})) × W → Poll (IoResult (Unit {0})) × BufWriter W
  on_inner t (p, w) = (p, record t { inner = w })

module _ {ℓ} {W : Type ℓ} (wr : AsyncWrite W) where
  unfoldable pub round : BufWriter W → Run (Turn (BufWriter W) (Poll (IoResult (Unit {0}))))
  round t =
      if ltb t.written (length t.buf)
      then (wr.poll_write t.inner (drop t.written t.buf) >>= on_write t)
      else drain t (ok tt)

  unfoldable pub flush_buf : BufWriter W → Run (Poll (IoResult (Unit {0})) × BufWriter W)
  flush_buf t = loop round t

  -- `poll_write` when there is room in the buffer, or when it is empty.
  unfoldable pub write_on : List ℕ → BufWriter W → Run (Poll (IoResult ℕ) × BufWriter W)
  write_on bs t =
      if leb t.capacity (length bs)
      then (wr.poll_write t.inner bs >>= λ r. return (on_bypass t r))
      else return (ready (ok (length bs)), record t { buf = t.buf ++ bs })

  -- What follows `flush_buf` in `poll_write`.
  unfoldable pub on_flushed :
      List ℕ → Poll (IoResult (Unit {0})) × BufWriter W → Run (Poll (IoResult ℕ) × BufWriter W)
  on_flushed bs (pending, t) = return (pending, t)
  on_flushed bs (ready (err e), t) = return (ready (err e), t)
  on_flushed bs (ready (ok u), t) = write_on bs t

  unfoldable pub poll_write : BufWriter W → List ℕ → Run (Poll (IoResult ℕ) × BufWriter W)
  poll_write t bs =
      if ltb t.capacity (length t.buf + length bs)
      then (flush_buf t >>= on_flushed bs)
      else write_on bs t

  -- What follows `flush_buf` in `poll_flush` and `poll_close`.
  unfoldable pub then_inner :
      (W → Run (Poll (IoResult (Unit {0})) × W))
      → Poll (IoResult (Unit {0})) × BufWriter W
      → Run (Poll (IoResult (Unit {0})) × BufWriter W)
  then_inner f (pending, t) = return (pending, t)
  then_inner f (ready (err e), t) = return (ready (err e), t)
  then_inner f (ready (ok u), t) = f t.inner >>= λ r. return (on_inner t r)

  unfoldable pub poll_flush : BufWriter W → Run (Poll (IoResult (Unit {0})) × BufWriter W)
  poll_flush t = flush_buf t >>= then_inner wr.poll_flush

  unfoldable pub poll_close : BufWriter W → Run (Poll (IoResult (Unit {0})) × BufWriter W)
  poll_close t = flush_buf t >>= then_inner wr.poll_close

  abbrev pub buf_writer : AsyncWrite (BufWriter W)
  buf_writer = record { poll_write = poll_write; poll_flush = poll_flush; poll_close = poll_close }
