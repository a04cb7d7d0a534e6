-- ===== src/Io/BufWriter/Tests.antt =====
-- Runs of the writers of futures-util/src/io over a writer that keeps its bytes in a list, and the
-- theorems at them.
use futures_rs.Prelude.{
  ℕ, zero, suc, ◌-◌, ◌≤◌, ◌≡◌, refl, subst, List, [], ◌∷◌, ◌++◌, arith, length, take,
}
use Prim.Native.Nat.{min}
use futures_rs.Task.{Poll, ready, pending}
use futures_rs.Run.{returned, return, ◌>>=◌, loop, spin, return-Gives}
use futures_rs.Io.{IoResult, ok, AsyncWrite, Writes, waits, writes, Writer}
use futures_rs.Io.BufWriter
use futures_rs.Io.BufWriter.{BufWriter, with_capacity, buf_writer, flush_buf}
use futures_rs.Io.BufWriter.Flush.{Given, Flushes, flush_buf-Flushes}
use futures_rs.Io.BufWriter.Bytes.{buf_writer-Writes, buf_writer_Writer, buf_writer-Flush}
use futures_rs.Io.CopyBuf.{copy_buf}
use futures_rs.Io.CopyBuf.Bytes.{Copied, copy_buf-Copied}
use futures_rs.Io.BufReader.{BufReader, buffered_reader}
use futures_rs.Io.BufReader.Fill.{buffered_BufferedReader}
use futures_rs.Prelude.Slices.{eq_nil}
use futures_rs.Prelude.{drop, ap}
use futures_rs.Run.{Gives}
use futures_rs.Io.{AsyncRead, Reads, reads, Reader, Flush, flushed}
use futures_rs.Io.WriteAll
use futures_rs.Io.WriteAll.{write_all, Written, write_all-Written}

-- A writer that answers `Pending` as often as the number says, and then takes two bytes at a time at
-- most.
abbrev bytes_write : ℕ × List ℕ → List ℕ → Poll (IoResult ℕ) × (ℕ × List ℕ)
bytes_write (suc n, xs) bs = (pending, (n, xs))
bytes_write (zero, xs) bs = (ready (ok (min 2 (length bs))), (0, xs ++ take (min 2 (length bs)) bs))

abbrev bytes : AsyncWrite (ℕ × List ℕ)
bytes = record {
  poll_write = λ w bs. return (bytes_write w bs);
  poll_flush = λ w. return (ready (ok tt), w);
  poll_close = λ w. return (ready (ok tt), w);
}

abbrev BytesTaken : ℕ → ℕ × List ℕ → List ℕ → Type 0
BytesTaken n w xs = (w.0 ≤ n) × (w.1 ≡ xs)

bytes-Flush :
    (n : ℕ) (w : ℕ × List ℕ) (xs : List ℕ) → BytesTaken n w xs → Flush bytes BytesTaken n w xs
bytes-Flush n w xs h = flushed (return-Gives _) h

bytes_lem : (n m : ℕ) (xs bs : List ℕ) → m ≤ n → Writes bytes BytesTaken n (m, xs) xs bs
bytes_lem n (suc m) xs bs h = waits {m = n - 1} (omega arith) (return-Gives _) (omega arith, refl)
bytes_lem n zero xs bs h =
    writes (min 2 (length bs)) (omega arith) (return-Gives _) (omega arith, refl)

abbrev bytes_Writer : Writer bytes
bytes_Writer = record {
  Took = BytesTaken;
  write = λ n w xs bs h.
      subst (λ ys. Writes bytes BytesTaken n w ys bs) h.1 (bytes_lem n w.0 w.1 bs h.0);
}

abbrev half_full : BufWriter (ℕ × List ℕ)
half_full = record { inner = (1, 1 ∷ []); buf = 2 ∷ 3 ∷ 4 ∷ []; capacity = 4; written = 1 }

half_full-Given : Given bytes bytes_Writer 1 half_full (1 ∷ 3 ∷ 4 ∷ [])
half_full-Given = record {
  passed = 1 ∷ [];
  Inner = (omega arith, refl);
  within = omega arith;
  fits = omega arith;
  content = refl;
}

-- There is no room for two more bytes: the buffer is flushed first.
buf_writer_runs :
    ((buf_writer bytes).poll_write (record half_full { inner = (0, 1 ∷ []) }) (5 ∷ 6 ∷ [])).run 4
    ≡ returned (
      ready (ok 2),
      record { inner = (0, 1 ∷ 3 ∷ 4 ∷ []); buf = 5 ∷ 6 ∷ []; capacity = 4; written = 0 },
    )
unfolding BufWriter.poll_write BufWriter.flush_buf BufWriter.on_flushed BufWriter.write_on
    BufWriter.round BufWriter.on_write BufWriter.drain loop spin ◌>>=◌ return
buf_writer_runs = refl

flush_buf-Flushes_example : Flushes bytes bytes_Writer 1 half_full (1 ∷ 3 ∷ 4 ∷ [])
flush_buf-Flushes_example =
    flush_buf-Flushes bytes bytes_Writer 1 half_full (1 ∷ 3 ∷ 4 ∷ []) half_full-Given

buf_writer-Writes_example :
    Writes (buf_writer bytes) (Given bytes bytes_Writer) 1 half_full (1 ∷ 3 ∷ 4 ∷ []) (5 ∷ 6 ∷ [])
buf_writer-Writes_example =
    buf_writer-Writes bytes bytes_Writer 1 half_full (1 ∷ 3 ∷ 4 ∷ []) (5 ∷ 6 ∷ []) half_full-Given

write_all-Written_example :
    Written
      (buf_writer bytes)
      (buf_writer_Writer bytes bytes_Writer)
      (WriteAll.new half_full (5 ∷ 6 ∷ 7 ∷ 8 ∷ 9 ∷ []))
      (1 ∷ 3 ∷ 4 ∷ [])
write_all-Written_example =
    write_all-Written (buf_writer bytes) (buf_writer_Writer bytes bytes_Writer) 1 half_full
      (1 ∷ 3 ∷ 4 ∷ []) (5 ∷ 6 ∷ 7 ∷ 8 ∷ 9 ∷ []) half_full-Given

write_all_runs :
    (loop (WriteAll.round bytes) (WriteAll.new (0, []) (1 ∷ 2 ∷ 3 ∷ []))).run 4
    ≡ returned (ready (ok tt), WriteAll.new (0, 1 ∷ 2 ∷ 3 ∷ []) [])
unfolding loop spin WriteAll.round WriteAll.on_write ◌>>=◌ return
write_all_runs = refl

abbrev two_bytes : BufReader (List ℕ)
two_bytes = record { inner = 7 ∷ []; buffer = 5 ∷ 6 ∷ 0 ∷ []; pos = 0; cap = 2 }

-- A reader of what is in a list, a byte at a time.
abbrev list_poll : List ℕ → List ℕ → Poll (IoResult ℕ) × (List ℕ × List ℕ)
list_poll xs buf = (
  ready (ok (min 1 (min (length xs) (length buf)))),
  (
    drop (min 1 (min (length xs) (length buf))) xs,
    take (min 1 (min (length xs) (length buf))) xs
        ++ drop (min 1 (min (length xs) (length buf))) buf,
  ),
)

abbrev list : AsyncRead (List ℕ)
list = record { poll_read = λ xs buf. return (list_poll xs buf) }

list_lem : (n : ℕ) (r xs buf : List ℕ) → r ≡ xs → Reads list (λ m s zs. s ≡ zs) n r xs buf
list_lem n r xs buf h =
    reads (min 1 (min (length r) (length buf))) (omega arith) (omega (arith, ap length h))
      (λ e ne. eq_nil xs (omega (arith, ne, ap length h)))
      (subst
        (λ ys. Gives (return (list_poll r buf)) (
          ready (ok (min 1 (min (length r) (length buf)))),
          (
            drop (min 1 (min (length r) (length buf))) r,
            take (min 1 (min (length r) (length buf))) ys
                ++ drop (min 1 (min (length r) (length buf))) buf,
          ),
        ))
        h (return-Gives (list_poll r buf)))
      (ap (drop (min 1 (min (length r) (length buf)))) h)

abbrev list_Reader : Reader list
list_Reader = record { Has = λ m s zs. s ≡ zs; read = λ n r xs buf h. list_lem n r xs buf h }

copy_buf-Copied_example :
    Copied
      (buffered_reader list)
      (buf_writer bytes)
      (buffered_BufferedReader list list_Reader)
      (buf_writer_Writer bytes bytes_Writer)
      (buf_writer-Flush bytes bytes_Writer bytes-Flush)
      (copy_buf (buffered_reader list) (buf_writer bytes) two_bytes half_full)
      (5 ∷ 6 ∷ 7 ∷ [])
      (1 ∷ 3 ∷ 4 ∷ [])
copy_buf-Copied_example =
    copy_buf-Copied (buffered_reader list) (buf_writer bytes)
      (buffered_BufferedReader list list_Reader) (buf_writer_Writer bytes bytes_Writer)
      (buf_writer-Flush bytes bytes_Writer bytes-Flush) 0 1 two_bytes half_full (5 ∷ 6 ∷ 7 ∷ [])
      (1 ∷ 3 ∷ 4 ∷ []) (omega arith)
      (
        record {
          rest = 7 ∷ [];
          Inner = refl;
          ordered = omega arith;
          fits = omega arith;
          small = omega arith;
          content = refl;
        },
        λ e. omega arith,
      )
      half_full-Given
