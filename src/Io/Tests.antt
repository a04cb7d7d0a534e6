-- ===== src/Io/Tests.antt =====
-- Runs of the readers of futures-util/src/io over a reader of a list of bytes, and the theorems at
-- them.
use futures_rs.Prelude.{
  ℕ, zero, suc, ◌-◌, ◌≤◌, ◌≡◌, refl, subst, List, [], ◌∷◌, ◌++◌, arith, length, take, drop,
}
use Prim.Native.Nat.{min}
use futures_rs.Prelude.Slices.{eq_nil}
use futures_rs.Task.{Poll, ready, pending}
use futures_rs.Run.{returned, return, ◌>>=◌, loop, spin, return-Gives}
use futures_rs.Io.{unexpected_eof, IoResult, ok, err, AsyncRead, Reads, waits, reads, Reader, slice}
use futures_rs.Io.BufReader
use futures_rs.Io.BufReader.{BufReader, with_capacity, buf_reader}
use futures_rs.Io.BufReader.Bytes.{Buffered, buf_reader_Reader, buf_reader-Reads}
use futures_rs.Io.Chain
use futures_rs.Io.Chain.{Chain, chain_reader, in_first, Chained, chain_Reader, chain_reader-Reads}
use futures_rs.Io.Take
use futures_rs.Io.Take.{Take, take_reader, take_Reader}
use futures_rs.Io.ReadExact
use futures_rs.Io.ReadExact.Bytes.{Exactly, read_exact-Exactly}

-- A reader of the bytes that answers `Pending` as often as the number says, and then gives two bytes
-- at a time at most.
abbrev piece : List ℕ → List ℕ → ℕ
piece xs buf = min 2 (min (length xs) (length buf))

abbrev bytes_poll : ℕ × List ℕ → List ℕ → Poll (IoResult ℕ) × ((ℕ × List ℕ) × List ℕ)
bytes_poll (suc n, xs) buf = (pending, ((n, xs), buf))
bytes_poll (zero, xs) buf = (
  ready (ok (piece xs buf)),
  ((0, drop (piece xs buf) xs), take (piece xs buf) xs ++ drop (piece xs buf) buf),
)

abbrev bytes : AsyncRead (ℕ × List ℕ)
bytes = record { poll_read = λ r buf. return (bytes_poll r buf) }

abbrev BytesLeft : ℕ → ℕ × List ℕ → List ℕ → Type 0
BytesLeft n r xs = (r.0 ≤ n) × (r.1 ≡ xs)

bytes_lem : (n m : ℕ) (xs buf : List ℕ) → m ≤ n → Reads bytes BytesLeft n (m, xs) xs buf
bytes_lem n (suc m) xs buf h =
    waits {m = n - 1} (omega arith) refl (return-Gives _) (omega arith, refl)
bytes_lem n zero xs buf h =
    reads (piece xs buf) (omega arith) (omega arith) (λ e ne. eq_nil xs (omega (arith, ne)))
      (return-Gives _) (omega arith, refl)

abbrev bytes_Reader : Reader bytes
bytes_Reader = record {
  Has = BytesLeft;
  read = λ n r xs buf h.
      subst (λ ys. Reads bytes BytesLeft n r ys buf) h.1 (bytes_lem n r.0 r.1 buf h.0);
}

abbrev five : ℕ × List ℕ
five = (2, 1 ∷ 2 ∷ 3 ∷ 4 ∷ 5 ∷ [])

abbrev two : Take (ℕ × List ℕ)
two = Take.new (1, 8 ∷ 9 ∷ 7 ∷ []) 2

abbrev five_buffered : BufReader (ℕ × List ℕ)
five_buffered = with_capacity 4 five

-- The buffer of the reader is filled, and a part of it is read.
buf_reader_runs :
    ((buf_reader bytes).poll_read (with_capacity 4 (0, 6 ∷ 7 ∷ 8 ∷ [])) (0 ∷ [])).run 0
    ≡ returned (
      ready (ok 1),
      (record { inner = (0, 8 ∷ []); buffer = 6 ∷ 7 ∷ 0 ∷ 0 ∷ []; pos = 1; cap = 2 }, 6 ∷ []),
    )
unfolding BufReader.poll_read BufReader.poll_fill_buf BufReader.on_fill BufReader.filled slice ◌>>=◌
    return
buf_reader_runs = refl

five-Buffered : Buffered bytes bytes_Reader 2 five_buffered (1 ∷ 2 ∷ 3 ∷ 4 ∷ 5 ∷ [])
five-Buffered = record {
  rest = 1 ∷ 2 ∷ 3 ∷ 4 ∷ 5 ∷ [];
  Inner = (omega arith, refl);
  ordered = omega arith;
  fits = omega arith;
  small = omega arith;
  content = refl;
}

buf_reader-Reads_example :
    Reads
      (buf_reader bytes)
      (Buffered bytes bytes_Reader)
      2
      five_buffered
      (1 ∷ 2 ∷ 3 ∷ 4 ∷ 5 ∷ [])
      (0 ∷ 0 ∷ 0 ∷ [])
buf_reader-Reads_example =
    buf_reader-Reads bytes bytes_Reader 2 five_buffered (1 ∷ 2 ∷ 3 ∷ 4 ∷ 5 ∷ []) (0 ∷ 0 ∷ 0 ∷ [])
      five-Buffered

abbrev five_two : Chain (BufReader (ℕ × List ℕ)) (Take (ℕ × List ℕ))
five_two = Chain.new five_buffered two

five_two-Chained :
    Chained
      (buf_reader bytes)
      (take_reader bytes)
      (buf_reader_Reader bytes bytes_Reader)
      (take_Reader bytes bytes_Reader)
      3
      five_two
      (1 ∷ 2 ∷ 3 ∷ 4 ∷ 5 ∷ 8 ∷ 9 ∷ [])
five_two-Chained =
    in_first {i = 2} {j = 1} {zs = 8 ∷ 9 ∷ []} refl five-Buffered
      (record { all = 8 ∷ 9 ∷ 7 ∷ []; Inner = (omega arith, refl); first = refl }) (omega arith)
      refl

chain_reader-Reads_example :
    Reads
      (chain_reader (buf_reader bytes) (take_reader bytes))
      (Chained
        (buf_reader bytes)
        (take_reader bytes)
        (buf_reader_Reader bytes bytes_Reader)
        (take_Reader bytes bytes_Reader))
      3
      five_two
      (1 ∷ 2 ∷ 3 ∷ 4 ∷ 5 ∷ 8 ∷ 9 ∷ [])
      (0 ∷ 0 ∷ [])
chain_reader-Reads_example =
    chain_reader-Reads (buf_reader bytes) (take_reader bytes) (buf_reader_Reader bytes bytes_Reader)
      (take_Reader bytes bytes_Reader) 3 five_two (1 ∷ 2 ∷ 3 ∷ 4 ∷ 5 ∷ 8 ∷ 9 ∷ []) (0 ∷ 0 ∷ [])
      five_two-Chained

-- `read_exact` from the buffered bytes chained with others.
read_exact-Exactly_example :
    Exactly
      (chain_reader (buf_reader bytes) (take_reader bytes))
      (chain_Reader
        (buf_reader bytes)
        (take_reader bytes)
        (buf_reader_Reader bytes bytes_Reader)
        (take_Reader bytes bytes_Reader))
      (ReadExact.new five_two (0 ∷ 0 ∷ 0 ∷ 0 ∷ 0 ∷ 0 ∷ []))
      (1 ∷ 2 ∷ 3 ∷ 4 ∷ 5 ∷ 8 ∷ 9 ∷ [])
read_exact-Exactly_example =
    read_exact-Exactly (chain_reader (buf_reader bytes) (take_reader bytes))
      (chain_Reader (buf_reader bytes) (take_reader bytes) (buf_reader_Reader bytes bytes_Reader)
        (take_Reader bytes bytes_Reader))
      3 five_two (1 ∷ 2 ∷ 3 ∷ 4 ∷ 5 ∷ 8 ∷ 9 ∷ []) (0 ∷ 0 ∷ 0 ∷ 0 ∷ 0 ∷ 0 ∷ []) five_two-Chained

-- With fewer bytes than there is room for, `read_exact` ends with `UnexpectedEof`.
read_exact_runs :
    (loop (ReadExact.round bytes) (ReadExact.new (0, 1 ∷ 2 ∷ 3 ∷ []) (0 ∷ 0 ∷ 0 ∷ 0 ∷ []))).run 5
    ≡ returned (
      ready (err unexpected_eof),
      record { reader = (0, []); filled = 1 ∷ 2 ∷ 3 ∷ []; buf = 0 ∷ [] },
    )
unfolding loop spin ReadExact.round ReadExact.on_read ReadExact.split ◌>>=◌ return
read_exact_runs = refl

-- `take` with a limit of three, with one that is polled on after.
take_runs :
    ((take_reader bytes).poll_read (Take.new (0, 1 ∷ 2 ∷ 3 ∷ []) 1) (0 ∷ 0 ∷ [])).run 0
    ≡ returned (ready (ok 1), (Take.new (0, 2 ∷ 3 ∷ []) 0, 1 ∷ 0 ∷ []))
unfolding Take.poll_read Take.on_read ◌>>=◌ return
take_runs = refl

-- A BufReader without room in its buffer has no bytes in it, also when its reader has some.
no_room_runs :
    (BufReader.poll_fill_buf bytes (with_capacity 0 (0, 1 ∷ []))).run 0
    ≡ returned (ready (ok []), with_capacity 0 (0, 1 ∷ []))
unfolding BufReader.poll_fill_buf BufReader.on_fill BufReader.filled slice ◌>>=◌ return
no_room_runs = refl
