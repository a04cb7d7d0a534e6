-- ===== src/Io.antt =====
-- futures-io/src/lib.rs (AsyncRead and AsyncBufRead, which are std's results in a poll): what a reader is to the
-- adapters of futures-util/src/io, which are given one.
pub mod BufReader
mod Tests
pub mod BufWriter
pub mod WriteAll
pub mod CopyBuf
pub mod Take
pub mod Chain
pub mod Ends
pub mod ReadExact
use futures_rs.Prelude.{
  ℕ, suc, ◌-◌, ◌≤◌, ◌≡◌, ◌≢◌, List, [], ◌++◌, Bool, true, false, ◌&&◌, arith, length, take, drop,
  leb, if◌then◌else◌,
}
use futures_rs.Task.{Poll, ready, pending}
use futures_rs.Run.{Run, return, panic, Gives, return-Gives}

-- `io::Error`, of which the kinds that the source makes are named.
pub data IoError : Type 0 where
  unexpected_eof write_zero : IoError
  other : ℕ → IoError

-- `io::Result`
pub data IoResult {ℓ} (A : Type ℓ) : Type ℓ where
  ok : A → IoResult A
  err : IoError → IoResult A

-- A read writes to a prefix of the buffer that it is given, and answers how long that is. The
-- buffer is passed in and comes back, with its length.
pub record AsyncRead {ℓ} (R : Type ℓ) : Type ℓ where
  pub poll_read : R → List ℕ → Run (Poll (IoResult ℕ) × (R × List ℕ))

pub record AsyncBufRead {ℓ} (R : Type ℓ) : Type ℓ where
  pub poll_fill_buf : R → Run (Poll (IoResult (List ℕ)) × R)
  pub consume : R → ℕ → Run (Unit {0} × R)

-- `&buf[a..b]`
unfoldable pub slice {ℓ} : {A : Type ℓ} → ℕ → ℕ → List A → Run (List A)
slice a b xs = if leb a b && leb b (length xs) then return (take (b - a) (drop a xs)) else panic

pub slice-Gives {ℓ} :
    {A : Type ℓ} (a b : ℕ) (xs : List A)
    → a ≤ b
    → b ≤ length xs
    → Gives (slice a b xs) (take (b - a) (drop a xs))
unfolding slice
slice-Gives a b xs h l =
    let e : (leb a b && leb b (length xs)) ≡ true = ground arith in
    rw e (return-Gives (take (b - a) (drop a xs)))

-- What a poll of a reader answers that has the bytes `xs` to come, and answers `Pending` or an error
-- at most `n` times: some of the first bytes, or none when there are none or the buffer is empty.
pub data Reads {ℓ κ} {R : Type ℓ} (rd : AsyncRead R) (Has : ℕ → R → List ℕ → Type κ) (n : ℕ) (r : R)
    (xs buf : List ℕ) : Type (ℓ ⊔ κ) where
  waits :
      {m : ℕ} {r' : R} {buf' : List ℕ}
      → n ≡ suc m
      → length buf' ≡ length buf
      → Gives (rd.poll_read r buf) (pending, (r', buf'))
      → Has m r' xs
      → Reads rd Has n r xs buf
  fails :
      {m : ℕ} {r' : R} {buf' : List ℕ} {e : IoError}
      → n ≡ suc m
      → length buf' ≡ length buf
      → Gives (rd.poll_read r buf) (ready (err e), (r', buf'))
      → Has m r' xs
      → Reads rd Has n r xs buf
  reads :
      {r' : R} (k : ℕ)
      → k ≤ length buf
      → k ≤ length xs
      → (k ≡ 0 → length buf ≢ 0 → xs ≡ [])
      → Gives (rd.poll_read r buf) (ready (ok k), (r', take k xs ++ drop k buf))
      → Has n r' (drop k xs)
      → Reads rd Has n r xs buf

-- A reader that keeps to what `AsyncRead` promises.
pub record Reader {ℓ} {R : Type ℓ} (rd : AsyncRead R) : Type (ℓ + 1) where
  pub Has : ℕ → R → List ℕ → Type ℓ
  pub read : (n : ℕ) (r : R) (xs buf : List ℕ) → Has n r xs → Reads rd Has n r xs buf

pub record AsyncWrite {ℓ} (W : Type ℓ) : Type ℓ where
  pub poll_write : W → List ℕ → Run (Poll (IoResult ℕ) × W)
  pub poll_flush : W → Run (Poll (IoResult (Unit {0})) × W)
  pub poll_close : W → Run (Poll (IoResult (Unit {0})) × W)

-- What a poll to write `bs` answers of a writer that was given the bytes `xs`, and answers `Pending`
-- at most `n` times: it takes some of the first bytes.
pub data Writes {ℓ} {W : Type ℓ} (wr : AsyncWrite W) (Took : ℕ → W → List ℕ → Type ℓ) (n : ℕ)
    (w : W) (xs bs : List ℕ) : Type ℓ where
  waits :
      {m : ℕ} {w' : W}
      → n ≡ suc m
      → Gives (wr.poll_write w bs) (pending, w')
      → Took m w' xs
      → Writes wr Took n w xs bs
  fails :
      {m : ℕ} {w' : W} {e : IoError}
      → m ≤ n
      → Gives (wr.poll_write w bs) (ready (err e), w')
      → Took m w' xs
      → Writes wr Took n w xs bs
  writes :
      {w' : W} (k : ℕ)
      → k ≤ length bs
      → Gives (wr.poll_write w bs) (ready (ok k), w')
      → Took n w' (xs ++ take k bs)
      → Writes wr Took n w xs bs

-- A writer that keeps to what `AsyncWrite` promises.
pub record Writer {ℓ} {W : Type ℓ} (wr : AsyncWrite W) : Type (ℓ + 1) where
  pub Took : ℕ → W → List ℕ → Type ℓ
  pub write : (n : ℕ) (w : W) (xs bs : List ℕ) → Took n w xs → Writes wr Took n w xs bs

-- What a poll for the buffer of a reader answers that has the bytes `xs` to come: some of the first
-- bytes, and none only when there are none; as many of them as are consumed do not come again.
pub data Fills {ℓ} {R : Type ℓ} (br : AsyncBufRead R) (Has : ℕ → R → List ℕ → Type ℓ) (n : ℕ)
    (r : R) (xs : List ℕ) : Type ℓ where
  waits :
      {m : ℕ} {r' : R}
      → n ≡ suc m
      → Gives (br.poll_fill_buf r) (pending, r')
      → Has m r' xs
      → Fills br Has n r xs
  fails :
      {m : ℕ} {r' : R} {e : IoError}
      → m ≤ n
      → Gives (br.poll_fill_buf r) (ready (err e), r')
      → Has m r' xs
      → Fills br Has n r xs
  fills :
      {r' : R} (bs : List ℕ)
      → Gives (br.poll_fill_buf r) (ready (ok bs), r')
      → (bs ≡ [] → xs ≡ [])
      → Has n r' xs
      → ((j : ℕ)
          → j ≤ length bs
          → (take j bs ≡ take j xs)
            × ((r'' : R) × Gives (br.consume r' j) (tt, r'') × Has n r'' (drop j xs)))
      → Fills br Has n r xs

pub record BufferedReader {ℓ} {R : Type ℓ} (br : AsyncBufRead R) : Type (ℓ + 1) where
  pub Has : ℕ → R → List ℕ → Type ℓ
  pub fill : (n : ℕ) (r : R) (xs : List ℕ) → Has n r xs → Fills br Has n r xs

-- What a poll to flush a writer answers: it is given no more bytes by it.
pub data Flush {ℓ} {W : Type ℓ} (wr : AsyncWrite W) (Took : ℕ → W → List ℕ → Type ℓ) (n : ℕ) (w : W)
    (xs : List ℕ) : Type ℓ where
  waits :
      {m : ℕ} {w' : W}
      → n ≡ suc m
      → Gives (wr.poll_flush w) (pending, w')
      → Took m w' xs
      → Flush wr Took n w xs
  fails :
      {m : ℕ} {w' : W} {e : IoError}
      → m ≤ n
      → Gives (wr.poll_flush w) (ready (err e), w')
      → Took m w' xs
      → Flush wr Took n w xs
  flushed :
      {w' : W} → Gives (wr.poll_flush w) (ready (ok tt), w') → Took n w' xs → Flush wr Took n w xs
