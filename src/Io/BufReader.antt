-- ===== src/Io/BufReader.antt =====
-- futures-util/src/io/buf_reader.rs. The `debug_assert` of `poll_fill_buf` is left out.
pub mod Bytes
pub mod Fill
use futures_rs.Prelude.{
  ℕ, zero, suc, ◌+◌, ◌-◌, ◌%◌, ◌≤◌, ◌<◌, ◌≡◌, ◌≢◌, refl, sym, ap, ◌∙◌, subst, List, [], ◌∷◌, ◌++◌,
  Bool, true, false, ◌&&◌, arith, length, take, drop, leb, ◌==◌, if◌then◌else◌, Bool-cases, inl,
  inr, length-append, length-take, length-drop,
}
use Prim.Native.Nat.{min}
use futures_rs.Usize.{usize_mod, usize_max}
use futures_rs.Task.{Poll, ready, pending}
use futures_rs.Run.{
  Run, return, panic, ◌>>=◌, Gives, return-Gives, return_eq-Gives, map-Gives, >>=-Gives,
}
use futures_rs.Io.{
  IoResult, ok, err, AsyncRead, AsyncBufRead, slice, Reads, waits, fails, reads, Reader,
}

pub record BufReader {ℓ} (R : Type ℓ) : Type ℓ where
  pub inner : R
  pub buffer : List ℕ
  pub pos : ℕ
  pub cap : ℕ

-- `vec![0; capacity]`
abbrev zeros : ℕ → List ℕ
zeros zero = []
zeros (suc n) = 0 ∷ zeros n

module _ {ℓ} {R : Type ℓ} where
  abbrev pub with_capacity : ℕ → R → BufReader R
  with_capacity capacity r = record { inner = r; buffer = zeros capacity; pos = 0; cap = 0 }

  abbrev pub discard_buffer : BufReader R → BufReader R
  discard_buffer t = record t { pos = 0; cap = 0 }

  -- `buffer`, the bytes that are buffered
  unfoldable pub buffered : BufReader R → Run (List ℕ)
  buffered t = slice t.pos t.cap t.buffer

  abbrev pub consume : BufReader R → ℕ → BufReader R
  consume t amt = record t { pos = min ((t.pos + amt) % usize_mod) t.cap }

  -- `poll_fill_buf` with bytes in the buffer
  unfoldable pub filled : BufReader R → Run (Poll (IoResult (List ℕ)) × BufReader R)
  filled t = slice t.pos t.cap t.buffer >>= λ rem. return (ready (ok rem), t)

  -- What follows the poll of the reader in `poll_fill_buf`.
  unfoldable pub on_fill :
      BufReader R → Poll (IoResult ℕ) × (R × List ℕ) → Run (Poll (IoResult (List ℕ)) × BufReader R)
  on_fill t (pending, (r, b)) = return (pending, record t { inner = r; buffer = b })
  on_fill t (ready (err e), (r, b)) = return (ready (err e), record t { inner = r; buffer = b })
  on_fill t (ready (ok n), (r, b)) = filled (record { inner = r; buffer = b; pos = 0; cap = n })

  -- What follows the poll of the reader in `poll_read`, when the buffer is bypassed.
  abbrev pub on_bypass :
      BufReader R → Poll (IoResult ℕ) × (R × List ℕ) → Poll (IoResult ℕ) × (BufReader R × List ℕ)
  on_bypass t (pending, (r, buf)) = (pending, (record t { inner = r }, buf))
  on_bypass t (ready res, (r, buf)) = (ready res, (discard_buffer (record t { inner = r }), buf))

  -- What follows `poll_fill_buf` in `poll_read`; `rem.read(buf)` copies what there is room for.
  abbrev pub on_filled :
      List ℕ → Poll (IoResult (List ℕ)) × BufReader R → Poll (IoResult ℕ) × (BufReader R × List ℕ)
  on_filled buf (pending, t) = (pending, (t, buf))
  on_filled buf (ready (err e), t) = (ready (err e), (t, buf))
  on_filled buf (ready (ok rem), t) =
      let nread = min (length buf) (length rem) in
      (ready (ok nread), (consume t nread, take nread rem ++ drop nread buf))

module _ {ℓ} {R : Type ℓ} (rd : AsyncRead R) where
  unfoldable pub poll_fill_buf : BufReader R → Run (Poll (IoResult (List ℕ)) × BufReader R)
  poll_fill_buf t =
      if leb t.cap t.pos then (rd.poll_read t.inner t.buffer >>= on_fill t) else filled t

  unfoldable pub poll_read : BufReader R → List ℕ → Run (Poll (IoResult ℕ) × (BufReader R × List ℕ))
  poll_read t buf =
      if t.pos == t.cap && leb (length t.buffer) (length buf)
      then (rd.poll_read t.inner buf >>= λ r. return (on_bypass t r))
      else (poll_fill_buf t >>= λ r. return (on_filled buf r))

  abbrev pub buf_reader : AsyncRead (BufReader R)
  buf_reader = record { poll_read = poll_read }

  abbrev pub buffered_reader : AsyncBufRead (BufReader R)
  buffered_reader = record {
    poll_fill_buf = poll_fill_buf;
    consume = λ t amt. return (tt, consume t amt);
  }
