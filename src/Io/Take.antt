-- ===== src/Io/Take.antt =====
-- futures-util/src/io/take.rs
use futures_rs.Prelude.{
  ℕ, ◌-◌, ◌≤◌, ◌≡◌, ◌≢◌, refl, sym, ap, ◌∙◌, subst, List, [], ◌++◌, true, false, arith, length,
  take, drop, leb, ◌==◌, if◌then◌else◌, Bool-cases, inl, inr,
}
use Prim.Native.Nat.{min}
use mathlib.Core.List.{append_assoc}
use futures_rs.Prelude.Slices.{take-nil, take-take, drop-take, drop_rest}
use futures_rs.Prelude.{length-append, length-take, length-drop}
use futures_rs.Task.{Poll, ready, pending}
use futures_rs.Run.{Run, return, panic, ◌>>=◌, Gives, return-Gives, return_eq-Gives, >>=-Gives}
use futures_rs.Io.{IoResult, ok, err, AsyncRead, AsyncBufRead, Reads, waits, fails, reads, Reader}

pub record Take {ℓ} (R : Type ℓ) : Type ℓ where
  pub inner : R
  pub limit : ℕ

module _ {ℓ} {R : Type ℓ} where
  abbrev pub new : R → ℕ → Take R
  new r limit = record { inner = r; limit = limit }

  abbrev pub set_limit : Take R → ℕ → Take R
  set_limit t limit = record t { limit = limit }

  -- What follows the poll of the reader; the part of the buffer after `..max` was not given to it.
  unfoldable pub on_read :
      Take R
      → List ℕ
      → Poll (IoResult ℕ) × (R × List ℕ)
      → Run (Poll (IoResult ℕ) × (Take R × List ℕ))
  on_read t rest (pending, (r, buf)) = return (pending, (record t { inner = r }, buf ++ rest))
  on_read t rest (ready (err e), (r, buf)) =
      return (ready (err e), (record t { inner = r }, buf ++ rest))
  on_read t rest (ready (ok n), (r, buf)) =
      if leb n t.limit
      then return (ready (ok n), (record { inner = r; limit = t.limit - n }, buf ++ rest))
      else panic

  abbrev pub on_fill : ℕ → Poll (IoResult (List ℕ)) × R → Poll (IoResult (List ℕ)) × Take R
  on_fill limit (pending, r) = (pending, new r limit)
  on_fill limit (ready (err e), r) = (ready (err e), new r limit)
  on_fill limit (ready (ok buf), r) = (ready (ok (take (min (length buf) limit) buf)), new r limit)

module _ {ℓ} {R : Type ℓ} (rd : AsyncRead R) where
  unfoldable pub poll_read : Take R → List ℕ → Run (Poll (IoResult ℕ) × (Take R × List ℕ))
  poll_read t buf =
      if t.limit == 0
      then return (ready (ok 0), (t, buf))
      else (rd.poll_read t.inner (take (min (length buf) t.limit) buf)
          >>= on_read t (drop (min (length buf) t.limit) buf))

  abbrev pub take_reader : AsyncRead (Take R)
  take_reader = record { poll_read = poll_read }

module _ {ℓ} {R : Type ℓ} (rd : AsyncBufRead R) where
  unfoldable pub poll_fill_buf : Take R → Run (Poll (IoResult (List ℕ)) × Take R)
  poll_fill_buf t =
      if t.limit == 0
      then return (ready (ok []), t)
      else (rd.poll_fill_buf t.inner >>= λ r. return (on_fill t.limit r))

  unfoldable pub consume : Take R → ℕ → Run (Unit {0} × Take R)
  consume t amt =
      rd.consume t.inner (min amt t.limit) >>= λ r. return (tt, new r.1 (t.limit - min amt t.limit))

  abbrev pub take_buf_reader : AsyncBufRead (Take R)
  take_buf_reader = record { poll_fill_buf = poll_fill_buf; consume = consume }

module _ {ℓ} {R : Type ℓ} (rd : AsyncRead R) (p : Reader rd) where
  -- What is to come of `take`: the first bytes of what is to come of the reader.
  pub record Taken (n : ℕ) (t : Take R) (xs : List ℕ) : Type ℓ where
    pub all : List ℕ
    pub Inner : p.Has n t.inner all
    pub first : xs ≡ take t.limit all

  after-length :
      (m : ℕ) (buf buf' : List ℕ)
      → length buf' ≡ length (take m buf)
      → length (buf' ++ drop m buf) ≡ length buf
  after-length m buf buf' h =
      omega (arith, length-append buf' (drop m buf), length-take m buf, length-drop m buf)

  poll-Gives :
      (t : Take R) (buf : List ℕ) {a : Poll (IoResult ℕ) × (R × List ℕ)}
      {b : Poll (IoResult ℕ) × (Take R × List ℕ)}
      → t.limit ≢ 0
      → Gives (rd.poll_read t.inner (take (min (length buf) t.limit) buf)) a
      → Gives (on_read t (drop (min (length buf) t.limit) buf) a) b
      → Gives (poll_read rd t buf) b
  unfolding poll_read
  poll-Gives t buf h g k =
      let e : (t.limit == 0) ≡ false = ground arith in rw e (>>=-Gives (on_read t _) g k)

  read-Gives :
      (t : Take R) (r' : R) (k m : ℕ) (ys buf : List ℕ)
      → k ≤ m
      → k ≤ t.limit
      → Gives
          (on_read t (drop m buf) (ready (ok k), (r', take k ys ++ drop k (take m buf))))
          (ready (ok k), (new r' (t.limit - k), take k (take t.limit ys) ++ drop k buf))
  unfolding on_read
  read-Gives t r' k m ys buf h l =
      let e : leb k t.limit ≡ true = ground arith in
      let q : (take k ys ++ drop k (take m buf)) ++ drop m buf
          ≡ take k (take t.limit ys) ++ drop k buf =
        append_assoc (take k ys) (drop k (take m buf)) (drop m buf)
        ∙ ap (◌++◌ (take k ys)) (drop_rest k m buf h)
        ∙ ap (λ zs. zs ++ drop k buf) (sym (take-take k t.limit ys l)) in
      rw e (
        return_eq-Gives (
          ap {B = Poll (IoResult ℕ) × (Take R × List ℕ)}
            (λ b. (ready (ok k), (new r' (t.limit - k), b))) q))

  taken :
      (n : ℕ) (t : Take R) (ys buf : List ℕ)
      → t.limit ≢ 0
      → Reads rd p.Has n t.inner ys (take (min (length buf) t.limit) buf)
      → Reads (take_reader rd) Taken n t (take t.limit ys) buf
  unfolding on_read
  taken n t ys buf nz (waits e l h g) =
      waits e (after-length _ buf _ l) (poll-Gives t buf nz h (return-Gives _))
        (record { all = ys; Inner = g; first = refl })
  taken n t ys buf nz (fails e l h g) =
      fails e (after-length _ buf _ l) (poll-Gives t buf nz h (return-Gives _))
        (record { all = ys; Inner = g; first = refl })
  taken n t ys buf nz (reads {r'} k l l' z h g) =
      let m : ℕ = min (length buf) t.limit in
      let lm : k ≤ m = omega (arith, length-take (min (length buf) t.limit) buf) in
      reads k (omega arith) (omega (arith, length-take t.limit ys))
        (λ e ne.
          ap (λ zs. take t.limit zs)
            (z e (λ e'. omega (arith, nz, ne, length-take (min (length buf) t.limit) buf)))
          ∙ take-nil t.limit)
        (poll-Gives t buf nz h (
          read-Gives t r' k m ys buf lm
            (omega (arith, length-take (min (length buf) t.limit) buf))))
        (record { all = drop k ys; Inner = g; first = drop-take k t.limit ys })

  pub take_reads :
      (n : ℕ) (t : Take R) (xs buf : List ℕ)
      → Taken n t xs
      → Reads (take_reader rd) Taken n t xs buf
  unfolding poll_read
  take_reads n t xs buf h = elim (Bool-cases (t.limit == 0)) [
    | inl e ↦
        let z : t.limit ≡ 0 = ground arith in
        let none_left : xs ≡ [] = h.first ∙ ap (λ l. take l h.all) z in
        reads 0 (omega arith) (omega arith) (λ e' ne. none_left) (rw e (return-Gives _)) h
    | inr e ↦
        subst (λ zs. Reads (take_reader rd) Taken n t zs buf) (sym h.first)
          (taken n t h.all buf (ground arith) (p.read _ _ _ _ h.Inner))
  ]

  abbrev pub take_Reader : Reader (take_reader rd)
  take_Reader = record { Has = Taken; read = take_reads }
