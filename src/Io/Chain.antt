-- ===== src/Io/Chain.antt =====
-- futures-util/src/io/chain.rs
use futures_rs.Prelude.{
  ℕ, zero, suc, ◌+◌, ◌-◌, ◌≤◌, ◌≡◌, refl, sym, ap, subst, List, [], ◌∷◌, ◌++◌, Bool, true, false,
  not, arith, drop, if◌then◌else◌, length-append,
}
use futures_rs.Prelude.Slices.{take-append, drop-append}
use futures_rs.Task.{Poll, ready, pending}
use futures_rs.Run.{Run, return, ◌>>=◌, Gives, return-Gives, return_eq-Gives, map-Gives, >>=-Gives}
use futures_rs.Io.{IoResult, ok, err, AsyncRead, AsyncBufRead, Reads, waits, fails, reads, Reader}

pub record Chain {ℓ} (T U : Type ℓ) : Type ℓ where
  pub first : T
  pub second : U
  pub done_first : Bool

abbrev is_empty : List ℕ → Bool
is_empty [] = true
is_empty (x ∷ xs) = false

module _ {ℓ} {T U : Type ℓ} where
  abbrev pub new : T → U → Chain T U
  new t u = record { first = t; second = u; done_first = false }

  abbrev pub on_second :
      Chain T U → Poll (IoResult ℕ) × (U × List ℕ) → Poll (IoResult ℕ) × (Chain T U × List ℕ)
  on_second c (p, (u, buf)) = (p, (record c { second = u }, buf))

  abbrev pub on_second_buf :
      Chain T U → Poll (IoResult (List ℕ)) × U → Poll (IoResult (List ℕ)) × Chain T U
  on_second_buf c (p, u) = (p, record c { second = u })

module _ {ℓ} {T U : Type ℓ} (rd : AsyncRead T) (rd' : AsyncRead U) where
  unfoldable pub poll_second : Chain T U → List ℕ → Run (Poll (IoResult ℕ) × (Chain T U × List ℕ))
  poll_second c buf = rd'.poll_read c.second buf >>= λ r. return (on_second c r)

  -- What follows the poll of the first reader.
  unfoldable pub on_first :
      Chain T U → Poll (IoResult ℕ) × (T × List ℕ) → Run (Poll (IoResult ℕ) × (Chain T U × List ℕ))
  on_first c (pending, (t, buf)) = return (pending, (record c { first = t }, buf))
  on_first c (ready (err e), (t, buf)) = return (ready (err e), (record c { first = t }, buf))
  on_first c (ready (ok zero), (t, buf)) =
      if is_empty buf
      then return (ready (ok 0), (record c { first = t }, buf))
      else poll_second (record c { first = t; done_first = true }) buf
  on_first c (ready (ok (suc n)), (t, buf)) =
      return (ready (ok (suc n)), (record c { first = t }, buf))

  unfoldable pub poll_read : Chain T U → List ℕ → Run (Poll (IoResult ℕ) × (Chain T U × List ℕ))
  poll_read c buf =
      if not c.done_first then (rd.poll_read c.first buf >>= on_first c) else poll_second c buf

  abbrev pub chain_reader : AsyncRead (Chain T U)
  chain_reader = record { poll_read = poll_read }

module _ {ℓ} {T U : Type ℓ} (rd : AsyncBufRead T) (rd' : AsyncBufRead U) where
  unfoldable pub second_fill_buf : Chain T U → Run (Poll (IoResult (List ℕ)) × Chain T U)
  second_fill_buf c = rd'.poll_fill_buf c.second >>= λ r. return (on_second_buf c r)

  unfoldable pub on_first_buf :
      Chain T U → Poll (IoResult (List ℕ)) × T → Run (Poll (IoResult (List ℕ)) × Chain T U)
  on_first_buf c (pending, t) = return (pending, record c { first = t })
  on_first_buf c (ready (err e), t) = return (ready (err e), record c { first = t })
  on_first_buf c (ready (ok []), t) = second_fill_buf (record c { first = t; done_first = true })
  on_first_buf c (ready (ok (b ∷ bs)), t) = return (ready (ok (b ∷ bs)), record c { first = t })

  unfoldable pub poll_fill_buf : Chain T U → Run (Poll (IoResult (List ℕ)) × Chain T U)
  poll_fill_buf c =
      if not c.done_first then (rd.poll_fill_buf c.first >>= on_first_buf c) else second_fill_buf c

  unfoldable pub consume : Chain T U → ℕ → Run (Unit {0} × Chain T U)
  consume c amt =
      if not c.done_first
      then (rd.consume c.first amt >>= λ r. return (tt, record c { first = r.1 }))
      else (rd'.consume c.second amt >>= λ r. return (tt, record c { second = r.1 }))

  abbrev pub chain_buf_reader : AsyncBufRead (Chain T U)
  chain_buf_reader = record { poll_fill_buf = poll_fill_buf; consume = consume }

module _ {ℓ} {T U : Type ℓ} (rd : AsyncRead T) (rd' : AsyncRead U) (p : Reader rd)
    (p' : Reader rd') where
  -- What is to come of a chain: the bytes of both readers, or of the second one.
  pub data Chained (n : ℕ) (c : Chain T U) (xs : List ℕ) : Type ℓ where
    in_first :
        {i j : ℕ} {ys zs : List ℕ}
        → c.done_first ≡ false
        → p.Has i c.first ys
        → p'.Has j c.second zs
        → i + j ≤ n
        → ys ++ zs ≡ xs
        → Chained n c xs
    in_second : {j : ℕ} → c.done_first ≡ true → p'.Has j c.second xs → j ≤ n → Chained n c xs

  -- The second reader is polled.
  second-Reads :
      (n j : ℕ) (c c' : Chain T U) (xs buf : List ℕ)
      → ((a : Poll (IoResult ℕ) × (Chain T U × List ℕ))
          → Gives (poll_second rd rd' c' buf) a
          → Gives (poll_read rd rd' c buf) a)
      → c'.done_first ≡ true
      → j ≤ n
      → Reads rd' p'.Has j c'.second xs buf
      → Reads (chain_reader rd rd') Chained n c xs buf
  unfolding poll_second
  second-Reads n j c c' xs buf g d l (waits {m} e q h i) =
      waits {m = n - 1} (omega arith) q (g _ (map-Gives (on_second c') h))
        (in_second d i (omega arith))
  second-Reads n j c c' xs buf g d l (fails {m} e q h i) =
      fails {m = n - 1} (omega arith) q (g _ (map-Gives (on_second c') h))
        (in_second d i (omega arith))
  second-Reads n j c c' xs buf g d l (reads k q q' z h i) =
      reads k q q' z (g _ (map-Gives (on_second c') h)) (in_second d i l)

  first-Gives :
      (c : Chain T U) (buf : List ℕ) {a : Poll (IoResult ℕ) × (T × List ℕ)}
      {b : Poll (IoResult ℕ) × (Chain T U × List ℕ)}
      → c.done_first ≡ false
      → Gives (rd.poll_read c.first buf) a
      → Gives (on_first rd rd' c a) b
      → Gives (poll_read rd rd' c buf) b
  unfolding poll_read
  first-Gives c buf {b = b} d h g =
      subst
        (λ e.
          Gives
            (if not e
              then (rd.poll_read c.first buf >>= on_first rd rd' c)
              else poll_second rd rd' c buf)
            b)
        (sym d) (>>=-Gives (on_first rd rd' c) h g)

  first-Reads :
      (n i j : ℕ) (c : Chain T U) (ys zs buf : List ℕ)
      → c.done_first ≡ false
      → p'.Has j c.second zs
      → i + j ≤ n
      → Reads rd p.Has i c.first ys buf
      → Reads (chain_reader rd rd') Chained n c (ys ++ zs) buf
  unfolding on_first
  first-Reads n i j c ys zs buf d s l (waits {m} e q h g) =
      waits {m = n - 1} (omega arith) q (first-Gives c buf d h (return-Gives _))
        (in_first d g s (omega arith) refl)
  first-Reads n i j c ys zs buf d s l (fails {m} e q h g) =
      fails {m = n - 1} (omega arith) q (first-Gives c buf d h (return-Gives _))
        (in_first d g s (omega arith) refl)
  first-Reads n i j c ys zs buf d s l (reads {r'} (suc k) q q' z h g) =
      reads (suc k) q (omega (arith, length-append ys zs)) (λ e ne. absurd (omega arith))
        (first-Gives c buf d h (
          return_eq-Gives (
            ap {B = Poll (IoResult ℕ) × (Chain T U × List ℕ)}
              (λ bs. (ready (ok (suc k)), (record c { first = r' }, bs ++ drop (suc k) buf)))
              (sym (take-append (suc k) ys zs q')))))
        (subst (Chained n (record c { first = r' })) (sym (drop-append (suc k) ys zs q'))
          (in_first d g s l refl))
  first-Reads n i j c ys zs [] d s l (reads {r'} zero q q' z h g) =
      reads 0 q (omega arith) (λ e ne. absurd (ne refl)) (first-Gives c [] d h (return-Gives _))
        (in_first d g s l refl)
  first-Reads n i j c ys zs (b ∷ bs) d s l (reads {r'} zero q q' z h g) =
      let ended : [] ≡ ys = sym (z refl (λ e. omega arith)) in
      subst (λ ws. Reads (chain_reader rd rd') Chained n c (ws ++ zs) (b ∷ bs)) ended
        (second-Reads n j c (record c { first = r'; done_first = true }) zs (b ∷ bs)
          (λ a k. first-Gives c (b ∷ bs) d h k) refl (omega arith)
          (p'.read j c.second zs (b ∷ bs) s))

  second-Gives :
      (c : Chain T U) (buf : List ℕ) (a : Poll (IoResult ℕ) × (Chain T U × List ℕ))
      → c.done_first ≡ true
      → Gives (poll_second rd rd' c buf) a
      → Gives (poll_read rd rd' c buf) a
  unfolding poll_read
  second-Gives c buf a d h =
      subst
        (λ e.
          Gives
            (if not e
              then (rd.poll_read c.first buf >>= on_first rd rd' c)
              else poll_second rd rd' c buf)
            a)
        (sym d) h

  -- A poll of a chain answers what a reader answers that has the bytes of the first reader to come, and
  -- then those of the second one, also when the first one ends in this poll.
  pub chain_reader-Reads :
      (n : ℕ) (c : Chain T U) (xs buf : List ℕ)
      → Chained n c xs
      → Reads (chain_reader rd rd') Chained n c xs buf
  chain_reader-Reads n c xs buf (in_first {i} {j} {ys} {zs} d h g l e) =
      subst (λ ws. Reads (chain_reader rd rd') Chained n c ws buf) e
        (first-Reads n i j c ys zs buf d g l (p.read i c.first ys buf h))
  chain_reader-Reads n c xs buf (in_second {j} d h l) =
      second-Reads n j c c xs buf (λ a k. second-Gives c buf a d k) d l
        (p'.read j c.second xs buf h)

  abbrev pub chain_Reader : Reader (chain_reader rd rd')
  chain_Reader = record { Has = Chained; read = chain_reader-Reads }
