-- ===== src/FutureExt/Select.antt =====
-- futures-util/src/future/select.rs
use futures_rs.Prelude.{ℕ, zero, suc, Option, none, some, Bool, is_none}
use futures_rs.Task.{Poll, ready, pending}
use futures_rs.Run.{Run, return, panic, ◌>>=◌, Gives, map-Gives, >>=-Gives, return-Gives}
use futures_rs.Stream.{Future, Resolves, resolve, wait}

-- `Either`
pub data Either {ℓ κ} (A : Type ℓ) (B : Type κ) : Type (ℓ ⊔ κ) where
  left : A → Either A B
  right : B → Either A B

module _ {ℓ κ μ ν} {F : Type ℓ} {A : Type κ} {G : Type μ} {B : Type ν} (fu : Future F A)
    (gu : Future G B) where
  abbrev pub new : F → G → Option (F × G)
  new f g = some (f, g)

  abbrev pub on_right : F → Poll B × G → Poll (Either (A × G) (B × F)) × Option (F × G)
  on_right f (ready b, g) = (ready (right (b, f)), none)
  on_right f (pending, g) = (pending, some (f, g))

  unfoldable pub on_left : G → Poll A × F → Run (Poll (Either (A × G) (B × F)) × Option (F × G))
  on_left g (ready a, f) = return (ready (left (a, g)), none)
  on_left g (pending, f) = gu.poll g >>= λ r. return (on_right f r)

  -- It panics when it is polled after completion.
  unfoldable pub poll : Option (F × G) → Run (Poll (Either (A × G) (B × F)) × Option (F × G))
  poll none = panic
  poll (some (f, g)) = fu.poll f >>= λ r. on_left g r

  abbrev pub select_future : Future (Option (F × G)) (Either (A × G) (B × F))
  select_future = record { poll = poll }

  abbrev pub is_terminated : Option (F × G) → Bool
  is_terminated t = is_none t

-- So many polls of the future answer `Pending` and leave the other one.
pub data Waits {ℓ κ} {F : Type ℓ} {A : Type κ} (fu : Future F A) : ℕ → F → F → Type (ℓ ⊔ κ) where
  none_yet : {f : F} → Waits fu 0 f f
  once_more :
      {n : ℕ} {f f' f'' : F}
      → Gives (fu.poll f) (pending, f')
      → Waits fu n f' f''
      → Waits fu (suc n) f f''

module _ {ℓ κ μ ν} {F : Type ℓ} {A : Type κ} {G : Type μ} {B : Type ν} (fu : Future F A)
    (gu : Future G B) where
  pending-Gives :
      {f f' : F} {g g' : G}
      → Gives (fu.poll f) (pending, f')
      → Gives (gu.poll g) (pending, g')
      → Gives (poll fu gu (some (f, g))) (pending, some (f', g'))
  unfolding poll on_left
  pending-Gives {f'} {g} h i =
      >>=-Gives (λ r. on_left fu gu g r) h (map-Gives (on_right fu gu f') i)

  left-Resolves :
      (n : ℕ) {f f' f'' : F} {g g' : G} {a : A}
      → Waits fu n f f'
      → Waits gu n g g'
      → Gives (fu.poll f') (ready a, f'')
      → Resolves (select_future fu gu) (some (f, g)) (left (a, g'))
  unfolding poll on_left
  left-Resolves zero {g} none_yet none_yet h =
      resolve (>>=-Gives (λ r. on_left fu gu g r) h (return-Gives _))
  left-Resolves (suc n) (once_more h w) (once_more i v) l =
      wait (pending-Gives h i) (left-Resolves n w v l)

  right-Resolves :
      (n : ℕ) {f f' : F} {g g' g'' : G} {b : B}
      → Waits fu (suc n) f f'
      → Waits gu n g g'
      → Gives (gu.poll g') (ready b, g'')
      → Resolves (select_future fu gu) (some (f, g)) (right (b, f'))
  unfolding poll on_left
  right-Resolves zero {f'} {g} (once_more h none_yet) none_yet l =
      resolve (>>=-Gives (λ r. on_left fu gu g r) h (map-Gives (on_right fu gu f') l))
  right-Resolves (suc n) (once_more h w) (once_more i v) l =
      wait (pending-Gives h i) (right-Resolves n w v l)

  -- `select` comes to the value of the future that is ready first, the first future if both are
  -- ready in the same poll, and gives the other future back after just the polls that it had: as
  -- many as the first had before it was ready, or as many as the second had with the last one.
  pub select_resolves :
      (n : ℕ) (f f' f'' : F) (g g' g'' : G) (a : A) (b : B)
      → Waits fu n f f'
      → Waits gu n g g'
      → (Gives (fu.poll f') (ready a, f'')
          → Resolves (select_future fu gu) (new fu gu f g) (left (a, g')))
        × (Gives (fu.poll f') (pending, f'')
            → Gives (gu.poll g') (ready b, g'')
            → Resolves (select_future fu gu) (new fu gu f g) (right (b, f'')))
  select_resolves n f f' f'' g g' g'' a b w v =
      (left-Resolves n w v, λ h. right-Resolves n (waits_more w h) v)
    where
      waits_more :
          {n : ℕ} {f f' f'' : F}
          → Waits fu n f f'
          → Gives (fu.poll f') (pending, f'')
          → Waits fu (suc n) f f''
      waits_more none_yet h = once_more h none_yet
      waits_more (once_more g w) h = once_more g (waits_more w h)
