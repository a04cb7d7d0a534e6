-- ===== src/FutureExt/Fuse.antt =====
-- futures-util/src/future/future/fuse.rs
use futures_rs.Prelude.{ℕ, suc, ◌≡◌, refl, Option, none, some, Bool, true, false, is_none}
use futures_rs.Task.{Poll, ready, pending}
use futures_rs.Run.{Run, return, ◌>>=◌, Gives, map-Gives, return-Gives}
use futures_rs.Stream.{Future, Resolves, resolve, wait}

module _ {ℓ κ} {F : Type ℓ} {A : Type κ} (fu : Future F A) where
  abbrev pub new : F → Option F
  new fut = some fut

  abbrev pub terminated : Option F
  terminated = none

  abbrev pub is_terminated : Option F → Bool
  is_terminated t = is_none t

  abbrev pub on_output : Poll A × F → Poll A × Option F
  on_output (pending, fut) = (pending, some fut)
  on_output (ready a, fut) = (ready a, none)

  unfoldable pub poll : Option F → Run (Poll A × Option F)
  poll (some fut) = fu.poll fut >>= λ r. return (on_output r)
  poll none = return (pending, none)

  abbrev pub fuse_future : Future (Option F) A
  fuse_future = record { poll = poll }

  -- How many polls answer `Pending` before the value.
  unfoldable pub waits : {f : F} {a : A} → Resolves fu f a → ℕ
  waits (resolve h) = 0
  waits (wait h r) = suc (waits r)

  -- The polls of the future answer `Pending`, as often as the number says, until one answers the
  -- value, and `Pending` for ever after.
  pub data OnlyOnce : ℕ → Option F → A → Type (ℓ ⊔ κ) where
    yet :
        {n : ℕ} {t t' : Option F} {a : A}
        → Gives (poll t) (pending, t')
        → is_terminated t ≡ false
        → OnlyOnce n t' a
        → OnlyOnce (suc n) t a
    once :
        {t t' : Option F} {a : A}
        → Gives (poll t) (ready a, t')
        → is_terminated t ≡ false
        → is_terminated t' ≡ true
        → Gives (poll t') (pending, t')
        → OnlyOnce 0 t a

  -- If a future comes to a value, then `fuse` of it does so too, with the same number of `Pending`
  -- before; it says that it is terminated just from then on, and all its polls answer `Pending` then.
  pub fuse_once : (fut : F) (a : A) (r : Resolves fu fut a) → OnlyOnce (waits r) (new fut) a
  unfolding poll waits
  fuse_once fut a (resolve h) = once (map-Gives on_output h) refl refl (return-Gives _)
  fuse_once fut a (wait h r) = yet (map-Gives on_output h) refl (fuse_once _ a r)
